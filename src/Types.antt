-- ===== src/Types.antt =====
-- The data that nodes keep and exchange: node/p2p-network/src/types.
-- Peer ids, keys, capsules and fragments are opaque to this code: it compares them, stores them and
-- hands them to libraries. A peer id is the text of its base58 form, a key the text of its display
-- form, and what the source keeps as `Vec<u8>` is a list of numbers.
mod Names
mod Access
mod Reveries
mod Status
mod Messages
pub mod Kademlia
pub mod Text
pub mod Naming
pub mod Signatures
pub use Names.*
pub use Access.*
pub use Reveries.*
pub use Status.*
pub use Messages.*
