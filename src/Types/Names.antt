-- ===== src/Types/Names.antt =====
-- Identifiers, and types/reverie_name.rs.
use Prim.Native.String.{◌++◌}
use reveries_network.Common.{
  ℕ, String, ◌+◌, ◌%◌, ◌^◌, ◌≡◌, ◌↔◌, Bool, ◌&&◌, List, arith, Eq, ◌==◌, ==_iff, string_eq, nat_beq,
  nat_beq_iff, true, decimal,
}

abbrev pub PeerId : Type 0
PeerId = String

abbrev pub ReverieId : Type 0
ReverieId = String

abbrev pub PublicKey : Type 0
PublicKey = String

abbrev pub Bytes : Type 0
Bytes = List ℕ

pub record ReverieNameWithNonce : Type 0 where
  pub name : String
  pub nonce : ℕ

-- `Display`
unfoldable pub name_to_string : ReverieNameWithNonce → String
name_to_string n = n.name ++ ("-" ++ decimal n.nonce)

-- a usize of 64 bits, which wraps in a release build
unfoldable pub increment_nonce : ReverieNameWithNonce → ReverieNameWithNonce
increment_nonce n = record n { nonce = (n.nonce + 1) % 2 ^ 64 }

abbrev pub name_beq : ReverieNameWithNonce → ReverieNameWithNonce → Bool
name_beq a b = (a.name == b.name) && nat_beq a.nonce b.nonce

pub name_beq_iff : (a b : ReverieNameWithNonce) → (name_beq a b ≡ true) ↔ (a ≡ b)
name_beq_iff a b = ground (arith, ==_iff a.name b.name, nat_beq_iff a.nonce b.nonce)

instance abbrev pub name_eq : Eq ReverieNameWithNonce
name_eq = record { beq = name_beq; beq_iff = name_beq_iff }
