-- ===== src/Types/Kademlia.antt =====
-- types/kademlia_keys.rs and the key of types/node_status.rs: record keys by their text prefixes.
use Prim.Native.String.{◌++◌, slice, len, find}
use Prim.Native.Char.{code}
use Prim.Native.String.append
use text.Mathlib.TextLemmas.{append_assoc}
use text.Mathlib.Text.{starts_with}
use text.Mathlib.TextEquality.{starts_with_iff}
use text.Mathlib.TextPositions.{starts_with-append, slice-append_right, len-append}
use reveries_network.Common.{
  ℕ, String, true, false, Option, none, some, ◌≡◌, ◌≢◌, ap, arith, if◌then◌else◌, Bool-cases, inl,
  inr, ltb, lt→ltb, ◌<◌, subst,
}

abbrev pub peer_id_to_node_status : String
peer_id_to_node_status = "vessel_peer_id_"

abbrev pub reverie_id_prefix : String
reverie_id_prefix = "reverie_"

abbrev pub reverie_id_to_name_kadkey_prefix : String
reverie_id_to_name_kadkey_prefix = "reverie_id_to_name_"

pub data KademliaKey : Type 0 where
  peer_id_to_node_status_key : String → KademliaKey
  reverie_id_to_name_key : String → KademliaKey
  reverie_id_to_reverie : String → KademliaKey
  unknown : String → KademliaKey

-- `s.split(prefix)[1]` where `s` starts with the prefix: the text up to the next occurrence.
second_piece : String → String → String
second_piece prefix s =
    let rest = slice s (len prefix) (len s) in
    if ltb (len rest) (find rest prefix) then rest else slice rest 0 (find rest prefix)

-- `PeerIdToNodeStatusKey::from_string` and `ReverieIdToNameKey::from_string`; `none` is the error.
key_from_string : String → String → Option String
unfolding second_piece
key_from_string prefix s = if starts_with s prefix then some (second_piece prefix s) else none

-- `KademliaKey::from`: the prefixes are tried in this order, and `unwrap` takes what `from_string`
-- returns.
unwrap_or_unknown : (String → KademliaKey) → String → Option String → KademliaKey
unwrap_or_unknown f s none = unknown s
unwrap_or_unknown f s (some x) = f x

unfoldable pub from : String → KademliaKey
unfolding key_from_string unwrap_or_unknown
from s =
    if starts_with s peer_id_to_node_status
    then unwrap_or_unknown peer_id_to_node_status_key s (key_from_string peer_id_to_node_status s)
    else if starts_with s reverie_id_prefix
    then reverie_id_to_reverie s
    else if starts_with s reverie_id_to_name_kadkey_prefix
    then unwrap_or_unknown reverie_id_to_name_key s
        (key_from_string reverie_id_to_name_kadkey_prefix s)
    else unknown s

-- The `to_string` of the two keys that carry a prefix.
unfoldable pub node_status_to_string : String → String
node_status_to_string peer = peer_id_to_node_status ++ peer

unfoldable pub name_key_to_string : String → String
name_key_to_string name = reverie_id_to_name_kadkey_prefix ++ name

abbrev first_code : String → ℕ
first_code String.[] = 0
first_code (String.◌∷◌ c s) = code c

reverie_not_vessel :
    (n : String) → starts_with (reverie_id_prefix ++ n) peer_id_to_node_status ≡ false
reverie_not_vessel n =
    elim (Bool-cases (starts_with (reverie_id_prefix ++ n) peer_id_to_node_status)) [
      | inl y ↦
          let (t, e) = (starts_with_iff _ _).0 y in
          let f : first_code (peer_id_to_node_status ++ t) ≡ first_code (reverie_id_prefix ++ n) =
            ap first_code e in
          let l : first_code (peer_id_to_node_status ++ t) ≡ 118 =
            ap first_code (append.cons "v" "essel_peer_id_" t) in
          let r : first_code (reverie_id_prefix ++ n) ≡ 114 =
            ap first_code (append.cons "r" "everie_" n) in
          absurd (omega arith)
      | inr w ↦ w
    ]

name_key-reverie :
    (n : String) → starts_with (reverie_id_to_name_kadkey_prefix ++ n) reverie_id_prefix ≡ true
name_key-reverie n =
    rw (append_assoc "reverie_" "id_to_name_" n)
      (starts_with-append reverie_id_prefix ("id_to_name_" ++ n))

name_prefix_is_reverie_prefix :
    (s : String)
    → starts_with s reverie_id_to_name_kadkey_prefix ≡ true
    → starts_with s reverie_id_prefix ≡ true
name_prefix_is_reverie_prefix s h =
    let (t, e) = (starts_with_iff s reverie_id_to_name_kadkey_prefix).0 h in
    subst (λ v. starts_with v reverie_id_prefix ≡ true) e (name_key-reverie t)

-- No record key is ever read as the key of an agent's name: each text that begins with the prefix
-- of those keys begins with the prefix of reverie ids too, and that test comes first.
pub from-ne-reverie_id_to_name_key : (s name : String) → from s ≢ reverie_id_to_name_key name
unfolding from
from-ne-reverie_id_to_name_key s name h = ground (arith, name_prefix_is_reverie_prefix s)

-- A node status key is read back as the peer id that it was written for, if the prefix does not
-- occur in that id.
from-node_status_to_string :
    (peer : String)
    → len peer < find peer peer_id_to_node_status
    → from (node_status_to_string peer) ≡ peer_id_to_node_status_key peer
unfolding from node_status_to_string
from-node_status_to_string peer fresh = rw (
  starts_with-append peer_id_to_node_status peer,
  len-append peer_id_to_node_status peer,
  slice-append_right peer_id_to_node_status peer,
  lt→ltb _ _ fresh,
)

-- A reverie id, also one of an agent's name key, is read back as itself.
pub from-reverie_id :
    (n : String) → from (reverie_id_prefix ++ n) ≡ reverie_id_to_reverie (reverie_id_prefix ++ n)
unfolding from
from-reverie_id n = rw (reverie_not_vessel n, starts_with-append reverie_id_prefix n)
