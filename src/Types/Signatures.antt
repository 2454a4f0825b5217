-- ===== src/Types/Signatures.antt =====
-- types/signatures.rs: whether an access key opens an access condition.
use reveries_network.Common.{Bool, false, Option, none, some, ◌==◌, string_eq}
use reveries_network.Types.Names.{PublicKey, Bytes, ReverieId}
use reveries_network.Types.Access.{
  AccessKey, ecdsa_signature, umbral_signature, AccessCondition, umbral, ecdsa,
}

-- What the code takes of the crates sha3, umbral_pre and alloy_primitives.
pub record Primitives : Type 0 where
  pub keccak256 : ReverieId → Bytes
  pub umbral_signature_from_slice : Bytes → Option Bytes
  pub umbral_signature_verify : Bytes → PublicKey → Bytes → Bool
  pub ecdsa_signature_try_from : Bytes → Option Bytes
  pub recover_address_from_prehash : Bytes → Bytes → Option PublicKey

unfoldable pub umbral_opens : Primitives → Option Bytes → PublicKey → ReverieId → Bool
umbral_opens c none expected id = false
umbral_opens c (some s) expected id = c.umbral_signature_verify s expected (c.keccak256 id)

unfoldable pub recovers_to : Option PublicKey → PublicKey → Bool
recovers_to none expected = false
recovers_to (some address) expected = address == expected

unfoldable pub ecdsa_opens : Primitives → Option Bytes → PublicKey → ReverieId → Bool
unfolding recovers_to
ecdsa_opens c none expected id = false
ecdsa_opens c (some s) expected id =
    recovers_to (c.recover_address_from_prehash s (c.keccak256 id)) expected

-- `none` stands for the panic of `unimplemented!`.
unfoldable pub verify_access : Primitives → AccessKey → AccessCondition → ReverieId → Option Bool
unfolding umbral_opens ecdsa_opens
verify_access c (umbral_signature s) (umbral expected) id =
    some (umbral_opens c (c.umbral_signature_from_slice s) expected id)
verify_access c (umbral_signature s) _ id = some false
verify_access c (ecdsa_signature s) (ecdsa expected) id =
    some (ecdsa_opens c (c.ecdsa_signature_try_from s) expected id)
verify_access c (ecdsa_signature s) _ id = some false
verify_access c _ condition id = none
