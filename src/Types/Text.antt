-- ===== src/Types/Text.antt =====
-- types/signatures.rs: access keys and conditions as texts, and back.
use Prim.Native.String.{◌++◌, slice, len}
use text.Mathlib.Text.{starts_with, find?}
use reveries_network.Common.{
  ◌+◌, String, Option, none, some, Result, ok, err, ◌>>=◌, ok_or, decimal, if◌then◌else◌, ◌==◌,
  string_eq, nat_beq,
}
use Prim.Native.Char.{code}
use reveries_network.Types.Names.{PublicKey, Bytes}
use reveries_network.Types.Access.{
  AccessKey, ecdsa_signature, umbral_signature, ed25519_signature, near_contract_key,
  eth_contract_key, AccessCondition, umbral, ecdsa, ed25519, near_contract, eth_contract,
}

-- What the code takes of hex, umbral_pre and alloy_primitives.
pub record Hex : Type 0 where
  pub encode : Bytes → String
  pub decode : String → Option Bytes
  pub public_key_from_bytes : Bytes → Option PublicKey
  pub address_from_str : String → Option PublicKey

-- `Display` of `AccessKey`
unfoldable pub access_key_to_string : Hex → AccessKey → String
access_key_to_string h (umbral_signature sig) = "UmbralSignature(0x" ++ (h.encode sig ++ ")")
access_key_to_string h (ecdsa_signature sig) = "ECDSASignature(0x" ++ (h.encode sig ++ ")")
access_key_to_string h (ed25519_signature sig) = "Ed25519Signature(0x" ++ (h.encode sig ++ ")")
access_key_to_string h (near_contract_key address spender amount) =
    "NearContract(" ++ (address ++ (", " ++ (spender ++ (", " ++ (decimal amount ++ ")")))))
access_key_to_string h (eth_contract_key address method args) =
    "EthContract(0x" ++ (address ++ (", " ++ (method ++ (", " ++ (args ++ ")")))))

-- `Display` of `AccessCondition`
unfoldable pub condition_to_string : AccessCondition → String
condition_to_string (umbral pubkey) = "umbral:" ++ pubkey
condition_to_string (ecdsa pubkey) = "ecdsa:" ++ pubkey
condition_to_string (ed25519 pubkey) = "ed25519:" ++ pubkey
condition_to_string (near_contract address spender amount) =
    "near_contract:" ++ (address ++ (":" ++ (spender ++ (":" ++ decimal amount))))
condition_to_string (eth_contract address function args) =
    "eth_contract:" ++ (address ++ (":" ++ (function ++ (":" ++ args))))

-- the text before a last `)`, if there is no newline in it: `.` and `$` of the regular expression
unfoldable pub before_parenthesis : String → Option String
before_parenthesis String.[] = none
before_parenthesis (String.◌∷◌ c String.[]) = if nat_beq (code c) 41 then some "" else none
before_parenthesis (String.◌∷◌ c s) = elim (before_parenthesis s) [
  | none ↦ none
  | some t ↦ if nat_beq (code c) 10 then none else some (String.◌∷◌ c t)
]

captured : String → String → Option String
unfolding before_parenthesis
captured prefix s =
    if starts_with s prefix then before_parenthesis (slice s (len prefix) (len s)) else none

made : (Bytes → AccessKey) → Option Bytes → Option AccessKey
made key none = none
made key (some bytes) = some (key bytes)

decoded : Hex → (Bytes → AccessKey) → Option String → Option AccessKey → Option AccessKey
unfolding made
decoded h key none other = other
decoded h key (some content) other = made key (h.decode content)

-- `From<String>` of `AccessKey`; `none` stands for the panic where the hex does not decode.
unfoldable pub access_key_from : Hex → String → Option AccessKey
unfolding decoded captured made
access_key_from h sig = decoded h umbral_signature (captured "Umbral(" sig) (
    decoded h ecdsa_signature (captured "Ecdsa(" sig) (
      decoded h ed25519_signature (captured "Ed25519(" sig) (made umbral_signature (h.decode sig))))

pub data ConditionError : Type 0 where
  no_prefix bad_address bad_hex bad_public_key unimplemented : ConditionError
  unknown_prefix : String → ConditionError

-- `split_once(':')`
unfoldable pub split_once : String → Option (String × String)
split_once s = elim (find? s ":") [
  | none ↦ none
  | some i ↦ some (slice s 0 i, slice s (i + 1) (len s))
]

condition_of : Hex → String → String → Result ConditionError AccessCondition
condition_of h prefix value =
    if prefix == "ecdsa"
    then (ok_or (h.address_from_str value) bad_address >>= λ addr. ok (ecdsa addr))
    else if prefix == "umbral"
    then (ok_or (h.decode value) bad_hex >>= λ bytes.
        ok_or (h.public_key_from_bytes bytes) bad_public_key >>= λ pk. ok (umbral pk))
    else if prefix == "ed25519"
    then ok (ed25519 value)
    else if prefix == "contract"
    then err unimplemented
    else err (unknown_prefix prefix)

split_condition : Hex → Option (String × String) → Result ConditionError AccessCondition
unfolding condition_of
split_condition h none = err no_prefix
split_condition h (some parts) = condition_of h parts.0 parts.1

-- `FromStr` of `AccessCondition`; `unimplemented` stands for its panic.
unfoldable pub condition_from_str : Hex → String → Result ConditionError AccessCondition
unfolding split_condition split_once
condition_from_str h s = split_condition h (split_once s)
