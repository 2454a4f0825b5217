-- ===== src/Types/Access.antt =====
-- types/signatures.rs: how a reverie is guarded, and what a requester shows.
use reveries_network.Common.{ℕ, String}
use reveries_network.Types.Names.{PublicKey, Bytes}

-- Addresses and account ids are texts; contract arguments are JSON texts.
pub data AccessCondition : Type 0 where
  umbral : PublicKey → AccessCondition
  ecdsa : String → AccessCondition
  ed25519 : String → AccessCondition
  near_contract : String → String → ℕ → AccessCondition
  eth_contract : String → String → String → AccessCondition

pub data AccessKey : Type 0 where
  ecdsa_signature : Bytes → AccessKey
  umbral_signature : Bytes → AccessKey
  ed25519_signature : Bytes → AccessKey
  near_contract_key : String → String → ℕ → AccessKey
  eth_contract_key : String → String → String → AccessKey

-- `AccessKey::get_type`
unfoldable pub get_type : AccessKey → String
get_type (umbral_signature s) = "umbral"
get_type (ecdsa_signature s) = "ecdsa"
get_type (ed25519_signature s) = "ed25519"
get_type (near_contract_key c u n) = "near_contract"
get_type (eth_contract_key c m a) = "eth_contract"
