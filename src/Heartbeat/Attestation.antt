-- ===== src/Heartbeat/Attestation.antt =====
-- The payload of a heartbeat: `TeeAttestation` of tee_quote_parser.rs.
use reveries_network.Common.{ℕ, Option, none, some}
use reveries_network.Types.{Bytes}

-- A parsed quote stands for the bytes that the quote library parsed; no code here looks inside.
pub data QuoteV4 : Type 0 where
  from_bytes : Bytes → QuoteV4

pub record TeeAttestation : Type 0 where
  pub tee_attestation : Option QuoteV4
  pub tee_attestation_bytes : Option Bytes
  pub block_height : ℕ  -- u32

abbrev pub default_attestation : TeeAttestation
default_attestation = record {
  tee_attestation = none;
  tee_attestation_bytes = none;
  block_height = 1;
}

pub record TeeAttestationBytes : Type 0 where
  pub tee_attestation_bytes : Option Bytes
  pub block_height : ℕ

unfoldable pub to_wire : TeeAttestation → TeeAttestationBytes
to_wire t = record {
  tee_attestation_bytes = t.tee_attestation_bytes;
  block_height = t.block_height;
}

attestation_of : ℕ → Option Bytes → TeeAttestation
attestation_of height none = record {
  tee_attestation = none;
  tee_attestation_bytes = none;
  block_height = height;
}
attestation_of height (some bytes) = record {
  tee_attestation = some (from_bytes bytes);
  tee_attestation_bytes = some bytes;
  block_height = height;
}

unfoldable pub of_wire : TeeAttestationBytes → TeeAttestation
unfolding attestation_of
of_wire w = attestation_of w.block_height w.tee_attestation_bytes
