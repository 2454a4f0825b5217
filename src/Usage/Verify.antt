-- ===== src/Usage/Verify.antt =====
-- usage_verification.rs: when a usage report is accepted.
use Prim.Native.String.{◌++◌ as text_append}
use reveries_network.Common.{
  list_beq, list_beq_iff, nat_eq, String, ◌≡◌, ◌↔◌, refl, Bool, true, Option, some, Result, ok, err,
  ◌>>=◌, ok_or, require, require-true, bind-ok, ok_or-ok, ◌∙◌, if◌then◌else◌, ap, arith,
}
use reveries_network.Types.{Bytes, PublicKey}
use reveries_network.Usage.Attestation.{
  Dcap, DcapError, collateral_load_error, verification_panic, dcap_failed, tcb_status_not_ok,
  hash_payload_for_tdx_report_data, perform_dcap_verification, IsVouched,
  perform_dcap_verification-IsVouched, IsVouched-perform_dcap_verification,
}
use reveries_network.Proxy.Usage.{UsageReportPayload}

-- `SignedUsageReport` of llm-proxy/src/usage.rs
pub record SignedUsageReport : Type 0 where
  pub payload : String
  pub signature : String
  pub tdx_quote : String

pub data VerificationError : Type 0 where
  base64_payload base64_signature json_payload signature_format verification_failed base64_tdx_quote
        tdx_quote_binding_mismatch quote_panic :
      VerificationError
  dcap_collateral_load_error dcap_verification_failed dcap_tcb_status_not_ok :
      String → VerificationError

-- `From<DcapError>`
unfoldable pub from_dcap : DcapError → VerificationError
from_dcap (collateral_load_error s) = dcap_collateral_load_error s
from_dcap (verification_panic s) = dcap_verification_failed (text_append "Panic: " s)
from_dcap (dcap_failed s) = dcap_verification_failed s
from_dcap (tcb_status_not_ok s) = dcap_tcb_status_not_ok s

-- What the code takes of base64, serde_json, p256 and dcap_rs. A quote that does not parse is a panic
-- there.
pub record Verifier : Type 0 where
  pub base64_decode : String → Option Bytes
  pub payload_from_slice : Bytes → Option UsageReportPayload
  pub signature_from_slice : Bytes → Option Bytes
  pub verify : PublicKey → Bytes → Bytes → Bool
  pub quote_from_bytes : Bytes → Option Bytes
  pub report_data : Bytes → Bytes
  pub dcap : Dcap

-- the verdict of the check, whose Boolean is not looked at
unfoldable pub dcap_verdict : Result DcapError Bool → Result {0, 0} VerificationError Unit
unfolding from_dcap
dcap_verdict (ok b) = ok tt
dcap_verdict (err e) = err (from_dcap e)

-- The comparison of the payload's hash with the quote's report data, where it is compiled in.
unfoldable pub is_bound : Verifier → Bytes → Bytes → Bool
is_bound v payload_bytes quote =
    if v.dcap.tdx_enabled
    then list_beq (v.report_data quote) (hash_payload_for_tdx_report_data v.dcap payload_bytes)
    else true

unfoldable pub verify_usage_report :
    Verifier → SignedUsageReport → PublicKey → Result VerificationError UsageReportPayload
unfolding dcap_verdict is_bound
verify_usage_report v report key = do
  payload_bytes ← ok_or (v.base64_decode report.payload) base64_payload
  sig_bytes ← ok_or (v.base64_decode report.signature) base64_signature
  payload_data ← ok_or (v.payload_from_slice payload_bytes) json_payload
  signature ← ok_or (v.signature_from_slice sig_bytes) signature_format
  _ ← require (v.verify key payload_bytes signature) verification_failed
  tdx_quote_bytes ← ok_or (v.base64_decode report.tdx_quote) base64_tdx_quote
  quote ← ok_or (v.quote_from_bytes tdx_quote_bytes) quote_panic
  _ ← require (is_bound v payload_bytes quote) tdx_quote_binding_mismatch
  _ ← dcap_verdict (perform_dcap_verification v.dcap quote)
  ok payload_data

-- What makes a report authentic for a payload: bytes that read as the payload and that the key
-- signed, and a quote; where the TDX feature is on, the quote is made for those bytes and verifies.
pub record IsAuthentic (v : Verifier) (report : SignedUsageReport) (key : PublicKey)
    (payload : UsageReportPayload) : Type 0 where
  pub payload_bytes : Bytes
  pub sig_bytes : Bytes
  pub signature : Bytes
  pub quote_bytes : Bytes
  pub quote : Bytes
  pub payload_decodes : v.base64_decode report.payload ≡ some payload_bytes
  pub signature_decodes : v.base64_decode report.signature ≡ some sig_bytes
  pub payload_reads : v.payload_from_slice payload_bytes ≡ some payload
  pub signature_reads : v.signature_from_slice sig_bytes ≡ some signature
  pub signed : v.verify key payload_bytes signature ≡ true
  pub quote_decodes : v.base64_decode report.tdx_quote ≡ some quote_bytes
  pub quote_reads : v.quote_from_bytes quote_bytes ≡ some quote
  pub bound :
      v.dcap.tdx_enabled ≡ true
      → v.report_data quote ≡ hash_payload_for_tdx_report_data v.dcap payload_bytes
  pub vouched : IsVouched v.dcap quote

is_bound-true :
    (v : Verifier) (payload quote : Bytes)
    → (is_bound v payload quote ≡ true) ↔ (
        v.dcap.tdx_enabled ≡ true
        → v.report_data quote ≡ hash_payload_for_tdx_report_data v.dcap payload)
unfolding is_bound
is_bound-true v payload quote =
    let same =
      list_beq_iff (v.report_data quote) (hash_payload_for_tdx_report_data v.dcap payload) in
    ground (arith, same)

dcap_verdict-ok :
    (r : Result DcapError Bool) (u : Unit) → dcap_verdict r ≡ ok u → (b : Bool) × (r ≡ ok b)
unfolding dcap_verdict
dcap_verdict-ok (ok b) u h = (b, refl)
dcap_verdict-ok (err e) u h = cc

module _ (v : Verifier) (report : SignedUsageReport) (key : PublicKey)
    (payload : UsageReportPayload) where
  verify_sound : verify_usage_report v report key ≡ ok payload → IsAuthentic v report key payload
  unfolding verify_usage_report
  verify_sound h =
      let (payload_bytes, decodes, h1) = bind-ok _ _ payload h in
      let (sig_bytes, sig_decodes, h2) = bind-ok _ _ payload h1 in
      let (read, reads, h3) = bind-ok _ _ payload h2 in
      let (signature, sig_reads, h4) = bind-ok _ _ payload h3 in
      let (u, signed, h5) = bind-ok _ _ payload h4 in
      let (quote_bytes, quote_decodes, h6) = bind-ok _ _ payload h5 in
      let (quote, quote_reads, h7) = bind-ok _ _ payload h6 in
      let (u', bound, h8) = bind-ok _ _ payload h7 in
      let (u'', vouched, h9) = bind-ok _ _ payload h8 in
      let same : read ≡ payload = cc in
      record {
        payload_bytes = payload_bytes;
        sig_bytes = sig_bytes;
        signature = signature;
        quote_bytes = quote_bytes;
        quote = quote;
        payload_decodes = ok_or-ok _ _ _ decodes;
        signature_decodes = ok_or-ok _ _ _ sig_decodes;
        payload_reads = ok_or-ok _ _ _ reads ∙ ap some same;
        signature_reads = ok_or-ok _ _ _ sig_reads;
        signed = require-true _ _ u signed;
        quote_decodes = ok_or-ok _ _ _ quote_decodes;
        quote_reads = ok_or-ok _ _ _ quote_reads;
        bound = (is_bound-true v payload_bytes quote).0 (require-true _ _ u' bound);
        vouched =
            let (b, verdict) = dcap_verdict-ok _ u'' vouched in
            perform_dcap_verification-IsVouched v.dcap quote b verdict;
      }

  verify_complete : IsAuthentic v report key payload → verify_usage_report v report key ≡ ok payload
  unfolding verify_usage_report dcap_verdict
  verify_complete a =
      rw
        (
          a.payload_decodes,
          verify_usage_report,
          a.signature_decodes,
          a.payload_reads,
          a.signature_reads,
          a.signed,
          a.quote_decodes,
          a.quote_reads,
          (is_bound-true v a.payload_bytes a.quote).1 a.bound,
          IsVouched-perform_dcap_verification v.dcap a.quote a.vouched,
        )
        refl

-- A usage report is accepted, as a given payload, exactly when it is authentic for it: its payload,
-- its signature and its quote decode, and the key signed the payload's bytes. That the quote is made
-- for those bytes, and that it verifies with the status OK, is asked only where the TDX feature is
-- compiled in.
pub verify_usage_report-IsAuthentic :
    (v : Verifier) (report : SignedUsageReport) (key : PublicKey) (payload : UsageReportPayload)
    → (verify_usage_report v report key ≡ ok payload) ↔ IsAuthentic v report key payload
verify_usage_report-IsAuthentic v report key payload =
    (verify_sound v report key payload, verify_complete v report key payload)
