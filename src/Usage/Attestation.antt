-- ===== src/Usage/Attestation.antt =====
-- The check of a TDX quote in runtime/src/tee_attestation.rs.
use Prim.Native.String.{◌++◌ as text_append}
use reveries_network.Common.{
  arith, ℕ, ◌≡◌, refl, String, Bool, true, [], ◌∷◌, ◌++◌, Result, ok, err, ◌>>=◌, bind-ok,
  if◌then◌else◌, Bool-cases, inl, inr, ap,
}
use reveries_network.Types.{Bytes}

pub data DcapError : Type 0 where
  collateral_load_error verification_panic dcap_failed tcb_status_not_ok : String → DcapError

-- The status of a verified quote: whether it is `TcbStatus::OK`, and its debug text.
pub record TcbStatus : Type 0 where
  pub is_ok : Bool
  pub text : String

-- What the code takes of sha2, dcap_rs and the clock: a clock before the epoch is an error, and a
-- panic of the verification is caught with its message. `tdx_enabled` is the feature, on Linux.
pub record Dcap : Type 0 where
  pub sha256 : Bytes → Bytes
  pub clock : Result String ℕ
  pub verify_quote_dcapv4 : Bytes → ℕ → Result String TcbStatus
  pub tdx_enabled : Bool

abbrev zeros : Bytes
zeros =
    0 ∷ (0 ∷ (0 ∷ (0 ∷ (0 ∷ (0 ∷ (0 ∷ (0 ∷ (0 ∷ (0 ∷ (0 ∷ (0 ∷ (0 ∷ (0 ∷ (0 ∷ (0 ∷ [])))))))))))))))

-- The hash of the payload, filled up to 64 bytes.
unfoldable pub hash_payload_for_tdx_report_data : Dcap → Bytes → Bytes
hash_payload_for_tdx_report_data d payload = d.sha256 payload ++ (zeros ++ zeros)

clock_or : Result String ℕ → Result DcapError ℕ
clock_or (ok now) = ok now
clock_or (err e) = err (dcap_failed (text_append "Failed to get system time: " e))

output_or : Result String TcbStatus → Result DcapError TcbStatus
output_or (ok status) = ok status
output_or (err message) = err (verification_panic message)

status_verdict : TcbStatus → Result DcapError Bool
status_verdict status = if status.is_ok then ok true else err (tcb_status_not_ok status.text)

-- what is compiled with the feature; the embedded collaterals always load
check_quote : Dcap → Bytes → Result DcapError Bool
unfolding clock_or output_or status_verdict
check_quote d quote = do
  now ← clock_or d.clock
  status ← output_or (d.verify_quote_dcapv4 quote now)
  status_verdict status

-- Without the feature the check is skipped.
unfoldable pub perform_dcap_verification : Dcap → Bytes → Result DcapError Bool
unfolding check_quote
perform_dcap_verification d quote = if d.tdx_enabled then check_quote d quote else ok true

-- Where the feature is on: the clock gives a time at which the quote verifies with the status OK.
abbrev pub IsVouched : Dcap → Bytes → Type 0
IsVouched d quote =
    d.tdx_enabled ≡ true
    → (now : ℕ) × (status : TcbStatus) × (d.clock ≡ ok now)
      × (d.verify_quote_dcapv4 quote now ≡ ok status)
      × (status.is_ok ≡ true)

clock_or-ok : (r : Result String ℕ) (now : ℕ) → clock_or r ≡ ok now → r ≡ ok now
unfolding clock_or
clock_or-ok (ok t) now h = cc
clock_or-ok (err e) now h = cc

output_or-ok :
    (r : Result String TcbStatus) (status : TcbStatus) → output_or r ≡ ok status → r ≡ ok status
unfolding output_or
output_or-ok (ok t) status h = let same : t ≡ status = cc in ap (λ x. ok x) same
output_or-ok (err e) status h = cc

status_verdict-ok :
    (status : TcbStatus) (b : Bool) → status_verdict status ≡ ok b → status.is_ok ≡ true
unfolding status_verdict
status_verdict-ok status b h = elim (Bool-cases status.is_ok) [
  | inl fine ↦ fine
  | inr bad ↦
      let fails : status_verdict status ≡ err (tcb_status_not_ok status.text) = ground arith in cc
]

module _ (d : Dcap) (quote : Bytes) where
  pub perform_dcap_verification-IsVouched :
      (b : Bool) → perform_dcap_verification d quote ≡ ok b → IsVouched d quote
  unfolding perform_dcap_verification check_quote
  perform_dcap_verification-IsVouched b h on =
      let checked : check_quote d quote ≡ ok b = ground arith in
      let (now, at, h1) = bind-ok _ _ b checked in
      let (status, verifies, h2) = bind-ok _ _ b h1 in
      (
        now,
        status,
        clock_or-ok _ now at,
        output_or-ok _ status verifies,
        status_verdict-ok status b h2,
      )

  pub IsVouched-perform_dcap_verification :
      IsVouched d quote → perform_dcap_verification d quote ≡ ok true
  unfolding perform_dcap_verification check_quote clock_or output_or status_verdict
  IsVouched-perform_dcap_verification v = elim (Bool-cases d.tdx_enabled) [
    | inl on ↦
        let (now, status, at, verifies, fine) = v on in
        rw (on, perform_dcap_verification, at, verifies, fine) refl
    | inr off ↦ rw off refl
  ]
