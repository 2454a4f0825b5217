-- ===== src/Usage/Ledger.antt =====
-- `report_usage` of usage_verification.rs: which reports count.
use reveries_network.Common.{
  ◌≡◌, refl, subst, ◌∙◌, if◌then◌else◌, String, true, Option, none, some, [], ◌∷◌, ◌++◌, any,
  Result, ok, err, ==_refl, string_eq, arith, inl, inr, Bool-cases,
}
use reveries_network.Types.{PublicKey}
use reveries_network.Proxy.Usage.{UsageReportPayload}
use reveries_network.Usage.Verify.{
  Verifier, SignedUsageReport, VerificationError, verify_usage_report, IsAuthentic,
  verify_usage_report-IsAuthentic,
}
use reveries_network.Usage.Store.{
  Sqlite, DbError, UsageTable, store_usage_payload, row_of, is_request, binds,
}

-- the part of the node client that takes reports in
pub record UsageNode : Type 0 where
  pub llm_proxy_public_key : Option PublicKey
  pub usage_table : UsageTable

pub data ReportError : Type 0 where
  no_public_key : ReportError
  rejected : VerificationError → ReportError

-- the table after a row was to be stored: an error is logged only
unfoldable pub stored_or : Result DbError UsageTable → UsageTable → UsageTable
stored_or (ok t) old = t
stored_or (err e) old = old

unfoldable pub take_report :
    Sqlite
    → Result VerificationError UsageReportPayload
    → UsageNode
    → UsageNode × Result ReportError String
unfolding stored_or
take_report db (ok payload) n = (
  record n { usage_table = stored_or (store_usage_payload db payload n.usage_table) n.usage_table },
  ok "Usage report verified.",
)
take_report db (err e) n = (n, err (rejected e))

unfoldable pub report_usage :
    Verifier → Sqlite → SignedUsageReport → UsageNode → UsageNode × Result ReportError String
unfolding take_report
report_usage v db report n = elim n.llm_proxy_public_key [
  | none ↦ (n, err no_public_key)
  | some key ↦ take_report db (verify_usage_report v report key) n
]

module _ (db : Sqlite) (p : UsageReportPayload) where
  stored_has :
      (t : UsageTable)
      → db.connected ≡ true
      → binds db p ≡ true
      → any (is_request p.request_id) (stored_or (store_usage_payload db p t) t) ≡ true
  unfolding stored_or store_usage_payload row_of
  stored_has t up fits = elim (Bool-cases (any (is_request p.request_id) t)) [
    | inl old ↦ rw (up, fits, store_usage_payload, old) old
    | inr new ↦ rw (up, fits, store_usage_payload, new) (found t)
  ]
    where
      found : (rs : UsageTable) → any (is_request p.request_id) (rs ++ (row_of db p ∷ [])) ≡ true
      found [] = ground (arith, ==_refl p.request_id)
      found (r ∷ rs) = ground (arith, found rs)

  stored_twice :
      (t : UsageTable)
      → any (is_request p.request_id) t ≡ true
      → stored_or (store_usage_payload db p t) t ≡ t
  unfolding stored_or store_usage_payload
  stored_twice t old = ground arith

report_accepted :
    (v : Verifier) (db : Sqlite) (r : SignedUsageReport) (n : UsageNode) (key : PublicKey)
    (p : UsageReportPayload)
    → n.llm_proxy_public_key ≡ some key
    → IsAuthentic v r key p
    → report_usage v db r n ≡ (
      record n { usage_table = stored_or (store_usage_payload db p n.usage_table) n.usage_table },
      ok "Usage report verified.",
    )
unfolding report_usage take_report
report_accepted v db r n key p known authentic =
    let accepted = (verify_usage_report-IsAuthentic v r key p).1 authentic in
    rw (known, accepted) refl

store_usage_payload-new :
    (db : Sqlite) (p : UsageReportPayload) (t : UsageTable)
    → db.connected ≡ true
    → binds db p ≡ true
    → stored_or (store_usage_payload db p t) t
      ≡ (if any (is_request p.request_id) t then t else t ++ (row_of db p ∷ []))
unfolding stored_or store_usage_payload
store_usage_payload-new db p t up fits = elim (Bool-cases (any (is_request p.request_id) t)) [
  | inl old ↦ rw (up, fits, store_usage_payload, old) refl
  | inr new ↦ rw (up, fits, store_usage_payload, new) refl
]

-- Of two authentic reports with the same request id, only the first counts: it is answered as verified
-- and adds its row to the table, if no row had its request id before, and the second is answered alike
-- and leaves the table as it is. So a report that is sent again is not charged again; and of the
-- messages of one stream, whose reports share the id of the request, only the first is ever charged.
pub report_usage-same_request :
    (v : Verifier) (db : Sqlite) (r s : SignedUsageReport) (n : UsageNode) (key : PublicKey)
    (p q : UsageReportPayload)
    → n.llm_proxy_public_key ≡ some key
    → IsAuthentic v r key p
    → IsAuthentic v s key q
    → q.request_id ≡ p.request_id
    → db.connected ≡ true
    → binds db p ≡ true
    → let t = n.usage_table in
      let n' : UsageNode = record n {
        usage_table = if any (is_request p.request_id) t then t else t ++ (row_of db p ∷ []);
      } in
      (report_usage v db r n ≡ (n', ok "Usage report verified."))
      × (report_usage v db s n' ≡ (n', ok "Usage report verified."))
report_usage-same_request v db r s n key p q known first second same up fits =
    let t = stored_or (store_usage_payload db p n.usage_table) n.usage_table in
    let charged = store_usage_payload-new db p n.usage_table up fits in
    let has : any (is_request q.request_id) t ≡ true =
      rw same (stored_has db p n.usage_table up fits) in
    (
      report_accepted v db r n key p known first ∙ λ i.
          (record n { usage_table = charged i }, ok "Usage report verified."),
      subst
          (λ (u : UsageTable).
            report_usage v db s (record n { usage_table = u })
            ≡ (record n { usage_table = u }, ok "Usage report verified."))
          charged
          (report_accepted v db s (record n { usage_table = t }) key q known second ∙ λ i.
            (record n { usage_table = stored_twice db q t has i }, ok "Usage report verified.")),
    )
