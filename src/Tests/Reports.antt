-- ===== src/Tests/Reports.antt =====
-- Usage reports at concrete inputs.
use reveries_network.Common.{
  ℕ, ◌<◌, ◌≡◌, ◌↔◌, ◌^◌, refl, String, true, none, some, List, [], ◌∷◌, ◌++◌, ok, length, keep_if,
  any, if◌then◌else◌,
}
use mathlib.Core.List.{Perm}
use mathlib.Core.List.Perm
use reveries_network.Proxy.Usage.{UsageReportPayload}
use reveries_network.Types.{Bytes}
use reveries_network.Usage.Attestation.{hash_payload_for_tdx_report_data}
use reveries_network.Usage.Verify.{
  Verifier, SignedUsageReport, verify_usage_report, IsAuthentic, verify_usage_report-IsAuthentic,
}
use reveries_network.Usage.Store.{
  Sqlite, UsageTable, store_usage_payload, read_usage_data_for_reverie, row_of, payload_of, is_of,
  binds, is_request,
}
use reveries_network.Usage.Metrics.{reverie_metrics}
use reveries_network.Usage.Totals.{
  used, TotalsAre, input_tokens, output_tokens, cache_creation_tokens, cache_read_tokens,
  reverie_metrics-totals,
}
use reveries_network.Usage.Ledger.{UsageNode, report_usage, report_usage-same_request}
use reveries_network.Usage.Readback.{read_usage_data_for_reverie-store_usage_payload}

abbrev payload : String → ℕ → UsageReportPayload
payload request n = record {
  usage = record {
    reverie_id = some "reverie_1";
    spender = some "alice";
    spender_type = some "ecdsa";
    input_tokens = n;
    output_tokens = 2;
    cache_creation_input_tokens = none;
    cache_read_input_tokens = some 1;
    tool_use = some (record { id = "t"; name = "search"; input = "{}"; tool_type = "tool_use" });
  };
  timestamp = n;
  linked_tool_use_id = none;
  request_id = request;
}

abbrev sixteen : Bytes
sixteen =
    0 ∷ (0 ∷ (0 ∷ (0 ∷ (0 ∷ (0 ∷ (0 ∷ (0 ∷ (0 ∷ (0 ∷ (0 ∷ (0 ∷ (0 ∷ (0 ∷ (0 ∷ (0 ∷ [])))))))))))))))

-- Every text decodes to one byte, which reads as a payload.
abbrev verifier : Verifier
verifier = record {
  base64_decode = λ s. some (1 ∷ []);
  payload_from_slice = λ b. some (payload "r1" 7);
  signature_from_slice = λ b. some b;
  verify = λ key b s. true;
  quote_from_bytes = λ b. some b;
  report_data = λ q. sixteen ++ (sixteen ++ (sixteen ++ sixteen));
  dcap = record {
    sha256 = λ b. sixteen ++ sixteen;
    clock = ok 1_700_000_000;
    verify_quote_dcapv4 = λ q now. ok (record { is_ok = true; text = "OK" });
    tdx_enabled = true;
  };
}

abbrev report : SignedUsageReport
report = record { payload = "p"; signature = "s"; tdx_quote = "q" }

verify_usage_report-IsAuthentic_example :
    (verify_usage_report verifier report "key" ≡ ok (payload "r1" 7))
    ↔ IsAuthentic verifier report "key" (payload "r1" 7)
verify_usage_report-IsAuthentic_example =
    verify_usage_report-IsAuthentic verifier report "key" (payload "r1" 7)

abbrev authentic : IsAuthentic verifier report "key" (payload "r1" 7)
authentic =
    unfold hash_payload_for_tdx_report_data in
    record {
      payload_bytes = 1 ∷ [];
      sig_bytes = 1 ∷ [];
      signature = 1 ∷ [];
      quote_bytes = 1 ∷ [];
      quote = 1 ∷ [];
      payload_decodes = refl;
      signature_decodes = refl;
      payload_reads = refl;
      signature_reads = refl;
      signed = refl;
      quote_decodes = refl;
      quote_reads = refl;
      bound = λ on. refl;
      vouched = λ on. (1_700_000_000, record { is_ok = true; text = "OK" }, refl, refl, refl);
    }

abbrev db : Sqlite
db = record {
  connected = true;
  fits = λ n. true;
  order_by_timestamp = λ rows. rows;
  json_to_string = λ j. some j;
  json_from_str = λ j. some j;
}

abbrev in_order : (rows : UsageTable) → Perm (db.order_by_timestamp rows) rows
in_order rows = Perm.refl rows

abbrev table : UsageTable
table = row_of db (payload "r0" 3) ∷ (row_of db (payload "r2" 4) ∷ [])

used-table : used db input_tokens "reverie_1" table ≡ 7
unfolding row_of payload_of
used-table = refl

reverie_metrics-totals_example :
    let m = reverie_metrics db "reverie_1" table in
    TotalsAre m
      (used db input_tokens "reverie_1" table)
      (used db output_tokens "reverie_1" table)
      (used db cache_creation_tokens "reverie_1" table)
      (used db cache_read_tokens "reverie_1" table)
    × (length m.usage_records ≡ length (keep_if (λ r. is_of "reverie_1" r.reverie_id) table))
    × (used db input_tokens "reverie_1" table < 2 ^ 64
        → m.total_input_tokens ≡ used db input_tokens "reverie_1" table)
reverie_metrics-totals_example = reverie_metrics-totals db "reverie_1" table refl in_order

abbrev node : UsageNode
node = record { llm_proxy_public_key = some "key"; usage_table = table }

report_usage-same_request_example :
    let t = node.usage_table in
    let n' : UsageNode = record node {
      usage_table = if any (is_request "r1") t then t else t ++ (row_of db (payload "r1" 7) ∷ []);
    } in
    (report_usage verifier db report node ≡ (n', ok "Usage report verified."))
    × (report_usage verifier db report n' ≡ (n', ok "Usage report verified."))
unfolding binds
report_usage-same_request_example =
    report_usage-same_request verifier db report report node "key" (payload "r1" 7) (payload "r1" 7)
      refl authentic authentic refl refl refl

read_usage_data_for_reverie-store_usage_payload_example :
    let p = payload "r1" 7 in
    (t' : UsageTable) × (before : List UsageReportPayload) × (after : List UsageReportPayload)
    × (store_usage_payload db p table ≡ ok t')
    × (read_usage_data_for_reverie db "reverie_1" table ≡ ok before)
    × (read_usage_data_for_reverie db "reverie_1" t' ≡ ok after)
    × Perm after (before ++ (if is_of "reverie_1" p.usage.reverie_id then p ∷ [] else []))
unfolding binds row_of
read_usage_data_for_reverie-store_usage_payload_example =
    read_usage_data_for_reverie-store_usage_payload db (payload "r1" 7) table "reverie_1" refl
      in_order refl refl ("{}", refl, refl)
