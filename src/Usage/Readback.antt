-- ===== src/Usage/Readback.antt =====
-- usage_db.rs: what is stored is read back.
use reveries_network.Common.{
  String, Bool, ◌≡◌, refl, subst, true, false, Option, none, some, List, [], ◌∷◌, ◌++◌, map, any,
  keep_if, ok, if◌then◌else◌, string_eq, arith,
}
use mathlib.Core.List.{Perm}
use mathlib.Core.List.Perm
use reveries_network.Types.{ReverieId}
use reveries_network.Proxy.Usage.{ToolUse, UsageReportPayload}
use reveries_network.Usage.Store.{
  Sqlite, UsageTable, UsageRow, store_usage_payload, row_of, payload_of, tool_of, tool_field,
  or_null, read_usage_data_for_reverie, is_of, is_request, binds,
}

-- The input of the tool is written as JSON and read as it was.
abbrev pub IsReadBack : Sqlite → Option ToolUse → Type 0
IsReadBack db none = Unit
IsReadBack db (some t) =
    (json : String) × (db.json_to_string t.input ≡ some json)
    × (db.json_from_str json ≡ some t.input)

module _ (db : Sqlite) where
  payload_of-row_of :
      (p : UsageReportPayload) → IsReadBack db p.usage.tool_use → payload_of db (row_of db p) ≡ p
  unfolding payload_of row_of tool_of
  payload_of-row_of p h =
      λ i. record p { usage = record p.usage { tool_use = back p.usage.tool_use h i } }
    where
      back :
          (t : Option ToolUse)
          → IsReadBack db t
          → tool_of db
              (tool_field (λ u. u.id) t)
              (tool_field (λ u. u.name) t)
              (tool_field (λ u. or_null (db.json_to_string u.input)) t)
              (tool_field (λ u. u.tool_type) t)
            ≡ t
      back none h = refl
      back (some t) (json, written, read) = rw (written, read) refl

  keep_if-append :
      (id : ReverieId) (t : UsageTable) (r : UsageRow)
      → keep_if (λ x. is_of id x.reverie_id) (t ++ (r ∷ []))
        ≡ keep_if (λ x. is_of id x.reverie_id) t ++ (if is_of id r.reverie_id then r ∷ [] else [])
  keep_if-append id [] r = ground arith
  keep_if-append id (x ∷ t) r = ground (arith, keep_if-append id t r)

  payloads-append :
      (p : UsageReportPayload) (b : Bool) (r : UsageRow) (rs : List UsageRow)
      → payload_of db r ≡ p
      → map (payload_of db) (rs ++ (if b then r ∷ [] else []))
        ≡ map (payload_of db) rs ++ (if b then p ∷ [] else [])
  payloads-append p true r [] e = rw e refl
  payloads-append p false r [] e = refl
  payloads-append p b r (x ∷ rs) e = rw (payloads-append p b r rs e) refl

-- A payload with a new request id, whose numbers the database can hold and whose tool input survives
-- JSON, is stored, and is from then on read back as it was among the reports of its reverie, beside
-- those that were there before; the reports of all other reveries stay the same. The order is the
-- database's.
pub read_usage_data_for_reverie-store_usage_payload :
    (db : Sqlite) (p : UsageReportPayload) (t : UsageTable) (id : ReverieId)
    → db.connected ≡ true
    → ((rows : UsageTable) → Perm (db.order_by_timestamp rows) rows)
    → binds db p ≡ true
    → any (is_request p.request_id) t ≡ false
    → IsReadBack db p.usage.tool_use
    → (t' : UsageTable) × (before : List UsageReportPayload) × (after : List UsageReportPayload)
      × (store_usage_payload db p t ≡ ok t')
      × (read_usage_data_for_reverie db id t ≡ ok before)
      × (read_usage_data_for_reverie db id t' ≡ ok after)
      × Perm after (before ++ (if is_of id p.usage.reverie_id then p ∷ [] else []))
unfolding store_usage_payload read_usage_data_for_reverie
read_usage_data_for_reverie-store_usage_payload db p t id up ordered fits new back =
    let r = row_of db p in
    let t' = t ++ (r ∷ []) in
    let rows = λ (x : UsageTable). keep_if (λ y. is_of id y.reverie_id) x in
    let read = λ (x : UsageTable). map (payload_of db) (db.order_by_timestamp (rows x)) in
    let news = if is_of id p.usage.reverie_id then p ∷ [] else [] in
    let same : map (payload_of db) (rows t') ≡ map (payload_of db) (rows t) ++ news =
      rw (keep_if-append db id t r) (
        unfold row_of in
        payloads-append db p (is_of id p.usage.reverie_id) r (rows t)
          (payload_of-row_of db p back)) in
    let first : Perm (read t') (map (payload_of db) (rows t) ++ news) =
      subst (Perm (read t')) same (Perm.map (payload_of db) (ordered (rows t'))) in
    let second : Perm (map (payload_of db) (rows t) ++ news) (read t ++ news) =
      Perm.append_right news (Perm.symm (Perm.map (payload_of db) (ordered (rows t)))) in
    (t', read t, read t', rw (up, fits, new) refl, rw up refl, rw up refl, Perm.trans first second)
