-- ===== src/Usage/Totals.antt =====
-- What the metrics of a reverie add up to.
use reveries_network.Common.{
  ℕ, ◌+◌, ◌%◌, ◌^◌, ◌<◌, ◌≡◌, refl, ◌∙◌, true, List, [], ◌∷◌, map, sum, length, length-append,
  keep_if, string_eq, arith, length-map,
}
use mathlib.Core.List.{Perm, Permᴰ}
use mathlib.Core.List.Perm
use mathlib.Core.Logic.{∥∥₁_elim}
use reveries_network.Types.{ReverieId}
use reveries_network.Proxy.Usage.{UsageReportPayload}
use reveries_network.Usage.Store.{
  Sqlite, UsageTable, payload_of, read_usage_data_for_reverie, is_of,
}
use reveries_network.Usage.Metrics.{
  McpToolUsageMetrics, default_metrics, add_u64, add_usage_record, usage_record, add_all,
  metrics_of, reverie_metrics, unwrap_or_zero,
}

module _ {A : Type 0} (f : A → ℕ) where
  -- numbers added one by one, as u64
  abbrev add_each : List A → ℕ → ℕ
  add_each [] t = t
  add_each (x ∷ xs) t = add_each xs (add_u64 t (f x))

  add_each_lem : (xs : List A) (t : ℕ) → t < 2 ^ 64 → add_each xs t ≡ (t + sum (map f xs)) % 2 ^ 64
  unfolding add_u64
  add_each_lem [] t h = omega arith
  add_each_lem (x ∷ xs) t h =
      let small : add_u64 t (f x) < 2 ^ 64 = omega arith in
      omega (arith, add_each_lem xs (add_u64 t (f x)) small)

sum_perm : {xs ys : List ℕ} → Permᴰ xs ys → sum xs ≡ sum ys
sum_perm Permᴰ.nil = refl
sum_perm (Permᴰ.cons e d) = omega (arith, e, sum_perm d)
sum_perm (Permᴰ.swap e f) = omega (arith, e, f)
sum_perm (Permᴰ.trans d e) = sum_perm d ∙ sum_perm e

sum-Perm : (xs ys : List ℕ) → Perm xs ys → sum xs ≡ sum ys
sum-Perm xs ys p = let unique : IsProp (sum xs ≡ sum ys) = hlevel in ∥∥₁_elim p unique sum_perm

length_perm : {A : Type 0} {xs ys : List A} → Permᴰ xs ys → length xs ≡ length ys
length_perm Permᴰ.nil = refl
length_perm (Permᴰ.cons e d) = omega (arith, length_perm d)
length_perm (Permᴰ.swap e f) = refl
length_perm (Permᴰ.trans d e) = length_perm d ∙ length_perm e

length-Perm : {A : Type 0} (xs ys : List A) → Perm xs ys → length xs ≡ length ys
length-Perm xs ys p =
    let unique : IsProp (length xs ≡ length ys) = hlevel in ∥∥₁_elim p unique length_perm

-- The tokens of each kind that a payload counts.
abbrev pub Kind : Type 0
Kind = UsageReportPayload → ℕ

abbrev pub input_tokens : Kind
input_tokens p = p.usage.input_tokens

abbrev pub output_tokens : Kind
output_tokens p = p.usage.output_tokens

abbrev pub cache_creation_tokens : Kind
cache_creation_tokens p = unwrap_or_zero p.usage.cache_creation_input_tokens

abbrev pub cache_read_tokens : Kind
cache_read_tokens p = unwrap_or_zero p.usage.cache_read_input_tokens

-- what the rows of a reverie add up to, whatever their order
abbrev pub used : Sqlite → Kind → ReverieId → UsageTable → ℕ
used db kind id t = sum (map (λ r. kind (payload_of db r)) (keep_if (λ r. is_of id r.reverie_id) t))

-- The four totals of some metrics are these numbers, as far as u64 holds them.
abbrev pub TotalsAre : McpToolUsageMetrics → ℕ → ℕ → ℕ → ℕ → Type 0
TotalsAre m i o c r =
    (m.total_input_tokens ≡ i % 2 ^ 64)
    × (m.total_output_tokens ≡ o % 2 ^ 64)
    × (m.total_cache_creation_tokens ≡ c % 2 ^ 64)
    × (m.total_cache_read_tokens ≡ r % 2 ^ 64)

add_all-totals :
    (ps : List UsageReportPayload) (m : McpToolUsageMetrics)
    → let n = add_all ps m in
      (n.total_input_tokens ≡ add_each input_tokens ps m.total_input_tokens)
      × (n.total_output_tokens ≡ add_each output_tokens ps m.total_output_tokens)
      × (n.total_cache_creation_tokens
          ≡ add_each cache_creation_tokens ps m.total_cache_creation_tokens)
      × (n.total_cache_read_tokens ≡ add_each cache_read_tokens ps m.total_cache_read_tokens)
      × (length n.usage_records ≡ length m.usage_records + length ps)
unfolding add_all add_usage_record usage_record
add_all-totals [] m = (refl, refl, refl, refl, omega arith)
add_all-totals (p ∷ ps) m =
    let (i, o, c, r, l) = add_all-totals ps (add_usage_record (usage_record p) m) in
    (i, o, c, r, omega (arith, l, length-append m.usage_records (usage_record p ∷ [])))

sum-map :
    {A B : Type 0} (f : A → B) (g : B → ℕ) (xs : List A)
    → sum (map g (map f xs)) ≡ sum (map (λ x. g (f x)) xs)
sum-map f g [] = refl
sum-map f g (x ∷ xs) = omega (arith, sum-map f g xs)

module _ (db : Sqlite) (id : ReverieId) (t : UsageTable) where
  abbrev rows : UsageTable
  rows = keep_if (λ r. is_of id r.reverie_id) t

  total_used :
      (kind : Kind)
      → Perm (db.order_by_timestamp rows) rows
      → add_each kind (map (payload_of db) (db.order_by_timestamp rows)) 0
        ≡ used db kind id t % 2 ^ 64
  total_used kind ordered =
      let shuffled = sum-Perm _ _ (Perm.map (λ r. kind (payload_of db r)) ordered) in
      let list = map (payload_of db) (db.order_by_timestamp rows) in
      let small : 0 < 2 ^ 64 = omega arith in
      omega (
        arith,
        add_each_lem kind list 0 small,
        shuffled,
        sum-map (payload_of db) kind (db.order_by_timestamp rows),
      )

-- Where the database answers and orders the rows that it selects, the metrics of a reverie have one
-- record for each of its rows, and their totals are the sums over those rows, in whatever order they
-- come, modulo two to the 64: exactly the sums, as long as these are below that.
pub reverie_metrics-totals :
    (db : Sqlite) (id : ReverieId) (t : UsageTable)
    → db.connected ≡ true
    → ((rows : UsageTable) → Perm (db.order_by_timestamp rows) rows)
    → let m = reverie_metrics db id t in
      TotalsAre m
        (used db input_tokens id t)
        (used db output_tokens id t)
        (used db cache_creation_tokens id t)
        (used db cache_read_tokens id t)
      × (length m.usage_records ≡ length (keep_if (λ r. is_of id r.reverie_id) t))
      × (used db input_tokens id t < 2 ^ 64 → m.total_input_tokens ≡ used db input_tokens id t)
unfolding reverie_metrics metrics_of read_usage_data_for_reverie default_metrics
reverie_metrics-totals db id t up ordered =
    let rs = keep_if (λ r. is_of id r.reverie_id) t in
    let ps = map (payload_of db) (db.order_by_timestamp rs) in
    let (i, o, c, r, l) = add_all-totals ps default_metrics in
    let is : reverie_metrics db id t ≡ add_all ps default_metrics = rw up refl in
    let sums = λ (kind : Kind). total_used db id t kind (ordered rs) in
    let input : (reverie_metrics db id t).total_input_tokens ≡ used db input_tokens id t % 2 ^ 64 =
      rw is (i ∙ sums input_tokens) in
    (
      (
        input,
        rw is (o ∙ sums output_tokens),
        rw is (c ∙ sums cache_creation_tokens),
        rw is (r ∙ sums cache_read_tokens),
      ),
      rw is (
          omega (
            arith,
            l,
            length-map (payload_of db) (db.order_by_timestamp rs),
            length-Perm _ _ (ordered rs),
          )),
      λ small. omega (arith, input),
    )
