-- ===== src/Proxy/Sse.antt =====
-- parser/sse_parser.rs: events cut out of a stream of chunks at each blank line.
pub mod Lines
pub mod RoundTrip
use reveries_network.Common.{
  ℕ, zero, suc, ◌≤◌, ◌<◌, ◌≡◌, refl, sym, ap, Bool, true, false, ◌&&◌, Option, none, some, List, [],
  ◌∷◌, ◌++◌, append_assoc, arith, length, nat_beq, Option-cases, inl, inr,
}

abbrev pub Bytes : Type 0
Bytes = List ℕ

abbrev pub newline : ℕ
newline = 10

starts_with_newline : Bytes → Bool
starts_with_newline [] = false
starts_with_newline (b ∷ s) = nat_beq b newline

abbrev after_first : Bytes → Bytes
after_first [] = []
after_first (b ∷ s) = s

-- the first event of `b ∷ s`, where `blank` tells whether two newlines are first, and `later` is
-- the first event of `s`
first_event : Bool → ℕ → Bytes → Option (Bytes × Bytes) → Option (Bytes × Bytes)
first_event true b s later = some (b ∷ newline ∷ [], after_first s)
first_event false b s none = none
first_event false b s (some t) = some (b ∷ t.0, t.1)

-- `windows(2).position(..)` and `drain(..index + 2)`: the bytes up to and with the first two
-- newlines in a row, and the rest.
unfoldable pub take_event : Bytes → Option (Bytes × Bytes)
unfolding starts_with_newline first_event
take_event [] = none
take_event (b ∷ s) = first_event (nat_beq b newline && starts_with_newline s) b s (take_event s)

first_event-length :
    (blank : Bool) (b : ℕ) (s : Bytes) (later : Option (Bytes × Bytes)) (e rest : Bytes)
    → ((f r : Bytes) → later ≡ some (f, r) → length r < length s)
    → first_event blank b s later ≡ some (e, rest)
    → length rest < length (b ∷ s)
unfolding first_event
first_event-length true b [] later e rest shorter h = ground arith
first_event-length true b (d ∷ s) later e rest shorter h = ground arith
first_event-length false b s none e rest shorter h = cc
first_event-length false b s (some t) e rest shorter h =
    let less = shorter t.0 t.1 refl in ground arith

take_event-length : (s e rest : Bytes) → take_event s ≡ some (e, rest) → length rest < length s
unfolding take_event
take_event-length [] e rest h = cc
take_event-length (b ∷ s) e rest h =
    first_event-length _ b s (take_event s) e rest (take_event-length s) h

first_event-append :
    (blank : Bool) (b d : ℕ) (s c : Bytes) (later later' : Option (Bytes × Bytes)) (e rest : Bytes)
    → ((f r : Bytes) → later ≡ some (f, r) → later' ≡ some (f, r ++ c))
    → first_event blank b (d ∷ s) later ≡ some (e, rest)
    → first_event blank b (d ∷ (s ++ c)) later' ≡ some (e, rest ++ c)
unfolding first_event
first_event-append true b d s c later later' e rest same h = ground arith
first_event-append false b d s c none later' e rest same h = cc
first_event-append false b d s c (some t) later' e rest same h =
    rw (same t.0 t.1 refl) (ground arith)

take_event-append :
    (s c e rest : Bytes) → take_event s ≡ some (e, rest) → take_event (s ++ c) ≡ some (e, rest ++ c)
unfolding take_event
take_event-append [] c e rest h = cc
take_event-append (b ∷ []) c e rest h = ground arith
take_event-append (b ∷ d ∷ s) c e rest h =
    first_event-append _ b d s c (take_event (d ∷ s)) (take_event ((d ∷ s) ++ c)) e rest
      (take_event-append (d ∷ s) c) h

module _ {ℓ} {Update : Type ℓ} (parse_sse_event : Bytes → List Update) where
  -- The loop of `process_chunk`: the updates of the events in the buffer, and what is left of it.
  unfoldable pub drain_events : ℕ → Bytes → List Update × Bytes
  drain_events zero buffer = ([], buffer)
  drain_events (suc fuel) buffer = elim (take_event buffer) [
    | none ↦ ([], buffer)
    | some t ↦ let later = drain_events fuel t.1 in (parse_sse_event t.0 ++ later.0, later.1)
  ]

  -- `parse_sse_event` makes updates of the bytes of one event. Each event takes bytes off the
  -- buffer, so that its length is enough fuel.
  unfoldable pub process_chunk : Bytes → Bytes → List Update × Bytes
  unfolding drain_events
  process_chunk chunk buffer =
      let extended = buffer ++ chunk in drain_events (length extended) extended

  drain_events-fuel :
      (k j : ℕ) (s : Bytes) → length s ≤ k → length s ≤ j → drain_events k s ≡ drain_events j s
  unfolding drain_events take_event
  drain_events-fuel zero zero s hk hj = refl
  drain_events-fuel zero (suc j) [] hk hj = refl
  drain_events-fuel zero (suc j) (b ∷ s) hk hj = absurd (ground arith)
  drain_events-fuel (suc k) zero [] hk hj = refl
  drain_events-fuel (suc k) zero (b ∷ s) hk hj = absurd (ground arith)
  drain_events-fuel (suc k) (suc j) s hk hj = elim (Option-cases (take_event s)) [
    | inl quiet ↦ rw (quiet, drain_events) refl
    | inr ((e, rest), found) ↦
        let less = take_event-length s e rest found in
        rw (found, drain_events, drain_events-fuel k j rest (omega arith) (omega arith)) refl
  ]

  -- No whole event is left in the buffer.
  drain_events-none : (k : ℕ) (s : Bytes) → length s ≤ k → take_event (drain_events k s).1 ≡ none
  unfolding drain_events take_event
  drain_events-none zero [] h = refl
  drain_events-none zero (b ∷ s) h = absurd (ground arith)
  drain_events-none (suc k) s h = elim (Option-cases (take_event s)) [
    | inl quiet ↦ rw (quiet, drain_events) quiet
    | inr ((e, rest), found) ↦
        let less = take_event-length s e rest found in
        rw (found, drain_events) (drain_events-none k rest (omega arith))
  ]

  abbrev drain_all : Bytes → List Update × Bytes
  drain_all s = drain_events (length s) s

  drain_all-none : (s : Bytes) → take_event s ≡ none → drain_all s ≡ ([], s)
  unfolding drain_events
  drain_all-none [] quiet = refl
  drain_all-none (b ∷ s) quiet = rw (quiet, drain_events) refl

  drain_all-some :
      (s e rest : Bytes)
      → take_event s ≡ some (e, rest)
      → drain_all s ≡ (parse_sse_event e ++ (drain_all rest).0, (drain_all rest).1)
  unfolding drain_events take_event
  drain_all-some [] e rest found = cc
  drain_all-some (b ∷ s) e rest found =
      let less = take_event-length (b ∷ s) e rest found in
      let same = drain_events-fuel (length s) (length rest) rest (omega arith) (omega arith) in
      rw (found, drain_events, same) refl

  drain_all-append :
      (k : ℕ) (s c : Bytes)
      → length s ≤ k
      → drain_all (s ++ c) ≡ (
        (drain_all s).0 ++ (drain_all ((drain_all s).1 ++ c)).0,
        (drain_all ((drain_all s).1 ++ c)).1,
      )
  unfolding drain_events
  drain_all-append zero [] c h = refl
  drain_all-append zero (b ∷ s) c h = absurd (ground arith)
  drain_all-append (suc k) s c h = elim (Option-cases (take_event s)) [
    | inl quiet ↦ rw (drain_all-none s quiet) refl
    | inr ((e, rest), found) ↦
        let less = take_event-length s e rest found in
        let after = drain_all-append k rest c (omega arith) in
        rw
          (
            drain_all-some (s ++ c) e (rest ++ c) (take_event-append s c e rest found),
            drain_all-some s e rest found,
            after,
          )
          (ap (λ us. (us, (drain_all ((drain_all rest).1 ++ c)).1))
            (sym (
              append_assoc (parse_sse_event e) (drain_all rest).0
                (drain_all ((drain_all rest).1 ++ c)).0)))
  ]

  -- How a stream is cut into chunks makes no difference: two chunks, one after the other, yield the
  -- updates and leave the buffer that their concatenation does, whatever was in the buffer before.
  pub process_chunk-append :
      (buffer chunk next : Bytes)
      → process_chunk (chunk ++ next) buffer ≡ (
          let first = process_chunk chunk buffer in
          let second = process_chunk next first.1 in (first.0 ++ second.0, second.1))
  unfolding process_chunk
  process_chunk-append buffer chunk next =
      rw (← append_assoc buffer chunk next)
        (drain_all-append (length (buffer ++ chunk)) (buffer ++ chunk) next (omega arith))

  -- No whole event stays behind: after a chunk, the buffer holds no two newlines in a row, so that
  -- the loop has run to its end.
  pub process_chunk-none : (buffer chunk : Bytes) → take_event (process_chunk chunk buffer).1 ≡ none
  unfolding process_chunk
  process_chunk-none buffer chunk =
      drain_events-none (length (buffer ++ chunk)) (buffer ++ chunk) (omega arith)
