-- ===== src/Proxy/Clock.antt =====
-- Timestamps as i64: how one is read from a header, and whether it is within the window of
-- api_key_delegation_server.
use Prim.Native.Char.{code}
use reveries_network.Common.Decimal.Reading.{digits, digits-decimal, decimal-ne-nil}
use reveries_network.Common.{
  ℕ, ◌+◌, ◌-◌, ◌^◌, ◌≤◌, ◌<◌, ◌≡◌, refl, ◌≢◌, decimal, ◌↔◌, ◌⊎◌, String, Bool, false, Option, none,
  some, ltb, leb, nat_beq, if◌then◌else◌, arith, Bool-cases, inl, inr,
}

-- An i64; the negative number of `negsuc n` is `- (n + 1)`.
pub data ℤ : Type 0 where
  pos negsuc : ℕ → ℤ

-- at least one digit
number : String → Option ℕ
unfolding digits
number String.[] = none
number (String.◌∷◌ c s) = digits (String.◌∷◌ c s) 0

positive : Option ℕ → Option ℤ
positive none = none
positive (some n) = if ltb n (2 ^ 63) then some (pos n) else none

negative : Option ℕ → Option ℤ
negative none = none
negative (some n) =
    if nat_beq n 0 then some (pos 0) else if leb n (2 ^ 63) then some (negsuc (n - 1)) else none

-- `str::parse::<i64>`
unfoldable pub parse_i64 : String → Option ℤ
unfolding number positive negative
parse_i64 String.[] = none
parse_i64 (String.◌∷◌ c s) =
    if nat_beq (code c) 45
    then negative (number s)
    else if nat_beq (code c) 43
    then positive (number s)
    else positive (number (String.◌∷◌ c s))

-- `now - timestamp` on i64, which wraps in a release build
unfoldable pub wrapping_sub : ℕ → ℤ → ℤ
wrapping_sub now (pos t) = if leb t now then pos (now - t) else negsuc (t - now - 1)
wrapping_sub now (negsuc k) =
    if ltb (now + k + 1) (2 ^ 63) then pos (now + k + 1) else negsuc (2 ^ 64 - (now + k + 1) - 1)

-- `abs` on i64: the least number stays as it is
unfoldable pub wrapping_abs : ℤ → ℤ
wrapping_abs (pos n) = pos n
wrapping_abs (negsuc n) = if ltb n (2 ^ 63 - 1) then pos (n + 1) else negsuc n

exceeds : ℕ → ℤ → Bool
exceeds limit (pos n) = ltb limit n
exceeds limit (negsuc n) = false

-- `(now - timestamp).abs() > 60`
unfoldable pub outside_window : ℕ → ℤ → Bool
unfolding exceeds wrapping_abs wrapping_sub
outside_window now timestamp = exceeds 60 (wrapping_abs (wrapping_sub now timestamp))

-- At most a minute away; or the one timestamp at which the subtraction wraps to the least number.
abbrev pub IsRecent : ℕ → ℤ → Type 0
IsRecent now (pos t) = (now ≤ t + 60) × (t ≤ now + 60)
IsRecent now (negsuc k) = (now + k + 1 ≤ 60) ⊎ (now + k + 1 ≡ 2 ^ 63)

-- a timestamp that an i64 holds
abbrev pub InRange : ℤ → Type 0
InRange (pos t) = t < 2 ^ 63
InRange (negsuc k) = k < 2 ^ 63

-- A timestamp passes the check of the window exactly when it is recent, at every time in this age.
pub outside_window_lem :
    (now : ℕ) (t : ℤ) → now < 2 ^ 62 → InRange t → (outside_window now t ≡ false) ↔ IsRecent now t
unfolding outside_window
outside_window_lem now (pos t) h r = ground arith
outside_window_lem now (negsuc k) h r = ground arith

positive-InRange : (o : Option ℕ) (t : ℤ) → positive o ≡ some t → InRange t
unfolding positive
positive-InRange none t h = cc
positive-InRange (some n) (pos m) h = ground arith
positive-InRange (some n) (negsuc m) h = ground arith

negative-InRange : (o : Option ℕ) (t : ℤ) → negative o ≡ some t → InRange t
unfolding negative
negative-InRange none t h = cc
negative-InRange (some n) (pos m) h = ground arith
negative-InRange (some n) (negsuc m) h = ground arith

pub parse_i64-InRange : (s : String) (t : ℤ) → parse_i64 s ≡ some t → InRange t
unfolding parse_i64
parse_i64-InRange String.[] t h = cc
parse_i64-InRange (String.◌∷◌ c s) t h = elim (Bool-cases (nat_beq (code c) 45)) [
  | inl minus ↦ negative-InRange (number s) t (ground arith)
  | inr other ↦ elim (Bool-cases (nat_beq (code c) 43)) [
    | inl plus ↦ positive-InRange (number s) t (ground arith)
    | inr digit ↦ positive-InRange (number (String.◌∷◌ c s)) t (ground arith)
  ]
]

parse_i64-digits :
    (s : String) (n : ℕ)
    → s ≢ String.[]
    → digits s 0 ≡ some n
    → n < 2 ^ 63
    → parse_i64 s ≡ some (pos n)
unfolding parse_i64 digits
parse_i64-digits String.[] n h reads fits = absurd (h refl)
parse_i64-digits (String.◌∷◌ c s) n h reads fits =
    let plain : nat_beq (code c) 45 ≡ false = ground arith in
    let unsigned : nat_beq (code c) 43 ≡ false = ground arith in
    rw (plain, unsigned, number, reads) (unfold positive in ground arith)

-- A timestamp is read back from the text that `to_string` makes of it.
pub parse_i64-decimal : (n : ℕ) → n < 2 ^ 63 → parse_i64 (decimal n) ≡ some (pos n)
parse_i64-decimal n fits = parse_i64-digits (decimal n) n (decimal-ne-nil n) (digits-decimal n) fits
