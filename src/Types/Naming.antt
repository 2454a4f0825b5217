-- ===== src/Types/Naming.antt =====
-- types/reverie_name.rs: a name with its nonce, read from a text.
use Prim.Native.Char.{Char, code}
use Prim.Native.String.{◌++◌}
use Prim.Native.String.append
use reveries_network.Common.{
  ℕ, ◌+◌, ◌-◌, ◌*◌, subst, ◌<◌, ◌^◌, ◌≡◌, ◌≢◌, refl, ap, ◌∙◌, String, Bool, true, false, ◌&&◌, ◌||◌,
  Option, none, some, nat_beq, leb, ltb, if◌then◌else◌, Bool-cases, inl, inr, arith, decimal,
}
use reveries_network.Common.Decimal.Reading.{digits, digits-decimal, decimal-ne-nil}
use reveries_network.Types.Names.{ReverieNameWithNonce, name_to_string}

-- `[a-zA-Z0-9-._]`
unfoldable pub is_name_char : Char → Bool
is_name_char c =
    (leb 97 (code c) && leb (code c) 122)
    || ((leb 65 (code c) && leb (code c) 90)
        || ((leb 48 (code c) && leb (code c) 57)
            || (nat_beq (code c) 45 || (nat_beq (code c) 46 || nat_beq (code c) 95))))

-- the longest start of a text that matches `[a-zA-Z0-9-._]*`
unfoldable pub name_run : String → String
unfolding is_name_char
name_run String.[] = String.[]
name_run (String.◌∷◌ c s) =
    let rest = name_run s in if is_name_char c then String.◌∷◌ c rest else String.[]

unfoldable pub split_before : Char → String → Option (String × String) → Option (String × String)
split_before c s (some (name, nonce)) = some (String.◌∷◌ c name, nonce)
split_before c s none = if nat_beq (code c) 45 then some (String.[], s) else none

-- what is before the last hyphen, and what is after it
unfoldable pub at_last_hyphen : String → Option (String × String)
unfolding split_before
at_last_hyphen String.[] = none
at_last_hyphen (String.◌∷◌ c s) = split_before c s (at_last_hyphen s)

or_later : Option (String × String) → Option (String × String) → Option (String × String)
or_later (some p) later = some p
or_later none later = later

-- The leftmost match of `([a-zA-Z0-9-._]*)-([a-zA-Z0-9-._]*)`, both of whose parts are greedy.
unfoldable pub captures : String → Option (String × String)
unfolding or_later at_last_hyphen name_run
captures String.[] = none
captures (String.◌∷◌ c s) = or_later (at_last_hyphen (name_run (String.◌∷◌ c s))) (captures s)

unfoldable pub in_usize : Option ℕ → Option ℕ
in_usize none = none
in_usize (some n) = if ltb n (2 ^ 64) then some n else none

-- `parse::<usize>()` of a text that has no sign
unfoldable pub parse_usize : String → Option ℕ
unfolding in_usize digits
parse_usize String.[] = none
parse_usize (String.◌∷◌ c s) = in_usize (digits (String.◌∷◌ c s) 0)

with_nonce : String → Option ℕ → Option ReverieNameWithNonce
with_nonce name none = none
with_nonce name (some nonce) = some (record { name = name; nonce = nonce })

name_of : Option (String × String) → Option ReverieNameWithNonce
unfolding with_nonce parse_usize
name_of none = some (record { name = ""; nonce = 0 })
name_of (some (name, nonce)) = with_nonce name (parse_usize nonce)

-- `From<String>`; `none` stands for the panic where the nonce is no number.
unfoldable pub name_from : String → Option ReverieNameWithNonce
unfolding name_of captures
name_from s = name_of (captures s)

abbrev pub IsName : String → Type 0
IsName String.[] = Unit
IsName (String.◌∷◌ c s) = (is_name_char c ≡ true) × IsName s

abbrev IsNumber : String → Type 0
IsNumber String.[] = Unit
IsNumber (String.◌∷◌ c s) = ((leb 48 (code c) && leb (code c) 57) ≡ true) × IsNumber s

digits-IsNumber : (s : String) (acc n : ℕ) → digits s acc ≡ some n → IsNumber s
unfolding digits
digits-IsNumber String.[] acc n h = tt
digits-IsNumber (String.◌∷◌ c s) acc n h = elim (Bool-cases (leb 48 (code c) && leb (code c) 57)) [
  | inl digit ↦ (
    digit,
    digits-IsNumber s (acc * 10 + (code c - 48)) n
        (subst (λ b. (if b then digits s (acc * 10 + (code c - 48)) else none) ≡ some n) digit h),
  )
  | inr other ↦
      let stuck : none ≡ some n =
        subst (λ b. (if b then digits s (acc * 10 + (code c - 48)) else none) ≡ some n) other h in
      absurd (ground arith)
]

IsNumber-IsName : (s : String) → IsNumber s → IsName s
IsNumber-IsName String.[] h = tt
IsNumber-IsName (String.◌∷◌ c s) h = (unfold is_name_char in ground arith, IsNumber-IsName s h.1)

at_last_hyphen-IsNumber : (s : String) → IsNumber s → at_last_hyphen s ≡ none
unfolding at_last_hyphen split_before
at_last_hyphen-IsNumber String.[] h = refl
at_last_hyphen-IsNumber (String.◌∷◌ c s) h =
    let no_hyphen : nat_beq (code c) 45 ≡ false = ground arith in
    rw (at_last_hyphen-IsNumber s h.1, no_hyphen) refl

name_run-IsName : (s : String) → IsName s → name_run s ≡ s
unfolding name_run
name_run-IsName String.[] h = refl
name_run-IsName (String.◌∷◌ c s) h = rw (h.0, name_run-IsName s h.1) refl

-- a name and a hyphen in front of a number
at_last_hyphen-name :
    (name number : String)
    → IsNumber number
    → at_last_hyphen (name ++ (String.◌∷◌ "-" number)) ≡ some (name, number)
unfolding at_last_hyphen split_before
at_last_hyphen-name String.[] number h =
    rw (append.nil (String.◌∷◌ "-" number), at_last_hyphen-IsNumber number h) refl
at_last_hyphen-name (String.◌∷◌ c name) number h =
    rw (append.cons c name (String.◌∷◌ "-" number), at_last_hyphen-name name number h) refl

append-IsName : (s t : String) → IsName s → IsName t → IsName (s ++ t)
append-IsName String.[] t hs ht = rw (append.nil t) ht
append-IsName (String.◌∷◌ c s) t hs ht = rw (append.cons c s t) (hs.0, append-IsName s t hs.1 ht)

captures-IsName :
    (s : String) (p : String × String) → IsName s → at_last_hyphen s ≡ some p → captures s ≡ some p
unfolding captures at_last_hyphen or_later
captures-IsName String.[] p h found = absurd (cc)
captures-IsName (String.◌∷◌ c s) p h found = rw (name_run-IsName (String.◌∷◌ c s) h, found) refl

parse_usize-digits :
    (s : String) (n : ℕ) → s ≢ String.[] → digits s 0 ≡ some n → n < 2 ^ 64 → parse_usize s ≡ some n
unfolding parse_usize in_usize
parse_usize-digits String.[] n h read small = absurd (h refl)
parse_usize-digits (String.◌∷◌ c s) n h read small =
    let fits : ltb n (2 ^ 64) ≡ true = ground arith in rw (read, in_usize, fits) refl

-- A name with its nonce is read back from its text, if the name is made of letters, digits, hyphens,
-- dots and underscores, and the nonce is a usize.
pub name_from-name_to_string :
    (n : ReverieNameWithNonce)
    → IsName n.name
    → n.nonce < 2 ^ 64
    → name_from (name_to_string n) ≡ some n
unfolding name_from name_to_string name_of with_nonce
name_from-name_to_string n h small =
    let number = digits-IsNumber (decimal n.nonce) 0 n.nonce (digits-decimal n.nonce) in
    let whole =
      append-IsName n.name (String.◌∷◌ "-" (decimal n.nonce)) h
        (unfold is_name_char in refl, IsNumber-IsName (decimal n.nonce) number) in
    let text : name_to_string n ≡ n.name ++ (String.◌∷◌ "-" (decimal n.nonce)) =
      ap (λ t. n.name ++ t)
        (append.cons "-" String.[] (decimal n.nonce)
          ∙ ap (λ t. String.◌∷◌ "-" t) (append.nil (decimal n.nonce))) in
    ap name_from text
    ∙ ap name_of (
        captures-IsName (n.name ++ (String.◌∷◌ "-" (decimal n.nonce))) (n.name, decimal n.nonce)
          whole (at_last_hyphen-name n.name (decimal n.nonce) number))
    ∙ ap (with_nonce n.name) (
        parse_usize-digits (decimal n.nonce) n.nonce (decimal-ne-nil n.nonce)
          (digits-decimal n.nonce) small)
