-- ===== src/Common/Text.antt =====
-- Texts as lists of their characters' codes, with what Rust's `str` does to them.
use Prim.Native.Nat.{ℕ}
use mathlib.Core.Bool.{Bool, ◌&&◌, ◌||◌}
use mathlib.Core.Option.{Option, none, some}
use mathlib.Core.List.{List, [], ◌∷◌, ◌++◌}
use reveries_network.Common.Tests.{nat_beq, leb, if◌then◌else◌}

abbrev pub Text : Type 0
Text = List ℕ

-- Unicode's White_Space
unfoldable pub is_whitespace : ℕ → Bool
is_whitespace c =
    (leb 9 c && leb c 13)
    || (nat_beq c 32
        || (nat_beq c 133
            || (nat_beq c 160
                || (nat_beq c 5760
                    || ((leb 8192 c && leb c 8202)
                        || (nat_beq c 8232
                            || (nat_beq c 8233
                                || (nat_beq c 8239 || (nat_beq c 8287 || nat_beq c 12288)))))))))

unfoldable pub trim_start : Text → Text
trim_start [] = []
trim_start (c ∷ s) = let rest = trim_start s in if is_whitespace c then rest else c ∷ s

unfoldable pub trimmed_before : ℕ → Text → Text
trimmed_before c [] = if is_whitespace c then [] else c ∷ []
trimmed_before c (d ∷ s) = c ∷ d ∷ s

unfoldable pub trim_end : Text → Text
unfolding trimmed_before
trim_end [] = []
trim_end (c ∷ s) = trimmed_before c (trim_end s)

unfoldable pub trim : Text → Text
unfolding trim_start trim_end
trim s = trim_start (trim_end s)

unfoldable pub strip_prefix : Text → Text → Option Text
strip_prefix [] s = some s
strip_prefix (p ∷ prefix) [] = none
strip_prefix (p ∷ prefix) (c ∷ s) =
    let rest = strip_prefix prefix s in if nat_beq p c then rest else none

unfoldable pub last_word : Text → List Text
last_word [] = []
last_word (c ∷ word) = (c ∷ word) ∷ []

-- the words of `s` after the characters of a first word
unfoldable pub words_from : Text → Text → List Text
unfolding last_word
words_from word [] = last_word word
words_from word (c ∷ s) =
    let ended = words_from [] s in
    let longer = words_from (word ++ (c ∷ [])) s in
    if is_whitespace c then last_word word ++ ended else longer

unfoldable pub split_whitespace : Text → List Text
unfolding words_from
split_whitespace s = words_from [] s

-- the characters before the first white space, and the rest
unfoldable pub take_word : Text → Text × Text
take_word [] = ([], [])
take_word (c ∷ s) =
    let later = take_word s in if is_whitespace c then ([], c ∷ s) else (c ∷ later.0, later.1)
