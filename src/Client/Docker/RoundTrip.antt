-- ===== src/Client/Docker/RoundTrip.antt =====
-- A command line that is written out is read back.
use reveries_network.Common.{
  ℕ, ◌≡◌, refl, sym, ap, ◌∙◌, Bool, true, false, some, ok, List, [], ◌∷◌, ◌++◌, append_assoc,
  append-nil, All, nat_beq, if◌then◌else◌, arith,
}
use reveries_network.Common.Text.{
  Text, is_whitespace, trim_start, strip_prefix, split_whitespace, words_from, last_word, take_word,
}
use reveries_network.Client.Docker.{
  docker, compose, file_flag, without_hyphen, after_blank, has_newline, args_of, compose_args,
  file_and_args, with_args, parse_docker_compose_command,
}

abbrev pub IsWord : Text → Type 0
IsWord [] = ⊥
IsWord (c ∷ s) = All (λ d. is_whitespace d ≡ false) (c ∷ s)

-- each argument after a blank
abbrev pub spaced : List Text → Text
spaced [] = []
spaced (arg ∷ args) = 32 ∷ (arg ++ spaced args)

-- `docker compose -f <file> <args>`, or `docker-compose -f ...`
abbrev pub command_line : Bool → Text → List Text → Text
command_line hyphen file args =
    docker
    ++ ((if hyphen then 45 else 32)
        ∷ (compose ++ (32 ∷ (file_flag ++ (32 ∷ (file ++ spaced args))))))

take_word-spaced :
    (word : Text) (args : List Text)
    → All (λ d. is_whitespace d ≡ false) word
    → take_word (word ++ spaced args) ≡ (word, spaced args)
unfolding take_word is_whitespace
take_word-spaced [] [] h = refl
take_word-spaced [] (arg ∷ args) h = refl
take_word-spaced (c ∷ word) args h = rw (h.0, take_word-spaced word args h.1) refl

words_from-word :
    (before word rest : Text)
    → All (λ d. is_whitespace d ≡ false) word
    → words_from before (word ++ rest) ≡ words_from (before ++ word) rest
unfolding words_from
words_from-word before [] rest h = ap (λ b. words_from b rest) (sym (append-nil before))
words_from-word before (c ∷ word) rest h = rw (h.0) (
    words_from-word (before ++ (c ∷ [])) word rest h.1
    ∙ ap (λ b. words_from b rest) (append_assoc before (c ∷ []) word))

words_from-spaced :
    (word : Text) (args : List Text)
    → IsWord word
    → All IsWord args
    → words_from word (spaced args) ≡ word ∷ args
unfolding words_from is_whitespace last_word
words_from-spaced [] args h hs = absurd h
words_from-spaced (c ∷ word) [] h hs = refl
words_from-spaced (c ∷ word) ([] ∷ args) h hs = absurd hs.0
words_from-spaced (c ∷ word) ((d ∷ arg) ∷ args) h hs =
    ap (λ ws. (c ∷ word) ∷ ws)
      (words_from-word [] (d ∷ arg) (spaced args) hs.0 ∙ words_from-spaced (d ∷ arg) args hs.0 hs.1)

-- what is left once the blank in front is gone
trim_start-word :
    (word : Text) (rest : Text) → IsWord word → trim_start (word ++ rest) ≡ word ++ rest
unfolding trim_start
trim_start-word [] rest h = absurd h
trim_start-word (c ∷ word) rest h = rw (h.0) refl

after_blank-word :
    (word : Text) (rest : Text)
    → IsWord word
    → after_blank (32 ∷ (word ++ rest)) ≡ some (word ++ rest)
unfolding after_blank is_whitespace
after_blank-word word rest h = ap some (trim_start-word word rest h)

is_whitespace-newline : (c : ℕ) → is_whitespace c ≡ false → nat_beq c 10 ≡ false
unfolding is_whitespace
is_whitespace-newline c h = ground arith

has_newline-word :
    (word : Text) (args : List Text)
    → All (λ d. is_whitespace d ≡ false) word
    → All IsWord args
    → has_newline (word ++ spaced args) ≡ false
unfolding has_newline
has_newline-word [] [] h hs = refl
has_newline-word [] ([] ∷ args) h hs = absurd hs.0
has_newline-word [] ((d ∷ arg) ∷ args) h hs = has_newline-word (d ∷ arg) args hs.0 hs.1
has_newline-word (c ∷ word) args h hs =
    rw (is_whitespace-newline c h.0) (has_newline-word word args h.1 hs)

args_of-word :
    (word : Text) (args : List Text)
    → IsWord word
    → All IsWord args
    → args_of (word ++ spaced args) ≡ some (word ∷ args)
unfolding args_of split_whitespace
args_of-word [] args h hs = absurd h
args_of-word (c ∷ word) args h hs = rw (has_newline-word (c ∷ word) args h hs) (
    ap some
      (words_from-word [] (c ∷ word) (spaced args) h ∙ words_from-spaced (c ∷ word) args h hs))

compose_args-spaced : (args : List Text) → All IsWord args → compose_args (spaced args) ≡ some args
unfolding compose_args args_of trim_start is_whitespace has_newline split_whitespace words_from
    last_word
compose_args-spaced [] hs = refl
compose_args-spaced (arg ∷ args) hs =
    ap args_of (trim_start-word arg (spaced args) hs.0) ∙ args_of-word arg args hs.0 hs.1

-- A command line for docker compose, in either spelling, is read back as the file and the arguments that
-- it was written with, if they are words with no white space in them.
pub parse_docker_compose_command-command_line :
    (hyphen : Bool) (file : Text) (args : List Text)
    → IsWord file
    → All IsWord args
    → parse_docker_compose_command (command_line hyphen file args) ≡ ok (file, args)
unfolding parse_docker_compose_command strip_prefix trim_start without_hyphen after_blank
    is_whitespace file_and_args with_args
parse_docker_compose_command-command_line hyphen [] args h hs = absurd h
parse_docker_compose_command-command_line true (c ∷ file) args h hs =
    ap (λ f. file_and_args (take_word f)) (trim_start-word (c ∷ file) (spaced args) h)
    ∙ ap file_and_args (take_word-spaced (c ∷ file) args h)
    ∙ ap (with_args (c ∷ file)) (compose_args-spaced args hs)
parse_docker_compose_command-command_line false (c ∷ file) args h hs =
    ap (λ f. file_and_args (take_word f)) (trim_start-word (c ∷ file) (spaced args) h)
    ∙ ap file_and_args (take_word-spaced (c ∷ file) args h)
    ∙ ap (with_args (c ∷ file)) (compose_args-spaced args hs)
