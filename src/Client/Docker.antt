-- ===== src/Client/Docker.antt =====
-- node_client/mod.rs: `start_docker_service`, and the command line that it reads.
pub mod RoundTrip
use reveries_network.Common.{
  ℕ, Bool, true, false, ◌||◌, Option, none, some, List, [], ◌∷◌, ◌++◌, Result, ok, err, ok_or,
  ◌>>=◌, if◌then◌else◌, nat_beq,
}
use reveries_network.Common.Text.{
  Text, is_whitespace, trim_start, strip_prefix, split_whitespace, take_word,
}

-- `docker`, `compose` and `-f`
abbrev pub docker : Text
docker = 100 ∷ 111 ∷ 99 ∷ 107 ∷ 101 ∷ 114 ∷ []

abbrev pub compose : Text
compose = 99 ∷ 111 ∷ 109 ∷ 112 ∷ 111 ∷ 115 ∷ 101 ∷ []

abbrev pub file_flag : Text
file_flag = 45 ∷ 102 ∷ []

-- `-?`
unfoldable pub without_hyphen : Text → Text
without_hyphen [] = []
without_hyphen (c ∷ s) = if nat_beq c 45 then s else c ∷ s

-- `\s+`
unfoldable pub after_blank : Text → Option Text
after_blank [] = none
after_blank (c ∷ s) = let rest = trim_start s in if is_whitespace c then some rest else none

unfoldable pub has_newline : Text → Bool
has_newline [] = false
has_newline (c ∷ s) = nat_beq c 10 || has_newline s

-- `(?P<args_group>\s+.*)?$`, whose text is split: `.` is no newline, so that only the white space in
-- front can hold one.
unfoldable pub args_of : Text → Option (List Text)
unfolding has_newline split_whitespace
args_of args = if has_newline args then none else some (split_whitespace args)

unfoldable pub compose_args : Text → Option (List Text)
unfolding args_of
compose_args rest = args_of (trim_start rest)

pub data DockerError : Type 0 where
  bad_command no_pubkey_pem no_file no_directory not_started command_failed : DockerError

unfoldable pub with_args : Text → Option (List Text) → Result {0, 0} DockerError (Text × List Text)
with_args file_path none = err bad_command
with_args file_path (some args) = ok (file_path, args)

unfoldable pub file_and_args : Text × Text → Result {0, 0} DockerError (Text × List Text)
unfolding compose_args with_args
file_and_args ([], rest) = err bad_command
file_and_args (c ∷ file_path, rest) = with_args (c ∷ file_path) (compose_args rest)

unfoldable pub parse_docker_compose_command : Text → Result {0, 0} DockerError (Text × List Text)
unfolding file_and_args take_word without_hyphen after_blank
parse_docker_compose_command command_str = do
  after_docker ← ok_or (strip_prefix docker command_str) bad_command
  after_compose ←
      ok_or (strip_prefix compose (without_hyphen (trim_start after_docker))) bad_command
  flag ← ok_or (after_blank after_compose) bad_command
  after_flag ← ok_or (strip_prefix file_flag flag) bad_command
  file ← ok_or (after_blank after_flag) bad_command
  file_and_args (take_word file)

-- What the node finds outside: its public key as PEM, whether the file is there and has a directory,
-- and how docker ends, if it starts.
pub record DockerHost : Type 0 where
  pub pubkey_pem : Option Text
  pub exists : Text → Bool
  pub parent : Text → Option Text
  pub run : List Text → Text → Text → Text → Option Bool

unfoldable pub check_exists : DockerHost → Text → Result {0, 0} DockerError (Unit {0})
check_exists h file = if h.exists file then ok tt else err no_file

unfoldable pub check_status : Bool → Result {0, 0} DockerError (Unit {0})
check_status success = if success then ok tt else err command_failed

unfoldable pub start_docker_service :
    DockerHost → Text → Text → Result {0, 0} DockerError (Unit {0})
unfolding parse_docker_compose_command check_exists check_status
start_docker_service h p2p_node_rpc_url command = do
  parsed ← parse_docker_compose_command command
  pem ← ok_or h.pubkey_pem no_pubkey_pem
  _ ← check_exists h parsed.0
  compose_dir ← ok_or (h.parent parsed.0) no_directory
  success ←
      ok_or (h.run (compose ∷ file_flag ∷ parsed.0 ∷ parsed.1) compose_dir pem p2p_node_rpc_url)
        not_started
  check_status success
