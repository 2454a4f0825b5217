-- ===== src/Heartbeat/Frame.antt =====
-- tee_quote_parser.rs: a heartbeat on the wire, behind its length in eight bytes.
use reveries_network.Common.{
  ℕ, zero, suc, ◌+◌, ◌*◌, ◌/◌, ◌%◌, ◌^◌, ◌≤◌, ◌<◌, ◌≡◌, refl, subst, ap, ◌∙◌, Option-cases, inl,
  inr, Option, none, some, [], ◌∷◌, ◌++◌, append_assoc, arith, ltb, if◌then◌else◌, length,
  length-append, Result, ok, err,
}
use native.Mathlib.Numerals.{unary_clauses}
use reveries_network.Types.{Bytes}
use reveries_network.Heartbeat.Attestation.{
  TeeAttestation, TeeAttestationBytes, QuoteV4, from_bytes, to_wire, of_wire,
}

abbrev pub heartbeat_message_max_size : ℕ
heartbeat_message_max_size = 24_576

-- The last `k` base-256 digits of `n`, the most significant first: `u64::to_be_bytes` at eight.
unfoldable pub to_be_bytes : ℕ → ℕ → Bytes
to_be_bytes zero n = []
to_be_bytes (suc k) n = to_be_bytes k (n / 256) ++ (n % 256 ∷ [])

-- `u64::from_be_bytes`, after the digits `high`
unfoldable pub from_be_bytes : ℕ → Bytes → ℕ
from_be_bytes high [] = high
from_be_bytes high (b ∷ bs) = from_be_bytes (high * 256 + b) bs

-- `read_exact`: the first `k` bytes of the stream and the rest, where there are as many.
unfoldable pub read_exact : ℕ → Bytes → Option (Bytes × Bytes)
read_exact zero s = some ([], s)
read_exact (suc k) [] = none
read_exact (suc k) (b ∷ s) = elim (read_exact k s) [ none ↦ none | some t ↦ some (b ∷ t.0, t.1) ]

-- What serde_json makes of a payload, and what it writes.
pub record Codec : Type 0 where
  pub to_vec : TeeAttestationBytes → Bytes
  pub from_slice : Bytes → Option TeeAttestationBytes

pub data FrameFault : Type 0 where
  too_long unexpected_end malformed : FrameFault

-- The bytes that go onto the stream; a message that is too long is a panic.
unfoldable pub send_heartbeat_payload : Codec → TeeAttestation → Result FrameFault Bytes
send_heartbeat_payload c t =
    let msg = c.to_vec (to_wire t) in
    if ltb heartbeat_message_max_size (length msg)
    then err too_long
    else ok (to_be_bytes 8 (length msg) ++ msg)

decode : Codec → Bytes → Bytes → Result FrameFault (TeeAttestation × Bytes)
decode c payload rest = elim (c.from_slice payload) [
  | none ↦ err malformed
  | some w ↦ ok (of_wire w, rest)
]

read_payload : Codec → ℕ → Bytes → Result FrameFault (TeeAttestation × Bytes)
unfolding decode
read_payload c msg_len s = elim (read_exact msg_len s) [
  | none ↦ err unexpected_end
  | some t ↦ decode c t.0 t.1
]

-- The attestation that arrives, and what is left of the stream.
unfoldable pub receive_heartbeat_payload :
    Codec → Bytes → Result FrameFault (TeeAttestation × Bytes)
unfolding read_payload
receive_heartbeat_payload c s = elim (read_exact 8 s) [
  | none ↦ err unexpected_end
  | some t ↦ read_payload c (from_be_bytes 0 t.0) t.1
]

from_be_bytes-append :
    (high : ℕ) (xs : Bytes) (b : ℕ)
    → from_be_bytes high (xs ++ (b ∷ [])) ≡ from_be_bytes high xs * 256 + b
unfolding from_be_bytes
from_be_bytes-append high [] b = refl
from_be_bytes-append high (x ∷ xs) b = from_be_bytes-append (high * 256 + x) xs b

from_be_bytes-to_be_bytes : (k n : ℕ) → n < 256 ^ k → from_be_bytes 0 (to_be_bytes k n) ≡ n
unfolding to_be_bytes from_be_bytes
from_be_bytes-to_be_bytes zero n h = omega arith
from_be_bytes-to_be_bytes (suc k) n h =
    let more : 256 ^ suc k ≡ 256 * 256 ^ k = simp unary_clauses (omega arith) in
    let small : n / 256 < 256 ^ k = omega arith in
    rw
      (
        from_be_bytes-append 0 (to_be_bytes k (n / 256)) (n % 256),
        from_be_bytes-to_be_bytes k (n / 256) small,
      )
      (omega arith)

length-to_be_bytes : (k n : ℕ) → length (to_be_bytes k n) ≡ k
unfolding to_be_bytes
length-to_be_bytes zero n = refl
length-to_be_bytes (suc k) n =
    rw (length-append (to_be_bytes k (n / 256)) (n % 256 ∷ []), length-to_be_bytes k (n / 256))
      (omega arith)

read_exact-append : (xs s : Bytes) → read_exact (length xs) (xs ++ s) ≡ some (xs, s)
unfolding read_exact
read_exact-append [] s = refl
read_exact-append (x ∷ xs) s = rw (read_exact-append xs s) refl

receive_heartbeat_payload_lem :
    (c : Codec) (s head tail payload rest : Bytes) (k : ℕ) (w : TeeAttestationBytes)
    → read_exact 8 s ≡ some (head, tail)
    → from_be_bytes 0 head ≡ k
    → read_exact k tail ≡ some (payload, rest)
    → c.from_slice payload ≡ some w
    → receive_heartbeat_payload c s ≡ ok (of_wire w, rest)
unfolding receive_heartbeat_payload
receive_heartbeat_payload_lem c s head tail payload rest k w cut size body reads =
    rw (cut, receive_heartbeat_payload, size, body, read_payload, reads, decode) refl

abbrev parsed : Option Bytes → Option QuoteV4
parsed none = none
parsed (some bytes) = some (from_bytes bytes)

-- What an attestation holds is what its bytes parse to, or nothing where it has no bytes.
abbrev pub IsParsed : TeeAttestation → Type 0
IsParsed t = t.tee_attestation ≡ parsed t.tee_attestation_bytes

of_wire-to_wire : (t : TeeAttestation) → IsParsed t → of_wire (to_wire t) ≡ t
unfolding of_wire to_wire
of_wire-to_wire t h = elim (Option-cases t.tee_attestation_bytes) [
  | inl e ↦ ground (arith, h)
  | inr (b, e) ↦ ground (arith, h)
]

-- A heartbeat that is sent is received as the very attestation that it was, with its quote, the bytes of
-- the quote and the block height, and what follows it on the stream is left there, if the attestation
-- holds the quote that its bytes parse to, if serde_json reads what it writes, and if the message is
-- not longer than the limit.
pub receive_heartbeat_payload-send_heartbeat_payload :
    (c : Codec) (t : TeeAttestation) (rest : Bytes)
    → IsParsed t
    → c.from_slice (c.to_vec (to_wire t)) ≡ some (to_wire t)
    → length (c.to_vec (to_wire t)) ≤ heartbeat_message_max_size
    → (frame : Bytes) × (send_heartbeat_payload c t ≡ ok frame)
      × (receive_heartbeat_payload c (frame ++ rest) ≡ ok (t, rest))
unfolding send_heartbeat_payload
receive_heartbeat_payload-send_heartbeat_payload c t rest parses reads fits =
    let msg = c.to_vec (to_wire t) in
    let n = length msg in
    let head = to_be_bytes 8 n in
    let size : length head ≡ 8 = length-to_be_bytes 8 n in
    let cut : read_exact 8 (head ++ (msg ++ rest)) ≡ some (head, msg ++ rest) =
      subst (λ k. read_exact k (head ++ (msg ++ rest)) ≡ some (head, msg ++ rest)) size
        (read_exact-append head (msg ++ rest)) in
    (
      head ++ msg,
      ground arith,
      rw (append_assoc head msg rest) (
          receive_heartbeat_payload_lem c (head ++ (msg ++ rest)) head (msg ++ rest) msg rest n
            (to_wire t) cut (from_be_bytes-to_be_bytes 8 n (omega arith))
            (read_exact-append msg rest) reads
          ∙ ap (λ a. ok (a, rest)) (of_wire-to_wire t parses)),
    )
