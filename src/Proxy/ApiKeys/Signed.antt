-- ===== src/Proxy/ApiKeys/Signed.antt =====
-- Which requests to the API key server get through.
use reveries_network.Common.{
  ℕ, ◌^◌, ◌<◌, String, ◌≡◌, ◌↔◌, refl, Bool, true, false, not, some, ok, bind-ok, ok_or-ok,
  require-true, nat_beq_iff, length, ◌∙◌, subst, ap,
}
use reveries_network.Types.{PublicKey, Bytes}
use reveries_network.Proxy.Clock.{ℤ, parse_i64, IsRecent, outside_window_lem, parse_i64-InRange}
use reveries_network.Proxy.ApiKeys.{
  ApiWorld, NodeRequest, verify_node_request, generate_digest_hash,
}

-- A request that the node signed, with its method, its path, its time and its body, and that is
-- recent.
pub record IsSigned (w : ApiWorld) (key : PublicKey) (now : ℕ) (r : NodeRequest) (body : Bytes)
    : Type 0 where
  pub signature_b64 : String
  pub signature : Bytes
  pub timestamp_str : String
  pub timestamp : ℤ
  pub has_signature : r.node_signature ≡ some signature_b64
  pub has_timestamp : r.node_timestamp ≡ some timestamp_str
  pub has_body : r.body ≡ some body
  pub parses : parse_i64 timestamp_str ≡ some timestamp
  pub recent : IsRecent now timestamp
  pub decodes : w.base64_decode signature_b64 ≡ some signature
  pub long : length signature ≡ 64
  pub verified :
      w.verify key (generate_digest_hash w r.method r.path timestamp_str body) signature ≡ true

not-true : (b : Bool) → not b ≡ true → b ≡ false
not-true true h = cc
not-true false h = refl

module _ (w : ApiWorld) (key : PublicKey) (now : ℕ) (r : NodeRequest) (body : Bytes)
    (today : now < 2 ^ 62) where
  verify_sound : verify_node_request w key now r ≡ ok body → IsSigned w key now r body
  unfolding verify_node_request
  verify_sound h =
      let (signature_b64, has_signature, h1) = bind-ok _ _ body h in
      let (timestamp_str, has_timestamp, h2) = bind-ok _ _ body h1 in
      let (timestamp, parses, h3) = bind-ok _ _ body h2 in
      let (u, inside, h4) = bind-ok _ _ body h3 in
      let (signature, decodes, h5) = bind-ok _ _ body h4 in
      let (u', long, h6) = bind-ok _ _ body h5 in
      let (read, has_body, h7) = bind-ok _ _ body h6 in
      let (u'', verified, h8) = bind-ok _ _ body h7 in
      let same : read ≡ body = cc in
      let parsed = ok_or-ok _ _ _ parses in
      record {
        signature_b64 = signature_b64;
        signature = signature;
        timestamp_str = timestamp_str;
        timestamp = timestamp;
        has_signature = ok_or-ok _ _ _ has_signature;
        has_timestamp = ok_or-ok _ _ _ has_timestamp;
        has_body = ok_or-ok _ _ _ has_body ∙ ap some same;
        parses = parsed;
        recent =
            (outside_window_lem now timestamp today
                (parse_i64-InRange timestamp_str timestamp parsed)).0
              (not-true _ (require-true _ _ u inside));
        decodes = ok_or-ok _ _ _ decodes;
        long = (nat_beq_iff (length signature) 64).0 (require-true _ _ u' long);
        verified =
            subst
              (λ b.
                w.verify key (generate_digest_hash w r.method r.path timestamp_str b) signature
                ≡ true)
              same (require-true _ _ u'' verified);
      }

  verify_complete : IsSigned w key now r body → verify_node_request w key now r ≡ ok body
  unfolding verify_node_request
  verify_complete a =
      let inside =
        (outside_window_lem now a.timestamp today
            (parse_i64-InRange a.timestamp_str a.timestamp a.parses)).1
          a.recent in
      rw
        (
          a.has_signature,
          verify_node_request,
          a.has_timestamp,
          a.parses,
          inside,
          a.decodes,
          (nat_beq_iff (length a.signature) 64).1 a.long,
          a.has_body,
          a.verified,
        )
        refl

-- A request to add or remove a key gets through to its handler, with its body, exactly when it is
-- signed and recent: both headers are there, the signature is 64 bytes that the node's key made of
-- the request's method, path, time and body, and the time is at most a minute away. One timestamp
-- more passes, at which the subtraction wraps.
pub verify_node_request-IsSigned :
    (w : ApiWorld) (key : PublicKey) (now : ℕ) (r : NodeRequest) (body : Bytes)
    → now < 2 ^ 62
    → (verify_node_request w key now r ≡ ok body) ↔ IsSigned w key now r body
verify_node_request-IsSigned w key now r body today =
    (verify_sound w key now r body today, verify_complete w key now r body today)
