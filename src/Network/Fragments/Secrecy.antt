-- ===== src/Network/Fragments/Secrecy.antt =====
-- Fragments leave a node in no other way than in the answer to an accepted request for them.
use reveries_network.Common.{
  ◌≡◌, refl, ◌∙◌, String, some, List, [], ◌∷◌, ◌++◌, append-nil, Option-cases, Bool-cases, inl, inr,
  Result, ok, err, Result-cases, ◌⊎◌,
}
use reveries_network.Types.{
  ReverieNameWithNonce, ReverieId, AccessKey, ReverieCapsulefrag, ReverieMessage,
  ReverieKeyfragMessage, ReverieType, Bytes, FragmentRequest, get_fragment_request,
  save_fragment_request, providing_fragment_request, save_ciphertext_request,
  mark_respawn_complete_request, FragmentResponse, get_fragment_response, save_ciphertext_response,
}
use reveries_network.PeerManager.HeartbeatData.{Now}
use reveries_network.PeerManager.{get_cfrags, agent_name, insert_reverie}
use reveries_network.Network.{
  NetworkEvents, Output, emit, send_response, remove_peer, put_reverie_holder, remove_vessel_status,
}
use reveries_network.Network.World.{
  World, Stop, Outcome, respond, put, and_then, put_error, send_error,
}
use reveries_network.Network.Reincarnation.{mark_pending_respawn_complete}
use reveries_network.Network.Fragments.{
  check_access, get_fragment, reencrypt_frag, save_metadata, save_fragment, providing_fragment,
  publish_active, save_ciphertext, reverie_metadata_of, handle_request,
}
use reveries_network.Network.Fragments.Release.{Opens, check_access-Opens}

-- The answers to requests for fragments among the outputs, in order.
abbrev pub released : List Output → List (Result String Bytes)
released [] = []
released (send_response (get_fragment_response r) ∷ os) = r ∷ released os
released (_ ∷ os) = released os

released-append : (xs ys : List Output) → released (xs ++ ys) ≡ released xs ++ released ys
released-append [] ys = refl
released-append (send_response (get_fragment_response r) ∷ os) ys = rw (released-append os ys)
released-append (_ ∷ os) ys = released-append os ys

abbrev Quiet : Output → Type 0
Quiet o = released (o ∷ []) ≡ []

-- The node has released the answers `rs`, and no more.
record Released (rs : List (Result String Bytes)) (n : NetworkEvents) : Type 0 where
  so_far : released n.outbox ≡ rs

module _ (rs : List (Result String Bytes)) (n : NetworkEvents) (h : Released rs n) where
  emit-Released : (o : Output) → Quiet o → Released rs (emit o n)
  unfolding emit
  emit-Released o quiet = record {
    so_far =
        rw (released-append n.outbox (o ∷ []), quiet) (append-nil (released n.outbox) ∙ h.so_far);
  }

  respond-Released :
      (w : World) (stop : Stop) (r : FragmentResponse)
      → Quiet (send_response r)
      → Released rs (respond w stop r n).0
  unfolding respond
  respond-Released w stop r quiet = elim (Bool-cases w.channel_open) [
    | inl waits ↦ rw (waits, respond) (emit-Released (send_response r) quiet)
    | inr gone ↦ rw (gone, respond) h
  ]

  put-Released : (w : World) (stop : Stop) (o : Output) → Quiet o → Released rs (put w stop o n).0
  unfolding put
  put-Released w stop o quiet = elim (Bool-cases (w.put_record o)) [
    | inl taken ↦ rw (taken, put) (emit-Released o quiet)
    | inr full ↦ rw (full, put) h
  ]

and_then-Released :
    (rs : List (Result String Bytes)) (a : Outcome) (k : NetworkEvents → Outcome)
    → Released rs a.0
    → ((n : NetworkEvents) → Released rs n → Released rs (k n).0)
    → Released rs (and_then a k).0
unfolding and_then
and_then-Released rs (n, ok _) k h f = f n h
and_then-Released rs (n, err stop) k h f = h

save_fragment-Released :
    (rs : List (Result String Bytes)) (w : World) (m : ReverieKeyfragMessage) (n : NetworkEvents)
    → Released rs n
    → Released rs (save_fragment w m n).0
unfolding save_fragment
save_fragment-Released rs w m n h = elim (Result-cases (reencrypt_frag w m.reverie_keyfrag)) [
  | inl (stop, e) ↦ rw (e, save_fragment) h
  | inr (c, e) ↦
      rw (e, save_fragment)
        (respond-Released rs _ (emit-Released rs _ (record { so_far = h.so_far }) _ refl) w _ _
          refl)
]

publish_active-Released :
    (rs : List (Result String Bytes)) (w : World) (type : ReverieType) (n : NetworkEvents)
    → Released rs n
    → Released rs (publish_active w type n).0
unfolding publish_active
publish_active-Released rs w type n h = elim (Option-cases (agent_name type)) [
  | inl e ↦ rw (e, publish_active) h
  | inr (name, e) ↦ rw (e, publish_active) (put-Released rs n h w _ _ refl)
]

save_ciphertext-Released :
    (rs : List (Result String Bytes)) (w : World) (m : ReverieMessage) (n : NetworkEvents)
    → Released rs n
    → Released rs (save_ciphertext w m n).0
unfolding save_ciphertext
save_ciphertext-Released rs w m n h =
    let kept = record n { peer_manager = save_metadata (reverie_metadata_of m) n.peer_manager } in
    let answered = respond w send_error save_ciphertext_response in
    let stored = λ (a : NetworkEvents). record a {
      peer_manager = insert_reverie m.reverie.id m a.peer_manager;
    } in
    let held = put w put_error (put_reverie_holder m.reverie.id m.target_peer_id) in
    and_then-Released rs (publish_active w m.reverie.reverie_type kept)
      (λ a. and_then (held (stored a)) answered)
      (publish_active-Released rs w m.reverie.reverie_type kept (record { so_far = h.so_far }))
      (λ a ha.
        and_then-Released rs (held (stored a)) answered
          (put-Released rs (stored a) (record { so_far = ha.so_far }) w put_error
            (put_reverie_holder m.reverie.id m.target_peer_id) refl)
          (λ b hb. respond-Released rs b hb w send_error save_ciphertext_response refl))

mark_pending_respawn_complete-Released :
    (rs : List (Result String Bytes)) (p : String) (name : ReverieNameWithNonce) (n : NetworkEvents)
    → Released rs n
    → Released rs (mark_pending_respawn_complete p name n)
unfolding mark_pending_respawn_complete remove_peer emit
mark_pending_respawn_complete-Released rs p name n h = record {
  so_far =
      rw (released-append n.outbox (remove_vessel_status p ∷ []))
        (append-nil (released n.outbox) ∙ h.so_far);
}

-- A fragment leaves a node in one way only: a request that another node makes either changes
-- nothing about what the node has released, or it is a request for a fragment that the node stores,
-- with a key that opens the fragment's condition.
pub handle_request-released :
    (w : World) (now : Now) (r : FragmentRequest) (n : NetworkEvents)
    → (released (handle_request w now r n).0.outbox ≡ released n.outbox)
      ⊎ ((id : ReverieId) × (key : AccessKey) × (f : ReverieCapsulefrag) × (r
            ≡ get_fragment_request id key)
          × (get_cfrags id n.peer_manager ≡ some f)
          × Opens w id key f.access_condition)
unfolding handle_request
handle_request-released w now (get_fragment_request id key) n =
    elim (Option-cases (get_cfrags id n.peer_manager)) [
      | inl missing ↦ inl (unfold get_fragment in rw (missing, get_fragment) refl)
      | inr (f, stored) ↦ elim (Result-cases (check_access w id key f)) [
        | inl (stop, refused) ↦ inl (unfold get_fragment in rw (stored, get_fragment, refused) refl)
        | inr (u, granted) ↦
            inr (id, key, f, refl, stored, (check_access-Opens w id key f).0 granted)
      ]
    ]
handle_request-released w now (save_fragment_request m) n =
    inl (save_fragment-Released _ w m n (record { so_far = refl })).so_far
handle_request-released w now (providing_fragment_request id k p) n = inl (
    unfold providing_fragment in
    (respond-Released (released n.outbox) _ (record { so_far = refl }) w _ _ refl).so_far)
handle_request-released w now (save_ciphertext_request m) n =
    inl (save_ciphertext-Released _ w m n (record { so_far = refl })).so_far
handle_request-released w now (mark_respawn_complete_request id p name) n =
    inl
      (respond-Released _ _
        (mark_pending_respawn_complete-Released (released n.outbox) p name n
          (record { so_far = refl }))
        w _ _ refl).so_far
