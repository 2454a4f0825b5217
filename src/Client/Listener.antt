-- ===== src/Client/Listener.antt =====
-- node_client/network_events_listener.rs: what the client does with the events of the network, and the
-- methods of mod.rs that pass a command on and wait for its answer.
use reveries_network.Common.{
  suc, ◌≡◌, refl, sym, ap, ◌∙◌, String, Bool, true, false, Bool-cases, inl, inr, append-nil,
  if◌then◌else◌, Option, List, [], ◌∷◌, ◌++◌, Result, ok, err,
}
use reveries_network.Types.{
  PeerId, ReverieId, ReverieType, sovereign_agent, ReverieNameWithNonce, AgentVesselInfo,
  NetworkEvent, respawn_request,
}
use reveries_network.Network.{Channel, RestartReason, network_heartbeat_failure}
use reveries_network.Network.Commands.{
  NodeCommand, start_listening, simulate_node_failure, get_node_state, get_connected_peers,
  get_reverie_id_by_name,
}
use reveries_network.Client.{NodeClient, ClientError, send_failed, no_response, panicked}
use reveries_network.Client.Run.{Run, ◌>>=◌, lift, send_or}
use reveries_network.Client.Spawn.{Answers, handle_respawn_request}
use reveries_network.Client.Respawn.{
  completions, completions-append, reported, handle_respawn_request-completions,
}

abbrev default_address : String
default_address = "/ip4/0.0.0.0/tcp/0"

-- `answers` are what the event loop replies for each address; an address without one waits for ever.
unfoldable pub listen_on_all :
    NodeClient → Channel → List String → List (Result ClientError String) → Run Unit
listen_on_all c reply [] answers = lift (ok tt)
listen_on_all c reply (addr ∷ rest) [] =
    send_or send_failed c.receiver_open (start_listening addr reply ∷ []) >>= λ u.
    lift (err no_response)
listen_on_all c reply (addr ∷ rest) (answer ∷ answers) = do
  _ ← send_or send_failed c.receiver_open (start_listening addr reply ∷ [])
  _ ← lift answer
  listen_on_all c (suc reply) rest answers

unfoldable pub start_listening_to_network :
    NodeClient → Channel → List String → List (Result ClientError String) → Run Unit
unfolding listen_on_all
start_listening_to_network c reply [] answers = listen_on_all c reply (default_address ∷ []) answers
start_listening_to_network c reply (addr ∷ rest) answers =
    listen_on_all c reply (addr ∷ rest) answers

-- a command and the answer that it waits for
asked : {A : Type 0} → ClientError → NodeClient → NodeCommand → Result ClientError A → Run A
asked e c command answer = send_or e c.receiver_open (command ∷ []) >>= λ u. lift answer

unfoldable pub ask_node_failure :
    NodeClient → Channel → Result ClientError RestartReason → Run RestartReason
unfolding asked
ask_node_failure c reply answer =
    asked no_response c (simulate_node_failure reply network_heartbeat_failure) answer

unfoldable pub ask_node_state : NodeClient → Channel → Result ClientError String → Run String
unfolding asked
ask_node_state c reply answer = asked no_response c (get_node_state reply) answer

unfoldable pub ask_connected_peers :
    NodeClient → Channel → Result ClientError (List PeerId) → Run (List PeerId)
unfolding asked
ask_connected_peers c reply answer = asked send_failed c (get_connected_peers reply) answer

unfoldable pub ask_reverie_id_by_name :
    NodeClient
    → Channel
    → ReverieNameWithNonce
    → Result ClientError (Option ReverieId)
    → Run (Option ReverieId)
unfolding asked
ask_reverie_id_by_name c reply name answer =
    asked panicked c (get_reverie_id_by_name name reply) answer

-- An event of the network, with what comes back while it is handled and the id of the new reverie.
pub record Heard : Type 0 where
  pub event : NetworkEvent
  pub reply : Channel
  pub answers : Answers
  pub next_id : ReverieId

unfoldable pub handle_event : NodeClient → Heard → NetworkEvent → Run Unit
unfolding handle_respawn_request
handle_event c h (respawn_request v) =
    handle_respawn_request c h.reply h.answers h.next_id v.reverie_id v.reverie_type v.threshold
      v.total_frags v.current_vessel_peer_id

unfoldable pub is_panic : {A : Type 0} → Result ClientError A → Bool
is_panic (err panicked) = true
is_panic _ = false

-- A respawn that fails is logged, and one that panics ends the task with it; the loop ends with a panic
-- of its own when the channel of events closes.
unfoldable pub listen_to_network_events : NodeClient → List Heard → Run Unit
unfolding handle_event is_panic
listen_to_network_events c [] = lift (err panicked)
listen_to_network_events c (h ∷ hs) =
    let handled = handle_event c h h.event in
    let later = listen_to_network_events c hs in
    if is_panic handled.1 then (handled.0, err panicked) else (handled.0 ++ later.0, later.1)

-- the former vessel of an agent whose respawn has succeeded
abbrev pub respawned :
    {A : Type 0}
    → AgentVesselInfo
    → ReverieType
    → Result ClientError A
    → List (ReverieId × PeerId × ReverieNameWithNonce)
respawned v (sovereign_agent name) result =
    reported ((v.reverie_id, v.current_vessel_peer_id, name) ∷ []) result
respawned v _ result = []

abbrev pub respawned_by :
    NodeClient → Heard → NetworkEvent → List (ReverieId × PeerId × ReverieNameWithNonce)
respawned_by c h (respawn_request v) =
    respawned v v.reverie_type (handle_event c h (respawn_request v)).1

abbrev pub all_respawned :
    NodeClient → List Heard → List (ReverieId × PeerId × ReverieNameWithNonce)
all_respawned c [] = []
all_respawned c (h ∷ hs) =
    respawned_by c h h.event
    ++ (if is_panic (handle_event c h h.event).1 then [] else all_respawned c hs)

module _ (c : NodeClient) where
  typed-completions :
      (h : Heard) (v : AgentVesselInfo) (type : ReverieType)
      → let run =
          handle_respawn_request c h.reply h.answers h.next_id v.reverie_id type v.threshold
            v.total_frags v.current_vessel_peer_id in
        completions run.0 ≡ respawned v type run.1
  unfolding handle_respawn_request
  typed-completions h v (sovereign_agent name) =
      handle_respawn_request-completions c h.reply h.answers h.next_id v.reverie_id name v.threshold
        v.total_frags v.current_vessel_peer_id
  typed-completions h v _ = refl

  handle_event-completions :
      (h : Heard) (e : NetworkEvent) → completions (handle_event c h e).0 ≡ respawned_by c h e
  unfolding handle_event
  handle_event-completions h (respawn_request v) = typed-completions h v v.reverie_type

  -- Over all the requests that a client hears, it reports the former vessels of exactly the sovereign
  -- agents whose respawn succeeds, in order, each once and with the agent's former name, up to the first
  -- request whose handling panics: a respawn that fails otherwise, and a request for what is no
  -- sovereign agent, reports nothing and keeps none of the later ones from being handled.
  pub listen_to_network_events-completions :
      (hs : List Heard) → completions (listen_to_network_events c hs).0 ≡ all_respawned c hs
  unfolding listen_to_network_events
  listen_to_network_events-completions [] = refl
  listen_to_network_events-completions (h ∷ hs) =
      let handled = handle_event c h h.event in
      elim (Bool-cases (is_panic handled.1)) [
        | inl panics ↦
            rw panics
              (handle_event-completions h h.event ∙ sym (append-nil (respawned_by c h h.event)))
        | inr goes_on ↦ rw goes_on (
            completions-append handled.0 (listen_to_network_events c hs).0
            ∙ ap (λ xs. xs ++ completions (listen_to_network_events c hs).0)
                (handle_event-completions h h.event)
            ∙ ap (λ xs. respawned_by c h h.event ++ xs) (listen_to_network_events-completions hs))
      ]
