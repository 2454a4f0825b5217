-- ===== src/Client/Distribution/Running.antt =====
-- How the event loop carries the commands of a broadcast out.
use reveries_network.Common.{
  ℕ, suc, ◌≡◌, refl, List, [], ◌∷◌, ◌++◌, All, ok, err, append_assoc, append-nil, Result-cases,
  Option-cases, inl, inr, Bool-cases, sym, ap, ◌∙◌,
}
use reveries_network.Types.{
  PeerId, ReverieType, sovereign_agent, ReverieKeyfragMessage, ReverieMessage,
  save_fragment_request,
}
use reveries_network.PeerManager.{agent_name}
use reveries_network.Network.{NetworkEvents, put_name, put_reverie, emit, send_request}
use reveries_network.Network.World.{World, put, panicked, and_then, Outcome}
use reveries_network.Network.Commands.{
  NodeCommand, save_reverie_on_network, send_reverie_to_specific_peer, handle_command, save_reverie,
  send_reverie, announce_agent,
}
use reveries_network.Client.Broadcast.{reverie_commands}
use reveries_network.Client.Distribution.{
  run_commands, deliveries, deliveries-append, keyfrag_sends,
}

module _ (w : World) (connected : List PeerId) where
  announce_agent-deliveries :
      (m : ReverieMessage) (n : NetworkEvents)
      → deliveries (announce_agent w m n).0.outbox ≡ deliveries n.outbox
  unfolding announce_agent put emit
  announce_agent-deliveries m n = elim (Option-cases (agent_name m.reverie.reverie_type)) [
    | inl e ↦ rw (e, announce_agent) refl
    | inr (name, e) ↦
        rw (e, announce_agent)
          (elim (Bool-cases (w.put_record (put_name name m.reverie.id))) [
            | inl taken ↦
                rw (taken, put, deliveries-append n.outbox _, append-nil (deliveries n.outbox)) refl
            | inr refused ↦ rw (refused, put) refl
          ])
  ]

  pub run_commands-keyfrag_sends :
      (k : ℕ) (ds : List (PeerId × ReverieKeyfragMessage)) (cs : List NodeCommand)
      (n : NetworkEvents)
      → (l : ℕ) × (m : NetworkEvents) × (deliveries m.outbox ≡ deliveries n.outbox ++ ds)
        × (run_commands w connected k (keyfrag_sends ds ++ cs) n ≡ run_commands w connected l cs m)
  unfolding run_commands handle_command emit
  run_commands-keyfrag_sends k [] cs n = (k, n, sym (append-nil _), refl)
  run_commands-keyfrag_sends k ((p, f) ∷ ds) cs n =
      let m = emit (send_request p (save_fragment_request f)) n in
      let (l, n', out, same) = run_commands-keyfrag_sends (suc k) ds cs m in
      (
        l,
        n',
        out
            ∙ ap (λ o. o ++ ds) (deliveries-append n.outbox _)
            ∙ append_assoc (deliveries n.outbox) _ ds,
        same,
      )

  -- The command sends no key fragment.
  abbrev IsQuiet : NodeCommand → Type 0
  IsQuiet c =
      (k : ℕ) (n : NetworkEvents)
      → deliveries (handle_command w connected k c n).0.outbox ≡ deliveries n.outbox

  pub run_commands-IsQuiet :
      (k : ℕ) (cs : List NodeCommand) (n : NetworkEvents)
      → All IsQuiet cs
      → deliveries (run_commands w connected k cs n).outbox ≡ deliveries n.outbox
  unfolding run_commands
  run_commands-IsQuiet k [] n h = refl
  run_commands-IsQuiet k (c ∷ cs) n h = elim (Result-cases (handle_command w connected k c n).1) [
    | inl (e, stopped) ↦ rw (stopped, run_commands) (h.0 k n)
    | inr (u, done) ↦ rw (done, run_commands) (run_commands-IsQuiet (suc k) cs _ h.1 ∙ h.0 k n)
  ]

  and_then-deliveries :
      (o : Outcome) (f : NetworkEvents → Outcome)
      → ((a : NetworkEvents) → deliveries (f a).0.outbox ≡ deliveries a.outbox)
      → deliveries (and_then o f).0.outbox ≡ deliveries o.0.outbox
  unfolding and_then
  and_then-deliveries (n, ok u) f h = h n
  and_then-deliveries (n, err e) f h = refl

  save_reverie-IsQuiet : (m : ReverieMessage) → IsQuiet (save_reverie_on_network m)
  unfolding handle_command save_reverie put emit
  save_reverie-IsQuiet m k n =
      and_then-deliveries (announce_agent w m n) (put w panicked (put_reverie m)) (λ a.
        elim (Bool-cases (w.put_record (put_reverie m))) [
          | inl taken ↦
              rw (taken, put, deliveries-append a.outbox _, append-nil (deliveries a.outbox)) refl
          | inr refused ↦ rw (refused, put) refl
        ])
      ∙ announce_agent-deliveries m n

  send_reverie-IsQuiet :
      (holder : PeerId) (m : ReverieMessage) → IsQuiet (send_reverie_to_specific_peer holder m)
  unfolding handle_command send_reverie emit
  send_reverie-IsQuiet holder m k n =
      and_then-deliveries (announce_agent w m n) _
        (λ a. deliveries-append a.outbox _ ∙ append-nil (deliveries a.outbox))
      ∙ announce_agent-deliveries m n

  pub reverie_commands-IsQuiet :
      (type : ReverieType) (holder : PeerId) (m : ReverieMessage)
      → All IsQuiet (reverie_commands type holder m)
  unfolding reverie_commands
  reverie_commands-IsQuiet (sovereign_agent name) holder m = (send_reverie-IsQuiet holder m, tt)
  reverie_commands-IsQuiet _ holder m =
      (save_reverie-IsQuiet m, (send_reverie-IsQuiet holder m, tt))
