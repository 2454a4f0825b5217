-- ===== src/Client/Distribution/Delivered.antt =====
-- Who gets which fragment of a broadcast.
use reveries_network.Common.{
  ℕ, ◌≤◌, ◌<◌, ◌≡◌, refl, List, ◌++◌, length, take, take-all, length-take, get_elem?,
  get_elem?-take, get_elem?-lt, some, ok, true, false, arith, ltb, inl, inr, Bool-cases, ap, ◌∙◌,
}
use reveries_network.Types.{PeerId, Bytes, Reverie, ReverieKeyfragMessage, NodeKeysWithVesselStatus}
use reveries_network.Network.{NetworkEvents}
use reveries_network.Network.World.{World}
use reveries_network.Client.{NodeClient}
use reveries_network.Client.Broadcast.{
  create_reverie_keyfrags, reverie_commands, message_for, send_fragments,
  broadcast_reverie_keyfrags,
}
use reveries_network.Client.Distribution.{
  kfrags, run_commands, deliveries, keyfrag_sends, delivery, handed, keyfrag_commands-handed,
  handed-get, handed-length,
}
use reveries_network.Client.Distribution.Running.{
  run_commands-keyfrag_sends, run_commands-IsQuiet, reverie_commands-IsQuiet,
}

send_fragments_lem :
    (c : NodeClient) (reverie : Reverie) (target : PeerId) (chosen : List NodeKeysWithVesselStatus)
    → c.receiver_open ≡ true
    → length (kfrags c reverie) ≤ length chosen
    → send_fragments c reverie target chosen ≡ (
      keyfrag_sends (handed c.node_id.peer_id target c reverie 0 (kfrags c reverie) chosen)
          ++ reverie_commands reverie.reverie_type target (message_for c reverie target chosen),
      ok tt,
    )
unfolding send_fragments create_reverie_keyfrags
send_fragments_lem c reverie target chosen opened enough =
    rw
      (
        keyfrag_commands-handed c.node_id.peer_id target c reverie chosen 0 (kfrags c reverie)
            chosen (λ j. ap (get_elem? chosen) (omega arith)) enough,
        opened,
      )
      refl

broadcast-take :
    (c : NodeClient) (reverie : Reverie) (target : PeerId)
    (providers : List NodeKeysWithVesselStatus)
    → reverie.total_frags ≤ length providers
    → broadcast_reverie_keyfrags c reverie target providers
      ≡ send_fragments c reverie target (take reverie.total_frags providers)
unfolding broadcast_reverie_keyfrags
broadcast-take c reverie target providers enough =
    let total = reverie.total_frags in
    let not_fewer : ltb (length providers) total ≡ false = ground arith in
    elim (Bool-cases (ltb total (length providers))) [
      | inl more ↦ rw (not_fewer, broadcast_reverie_keyfrags, more) refl
      | inr equal ↦
          rw (not_fewer, broadcast_reverie_keyfrags, equal, take-all total providers (ground arith))
            refl
    ]

-- Where the event loop takes commands, key generation gives as many fragments as the reverie asks
-- for, and there are as many providers at least, the broadcast succeeds. Once the event loop has
-- carried its commands out, the node has sent exactly that many key fragments more: fragment number
-- `j` to provider `j` and to nobody else, each with the key that was generated for that number.
pub broadcast_reverie_keyfrags-run_commands :
    (w : World) (connected : List PeerId) (k : ℕ) (n : NetworkEvents) (c : NodeClient)
    (reverie : Reverie) (target : PeerId) (providers : List NodeKeysWithVesselStatus)
    → c.receiver_open ≡ true
    → length (kfrags c reverie) ≡ reverie.total_frags
    → reverie.total_frags ≤ length providers
    → let sent = broadcast_reverie_keyfrags c reverie target providers in
      (sent.1 ≡ ok tt)
      × (ds : List (PeerId × ReverieKeyfragMessage)) × (deliveries
            (run_commands w connected k sent.0 n).outbox
          ≡ deliveries n.outbox ++ ds)
      × (length ds ≡ reverie.total_frags)
      × ((j : ℕ) (b : Bytes) (p : NodeKeysWithVesselStatus)
          → get_elem? (kfrags c reverie) j ≡ some b
          → get_elem? providers j ≡ some p
          → get_elem? ds j ≡ some (delivery c.node_id.peer_id target c reverie j b p))
broadcast_reverie_keyfrags-run_commands w connected k n c reverie target providers opened drawn
      enough =
    let me = c.node_id.peer_id in
    let total = reverie.total_frags in
    let chosen = take total providers in
    let fits : length (kfrags c reverie) ≤ length chosen =
      omega (arith, length-take total providers enough) in
    let sends =
      broadcast-take c reverie target providers enough
      ∙ send_fragments_lem c reverie target chosen opened fits in
    let ds = handed me target c reverie 0 (kfrags c reverie) chosen in
    let others =
      reverie_commands reverie.reverie_type target (message_for c reverie target chosen) in
    let (l, m, out, same) = run_commands-keyfrag_sends w connected k ds others n in
    let quiet =
      run_commands-IsQuiet w connected l others m
        (reverie_commands-IsQuiet w connected reverie.reverie_type target _) in
    let ran =
      ap (λ r. deliveries (run_commands w connected k r.0 n).outbox) sends
      ∙ ap (λ (x : NetworkEvents). deliveries x.outbox) same
      ∙ quiet
      ∙ out in
    (
      ap (λ r. r.1) sends,
      ds,
      ran,
      handed-length me target c reverie 0 (kfrags c reverie) chosen fits ∙ drawn,
      λ j b p hb hp.
          let small : j < total = omega (arith, get_elem?-lt (kfrags c reverie) j b hb) in
          let at =
            handed-get me target c reverie 0 j (kfrags c reverie) chosen b p hb
              (get_elem?-take total providers j small ∙ hp) in
          at ∙ ap (λ i. some (delivery me target c reverie i b p)) (omega arith),
    )
