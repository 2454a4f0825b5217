-- ===== src/PeerManager/Liveness.antt =====
-- When a peer counts as offline.
use reveries_network.Common.{ℕ, ◌-◌, ◌≡◌, arith, ◌==◌, ==_iff, string_eq, ltb, if◌then◌else◌}
use reveries_network.Common.Map
use reveries_network.Common.Map.{get-insert, get-remove}
use reveries_network.Types.{PeerId}
use reveries_network.Heartbeat.Attestation.{TeeAttestation}
use reveries_network.PeerManager.HeartbeatData.{Now, update, duration_since_last_heartbeat}
use reveries_network.PeerManager.{
  PeerManager, entry_or_new, new_peer_info, update_peer_heartbeat, is_peer_offline,
}

-- From a heartbeat on, the peer counts as offline exactly when more than the allowed time has
-- passed since that heartbeat, whether or not the node knew the peer before; no other peer's
-- standing changes.
is_peer_offline-update_peer_heartbeat :
    (p q : PeerId) (t : TeeAttestation) (now : Now) (allowed later : ℕ) (m : PeerManager)
    → is_peer_offline q allowed later (update_peer_heartbeat p t now m)
      ≡ (if p == q then ltb allowed (later - now.instant) else is_peer_offline q allowed later m)
unfolding is_peer_offline update_peer_heartbeat new_peer_info duration_since_last_heartbeat update
is_peer_offline-update_peer_heartbeat p q t now allowed later m =
    let e = entry_or_new p m.avg_window now (Map.get p m.peer_info) in
    ground (
      arith,
      get-insert p q (record e { heartbeat_data = update e.heartbeat_data t now }) m.peer_info,
      ==_iff p q,
    )
