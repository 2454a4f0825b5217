-- ===== src/Tests/Peers.antt =====
-- The peer manager and the record keys at concrete inputs.
use reveries_network.Common.{◌≡◌, ◌≢◌, [], ◌∷◌, string_eq, arith, take}
use reveries_network.Types.Kademlia.{from, reverie_id_to_name_key, from-ne-reverie_id_to_name_key}
use reveries_network.Heartbeat.Attestation.{default_attestation}
use reveries_network.PeerManager.HeartbeatData
use reveries_network.PeerManager.HeartbeatData.{
  Now, average_time_between_heartbeats, updates, intervals, mean, average-updates,
}
use reveries_network.Tests.Nodes.{early}

abbrev beat : Now
beat = record { instant = 30; system = 30 }

average-updates_example :
    average_time_between_heartbeats
      (updates (HeartbeatData.new 2 early) ((default_attestation, beat) ∷ []))
    ≡ mean (take 2 (intervals 0 [] ((default_attestation, beat) ∷ [])))
average-updates_example = average-updates 2 early ((default_attestation, beat) ∷ []) (omega arith)

from-ne-reverie_id_to_name_key_example :
    from "reverie_id_to_name_ava-1" ≢ reverie_id_to_name_key "ava-1"
from-ne-reverie_id_to_name_key_example =
    from-ne-reverie_id_to_name_key "reverie_id_to_name_ava-1" "ava-1"
