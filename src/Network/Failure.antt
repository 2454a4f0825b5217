-- ===== src/Network/Failure.antt =====
-- network_events/reincarnation.rs and node_client/container_manager.rs: a node that cannot send its own
-- heartbeats leaves the network and restarts.
use reveries_network.Common.{ℕ, zero, suc, Bool, true, List, [], ◌∷◌, ◌++◌, if◌then◌else◌}
use reveries_network.Types.{PeerId}
use reveries_network.Network.{
  NetworkEvents, RestartReason, scheduled_heartbeat_failure, emit, disconnect,
  trigger_heartbeat_failure, trigger_restart, sleep_second,
}

-- the signals that went out, and whether the process has exited
pub record ContainerManager : Type 0 where
  pub is_shutting_down : Bool
  pub shutdown_signal : List RestartReason
  pub exited : Bool

unfoldable pub restart : RestartReason → ContainerManager → ContainerManager
restart reason c = if c.is_shutting_down then c else record {
  is_shutting_down = true;
  shutdown_signal = c.shutdown_signal ++ (reason ∷ []);
  exited = true;
}

unfoldable pub simulate_heartbeat_failure : NetworkEvents → NetworkEvents
unfolding emit
simulate_heartbeat_failure n = emit trigger_heartbeat_failure n

unfoldable pub disconnect_all : List PeerId → NetworkEvents → NetworkEvents
unfolding emit
disconnect_all [] n = n
disconnect_all (p ∷ ps) n = disconnect_all ps (emit (disconnect p) n)

unfoldable pub count_down : ℕ → NetworkEvents → NetworkEvents
unfolding emit
count_down zero n = n
count_down (suc seconds) n = count_down seconds (emit sleep_second n)

-- `seconds` is `max_time_before_rotation` of the heartbeat's configuration.
unfoldable pub handle_internal_heartbeat_failure : List PeerId → ℕ → NetworkEvents → NetworkEvents
unfolding disconnect_all count_down emit
handle_internal_heartbeat_failure connected seconds n =
    emit (trigger_restart scheduled_heartbeat_failure)
      (count_down seconds (disconnect_all connected n))
