-- ===== src/Heartbeat/Config.antt =====
-- config.rs. A `Duration` is a number of nanoseconds.
use reveries_network.Common.{ℕ, ◌*◌}

pub record HeartbeatConfig : Type 0 where
  pub send_timeout : ℕ
  pub idle_timeout : ℕ
  pub max_failures : ℕ  -- u32

abbrev pub second : ℕ
second = 1_000_000_000

unfoldable pub max_time_before_rotation : HeartbeatConfig → ℕ
max_time_before_rotation c = c.send_timeout * c.max_failures

abbrev pub default_config : HeartbeatConfig
default_config = record { send_timeout = 60 * second; idle_timeout = second; max_failures = 5 }
