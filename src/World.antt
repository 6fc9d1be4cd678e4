-- ===== src/World.antt =====
-- What lies outside the process at one step: SQLite, the clocks, and the sockets. Each step of the
-- program meets a world of its own.
use cloud_alert_system.Common.{ℕ, ℤ}
use cloud_alert_system.Text.{Bytes}
use cloud_alert_system.Db.{Sqlite}

pub record World (D : Type 0) : Type 0 where
  pub sqlite : Sqlite D
  -- CurrentTimestamp(), GetCurrentTimeStr() and GetCurrentHMS()
  pub now : Bytes
  pub hms : Bytes
  -- send(sock, text, size, 0): the number of bytes sent, or -1
  pub send : ℕ → Bytes → ℤ
