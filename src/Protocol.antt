-- ===== src/Protocol.antt =====
-- The constants of Server/Protocol.h.
use cloud_alert_system.Common.{ℕ, ℤ, pos, negsuc}

abbrev pub alert_type_price : ℤ
alert_type_price = pos 0

abbrev pub alert_type_time : ℤ
alert_type_time = pos 1

abbrev pub cond_ge : ℤ
cond_ge = pos 0

abbrev pub cond_le : ℤ
cond_le = pos 1

abbrev pub status_pending : ℤ
status_pending = pos 0

abbrev pub status_triggered : ℤ
status_triggered = pos 1

abbrev pub status_deleted : ℤ
status_deleted = pos 2

abbrev pub query_all : ℤ
query_all = negsuc 0

abbrev pub recv_buf_size : ℕ
recv_buf_size = 4096
