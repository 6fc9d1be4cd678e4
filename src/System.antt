-- ===== src/System.antt =====
-- The objects that the threads of the server share: the database, the alert engine (Server/AlertEngine.h),
-- the notifier and the market data handler.
use cloud_alert_system.Common.{Bool, List}
use cloud_alert_system.Text.{Bytes}
use cloud_alert_system.Db.{AlertRecord, Db}
use cloud_alert_system.Notifier.{Notifier}
use cloud_alert_system.MdHandler.{MdHandler}

pub record Engine (D : Type 0) : Type 0 where
  -- m_ctpHandler is not null
  pub ctp_handler : Bool
  -- m_timerThread is not null
  pub timer_thread : Bool
  pub timer_running : Bool
  pub last_prices : List (Bytes × D)
  pub price_alert_cache : List (Bytes × List (AlertRecord D))

pub record System (D : Type 0) : Type 0 where
  pub db : Db D
  pub engine : Engine D
  pub notifier : Notifier
  pub md : MdHandler
