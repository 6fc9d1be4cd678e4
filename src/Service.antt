-- ===== src/Service.antt =====
-- Server/main.cpp: how the server starts, and the steps of its threads once it runs.
pub mod Upkeep
pub mod History
pub mod Due
use cloud_alert_system.Common.{
  zero, suc, ◌+◌, ◌≡◌, Bool, true, false, ◌&&◌, Option, none, some, List, [], ◌∷◌, ◌++◌, arith,
  if◌then◌else◌, ℤ, pos,
}
use cloud_alert_system.Db.{Db}
use cloud_alert_system.Double.{Float}
use cloud_alert_system.System.{Engine, System}
use cloud_alert_system.Text.{Bytes}
use cloud_alert_system.World.{World}
use cloud_alert_system.AlertEngine.{
  refresh_price_alert_cache, start_timer_thread, set_ctp_handler, timer_round,
}
use cloud_alert_system.ClientSession.{Session, Turn, open_session, close_session, dispatch}
use cloud_alert_system.MdHandler.{MdHandler, on_front_connected, connect}
use cloud_alert_system.MdHandler.Callbacks.{on_rsp_user_login, on_rtn_depth_market_data}
use cloud_alert_system.Notifier.{Notifier, Socket}
use cloud_alert_system.Notifier

-- what the calls of Windows and of the market data API answer while main starts the server
pub record Launch : Type 0 where
  -- AlertDB::Init
  pub opens : Bool
  -- CreateThread, for the timer and for the TCP server
  pub makes_timer : Bool
  pub makes_server : Bool
  -- Connect: see MdHandler
  pub stubs : Bool
  pub makes_api : Bool
  pub front : Bytes

-- AlertEngine(db, notifier), before its refresh
abbrev pub new_engine : {D : Type 0} → Engine D
new_engine = record {
  ctp_handler = false;
  timer_thread = false;
  timer_running = false;
  last_prices = [];
  price_alert_cache = [];
}

-- CTPMdHandler(engine)
abbrev pub new_md : MdHandler
new_md = record { api = false; request_id = pos 0; requests = [] }

module _ {D : Type 0} (W : World D) where
  -- main, up to its sleep; `none`: it has returned 1
  unfoldable pub boot : Launch → Db D → Notifier → Option (System D)
  boot l db notifier =
      let s =
        refresh_price_alert_cache W
          (record { db = db; engine = new_engine; notifier = notifier; md = new_md }) in
      let (t, started) = start_timer_thread l.makes_timer s in
      let u = set_ctp_handler t in
      let (md, _) = connect l.stubs l.makes_api l.front u.md in
      if l.opens && (started && l.makes_server) then some (record u { md = md }) else none

-- the server while it runs, with the sessions of its workers
pub record Service (D : Type 0) : Type 0 where
  pub system : System D
  pub sessions : List Session

-- One step of one of the threads; it meets a world of its own. A handler, a tick and a round of the
-- timer are each one step here.
pub data Step {D : Type 0} (F : Float D) (W : World D) (v : Service D) : Service D → Type 0 where
  -- a worker takes a client
  joins :
      (sock : Socket) → Step F W v (record v { sessions = v.sessions ++ open_session sock ∷ [] })
  -- a session handles a line
  says :
      (before after : List Session) (c : Session) (line : Bytes) (t : Turn D)
      → v.sessions ≡ before ++ c ∷ after
      → dispatch F W line c v.system ≡ some t
      → Step F W v (record { system = t.system; sessions = before ++ t.session ∷ after })
  -- a session ends
  leaves :
      (before after : List Session) (c : Session)
      → v.sessions ≡ before ++ c ∷ after
      → Step F W v (record { system = close_session c v.system; sessions = before ++ after })
  -- the market data API calls back
  connected :
      Step F W v (record v { system = record v.system { md = on_front_connected v.system.md } })
  answered :
      (error_id : Option ℤ)
      → Step F W v (record v { system = on_rsp_user_login W error_id v.system })
  ticks :
      (tick : Option (Bytes × D)) (t : System D)
      → on_rtn_depth_market_data F W tick v.system ≡ some t
      → Step F W v (record v { system = t })
  -- a round of the timer thread
  seconds :
      (goes_on : Bool) (t : System D)
      → timer_round F W v.system ≡ some (t, goes_on)
      → Step F W v (record v { system = t })
  -- a round of the notifier's worker
  delivers : Step F W v (record v {
    system = record v.system { notifier = (Notifier.worker_round W v.system.notifier).0 };
  })

-- Runs of the server in which each step's world answers well enough for the tables it leaves.
pub data Reach {D : Type 0} (F : Float D) (answers : World D → Db D → Type 0) (v : Service D)
    : Service D → Type 0 where
  here : Reach F answers v v
  next :
      {w x : Service D} (W : World D)
      → Reach F answers v w
      → Step F W w x
      → answers W x.system.db
      → Reach F answers v x
