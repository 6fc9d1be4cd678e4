-- ===== src/Service/Upkeep.antt =====
-- The tables and the alert engine's cache in any run of the server (Server/main.cpp).
use cloud_alert_system.Common.{
  ◌^◌, ◌<◌, ◌≡◌, refl, ap, subst, ◌⊎◌, inl, inr, Bool, true, false, Option, none, some, arith,
  if◌then◌else◌, length, ℤ,
}
use cloud_alert_system.Db.{Db}
use cloud_alert_system.Double.{Float}
use cloud_alert_system.System.{Engine, System}
use cloud_alert_system.Text.{Bytes, c_str}
use cloud_alert_system.World.{World}
use cloud_alert_system.AlertEngine.{timer_round, check_time_alerts, ◌>>=◌}
use cloud_alert_system.ClientSession.{Session, close_session}
use cloud_alert_system.MdHandler.{on_front_connected}
use cloud_alert_system.MdHandler.Callbacks.{on_rsp_user_login, on_rtn_depth_market_data}
use cloud_alert_system.Notifier.{Notifier, Socket}
use cloud_alert_system.Notifier
use cloud_alert_system.AlertEngine.Cache.{Sees}
use cloud_alert_system.AlertEngine.Coherent.{Same-Coherent, Coherent}
use cloud_alert_system.AlertEngine.Timed.{check_time_alerts-Coherent}
use cloud_alert_system.AlertEngine.Upkeep.{check_price_alert-Coherent}
use cloud_alert_system.ClientSession.Consistent.{dispatch-Coherent}
use cloud_alert_system.Service.{Service, Step, Reach}

module _ {D : Type 0} where
  -- SQLite answers what a refresh asks for these tables, and the rowids fit in an int
  abbrev pub Answers : World D → Db D → Type 0
  Answers W db = Sees W (length db.alerts) × (db.alert_seq < 2 ^ 31)

  pub close_session-same :
      (c : Session) (s : System D)
      → ((close_session c s).db ≡ s.db) × ((close_session c s).engine ≡ s.engine)
  unfolding close_session
  close_session-same c s = (ground arith, ground arith)

  pub on_rsp_user_login-same :
      (W : World D) (error_id : Option ℤ) (s : System D)
      → ((on_rsp_user_login W error_id s).db ≡ s.db)
        × ((on_rsp_user_login W error_id s).engine ≡ s.engine)
  unfolding on_rsp_user_login
  on_rsp_user_login-same W none s = (refl, refl)
  on_rsp_user_login-same W (some error_id) s = (ground arith, ground arith)

module _ {D : Type 0} (F : Float D) (W : World D) where
  tick-Coherent :
      (tick : Option (Bytes × D)) (s t : System D)
      → on_rtn_depth_market_data F W tick s ≡ some t
      → Coherent s
      → Coherent t
  unfolding on_rtn_depth_market_data
  tick-Coherent none s t e h = let same : s ≡ t = ground (arith, e) in subst Coherent same h
  tick-Coherent (some (contract, p)) s t e h =
      check_price_alert-Coherent F W (c_str contract) p s t e h

  -- a round of the timer is a check of the time alerts, or nothing
  pub timer_round-cases :
      (s t : System D) (goes_on : Bool)
      → timer_round F W s ≡ some (t, goes_on)
      → (check_time_alerts F W s ≡ some t) ⊎ (s ≡ t)
  unfolding timer_round
  timer_round-cases s t goes_on e = of s.engine.timer_running (check_time_alerts F W s) e
    where
      of :
          (on : Bool) (m : Option (System D))
          → (if on then (◌>>=◌ {B = System D × Bool} m (λ u. some (u, true))) else some (s, false))
            ≡ some (t, goes_on)
          → (m ≡ some t) ⊎ (s ≡ t)
      of true none e = absurd (ground (arith, e))
      of true (some u) e = inl (ground (arith, e))
      of false m e = inr (ground (arith, e))

  timer_round-Coherent :
      (s t : System D) (goes_on : Bool)
      → timer_round F W s ≡ some (t, goes_on)
      → s.db.alert_seq < 2 ^ 31
      → Coherent s
      → Coherent t
  timer_round-Coherent s t goes_on e small h = elim (timer_round-cases s t goes_on e) [
    | inl checked ↦ check_time_alerts-Coherent F W s t checked small h
    | inr same ↦ subst Coherent same h
  ]

  Step-Coherent :
      {v w : Service D}
      → Step F W v w
      → v.system.db.alert_seq < 2 ^ 31
      → Answers W w.system.db
      → Coherent v.system
      → Coherent w.system
  Step-Coherent (Step.joins sock) small ans h = h
  Step-Coherent {v} (Step.says before after c line t at e) small ans h =
      dispatch-Coherent F W line c v.system t h ans.0 ans.1 e
  Step-Coherent {v} (Step.leaves before after c at) small ans h =
      let same = close_session-same c v.system in
      Same-Coherent v.system (close_session c v.system)
        (same.0, ap (λ (x : Engine D). x.price_alert_cache) same.1) h
  Step-Coherent {v} Step.connected small ans h =
      Same-Coherent v.system (record v.system { md = on_front_connected v.system.md }) (refl, refl)
        h
  Step-Coherent {v} (Step.answered error_id) small ans h =
      let same = on_rsp_user_login-same W error_id v.system in
      Same-Coherent v.system (on_rsp_user_login W error_id v.system)
        (same.0, ap (λ (x : Engine D). x.price_alert_cache) same.1) h
  Step-Coherent {v} (Step.ticks tick t e) small ans h = tick-Coherent tick v.system t e h
  Step-Coherent {v} (Step.seconds goes_on t e) small ans h =
      timer_round-Coherent v.system t goes_on e small h
  Step-Coherent {v} Step.delivers small ans h =
      Same-Coherent v.system
        (record v.system { notifier = (Notifier.worker_round W v.system.notifier).0 }) (refl, refl)
        h

module _ {D : Type 0} (F : Float D) where
  -- Any steps of the threads, each one whole and with a SQLite that answers the queries of a
  -- refresh, with every rowid below 2^31, keep the tables valid and the cache of the alert engine
  -- equal to them: every pending price alert is cached under its contract, and every cached record
  -- is a pending price alert as it stands in the table.
  pub Reach-Coherent :
      {v w : Service D}
      → Coherent v.system
      → v.system.db.alert_seq < 2 ^ 31
      → Reach F Answers v w
      → Coherent w.system × (w.system.db.alert_seq < 2 ^ 31)
  Reach-Coherent h small Reach.here = (h, small)
  Reach-Coherent h small (Reach.next W r st ans) =
      let before = Reach-Coherent h small r in (Step-Coherent F W st before.1 ans before.0, ans.1)
