-- ===== src/Service/Due.antt =====
-- A tick in any run of the server that main has started (Server/main.cpp).
use cloud_alert_system.Common.{◌^◌, ◌<◌, ◌≡◌, refl, ◌∙◌, false, some, [], arith, All, ℤ}
use cloud_alert_system.Db.{Db, Statement}
use cloud_alert_system.Double.{Float}
use cloud_alert_system.Protocol.{alert_type_price, status_pending}
use cloud_alert_system.System.{System}
use cloud_alert_system.Text.{Bytes, c_str}
use cloud_alert_system.World.{World}
use cloud_alert_system.AlertEngine.{
  refresh_price_alert_cache, swap_cache, start_timer_thread, set_ctp_handler, meets,
}
use cloud_alert_system.MdHandler.{connect}
use cloud_alert_system.MdHandler.Callbacks.{on_rtn_depth_market_data}
use cloud_alert_system.Notifier.{Notifier}
use cloud_alert_system.Db.Valid.{IsValid}
use cloud_alert_system.Db.Outcome.{Runs}
use cloud_alert_system.AlertEngine.Coherent.{Same-Coherent, Coherent, refresh-Coherent}
use cloud_alert_system.AlertEngine.Due.{tick-NoneDue}
use cloud_alert_system.Service.{Launch, new_engine, new_md, boot, Service, Reach}
use cloud_alert_system.Service.Upkeep.{Answers, Reach-Coherent}

module _ {D : Type 0} where
  pub boot-Coherent :
      (W : World D) (l : Launch) (db : Db D) (notifier : Notifier) (s : System D)
      → IsValid db
      → Answers W db
      → boot W l db notifier ≡ some s
      → Coherent s × (s.db ≡ db)
  unfolding boot
  boot-Coherent W l db notifier s v ans e =
      let start : System D = record {
        db = db;
        engine = new_engine;
        notifier = notifier;
        md = new_md;
      } in
      let h : Coherent (refresh_price_alert_cache W start) =
        refresh-Coherent W start v ans.1 ans.0 in
      let booted = refresh_price_alert_cache W start in
      let same : (s.db ≡ booted.db)
          × (s.engine.price_alert_cache ≡ booted.engine.price_alert_cache) =
        unfold start_timer_thread set_ctp_handler connect in
        (ground (arith, e), ground (arith, e)) in
      let kept : booted.db ≡ db = unfold refresh_price_alert_cache swap_cache in refl in
      (Same-Coherent booted s same h, same.0 ∙ kept)

module _ {D : Type 0} (F : Float D) where
  -- Once main has started the server on tables that keep their invariant, and after any steps of
  -- its threads, each one whole and with a SQLite that answers the queries of a refresh, with
  -- every rowid below 2^31: a tick of a contract that does not end the process leaves no pending
  -- price alert of that contract whose condition the price meets, when SQLite runs every UPDATE of
  -- TriggerAlert.
  pub booted-NoneDue :
      (W0 : World D) (l : Launch) (db : Db D) (notifier : Notifier) (s : System D) (w : Service D)
      (W : World D) (contract : Bytes) (p : D) (t : System D)
      → IsValid db
      → Answers W0 db
      → boot W0 l db notifier ≡ some s
      → Reach F Answers (record { system = s; sessions = [] }) w
      → ((a : ℤ) → Runs W.sqlite (Statement.trigger a))
      → on_rtn_depth_market_data F W (some (contract, p)) w.system ≡ some t
      → All
          (λ r.
            r.status ≡ status_pending
            → r.alert_type ≡ alert_type_price
            → r.contract ≡ c_str contract
            → meets F W r p ≡ false)
          t.db.alerts
  unfolding on_rtn_depth_market_data
  booted-NoneDue W0 l db notifier s w W contract p t v ans e r runs tick =
      let start = boot-Coherent W0 l db notifier s v ans e in
      let small : s.db.alert_seq < 2 ^ 31 = rw start.1 ans.1 in
      let h = Reach-Coherent F start.0 small r in
      tick-NoneDue F W (c_str contract) p w.system t h.0 runs tick
