-- ===== src/Examples/Services.antt =====
-- The theorems on the whole server, and on its threads, at concrete data.
use cloud_alert_system.AlertEngine.{
  set_ctp_handler, start_timer_thread, fill_cache, next_cache, swap_cache,
  refresh_price_alert_cache, fire_alert, meets, check_price_alert,
}
use cloud_alert_system.Common.{
  ℕ, ◌^◌, ◌<◌, ◌≡◌, ◌≢◌, refl, true, false, Option, none, some, [], ◌∷◌, Memᴰ, arith, select, any,
  count_if, All, pos, to_int, lookup, insert, Grows,
}
use cloud_alert_system.Db.Alerts.{update_alerts, modify_price_alert, trigger_alert}
use cloud_alert_system.Db.Queries.{
  distinct, scan_alerts, get_pending_price_alerts, get_pending_contracts,
}
use cloud_alert_system.Db.{AlertRecord}
use cloud_alert_system.MdHandler.{connect}
use cloud_alert_system.Protocol.{alert_type_price, status_pending}
use cloud_alert_system.System.{System}
use cloud_alert_system.Text.{codes, same_text, c_str, format_into}
use cloud_alert_system.Examples.{
  prices, notifier, system, world, sqlite, rb2610, waiting, fired, dropped, tables, tables-IsValid,
  world, notifier, system,
}
use cloud_alert_system.AlertEngine.Message.{triggered_line, subject_text, body_text}
use cloud_alert_system.Text.Number.{print_int}
use cloud_alert_system.Db.Valid.{IsValid}
use cloud_alert_system.Db.Lifecycle.{Keeps}
use cloud_alert_system.AlertEngine.Coherent.{Coherent}
use cloud_alert_system.AlertEngine.Race.{lost_alert, modified_fires_old}
use cloud_alert_system.MdHandler.Callbacks.{on_rtn_depth_market_data}
use cloud_alert_system.ClientSession.{open_session}
use cloud_alert_system.Service.{Launch, boot, Service, Step, Reach}
use cloud_alert_system.Service.Upkeep.{Answers, Reach-Coherent}
use cloud_alert_system.Service.History.{Reach-Keeps}
use cloud_alert_system.Service.Due.{boot-Coherent, booted-NoneDue}

abbrev launch : Launch
launch = record {
  opens = true;
  makes_timer = true;
  makes_server = true;
  stubs = false;
  makes_api = true;
  front = codes "tcp://180.168.146.187:10131";
}

abbrev result : Option (System ℕ) → System ℕ
result none = system
result (some s) = s

abbrev booted : System ℕ
booted = result (boot world launch tables notifier)

booted_runs : boot world launch tables notifier ≡ some booted
unfolding boot refresh_price_alert_cache next_cache swap_cache fill_cache get_pending_contracts
    distinct get_pending_price_alerts scan_alerts select any insert start_timer_thread
    set_ctp_handler connect to_int
booted_runs = refl

answered : Answers world tables
answered = ((refl, omega arith, λ c. (refl, omega arith)), omega arith)

abbrev service : Service ℕ
service = record { system = booted; sessions = [] }

abbrev joined : Service ℕ
joined = record { system = booted; sessions = open_session 5 ∷ [] }

join_run : Reach prices Answers service joined
join_run = Reach.next world Reach.here (Step.joins 5) (
    unfold boot refresh_price_alert_cache next_cache swap_cache start_timer_thread set_ctp_handler
      connect in
    answered)

abbrev fired_end : System ℕ
fired_end = result (on_rtn_depth_market_data prices world (some (rb2610, 310)) booted)

fires : on_rtn_depth_market_data prices world (some (rb2610, 310)) booted ≡ some fired_end
unfolding on_rtn_depth_market_data check_price_alert lookup same_text trigger_alert update_alerts
    count_if fire_alert format_into triggered_line print_int c_str subject_text body_text boot
    refresh_price_alert_cache next_cache swap_cache fill_cache get_pending_contracts distinct
    get_pending_price_alerts scan_alerts select any insert start_timer_thread set_ctp_handler
    connect to_int
fires = refl

booted-NoneDue_example :
    All
      (λ r.
        r.status ≡ status_pending
        → r.alert_type ≡ alert_type_price
        → r.contract ≡ c_str rb2610
        → meets prices world r 310 ≡ false)
      fired_end.db.alerts
booted-NoneDue_example =
    booted-NoneDue prices world launch tables notifier booted joined world rb2610 310 fired_end
      tables-IsValid answered booted_runs join_run (λ a. (refl, refl)) fires

Reach-Coherent_example : Coherent joined.system × (joined.system.db.alert_seq < 2 ^ 31)
Reach-Coherent_example =
    Reach-Coherent prices
      (boot-Coherent world launch tables notifier booted tables-IsValid answered booted_runs).0
      (unfold boot refresh_price_alert_cache next_cache swap_cache start_timer_thread
          set_ctp_handler connect in
        answered.1)
      join_run

Reach-Keeps_example :
    IsValid joined.system.db × Grows Keeps service.system.db.alerts joined.system.db.alerts
Reach-Keeps_example =
    Reach-Keeps prices {answers = Answers} {v = service} {w = joined}
      (unfold boot refresh_price_alert_cache next_cache swap_cache start_timer_thread
          set_ctp_handler connect in
        tables-IsValid)
      join_run

-- an alert that another session adds
abbrev late : AlertRecord ℕ
late = record waiting { id = pos 4 }

abbrev crowded : System ℕ
crowded = record system {
  db = record tables { alerts = waiting ∷ fired ∷ dropped ∷ late ∷ []; alert_seq = 4 };
}

abbrev lost_end : System ℕ
lost_end =
    result
      (check_price_alert prices world rb2610 310 (swap_cache (next_cache world tables) crowded))

loses :
    check_price_alert prices world rb2610 310 (swap_cache (next_cache world tables) crowded)
    ≡ some lost_end
unfolding check_price_alert lookup same_text trigger_alert update_alerts count_if fire_alert
    format_into triggered_line print_int c_str subject_text body_text next_cache swap_cache
    fill_cache get_pending_contracts distinct get_pending_price_alerts scan_alerts select any insert
    to_int
loses = refl

lost_alert_example : Memᴰ late lost_end.db.alerts
lost_alert_example =
    lost_alert prices world world tables rb2610 310 late crowded lost_end tables-IsValid
      (omega arith) (omega arith) (Memᴰ.tail (Memᴰ.tail (Memᴰ.tail (Memᴰ.head refl)))) loses

-- Alice's alert is modified to 4.00 while the cache still holds 3.00
abbrev raised : System ℕ
raised = record system {
  db = (modify_price_alert sqlite (pos 1) (pos 1) rb2610 400 (pos 0) tables).0;
}

abbrev raised_end : System ℕ
raised_end = result (check_price_alert prices world rb2610 310 raised)

fires_old : check_price_alert prices world rb2610 310 raised ≡ some raised_end
unfolding check_price_alert lookup same_text trigger_alert update_alerts count_if fire_alert
    modify_price_alert format_into triggered_line print_int c_str subject_text body_text
fires_old = refl

modified_fires_old_example :
    All (λ r. r.id ≡ pos 1 → r.status ≢ status_pending) raised_end.db.alerts
modified_fires_old_example =
    modified_fires_old prices world world (pos 1) (pos 1) (pos 0) rb2610 rb2610 310 400 waiting
      system raised_end (unfold lookup same_text in Memᴰ.head refl) refl (unfold meets in refl)
      (refl, refl) fires_old
