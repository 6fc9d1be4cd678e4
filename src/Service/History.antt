-- ===== src/Service/History.antt =====
-- Any run of the server as calls of AlertDB (Server/main.cpp).
use cloud_alert_system.Common.{
  ◌≡◌, refl, sym, ap, subst, ◌∙◌, inl, inr, Bool, Option, none, some, List, [], ◌∷◌, ◌++◌, arith, ℤ,
  Grows,
}
use cloud_alert_system.Db.Alerts.{trigger_alert}
use cloud_alert_system.Db.Queries.{get_pending_time_alerts}
use cloud_alert_system.Db.{AlertRecord, Db, Sqlite}
use cloud_alert_system.Double.{Float}
use cloud_alert_system.System.{System}
use cloud_alert_system.Text.{Bytes, c_str}
use cloud_alert_system.World.{World}
use cloud_alert_system.AlertEngine.{
  chain-some, timer_round, check_price_alert, check_time_alerts, check_records, check_record,
  at_hand, store_last_price, check_time_record, check_time_records,
}
use cloud_alert_system.ClientSession.{Session, Turn, close_session, dispatch}
use cloud_alert_system.MdHandler.Callbacks.{on_rsp_user_login, on_rtn_depth_market_data}
use cloud_alert_system.Db.Valid.{IsValid, replay-IsValid}
use cloud_alert_system.Db.History.{Call, perform, replay}
use cloud_alert_system.Db.History
use cloud_alert_system.AlertEngine.Ticks.{check_record-db, stored-db}
use cloud_alert_system.ClientSession.Effects.{dispatch-OneCall}
use cloud_alert_system.Service.{Service, Step, Reach}
use cloud_alert_system.Db.Lifecycle.{Keeps, replay-Keeps}
use cloud_alert_system.Service.Upkeep.{
  timer_round-cases, close_session-same, on_rsp_user_login-same,
}
use cloud_alert_system.AlertEngine.{fire_alert, price_or_zero, get_last_price}
use cloud_alert_system.AlertEngine.Upkeep.{fire_alert-same, after_trigger-cases}

-- calls of AlertDB's methods, each with the SQLite and the clock that it meets
abbrev pub Calls : Type 0 → Type 0
Calls D = List (Sqlite D × Bytes × Call D)

module _ {D : Type 0} (F : Float D) where
  pub replay-append :
      (db : Db D) (xs ys : Calls D) → replay F db (xs ++ ys) ≡ replay F (replay F db xs) ys
  unfolding replay
  replay-append db [] ys = refl
  replay-append db ((S, now, call) ∷ xs) ys = replay-append (perform F S now call db) xs ys

  -- the tables are what some calls of AlertDB's methods make of them
  abbrev pub Replayed : Db D → Db D → Type 0
  Replayed db db' = (calls : Calls D) × (db' ≡ replay F db calls)

  Replayed-same : (db db' : Db D) → db' ≡ db → Replayed db db'
  Replayed-same db db' e = ([], unfold replay in e)

  Replayed-one :
      (S : Sqlite D) (now : Bytes) (call : Call D) (db db' : Db D)
      → db' ≡ perform F S now call db
      → Replayed db db'
  Replayed-one S now call db db' e = ((S, now, call) ∷ [], unfold replay in e)

  Replayed-trans : (a b c : Db D) → Replayed a b → Replayed b c → Replayed a c
  Replayed-trans a b c (xs, e) (ys, f) =
      (xs ++ ys, f ∙ ap (λ d. replay F d ys) e ∙ sym (replay-append a xs ys))

module _ {D : Type 0} (F : Float D) (W : World D) where
  trigger-Replayed :
      (a : ℤ) (db db' : Db D) → db' ≡ (trigger_alert W.sqlite a W.now db).0 → Replayed F db db'
  trigger-Replayed a db db' e =
      Replayed-one F W.sqlite W.now (History.trigger a W.now) db db' (unfold perform in e)

  check_records-Replayed :
      (p : D) (records : List (AlertRecord D)) (s t : System D)
      → check_records F W p records s ≡ some t
      → Replayed F s.db t.db
  unfolding check_records
  check_records-Replayed p [] s t e = Replayed-same F s.db t.db (ground (arith, e))
  check_records-Replayed p (rec ∷ records) s t e =
      let (u, e1, e2) = chain-some (check_record F W p rec s) (check_records F W p records) t e in
      let one : Replayed F s.db u.db = elim (check_record-db F W p rec s u e1) [
        | inl (_, same) ↦ Replayed-same F s.db u.db same
        | inr (_, done) ↦ trigger-Replayed rec.id s.db u.db done
      ] in
      Replayed-trans F s.db u.db t.db one (check_records-Replayed p records u t e2)

  tick-Replayed :
      (tick : Option (Bytes × D)) (s t : System D)
      → on_rtn_depth_market_data F W tick s ≡ some t
      → Replayed F s.db t.db
  unfolding on_rtn_depth_market_data check_price_alert
  tick-Replayed none s t e = Replayed-same F s.db t.db (ground (arith, e))
  tick-Replayed (some (contract, p)) s t e =
      let u = store_last_price F W (c_str contract) p s in
      let kept : u.db ≡ s.db = stored-db F W (c_str contract) p s in
      subst (λ (d : Db D). Replayed F d t.db) kept
        (check_records-Replayed p (at_hand (c_str contract) u) u t e)

  check_time_record-Replayed :
      (rec : AlertRecord D) (s t : System D)
      → check_time_record F W rec s ≡ some t
      → Replayed F s.db t.db
  unfolding check_time_record
  check_time_record-Replayed rec s t e =
      let r = trigger_alert W.sqlite rec.id W.now s.db in
      let fire : System D → Option (System D) =
        λ u. fire_alert F W rec (price_or_zero F W (get_last_price rec.contract u)) W.now u in
      elim (after_trigger-cases F W s r fire t e) [
        | inl (_, e2) ↦ trigger-Replayed rec.id s.db t.db (ground (arith, e2))
        | inr (_, e2) ↦
            let u : System D = record s { db = r.0 } in
            trigger-Replayed rec.id s.db t.db
              (fire_alert-same F W rec (price_or_zero F W (get_last_price rec.contract u)) u t e2).0
      ]

  check_time_records-Replayed :
      (records : List (AlertRecord D)) (s t : System D)
      → check_time_records F W records s ≡ some t
      → Replayed F s.db t.db
  unfolding check_time_records
  check_time_records-Replayed [] s t e = Replayed-same F s.db t.db (ground (arith, e))
  check_time_records-Replayed (rec ∷ records) s t e =
      let (u, e1, e2) =
        chain-some (check_time_record F W rec s) (check_time_records F W records) t e in
      Replayed-trans F s.db u.db t.db (check_time_record-Replayed rec s u e1)
        (check_time_records-Replayed records u t e2)

  timer_round-Replayed :
      (s t : System D) (goes_on : Bool)
      → timer_round F W s ≡ some (t, goes_on)
      → Replayed F s.db t.db
  timer_round-Replayed s t goes_on e = elim (timer_round-cases F W s t goes_on e) [
    | inl checked ↦
        check_time_records-Replayed (get_pending_time_alerts W.sqlite W.hms s.db) s t
          (unfold check_time_alerts in checked)
    | inr same ↦ Replayed-same F s.db t.db (ap (λ (x : System D). x.db) (sym same))
  ]

  dispatch-Replayed :
      (line : Bytes) (c : Session) (s : System D) (t : Turn D)
      → dispatch F W line c s ≡ some t
      → Replayed F s.db t.system.db
  dispatch-Replayed line c s t e = elim (dispatch-OneCall F W line c s t e) [
    | inl same ↦ Replayed-same F s.db t.system.db same
    | inr (call, _, done) ↦ Replayed-one F W.sqlite W.now call s.db t.system.db done
  ]

  Step-Replayed : {v w : Service D} → Step F W v w → Replayed F v.system.db w.system.db
  Step-Replayed {v} (Step.joins sock) = Replayed-same F v.system.db v.system.db refl
  Step-Replayed {v} (Step.says before after c line t at e) = dispatch-Replayed line c v.system t e
  Step-Replayed {v} (Step.leaves before after c at) =
      Replayed-same F v.system.db (close_session c v.system).db (close_session-same c v.system).0
  Step-Replayed {v} Step.connected = Replayed-same F v.system.db v.system.db refl
  Step-Replayed {v} (Step.answered error_id) =
      Replayed-same F v.system.db (on_rsp_user_login W error_id v.system).db
        (on_rsp_user_login-same W error_id v.system).0
  Step-Replayed {v} (Step.ticks tick t e) = tick-Replayed tick v.system t e
  Step-Replayed {v} (Step.seconds goes_on t e) = timer_round-Replayed v.system t goes_on e
  Step-Replayed {v} Step.delivers = Replayed-same F v.system.db v.system.db refl

module _ {D : Type 0} (F : Float D) where
  -- Whatever SQLite answers, any steps of the threads of the server leave the tables that some
  -- sequence of calls of AlertDB's methods leaves.
  Reach-Replayed :
      {answers : World D → Db D → Type 0} {v w : Service D}
      → Reach F answers v w
      → (calls : Calls D) × (w.system.db ≡ replay F v.system.db calls)
  Reach-Replayed {answers} {v} Reach.here = Replayed-same F v.system.db v.system.db refl
  Reach-Replayed {answers} {v} {w} (Reach.next {w = u} W r st ans) =
      Replayed-trans F v.system.db u.system.db w.system.db (Reach-Replayed r) (Step-Replayed F W st)

  -- Whatever SQLite answers, any steps of the threads of the server from tables that keep their
  -- invariant keep it, lose no alert, give no alert another id, owner or time of creation, and
  -- leave a deleted alert as it is.
  pub Reach-Keeps :
      {answers : World D → Db D → Type 0} {v w : Service D}
      → IsValid v.system.db
      → Reach F answers v w
      → IsValid w.system.db × Grows Keeps v.system.db.alerts w.system.db.alerts
  Reach-Keeps {answers} {v} {w} valid r =
      let (calls, e) = Reach-Replayed r in
      (rw e (replay-IsValid F v.system.db calls valid), rw e (replay-Keeps F v.system.db calls))
