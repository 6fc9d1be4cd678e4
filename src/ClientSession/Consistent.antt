-- ===== src/ClientSession/Consistent.antt =====
-- A client's line against the tables and the cache (Dispatch of Server/ClientSession.cpp).
use cloud_alert_system.Common.{
  ◌^◌, ◌<◌, ◌≡◌, refl, subst, inl, inr, Option, some, List, arith, length,
}
use cloud_alert_system.Double.{Float}
use cloud_alert_system.System.{System}
use cloud_alert_system.Text.{Bytes}
use cloud_alert_system.World.{World}
use cloud_alert_system.Text.Split.{split_line}
use cloud_alert_system.ClientSession.{
  Session, Turn, logged_in, handle_add_price, handle_add_time, handle_delete, handle_modify_price,
  handle_modify_time, handle_query, handle_set_email, handle_get_email, handle_get_prices, handle,
  dispatch,
}
use cloud_alert_system.ClientSession.Commands.{
  Command, register, login, add_price, add_time, delete, modify_price, modify_time, query,
  set_email, get_email, get_prices, unknown, first_word, command_of,
}
use cloud_alert_system.AlertEngine.Cache.{Sees}
use cloud_alert_system.AlertEngine.Coherent.{Coherent}
use cloud_alert_system.ClientSession.Effects.{dispatch-IsValid}
use cloud_alert_system.ClientSession.Caching.{
  Stays-Coherent, AddsTime-Coherent, Settles, Settled, Fresh-Coherent,
}
use cloud_alert_system.ClientSession.Settling.{
  register-Settled, login-Settled, add_price-Settled, add_time-Settled,
}
use cloud_alert_system.ClientSession.Settled.{
  delete-Settled, modify_price-Settled, modify_time-Settled, query-Settled, set_email-Settled,
  get_email-Settled, get_prices-Settled,
}

module _ {D : Type 0} (F : Float D) (W : World D) where
  logged_in-Settled :
      (h : Session → System D → List Bytes → Option (Turn D)) (c : Session) (s : System D)
      (tokens : List Bytes)
      → Settled F W s (h c s tokens)
      → Settled F W s (logged_in F W h c s tokens)
  logged_in-Settled h c s tokens d = ground arith

  handle-Settled :
      (command : Command) (c : Session) (s : System D) (tokens : List Bytes)
      → Settled F W s (handle F W command c s tokens)
  unfolding handle
  handle-Settled register c s tokens = register-Settled F W c s tokens
  handle-Settled login c s tokens = login-Settled F W c s tokens
  handle-Settled add_price c s tokens =
      logged_in-Settled (handle_add_price F W) c s tokens (add_price-Settled F W c s tokens)
  handle-Settled add_time c s tokens =
      logged_in-Settled (handle_add_time F W) c s tokens (add_time-Settled F W c s tokens)
  handle-Settled delete c s tokens =
      logged_in-Settled (handle_delete F W) c s tokens (delete-Settled F W c s tokens)
  handle-Settled modify_price c s tokens =
      logged_in-Settled (handle_modify_price F W) c s tokens (modify_price-Settled F W c s tokens)
  handle-Settled modify_time c s tokens =
      logged_in-Settled (handle_modify_time F W) c s tokens (modify_time-Settled F W c s tokens)
  handle-Settled query c s tokens =
      logged_in-Settled (handle_query F W) c s tokens (query-Settled F W c s tokens)
  handle-Settled set_email c s tokens =
      logged_in-Settled (handle_set_email F W) c s tokens (set_email-Settled F W c s tokens)
  handle-Settled get_email c s tokens =
      logged_in-Settled (handle_get_email F W) c s tokens (get_email-Settled F W c s tokens)
  handle-Settled get_prices c s tokens =
      logged_in-Settled (handle_get_prices F W) c s tokens (get_prices-Settled F W c s tokens)
  handle-Settled unknown c s tokens = λ _. inl (refl, refl)

  -- A line that does not end the process keeps the cache equal to the tables, where SQLite answers
  -- the queries of a refresh and rowids stay below 2^31.
  pub dispatch-Coherent :
      (line : Bytes) (c : Session) (s : System D) (t : Turn D)
      → Coherent s
      → Sees W (length t.system.db.alerts)
      → t.system.db.alert_seq < 2 ^ 31
      → dispatch F W line c s ≡ some t
      → Coherent t.system
  unfolding dispatch
  dispatch-Coherent line c s t h sees small e =
      let v = dispatch-IsValid F W line c s t (unfold dispatch in e) h.valid in
      let settled : Settles F W s t.system =
        subst (Settled F W s) e
          (handle-Settled (command_of (first_word line)) c s (split_line line)) small in
      elim settled [
        | inl same ↦ Stays-Coherent s t.system same v h
        | inr (inl fresh) ↦ Fresh-Coherent F W t.system fresh v small sees
        | inr (inr added) ↦ AddsTime-Coherent s t.system added v h
      ]
