-- ===== src/ClientSession/Effects.antt =====
-- What the handlers of Server/ClientSession.cpp do to the tables.
use cloud_alert_system.Common.{◌≡◌, refl, sym, subst, inl, inr, Option, some, List, arith}
use cloud_alert_system.Text.{Bytes}
use cloud_alert_system.Double.{Float}
use cloud_alert_system.World.{World}
use cloud_alert_system.System.{System}
use cloud_alert_system.Text.Split.{split_line}
use cloud_alert_system.ClientSession.{
  Session, Turn, logged_in, handle_add_price, handle_add_time, handle_delete, handle_modify_price,
  handle_modify_time, handle_query, handle_set_email, handle_get_email, handle_get_prices, handle,
  dispatch,
}
use cloud_alert_system.ClientSession.Commands.{
  Command, register, login, add_price, add_time, delete, modify_price, modify_time, query,
  set_email, get_email, get_prices, unknown, first_word, command_of,
}
use cloud_alert_system.Db.Valid.{IsValid, perform-IsValid}
use cloud_alert_system.ClientSession.Handlers.{
  OneCall, Does, register-Does, login-Does, add_price-Does, add_time-Does, delete-Does,
  modify_price-Does, modify_time-Does, query-Does, set_email-Does, get_email-Does, get_prices-Does,
}

module _ {D : Type 0} (F : Float D) (W : World D) where
  logged_in-Does :
      (h : Session → System D → List Bytes → Option (Turn D)) (c : Session) (s : System D)
      (tokens : List Bytes)
      → Does F W c.user_id s.db (h c s tokens)
      → Does F W c.user_id s.db (logged_in F W h c s tokens)
  logged_in-Does h c s tokens d = ground arith

  handle-Does :
      (command : Command) (c : Session) (s : System D) (tokens : List Bytes)
      → Does F W c.user_id s.db (handle F W command c s tokens)
  unfolding handle
  handle-Does register c s tokens = register-Does F W c.user_id c s tokens
  handle-Does login c s tokens = login-Does F W c.user_id c s tokens
  handle-Does add_price c s tokens =
      logged_in-Does (handle_add_price F W) c s tokens (add_price-Does F W c s tokens)
  handle-Does add_time c s tokens =
      logged_in-Does (handle_add_time F W) c s tokens (add_time-Does F W c s tokens)
  handle-Does delete c s tokens =
      logged_in-Does (handle_delete F W) c s tokens (delete-Does F W c s tokens)
  handle-Does modify_price c s tokens =
      logged_in-Does (handle_modify_price F W) c s tokens (modify_price-Does F W c s tokens)
  handle-Does modify_time c s tokens =
      logged_in-Does (handle_modify_time F W) c s tokens (modify_time-Does F W c s tokens)
  handle-Does query c s tokens =
      logged_in-Does (handle_query F W) c s tokens (query-Does F W c.user_id c s tokens)
  handle-Does set_email c s tokens =
      logged_in-Does (handle_set_email F W) c s tokens (set_email-Does F W c s tokens)
  handle-Does get_email c s tokens =
      logged_in-Does (handle_get_email F W) c s tokens (get_email-Does F W c.user_id c s tokens)
  handle-Does get_prices c s tokens =
      logged_in-Does (handle_get_prices F W) c s tokens (get_prices-Does F W c.user_id c s tokens)
  handle-Does unknown c s tokens = inl refl

  -- A line that does not end the process leaves the tables as they were, or as one call of AlertDB
  -- leaves them that is made in the name of the user who is logged in on the session or is a
  -- registration; a trigger is never among them.
  pub dispatch-OneCall :
      (line : Bytes) (c : Session) (s : System D) (t : Turn D)
      → dispatch F W line c s ≡ some t
      → OneCall F W c.user_id s.db t.system.db
  unfolding dispatch
  dispatch-OneCall line c s t e =
      subst (Does F W c.user_id s.db) e
        (handle-Does (command_of (first_word line)) c s (split_line line))

  -- A line that a client sends and that does not end the process keeps the invariant of the
  -- tables.
  pub dispatch-IsValid :
      (line : Bytes) (c : Session) (s : System D) (t : Turn D)
      → dispatch F W line c s ≡ some t
      → IsValid s.db
      → IsValid t.system.db
  dispatch-IsValid line c s t e v = elim (dispatch-OneCall line c s t e) [
    | inl same ↦ subst IsValid (sym same) v
    | inr (call, _, done) ↦ subst IsValid (sym done) (perform-IsValid F W.sqlite W.now call s.db v)
  ]
