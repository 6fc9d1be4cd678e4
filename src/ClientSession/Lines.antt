-- ===== src/ClientSession/Lines.antt =====
-- The lines that the server sends back (Server/Protocol.h and the handlers of Server/ClientSession.cpp).
use cloud_alert_system.Common.{ℕ, Option, none, some, [], ◌∷◌, ◌++◌, ℤ}
use cloud_alert_system.Text.{Bytes, codes, c_str, format_into}
use cloud_alert_system.Double.{Float}
use cloud_alert_system.Text.Number.{print_int}
use cloud_alert_system.Text.Split.{join}
use cloud_alert_system.Db.{AlertRecord}
use cloud_alert_system.AlertEngine.Message.{or_dash}

-- the texts behind ERR
pub data Error : Type 0 where
  unknown_command not_logged_in : Error
  register_usage register_empty name_taken : Error
  login_usage wrong_login : Error
  add_price_usage bad_condition add_price_failed : Error
  add_time_usage add_time_failed : Error
  delete_usage delete_failed : Error
  modify_price_usage modify_time_usage modify_failed : Error
  query_usage : Error
  set_email_usage set_email_failed : Error
  get_email_usage wrong_username : Error
  get_prices_usage : Error

unfoldable pub error_text : Error → Bytes
error_text unknown_command = codes "ERR Unknown command"
error_text not_logged_in = codes "ERR Not logged in"
error_text register_usage = codes "ERR REGISTER requires username password email"
error_text register_empty = codes "ERR username, password and email cannot be empty"
error_text name_taken = codes "ERR username already taken"
error_text login_usage = codes "ERR LOGIN requires username and password"
error_text wrong_login = codes "ERR wrong username or password"
error_text add_price_usage = codes "ERR ADD_PRICE requires username contract price condition"
error_text bad_condition = codes "ERR condition must be 0 (>=) or 1 (<=)"
error_text add_price_failed = codes "ERR DB error adding price alert"
error_text add_time_usage = codes "ERR ADD_TIME requires username contract HH:MM:SS"
error_text add_time_failed = codes "ERR DB error adding time alert"
error_text delete_usage = codes "ERR DELETE requires alert_id"
error_text delete_failed = codes "ERR Delete failed (not found or already deleted)"
error_text modify_price_usage = codes "ERR MODIFY_PRICE requires alert_id contract price condition"
error_text modify_time_usage = codes "ERR MODIFY_TIME requires alert_id contract HH:MM:SS"
error_text modify_failed = codes "ERR Modify failed"
error_text query_usage = codes "ERR QUERY requires username status"
error_text set_email_usage = codes "ERR SET_EMAIL requires username password email"
error_text set_email_failed = codes "ERR Failed to set email"
error_text get_email_usage = codes "ERR GET_EMAIL requires username"
error_text wrong_username = codes "ERR wrong username"
error_text get_prices_usage = codes "ERR GET_PRICES requires at least one contract"

pub data Response (D : Type 0) : Type 0 where
  ok : Response D
  -- OK <alert id>
  ok_id : ℤ → Response D
  -- OK <email>
  ok_email : Bytes → Response D
  err : Error → Response D
  alert : AlertRecord D → Response D
  -- PRICE <contract> <last price, or ->
  price : Bytes → Option D → Response D
  end_of_list : Response D

module _ {D : Type 0} (F : Float D) where
  -- "ALERT %d %d %s %.2f %d %s %d %s"
  unfoldable pub alert_line : AlertRecord D → Bytes
  unfolding join
  alert_line r = join (
      codes "ALERT"
      ∷ print_int r.id
      ∷ print_int r.alert_type
      ∷ c_str r.contract
      ∷ F.print_2 r.trigger_price
      ∷ print_int r.condition
      ∷ or_dash r.trigger_time
      ∷ print_int r.status
      ∷ c_str r.created_at
      ∷ [])

  abbrev pub price_or_dash : Option D → Bytes
  price_or_dash none = codes "-"
  price_or_dash (some p) = F.print_2 p

  -- "PRICE %s %.2f", "PRICE %s -"
  unfoldable pub price_line : Bytes → Option D → Bytes
  unfolding join
  price_line contract p = join (codes "PRICE" ∷ c_str contract ∷ price_or_dash p ∷ [])

  -- The line, without the line feed that SendLine adds.
  unfoldable pub response_text : Response D → Bytes
  unfolding error_text alert_line price_line
  response_text ok = codes "OK"
  response_text (ok_id id) = codes "OK " ++ print_int id
  response_text (ok_email email) = codes "OK " ++ email
  response_text (err e) = error_text e
  response_text (alert r) = alert_line r
  response_text (price contract p) = price_line contract p
  response_text end_of_list = codes "END"

  -- A line that is formatted in a buffer of this size; `none` where it does not fit.
  unfoldable pub formatted : ℕ → Response D → Option (Response D)
  unfolding format_into
  formatted size r = elim (format_into size (response_text r)) [ none ↦ none | some _ ↦ some r ]
