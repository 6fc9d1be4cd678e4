-- ===== src/ClientSession.antt =====
-- Server/ClientSession.h and Server/ClientSession.cpp: the command handlers of a client's session. Each
-- returns the lines that it sends; `none` means that the C runtime ended the process, because a
-- formatted line did not fit its buffer. What `send` returns is not looked at.
pub mod Lines
pub mod Receive
pub mod Commands
pub mod Handlers
pub mod Effects
pub mod Guard
pub mod Wire
pub mod Identity
pub mod Answers
pub mod Replies
pub mod Listings
pub mod Crash
pub mod Caching
pub mod Settling
pub mod Settled
pub mod Consistent
use cloud_alert_system.Common.{
  zero, suc, ◌+◌, Bool, true, false, ◌||◌, not, Option, none, some, List, [], ◌∷◌, ◌++◌, arith,
  ◌==◌, if◌then◌else◌, ℤ, eq_ℤ, is_negative,
}
use cloud_alert_system.Text.{Bytes, codes, same_text, is_empty, c_str}
use cloud_alert_system.Double.{Float}
use cloud_alert_system.Protocol.{cond_ge, cond_le}
use cloud_alert_system.Db.{AlertRecord, Db}
use cloud_alert_system.Db.Users.{minus_one, register_user, verify_login, update_email, email_of}
use cloud_alert_system.Db.Alerts.{
  add_price_alert, add_time_alert, delete_alert, modify_price_alert, modify_time_alert,
}
use cloud_alert_system.Db.Queries.{query_alerts}
use cloud_alert_system.World.{World}
use cloud_alert_system.Notifier.{Socket, register_socket, unregister_socket}
use cloud_alert_system.System.{System}
use cloud_alert_system.AlertEngine.{
  ◌>>=◌, get_last_price, subscribe_contract, refresh_price_alert_cache,
}
use cloud_alert_system.Text.Split.{split_line}
use cloud_alert_system.Text.Number.{atoi}
use Commands.{
  Command, register, login, add_price, add_time, delete, modify_price, modify_time, query,
  set_email, get_email, get_prices, unknown, first_word, command_of,
}
use Lines.{
  Response, ok, ok_id, ok_email, err, alert, price, end_of_list, formatted, Error, unknown_command,
  not_logged_in, register_usage, register_empty, name_taken, login_usage, wrong_login,
  add_price_usage, bad_condition, add_price_failed, add_time_usage, add_time_failed, delete_usage,
  delete_failed, modify_price_usage, modify_time_usage, modify_failed, query_usage, set_email_usage,
  set_email_failed, get_email_usage, wrong_username, get_prices_usage,
}

pub record Session : Type 0 where
  pub sock : Socket
  -- -1 until LOGIN succeeds
  pub user_id : ℤ
  pub username : Bytes

-- What a handler leaves behind.
pub record Turn (D : Type 0) : Type 0 where
  pub session : Session
  pub system : System D
  pub lines : List (Response D)

-- ClientSession(sock, ...)
unfoldable pub open_session : Socket → Session
open_session sock = record { sock = sock; user_id = minus_one; username = [] }

-- ~ClientSession
unfoldable pub close_session : {D : Type 0} → Session → System D → System D
close_session c s =
    if eq_ℤ c.user_id minus_one
    then s
    else record s { notifier = unregister_socket c.user_id c.sock s.notifier }

module _ {D : Type 0} (F : Float D) (W : World D) where
  -- one line, and nothing changed
  abbrev pub reply : Session → System D → Response D → Option (Turn D)
  reply c s r = some (record { session = c; system = s; lines = r ∷ [] })

  abbrev pub refuse : Session → System D → Error → Option (Turn D)
  refuse c s e = reply c s (err e)

  abbrev registered : Session → System D → Db D × ℤ → Option (Turn D)
  registered c s (db, uid) =
      if is_negative uid
      then refuse c (record s { db = db }) name_taken
      else reply c (record s { db = db }) ok

  unfoldable pub handle_register : Session → System D → List Bytes → Option (Turn D)
  handle_register c s (_ ∷ username ∷ password ∷ email ∷ _) =
      if is_empty username || (is_empty password || is_empty email)
      then refuse c s register_empty
      else registered c s (register_user W.sqlite username password email s.db)
  handle_register c s _ = refuse c s register_usage

  unfoldable pub handle_login : Session → System D → List Bytes → Option (Turn D)
  handle_login c s (_ ∷ username ∷ password ∷ _) =
      let uid = verify_login W.sqlite username password s.db in
      if is_negative uid
      then refuse c s wrong_login
      else reply (record c { user_id = uid; username = username })
          (record s { notifier = register_socket uid c.sock s.notifier }) ok
  handle_login c s _ = refuse c s login_usage

  -- `if (m_userId < 0) { SendLine("ERR Not logged in"); return; }`
  abbrev pub logged_in :
      (Session → System D → List Bytes → Option (Turn D))
      → Session
      → System D
      → List Bytes
      → Option (Turn D)
  logged_in handle c s tokens =
      if is_negative c.user_id then refuse c s not_logged_in else handle c s tokens

  abbrev is_condition : ℤ → Bool
  is_condition cond = eq_ℤ cond cond_ge || eq_ℤ cond cond_le

  abbrev added_price : Session → System D → Bytes → Db D × ℤ → Option (Turn D)
  added_price c s contract (db, alert_id) =
      let t = record s { db = db } in
      if is_negative alert_id then refuse c t add_price_failed else (do
        line ← formatted F 64 (ok_id alert_id)
        reply c (subscribe_contract contract (refresh_price_alert_cache W t)) line)

  unfoldable pub handle_add_price : Session → System D → List Bytes → Option (Turn D)
  handle_add_price c s (_ ∷ _ ∷ contract ∷ price_text ∷ cond_text ∷ _) =
      let cond = atoi (c_str cond_text) in
      if is_condition cond
      then added_price c s contract
          (add_price_alert W.sqlite W.now c.user_id contract (F.atof (c_str price_text)) cond s.db)
      else refuse c s bad_condition
  handle_add_price c s _ = refuse c s add_price_usage

  abbrev added_time : Session → System D → Bytes → Db D × ℤ → Option (Turn D)
  added_time c s contract (db, alert_id) =
      let t = record s { db = db } in
      if is_negative alert_id
      then refuse c t add_time_failed
      else (do line ← formatted F 64 (ok_id alert_id); reply c (subscribe_contract contract t) line)

  unfoldable pub handle_add_time : Session → System D → List Bytes → Option (Turn D)
  handle_add_time c s (_ ∷ _ ∷ contract ∷ time ∷ _) =
      added_time c s contract (add_time_alert W.sqlite F W.now c.user_id contract time s.db)
  handle_add_time c s _ = refuse c s add_time_usage

  abbrev deleted : Session → System D → Db D × Bool → Option (Turn D)
  deleted c s (db, true) = reply c (refresh_price_alert_cache W (record s { db = db })) ok
  deleted c s (db, false) = refuse c (record s { db = db }) delete_failed

  unfoldable pub handle_delete : Session → System D → List Bytes → Option (Turn D)
  handle_delete c s (_ ∷ id_text ∷ _) =
      deleted c s (delete_alert W.sqlite (atoi (c_str id_text)) c.user_id s.db)
  handle_delete c s _ = refuse c s delete_usage

  abbrev modified_price : Session → System D → Bytes → Db D × Bool → Option (Turn D)
  modified_price c s contract (db, true) =
      reply c (subscribe_contract contract (refresh_price_alert_cache W (record s { db = db }))) ok
  modified_price c s contract (db, false) = refuse c (record s { db = db }) modify_failed

  unfoldable pub handle_modify_price : Session → System D → List Bytes → Option (Turn D)
  handle_modify_price c s (_ ∷ id_text ∷ contract ∷ price_text ∷ cond_text ∷ _) =
      let cond = atoi (c_str cond_text) in
      if is_condition cond
      then modified_price c s contract (
          modify_price_alert W.sqlite (atoi (c_str id_text)) c.user_id contract
            (F.atof (c_str price_text)) cond s.db)
      else refuse c s bad_condition
  handle_modify_price c s _ = refuse c s modify_price_usage

  abbrev modified_time : Session → System D → Db D × Bool → Option (Turn D)
  modified_time c s (db, true) = reply c (refresh_price_alert_cache W (record s { db = db })) ok
  modified_time c s (db, false) = refuse c (record s { db = db }) modify_failed

  unfoldable pub handle_modify_time : Session → System D → List Bytes → Option (Turn D)
  handle_modify_time c s (_ ∷ id_text ∷ contract ∷ time ∷ _) =
      modified_time c s
        (modify_time_alert W.sqlite (atoi (c_str id_text)) c.user_id contract time s.db)
  handle_modify_time c s _ = refuse c s modify_time_usage

  -- the ALERT lines of the loop, and END
  unfoldable pub alert_lines : List (AlertRecord D) → Option (List (Response D))
  alert_lines [] = some (end_of_list ∷ [])
  alert_lines (r ∷ records) = do
    line ← formatted F 512 (alert r)
    rest ← alert_lines records
    some (line ∷ rest)

  unfoldable pub handle_query : Session → System D → List Bytes → Option (Turn D)
  unfolding alert_lines
  handle_query c s (_ ∷ _ ∷ status ∷ _) = do
    lines ← alert_lines (query_alerts W.sqlite c.user_id (atoi (c_str status)) s.db)
    some (record { session = c; system = s; lines = lines })
  handle_query c s _ = refuse c s query_usage

  abbrev email_set : Session → System D → Db D × Bool → Option (Turn D)
  email_set c s (db, true) = reply c (record s { db = db }) ok
  email_set c s (db, false) = refuse c (record s { db = db }) set_email_failed

  unfoldable pub handle_set_email : Session → System D → List Bytes → Option (Turn D)
  handle_set_email c s (_ ∷ username ∷ password ∷ email ∷ _) =
      if not (same_text username c.username)
        || not (eq_ℤ (verify_login W.sqlite username password s.db) c.user_id)
      then refuse c s wrong_login
      else email_set c s (update_email W.sqlite c.user_id email s.db)
  handle_set_email c s _ = refuse c s set_email_usage

  unfoldable pub handle_get_email : Session → System D → List Bytes → Option (Turn D)
  handle_get_email c s (_ ∷ username ∷ _) =
      if same_text username c.username
      then reply c s (ok_email (email_of W.sqlite c.user_id s.db))
      else refuse c s wrong_username
  handle_get_email c s _ = refuse c s get_email_usage

  -- the PRICE lines of the loop, and END; each contract is subscribed on the way
  unfoldable pub price_lines : List Bytes → System D → Option (System D × List (Response D))
  price_lines [] s = some (s, end_of_list ∷ [])
  price_lines (contract ∷ contracts) s =
      let rest = price_lines contracts s in
      let t = subscribe_contract contract s in
      let others = price_lines contracts t in
      if is_empty contract then rest else (do
        line ← formatted F 256 (price contract (get_last_price contract t))
        (u, lines) ← others
        some (u, line ∷ lines))

  unfoldable pub handle_get_prices : Session → System D → List Bytes → Option (Turn D)
  unfolding price_lines
  handle_get_prices c s (_ ∷ contract ∷ contracts) = do
    (t, lines) ← price_lines (contract ∷ contracts) s
    some (record { session = c; system = t; lines = lines })
  handle_get_prices c s _ = refuse c s get_prices_usage

module _ {D : Type 0} (F : Float D) (W : World D) where
  unfoldable pub handle : Command → Session → System D → List Bytes → Option (Turn D)
  handle register = handle_register F W
  handle login = handle_login F W
  handle add_price = logged_in F W (handle_add_price F W)
  handle add_time = logged_in F W (handle_add_time F W)
  handle delete = logged_in F W (handle_delete F W)
  handle modify_price = logged_in F W (handle_modify_price F W)
  handle modify_time = logged_in F W (handle_modify_time F W)
  handle query = logged_in F W (handle_query F W)
  handle set_email = logged_in F W (handle_set_email F W)
  handle get_email = logged_in F W (handle_get_email F W)
  handle get_prices = logged_in F W (handle_get_prices F W)
  handle unknown = λ c s tokens. refuse F W c s unknown_command

  unfoldable pub dispatch : Bytes → Session → System D → Option (Turn D)
  unfolding handle command_of first_word
  dispatch line c s = handle (command_of (first_word line)) c s (split_line line)

module _ {D : Type 0} (F : Float D) where
  -- The loop of Run, over the lines that RecvLine gives, each met by a world of its own: an empty line
  -- is passed over.
  unfoldable pub run : List (World D × Bytes) → Session → System D → Option (Turn D)
  unfolding dispatch
  run [] c s = some (record { session = c; system = s; lines = [] })
  run ((W, []) ∷ rest) c s = run rest c s
  run ((W, b ∷ line) ∷ rest) c s = do
    t ← dispatch F W (b ∷ line) c s
    u ← run rest t.session t.system
    some (record u { lines = t.lines ++ u.lines })
