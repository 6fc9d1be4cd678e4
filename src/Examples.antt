-- ===== src/Examples.antt =====
-- Concrete data: two users, three alerts, a SQLite that answers everything and one that fails, and a
-- type of prices.
pub mod Tables
pub mod Sessions
pub mod Ticks
pub mod Servers
pub mod Services
pub mod Clients
use cloud_alert_system.AlertEngine.{
  ◌>>=◌, chain-some, remove_cached, remove_cached_price_alert, get_last_price, set_ctp_handler,
  subscribe_contract, start_timer_thread, stop_timer_thread, fill_cache, refresh_price_alert_cache,
  alert_task, fire_alert, meets, after_trigger, check_record, check_records, store_last_price,
  cached, check_price_alert, price_or_zero, check_time_record, check_time_records,
  check_time_alerts, timer_round,
}
use cloud_alert_system.Common.{
  ℕ, zero, suc, ◌+◌, ◌-◌, ◌^◌, ◌≤◌, ◌<◌, ◌≡◌, ◌≢◌, ◌↔◌, refl, sym, ap, ap₂, subst, ◌∙◌, ◌⊎◌, inl,
  inr, Bool, true, false, ◌&&◌, ◌||◌, not, Option, none, some, List, [], ◌∷◌, ◌++◌, map, Memᴰ,
  Permᴰ, arith, ltb, leb, ◌==◌, ==_iff, ltb→lt, leb→le, Bool-cases, Option-cases, if◌then◌else◌,
  length, length-append, take, take_all, select, any, count_if, first, All, All-append, All-take,
  All-map_self, All-imp, All-select, All-select_test, All-perm, member-perm, All-member, ℤ, pos,
  negsuc, eq_ℤ, eq_ℤ_iff, is_negative, to_int, IsInt, to_int_id, to_int-IsInt, Key, lookup, insert,
  erase, lookup-insert, lookup-erase, number, Rising, Rising-snoc, Rising-map, Rising-member,
  Rising-inj, Grows, Grows-refl, Grows-append, Grows-map, Grows-trans, Grows-imp,
}
use cloud_alert_system.Db.Alerts.{
  owned, untriggered, change_where, set_deleted, set_price_rule, set_time_rule, set_triggered,
  price_row, time_row, update_alerts, insert_alert, add_price_alert, add_time_alert, delete_alert,
  modify_price_alert, modify_time_alert, trigger_alert,
}
use cloud_alert_system.Db.Queries.{
  row_to_record, insert_by_id, order_by_id, queried, waits_price, waits_time, is_pending, distinct,
  query_alerts, scan_alerts, get_pending_price_alerts, get_pending_time_alerts,
  get_pending_contracts,
}
use cloud_alert_system.Db.Users.{
  minus_one, named, has_id, find_user, set_password, complete_user, new_user, insert_new_user,
  register_found, register_user, login_found, verify_login, id_found, get_user_id, put_email,
  update_email, email_found, email_of,
}
use cloud_alert_system.Db.{AlertRecord, UserRow, Db, Sqlite, Statement}
use cloud_alert_system.Double.{Float}
use cloud_alert_system.MdHandler.{MdHandler, subscribe}
use cloud_alert_system.Notifier.{
  Socket, invalid_socket, user_key, NotifyTask, Email, Notifier, register_socket, unregister_found,
  unregister_socket, notify, online_socket, send_email, fall_back, sends_all, deliver,
  process_notify_task, send_found, send_to_user, Next, again, wait, stopped, worker_round_of,
  worker_round, worker_loop, stop,
}
use cloud_alert_system.Protocol.{
  alert_type_price, alert_type_time, cond_ge, cond_le, status_pending, status_triggered,
  status_deleted, query_all, recv_buf_size,
}
use cloud_alert_system.System.{Engine, System}
use cloud_alert_system.Text.{
  c_str, Bytes, codes, same_text, same_text_iff, text_key, is_empty, c_str, c_str-c_str,
  starts_with, is_space, format_into,
}
use cloud_alert_system.World.{World}
use cloud_alert_system.Notifier.Config.{EmailConfig}
use cloud_alert_system.ClientSession.{Session}
use cloud_alert_system.Db.Valid.{IsValid}

-- prices in hundredths
abbrev pub prices : Float ℕ
prices = record {
  zero = 0;
  huge = 1000000000;
  lt = ltb;
  le = leb;
  atof = λ s. length s;
  print_2 = λ p. codes "1.00";
}

pub same_order : {A : Type 0} (rows : List A) → Permᴰ rows rows
same_order [] = Permᴰ.nil
same_order (r ∷ rows) = Permᴰ.cons refl (same_order rows)

abbrev pub sqlite : Sqlite ℕ
sqlite = record {
  prepares = λ s. true;
  steps = λ s. true;
  skipped = λ s. 0;
  reads = λ s. 1000;
  order = λ rows. rows;
  order-perm = λ rows. same_order rows;
}

-- prepares everything, and no step is done
abbrev pub full_disk : Sqlite ℕ
full_disk = record sqlite { steps = λ s. false }

abbrev reads_only : Statement → Bool
reads_only Statement.check_user = true
reads_only _ = false

-- finds rows, but writes none
abbrev pub read_only : Sqlite ℕ
read_only = record sqlite { steps = reads_only }

abbrev pub alice : Bytes
alice = codes "alice"

abbrev pub bob : Bytes
bob = codes "bob"

abbrev pub secret : Bytes
secret = codes "secret"

abbrev pub rb2610 : Bytes
rb2610 = codes "rb2610"

abbrev pub noon : Bytes
noon = codes "2026-05-01 12:00:00"

-- a price alert of Alice, which waits; one of Bob, which fired; a deleted one of Alice
abbrev pub waiting : AlertRecord ℕ
waiting = record {
  id = pos 1;
  user_id = pos 1;
  alert_type = pos 0;
  condition = pos 0;
  status = pos 0;
  contract = rb2610;
  trigger_time = [];
  created_at = noon;
  triggered_at = [];
  trigger_price = 300;
}

abbrev pub fired : AlertRecord ℕ
fired = record waiting { id = pos 2; user_id = pos 2; status = pos 1; triggered_at = noon }

abbrev pub dropped : AlertRecord ℕ
dropped = record waiting { id = pos 3; status = pos 2 }

abbrev pub alice_row : UserRow
alice_row = record { id = pos 1; username = alice; password = secret; email = codes "a@x.org" }

-- a row without a password
abbrev pub bob_row : UserRow
bob_row = record { id = pos 2; username = bob; password = []; email = [] }

abbrev pub tables : Db ℕ
tables = record {
  users = alice_row ∷ bob_row ∷ [];
  user_seq = 2;
  alerts = waiting ∷ fired ∷ dropped ∷ [];
  alert_seq = 3;
}

pub tables-IsValid : IsValid tables
tables-IsValid = record {
  user_ids = (refl, omega arith, (refl, omega arith, omega arith));
  names = (unfold any same_text in refl, (unfold any in refl, tt));
  alert_ids = (refl, omega arith, (refl, omega arith, (refl, omega arith, omega arith)));
  codes = (
    (inl refl, inl refl, unfold c_str in refl),
    (
      (inr (inl refl), inl refl, unfold c_str in refl),
      ((inr (inr refl), inl refl, unfold c_str in refl), tt),
    ),
  );
}

abbrev pub world : World ℕ
world = record {
  sqlite = sqlite;
  now = noon;
  hms = codes "12:00:00";
  send = λ s text. pos (length text);
}

abbrev pub notifier : Notifier
notifier = record {
  user_sockets = (pos 1, 7) ∷ [];
  tasks = [];
  has_event = true;
  event_set = false;
  stopping = false;
  email_unit = true;
  config = record { account = []; password = []; smtp = []; from = []; ssl = true };
  pushed = [];
  mailed = [];
}

abbrev pub system : System ℕ
system = record {
  db = tables;
  engine = record {
    ctp_handler = true;
    timer_thread = true;
    timer_running = true;
    last_prices = [];
    price_alert_cache = (rb2610, waiting ∷ []) ∷ [];
  };
  notifier = notifier;
  md = record { api = true; request_id = pos 0; requests = [] };
}

-- Alice's session, and one where nobody is logged in
abbrev pub session : Session
session = record { sock = 7; user_id = pos 1; username = alice }

abbrev pub guest : Session
guest = record { sock = 8; user_id = negsuc 0; username = [] }
