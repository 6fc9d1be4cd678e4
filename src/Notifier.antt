-- ===== src/Notifier.antt =====
-- Server/Notifier.h and Server/Notifier.cpp: the sockets of users, the queue of notifications and
-- its worker. A critical section is held over each access, so that the steps below are atomic.
pub mod Config
pub mod Settings
pub mod Sockets
pub mod Delivery
pub mod Wakeup
use cloud_alert_system.Common.{
  ℕ, zero, suc, ◌+◌, Bool, true, false, ◌&&◌, ◌||◌, not, Option, none, some, List, [], ◌∷◌, ◌++◌,
  arith, ◌==◌, if◌then◌else◌, length, ℤ, pos, eq_ℤ, eq_ℤ_iff, to_int, Key, lookup, insert, erase,
}
use cloud_alert_system.Text.{Bytes, is_empty, c_str}
use cloud_alert_system.World.{World}
use cloud_alert_system.Notifier.Config.{EmailConfig}

-- SOCKET
abbrev pub Socket : Type 0
Socket = ℕ

-- (SOCKET)(~0) in 64 bits
abbrev pub invalid_socket : Socket
invalid_socket = 18446744073709551615

abbrev pub user_key : Key ℤ
user_key = record { same = eq_ℤ; same_iff = eq_ℤ_iff }

pub record NotifyTask : Type 0 where
  pub user_id : ℤ
  pub msg : Bytes
  pub email_address : Bytes
  pub subject : Bytes
  pub body : Bytes

-- EMSend, as far as SendEmail fills it
pub record Email : Type 0 where
  pub recv_emails : Bytes
  pub subject : Bytes
  pub info : Bytes

-- The members, and what has left the process: whole lines pushed to sockets and mails handed to the
-- mail unit, the latest last.
pub record Notifier : Type 0 where
  pub user_sockets : List (ℤ × Socket)
  pub tasks : List NotifyTask
  -- m_taskEvent: created, and signalled
  pub has_event : Bool
  pub event_set : Bool
  pub stopping : Bool
  -- m_pEmailUnit is not null
  pub email_unit : Bool
  pub config : EmailConfig
  pub pushed : List (Socket × Bytes)
  pub mailed : List Email

unfoldable pub register_socket : ℤ → Socket → Notifier → Notifier
register_socket user_id sock n = record n {
  user_sockets = insert user_key user_id sock n.user_sockets;
}

abbrev pub unregister_found : ℤ → Socket → Notifier → Option Socket → Notifier
unregister_found user_id sock n none = n
unregister_found user_id sock n (some s) =
    if s == sock then record n { user_sockets = erase user_key user_id n.user_sockets } else n

-- An offline event of a socket that is no longer the user's is ignored.
unfoldable pub unregister_socket : ℤ → Socket → Notifier → Notifier
unregister_socket user_id sock n =
    unregister_found user_id sock n (lookup user_key user_id n.user_sockets)

-- Notify: the task is queued, unless the object is being destroyed.
unfoldable pub notify : NotifyTask → Notifier → Notifier
notify task n =
    if n.stopping
    then n
    else record n { tasks = n.tasks ++ task ∷ []; event_set = n.event_set || n.has_event }

-- `(it != end) && it->second != INVALID_SOCKET`
abbrev pub online_socket : Option Socket → Option Socket
online_socket none = none
online_socket (some s) = if s == invalid_socket then none else some s

unfoldable pub send_email : Bytes → Bytes → Bytes → Notifier → Notifier
send_email to_address subject body n =
    if n.email_unit
    then record n {
      mailed =
          n.mailed
          ++ record { recv_emails = c_str to_address; subject = c_str subject; info = c_str body }
            ∷ [];
    }
    else n

abbrev pub fall_back : NotifyTask → Notifier → Notifier
fall_back task n =
    if is_empty task.email_address
    then n
    else send_email task.email_address task.subject task.body n

module _ {D : Type 0} (W : World D) where
  -- send(...) == (int)data.size()
  abbrev pub sends_all : Socket → Bytes → Bool
  sends_all sock text = eq_ℤ (W.send sock text) (to_int (pos (length text)))

  -- a message of which the socket takes a part only is not recorded in `pushed`
  abbrev pub deliver : NotifyTask → Notifier → Option Socket → Notifier
  deliver task n none = fall_back task n
  deliver task n (some sock) =
      if sends_all sock task.msg
      then record n { pushed = n.pushed ++ (sock, task.msg) ∷ [] }
      else fall_back task n

  unfoldable pub process_notify_task : NotifyTask → Notifier → Notifier
  unfolding send_email
  process_notify_task task n =
      deliver task n (online_socket (lookup user_key task.user_id n.user_sockets))

  abbrev pub send_found : Bytes → Notifier → Option Socket → Notifier × Bool
  send_found text n none = (n, false)
  send_found text n (some sock) =
      if sends_all sock text
      then (record n { pushed = n.pushed ++ (sock, text) ∷ [] }, true)
      else (n, false)

  unfoldable pub send_to_user : ℤ → Bytes → Notifier → Notifier × Bool
  send_to_user user_id text n =
      send_found text n (online_socket (lookup user_key user_id n.user_sockets))

-- What the worker does after one round of its inner loop: the next round, a wait for the event, or
-- the end of the thread.
pub data Next : Type 0 where
  again wait stopped : Next

module _ {D : Type 0} (W : World D) where
  abbrev pub worker_round_of : Notifier → List NotifyTask → Notifier × Next
  worker_round_of n (task ∷ rest) = (process_notify_task W task (record n { tasks = rest }), again)
  worker_round_of n [] = (
    record n { event_set = n.event_set && not n.has_event },
    if n.stopping then stopped else wait,
  )

  -- One round of the inner loop of WorkerThreadProc.
  unfoldable pub worker_round : Notifier → Notifier × Next
  worker_round n = worker_round_of n n.tasks

  -- The inner loop, until it waits or stops. `none` means that the fuel ran out.
  unfoldable pub worker_loop : ℕ → Notifier → Option (Notifier × Next)
  unfolding worker_round
  worker_loop zero n = none
  worker_loop (suc fuel) n =
      let (n', next) = worker_round n in
      elim next [
        | again ↦ worker_loop fuel n'
        | wait ↦ some (n', wait)
        | stopped ↦ some (n', stopped)
      ]

-- ~Notifier, first part: no more tasks are taken, and the worker is woken.
unfoldable pub stop : Notifier → Notifier
stop n = record n { stopping = true; event_set = n.event_set || n.has_event }
