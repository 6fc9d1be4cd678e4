-- ===== src/Notifier/Wakeup.antt =====
-- The event that wakes the worker of Server/Notifier.cpp.
use cloud_alert_system.Common.{◌≡◌, refl, ◌⊎◌, true, false, List, [], ◌∷◌, arith, ℤ}
use cloud_alert_system.Text.{Bytes}
use cloud_alert_system.World.{World}
use cloud_alert_system.Notifier.{
  Socket, NotifyTask, Notifier, register_socket, unregister_socket, notify, process_notify_task,
  send_to_user, worker_round_of, worker_round, stop,
}

-- A queued notification finds the event set (where the event could be created).
abbrev pub IsAwake : Notifier → Type 0
IsAwake n = (n.has_event ≡ false) ⊎ ((n.tasks ≡ []) ⊎ (n.event_set ≡ true))

-- The steps that the threads of the server make on the notifier; each holds a critical section.
pub data Step (D : Type 0) : Notifier → Notifier → Type 0 where
  logs_in : (u : ℤ) (sock : Socket) (n : Notifier) → Step D n (register_socket u sock n)
  logs_out : (u : ℤ) (sock : Socket) (n : Notifier) → Step D n (unregister_socket u sock n)
  queues : (task : NotifyTask) (n : Notifier) → Step D n (notify task n)
  works : (W : World D) (n : Notifier) → Step D n (worker_round W n).0
  sends : (W : World D) (u : ℤ) (text : Bytes) (n : Notifier) → Step D n (send_to_user W u text n).0
  stops : (n : Notifier) → Step D n (stop n)

pub data Reach (D : Type 0) (n : Notifier) : Notifier → Type 0 where
  here : Reach D n n
  next : {m k : Notifier} → Reach D n m → Step D m k → Reach D n k

logs_out-IsAwake :
    (u : ℤ) (sock : Socket) (n : Notifier) → IsAwake n → IsAwake (unregister_socket u sock n)
unfolding unregister_socket
logs_out-IsAwake u sock n h = ground arith

work-IsAwake :
    {D : Type 0} (W : World D) (n : Notifier) (ts : List NotifyTask)
    → n.tasks ≡ ts
    → IsAwake n
    → IsAwake (worker_round_of W n ts).0
unfolding process_notify_task
work-IsAwake W n [] e h = ground arith
work-IsAwake W n (task ∷ rest) e h = ground arith

send-IsAwake :
    {D : Type 0} (W : World D) (u : ℤ) (text : Bytes) (n : Notifier)
    → IsAwake n
    → IsAwake (send_to_user W u text n).0
unfolding send_to_user
send-IsAwake W u text n h = ground arith

Step-IsAwake : {D : Type 0} {n m : Notifier} → Step D n m → IsAwake n → IsAwake m
unfolding register_socket notify worker_round stop
Step-IsAwake (logs_in u sock n) h = ground arith
Step-IsAwake (logs_out u sock n) h = logs_out-IsAwake u sock n h
Step-IsAwake (queues task n) h = ground arith
Step-IsAwake (works W n) h = work-IsAwake W n n.tasks refl h
Step-IsAwake (sends W u text n) h = send-IsAwake W u text n h
Step-IsAwake (stops n) h = ground arith

-- However logins, logouts, notifications, rounds of the worker, sends and the destructor
-- interleave, a notification in the queue finds the event of the worker set, where the event could
-- be created and where this held at the start.
pub Reach-IsAwake : {D : Type 0} {n m : Notifier} → IsAwake n → Reach D n m → IsAwake m
Reach-IsAwake h here = h
Reach-IsAwake h (next r s) = Step-IsAwake s (Reach-IsAwake h r)
