-- ===== src/Notifier/Delivery.antt =====
-- What becomes of a queued notification: ProcessNotifyTask and the worker of Server/Notifier.cpp.
use cloud_alert_system.Common.{
  suc, ◌≡◌, sym, ap, ap₂, ◌∙◌, ◌&&◌, not, none, some, List, [], ◌∷◌, ◌++◌, arith, Option,
  if◌then◌else◌, length,
}
use mathlib.Core.List.{append-nil, append_assoc}
use cloud_alert_system.Text.{Bytes, is_empty, c_str}
use cloud_alert_system.World.{World}
use cloud_alert_system.Notifier.{
  Socket, Email, NotifyTask, Notifier, online_socket, sends_all, deliver, fall_back, send_email,
  process_notify_task, wait, stopped, worker_loop,
}
use cloud_alert_system.Notifier.Sockets.{socket_of}

-- the lists that the members of a list give, joined
unfoldable pub gather : {A B : Type 0} → (A → List B) → List A → List B
gather f [] = []
gather f (x ∷ xs) = f x ++ gather f xs

module _ {D : Type 0} (W : World D) where
  -- what is sent for a notification, on the socket that was found
  abbrev pub pushed_to : NotifyTask → Option Socket → List (Socket × Bytes)
  pushed_to task none = []
  pushed_to task (some sock) = if sends_all W sock task.msg then (sock, task.msg) ∷ [] else []

  -- the mail for a notification, if there is an address and a mail unit
  abbrev pub letter : Notifier → NotifyTask → List Email
  letter n task =
      if not (is_empty task.email_address) && n.email_unit
      then record {
        recv_emails = c_str task.email_address;
        subject = c_str task.subject;
        info = c_str task.body;
      }
        ∷ []
      else []

  abbrev pub mailed_to : Notifier → NotifyTask → Option Socket → List Email
  mailed_to n task none = letter n task
  mailed_to n task (some sock) = if sends_all W sock task.msg then [] else letter n task

  -- the user's socket, if it is one
  abbrev pub socket_for : Notifier → NotifyTask → Option Socket
  socket_for n task = online_socket (socket_of task.user_id n)

  -- the sockets and the mails of notifications one after another
  abbrev pub delivered : List NotifyTask → Notifier → Notifier
  delivered ts n = record n {
    pushed = n.pushed ++ gather (λ task. pushed_to task (socket_for n task)) ts;
    mailed = n.mailed ++ gather (λ task. mailed_to n task (socket_for n task)) ts;
  }

  -- the notifications handled one after another
  abbrev pub process_all : List NotifyTask → Notifier → Notifier
  process_all [] n = n
  process_all (task ∷ rest) n = process_all rest (process_notify_task W task n)

  tasks-process_notify_task :
      (task : NotifyTask) (n : Notifier)
      → ((process_notify_task W task n).tasks ≡ n.tasks)
        × ((process_notify_task W task n).stopping ≡ n.stopping)
  unfolding process_notify_task
  tasks-process_notify_task task n = ground arith

  -- the worker has nothing left to do
  abbrev pub idle : Notifier → Notifier
  idle n = record n { tasks = []; event_set = n.event_set && not n.has_event }

  process-tasks :
      (task : NotifyTask) (n : Notifier) (ts : List NotifyTask)
      → process_notify_task W task (record n { tasks = ts })
        ≡ record (process_notify_task W task (record n { tasks = [] })) { tasks = ts }
  unfolding process_notify_task
  process-tasks task n ts = ground arith

  loop_drains :
      (ts : List NotifyTask) (n : Notifier)
      → worker_loop W (suc (length ts)) (record n { tasks = ts })
        ≡ some
            (idle (process_all ts (record n { tasks = [] })), if n.stopping then stopped else wait)
  unfolding worker_loop
  loop_drains [] n = ground arith
  loop_drains (task ∷ rest) n =
      let m = process_notify_task W task (record n { tasks = [] }) in
      ap (worker_loop W (suc (length rest))) (process-tasks task n rest)
      ∙ loop_drains rest m
      ∙ ap
          (λ b.
            some (idle (process_all rest (record m { tasks = [] })), if b then stopped else wait))
          (tasks-process_notify_task task (record n { tasks = [] })).1
      ∙ ap (λ k. some (idle (process_all rest k), if n.stopping then stopped else wait))
          (sym (process-tasks task n []))

  pub worker_loop_drains :
      (n : Notifier)
      → worker_loop W (suc (length n.tasks)) n
        ≡ some (
          idle (process_all n.tasks (record n { tasks = [] })),
          if n.stopping then stopped else wait,
        )
  worker_loop_drains n = loop_drains n.tasks n

  fall_back-mails :
      (task : NotifyTask) (n : Notifier)
      → fall_back task n ≡ record n { mailed = n.mailed ++ letter n task }
  unfolding send_email
  fall_back-mails task n = ground (arith, append-nil n.mailed)

  deliver-Delivered :
      (task : NotifyTask) (n : Notifier) (found : Option Socket)
      → deliver W task n found ≡ record n {
        pushed = n.pushed ++ pushed_to task found;
        mailed = n.mailed ++ mailed_to n task found;
      }
  deliver-Delivered task n none = ground (arith, fall_back-mails task n, append-nil n.pushed)
  deliver-Delivered task n (some sock) =
      ground (arith, fall_back-mails task n, append-nil n.pushed, append-nil n.mailed)

  process_all-Delivered : (ts : List NotifyTask) (n : Notifier) → process_all ts n ≡ delivered ts n
  unfolding process_notify_task gather
  process_all-Delivered [] n = ground (arith, append-nil n.pushed, append-nil n.mailed)
  process_all-Delivered (task ∷ rest) n =
      let found = socket_for n task in
      ap (process_all rest) (deliver-Delivered task n found)
      ∙ process_all-Delivered rest (record n {
        pushed = n.pushed ++ pushed_to task found;
        mailed = n.mailed ++ mailed_to n task found;
      })
      ∙ ap₂ (λ p m. record n { pushed = p; mailed = m })
          (append_assoc n.pushed (pushed_to task found)
            (gather (λ t. pushed_to t (socket_for n t)) rest))
          (append_assoc n.mailed (mailed_to n task found)
            (gather (λ t. mailed_to n t (socket_for n t)) rest))

  -- With one round for each queued notification and one more, the inner loop of the worker has, in
  -- the order of the queue, sent each notification whose user has a socket that takes the whole
  -- message on that socket, and mailed each other one that has an address, where there is a mail
  -- unit, to that address with its own subject and text; besides, the queue is empty and the event
  -- is taken, and nothing else of the notifier has changed.
  pub worker_loop_delivers :
      (n : Notifier)
      → worker_loop W (suc (length n.tasks)) n
        ≡ some (
          record n {
            tasks = [];
            event_set = n.event_set && not n.has_event;
            pushed = n.pushed ++ gather (λ task. pushed_to task (socket_for n task)) n.tasks;
            mailed = n.mailed ++ gather (λ task. mailed_to n task (socket_for n task)) n.tasks;
          },
          if n.stopping then stopped else wait,
        )
  worker_loop_delivers n =
      worker_loop_drains n
      ∙ ap (λ m. some (idle m, if n.stopping then stopped else wait))
          (process_all-Delivered n.tasks (record n { tasks = [] }))
