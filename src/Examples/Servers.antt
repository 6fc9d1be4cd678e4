-- ===== src/Examples/Servers.antt =====
-- The theorems on the notifier and the queue of clients, at concrete states.
use cloud_alert_system.TcpServer.{Winsock, init}
use cloud_alert_system.TcpServer.Startup.{init-closed, stop-closed_twice}
use cloud_alert_system.Notifier.Config.{EmailConfig, load_config, strip_back}
use cloud_alert_system.Notifier.Settings.{settings_text, settings_text-load_config}
use cloud_alert_system.Common.{
  ◌&&◌, ◌++◌, not, false, ℕ, ◌≡◌, refl, inl, inr, true, none, some, [], ◌∷◌, arith, if◌then◌else◌,
  pos,
}
use cloud_alert_system.Notifier.{
  invalid_socket, NotifyTask, Notifier, notify, wait, stopped, worker_loop,
}
use cloud_alert_system.Text.{codes}
use cloud_alert_system.Examples.{world, notifier}
use cloud_alert_system.Notifier.Delivery.{
  gather, pushed_to, mailed_to, socket_for, worker_loop_delivers,
}
use cloud_alert_system.Notifier.Wakeup.{IsAwake, here, next, queues, Reach-IsAwake}
use cloud_alert_system.TcpServer.{TcpServer, queue_client, dequeue_client}
use cloud_alert_system.TcpServer
use cloud_alert_system.TcpServer.Queue.{
  Pool, Steps, Serving, begin, queues, releases, wakes, takes, Steps-Serving,
}

abbrev task : NotifyTask
task = record {
  user_id = pos 1;
  msg = codes "TRIGGERED";
  email_address = codes "a@x.org";
  subject = [];
  body = [];
}

abbrev busy : Notifier
busy = record notifier { tasks = task ∷ task ∷ [] }

worker_loop_delivers_example :
    worker_loop world 3 busy
    ≡ some (
      record busy {
        tasks = [];
        event_set = busy.event_set && not busy.has_event;
        pushed =
            busy.pushed ++ gather (λ t. pushed_to world t (socket_for world busy t)) busy.tasks;
        mailed =
            busy.mailed
            ++ gather (λ t. mailed_to world busy t (socket_for world busy t)) busy.tasks;
      },
      if busy.stopping then stopped else wait,
    )
worker_loop_delivers_example = worker_loop_delivers world busy

Reach-IsAwake_example : IsAwake (notify task notifier)
Reach-IsAwake_example = Reach-IsAwake {D = ℕ} (inr (inl refl)) (next here (queues task notifier))

abbrev server : TcpServer
server = record {
  listen_sock = 3;
  running = true;
  client_queue = [];
  semaphore = some 0;
  workers = 32;
  closed = [];
}

abbrev pool : Pool
pool = record { server = server; unreleased = 0; woken = 0 }

-- a client is queued, the semaphore released, and a worker takes the client
abbrev left_pool : Pool
left_pool = record { server = server; unreleased = 0; woken = 0 }

abbrev one_client : TcpServer
one_client = record server { client_queue = 4 ∷ [] }

client_queued : queue_client 4 server ≡ (one_client, true)
unfolding queue_client
client_queued = refl

client_taken : dequeue_client one_client ≡ (server, 4)
unfolding dequeue_client
client_taken = refl

served_client : Steps pool (4 ∷ []) (4 ∷ []) left_pool
served_client =
    takes 0 4 server (wakes 0 (releases (queues 4 one_client begin refl client_queued) refl) refl)
      refl client_taken

Steps-Serving_example : Serving (4 ∷ []) (4 ∷ []) left_pool
Steps-Serving_example =
    Steps-Serving pool left_pool (4 ∷ []) (4 ∷ []) refl refl refl refl served_client

-- a Winsock where bind fails
abbrev port_taken : Winsock
port_taken = record {
  startup = true;
  socket = 3;
  binds = false;
  listens = true;
  makes_semaphore = true;
  makes_thread = λ n. true;
}

abbrev new_server : TcpServer
new_server = record server {
  listen_sock = invalid_socket;
  running = false;
  semaphore = none;
  workers = 0;
}

init-closed_example : (init port_taken new_server).0.closed ≡ 3 ∷ []
init-closed_example = init-closed port_taken new_server refl refl (λ e. cc) (unfold init in refl)

stop-closed_twice_example : (TcpServer.stop (init port_taken new_server).0).closed ≡ 3 ∷ 3 ∷ []
stop-closed_twice_example = stop-closed_twice port_taken new_server refl refl (λ e. cc) refl

abbrev mail : EmailConfig
mail = record {
  account = codes "box";
  password = codes "secret";
  smtp = codes "smtp.x.org";
  from = codes "box@x.org";
  ssl = true;
}

abbrev no_mail : EmailConfig
no_mail = record { account = []; password = []; smtp = []; from = []; ssl = false }

settings_text-load_config_example : load_config no_mail (some (settings_text mail)) ≡ mail
settings_text-load_config_example =
    settings_text-load_config no_mail mail
      (unfold strip_back in record { one_line = ground arith; stripped = refl })
      (unfold strip_back in record { one_line = ground arith; stripped = refl })
      (unfold strip_back in record { one_line = ground arith; stripped = refl })
      (unfold strip_back in record { one_line = ground arith; stripped = refl })
