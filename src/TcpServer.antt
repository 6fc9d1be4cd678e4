-- ===== src/TcpServer.antt =====
-- Server/TcpServer.h and Server/TcpServer.cpp: the queue of accepted clients and the pool of workers
-- that serve them. A critical section is held over each access to the queue.
pub mod Queue
pub mod Startup
use cloud_alert_system.Common.{
  ℕ, zero, suc, ◌+◌, Bool, true, false, ◌&&◌, not, Option, none, some, List, [], ◌∷◌, ◌++◌, arith,
  ltb, ◌==◌, if◌then◌else◌, length,
}
use cloud_alert_system.Notifier.{Socket, invalid_socket}

-- TCP_WORKER_COUNT and TCP_PENDING_QUEUE_LIMIT
abbrev pub worker_count : ℕ
worker_count = 32

abbrev pub pending_queue_limit : ℕ
pending_queue_limit = 256

-- The members, and the sockets that the server has closed, the latest last.
pub record TcpServer : Type 0 where
  pub listen_sock : Socket
  pub running : Bool
  pub client_queue : List Socket
  -- m_queueSemaphore: its count, or `none` for NULL
  pub semaphore : Option ℕ
  -- m_workerThreads.size()
  pub workers : ℕ
  pub closed : List Socket

-- what the calls of Windows answer at start
pub record Winsock : Type 0 where
  pub startup : Bool
  -- socket(): INVALID_SOCKET on failure
  pub socket : Socket
  pub binds : Bool
  pub listens : Bool
  pub makes_semaphore : Bool
  -- CreateThread of the worker with this number
  pub makes_thread : ℕ → Bool

-- ReleaseSemaphore(m_queueSemaphore, n, nullptr)
abbrev pub release : ℕ → Option ℕ → Option ℕ
release n none = none
release n (some count) = some (count + n)

-- the critical section of EnqueueClient
unfoldable pub queue_client : Socket → TcpServer → TcpServer × Bool
queue_client sock t =
    if ltb (length t.client_queue) pending_queue_limit
    then (record t { client_queue = t.client_queue ++ sock ∷ [] }, true)
    else (t, false)

-- what EnqueueClient does after it, for a client that was queued
abbrev pub release_one : TcpServer → TcpServer
release_one t = record t { semaphore = release 1 t.semaphore }

unfoldable pub enqueue_client : Socket → TcpServer → TcpServer × Bool
unfolding queue_client
enqueue_client sock t =
    let (u, queued) = queue_client sock t in (if queued then release_one u else u, queued)

-- the socket, or INVALID_SOCKET where there is none
unfoldable pub dequeue_client : TcpServer → TcpServer × Socket
dequeue_client t = elim t.client_queue [
  | [] ↦ (t, invalid_socket)
  | sock ∷ rest ↦ (record t { client_queue = rest }, sock)
]

-- The body of the accept loop, on what accept() returns: an accepted client is queued, or closed when
-- the queue is full. The result tells whether the loop goes on.
unfoldable pub accept_round : Socket → TcpServer → TcpServer × Bool
unfolding enqueue_client
accept_round sock t =
    if sock == invalid_socket
    then (t, false)
    else (let (u, queued) = enqueue_client sock t in
        (if queued then u else record u { closed = u.closed ++ sock ∷ [] }, u.running))

-- what a worker does once its wait is over
pub data Job : Type 0 where
  serve : Socket → Job
  again ends : Job

abbrev pub job : Bool → Socket → Job
job running sock = if sock == invalid_socket then (if running then again else ends) else serve sock

abbrev pub dequeued : TcpServer → Option (TcpServer × Job)
dequeued t = let (u, sock) = dequeue_client t in some (u, job u.running sock)

-- One round of WorkerThreadProc; `none`: the worker waits at the semaphore.
unfoldable pub worker_round : TcpServer → Option (TcpServer × Job)
unfolding dequeue_client
worker_round t = elim t.semaphore [
  | none ↦ some (t, ends)
  | some zero ↦ none
  | some (suc n) ↦ dequeued (record t { semaphore = some n })
]

unfoldable pub stop_worker_pool : TcpServer → TcpServer
stop_worker_pool t = record t {
  workers = zero;
  closed = t.closed ++ t.client_queue;
  client_queue = [];
  semaphore = none;
}

-- the workers that are left to start; the number of the next one is `t.workers`
unfoldable pub start_workers : Winsock → ℕ → TcpServer → TcpServer × Bool
unfolding stop_worker_pool
start_workers w zero t = (t, true)
start_workers w (suc left) t =
    let rest = start_workers w left (record t { workers = suc t.workers }) in
    if w.makes_thread t.workers then rest else (stop_worker_pool t, false)

unfoldable pub start_worker_pool : Winsock → TcpServer → TcpServer × Bool
unfolding start_workers
start_worker_pool w t =
    if w.makes_semaphore
    then start_workers w worker_count (record t { semaphore = some zero })
    else (record t { semaphore = none }, false)

abbrev pub pool_started : Winsock → TcpServer × Bool → TcpServer × Bool
pool_started w (t, true) = (t, true)
pool_started w (t, false) =
    (record t { closed = t.closed ++ t.listen_sock ∷ []; listen_sock = invalid_socket }, false)

unfoldable pub init : Winsock → TcpServer → TcpServer × Bool
unfolding start_worker_pool
init w t =
    let opened = record t { listen_sock = w.socket } in
    let shut = record opened { closed = t.closed ++ w.socket ∷ [] } in
    if not w.startup
    then (t, false)
    else if w.socket == invalid_socket
    then (opened, false)
    else if w.binds && w.listens
    then pool_started w (start_worker_pool w opened)
    else (shut, false)

unfoldable pub stop : TcpServer → TcpServer
unfolding stop_worker_pool
stop t =
    if t.listen_sock == invalid_socket
    then stop_worker_pool (record t { running = false })
    else stop_worker_pool (record t {
      running = false;
      closed = t.closed ++ t.listen_sock ∷ [];
      listen_sock = invalid_socket;
    })

-- Run, up to its loop
abbrev pub start : TcpServer → TcpServer
start t = record t { running = true }
