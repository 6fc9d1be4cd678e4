-- ===== src/TcpServer/Startup.antt =====
-- Init and Stop of Server/TcpServer.cpp: the sockets that they open and close.
use cloud_alert_system.Common.{
  ℕ, zero, suc, ◌≡◌, ◌≢◌, refl, ap, ap₂, ◌∙◌, inl, inr, Bool, true, false, ◌&&◌, some, List, [],
  ◌∷◌, ◌++◌, arith, ◌==◌, ==_iff, Bool-cases,
}
use mathlib.Core.List.{append-nil, append_assoc}
use cloud_alert_system.Notifier.{Socket, invalid_socket}
use cloud_alert_system.TcpServer.{
  TcpServer, Winsock, worker_count, start_workers, start_worker_pool, stop_worker_pool,
  pool_started, init, stop,
}

-- a worker pool that does not start closes the clients that wait
start_workers-closed :
    (w : Winsock) (left : ℕ) (t : TcpServer)
    → t.client_queue ≡ []
    → (start_workers w left t).1 ≡ false
    → ((start_workers w left t).0.closed ≡ t.closed)
      × ((start_workers w left t).0.listen_sock ≡ t.listen_sock)
      × ((start_workers w left t).0.client_queue ≡ [])
unfolding start_workers stop_worker_pool
start_workers-closed w zero t empty h = absurd (ground (arith, h))
start_workers-closed w (suc left) t empty h = elim (Bool-cases (w.makes_thread t.workers)) [
  | inl e ↦
      rw e (start_workers-closed w left (record t { workers = suc t.workers }) empty (rw e at h))
  | inr e ↦ rw e (ap (λ q. t.closed ++ q) empty ∙ append-nil t.closed, refl, refl)
]

start_worker_pool-closed :
    (w : Winsock) (t : TcpServer)
    → t.client_queue ≡ []
    → (start_worker_pool w t).1 ≡ false
    → ((start_worker_pool w t).0.closed ≡ t.closed)
      × ((start_worker_pool w t).0.listen_sock ≡ t.listen_sock)
      × ((start_worker_pool w t).0.client_queue ≡ [])
unfolding start_worker_pool
start_worker_pool-closed w t empty h = elim (Bool-cases w.makes_semaphore) [
  | inl e ↦
      rw e
        (start_workers-closed w worker_count (record t { semaphore = some zero }) empty (rw e at h))
  | inr e ↦ rw e (refl, refl, empty)
]

pool_started-closed :
    (w : Winsock) (r : TcpServer × Bool) (before : List Socket)
    → (r.1 ≡ false → (r.0.closed ≡ before) × (r.0.listen_sock ≡ w.socket))
    → (pool_started w r).1 ≡ false
    → (pool_started w r).0.closed ≡ before ++ w.socket ∷ []
pool_started-closed w (t, true) before h fails = absurd (ground (arith, fails))
pool_started-closed w (t, false) before h fails = ap₂ (λ a b. a ++ b ∷ []) (h refl).0 (h refl).1

-- An Init that fails after it has opened a socket has closed that socket, once, and nothing else,
-- where no client was queued.
pub init-closed :
    (w : Winsock) (t : TcpServer)
    → t.client_queue ≡ []
    → w.startup ≡ true
    → w.socket ≢ invalid_socket
    → (init w t).1 ≡ false
    → (init w t).0.closed ≡ t.closed ++ w.socket ∷ []
unfolding init
init-closed w t empty started real fails =
    let e : (w.socket == invalid_socket) ≡ false =
      ground (arith, real, ==_iff w.socket invalid_socket) in
    let opened : TcpServer = record t { listen_sock = w.socket } in
    elim (Bool-cases (w.binds && w.listens)) [
      | inl b ↦
          rw (started, e, b)
            (pool_started-closed w (start_worker_pool w opened) t.closed
              (λ h. let p = start_worker_pool-closed w opened empty h in (p.0, p.1))
              (rw (started, e, b) at fails))
      | inr b ↦ rw (started, e, b) refl
    ]

-- After an Init whose bind or listen failed, Stop closes the same socket once more, where no
-- client was queued.
pub stop-closed_twice :
    (w : Winsock) (t : TcpServer)
    → t.client_queue ≡ []
    → w.startup ≡ true
    → w.socket ≢ invalid_socket
    → (w.binds && w.listens) ≡ false
    → (stop (init w t).0).closed ≡ t.closed ++ w.socket ∷ w.socket ∷ []
unfolding init stop stop_worker_pool
stop-closed_twice w t empty started real unbound =
    let e : (w.socket == invalid_socket) ≡ false =
      ground (arith, real, ==_iff w.socket invalid_socket) in
    let twice = append_assoc t.closed (w.socket ∷ []) (w.socket ∷ []) in
    rw (started, e, unbound, e)
      (ap (λ q. ((t.closed ++ w.socket ∷ []) ++ w.socket ∷ []) ++ q) empty
        ∙ append-nil ((t.closed ++ w.socket ∷ []) ++ w.socket ∷ [])
        ∙ twice)
