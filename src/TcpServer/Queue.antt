-- ===== src/TcpServer/Queue.antt =====
-- The queue between the accept loop and the workers of Server/TcpServer.cpp.
use cloud_alert_system.Common.{
  ℕ, zero, suc, ◌+◌, ◌≤◌, ◌<◌, ◌≡◌, refl, sym, ap, subst, ◌∙◌, some, true, false, List, [], ◌∷◌,
  ◌++◌, arith, ltb, inl, inr, Bool-cases, length, length-append,
}
use mathlib.Core.List.{append_assoc}
use cloud_alert_system.Notifier.{Socket}
use cloud_alert_system.TcpServer.{
  TcpServer, pending_queue_limit, queue_client, release_one, release, dequeue_client,
}

-- The server while its threads are between two steps: `unreleased` is 1 from the critical section of
-- EnqueueClient to its ReleaseSemaphore, and `woken` workers are between their wait and DequeueClient.
pub record Pool : Type 0 where
  pub server : TcpServer
  pub unreleased : ℕ
  pub woken : ℕ

-- Some steps of the accept loop and of the workers, in any order, of a server that is running: the
-- clients that were queued, and what workers took up, each in the order of the steps.
pub data Steps : Pool → List Socket → List Socket → Pool → Type 0 where
  begin : {p : Pool} → Steps p [] [] p
  -- the critical section of EnqueueClient, where there is room
  queues :
      {p u : Pool} {queued served : List Socket} (sock : Socket) (v : TcpServer)
      → Steps p queued served u
      → u.unreleased ≡ zero
      → queue_client sock u.server ≡ (v, true)
      → Steps p (queued ++ sock ∷ []) served (record u { server = v; unreleased = 1 })
  releases :
      {p u : Pool} {queued served : List Socket}
      → Steps p queued served u
      → u.unreleased ≡ 1
      → Steps p queued served (record u { server = release_one u.server; unreleased = zero })
  -- a client that finds no room is closed
  rejects :
      {p u : Pool} {queued served : List Socket} (sock : Socket) (v : TcpServer)
      → Steps p queued served u
      → u.unreleased ≡ zero
      → queue_client sock u.server ≡ (v, false)
      → Steps p queued served (record u { server = record v { closed = v.closed ++ sock ∷ [] } })
  -- the wait of a worker ends
  wakes :
      {p u : Pool} {queued served : List Socket} (n : ℕ)
      → Steps p queued served u
      → u.server.semaphore ≡ some (suc n)
      → Steps p queued served
          (record u { server = record u.server { semaphore = some n }; woken = suc u.woken })
  takes :
      {p u : Pool} {queued served : List Socket} (k : ℕ) (sock : Socket) (v : TcpServer)
      → Steps p queued served u
      → u.woken ≡ suc k
      → dequeue_client u.server ≡ (v, sock)
      → Steps p queued (served ++ sock ∷ []) (record u { server = v; woken = k })

-- the queue after these clients were queued and those were served
pub record Serving (queued served : List Socket) (u : Pool) : Type 0 where
  pub permits : ℕ
  pub count : u.server.semaphore ≡ some permits
  pub balance : length u.server.client_queue ≡ permits + u.unreleased + u.woken
  pub bounded : length u.server.client_queue ≤ pending_queue_limit
  pub in_order : queued ≡ served ++ u.server.client_queue

queue_client-true :
    (sock : Socket) (t v : TcpServer)
    → queue_client sock t ≡ (v, true)
    → (length t.client_queue < pending_queue_limit)
      × (v.client_queue ≡ t.client_queue ++ sock ∷ [])
      × (v.semaphore ≡ t.semaphore)
unfolding queue_client
queue_client-true sock t v e = elim (Bool-cases (ltb (length t.client_queue) pending_queue_limit)) [
  | inl room ↦
      let same : record t { client_queue = t.client_queue ++ sock ∷ [] } ≡ v =
        ground (arith, e, room) in
      (
        ground (arith, room),
        sym (ap (λ (x : TcpServer). x.client_queue) same),
        sym (ap (λ (x : TcpServer). x.semaphore) same),
      )
  | inr full ↦ absurd (ground (arith, e, full))
]

queue_client-false : (sock : Socket) (t v : TcpServer) → queue_client sock t ≡ (v, false) → v ≡ t
unfolding queue_client
queue_client-false sock t v e = ground (arith, e)

queues-Serving :
    (sock : Socket) (v : TcpServer) (u : Pool) (queued served : List Socket)
    → Serving queued served u
    → u.unreleased ≡ zero
    → queue_client sock u.server ≡ (v, true)
    → Serving (queued ++ sock ∷ []) served (record u { server = v; unreleased = 1 })
queues-Serving sock v u queued served ok none_left e =
    let (room, q, sem) = queue_client-true sock u.server v e in
    let len = ap length q in
    let more = length-append u.server.client_queue (sock ∷ []) in
    record {
      permits = ok.permits;
      count = sem ∙ ok.count;
      balance = omega (arith, len, more, ok.balance, none_left);
      bounded = omega (arith, len, more, room);
      in_order =
          ap (λ c. c ++ sock ∷ []) ok.in_order
          ∙ append_assoc served u.server.client_queue (sock ∷ [])
          ∙ ap (λ c. served ++ c) (sym q);
    }

rejects-Serving :
    (sock : Socket) (v : TcpServer) (u : Pool) (queued served : List Socket)
    → Serving queued served u
    → queue_client sock u.server ≡ (v, false)
    → Serving queued served (record u { server = record v { closed = v.closed ++ sock ∷ [] } })
rejects-Serving sock v u queued served ok e =
    subst
      (λ (x : TcpServer).
        Serving queued served (record u { server = record x { closed = x.closed ++ sock ∷ [] } }))
      (sym (queue_client-false sock u.server v e))
      (record {
        permits = ok.permits;
        count = ok.count;
        balance = ok.balance;
        bounded = ok.bounded;
        in_order = ok.in_order;
      })

-- a worker whose wait is over finds a client in the queue
takes-Serving :
    (k : ℕ) (sock : Socket) (t v : TcpServer) (q : List Socket) (n left : ℕ)
    (queued served : List Socket)
    → t.client_queue ≡ q
    → t.semaphore ≡ some n
    → length q ≡ n + left + suc k
    → length q ≤ pending_queue_limit
    → queued ≡ served ++ q
    → dequeue_client t ≡ (v, sock)
    → Serving queued (served ++ sock ∷ []) (record { server = v; unreleased = left; woken = k })
unfolding dequeue_client
takes-Serving k sock t v [] n left queued served at sem balance bounded order e =
    absurd (omega (arith, balance))
takes-Serving k sock t v (x ∷ q) n left queued served at sem balance bounded order e =
    let e' : (record t { client_queue = q }, x) ≡ (v, sock) = rw at at e in
    let same : record t { client_queue = q } ≡ v = ap (λ r. r.0) e' in
    let taken : x ≡ sock = ap (λ r. r.1) e' in
    subst
      (λ (y : TcpServer).
        Serving queued (served ++ sock ∷ []) (record { server = y; unreleased = left; woken = k }))
      same
      (record {
        permits = n;
        count = sem;
        balance = omega (arith, balance);
        bounded = omega (arith, bounded);
        in_order =
            order ∙ ap (λ y. served ++ y ∷ q) taken ∙ sym (append_assoc served (sock ∷ []) q);
      })

-- From an empty queue and a semaphore without permits, with no worker past its wait, after any
-- steps of the accept loop and of the workers, where the accept loop queues a client and releases
-- the semaphore in two steps and a worker waits and takes a client in two: at most 256 clients
-- wait, one for each permit, each release that is still to come and each worker past its wait, and
-- the clients were taken up in the order in which they were queued, so that no such worker found
-- the queue empty.
pub Steps-Serving :
    (p u : Pool) (queued served : List Socket)
    → p.server.client_queue ≡ []
    → p.server.semaphore ≡ some zero
    → p.unreleased ≡ zero
    → p.woken ≡ zero
    → Steps p queued served u
    → Serving queued served u
Steps-Serving p u queued served empty idle settled none_woken begin = record {
  permits = zero;
  count = idle;
  balance = omega (arith, ap length empty, settled, none_woken);
  bounded = omega (arith, ap length empty);
  in_order = sym empty;
}
Steps-Serving p _ _ served a b c d (queues {u = u} {queued = queued} sock v h none_left e) =
    queues-Serving sock v u queued served (Steps-Serving p u queued served a b c d h) none_left e
Steps-Serving p _ queued served a b c d (releases {u = u} h one_left) =
    let ok = Steps-Serving p u queued served a b c d h in
    record {
      permits = ok.permits + 1;
      count = ap (release 1) ok.count;
      balance = omega (arith, ok.balance, one_left);
      bounded = ok.bounded;
      in_order = ok.in_order;
    }
Steps-Serving p _ queued served a b c d (rejects {u = u} sock v h none_left e) =
    rejects-Serving sock v u queued served (Steps-Serving p u queued served a b c d h) e
Steps-Serving p _ queued served a b c d (wakes {u = u} n h e) =
    let ok = Steps-Serving p u queued served a b c d h in
    let same : ok.permits ≡ suc n = ground (arith, ok.count, e) in
    record {
      permits = n;
      count = refl;
      balance = omega (arith, ok.balance, same);
      bounded = ok.bounded;
      in_order = ok.in_order;
    }
Steps-Serving p _ queued _ a b c d (takes {u = u} {served = served} k sock v h woken e) =
    let ok = Steps-Serving p u queued served a b c d h in
    takes-Serving k sock u.server v u.server.client_queue ok.permits u.unreleased queued served refl
      ok.count (omega (arith, ok.balance, woken)) ok.bounded ok.in_order e
