-- ===== src/Notifier/Sockets.antt =====
-- The sockets of online users: RegisterUser and UnregisterUser of Server/Notifier.cpp.
use cloud_alert_system.Common.{
  ◌≡◌, ◌≢◌, inl, inr, Bool, false, ◌&&◌, Option, none, some, arith, ◌==◌, Option-cases,
  if◌then◌else◌, ℤ, eq_ℤ, eq_ℤ_iff, lookup, lookup-insert, lookup-erase,
}
use cloud_alert_system.Notifier.{Socket, user_key, Notifier, register_socket, unregister_socket}

-- the socket under which a user is online
abbrev pub socket_of : ℤ → Notifier → Option Socket
socket_of user_id n = lookup user_key user_id n.user_sockets

abbrev pub is_socket : Socket → Option Socket → Bool
is_socket sock none = false
is_socket sock (some s) = s == sock

-- UnregisterUser takes a user offline exactly when the socket is the one under which the user is
-- online, and touches no other user.
pub socket_of-unregister_socket :
    (u j : ℤ) (sock : Socket) (n : Notifier)
    → socket_of j (unregister_socket u sock n)
      ≡ (if eq_ℤ u j && is_socket sock (socket_of u n) then none else socket_of j n)
unfolding unregister_socket
socket_of-unregister_socket u j sock n = elim (Option-cases (socket_of u n)) [
  | inl e ↦ rw e (ground arith)
  | inr (s, e) ↦ rw e (ground (arith, lookup-erase user_key u j n.user_sockets))
]

pub socket_of-register_socket :
    (u j : ℤ) (sock : Socket) (n : Notifier)
    → socket_of j (register_socket u sock n) ≡ (if eq_ℤ u j then some sock else socket_of j n)
unfolding register_socket
socket_of-register_socket u j sock n = lookup-insert user_key u j sock n.user_sockets

-- A user who logged in again from another socket stays online there when the session of the first
-- socket ends.
pub stale_unregister :
    (u : ℤ) (old new : Socket) (n : Notifier)
    → old ≢ new
    → socket_of u (unregister_socket u old (register_socket u new (register_socket u old n)))
      ≡ some new
stale_unregister u old new n ne =
    let m = register_socket u new (register_socket u old n) in
    ground (
      arith,
      socket_of-unregister_socket u u old m,
      socket_of-register_socket u u new (register_socket u old n),
      eq_ℤ_iff u u,
    )
