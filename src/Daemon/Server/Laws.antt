-- ===== src/Daemon/Server/Laws.antt =====
-- The state that the main loop sees of the RPC server (mom/RPCServer.py).
use mom.Prelude.{
  ◌≡◌, refl, ◌⊎◌, Bool, true, Option, none, some, Result, ok, err, ◌>>=◌, Bool-cases, inl, inr,
}
use mom.Daemon.Config.{Config, option}
use mom.Daemon.Server.{
  Address, RpcServer, create, thread_ok, address_of, create_server, serving, run,
}

Result-cases : {E A : Type 0} (r : Result E A) → ((a : A) × (r ≡ ok a)) ⊎ ((e : E) × (r ≡ err e))
Result-cases (ok a) = inl (a, refl)
Result-cases (err e) = inr (e, refl)

create_server-is_alive :
    (bind : Address → Bool) (c : Config) (s : RpcServer)
    → (create_server bind c s).1.is_alive ≡ s.is_alive
unfolding create_server ◌>>=◌
create_server-is_alive bind c s = elim (Result-cases (address_of (option "main" "rpc-port" c))) [
  | inl (none, h) ↦ rw h refl
  | inl (some a, h) ↦ elim (Bool-cases (bind a)) [ inl b ↦ rw (h, b) refl | inr b ↦ rw (h, b) refl ]
  | inr (e, h) ↦ rw h refl
]

serving-thread_ok :
    (bind : Address → Bool) (address : Option Address) (s : RpcServer)
    → s.server ≡ address
    → s.is_alive ≡ true
    → thread_ok (serving bind address s) ≡ true
unfolding thread_ok
serving-thread_ok bind none s h alive = rw h refl
serving-thread_ok bind (some a) s h alive = rw h alive

-- A server that could not be created does not end the daemon: whatever the configuration and the
-- system, the thread is in order when it serves, or has ended without a server.
pub run-thread_ok : (bind : Address → Bool) (c : Config) → thread_ok (run bind c create) ≡ true
unfolding run create
run-thread_ok bind c =
    serving-thread_ok bind _ (create_server bind c create).1 refl
      (create_server-is_alive bind c create)
