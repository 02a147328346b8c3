-- ===== src/Daemon/Server.antt =====
-- mom/RPCServer.py and mom/LogUtils.py. A server that listens is XML-RPC code of the Python library:
-- `bind` says whether it could be created at an address.
pub mod Laws
use mom.Prelude.{
  String, Bool, true, false, Option, none, some, Result, Exec, pure, raise, lift, modify, ◌>>=◌,
  ◌==◌, ok, err, ◌||◌, if◌then◌else◌,
}
use mom.Prelude.Int.{ℤ, pos, negsuc, ltb_ℤ, leb_ℤ}
use mom.Python.Value.{Error, key_error, type_error, connection_error}
use mom.Python.Arith.{append_text}
use mom.Python.Print.{print_int}
use mom.Python.Text.{parse_int}
use mom.Daemon.Config.{Config, option}

-- big_int_marshaller: the text that is written for an integer; 2 ** 31 is 2147483648
unfoldable pub big_int_marshaller : ℤ → String
big_int_marshaller value =
    if leb_ℤ (pos 2147483648) value || leb_ℤ value (negsuc 2147483647)
    then append_text "<value><i8>" (append_text (print_int value) "</i8></value>")
    else append_text "<value><int>" (append_text (print_int value) "</int></value>")

pub data Address : Type 0 where
  unix : String → Address
  -- ("localhost", port)
  tcp : ℤ → Address

pub record RpcServer : Type 0 where
  pub server : Option Address
  pub is_alive : Bool

-- The thread has started.
unfoldable pub create : RpcServer
create = record { server = none; is_alive = true }

abbrev pub in_order : Option Address → Bool → Bool
in_order none is_alive = true
in_order (some a) is_alive = is_alive

unfoldable pub thread_ok : RpcServer → Bool
thread_ok s = in_order s.server s.is_alive

-- an empty text is neither a port nor a path: the address is ("localhost", None)
abbrev pub unix_address : String → Result Error (Option Address)
unix_address path = if path == "" then err type_error else ok (some (unix path))

abbrev pub tcp_address : ℤ → Option Address
tcp_address port = if ltb_ℤ port (pos 0) then none else some (tcp port)

-- the option rpc-port; a text that is no number is the path of a socket
unfoldable pub address_of : Option String → Result Error (Option Address)
address_of none = err key_error
address_of (some text) = elim (parse_int text) [
  | none ↦ unix_address text
  | some port ↦ ok (tcp_address port)
]

module _ (bind : Address → Bool) where
  -- an address that cannot be bound is an OSError, a `connection_error` here
  abbrev pub listen : Option Address → Exec RpcServer Error (Unit {0})
  listen none = pure tt
  listen (some a) =
      if bind a then modify (λ s. record s { server = some a }) else raise connection_error

  unfoldable pub create_server : Config → Exec RpcServer Error (Unit {0})
  unfolding address_of option
  create_server c = do address ← lift (address_of (option "main" "rpc-port" c)); listen address

  abbrev pub serving : Option Address → RpcServer → RpcServer
  serving none s = record s { is_alive = false }
  serving (some a) s = s

  -- the thread up to the point where it serves, or has ended: every exception is logged
  unfoldable pub run : Config → RpcServer → RpcServer
  unfolding create_server
  run c s = let s' = (create_server c s).1 in serving s'.server s'

-- LogUtils.log_set_verbosity
pub data Level : Type 0 where
  debug info warn error critical : Level

unfoldable pub log_set_verbosity : String → Level
log_set_verbosity verbosity =
    if verbosity == "5" || verbosity == "debug"
    then debug
    else if verbosity == "4" || verbosity == "info"
    then info
    else if verbosity == "3" || verbosity == "warn"
    then warn
    else if verbosity == "2" || verbosity == "error"
    then error
    else if verbosity == "1" || verbosity == "critical"
    then critical
    else debug
