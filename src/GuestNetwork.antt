-- ===== src/GuestNetwork.antt =====
-- mom/Collectors/GuestNetworkDaemon.py: statistics of a guest over a socket, the collector on the host
-- and the server on the guest. Sockets are what their calls answer (GuestNetwork/Socket).
pub mod Socket
pub mod Reply
pub mod Collection
pub mod Address
use mom.Prelude.{
  String, Bool, true, false, Option, none, some, List, [], ◌∷◌, Result, ok, err, ◌==◌,
  if◌then◌else◌,
}
use mom.Prelude.Dict.{Dict, lookup, insert}
use mom.Prelude.Int.{ℤ}
use mom.Python.Arith.{append_text}
use mom.Python.Text.{split, parse_int}
use mom.Python.Print.{print_int}
use mom.Python.Value.{Error, index_error, value_error, type_error, Value, int}
use mom.Monitor.{Collected, stats, collection_error, crashed}
use mom.GuestNetwork.Socket.{Send, Recv, sock_send, sock_receive}

-- The collector: `self.ip`, whether it has a socket, and `self.state`.
pub record Client : Type 0 where
  pub ip : Option String
  pub connected : Bool
  pub dead : Bool

-- What the network does in one collection: whether `connect` succeeds, and the two calls' answers.
pub record Network : Type 0 where
  pub reachable : Bool
  pub sends : List Send
  pub receives : List Recv

abbrev or_value_error : Option ℤ → Result Error ℤ
or_value_error none = err value_error
or_value_error (some n) = ok n

-- result[parts[0]] = int(parts[1])
abbrev pub entry : List String → Dict ℤ → Result Error (Dict ℤ)
entry (key ∷ number ∷ parts) result = elim (or_value_error (parse_int number)) [
  | ok n ↦ ok (insert key n result)
  | err e ↦ err e
]
entry _ result = err index_error

unfoldable pub parse_items : List String → Dict ℤ → Result Error (Dict ℤ)
parse_items [] result = ok result
parse_items (item ∷ items) result = elim (entry (split b':' item) result) [
  | ok result' ↦ parse_items items result'
  | err e ↦ err e
]

unfoldable pub parse_reply : String → Result Error (Dict ℤ)
unfolding parse_items
parse_reply text = parse_items (split b',' text) []

abbrev pub fields : List String
fields =
    "mem_available" ∷ "mem_unused" ∷ "major_fault" ∷ "minor_fault" ∷ "swap_in" ∷ "swap_out" ∷ []

module _ {R : Type 0} where
  abbrev pub kept : String → Option ℤ → Dict (Value R) → Dict (Value R)
  kept key none rest = rest
  kept key (some n) rest = (key, int n) ∷ rest

  -- the entries of the declared fields
  unfoldable pub select : List String → Dict ℤ → Dict (Value R)
  select [] result = []
  select (key ∷ keys) result = kept key (lookup key result) (select keys result)

  abbrev pub reported : Result Error (Dict ℤ) → Collected R
  reported (ok result) = stats (select fields result)
  reported (err e) = crashed

  -- after the reply, or a socket.error
  abbrev pub answered : Option String → Client → Collected R × Client
  answered none c = (collection_error, record c { connected = false })
  answered (some reply) c = (reported (parse_reply reply), record c { dead = false })

  -- the request and the reply, over a socket
  unfoldable pub exchange : Network → Client → Collected R × Client
  unfolding select parse_reply
  exchange net c =
      if (sock_send net.sends "stats").0
      then answered (sock_receive net.receives).0 c
      else (collection_error, record c { connected = false })

  unfoldable pub connect : Network → Client → Collected R × Client
  unfolding exchange
  connect net c =
      if net.reachable
      then exchange net (record c { connected = true })
      else (collection_error, record c { connected = false })

  abbrev pub collect_from : Option String → Network → Client → Collected R × Client
  collect_from none net c = (collection_error, record c { dead = true })
  collect_from (some ip) net c = if c.connected then exchange net c else connect net c

  unfoldable pub collect : Network → Client → Collected R × Client
  unfolding exchange connect
  collect net c = if c.dead then (stats [], c) else collect_from c.ip net c

-- "key:%i"
abbrev pub field : String → ℤ → String
field key n = append_text key (append_text ":" (print_int n))

-- The reply to `stats`, from the numbers of the server's HostMemory collector and /proc/vmstat.
unfoldable pub stats_reply : ℤ → ℤ → ℤ → ℤ → ℤ → ℤ → String
stats_reply mem_available mem_free swap_in swap_out majflt minflt =
    append_text (field "mem_available" mem_available) (
      append_text "," (
        append_text (field "mem_unused" mem_free) (
          append_text "," (
            append_text (field "swap_in" swap_in) (
              append_text "," (
                append_text (field "swap_out" swap_out) (
                  append_text "," (
                    append_text (field "major_fault" majflt)
                      (append_text "," (field "minor_fault" minflt))))))))))

-- `%i` of None is a TypeError
unfoldable pub send_stats :
    Option ℤ → Option ℤ → Option ℤ → Option ℤ → Option ℤ → Option ℤ → Result Error String
unfolding stats_reply
send_stats (some a) (some u) (some i) (some o) (some j) (some m) = ok (stats_reply a u i o j m)
send_stats _ _ _ _ _ _ = err type_error

unfoldable pub props_reply : String → String → String
props_reply min_free max_free =
    append_text "min_free:" (append_text min_free (append_text ",max_free:" max_free))

-- What the server does for one command: a reply, an exception that ends the server, or the end of the
-- session. `stats`: the reply, or the exception of the collector or of a number that is None.
unfoldable pub reply_to : String → Result Error String → String → Option (Result Error String)
reply_to props stats_text cmd =
    if cmd == "props" then some (ok props) else if cmd == "stats" then some stats_text else none

-- One received command, or a socket.error, with the answers of the socket to the reply and the reply
-- to `stats` at that time.
pub record Request : Type 0 where
  pub command : Option String
  pub answers : List Send
  pub stats_text : Result Error String

abbrev pub after_send :
    Bool × String → Result Error (Unit {0}) × List String → Result Error (Unit {0}) × List String
after_send (true, sent) (r, replies) = (r, sent ∷ replies)
after_send (false, sent) rest = (ok tt, sent ∷ [])

abbrev pub serve :
    List Send
    → Option (Result Error String)
    → Result Error (Unit {0}) × List String
    → Result Error (Unit {0}) × List String
serve answers none rest = (ok tt, [])
serve answers (some (err e)) rest = (err e, [])
serve answers (some (ok reply)) rest = after_send (sock_send answers reply) rest

abbrev pub command_of : String → Result Error String → Option String → Option (Result Error String)
command_of props stats_text none = none
command_of props stats_text (some cmd) = reply_to props stats_text cmd

-- The loop of `session`: the replies that went out, in order, and an exception other than a
-- socket.error. It ends at the first socket.error and at the first unknown command.
unfoldable pub session : String → List Request → Result Error (Unit {0}) × List String
unfolding reply_to
session props [] = (ok tt, [])
session props (request ∷ requests) =
    serve request.answers (command_of props request.stats_text request.command)
      (session props requests)
