-- ===== src/GuestAgent.antt =====
-- mom/Collectors/QemuGuestAgentClient.py: the agent of a guest, over a unix socket. What the calls of
-- the sockets answer, one after another, is in the state; JSON, base64 and the clock are parameters. A
-- byte is a character with a code below 256.
pub mod Synchronisation
pub mod Choice
use Prim.Native.Char.{Char, code}
use mom.Prelude.{
  ℕ, zero, suc, String, Bool, true, false, Option, none, some, List, [], ◌∷◌, length, Result, ok,
  err, Exec, pure, raise, lift, gets, proceed, ◌>>=◌, ◌>>◌, eqb, ltb, if◌then◌else◌,
}
use mom.Prelude.Dict.{lookup, insert}
use mom.Prelude.Int.{ℤ}
use mom.Python.Arith.{append_text}
use mom.Python.Value.{Error, protocol_error, attribute_error, type_error, key_error, out_of_fuel}
use mom.Hypervisor.Json.{Json, null, num, txt, arr, obj, nil, stop, entry, dict_of, of_dict, truthy}
use mom.GuestNetwork.Socket.{Send, took, send_error, drop}
use mom.GuestNetwork.Socket.Framing.{size}
use mom.IoTune.Equality.{equal}

-- What `recv(1)` answers: a byte, nothing because the agent closed, or a timeout or an error.
pub data Read : Type 0 where
  byte : Char → Read
  closed : Read
  failed : Read

-- json.loads, json.dumps and base64.b64decode
pub record Codec : Type 0 where
  pub loads : String → Result Error Json
  pub dumps : Json → String
  pub b64decode : Json → Result Error Json

-- Whether the client has a socket, and what the next calls of connect, send and recv answer; when no
-- answer is left a call times out.
pub record Client : Type 0 where
  pub connected : Bool
  pub reachable : List Bool
  pub sends : List Send
  pub reads : List Read

abbrev pub T : Type 0 → Type 0
T A = Exec Client Error A

-- QemuAgentRet
pub record Ret : Type 0 where
  pub error : Json
  pub result : Json

-- self._sock_close(self.sock); self.sock = None; raise ProtocolError(...)
unfoldable pub broken : {A : Type 0} → T A
broken s = (err protocol_error, record s { connected = false })

-- The loop of `_sock_send`: whether everything was sent, and the answers that are left.
unfoldable pub send_all : List Send → String → Bool × List Send
send_all answers String.[] = (true, answers)
send_all [] (String.◌∷◌ c s) = (false, [])
send_all (took zero ∷ answers) (String.◌∷◌ c s) = (false, answers)
send_all (took (suc n) ∷ answers) (String.◌∷◌ c s) = send_all answers (drop n s)
send_all (send_error ∷ answers) (String.◌∷◌ c s) = (false, answers)

abbrev or_broken : Bool → T (Unit {0})
or_broken true s = (ok tt, s)
or_broken false s = (err protocol_error, record s { connected = false })

unfoldable pub sock_send : String → T (Unit {0})
unfolding send_all
sock_send msg s = let sent = send_all s.sends msg in or_broken sent.0 (record s { sends = sent.1 })

-- What `_sock_recv_until` ends with.
pub data Received : Type 0 where
  line : String → Received
  nothing : Received
  error : Received

abbrev too_long : String → Bool
too_long text = ltb 4096 (size text)

-- The loop of `_sock_recv_until` with the token b"\n", with the bytes that it has.
unfoldable pub recv_rest : List Read → String → Received × List Read
recv_rest [] text = (if too_long text then nothing else error, [])
recv_rest (failed ∷ reads) text =
    if too_long text then (nothing, failed ∷ reads) else (error, reads)
recv_rest (closed ∷ reads) text =
    if too_long text then (nothing, closed ∷ reads) else (nothing, reads)
recv_rest (byte c ∷ reads) text =
    let text' = append_text text (String.◌∷◌ c String.[]) in
    let rest = recv_rest reads text' in
    let next = if eqb (code c) b'\n' then (line text', reads) else rest in
    if too_long text then (nothing, byte c ∷ reads) else next

-- `none` is None
abbrev returned : Received → T (Option String)
returned (line text) s = (ok (some text), s)
returned nothing s = (ok none, s)
returned error s = (err protocol_error, record s { connected = false })

unfoldable pub sock_recv_until : T (Option String)
unfolding recv_rest
sock_recv_until s =
    let got = recv_rest s.reads String.[] in returned got.0 (record s { reads = got.1 })

-- self._sock_recv_until(sock, b"\n").decode('utf-8'); None has no decode
unfoldable pub recv_line : T String
unfolding sock_recv_until
recv_line = do text ← sock_recv_until; elim text [ none ↦ raise attribute_error | some t ↦ pure t ]

unfoldable pub is_number : ℤ → Option Json → Bool
unfolding equal
is_number seq none = false
is_number seq (some v) = equal v (num seq)

-- the test for the answer to guest-sync; of a list or a text no item is asked without a TypeError,
-- which is passed over
unfoldable pub answers_sync : ℤ → Json → Result Error Bool
unfolding is_number
answers_sync seq (obj fs) = ok (is_number seq (lookup "return" (dict_of fs)))
answers_sync seq (arr js) = ok false
answers_sync seq (txt s) = ok false
answers_sync seq _ = err type_error

abbrev pub request : String → Json → Json
request command arguments = obj (entry "execute" (txt command) (entry "arguments" arguments stop))

-- a reply, as a QemuAgentRet; of a list or a text no item can be read
unfoldable pub ret_of : Json → Result Error Ret
ret_of (obj fs) = elim (lookup "error" (dict_of fs)) [
  | some e ↦ ok (record { error = e; result = null })
  | none ↦ elim (lookup "return" (dict_of fs)) [
    | some d ↦ ok (record { error = null; result = d })
    | none ↦ err key_error
  ]
]
ret_of _ = err type_error

module _ (codec : Codec) where
  -- The loop of `_reset_conn`, one round for each unit of fuel: each round reads a byte or ends.
  unfoldable pub synchronise : ℕ → ℤ → T (Unit {0})
  unfolding recv_line answers_sync
  synchronise zero seq = raise out_of_fuel
  synchronise (suc fuel) seq =
      let again = synchronise fuel seq in
      do
        response ← recv_line
        answer ← lift (codec.loads response)
        found ← lift (answers_sync seq answer)
        if found then pure tt else again

  -- `_reset_conn`, with the number that the clock gives
  unfoldable pub reset_conn : ℤ → T (Unit {0})
  unfolding sock_send synchronise
  reset_conn seq = do
    sock_send (codec.dumps (request "guest-sync" (obj (entry "id" (num seq) stop))))
    fuel ← gets (λ s. suc (length s.reads))
    synchronise fuel seq

  abbrev or_unreachable : List Bool → ℤ → T (Unit {0})
  unfolding reset_conn broken
  or_unreachable [] seq s = broken s
  or_unreachable (false ∷ more) seq s = broken (record s { reachable = more })
  or_unreachable (true ∷ more) seq s =
      reset_conn seq (record s { connected = true; reachable = more })

  unfoldable pub connect : ℤ → T (Unit {0})
  unfolding or_unreachable
  connect seq s = or_unreachable s.reachable seq s

  unfoldable pub make_connection : ℤ → T (Unit {0})
  unfolding connect
  make_connection seq s = if s.connected then (ok tt, s) else connect seq s

  unfoldable pub call : ℤ → String → Json → T Ret
  unfolding make_connection sock_send recv_line ret_of
  call seq command arguments = do
    make_connection seq
    sock_send (codec.dumps (request command arguments))
    response ← recv_line
    answer ← lift (codec.loads response)
    lift (ret_of answer)

  unfoldable pub ping : ℤ → T Ret
  unfolding call
  ping seq = call seq "guest-ping" (obj stop)

  unfoldable pub file_open : ℤ → String → String → T Ret
  unfolding call
  file_open seq path mode =
      call seq "guest-file-open" (obj (entry "path" (txt path) (entry "mode" (txt mode) stop)))

  unfoldable pub file_close : ℤ → Json → T Ret
  unfolding call
  file_close seq handle = call seq "guest-file-close" (obj (entry "handle" handle stop))

  abbrev decoded : Ret → Result Error Ret
  decoded ret = elim ret.result [
    | obj fs ↦ elim (lookup "buf-b64" (dict_of fs)) [
      | none ↦ err key_error
      | some text ↦ elim (codec.b64decode text) [
        | err e ↦ err e
        | ok buf ↦ ok (record ret { result = obj (of_dict (insert "buf" buf (dict_of fs))) })
      ]
    ]
    | _ ↦ err type_error
  ]

  unfoldable pub file_read : ℤ → Json → ℤ → T Ret
  unfolding call
  file_read seq handle count = do
    ret ← call seq "guest-file-read" (obj (entry "handle" handle (entry "count" (num count) stop)))
    if truthy ret.result then lift (decoded ret) else pure ret
