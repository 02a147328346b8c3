-- ===== src/GuestNetwork/Socket.antt =====
-- The messages of mom/Collectors/GuestNetworkDaemon.py. A socket is what its calls answer, one after
-- another; when no answer is left the call times out, which is a socket.error. A byte is a character
-- with a code below 256: the messages are ASCII, on which `decode` and `encode` change nothing.
pub mod Framing
use Prim.Native.Char.{Char, code}
use mom.Prelude.{
  ℕ, zero, suc, String, Bool, true, false, ◌&&◌, Option, none, some, List, [], ◌∷◌, eqb,
  if◌then◌else◌,
}
use mom.Python.Arith.{append_text}

-- What `send` answers: how many bytes it took, or a socket.error.
pub data Send : Type 0 where
  took : ℕ → Send
  send_error : Send

-- What `recv` answers: a chunk, empty when the peer closed, or a socket.error.
pub data Recv : Type 0 where
  chunk : String → Recv
  recv_error : Recv

-- s[:n] and s[n:]
abbrev pub take : ℕ → String → String
take zero s = String.[]
take (suc n) String.[] = String.[]
take (suc n) (String.◌∷◌ c s) = String.◌∷◌ c (take n s)

abbrev pub drop : ℕ → String → String
drop zero s = s
drop (suc n) String.[] = String.[]
drop (suc n) (String.◌∷◌ c s) = drop n s

abbrev pub before_rest : String → Bool × String → Bool × String
before_rest part (r, sent) = (r, append_text part sent)

-- The loop of `sock_send` on what is not sent yet: whether it ended without an error, and the bytes
-- that went out.
unfoldable pub send_rest : List Send → String → Bool × String
send_rest answers String.[] = (true, String.[])
send_rest [] (String.◌∷◌ c s) = (false, String.[])
send_rest (took zero ∷ answers) (String.◌∷◌ c s) = (false, String.[])
send_rest (took (suc n) ∷ answers) (String.◌∷◌ c s) =
    before_rest (String.◌∷◌ c (take n s)) (send_rest answers (drop n s))
send_rest (send_error ∷ answers) (String.◌∷◌ c s) = (false, String.[])

unfoldable pub sock_send : List Send → String → Bool × String
unfolding send_rest
sock_send answers msg = send_rest answers (append_text msg "\n")

-- msg[-1:] == b'\n'
unfoldable pub ends_line : String → Bool
ends_line String.[] = false
ends_line (String.◌∷◌ c String.[]) = eqb (code c) b'\n'
ends_line (String.◌∷◌ c (String.◌∷◌ d s)) = ends_line (String.◌∷◌ d s)

abbrev pub is_empty : String → Bool
is_empty String.[] = true
is_empty (String.◌∷◌ c s) = false

-- msg.rstrip(b"\n")
unfoldable pub strip_lines : String → String
strip_lines String.[] = String.[]
strip_lines (String.◌∷◌ c s) =
    let rest = strip_lines s in
    if eqb (code c) b'\n' && is_empty rest then String.[] else String.◌∷◌ c rest

-- the end of `sock_receive`: `none` is the socket.error
abbrev pub received : String → Option String
received String.[] = none
received (String.◌∷◌ c s) = some (strip_lines (String.◌∷◌ c s))

-- The loop of `sock_receive`, with what it has so far: the message, and the answers that are left.
unfoldable pub receive_rest : String → List Recv → Option String × List Recv
unfolding ends_line strip_lines
receive_rest msg [] = (none, [])
receive_rest msg (recv_error ∷ answers) = (none, answers)
receive_rest msg (chunk String.[] ∷ answers) = (received msg, answers)
receive_rest msg (chunk (String.◌∷◌ c s) ∷ answers) =
    let msg' = append_text msg (String.◌∷◌ c s) in
    let rest = receive_rest msg' answers in
    if ends_line msg' then (received msg', answers) else rest

unfoldable pub sock_receive : List Recv → Option String × List Recv
unfolding receive_rest
sock_receive answers = receive_rest "" answers
