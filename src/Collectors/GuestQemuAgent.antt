-- ===== src/Collectors/GuestQemuAgent.antt =====
-- mom/Collectors/GuestQemuAgent.py: statistics from files of the guest, which its agent reads. The
-- agents that the collector can use are a parameter, one for each of its sockets: what their commands
-- do to the world outside, `S`. A byte is a character with a code below 256. The decoding of bytes and
-- the numbers that regular expressions find are parameters too.
pub mod Files
use mom.Prelude.{
  ℕ, zero, suc, String, Bool, true, false, Option, none, some, List, [], ◌∷◌, Result, ok, err, Exec,
  pure, raise, lift, gets, modify, proceed, ◌>>=◌, ◌>>◌, ltb, if◌then◌else◌,
}
use mom.Prelude.Dict.{Dict, lookup}
use mom.Prelude.Int.{ℤ, ◌-ℤ◌, ◌+ℤ◌}
use mom.Python.Arith.{append_text}
use mom.Python.Value.{Error, protocol_error, attribute_error, type_error, key_error, out_of_fuel}
use mom.Hypervisor.Json.{Json, txt, obj, dict_of, truthy}
use mom.IoTune.Equality
use mom.GuestNetwork.Socket.Framing.{size}
use mom.GuestAgent.{Ret}

-- A CollectionError, or another exception.
pub data Failure : Type 0 where
  collection : Failure
  other : Error → Failure

-- QemuGuestAgentClient's api, on one socket
pub record Agent (S : Type 0) : Type 0 where
  pub ping : Exec S Error Ret
  pub file_open : String → Exec S Error Ret
  pub file_read : Json → ℕ → Exec S Error Ret
  pub file_close : Json → Exec S Error Ret

-- The collector, with the world.
pub record Collector (S : Type 0) : Type 0 where
  pub agent : Option (Agent S)
  pub swap_in : Option ℤ
  pub swap_out : Option ℤ
  pub world : S

abbrev data_problem : Option Json → Option Failure
data_problem none = none
data_problem (some (obj fs)) = none
data_problem (some _) = some (other attribute_error)

abbrev desc_problem : Option Json → Option Failure
desc_problem none = none
desc_problem (some (txt s)) = none
desc_problem (some _) = some (other type_error)

abbrev class_problem : Option Json → Failure
class_problem none = other key_error
class_problem (some _) = collection

abbrev first_problem : Option Failure → Option Failure → Failure → Failure
first_problem (some f) o g = f
first_problem none (some f) g = f
first_problem none none g = g

-- what an error of the agent raises, the message being made first
unfoldable pub raised : Json → Failure
raised (obj fs) =
    first_problem (data_problem (lookup "data" (dict_of fs)))
      (desc_problem (lookup "desc" (dict_of fs))) (class_problem (lookup "class" (dict_of fs)))
raised _ = other type_error

-- an exception in a command
abbrev failure : Error → Failure
failure protocol_error = collection
failure e = other e

unfoldable pub answered : Result Error Ret → Result Failure Json
unfolding raised
answered (err e) = err (failure e)
answered (ok ret) = if truthy ret.error then err (raised ret.error) else ok ret.result

abbrev buf_of : Option Json → Result Failure String
buf_of none = err (other key_error)
buf_of (some (txt s)) = ok s
buf_of (some _) = err (other type_error)

-- ret['buf'] and len(ret)
abbrev pub block : Json → Result Failure (String × ℕ)
block (obj fs) = elim (buf_of (lookup "buf" (dict_of fs))) [
  | ok s ↦ ok (s, Equality.size fs)
  | err f ↦ err f
]
block _ = err (other type_error)

abbrev pub from_bytes : Result Error String → Result Failure String
from_bytes (ok text) = ok text
from_bytes (err e) = err (other e)

abbrev usable : Result Error Ret → Bool
usable (err e) = false
usable (ok ret) = if truthy ret.error then false else true

-- None has no arithmetic
abbrev number : Option ℤ → Result Failure ℤ
number none = err (other type_error)
number (some n) = ok n

abbrev or_now : Option ℤ → Option ℤ → Option ℤ
or_now none now = now
or_now (some n) now = some n

module _ {S : Type 0} where
  unfoldable pub agent_cmd : Exec S Error Ret → Exec S Failure Json
  unfolding answered
  agent_cmd command s = let done = command s in (answered done.0, done.1)

  -- The loop of `getfile`, one round for each unit of fuel, with the bytes that it has.
  unfoldable pub read_blocks : ℕ → ℕ → Agent S → Json → String → Exec S Failure String
  unfolding agent_cmd
  read_blocks zero maximum agent handle text = raise (other out_of_fuel)
  read_blocks (suc fuel) maximum agent handle text = do
    ret ← agent_cmd (agent.file_read handle 1024)
    got ← lift (block ret)
    let text' = append_text text got.0
    let more = read_blocks fuel maximum agent handle text'
    if ltb got.1 1024
        then pure text'
        else if ltb maximum (size text')
        then raise collection
        else more

  -- `decode` is decode('utf-8') of the bytes; its exception is a UnicodeDecodeError
  unfoldable pub getfile :
      (String → Result Error String) → ℕ → ℕ → Agent S → String → Exec S Failure String
  unfolding agent_cmd read_blocks
  getfile decode fuel maximum agent path = do
    handle ← agent_cmd (agent.file_open path)
    text ← read_blocks fuel maximum agent handle ""
    agent_cmd (agent.file_close handle)
    lift (from_bytes (decode text))

  -- the loop of `connect`; every exception is passed over
  unfoldable pub try_all : List (Agent S) → S → Option (Agent S) × S
  try_all [] s = (none, s)
  try_all (agent ∷ agents) s =
      let done = agent.ping s in
      let rest = try_all agents done.1 in if usable done.0 then (some agent, done.1) else rest

  abbrev connected : Option (Agent S) → List (Agent S) → S → Option (Agent S) × S
  connected (some agent) sockets s = (some agent, s)
  connected none sockets s = try_all sockets s

  -- the agent, if there is one afterwards
  unfoldable pub connect : List (Agent S) → Exec (Collector S) Failure (Option (Agent S))
  unfolding try_all
  connect sockets c =
      let found = connected c.agent sockets c.world in
      (ok found.0, record c { agent = found.0; world = found.1 })

  -- an action on the world
  unfoldable pub outside : {A : Type 0} → Exec S Failure A → Exec (Collector S) Failure A
  outside m c = let done = m c.world in (done.0, record c { world = done.1 })

  module _ (decode : String → Result Error String) (parse_int : String → String → Option ℤ)
      (sockets : List (Agent S)) (fuel : ℕ) where
    -- the statistics, from the two files; a number that was not found is None
    unfoldable pub report : String → String → Exec (Collector S) Failure (Dict (Option ℤ))
    report meminfo vmstat c =
        (do
          unused ← lift (number (parse_int "^MemFree: (.*) kB" meminfo))
          buffers ← lift (number (parse_int "^Buffers: (.*) kB" meminfo))
          cached ← lift (number (parse_int "^Cached: (.*) kB" meminfo))
          let now_in = parse_int "^pswpin (.*)" vmstat
          let now_out = parse_int "^pswpout (.*)" vmstat
          modify (λ c. record c { swap_in = now_in; swap_out = now_out })
          in_cur ← lift (number now_in)
          in_prev ← lift (number (or_now c.swap_in now_in))
          out_cur ← lift (number now_out)
          out_prev ← lift (number (or_now c.swap_out now_out))
          swap_total ← lift (number (parse_int "^SwapTotal: (.*) kB" meminfo))
          swap_free ← lift (number (parse_int "^SwapFree: (.*) kB" meminfo))
          pure (
              ("mem_available", parse_int "^MemTotal: (.*) kB" meminfo)
              ∷ ("mem_unused", some unused)
              ∷ ("mem_free", some (unused +ℤ buffers +ℤ cached))
              ∷ ("swap_in", some (in_cur -ℤ in_prev))
              ∷ ("swap_out", some (out_cur -ℤ out_prev))
              ∷ ("major_fault", parse_int "^pgmajfault (.*)" vmstat)
              ∷ ("minor_fault", parse_int "^pgfault (.*)" vmstat)
              ∷ ("swap_total", some swap_total)
              ∷ ("swap_usage", some (swap_total -ℤ swap_free))
              ∷ []))
          c

    unfoldable pub collect : Exec (Collector S) Failure (Dict (Option ℤ))
    unfolding connect outside getfile report
    collect = do
      found ← connect sockets
      elim found [
        | none ↦ raise collection
        | some agent ↦ do
          meminfo ← outside (getfile decode fuel 1048576 agent "/proc/meminfo")
          vmstat ← outside (getfile decode fuel 1048576 agent "/proc/vmstat")
          report meminfo vmstat
      ]
