-- ===== src/Samples/Agents.antt =====
-- The agent of a guest: its synchronisation, and a file that it reads.
use mom.Prelude.{String, ◌≡◌, refl, true, false, ◌==◌, [], ◌∷◌, ok, err, arith, if◌then◌else◌}
use mom.Prelude.Int.{ℤ, pos}
use mom.Python.Value.{value_error}
use mom.Hypervisor.Json.{Json, Fields, null, flag, num, txt, obj, stop, entry}
use mom.GuestNetwork.Socket.{took, take, drop}
use mom.GuestAgent.{Codec, Client, Ret, send_all, reset_conn}
use mom.GuestAgent.Synchronisation.{bytes, lines, Stale, Answer, reset_conn-synchronised}
use mom.Collectors.GuestQemuAgent.{Agent, from_bytes, getfile}
use mom.Collectors.GuestQemuAgent.Files.{Serves, getfile-first}

-- a codec that knows three replies
abbrev reply : ℤ → Json
reply n = obj (entry "return" (num n) stop)

abbrev codec : Codec
codec = record {
  loads = λ text.
      if text == "{5}\n"
      then ok (reply (pos 5))
      else if text == "{6}\n"
      then ok (reply (pos 6))
      else if text == "{}\n"
      then ok (obj (entry "return" (obj stop) stop))
      else err value_error;
  dumps = λ j. "sync";
  b64decode = λ j. ok j;
}

abbrev waiting : Client
waiting = record {
  connected = true;
  reachable = [];
  sends = took 4 ∷ [];
  reads = lines ("{5}" ∷ "{}" ∷ []) (bytes "{6}\n" []);
}

sent : send_all (took 4 ∷ []) "sync" ≡ (true, [])
unfolding send_all
sent = refl

stale : Stale codec (pos 6) "{5}"
stale = ((refl, omega arith), entry "return" (num (pos 5)) stop, refl, refl)

-- the answer to guest-ping
empty_return : Stale codec (pos 6) "{}"
empty_return = ((refl, omega arith), entry "return" (obj stop) stop, refl, tt)

answer : Answer codec (pos 6) "{6}"
answer = ((refl, omega arith), entry "return" (num (pos 6)) stop, refl, refl)

reset_conn-synchronised_example :
    reset_conn codec (pos 6) waiting ≡ (ok tt, record waiting { sends = []; reads = [] })
reset_conn-synchronised_example =
    reset_conn-synchronised codec (pos 6) waiting [] ("{5}" ∷ "{}" ∷ []) "{6}" [] sent
      (stale, (empty_return, tt)) answer refl

-- an agent with one file; the world is what is left of it to read
abbrev good : Json → Ret
good j = record { error = null; result = j }

abbrev block : String → Fields
block text = entry "buf" (txt text) (entry "eof" (flag false) stop)

abbrev contents : String
contents = "MemTotal: 5 kB\n"

abbrev served : Agent String
served = record {
  ping = λ s. (ok (good (obj stop)), s);
  file_open = λ path s. (ok (good (num (pos 1))), contents);
  file_read = λ handle n s. (ok (good (obj (block (take n s)))), drop n s);
  file_close = λ handle s. (ok (good (obj stop)), s);
}

served-Serves : Serves served "/proc/meminfo" contents (λ s handle. s)
served-Serves = record {
  opening = λ s. (good (num (pos 1)), contents, refl, refl, refl);
  reading = λ handle n s. (
    good (obj (block (take n s))),
    drop n s,
    block (take n s),
    refl,
    refl,
    refl,
    refl,
    omega arith,
    refl,
  );
  closing = λ handle s. (good (obj stop), s, refl, refl);
}

getfile-first_example :
    (s' : String) × (getfile ok 7 1048576 served "/proc/meminfo" ""
      ≡ (from_bytes (ok (take 1024 contents)), s'))
getfile-first_example =
    getfile-first served "/proc/meminfo" contents (λ s handle. s) ok 6 1048576 "" served-Serves
