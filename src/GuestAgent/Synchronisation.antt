-- ===== src/GuestAgent/Synchronisation.antt =====
-- The guest-sync exchange of mom/Collectors/QemuGuestAgentClient.py.
use Prim.Native.Char.{Char}
use mom.Prelude.{
  ℕ, zero, suc, ◌+◌, ◌≤◌, ◌<◌, ◌≡◌, refl, ap, ◌∙◌, String, Bool, true, false, List, [], ◌∷◌, length,
  pure, ok, ◌>>=◌, arith, if◌then◌else◌,
}
use mom.Prelude.Int.{ℤ, pos}
use mom.Python.Arith.{append_text}
use mom.Python.Text.Splitting.{free_of}
use mom.Prelude.{Option, none, some}
use mom.Prelude.Dict.{lookup}
use mom.Prelude.Int.{eqb_ℤ}
use mom.IoTune.Equality.{equal, eqb_ℤ_refl}
use mom.Hypervisor.Json.{Json, Fields, obj, entry, num, null, flag, txt, arr, stop, dict_of}
use mom.GuestNetwork.Socket.{Send}
use mom.GuestNetwork.Socket.Framing.{size}
use mom.GuestAgent.{
  Codec, Client, T, Read, byte, line, answers_sync, is_number, request, send_all, sock_send,
  recv_rest, sock_recv_until, recv_line, synchronise, reset_conn,
}

-- The reads of a text, byte by byte, before others.
abbrev pub bytes : String → List Read → List Read
bytes String.[] more = more
bytes (String.◌∷◌ c s) more = byte c ∷ bytes s more

-- The reads of lines, before others.
abbrev pub lines : List String → List Read → List Read
lines [] more = more
lines (l ∷ ls) more = bytes (append_text l "\n") (lines ls more)

-- A line that fits: at most 4096 bytes before its newline.
abbrev pub Line : String → Type 0
Line l = (free_of b'\n' l ≡ true) × (size l ≤ 4096)

-- A reply's `return` that is not there, or is another number, or no number; True and False count as 1
-- and 0.
abbrev pub Differs : ℤ → Option Json → Type 0
Differs seq none = Unit
Differs seq (some (num n)) = eqb_ℤ n seq ≡ false
Differs seq (some (flag true)) = eqb_ℤ (pos 1) seq ≡ false
Differs seq (some (flag false)) = eqb_ℤ (pos 0) seq ≡ false
Differs seq (some _) = Unit

module _ (codec : Codec) (seq : ℤ) where
  -- What a line says in the exchange, to be the answer or not.
  abbrev Says : Bool → String → Type 0
  Says found l =
      Line l
      × (answer : Json) × (codec.loads (append_text l "\n") ≡ ok answer)
      × (answers_sync seq answer ≡ ok found)

  -- A line with the answer: a dictionary whose `return` is the number of the request.
  abbrev pub Answer : String → Type 0
  Answer l =
      Line l
      × (fs : Fields) × (codec.loads (append_text l "\n") ≡ ok (obj fs))
      × (lookup "return" (dict_of fs) ≡ some (num seq))

  -- A line that was left by an earlier exchange: a dictionary whose `return` is not that number.
  abbrev pub Stale : String → Type 0
  Stale l =
      Line l
      × (fs : Fields) × (codec.loads (append_text l "\n") ≡ ok (obj fs))
      × Differs seq (lookup "return" (dict_of fs))

  abbrev pub AllStale : List String → Type 0
  AllStale [] = Unit
  AllStale (l ∷ ls) = Stale l × AllStale ls

  Answer-Says : (l : String) → Answer l → Says true l
  unfolding answers_sync is_number equal
  Answer-Says l (fits, fs, loaded, same) =
      (fits, obj fs, loaded, ground (arith, same, eqb_ℤ_refl seq))

  answers_sync-Differs :
      (fs : Fields)
      → Differs seq (lookup "return" (dict_of fs))
      → answers_sync seq (obj fs) ≡ ok false
  unfolding answers_sync is_number equal
  answers_sync-Differs fs d = ap ok (by_return (lookup "return" (dict_of fs)) d)
    where
      by_return : (o : Option Json) → Differs seq o → is_number seq o ≡ false
      by_return none d = refl
      by_return (some (num n)) d = d
      by_return (some (flag true)) d = d
      by_return (some (flag false)) d = d
      by_return (some null) d = refl
      by_return (some (txt _)) d = refl
      by_return (some (arr _)) d = refl
      by_return (some (obj _)) d = refl

append_one :
    (acc s : String) (c : Char)
    → append_text (append_text acc (String.◌∷◌ c String.[])) s ≡ append_text acc (String.◌∷◌ c s)
append_one String.[] s c = refl
append_one (String.◌∷◌ d acc) s c = ap (String.◌∷◌ d) (append_one acc s c)

size_one :
    (acc : String) (c : Char) → size (append_text acc (String.◌∷◌ c String.[])) ≡ size acc + 1
size_one String.[] c = refl
size_one (String.◌∷◌ d acc) c = omega (arith, size_one acc c)

recv_rest-line :
    (l acc : String) (more : List Read)
    → free_of b'\n' l ≡ true
    → size acc + size l ≤ 4096
    → recv_rest (bytes (append_text l "\n") more) acc
      ≡ (line (append_text acc (append_text l "\n")), more)
unfolding recv_rest
recv_rest-line String.[] acc more f h = ground arith
recv_rest-line (String.◌∷◌ c s) acc more f h = ground (
  arith,
  size_one acc c,
  append_one acc (append_text s "\n") c,
  recv_rest-line s (append_text acc (String.◌∷◌ c String.[])) more (ground (arith, f))
      (omega (arith, size_one acc c)),
)

abbrev pub reading : Client → List Read → Client
reading s reads = record s { reads = reads }

recv_line-Line :
    (s : Client) (l : String) (more : List Read)
    → Line l
    → recv_line (reading s (bytes (append_text l "\n") more))
      ≡ (ok (append_text l "\n"), reading s more)
unfolding recv_line sock_recv_until ◌>>=◌
recv_line-Line s l more (f, h) = rw (recv_rest-line l "" more f (omega (arith, h)))

length-bytes : (t : String) (more : List Read) → length more ≤ length (bytes t more)
length-bytes String.[] more = omega arith
length-bytes (String.◌∷◌ c t) more = omega (arith, length-bytes t more)

length-line :
    (l : String) (more : List Read) → length more < length (bytes (append_text l "\n") more)
length-line String.[] more = omega arith
length-line (String.◌∷◌ c l) more = omega (arith, length-line l more)

length-lines :
    (ls : List String) (more : List Read) → length ls + length more ≤ length (lines ls more)
length-lines [] more = omega arith
length-lines (l ∷ ls) more = omega (arith, length-lines ls more, length-line l (lines ls more))

choose :
    {A : Type 0} (b : Bool) (m n : T A) (s : Client)
    → (if b then m else n) s ≡ (if b then m s else n s)
choose true m n s = refl
choose false m n s = refl

module _ (codec : Codec) (seq : ℤ) where
  -- a round of the loop
  round :
      (fuel : ℕ) (s : Client) (l : String) (more : List Read) (found : Bool)
      → Says codec seq found l
      → synchronise codec (suc fuel) seq (reading s (bytes (append_text l "\n") more))
        ≡ (if found then (ok tt, reading s more) else synchronise codec fuel seq (reading s more))
  unfolding synchronise ◌>>=◌
  round fuel s l more found (fits, answer, loaded, says) =
      rw (recv_line-Line s l more fits, loaded, says)
        (choose found (pure tt) (synchronise codec fuel seq) (reading s more))

  synchronise-stale :
      (ls : List String) (fuel : ℕ) (s : Client) (g : String) (more : List Read)
      → AllStale codec seq ls
      → Answer codec seq g
      → length ls < fuel
      → synchronise codec fuel seq (reading s (lines ls (bytes (append_text g "\n") more)))
        ≡ (ok tt, reading s more)
  synchronise-stale [] (suc fuel) s g more stale good h =
      round fuel s g more true (Answer-Says codec seq g good)
  synchronise-stale (l ∷ ls) (suc fuel) s g more (now, stale) good h =
      round fuel s l (lines ls (bytes (append_text g "\n") more)) false
        (now.0, obj now.1, now.2, answers_sync-Differs codec seq now.1 now.3)
      ∙ synchronise-stale ls fuel s g more stale good (omega (arith, h))
  synchronise-stale ls zero s g more stale good h = absurd (omega (arith, h))

  -- If the request goes out whole, and the agent has left any number of lines before the answer, each
  -- a dictionary in at most 4096 bytes whose `return` is missing or not the number of the request, and
  -- the answer is such a line with that number, then the exchange succeeds, however many stale lines
  -- there are, and what is read next is what follows the answer.
  pub reset_conn-synchronised :
      (s : Client) (left : List Send) (ls : List String) (g : String) (more : List Read)
      → send_all s.sends (codec.dumps (request "guest-sync" (obj (entry "id" (num seq) stop))))
        ≡ (true, left)
      → AllStale codec seq ls
      → Answer codec seq g
      → s.reads ≡ lines ls (bytes (append_text g "\n") more)
      → reset_conn codec seq s ≡ (ok tt, record s { sends = left; reads = more })
  unfolding reset_conn sock_send ◌>>=◌
  reset_conn-synchronised s left ls g more sent stale good reads =
      after_request
      ∙ ap (λ r. synchronise codec (suc (length r)) seq (record s { sends = left; reads = r }))
          reads
      ∙ synchronise-stale ls (suc (length (lines ls (bytes (append_text g "\n") more))))
          (record s { sends = left }) g more stale good enough
    where
      after_request :
          reset_conn codec seq s
          ≡ synchronise codec (suc (length s.reads)) seq (record s { sends = left })
      after_request = rw sent

      enough : length ls < suc (length (lines ls (bytes (append_text g "\n") more)))
      enough = omega (arith, length-lines ls (bytes (append_text g "\n") more))
