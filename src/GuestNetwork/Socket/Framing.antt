-- ===== src/GuestNetwork/Socket/Framing.antt =====
-- A message that is sent arrives, however the two sockets cut it into pieces.
use Prim.Native.Char.{code}
use mom.Prelude.{
  ℕ, zero, suc, ◌+◌, ◌≤◌, ◌<◌, ◌≡◌, refl, sym, ap, ◌∙◌, String, Bool, true, false, some, List, [],
  ◌∷◌, ◌++◌, length, eqb, arith,
}
use mom.Python.Arith.{append_text}
use mom.Python.Text.Splitting.{free_of}
use mom.GuestNetwork.Socket.{
  Send, took, send_error, Recv, chunk, take, drop, send_rest, sock_send, ends_line, is_empty,
  strip_lines, received, receive_rest, sock_receive,
}

append_text_assoc :
    (s t u : String) → append_text (append_text s t) u ≡ append_text s (append_text t u)
append_text_assoc String.[] t u = refl
append_text_assoc (String.◌∷◌ c s) t u = ap (λ x. String.◌∷◌ c x) (append_text_assoc s t u)

append_text-nil : (s : String) → append_text s "" ≡ s
append_text-nil String.[] = refl
append_text-nil (String.◌∷◌ c s) = ap (λ x. String.◌∷◌ c x) (append_text-nil s)

-- Sending.
take-drop : (n : ℕ) (s : String) → append_text (take n s) (drop n s) ≡ s
take-drop zero s = refl
take-drop (suc n) String.[] = refl
take-drop (suc n) (String.◌∷◌ c s) = ap (λ x. String.◌∷◌ c x) (take-drop n s)

abbrev pub size : String → ℕ
size String.[] = 0
size (String.◌∷◌ c s) = suc (size s)

size-drop : (n : ℕ) (s : String) → size (drop n s) ≤ size s
size-drop zero s = omega arith
size-drop (suc n) String.[] = omega arith
size-drop (suc n) (String.◌∷◌ c s) = omega (arith, size-drop n s)

-- Every answer takes at least one byte.
abbrev pub AllTake : List Send → Type 0
AllTake [] = Unit
AllTake (took n ∷ answers) = (0 < n) × AllTake answers
AllTake (send_error ∷ answers) = ⊥

send_rest_all :
    (answers : List Send) (s : String)
    → AllTake answers
    → size s ≤ length answers
    → send_rest answers s ≡ (true, s)
unfolding send_rest
send_rest_all answers String.[] a h = refl
send_rest_all [] (String.◌∷◌ c s) a h = absurd (omega arith)
send_rest_all (took zero ∷ answers) (String.◌∷◌ c s) a h = absurd (omega (arith, a.0))
send_rest_all (took (suc n) ∷ answers) (String.◌∷◌ c s) a h =
    rw (send_rest_all answers (drop n s) a.1 (omega (arith, size-drop n s)))
      (ap (λ x. (true, String.◌∷◌ c x)) (take-drop n s))
send_rest_all (send_error ∷ answers) (String.◌∷◌ c s) a h = elim a [ ]

-- Receiving.
abbrev pub joined : List String → String
joined [] = ""
joined (c ∷ cs) = append_text c (joined cs)

abbrev pub AllNonempty : List String → Type 0
AllNonempty [] = Unit
AllNonempty (c ∷ cs) = (is_empty c ≡ false) × AllNonempty cs

abbrev pub chunks : List String → List Recv
chunks [] = []
chunks (c ∷ cs) = chunk c ∷ chunks cs

abbrev tail : String → String
tail String.[] = ""
tail (String.◌∷◌ c s) = s

abbrev head_is_newline : String → Bool
head_is_newline String.[] = false
head_is_newline (String.◌∷◌ c s) = eqb (code c) b'\n'

is_empty-append : (s t : String) → is_empty t ≡ false → is_empty (append_text s t) ≡ false
is_empty-append String.[] t h = h
is_empty-append (String.◌∷◌ c s) t h = refl

is_empty-append_left : (s t : String) → is_empty s ≡ false → is_empty (append_text s t) ≡ false
is_empty-append_left String.[] t h = ground arith
is_empty-append_left (String.◌∷◌ c s) t h = refl

size-line : (s : String) → size (append_text s "\n") ≡ size s + 1
size-line String.[] = refl
size-line (String.◌∷◌ c s) = omega (arith, size-line s)

-- a proper part of a line has no newline
free_of_part :
    (part rest msg : String)
    → free_of b'\n' msg ≡ true
    → is_empty rest ≡ false
    → append_text part rest ≡ append_text msg "\n"
    → free_of b'\n' part ≡ true
free_of_part String.[] rest msg f r e = refl
free_of_part (String.◌∷◌ c part) rest String.[] f r e =
    absurd (ground (arith, ap (λ x. is_empty (tail x)) e, is_empty-append part rest r))
free_of_part (String.◌∷◌ c part) rest (String.◌∷◌ d msg) f r e =
    ground (arith, ap head_is_newline e, free_of_part part rest msg (ground arith) r (ap tail e))

ends_line_free : (s : String) → free_of b'\n' s ≡ true → ends_line s ≡ false
unfolding ends_line
ends_line_free String.[] f = refl
ends_line_free (String.◌∷◌ c String.[]) f = ground arith
ends_line_free (String.◌∷◌ c (String.◌∷◌ d s)) f = ends_line_free (String.◌∷◌ d s) (ground arith)

ends_line_whole : (msg : String) → ends_line (append_text msg "\n") ≡ true
unfolding ends_line
ends_line_whole String.[] = refl
ends_line_whole (String.◌∷◌ c String.[]) = refl
ends_line_whole (String.◌∷◌ c (String.◌∷◌ d s)) = ends_line_whole (String.◌∷◌ d s)

strip_lines_whole :
    (msg : String) → free_of b'\n' msg ≡ true → strip_lines (append_text msg "\n") ≡ msg
unfolding strip_lines
strip_lines_whole String.[] f = refl
strip_lines_whole (String.◌∷◌ c s) f = ground (arith, strip_lines_whole s)

received_whole :
    (msg : String) → free_of b'\n' msg ≡ true → received (append_text msg "\n") ≡ some msg
received_whole String.[] f = unfold strip_lines in refl
received_whole (String.◌∷◌ c s) f = ap some (strip_lines_whole (String.◌∷◌ c s) f)

receive_rest-chunks :
    (acc : String) (cs : List String) (msg : String) (more : List Recv)
    → free_of b'\n' msg ≡ true
    → AllNonempty cs
    → is_empty (joined cs) ≡ false
    → append_text acc (joined cs) ≡ append_text msg "\n"
    → receive_rest acc (chunks cs ++ more) ≡ (some msg, more)
unfolding receive_rest
receive_rest-chunks acc [] msg more f ne r e = ground arith
receive_rest-chunks acc (String.[] ∷ cs) msg more f ne r e = absurd (ground (arith, ne.0))
receive_rest-chunks acc (String.◌∷◌ c s ∷ []) msg more f ne r e =
    rw (whole, ends_line_whole msg, received_whole msg f) refl
  where
    whole : append_text acc (String.◌∷◌ c s) ≡ append_text msg "\n"
    whole = ap (λ x. append_text acc x) (sym (append_text-nil (String.◌∷◌ c s))) ∙ e
receive_rest-chunks acc (String.◌∷◌ c s ∷ d ∷ cs) msg more f ne r e =
    rw
      (ends_line_free (append_text acc (String.◌∷◌ c s))
        (free_of_part _ (joined (d ∷ cs)) msg f left parts))
      (receive_rest-chunks (append_text acc (String.◌∷◌ c s)) (d ∷ cs) msg more f ne.1 left parts)
  where
    left : is_empty (joined (d ∷ cs)) ≡ false
    left = is_empty-append_left d (joined cs) ne.1.0

    parts : append_text (append_text acc (String.◌∷◌ c s)) (joined (d ∷ cs)) ≡ append_text msg "\n"
    parts = append_text_assoc acc (String.◌∷◌ c s) (joined (d ∷ cs)) ∙ e

pub sock_send_all :
    (msg : String) (answers : List Send)
    → AllTake answers
    → size msg < length answers
    → sock_send answers msg ≡ (true, append_text msg "\n")
unfolding sock_send
sock_send_all msg answers a h =
    send_rest_all answers (append_text msg "\n") a (omega (arith, size-line msg))

pub sock_receive_line :
    (msg : String) (cs : List String) (more : List Recv)
    → free_of b'\n' msg ≡ true
    → AllNonempty cs
    → joined cs ≡ append_text msg "\n"
    → sock_receive (chunks cs ++ more) ≡ (some msg, more)
unfolding sock_receive
sock_receive_line msg cs more f ne e =
    receive_rest-chunks "" cs msg more f ne (rw e (is_empty-append msg "\n" refl)) e

-- A message without a newline that is sent over a socket which takes at least one byte each time
-- goes out whole; and however those bytes are cut into chunks, `sock_receive` gives the message and
-- leaves what follows.
pub sock_receive-sock_send :
    (msg : String) (answers : List Send) (cs : List String) (more : List Recv)
    → free_of b'\n' msg ≡ true
    → AllTake answers
    → size msg < length answers
    → AllNonempty cs
    → joined cs ≡ (sock_send answers msg).1
    → ((sock_send answers msg).0 ≡ true) × (sock_receive (chunks cs ++ more) ≡ (some msg, more))
sock_receive-sock_send msg answers cs more f a h ne e = (
  ap (λ x. x.0) (sock_send_all msg answers a h),
  sock_receive_line msg cs more f ne (e ∙ ap (λ x. x.1) (sock_send_all msg answers a h)),
)
