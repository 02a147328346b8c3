-- ===== src/GuestNetwork/Reply.antt =====
-- The collector reads from the server's reply the numbers that the server sent
-- (mom/Collectors/GuestNetworkDaemon.py).
use mom.Prelude.{◌≡◌, refl, ap, ◌∙◌, String, true, some, List, [], ◌∷◌, Result, ok, err, arith}
use mom.Prelude.Dict.{Dict, insert, update}
use mom.Prelude.Int.{ℤ}
use mom.Python.Arith.{append_text}
use mom.Python.Text.{split, parse_int}
use mom.Python.Text.Decimal.{parse_int-print_int}
use mom.Python.Text.Splitting.{free_of, split_free, split-append, free_of-append, free_of-print_int}
use mom.Python.Print.{print_int}
use mom.Python.Value.{Error, int}
use mom.Monitor.{stats}
use mom.GuestNetwork.{field, entry, parse_items, parse_reply, stats_reply, select, reported}

-- A field is one item: no comma, and one colon.
free_of-field : (key : String) (n : ℤ) → free_of b',' key ≡ true → free_of b',' (field key n) ≡ true
free_of-field key n h =
    free_of-append b',' key (append_text ":" (print_int n)) h
      (free_of-append b',' ":" (print_int n) refl (free_of-print_int b',' n refl refl))

entry_number :
    (key text : String) (n : ℤ) (result : Dict ℤ)
    → parse_int text ≡ some n
    → entry (key ∷ text ∷ []) result ≡ ok (insert key n result)
entry_number key text n result h = ground arith

entry-field :
    (key : String) (n : ℤ) (result : Dict ℤ)
    → free_of b':' key ≡ true
    → entry (split b':' (field key n)) result ≡ ok (insert key n result)
entry-field key n result h =
    ap (λ parts. entry parts result) parts_of
    ∙ entry_number key (print_int n) n result (parse_int-print_int n)
  where
    parts_of : split b':' (field key n) ≡ key ∷ print_int n ∷ []
    parts_of =
        split-append b':' key _ (print_int n) h refl
        ∙ ap (λ rest. key ∷ rest)
            (split_free b':' (print_int n) (free_of-print_int b':' n refl refl))

abbrev items_of : Dict ℤ → List String
items_of [] = []
items_of ((key, n) ∷ numbers) = field key n ∷ items_of numbers

abbrev KeysFree : Dict ℤ → Type 0
KeysFree [] = Unit
KeysFree ((key, n) ∷ numbers) = (free_of b':' key ≡ true) × KeysFree numbers

abbrev then_items : List String → Result Error (Dict ℤ) → Result Error (Dict ℤ)
then_items items (ok result) = parse_items items result
then_items items (err e) = err e

parse_items_next :
    (item : String) (items : List String) (result result' : Dict ℤ)
    → entry (split b':' item) result ≡ ok result'
    → parse_items (item ∷ items) result ≡ parse_items items result'
unfolding parse_items
parse_items_next item items result result' h = ap (λ r. then_items items r) h

parse_items-items_of :
    (numbers result : Dict ℤ)
    → KeysFree numbers
    → parse_items (items_of numbers) result ≡ ok (update result numbers)
unfolding parse_items
parse_items-items_of [] result h = refl
parse_items-items_of ((key, n) ∷ numbers) result h =
    parse_items_next (field key n) (items_of numbers) result (insert key n result)
      (entry-field key n result h.0)
    ∙ parse_items-items_of numbers (insert key n result) h.1

abbrev numbers_of : ℤ → ℤ → ℤ → ℤ → ℤ → ℤ → Dict ℤ
numbers_of a u i o j m =
    ("mem_available", a)
    ∷ ("mem_unused", u)
    ∷ ("swap_in", i)
    ∷ ("swap_out", o)
    ∷ ("major_fault", j)
    ∷ ("minor_fault", m)
    ∷ []

split-field :
    (key : String) (n : ℤ) (rest : String)
    → free_of b',' key ≡ true
    → split b',' (append_text (field key n) (append_text "," rest)) ≡ field key n ∷ split b',' rest
split-field key n rest h = split-append b',' (field key n) _ rest (free_of-field key n h) refl

split-stats_reply :
    (a u i o j m : ℤ) → split b',' (stats_reply a u i o j m) ≡ items_of (numbers_of a u i o j m)
unfolding stats_reply
split-stats_reply a u i o j m =
    rw
      (
        split-field "mem_available" a _ refl,
        split-field "mem_unused" u _ refl,
        split-field "swap_in" i _ refl,
        split-field "swap_out" o _ refl,
        split-field "major_fault" j _ refl,
        split_free b',' (field "minor_fault" m) (free_of-field "minor_fault" m refl),
      )
      refl

free_of_newline-field :
    (key : String) (n : ℤ) → free_of b'\n' key ≡ true → free_of b'\n' (field key n) ≡ true
free_of_newline-field key n h =
    free_of-append b'\n' key (append_text ":" (print_int n)) h
      (free_of-append b'\n' ":" (print_int n) refl (free_of-print_int b'\n' n refl refl))

free_of_newline_next :
    (key : String) (n : ℤ) (rest : String)
    → free_of b'\n' key ≡ true
    → free_of b'\n' rest ≡ true
    → free_of b'\n' (append_text (field key n) (append_text "," rest)) ≡ true
free_of_newline_next key n rest h k =
    free_of-append b'\n' (field key n) (append_text "," rest) (free_of_newline-field key n h) k

-- the reply is one line
pub free_of-stats_reply : (a u i o j m : ℤ) → free_of b'\n' (stats_reply a u i o j m) ≡ true
unfolding stats_reply
free_of-stats_reply a u i o j m = free_of_newline_next "mem_available" a _ refl (
    free_of_newline_next "mem_unused" u _ refl (
      free_of_newline_next "swap_in" i _ refl (
        free_of_newline_next "swap_out" o _ refl (
          free_of_newline_next "major_fault" j _ refl
            (free_of_newline-field "minor_fault" m refl)))))

-- From the reply that the server makes of six numbers the collector reports the six, each under its
-- field; `mem_unused` is the number that the server got for free memory.
pub reported-stats_reply :
    (R : Type 0) (a u i o j m : ℤ)
    → reported {R = R} (parse_reply (stats_reply a u i o j m))
      ≡ stats (
          ("mem_available", int a)
          ∷ ("mem_unused", int u)
          ∷ ("major_fault", int j)
          ∷ ("minor_fault", int m)
          ∷ ("swap_in", int i)
          ∷ ("swap_out", int o)
          ∷ [])
unfolding parse_reply select
reported-stats_reply R a u i o j m =
    ap (λ r. reported {R = R} r)
      (ap (λ items. parse_items items []) (split-stats_reply a u i o j m)
        ∙ parse_items-items_of (numbers_of a u i o j m) []
            (refl, (refl, (refl, (refl, (refl, (refl, tt)))))))
