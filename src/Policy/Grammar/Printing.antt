-- ===== src/Policy/Grammar/Printing.antt =====
-- Trees as tokens: what is written in brackets is read back (mom/Policy/Parser.py, class Parser).
use mathlib.Core.List.{append-nil, append_assoc}
use mom.Prelude.{String, Option, some, List, [], ◌∷◌, ◌++◌, ◌≡◌, refl, ok}
use mom.Policy.Code
use mom.Policy.Code.{Code, Codes, form, nil, cons, to_list}
use mom.Policy.Grammar.{
  Lexeme, opening, closing, atom, round, IsValue, IsValues, token, empty, full, one, more, get_code,
  IsParser, Parsed,
}
use mom.Policy.Grammar.Reader.{read-IsValues, get_code-read, reading-read}

unfoldable mutual
  -- the tokens of a tree, its lists in round brackets, before other tokens
  pub written : Code → List Lexeme → List Lexeme
  written (Code.atom t) rest = atom t ∷ rest
  written (form cs) rest = opening round ∷ written_all cs (closing round ∷ rest)

  pub written_all : Codes → List Lexeme → List Lexeme
  written_all nil rest = rest
  written_all (cons c cs) rest = written c (written_all cs rest)

of_list-to_list : (cs : Codes) → Code.of_list (to_list cs) ≡ cs
of_list-to_list nil = refl
of_list-to_list (cons c cs) = λ i. cons c (of_list-to_list cs i)

mutual
  unfolding written

  written-IsValue : (c : Code) (rest : List Lexeme) → IsValue (written c rest) c rest
  written-IsValue (Code.atom t) rest = token
  written-IsValue (form nil) rest = empty
  written-IsValue (form (cons c cs)) rest =
      rw (of_list-to_list cs) at
        (full (written_all-IsValues cs (c ∷ []) (closing round ∷ rest) (one (written-IsValue c _))))

  written_all-IsValues :
      {ts : List Lexeme} (cs : Codes) (before : List Code) (rest : List Lexeme)
      → IsValues ts before (written_all cs rest)
      → IsValues ts (before ++ to_list cs) rest
  written_all-IsValues nil before rest d = rw append-nil d
  written_all-IsValues (cons c cs) before rest d =
      rw (← append_assoc before (c ∷ []) (to_list cs))
        (written_all-IsValues cs (before ++ c ∷ []) rest (more d (written-IsValue c _)))

-- A text whose tokens are those of a tree compiles to this tree.
pub get_code-written :
    (scan : String → Option (List Lexeme)) (parse : List Lexeme → Parsed)
    → IsParser parse
    → (text : String) (c : Code) → scan text ≡ some (written c [])
    → get_code scan parse text ≡ ok (c ∷ [])
get_code-written scan parse is_parser text c scanned =
    rw (get_code-read scan parse is_parser text, scanned)
      (reading-read _ _ ((read-IsValues _ _).0 (one (written-IsValue c []))))
