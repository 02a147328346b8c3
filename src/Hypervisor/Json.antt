-- ===== src/Hypervisor/Json.antt =====
-- The answers of a hypervisor's API, as Python objects: None, booleans, integers, texts, lists and
-- dictionaries with text keys. Numbers with a fraction stand in no field that the interfaces read.
use mom.Prelude.{
  ◌≡◌, refl, String, Bool, true, false, not, Option, none, some, List, [], ◌∷◌, Result, ok, err,
  eqb, ◌==◌,
}
use mom.Prelude.Dict.{Dict, lookup}
use mom.Prelude.Int.{ℤ, pos, negsuc}
use mom.Python.Text.{parse_int}
use mom.Python.Value.{Error, key_error, type_error, value_error, index_error, attribute_error}

mutual
  pub data Json : Type 0 where
    null : Json
    flag : Bool → Json
    num : ℤ → Json
    txt : String → Json
    arr : Jsons → Json
    obj : Fields → Json

  pub data Jsons : Type 0 where
    nil : Jsons
    cons : Json → Jsons → Jsons

  pub data Fields : Type 0 where
    stop : Fields
    entry : String → Json → Fields → Fields

abbrev pub elements : Jsons → List Json
elements nil = []
elements (cons j js) = j ∷ elements js

abbrev pub of_elements : List Json → Jsons
of_elements [] = nil
of_elements (j ∷ js) = cons j (of_elements js)

abbrev pub dict_of : Fields → Dict Json
dict_of stop = []
dict_of (entry k j fs) = (k, j) ∷ dict_of fs

abbrev pub of_dict : Dict Json → Fields
of_dict [] = stop
of_dict ((k, j) ∷ d) = entry k j (of_dict d)

-- bool(x)
abbrev pub truthy : Json → Bool
truthy null = false
truthy (flag b) = b
truthy (num (pos n)) = not (eqb n 0)
truthy (num (negsuc n)) = true
truthy (txt String.[]) = false
truthy (txt (String.◌∷◌ c s)) = true
truthy (arr nil) = false
truthy (arr (cons j js)) = true
truthy (obj stop) = false
truthy (obj (entry k j fs)) = true

abbrev or_value_error : Option ℤ → Result Error ℤ
or_value_error none = err value_error
or_value_error (some n) = ok n

-- int(x)
unfoldable pub int_of : Json → Result Error ℤ
int_of (num n) = ok n
int_of (flag true) = ok (pos 1)
int_of (flag false) = ok (pos 0)
int_of (txt s) = or_value_error (parse_int s)
int_of _ = err type_error

abbrev or_key_error : Option Json → Result Error Json
or_key_error none = err key_error
or_key_error (some j) = ok j

-- x[key], for a text key
unfoldable pub item : Json → String → Result Error Json
item (obj fs) key = or_key_error (lookup key (dict_of fs))
item _ key = err type_error

-- x[0]
unfoldable pub first : Json → Result Error Json
first (arr nil) = err index_error
first (arr (cons j js)) = ok j
first (txt String.[]) = err index_error
first (txt (String.◌∷◌ c s)) = ok (txt (String.◌∷◌ c String.[]))
first (obj fs) = err key_error
first _ = err type_error

abbrev or_default : Json → Option Json → Json
or_default default none = default
or_default default (some j) = j

-- x.get(key, default)
unfoldable pub get : Json → String → Json → Result Error Json
get (obj fs) key default = ok (or_default default (lookup key (dict_of fs)))
get _ key default = err attribute_error

-- x == 'text'
abbrev pub is_text : String → Json → Bool
is_text s (txt t) = t == s
is_text s _ = false

abbrev pub is_null : Json → Bool
is_null null = true
is_null _ = false

-- iteration over x
unfoldable pub iterate : Json → Result Error (List Json)
iterate (arr js) = ok (elements js)
iterate (obj fs) = ok (names (dict_of fs))
  where
    names : Dict Json → List Json
    names [] = []
    names ((k, j) ∷ d) = txt k ∷ names d
iterate (txt s) = ok (letters s)
  where
    letters : String → List Json
    letters String.[] = []
    letters (String.◌∷◌ c t) = txt (String.◌∷◌ c String.[]) ∷ letters t
iterate _ = err type_error

pub dict_of-of_dict : (d : Dict Json) → dict_of (of_dict d) ≡ d
dict_of-of_dict [] = refl
dict_of-of_dict ((k, j) ∷ d) = λ i. (k, j) ∷ dict_of-of_dict d i
