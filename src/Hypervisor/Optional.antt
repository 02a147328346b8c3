-- ===== src/Hypervisor/Optional.antt =====
-- mom/optional.py: a value that may be missing. `none` is `Optional.missing()`, `some v` is
-- `Optional(v)`, where v itself may be None.
use mom.Prelude.{String, Option, none, some, List, [], ◌∷◌, Result, ok, err}
use mom.Python.Value.{Error, key_error}
use mom.Hypervisor.Json.{Json, null, item, get, iterate}

abbrev pub Optional : Type 0
Optional = Option Json

unfoldable pub or_none : Optional → Json
or_none none = null
or_none (some v) = v

unfoldable pub or_else : Optional → Json → Json
or_else none default = default
or_else (some v) default = v

unfoldable pub or_raise : Optional → Error → Result Error Json
or_raise none e = err e
or_raise (some v) e = ok v

unfoldable pub map : (Json → Result Error Json) → Optional → Result Error Optional
map func none = ok none
map func (some v) = elim (func v) [ ok w ↦ ok (some w) | err e ↦ err e ]

-- o.get(key, default)
unfoldable pub get_optional : Optional → String → Json → Result Error Optional
get_optional none key default = ok none
get_optional (some v) key default = elim (get v key default) [ ok w ↦ ok (some w) | err e ↦ err e ]

-- only a KeyError becomes a missing value
abbrev pub or_missing : Result Error Json → Result Error Optional
or_missing (ok w) = ok (some w)
or_missing (err key_error) = ok none
or_missing (err e) = err e

-- o[key]
unfoldable pub get_item : Optional → String → Result Error Optional
get_item none key = ok none
get_item (some v) key = or_missing (item v key)

-- iteration over o
unfoldable pub iterate_optional : Optional → Result Error (List Json)
iterate_optional none = ok []
iterate_optional (some v) = iterate v

-- o[k₁][k₂]…
unfoldable pub get_path : Optional → List String → Result Error Optional
unfolding get_item
get_path o [] = ok o
get_path o (key ∷ keys) = elim (get_item o key) [ ok o' ↦ get_path o' keys | err e ↦ err e ]
