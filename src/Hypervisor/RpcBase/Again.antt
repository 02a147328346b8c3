-- ===== src/Hypervisor/RpcBase/Again.antt =====
-- A second reading of the balloon while the table of mom/HypervisorInterfaces/vdsmRpcBase.py is cached.
use mathlib.Core.Path.{subst}
use mom.Prelude.{
  ◌≡◌, refl, sym, ap, ◌∙◌, String, true, Option, none, some, [], ◌∷◌, Result, ok, err, contains,
  if◌then◌else◌, arith, eq_refl, is_some,
}
use mom.Prelude.Dict.{Dict, lookup, has, insert, keys, lookup-insert, contains-keys}
use mom.Prelude.Int.{ℤ}
use mom.Python.Value.{Error}
use mom.Hypervisor.Json.{
  Json, Fields, num, int_of, obj, stop, dict_of, of_dict, dict_of-of_dict, get, truthy,
}
use mom.Hypervisor.RpcBase.{Table, balloon_keys, or_null, store_info, get_vm_balloon_info}
use mom.Hypervisor.RpcBase.Balloon.{as_number, Numbers, get_vm_balloon_info-trimmed}

-- The entries that a dictionary has after the loop.
abbrev pub Trim : Dict Json → Dict Json → Type 0
Trim d info =
    (k : String)
    → lookup k info ≡ (if contains k balloon_keys then as_number (lookup k d) else none)

-- a number stays what it is
as_number-as_number : (o : Option Json) → as_number (as_number o) ≡ as_number o
unfolding as_number int_of
as_number-as_number o = ground arith

Trim-again :
    (d info again : Dict Json)
    → Trim d info
    → Trim info again
    → (k : String) → lookup k again ≡ lookup k info
unfolding as_number
Trim-again d info again t t' k = ground (arith, t k, t' k, as_number-as_number (lookup k d))

number_of :
    (o : Option Json) (r : Result Error ℤ)
    → o ≡ (elim r [ ok n ↦ some (num n) | err e ↦ none ])
    → is_some o ≡ true
    → (n : ℤ) × (int_of (or_null o) ≡ ok n)
unfolding int_of
number_of o (ok n) e h = (n, ap (λ x. int_of (or_null x)) e)
number_of o (err x) e h = absurd (ground (arith, e, h))

Numbers-Trim : (d info : Dict Json) → Trim d info → Numbers (keys info) info
unfolding Numbers as_number int_of
Numbers-Trim d info t k b h =
    number_of (lookup k info) (int_of (or_null (lookup k d)))
      (t k ∙ ap (λ c. if c then as_number (lookup k d) else none) b)
      (sym (contains-keys k info) ∙ h)

full_of : (d : Dict Json) (k : String) → has k d ≡ true → truthy (obj (of_dict d)) ≡ true
full_of [] k h = ground (arith, h)
full_of ((j, v) ∷ d) k h = refl

has_number :
    (d info : Dict Json) (k : String)
    → Trim d info
    → contains k balloon_keys ≡ true
    → Numbers (keys d) d
    → has k d ≡ true
    → has k info ≡ true
unfolding Numbers as_number int_of
has_number d info k t b numbers h =
    let (n, e) = numbers k b (contains-keys k d ∙ h) in
    ap is_some (
      t k
      ∙ ap (λ c. if c then as_number (lookup k d) else none) b
      ∙ ap (λ r. elim r [ ok n ↦ some (num n) | err e ↦ none ]) e)

stored :
    (uuid : String) (fs : Fields) (info : Dict Json) (table : Table)
    → lookup uuid (store_info uuid (obj fs) info table)
      ≡ some (obj (of_dict (insert "balloonInfo" (obj (of_dict info)) (dict_of fs))))
stored uuid fs info table = lookup-insert uuid uuid _ table ∙ ground (arith, eq_refl uuid)

stored_info :
    (fs : Fields) (info : Dict Json)
    → get
        (obj (of_dict (insert "balloonInfo" (obj (of_dict info)) (dict_of fs))))
        "balloonInfo"
        (obj stop)
      ≡ ok (obj (of_dict info))
unfolding get
stored_info fs info = rw (
  dict_of-of_dict (insert "balloonInfo" (obj (of_dict info)) (dict_of fs)),
  lookup-insert "balloonInfo" "balloonInfo" (obj (of_dict info)) (dict_of fs),
)

-- If the table has the guest, a dictionary whose balloonInfo is a dictionary, the entries there under
-- balloon_max, balloon_min and balloon_cur have an int(), and there is one of them, then
-- getVmBalloonInfo returns a dictionary, and a second call on the table that the first one changed
-- returns one with the same entries.
pub get_vm_balloon_info-again :
    (uuid : String) (table : Table) (vs fs : Fields)
    → lookup uuid table ≡ some (obj vs)
    → get (obj vs) "balloonInfo" (obj stop) ≡ ok (obj fs)
    → truthy (obj fs) ≡ true
    → Numbers (keys (dict_of fs)) (dict_of fs)
    → (k : String) → contains k balloon_keys ≡ true
    → has k (dict_of fs) ≡ true
    → (info again : Dict Json) × ((get_vm_balloon_info uuid table).0 ≡ ok (some info))
      × ((get_vm_balloon_info uuid (get_vm_balloon_info uuid table).1).0 ≡ ok (some again))
      × ((j : String) → lookup j again ≡ lookup j info)
get_vm_balloon_info-again uuid table vs fs found has_info full numbers k b h =
    let (info, run, t) =
      get_vm_balloon_info-trimmed uuid table (obj vs) fs found has_info full numbers in
    let nonempty : truthy (obj (of_dict info)) ≡ true =
      full_of info k (has_number (dict_of fs) info k t b numbers h) in
    let (again, run', t') =
      get_vm_balloon_info-trimmed uuid (store_info uuid (obj vs) info table) _ (of_dict info)
        (stored uuid vs info table) (stored_info vs info) nonempty
        (subst (λ d. Numbers (keys d) d) (sym (dict_of-of_dict info))
          (Numbers-Trim (dict_of fs) info t)) in
    (
      info,
      again,
      ap (λ r. r.0) run,
      ap (λ r. (get_vm_balloon_info uuid r.1).0) run ∙ ap (λ r. r.0) run',
      Trim-again (dict_of fs) info again t (subst (λ d. Trim d again) (dict_of-of_dict info) t'),
    )
