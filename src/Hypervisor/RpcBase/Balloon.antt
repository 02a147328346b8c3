-- ===== src/Hypervisor/RpcBase/Balloon.antt =====
-- What `getVmBalloonInfo` of mom/HypervisorInterfaces/vdsmRpcBase.py returns, and what it leaves in
-- the table that it shares with the other methods.
use mom.Prelude.{
  ◌≡◌, refl, sym, ap, ◌∙◌, String, Bool, true, false, Option, none, some, List, [], ◌∷◌, ok, err,
  ◌>>=◌, contains, if◌then◌else◌, arith, eq_iff, eq_refl, ◌==◌, Bool-cases, inl, inr,
}
use mom.Prelude.Dict.{Dict, lookup, insert, erase, keys, lookup-insert, lookup-erase, contains-keys}
use mom.Prelude.Int.{ℤ}
use mom.Hypervisor.Json.{Json, Fields, num, int_of, obj, stop, dict_of, get, truthy}
use mom.Hypervisor.RpcBase.{Table, balloon_keys, or_null, store_info, trim, get_vm_balloon_info}

-- int(x), where there is an x that has one
unfoldable pub as_number : Option Json → Option Json
unfolding int_of
as_number o = elim (int_of (or_null o)) [ ok n ↦ some (num n) | err e ↦ none ]

-- The values of the three keys have an int().
unfoldable pub Numbers : List String → Dict Json → Type 0
unfolding int_of
Numbers ks d =
    (k : String)
    → contains k balloon_keys ≡ true
    → contains k ks ≡ true
    → (n : ℤ) × (int_of (or_null (lookup k d)) ≡ ok n)

abbrev kept : Bool → Bool → Option Json → Option Json
kept true true o = as_number o
kept true false o = none
kept false b o = o

abbrev Trimmed : List String → Dict Json → Dict Json → Type 0
Trimmed ks d d' =
    (k : String) → lookup k d' ≡ kept (contains k ks) (contains k balloon_keys) (lookup k d)

contains-same : (j k : String) (xs : List String) → j == k ≡ true → contains j xs ≡ contains k xs
contains-same j k xs h = ap (λ t. contains t xs) ((eq_iff j k).0 h)

Numbers-insert :
    (key : String) (ks : List String) (d : Dict Json) (n : ℤ)
    → Numbers (key ∷ ks) d
    → Numbers ks (insert key (num n) d)
unfolding int_of Numbers
Numbers-insert key ks d n numbers k b h = elim (Bool-cases (key == k)) [
  | inl same ↦ (
    n,
    ap (λ o. int_of (or_null o))
        (lookup-insert k key (num n) d ∙ ap (λ t. if t then some (num n) else lookup k d) same),
  )
  | inr other ↦
      let (m, e) = numbers k b (ground (arith, h, other)) in
      (
        m,
        ap (λ o. int_of (or_null o))
              (lookup-insert k key (num n) d
                ∙ ap (λ t. if t then some (num n) else lookup k d) other)
            ∙ e,
      )
]

Numbers-erase :
    (key : String) (ks : List String) (d : Dict Json)
    → contains key balloon_keys ≡ false
    → Numbers (key ∷ ks) d
    → Numbers ks (erase key d)
unfolding int_of Numbers
Numbers-erase key ks d dropped numbers k b h = elim (Bool-cases (key == k)) [
  | inl same ↦ absurd (ground (arith, dropped, b, contains-same key k balloon_keys same))
  | inr other ↦
      let (m, e) = numbers k b (ground (arith, h, other)) in
      (
        m,
        ap (λ o. int_of (or_null o))
              (lookup-erase k key d ∙ ap (λ t. if t then none else lookup k d) other)
            ∙ e,
      )
]

trim-keeps :
    (key : String) (ks : List String) (d : Dict Json) (n : ℤ)
    → contains key balloon_keys ≡ true
    → int_of (or_null (lookup key d)) ≡ ok n
    → trim (key ∷ ks) d ≡ trim ks (insert key (num n) d)
unfolding trim
trim-keeps key ks d n b e = ground (arith, b, e)

trim-drops :
    (key : String) (ks : List String) (d : Dict Json)
    → contains key balloon_keys ≡ false
    → trim (key ∷ ks) d ≡ trim ks (erase key d)
unfolding trim
trim-drops key ks d b = rw b

kept-number :
    (j k : String) (d : Dict Json) (n : ℤ)
    → j == k ≡ true
    → int_of (or_null (lookup j d)) ≡ ok n
    → as_number (lookup k d) ≡ some (num n)
unfolding int_of as_number
kept-number j k d n same e =
    ap (λ t. as_number (lookup t d)) (sym ((eq_iff j k).0 same))
    ∙ ap (λ r. elim r [ ok n ↦ some (num n) | err e ↦ none ]) e

-- One step of the loop, by whether the key is the step's and whether it comes again.
kept_set :
    (same again : Bool) (c : Bool) (o p : Option Json) (n : ℤ)
    → (same ≡ true → (c ≡ true) × (as_number p ≡ some (num n)))
    → o ≡ (if same then some (num n) else p)
    → kept again c o ≡ kept (if same then true else again) c p
unfolding int_of as_number
kept_set true true c o p n number e =
    let (b, q) = number refl in (λ i. kept true (b i) (e i)) ∙ sym ((λ i. kept true (b i) p) ∙ q)
kept_set true false c o p n number e =
    let (b, q) = number refl in e ∙ sym ((λ i. kept true (b i) p) ∙ q)
kept_set false again c o p n number e = ap (kept again c) e

kept_unset :
    (same again : Bool) (c : Bool) (o p : Option Json)
    → (same ≡ true → c ≡ false)
    → o ≡ (if same then none else p)
    → kept again c o ≡ kept (if same then true else again) c p
kept_unset true true c o p dropped e =
    (λ i. kept true (dropped refl i) o) ∙ sym (λ i. kept true (dropped refl i) p)
kept_unset true false c o p dropped e = e ∙ sym (λ i. kept true (dropped refl i) p)
kept_unset false again c o p dropped e = ap (kept again c) e

trim-Trimmed :
    (ks : List String) (d : Dict Json)
    → Numbers ks d
    → (d' : Dict Json) × (trim ks d ≡ (ok tt, d')) × Trimmed ks d d'
unfolding trim Numbers
trim-Trimmed [] d numbers = (d, refl, λ k. refl)
trim-Trimmed (key ∷ ks) d numbers = elim (Bool-cases (contains key balloon_keys)) [
  | inl b ↦
      let (n, e) = numbers key b (ground (arith, eq_refl key)) in
      let (d', run, t) =
        trim-Trimmed ks (insert key (num n) d) (Numbers-insert key ks d n numbers) in
      (
        d',
        trim-keeps key ks d n b e ∙ run,
        λ k.
            t k
            ∙ kept_set (key == k) (contains k ks) (contains k balloon_keys)
                (lookup k (insert key (num n) d)) (lookup k d) n
                (λ same.
                  (sym (contains-same key k balloon_keys same) ∙ b, kept-number key k d n same e))
                (lookup-insert k key (num n) d),
      )
  | inr b ↦
      let (d', run, t) = trim-Trimmed ks (erase key d) (Numbers-erase key ks d b numbers) in
      (
        d',
        trim-drops key ks d b ∙ run,
        λ k.
            t k
            ∙ kept_unset (key == k) (contains k ks) (contains k balloon_keys)
                (lookup k (erase key d)) (lookup k d)
                (λ same. sym (contains-same key k balloon_keys same) ∙ b) (lookup-erase k key d),
      )
]

-- After the loop over its keys, a dictionary has the three keys' entries as numbers, and no others.
all-Trimmed :
    (d d' : Dict Json)
    → Trimmed (keys d) d d'
    → (k : String)
    → lookup k d' ≡ (if contains k balloon_keys then as_number (lookup k d) else none)
unfolding as_number int_of
all-Trimmed d d' t k = ground (arith, t k, contains-keys k d)

-- If the table has the guest, whose balloonInfo is a dictionary with entries, and the entries under
-- balloon_max, balloon_min and balloon_cur have an int(), then getVmBalloonInfo returns a dictionary
-- with just those of the three keys that were there, each with its int(), and it is this dictionary
-- that the shared table has afterwards as the guest's balloonInfo.
pub get_vm_balloon_info-trimmed :
    (uuid : String) (table : Table) (vm : Json) (fs : Fields)
    → lookup uuid table ≡ some vm
    → get vm "balloonInfo" (obj stop) ≡ ok (obj fs)
    → truthy (obj fs) ≡ true
    → Numbers (keys (dict_of fs)) (dict_of fs)
    → (info : Dict Json) × (get_vm_balloon_info uuid table
        ≡ (ok (some info), store_info uuid vm info table))
      × ((k : String)
          → lookup k info
            ≡ (if contains k balloon_keys then as_number (lookup k (dict_of fs)) else none))
unfolding get_vm_balloon_info ◌>>=◌
get_vm_balloon_info-trimmed uuid table vm fs found has_info full numbers =
    let (info, run, t) = trim-Trimmed (keys (dict_of fs)) (dict_of fs) numbers in
    (info, rw (found, has_info, full, run), all-Trimmed (dict_of fs) info t)
