-- ===== src/IoTune/Equality.antt =====
-- Python's == on the answers of a hypervisor: dictionaries are equal whatever the order of their
-- entries, and True and False are equal to 1 and 0.
use mom.Prelude.{
  ℕ, suc, ◌≡◌, refl, String, Bool, true, false, ◌&&◌, none, some, eqb, arith, eq_refl, eq_iff, ◌==◌,
}
use mom.Prelude.Dict.{lookup, has}
use mom.Prelude.Int.{ℤ, pos, eqb_ℤ}
use mom.Hypervisor.Json.{
  Json, Jsons, Fields, null, flag, num, txt, arr, obj, nil, cons, stop, entry, dict_of,
}

abbrev bit : Bool → ℤ
bit true = pos 1
bit false = pos 0

abbrev pub size : Fields → ℕ
size stop = 0
size (entry k v fs) = suc (size fs)

unfoldable mutual
  -- a == b
  pub equal : Json → Json → Bool
  equal null null = true
  equal (flag a) (flag b) = eqb_ℤ (bit a) (bit b)
  equal (flag a) (num n) = eqb_ℤ (bit a) n
  equal (num n) (flag b) = eqb_ℤ n (bit b)
  equal (num m) (num n) = eqb_ℤ m n
  equal (txt s) (txt t) = s == t
  equal (arr xs) (arr ys) = all_equal xs ys
  equal (obj xs) (obj ys) = eqb (size xs) (size ys) && covered xs ys
  equal a b = false

  pub all_equal : Jsons → Jsons → Bool
  all_equal nil nil = true
  all_equal (cons a xs) (cons b ys) = equal a b && all_equal xs ys
  all_equal xs ys = false

  -- the entries of the first are in the second
  pub covered : Fields → Fields → Bool
  covered stop ys = true
  covered (entry k a xs) ys =
      (elim (lookup k (dict_of ys)) [ none ↦ false | some b ↦ equal a b ]) && covered xs ys

-- The keys of every dictionary in it are distinct, as they are in Python.
unfoldable mutual
  pub Distinct : Json → Type 0
  Distinct (arr xs) = AllDistinct xs
  Distinct (obj fs) = DistinctFields fs
  Distinct j = Unit

  pub AllDistinct : Jsons → Type 0
  AllDistinct nil = Unit
  AllDistinct (cons x xs) = Distinct x × AllDistinct xs

  pub DistinctFields : Fields → Type 0
  DistinctFields stop = Unit
  DistinctFields (entry k v fs) = (has k (dict_of fs) ≡ false) × Distinct v × DistinctFields fs

abbrev Within : Fields → Fields → Type 0
Within xs ys =
    (k : String) (v : Json) → lookup k (dict_of xs) ≡ some v → lookup k (dict_of ys) ≡ some v

Within-rest :
    (k : String) (v : Json) (xs ys : Fields)
    → has k (dict_of xs) ≡ false
    → Within (entry k v xs) ys
    → Within xs ys
Within-rest k v xs ys new within j w h = within j w (ground (arith, h, new, eq_iff k j))

pub eqb_ℤ_refl : (n : ℤ) → eqb_ℤ n n ≡ true
eqb_ℤ_refl n = ground arith

mutual
  unfolding equal Distinct

  -- A Python object is equal to itself.
  pub equal_refl : (j : Json) → Distinct j → equal j j ≡ true
  equal_refl null h = refl
  equal_refl (flag true) h = refl
  equal_refl (flag false) h = refl
  equal_refl (num n) h = eqb_ℤ_refl n
  equal_refl (txt s) h = eq_refl s
  equal_refl (arr xs) h = all_equal_refl xs h
  equal_refl (obj fs) h = ground (arith, covered-Within fs fs h (λ k v e. e))

  all_equal_refl : (js : Jsons) → AllDistinct js → all_equal js js ≡ true
  all_equal_refl nil h = refl
  all_equal_refl (cons j js) h = ground (arith, equal_refl j h.0, all_equal_refl js h.1)

  covered-Within : (xs ys : Fields) → DistinctFields xs → Within xs ys → covered xs ys ≡ true
  covered-Within stop ys h within = refl
  covered-Within (entry k v xs) ys (new, dv, dxs) within =
      let found = within k v (ground (arith, eq_refl k)) in
      ground
        (arith, found, equal_refl v dv, covered-Within xs ys dxs (Within-rest k v xs ys new within))
