-- ===== src/Python/Text/Decimal.antt =====
-- `int` reads back what `%i` printed.
use Prim.Native.Char.{Char, code}
use mom.Prelude.{
  ℕ, zero, suc, ◌+◌, ◌*◌, ◌/◌, ◌%◌, ◌<◌, ◌≡◌, refl, ap, ◌∙◌, String, Bool, true, false, ◌&&◌, some,
  ltb, leb, arith, Bool-cases, inl, inr,
}
use mom.Prelude.Int.{ℤ, pos, negsuc}
use mom.Python.Arith.{append_text}
use mom.Python.Text.{digit, below, digits, signed, signed10, is_space, lstrip, rstrip, parse_int}
use mom.Python.Print.{digit_text, digits_before, print_ℕ, print_int}

-- the text of a digit is one character
pub record IsDigitText (d : ℕ) (text : String) : Type 0 where
  pub char : Char
  pub single : text ≡ String.◌∷◌ char String.[]
  pub value : code char ≡ b'0' + d

pub digit_text-IsDigitText : (d : ℕ) → d < 10 → IsDigitText d (digit_text d)
digit_text-IsDigitText zero h = record { char = _; single = refl; value = refl }
digit_text-IsDigitText (suc zero) h = record { char = _; single = refl; value = refl }
digit_text-IsDigitText (suc (suc zero)) h = record { char = _; single = refl; value = refl }
digit_text-IsDigitText (suc (suc (suc zero))) h = record { char = _; single = refl; value = refl }
digit_text-IsDigitText (suc (suc (suc (suc zero)))) h = record {
  char = _;
  single = refl;
  value = refl;
}
digit_text-IsDigitText (suc (suc (suc (suc (suc zero))))) h = record {
  char = _;
  single = refl;
  value = refl;
}
digit_text-IsDigitText (suc (suc (suc (suc (suc (suc zero)))))) h = record {
  char = _;
  single = refl;
  value = refl;
}
digit_text-IsDigitText (suc (suc (suc (suc (suc (suc (suc zero))))))) h = record {
  char = _;
  single = refl;
  value = refl;
}
digit_text-IsDigitText (suc (suc (suc (suc (suc (suc (suc (suc zero)))))))) h = record {
  char = _;
  single = refl;
  value = refl;
}
digit_text-IsDigitText (suc (suc (suc (suc (suc (suc (suc (suc (suc zero))))))))) h = record {
  char = _;
  single = refl;
  value = refl;
}
digit_text-IsDigitText (suc (suc (suc (suc (suc (suc (suc (suc (suc (suc d)))))))))) h =
    absurd (omega arith)

digits-digit_text :
    (a d : ℕ) (text acc : String)
    → d < 10
    → IsDigitText d text
    → digits 10 a (append_text text acc) ≡ digits 10 (a * 10 + d) acc
unfolding digits digit below
digits-digit_text a d text acc h t = rw t.single (ground (arith, t.value))

digits-digits_before :
    (fuel n : ℕ) (acc : String)
    → n < fuel
    → digits 10 0 (digits_before fuel n acc) ≡ digits 10 n acc
unfolding digits_before
digits-digits_before zero n acc h = absurd (omega arith)
digits-digits_before (suc fuel) n acc h = elim (Bool-cases (ltb n 10)) [
  | inl small ↦ rw small (
      digits-digit_text 0 n _ acc (ground arith) (digit_text-IsDigitText n (ground arith))
      ∙ ap (λ m. digits 10 m acc) (omega arith))
  | inr large ↦ rw large (
      digits-digits_before fuel (n / 10) (append_text (digit_text (n % 10)) acc) (ground arith)
      ∙ digits-digit_text (n / 10) (n % 10) _ acc (omega arith)
          (digit_text-IsDigitText (n % 10) (omega arith))
      ∙ ap (λ m. digits 10 m acc) (omega arith))
]

-- a text of digits
abbrev is_digit : ℕ → Bool
is_digit c = leb b'0' c && leb c b'9'

abbrev pub all_digits : String → Bool
all_digits String.[] = true
all_digits (String.◌∷◌ c s) = is_digit (code c) && all_digits s

all_digits-digit_text :
    (d : ℕ) (text acc : String)
    → d < 10
    → IsDigitText d text
    → all_digits acc ≡ true
    → all_digits (append_text text acc) ≡ true
all_digits-digit_text d text acc h t a = rw t.single (ground (arith, t.value))

all_digits-digits_before :
    (fuel n : ℕ) (acc : String)
    → all_digits acc ≡ true
    → all_digits (digits_before fuel n acc) ≡ true
unfolding digits_before
all_digits-digits_before zero n acc h = h
all_digits-digits_before (suc fuel) n acc h = elim (Bool-cases (ltb n 10)) [
  | inl small ↦
      rw small
        (all_digits-digit_text n _ acc (ground arith) (digit_text-IsDigitText n (ground arith)) h)
  | inr large ↦ rw large (
      all_digits-digits_before fuel (n / 10) _ (
        all_digits-digit_text (n % 10) _ acc (omega arith)
          (digit_text-IsDigitText (n % 10) (omega arith)) h))
]

abbrev pub nonempty : String → Bool
nonempty String.[] = false
nonempty (String.◌∷◌ c s) = true

nonempty-digit_text :
    (d : ℕ) (text acc : String) → IsDigitText d text → nonempty (append_text text acc) ≡ true
nonempty-digit_text d text acc t = rw t.single refl

nonempty-digits_before :
    (fuel n : ℕ) (acc : String) → nonempty acc ≡ true → nonempty (digits_before fuel n acc) ≡ true
unfolding digits_before
nonempty-digits_before zero n acc h = h
nonempty-digits_before (suc fuel) n acc h = elim (Bool-cases (ltb n 10)) [
  | inl small ↦ rw small (nonempty-digit_text n _ acc (digit_text-IsDigitText n (ground arith)))
  | inr large ↦ rw large (
      nonempty-digits_before fuel (n / 10) _
        (nonempty-digit_text (n % 10) _ acc (digit_text-IsDigitText (n % 10) (omega arith))))
]

pub all_digits-print_ℕ : (n : ℕ) → all_digits (print_ℕ n) ≡ true
unfolding print_ℕ
all_digits-print_ℕ n = all_digits-digits_before (suc n) n "" refl

print_ℕ-digits : (n : ℕ) → (all_digits (print_ℕ n) ≡ true) × (digits 10 0 (print_ℕ n) ≡ some n)
unfolding print_ℕ digits
print_ℕ-digits n =
    (all_digits-digits_before (suc n) n "" refl, digits-digits_before (suc n) n "" (omega arith))

print_ℕ-nonempty : (n : ℕ) → nonempty (print_ℕ n) ≡ true
unfolding print_ℕ digits_before
print_ℕ-nonempty n = elim (Bool-cases (ltb n 10)) [
  | inl small ↦ rw small (nonempty-digit_text n _ "" (digit_text-IsDigitText n (ground arith)))
  | inr large ↦ rw large (
      nonempty-digits_before n (n / 10) _
        (nonempty-digit_text (n % 10) _ "" (digit_text-IsDigitText (n % 10) (omega arith))))
]

-- no space to strip
rstrip_digits : (s : String) → all_digits s ≡ true → rstrip s ≡ s
unfolding rstrip is_space
rstrip_digits String.[] h = refl
rstrip_digits (String.◌∷◌ c s) h = ground (arith, rstrip_digits s)

parse_digits :
    (n : ℕ) (s : String)
    → nonempty s ≡ true
    → all_digits s ≡ true
    → digits 10 0 s ≡ some n
    → parse_int s ≡ some (pos n)
unfolding parse_int signed10 signed lstrip is_space digits
parse_digits n String.[] ne a d = ground arith
parse_digits n (String.◌∷◌ c s) ne a d = rw (rstrip_digits (String.◌∷◌ c s) a) (ground arith)

parse_negative :
    (n : ℕ) (s : String)
    → nonempty s ≡ true
    → all_digits s ≡ true
    → digits 10 0 s ≡ some (suc n)
    → parse_int (append_text "-" s) ≡ some (negsuc n)
unfolding parse_int signed10 signed lstrip is_space digits
parse_negative n String.[] ne a d = ground arith
parse_negative n (String.◌∷◌ c s) ne a d = rw (rstrip_digits (String.◌∷◌ c s) a) (ground arith)

-- Reading a printed number gives the number.
pub parse_int-print_int : (n : ℤ) → parse_int (print_int n) ≡ some n
unfolding print_int
parse_int-print_int (pos n) =
    parse_digits n (print_ℕ n) (print_ℕ-nonempty n) (print_ℕ-digits n).0 (print_ℕ-digits n).1
parse_int-print_int (negsuc n) =
    parse_negative n (print_ℕ (suc n)) (print_ℕ-nonempty (suc n)) (print_ℕ-digits (suc n)).0
      (print_ℕ-digits (suc n)).1
