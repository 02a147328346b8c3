-- ===== src/Python/Text/Splitting.antt =====
-- `split` on texts that were joined with the separator.
use Prim.Native.Char.{Char, code}
use mom.Prelude.{ℕ, suc, ◌≡◌, refl, String, Bool, true, false, not, ◌&&◌, eqb, leb, [], ◌∷◌, arith}
use mom.Prelude.Int.{ℤ, pos, negsuc}
use mom.Python.Arith.{append_text}
use mom.Python.Print.{print_int, print_ℕ}
use mom.Python.Text.{split}
use mom.Python.Text.Decimal.{all_digits, all_digits-print_ℕ}

-- the separator is not in the text
abbrev pub free_of : ℕ → String → Bool
free_of sep String.[] = true
free_of sep (String.◌∷◌ c s) = not (eqb (code c) sep) && free_of sep s

pub split_free : (sep : ℕ) (s : String) → free_of sep s ≡ true → split sep s ≡ s ∷ []
unfolding split
split_free sep String.[] h = refl
split_free sep (String.◌∷◌ c s) h = ground (arith, split_free sep s)

pub split-append :
    (sep : ℕ) (s : String) (c : Char) (t : String)
    → free_of sep s ≡ true
    → eqb (code c) sep ≡ true
    → split sep (append_text s (String.◌∷◌ c t)) ≡ s ∷ split sep t
unfolding split
split-append sep String.[] c t h e = rw e refl
split-append sep (String.◌∷◌ d s) c t h e = ground (arith, split-append sep s c t)

pub free_of-append :
    (sep : ℕ) (s t : String)
    → free_of sep s ≡ true
    → free_of sep t ≡ true
    → free_of sep (append_text s t) ≡ true
free_of-append sep String.[] t h k = k
free_of-append sep (String.◌∷◌ c s) t h k = ground (arith, free_of-append sep s t)

free_of_digits :
    (sep : ℕ) (s : String)
    → (leb sep 57 && leb 48 sep) ≡ false
    → all_digits s ≡ true
    → free_of sep s ≡ true
free_of_digits sep String.[] h a = refl
free_of_digits sep (String.◌∷◌ c s) h a = ground (arith, free_of_digits sep s)

-- A separator that is neither a digit nor the minus sign is not in a printed number.
pub free_of-print_int :
    (sep : ℕ) (n : ℤ)
    → (leb sep 57 && leb 48 sep) ≡ false
    → eqb 45 sep ≡ false
    → free_of sep (print_int n) ≡ true
unfolding print_int
free_of-print_int sep (pos n) h e = free_of_digits sep (print_ℕ n) h (all_digits-print_ℕ n)
free_of-print_int sep (negsuc n) h e =
    free_of-append sep "-" (print_ℕ (suc n)) (rw e refl)
      (free_of_digits sep (print_ℕ (suc n)) h (all_digits-print_ℕ (suc n)))
