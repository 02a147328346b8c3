-- ===== src/Python/Print.antt =====
-- `"%i" % n`: a number in decimal digits.
use mom.Prelude.{ℕ, zero, suc, ◌/◌, ◌%◌, String, ltb, if◌then◌else◌}
use mom.Prelude.Int.{ℤ, pos, negsuc}
use mom.Python.Arith.{append_text}

abbrev pub digit_text : ℕ → String
digit_text zero = "0"
digit_text (suc zero) = "1"
digit_text (suc (suc zero)) = "2"
digit_text (suc (suc (suc zero))) = "3"
digit_text (suc (suc (suc (suc zero)))) = "4"
digit_text (suc (suc (suc (suc (suc zero))))) = "5"
digit_text (suc (suc (suc (suc (suc (suc zero)))))) = "6"
digit_text (suc (suc (suc (suc (suc (suc (suc zero))))))) = "7"
digit_text (suc (suc (suc (suc (suc (suc (suc (suc zero)))))))) = "8"
digit_text _ = "9"

-- the digits of n before `acc`; a number has at most as many digits as `fuel`
unfoldable pub digits_before : ℕ → ℕ → String → String
digits_before zero n acc = acc
digits_before (suc fuel) n acc =
    let more = digits_before fuel (n / 10) (append_text (digit_text (n % 10)) acc) in
    if ltb n 10 then append_text (digit_text n) acc else more

unfoldable pub print_ℕ : ℕ → String
unfolding digits_before
print_ℕ n = digits_before (suc n) n ""

unfoldable pub print_int : ℤ → String
unfolding print_ℕ
print_int (pos n) = print_ℕ n
print_int (negsuc n) = append_text "-" (print_ℕ (suc n))
