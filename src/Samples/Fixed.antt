-- ===== src/Samples/Fixed.antt =====
-- Floats with two decimals, as integers that count hundredths: an instance of the parameter.
use mom.Prelude.{suc, ◌/◌, none, some, ok}
use mom.Prelude.Int
use mom.Prelude.Int.{
  ℤ, pos, negsuc, sub_ℕ, pos_part, neg_part, ◌+ℤ◌, ◌-ℤ◌, ◌*ℤ◌, eqb_ℤ, ltb_ℤ, leb_ℤ,
}
use mom.Python.Text.{parse_int}
use mom.Python.Value.{Floats}

abbrev scale : ℤ → ℤ
scale n = n *ℤ pos 100

-- division that rounds towards zero
abbrev over : ℤ → ℤ → ℤ
over (pos a) (pos b) = pos (a / b)
over (pos a) (negsuc b) = sub_ℕ 0 (a / suc b)
over (negsuc a) (pos b) = sub_ℕ 0 (suc a / b)
over (negsuc a) (negsuc b) = pos (suc a / suc b)

instance abbrev pub fixed : Floats ℤ
fixed = record {
  of_int = λ n. some (scale n);
  quot_int = λ n m. some (over (scale n) m);
  of_text = λ text. elim (parse_int text) [ none ↦ none | some n ↦ some (scale n) ];
  to_int = λ x. ok (over x (pos 100));
  add = λ x y. x +ℤ y;
  sub = λ x y. x -ℤ y;
  mul = λ x y. over (x *ℤ y) (pos 100);
  quot = λ x y. over (scale x) y;
  magnitude = Int.abs;
  is_zero = λ x. eqb_ℤ x (pos 0);
  eq = eqb_ℤ;
  lt = ltb_ℤ;
  le = leb_ℤ;
  eq_int = λ x n. eqb_ℤ x (scale n);
  lt_int = λ x n. ltb_ℤ x (scale n);
  le_int = λ x n. leb_ℤ x (scale n);
  int_lt = λ n x. ltb_ℤ (scale n) x;
  int_le = λ n x. leb_ℤ (scale n) x;
}
