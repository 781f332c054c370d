-- ===== src/Float/Ratio.antt =====
-- Exact fractions as float64: a value of the parameter at which its laws hold.
use native.Mathlib.Nat.{mul-one, one-mul, div-one}
use manisa_app.Prelude.{
  ℕ, zero, suc, ◌+◌, ◌*◌, ◌/◌, refl, ap, not, true, false, Bool, some, ℤ, pos, negsuc, ltb, nat_eq,
  ◌>>=◌,
}
use manisa_app.Text.Number.{parse_uint, parse_uint-format_uint}
use manisa_app.Float.{Float64, FloatLaws}

-- ± numerator / denominator
pub record Ratio : Type 0 where
  pub negative : Bool
  pub num : ℕ
  pub den : ℕ

abbrev of_int : ℤ → Ratio
of_int (pos n) = record { negative = false; num = n; den = 1 }
of_int (negsuc n) = record { negative = true; num = suc n; den = 1 }

abbrev differ : Bool → Bool → Bool
differ true b = not b
differ false b = b

abbrev lt_sign : Bool → Bool → ℕ → ℕ → Bool
lt_sign false false m n = ltb m n
lt_sign true true m n = ltb n m
lt_sign true false m n = not (nat_eq (m + n) 0)
lt_sign false true m n = false

abbrev with_sign : Bool → ℕ → ℤ
with_sign false n = pos n
with_sign true n = elim n [ zero ↦ pos 0 | suc m ↦ negsuc m ]

instance abbrev pub ratio : Float64 Ratio
ratio = record {
  of_int = of_int;
  lt = λ a b. lt_sign a.negative b.negative (a.num * b.den) (b.num * a.den);
  eq = λ a b. nat_eq (a.num * b.den) (b.num * a.den);
  mul = λ a b. record {
    negative = differ a.negative b.negative;
    num = a.num * b.num;
    den = a.den * b.den;
  };
  div = λ a b. record {
    negative = differ a.negative b.negative;
    num = a.num * b.den;
    den = a.den * b.num;
  };
  round = λ a. record { negative = a.negative; num = (2 * a.num + a.den) / (2 * a.den); den = 1 };
  to_int = λ a. with_sign a.negative (a.num / a.den);
  parse_float = λ s. (do n ← parse_uint 52 s; some (of_int (pos n)));
}

pub ratio_laws : FloatLaws ratio
ratio_laws = record {
  lt_exact = λ a b _ _. rw (mul-one a, mul-one b);
  eq_exact = λ a b _ _. rw (mul-one a, mul-one b);
  mul_exact = λ a b _. refl;
  to_int_quotient = λ a b _ _ _. rw (mul-one a, one-mul b);
  to_int_round_quotient = λ a b _ _ _. rw (mul-one a, one-mul b) (ap pos (div-one _));
  parse_exact = λ n h. rw (parse_uint-format_uint 52 n h);
}
