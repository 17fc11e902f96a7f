-- ===== src/Prelude/Digits.antt =====
-- `fmt.Sprintf("%d", n)`: decimal digits.
use native.Mathlib.Nat.{pow-suc}
use Prim.Native.Nat.{ℕ, zero, suc, ◌+◌, ◌-◌, ◌*◌, ◌/◌, ◌%◌, ◌^◌, ◌<◌}
use mathlib.Core.Path.{◌≡◌, refl, sym, ap, ◌∙◌}
use mathlib.Core.Logic.{inl, inr}
use mathlib.Core.List.{[], ◌∷◌, ◌++◌}
use native.Mathlib.Omega.{arith}
use arb_bot.Prelude.Tests.{ltb, if◌then◌else◌, Bool-cases}
use arb_bot.Prelude.Int.{ℤ, pos, negsuc}
use arb_bot.Prelude.Texts.{Text}

-- The decimal digits of a number below 10^fuel.
print_digits : ℕ → ℕ → Text
print_digits zero n = []
print_digits (suc fuel) n =
    let rest = print_digits fuel (n / 10) ++ (b'0' + n % 10) ∷ [] in
    if ltb n 10 then (b'0' + n) ∷ [] else rest

-- `%d` of an `int64`, which has at most 19 digits.
unfoldable pub print_int : ℤ → Text
unfolding print_digits
print_int (pos n) = print_digits 20 n
print_int (negsuc n) = b'-' ∷ print_digits 20 (n + 1)

-- The number that a text of digits denotes, read from the left.
value_of : ℕ → Text → ℕ
value_of acc [] = acc
value_of acc (c ∷ cs) = value_of (acc * 10 + (c - b'0')) cs

value_of-append :
    (acc : ℕ) (xs : Text) (c : ℕ) → value_of acc (xs ++ c ∷ []) ≡ value_of acc xs * 10 + (c - b'0')
unfolding value_of
value_of-append acc [] c = refl
value_of-append acc (x ∷ xs) c = value_of-append (acc * 10 + (x - b'0')) xs c

value_of-print_digits : (fuel n : ℕ) → n < 10 ^ fuel → value_of 0 (print_digits fuel n) ≡ n
unfolding print_digits value_of
value_of-print_digits zero n h = omega arith
value_of-print_digits (suc fuel) n h = elim (Bool-cases (ltb n 10)) [
  | inl small ↦ rw small (omega arith)
  | inr large ↦
      rw (large, value_of-append 0 (print_digits fuel (n / 10)) (b'0' + n % 10))
        (omega (arith, value_of-print_digits fuel (n / 10) (omega (arith, pow-suc 10 fuel))))
]

pub print_int-injective :
    (m n : ℕ) → m < 2 ^ 63 → n < 2 ^ 63 → print_int (pos m) ≡ print_int (pos n) → m ≡ n
unfolding print_int
print_int-injective m n h i e =
    sym (value_of-print_digits 20 m (omega arith))
    ∙ ap (value_of 0) e
    ∙ value_of-print_digits 20 n (omega arith)
