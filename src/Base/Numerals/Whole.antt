-- ===== src/Base/Numerals/Whole.antt =====
-- `Number` on the texts of digits only.
use Prim.Native.Nat.{ℕ, ◌≤◌}
use Prim.Native.Char.{code}
use Prim.Native.String as S
use Prim.Native.String.{String}
use mathlib.Core.Path.{◌≡◌, refl, ap, ◌∙◌}
use mathlib.Core.Bool.{Bool, true, false, ◌&&◌, ◌||◌}
use mathlib.Core.List.{List, [], ◌∷◌}
use native.Mathlib.Omega.{arith}
use koranco.Base.Tests.{eqb}
use koranco.Base.Texts.{codes, is_space, trim, trim_start, trim_end}
use koranco.Base.Numerals.{
  is_digit, all_digits, run_of, Sign, not_a_number, at_most_zero, positive, of_zeros, unsigned,
  sign_of_codes, same_codes, after_whole, number_at_most_zero,
}

unfoldable pub all_zeros : List ℕ → Bool
all_zeros [] = true
all_zeros (c ∷ cs) = eqb c b'0' && all_zeros cs

digit_no_space : (c : ℕ) → is_digit c ≡ true → is_space c ≡ false
unfolding is_space
digit_no_space c h = ground arith

trim_end-digits : (s : String) → all_digits (codes s) ≡ true → trim_end s ≡ s
unfolding trim_end all_digits
trim_end-digits S.[] h = refl
trim_end-digits (S.◌∷◌ c s) h = ground (arith, digit_no_space (code c), trim_end-digits s)

trim_start-digits : (s : String) → all_digits (codes s) ≡ true → trim_start s ≡ s
unfolding trim_start all_digits
trim_start-digits S.[] h = refl
trim_start-digits (S.◌∷◌ c s) h = ground (arith, digit_no_space (code c))

trim-digits : (s : String) → all_digits (codes s) ≡ true → trim s ≡ s
unfolding trim
trim-digits s h = ap trim_end (trim_start-digits s h) ∙ trim_end-digits s h

run_of-digits :
    (c : ℕ) (cs : List ℕ)
    → all_digits (c ∷ cs) ≡ true
    → run_of is_digit (c ∷ cs) ≡ record { any = true; zeros = all_zeros (c ∷ cs); rest = [] }
unfolding run_of all_digits all_zeros
run_of-digits c [] h = ground arith
run_of-digits c (d ∷ cs) h = ground (arith, run_of-digits d cs)

unsigned-digits :
    (c : ℕ) (cs : List ℕ)
    → all_digits (c ∷ cs) ≡ true
    → unsigned (c ∷ cs) ≡ of_zeros (all_zeros (c ∷ cs))
unfolding unsigned after_whole all_digits same_codes
unsigned-digits c cs h = rw (run_of-digits c cs h) (ground arith)

-- A digit is no letter of a prefix.
no_prefix :
    (c d x y : ℕ)
    → is_digit d ≡ true
    → 58 ≤ x
    → 58 ≤ y
    → (eqb c b'0' && (eqb d x || eqb d y)) ≡ false
no_prefix c d x y h p q = ground arith

no_sign : (c : ℕ) → is_digit c ≡ true → (eqb c b'+' ≡ false) × (eqb c b'-' ≡ false)
no_sign c h = ground arith

sign_of_codes-digits :
    (c : ℕ) (cs : List ℕ)
    → all_digits (c ∷ cs) ≡ true
    → sign_of_codes (c ∷ cs) ≡ of_zeros (all_zeros (c ∷ cs))
unfolding sign_of_codes all_digits
sign_of_codes-digits c [] h = unsigned-digits c [] h
sign_of_codes-digits c (d ∷ cs) h =
    let first : is_digit c ≡ true = ground arith in
    let second : is_digit d ≡ true = ground arith in
    let (plus, minus) = no_sign c first in
    rw
      (
        plus,
        minus,
        no_prefix c d b'x' b'X' second (omega arith) (omega arith),
        no_prefix c d b'b' b'B' second (omega arith) (omega arith),
        no_prefix c d b'o' b'O' second (omega arith) (omega arith),
      )
      (unsigned-digits c (d ∷ cs) h)

abbrev zero_or_less : Sign → Bool
zero_or_less at_most_zero = true
zero_or_less _ = false

zero_or_less-of_zeros : (z : Bool) → zero_or_less (of_zeros z) ≡ z
zero_or_less-of_zeros true = refl
zero_or_less-of_zeros false = refl

number_at_most_zero_lem :
    (s : String) → number_at_most_zero s ≡ zero_or_less (sign_of_codes (codes (trim s)))
unfolding number_at_most_zero
number_at_most_zero_lem s =
    elim (sign_of_codes (codes (trim s)))
      as (λ x. (elim x as (λ y. Bool) [ at_most_zero ↦ true | _ ↦ false ]) ≡ zero_or_less x) [
        | not_a_number ↦ refl
        | at_most_zero ↦ refl
        | positive ↦ refl
      ]

-- Of a text of digits only, `Number(s) <= 0` holds exactly when each digit is 0.
pub number_at_most_zero-digits :
    (s : String) → all_digits (codes s) ≡ true → number_at_most_zero s ≡ all_zeros (codes s)
unfolding all_zeros
number_at_most_zero-digits S.[] h = unfold number_at_most_zero in refl
number_at_most_zero-digits (S.◌∷◌ c s) h =
    number_at_most_zero_lem (S.◌∷◌ c s)
    ∙ ap (λ t. zero_or_less (sign_of_codes (codes t))) (trim-digits (S.◌∷◌ c s) h)
    ∙ ap zero_or_less (sign_of_codes-digits (code c) (codes s) h)
    ∙ zero_or_less-of_zeros (all_zeros (codes (S.◌∷◌ c s)))
