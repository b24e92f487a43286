-- ===== src/Base/Numerals.antt =====
-- The texts that `Number` reads, as far as the sign of the result: ECMAScript's StringNumericLiteral.
pub mod Whole
use Prim.Native.Nat.{ℕ}
use Prim.Native.String.{String}
use mathlib.Core.Bool.{Bool, true, false, ◌&&◌, ◌||◌}
use mathlib.Core.List.{List, [], ◌∷◌}
use koranco.Base.Tests.{eqb, leb, if◌then◌else◌}
use koranco.Base.Texts.{codes, trim}

abbrev pub is_digit : ℕ → Bool
is_digit c = leb b'0' c && leb c b'9'

-- `/^\d+$/`
unfoldable pub all_digits : List ℕ → Bool
all_digits [] = true
all_digits (c ∷ cs) = is_digit c && all_digits cs

unfoldable pub whole_number : String → Bool
unfolding all_digits
whole_number s = elim (codes s) [ [] ↦ false | c ∷ cs ↦ is_digit c && all_digits cs ]

-- A run of digits in front: are there any, are they all zeros, and what follows.
pub record Run : Type 0 where
  pub any : Bool
  pub zeros : Bool
  pub rest : List ℕ

unfoldable pub run_of : (ℕ → Bool) → List ℕ → Run
run_of digit [] = record { any = false; zeros = true; rest = [] }
run_of digit (c ∷ cs) =
    let r = run_of digit cs in
    if digit c
    then record { any = true; zeros = eqb c b'0' && r.zeros; rest = r.rest }
    else record { any = false; zeros = true; rest = c ∷ cs }

-- What a numeral comes to.
pub data Sign : Type 0 where
  not_a_number at_most_zero positive : Sign

abbrev pub of_zeros : Bool → Sign
of_zeros true = at_most_zero
of_zeros false = positive

-- `0x`, `0b` and `0o` literals, which have no sign.
unfoldable pub radix : (ℕ → Bool) → List ℕ → Sign
unfolding run_of
radix digit cs =
    let r = run_of digit cs in
    elim r.rest [ c ∷ _ ↦ not_a_number | [] ↦ if r.any then of_zeros r.zeros else not_a_number ]

abbrev is_hex : ℕ → Bool
is_hex c = is_digit c || (leb b'a' c && leb c b'f') || (leb b'A' c && leb c b'F')

-- The digits of an exponent, to the end.
unfoldable pub ends_exponent : List ℕ → Bool
unfolding run_of
ends_exponent cs = let r = run_of is_digit cs in r.any && elim r.rest [ [] ↦ true | _ ∷ _ ↦ false ]

abbrev signed_exponent : List ℕ → Bool
signed_exponent [] = false
signed_exponent (c ∷ cs) =
    if eqb c b'+' || eqb c b'-' then ends_exponent cs else ends_exponent (c ∷ cs)

-- What may follow the digits of a decimal.
unfoldable pub ends_decimal : List ℕ → Bool
unfolding ends_exponent
ends_decimal [] = true
ends_decimal (c ∷ cs) = (eqb c b'e' || eqb c b'E') && signed_exponent cs

-- The digits `whole` have been read; a value that is too small for a double is read as positive.
unfoldable pub after_whole : Run → List ℕ → Sign
unfolding run_of ends_decimal
after_whole whole [] = if whole.any then of_zeros whole.zeros else not_a_number
after_whole whole (c ∷ cs) =
    let frac = run_of is_digit cs in
    if eqb c b'.'
    then (if (whole.any || frac.any) && ends_decimal frac.rest
        then of_zeros (whole.zeros && frac.zeros)
        else not_a_number)
    else if whole.any && ends_decimal (c ∷ cs)
    then of_zeros whole.zeros
    else not_a_number

unfoldable pub same_codes : List ℕ → List ℕ → Bool
same_codes [] [] = true
same_codes (a ∷ s) (b ∷ t) = eqb a b && same_codes s t
same_codes _ _ = false

unfoldable pub unsigned : List ℕ → Sign
unfolding after_whole same_codes
unsigned cs =
    let whole = run_of is_digit cs in
    if same_codes cs (codes "Infinity") then positive else after_whole whole whole.rest

abbrev pub negated : Sign → Sign
negated not_a_number = not_a_number
negated _ = at_most_zero

-- The empty text is zero.
unfoldable pub sign_of_codes : List ℕ → Sign
unfolding unsigned radix
sign_of_codes [] = at_most_zero
sign_of_codes (c ∷ []) = unsigned (c ∷ [])
sign_of_codes (c ∷ d ∷ cs) =
    if eqb c b'+'
    then unsigned (d ∷ cs)
    else if eqb c b'-'
    then negated (unsigned (d ∷ cs))
    else if eqb c b'0' && (eqb d b'x' || eqb d b'X')
    then radix is_hex cs
    else if eqb c b'0' && (eqb d b'b' || eqb d b'B')
    then radix (λ x. leb b'0' x && leb x b'1') cs
    else if eqb c b'0' && (eqb d b'o' || eqb d b'O')
    then radix (λ x. leb b'0' x && leb x b'7') cs
    else unsigned (c ∷ d ∷ cs)

unfoldable pub sign_of : String → Sign
unfolding trim sign_of_codes
sign_of s = sign_of_codes (codes (trim s))

-- `Number(s) <= 0`; a comparison with NaN is false.
unfoldable pub number_at_most_zero : String → Bool
unfolding sign_of
number_at_most_zero s = elim (sign_of s) [ at_most_zero ↦ true | _ ↦ false ]
