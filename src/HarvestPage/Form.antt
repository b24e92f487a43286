-- ===== src/HarvestPage/Form.antt =====
-- What the form of the harvest page accepts, and what it holds of a draft that was saved from it.
use Prim.Native.String as S
use koranco.Base.{
  ℕ, ◌≤◌, ◌<◌, String, ◌≡◌, refl, ap, ◌↔◌, inl, inr, true, false, not, ◌||◌, ◌==◌, eqb, eq_iff,
  some, List, [], ◌∷◌, All, Has, truthy, codes, all_digits, whole_number, number_at_most_zero,
  Bool-cases, Option-cases, arith,
}
use koranco.Base.Numerals.Whole.{all_zeros, number_at_most_zero-digits}
use koranco.Types.Server.{FarmUnit, fruit_count}
use koranco.HarvestPage.State.{HarvestState, validate}

abbrev pub IsDigit : ℕ → Type 0
IsDigit c = (b'0' ≤ c) × (c ≤ b'9')

all_digits-All : (cs : List ℕ) → (all_digits cs ≡ true) ↔ All IsDigit cs
unfolding all_digits
all_digits-All [] = (λ _. tt, λ _. refl)
all_digits-All (c ∷ cs) =
    let (to, from) = all_digits-All cs in
    (λ h. (ground arith, to (ground arith)), λ h. rw (from h.1) (ground arith))

abbrev pub SomePositive : List ℕ → Type 0
SomePositive cs = (c : ℕ) × Has c cs × (b'0' < c)

positive_digit : (cs : List ℕ) → All IsDigit cs → all_zeros cs ≡ false → SomePositive cs
unfolding all_zeros
positive_digit [] digits e = cc
positive_digit (c ∷ cs) ((lo, hi), digits) e = elim (Bool-cases (eqb c b'0')) [
  | inl same ↦ let (d, m, big) = positive_digit cs digits (rw same at e) in (d, inr m, big)
  | inr other ↦ (c, inl refl, ground arith)
]

not-all_zeros : (cs : List ℕ) (c : ℕ) → Has c cs → b'0' < c → all_zeros cs ≡ false
unfolding all_zeros
not-all_zeros [] c m big = elim m [ ]
not-all_zeros (d ∷ cs) c (inl e) big = ground arith
not-all_zeros (d ∷ cs) c (inr m) big = ground (arith, not-all_zeros cs c m big)

whole_number-all_digits : (q : String) → whole_number q ≡ true → all_digits (codes q) ≡ true
unfolding whole_number all_digits
whole_number-all_digits S.[] h = refl
whole_number-all_digits (S.◌∷◌ c q) h = h

all_digits-whole_number :
    (q : String) → SomePositive (codes q) → all_digits (codes q) ≡ true → whole_number q ≡ true
unfolding whole_number all_digits
all_digits-whole_number S.[] (c, m, big) h = elim m [ ]
all_digits-whole_number (S.◌∷◌ c q) some_positive h = h

not_empty : (q : String) → SomePositive (codes q) → truthy q ≡ true
not_empty q some_positive = elim (Bool-cases (q == "")) [
  | inl same ↦ absurd (nothing (ap codes ((eq_iff q "").0 same)) some_positive)
  | inr other ↦ rw other refl
]
  where
    nothing : codes q ≡ [] → SomePositive (codes q) → ⊥
    nothing e some_positive = elim (rw e at some_positive).1 [ ]

-- A quantity of digits that is not empty and not zero.
counted :
    (q : String)
    → (not (truthy q) || number_at_most_zero q) ≡ false
    → whole_number q ≡ true
    → All IsDigit (codes q) × SomePositive (codes q)
counted q more whole =
    let digits : all_digits (codes q) ≡ true = whole_number-all_digits q whole in
    let each = (all_digits-All (codes q)).0 digits in
    (each, positive_digit (codes q) each (ground (arith, number_at_most_zero-digits q digits)))

is_counted :
    (q : String)
    → All IsDigit (codes q)
    → SomePositive (codes q)
    → ((not (truthy q) || number_at_most_zero q) ≡ false) × (whole_number q ≡ true)
is_counted q each (c, m, big) =
    let digits : all_digits (codes q) ≡ true = (all_digits-All (codes q)).1 each in
    (
      rw (
        not_empty q (c, m, big),
        number_at_most_zero-digits q digits,
        not-all_zeros (codes q) c m big,
      ),
      all_digits-whole_number q (c, m, big) digits,
    )

-- The form of a fruit count has nothing wrong exactly when a farm unit is chosen and the quantity is
-- made of the digits 0 to 9, one of which at least is not 0.
pub validate-fruit_count :
    (s : HarvestState)
    → s.unit ≡ fruit_count
    → (validate s ≡ "") ↔ (
        ((u : FarmUnit) × (s.farm_unit ≡ some u))
        × All IsDigit (codes s.quantity)
        × SomePositive (codes s.quantity))
unfolding validate
validate-fruit_count s fruit = (
  λ h. elim (Option-cases s.farm_unit) [
    | inl no_unit ↦ cc (rw (no_unit, validate) at h)
    | inr (u, chosen) ↦
        elim (Bool-cases (not (truthy s.quantity) || number_at_most_zero s.quantity)) [
          | inl less ↦ cc (rw (chosen, validate, less) at h)
          | inr more ↦ elim (Bool-cases (whole_number s.quantity)) [
            | inl whole ↦
                let (each, positive_) = counted s.quantity more whole in
                ((u, chosen), each, positive_)
            | inr broken ↦ cc (rw (chosen, validate, more, fruit, broken) at h)
          ]
        ]
  ],
  λ ((u, chosen), each, positive_).
      let (more, whole) = is_counted s.quantity each positive_ in
      rw (chosen, validate, more, whole, fruit) refl,
)
