-- ===== src/Base/Lists.antt =====
-- Lists over the native numbers: length, filtering by a Boolean test, membership by recursion.
use Prim.Native.Nat.{ℕ, zero, suc, ◌+◌, ◌≤◌, ◌<◌}
use mathlib.Core.Path.{◌≡◌, refl, sym, ap, ◌∙◌, subst}
use mathlib.Core.Logic.{◌⊎◌, inl, inr}
use mathlib.Core.Bool.{Bool, true}
use mathlib.Core.List.{List, [], ◌∷◌, ◌++◌, map}
use native.Mathlib.Omega.{arith}
use koranco.Base.Tests.{if◌then◌else◌, Bool-cases}

module _ {ℓ} {A : Type ℓ} where
  abbrev pub length : List A → ℕ
  length [] = 0
  length (x ∷ xs) = suc (length xs)

  abbrev pub keep : (A → Bool) → List A → List A
  keep p [] = []
  keep p (x ∷ xs) = if p x then x ∷ keep p xs else keep p xs

  pub length-append : (xs ys : List A) → length (xs ++ ys) ≡ length xs + length ys
  length-append [] ys = omega arith
  length-append (x ∷ xs) ys = omega (arith, length-append xs ys)

-- The place of an element in a list.
abbrev pub Has : {A : Type 0} → A → List A → Type 0
Has a [] = ⊥
Has a (x ∷ xs) = (a ≡ x) ⊎ Has a xs

module _ {ℓ κ} {A : Type ℓ} (P : A → Type κ) where
  abbrev pub All : List A → Type κ
  All [] = Unit
  All (x ∷ xs) = P x × All xs

pub All-of : {A : Type 0} {P : A → Type 0} (xs : List A) → ((a : A) → Has a xs → P a) → All P xs
All-of [] h = tt
All-of (x ∷ xs) h = (h x (inl refl), All-of xs (λ a m. h a (inr m)))

pub All-at : {A : Type 0} (P : A → Type 0) (xs : List A) (a : A) → All P xs → Has a xs → P a
All-at P (x ∷ xs) a h (inl e) = subst P (sym e) h.0
All-at P (x ∷ xs) a h (inr m) = All-at P xs a h.1 m
All-at P [] a h m = elim m [ ]

pub length-zero_of_empty : {A : Type 0} (xs : List A) → ((a : A) → ¬ Has a xs) → length xs ≡ 0
length-zero_of_empty [] h = refl
length-zero_of_empty (x ∷ xs) h = absurd (h x (inl refl))

module _ {ℓ} {A : Type ℓ} where
  unfoldable pub take : ℕ → List A → List A
  take zero xs = []
  take (suc n) [] = []
  take (suc n) (x ∷ xs) = x ∷ take n xs

  unfoldable pub drop : ℕ → List A → List A
  drop zero xs = xs
  drop (suc n) [] = []
  drop (suc n) (x ∷ xs) = drop n xs

  pub take-drop : (n : ℕ) (xs : List A) → take n xs ++ drop (length (take n xs)) xs ≡ xs
  unfolding take drop
  take-drop zero xs = refl
  take-drop (suc n) [] = refl
  take-drop (suc n) (x ∷ xs) = ap (λ r. x ∷ r) (take-drop n xs)

  drop-nil : (n : ℕ) → drop n [] ≡ []
  unfolding drop
  drop-nil zero = refl
  drop-nil (suc n) = refl

  pub drop_add : (m n : ℕ) (xs : List A) → drop (m + n) xs ≡ drop n (drop m xs)
  unfolding drop
  drop_add zero n xs = let e : zero + n ≡ n = omega arith in ap (λ k. drop k xs) e
  drop_add (suc m) n [] = drop-nil (suc m + n) ∙ sym (drop-nil n)
  drop_add (suc m) n (x ∷ xs) =
      let e : suc m + n ≡ suc (m + n) = omega arith in ap (λ k. drop k (x ∷ xs)) e ∙ drop_add m n xs

  pub take_empty : (n : ℕ) (xs : List A) → 0 < n → length (take n xs) ≡ 0 → length xs ≡ 0
  unfolding take
  take_empty zero xs pos h = omega arith
  take_empty (suc n) [] pos h = refl
  take_empty (suc n) (x ∷ xs) pos h = omega arith

  pub append_assoc : (xs ys zs : List A) → (xs ++ ys) ++ zs ≡ xs ++ (ys ++ zs)
  append_assoc [] ys zs = refl
  append_assoc (x ∷ xs) ys zs = ap (λ r. x ∷ r) (append_assoc xs ys zs)

  append_nil : (xs : List A) → xs ++ [] ≡ xs
  append_nil [] = refl
  append_nil (x ∷ xs) = ap (λ r. x ∷ r) (append_nil xs)

  -- What an appended list adds nothing to.
  pub append_short : (xs ys zs : List A) → xs ++ ys ≡ zs → length zs ≤ length xs → zs ≡ xs
  append_short xs [] zs e h = sym e ∙ append_nil xs
  append_short xs (y ∷ ys) zs e h =
      let n : length zs ≡ length xs + length (y ∷ ys) =
        sym (ap length e) ∙ length-append xs (y ∷ ys) in
      absurd (omega arith)

pub Has-map :
    {A B : Type 0} (f : A → B) (xs : List A) (b : B)
    → Has b (map f xs)
    → (a : A) × Has a xs × (b ≡ f a)
Has-map f [] b m = elim m [ ]
Has-map f (x ∷ xs) b (inl e) = (x, inl refl, e)
Has-map f (x ∷ xs) b (inr m) = let (a, n, e) = Has-map f xs b m in (a, inr n, e)

pub Has-map_of : {A B : Type 0} (f : A → B) (xs : List A) (a : A) → Has a xs → Has (f a) (map f xs)
Has-map_of f [] a m = elim m [ ]
Has-map_of f (x ∷ xs) a (inl e) = inl (ap f e)
Has-map_of f (x ∷ xs) a (inr m) = inr (Has-map_of f xs a m)

pub Has-keep :
    {A : Type 0} (p : A → Bool) (xs : List A) (a : A) → Has a (keep p xs) → Has a xs × (p a ≡ true)
Has-keep p [] a m = elim m [ ]
Has-keep {A} p (x ∷ xs) a m = elim (Bool-cases (p x)) [
  | inl kept ↦
      let place : (a ≡ x) ⊎ Has a (keep p xs) = rw kept at m in
      elim place [
        | inl e ↦ (inl e, ap p e ∙ kept)
        | inr n ↦ let (k, h) = Has-keep p xs a n in (inr k, h)
      ]
  | inr out ↦ let (n, h) = Has-keep p xs a (rw out at m) in (inr n, h)
]

pub Has-keep_of :
    {A : Type 0} (p : A → Bool) (xs : List A) (a : A) → Has a xs → p a ≡ true → Has a (keep p xs)
Has-keep_of p [] a m h = elim m [ ]
Has-keep_of p (x ∷ xs) a (inl e) h = let kept : p x ≡ true = ap p (sym e) ∙ h in rw kept (inl e)
Has-keep_of p (x ∷ xs) a (inr m) h = elim (Bool-cases (p x)) [
  | inl kept ↦ rw kept (inr (Has-keep_of p xs a m h))
  | inr out ↦ rw out (Has-keep_of p xs a m h)
]
