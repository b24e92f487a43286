-- ===== src/Base/Texts/Trimmed.antt =====
-- Trimming a text.
use Prim.Native.Char.{code}
use Prim.Native.String.{String, [], ◌∷◌}
use mathlib.Core.Path.{◌≡◌, refl}
use mathlib.Core.Logic.{inl, inr}
use mathlib.Core.Bool.{Bool, false, ◌&&◌}
use koranco.Base.Tests.{Bool-cases}
use koranco.Base.Texts.{blank, is_space, trim_start, trim_end, trim}

starts_with_space : String → Bool
starts_with_space [] = false
starts_with_space (c ∷ s) = is_space (code c)

trim_start-start : (s : String) → starts_with_space (trim_start s) ≡ false
unfolding trim_start starts_with_space
trim_start-start [] = refl
trim_start-start (c ∷ s) = elim (Bool-cases (is_space (code c))) [
  | inl h ↦ rw (h, trim_start) (trim_start-start s)
  | inr h ↦ rw (h, trim_start) h
]

trim_start_kept : (s : String) → starts_with_space s ≡ false → trim_start s ≡ s
unfolding trim_start starts_with_space
trim_start_kept [] h = refl
trim_start_kept (c ∷ s) h = rw h refl

trim_end-start : (s : String) → starts_with_space s ≡ false → starts_with_space (trim_end s) ≡ false
unfolding trim_end starts_with_space
trim_end-start [] h = refl
trim_end-start (c ∷ s) h = rw h h

trim_end_twice : (s : String) → trim_end (trim_end s) ≡ trim_end s
unfolding trim_end
trim_end_twice [] = refl
trim_end_twice (c ∷ s) = elim (Bool-cases (is_space (code c) && blank (trim_end s))) [
  | inl h ↦ rw h refl
  | inr h ↦ rw h (rw (trim_end_twice s, h) refl)
]

-- Trimming a second time changes nothing.
pub trim_twice : (s : String) → trim (trim s) ≡ trim s
unfolding trim
trim_twice s =
    let kept =
      trim_start_kept (trim_end (trim_start s))
        (trim_end-start (trim_start s) (trim_start-start s)) in
    rw kept (trim_end_twice (trim_start s))
