-- ===== src/Session/Listeners.antt =====
-- The listeners of the session: a set that every change of the session is told to.
use koranco.Base.{
  ℕ, ◌+◌, ◌≡◌, refl, Bool, true, false, not, ◌||◌, ◌&&◌, Option, List, [], ◌∷◌, arith, eqb,
  if◌then◌else◌,
}
use koranco.Types.Server.{AuthenticatedUser}
use koranco.Session.{notify, has_listener, without_listener, add_listener}

abbrev pub has_no_duplicates : List ℕ → Bool
has_no_duplicates [] = true
has_no_duplicates (l ∷ ls) = not (has_listener l ls) && has_no_duplicates ls

has_listener-add :
    (l x : ℕ) (ls : List ℕ) → has_listener l (add_listener x ls) ≡ (eqb x l || has_listener l ls)
unfolding has_listener add_listener
has_listener-add l x [] = ground arith
has_listener-add l x (y ∷ ls) = ground (arith, has_listener-add l x ls)

has_listener-without :
    (l x : ℕ) (ls : List ℕ)
    → has_listener l (without_listener x ls) ≡ (not (eqb x l) && has_listener l ls)
unfolding has_listener without_listener
has_listener-without l x [] = ground arith
has_listener-without l x (y ∷ ls) = ground (arith, has_listener-without l x ls)

no_duplicates-add :
    (x : ℕ) (ls : List ℕ)
    → has_no_duplicates ls ≡ true
    → has_no_duplicates (add_listener x ls) ≡ true
unfolding has_listener add_listener
no_duplicates-add x [] h = ground arith
no_duplicates-add x (y ∷ ls) h = ground (arith, no_duplicates-add x ls, has_listener-add y x ls)

no_duplicates-without :
    (x : ℕ) (ls : List ℕ)
    → has_no_duplicates ls ≡ true
    → has_no_duplicates (without_listener x ls) ≡ true
unfolding has_listener without_listener
no_duplicates-without x [] h = ground arith
no_duplicates-without x (y ∷ ls) h =
    ground (arith, no_duplicates-without x ls, has_listener-without y x ls)

-- In a set of listeners without duplicates, subscribing and leaving bring none; a listener that
-- subscribes is there, one that leaves is not, and the others are as before.
pub subscriptions :
    (x l : ℕ) (ls : List ℕ)
    → has_no_duplicates ls ≡ true
    → (has_no_duplicates (add_listener x ls) ≡ true)
      × (has_no_duplicates (without_listener x ls) ≡ true)
      × (has_listener l (add_listener x ls) ≡ (eqb x l || has_listener l ls))
      × (has_listener l (without_listener x ls) ≡ (not (eqb x l) && has_listener l ls))
subscriptions x l ls h = (
  no_duplicates-add x ls h,
  no_duplicates-without x ls h,
  has_listener-add l x ls,
  has_listener-without l x ls,
)

abbrev pub count_calls : ℕ → List (ℕ × Option AuthenticatedUser) → ℕ
count_calls l [] = 0
count_calls l ((x, user) ∷ h) = if eqb x l then count_calls l h + 1 else count_calls l h

count_calls-others :
    (user : Option AuthenticatedUser) (l : ℕ) (ls : List ℕ)
    (heard : List (ℕ × Option AuthenticatedUser))
    → has_listener l ls ≡ false
    → count_calls l (notify user ls heard) ≡ count_calls l heard
unfolding notify has_listener
count_calls-others user l [] heard h = refl
count_calls-others user l (x ∷ ls) heard h =
    ground (arith, count_calls-others user l ls ((x, user) ∷ heard))

-- A change of the session calls each listener of a set without duplicates exactly once, and no one
-- else.
pub count_calls-notify :
    (user : Option AuthenticatedUser) (l : ℕ) (ls : List ℕ)
    (heard : List (ℕ × Option AuthenticatedUser))
    → has_no_duplicates ls ≡ true
    → count_calls l (notify user ls heard)
      ≡ (if has_listener l ls then count_calls l heard + 1 else count_calls l heard)
unfolding notify has_listener
count_calls-notify user l [] heard h = refl
count_calls-notify user l (x ∷ ls) heard h = ground (
  arith,
  count_calls-notify user l ls ((x, user) ∷ heard),
  count_calls-others user l ls ((x, user) ∷ heard),
)
