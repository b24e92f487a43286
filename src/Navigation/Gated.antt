-- ===== src/Navigation/Gated.antt =====
-- Every entry of the menu stands under its permission.
use koranco.Base.{
  String, ◌≡◌, refl, Bool, true, false, ◌||◌, ◌&&◌, All, Option, List, [], ◌∷◌, ◌++◌, ◌==◌, arith,
}
use koranco.Types.Server.{AuthenticatedUser}
use koranco.Navigation.{ManagementNavItem, can, push_if, management_navigation}

-- An entry of the menu leads there.
abbrev pub links_to : String → List ManagementNavItem → Bool
links_to href [] = false
links_to href (x ∷ xs) = x.href == href || links_to href xs

links_to-append :
    (href : String) (xs ys : List ManagementNavItem)
    → links_to href (xs ++ ys) ≡ (links_to href xs || links_to href ys)
links_to-append href [] ys = refl
links_to-append href (x ∷ xs) ys = ground (arith, links_to-append href xs ys)

links_to-push_if :
    (href : String) (allowed : Bool) (pushed items : List ManagementNavItem)
    → links_to href (push_if allowed pushed items)
      ≡ (links_to href items || (allowed && links_to href pushed))
links_to-push_if href true pushed items = links_to-append href items pushed
links_to-push_if href false pushed items = ground arith

-- The permission that shows the link, as the menu is meant to be.
abbrev pub permission_for : List (String × String)
permission_for =
    ("/reports", "reports.read")
    ∷ ("/attendance", "attendance.read")
    ∷ ("/harvest", "harvest.read")
    ∷ ("/workers", "workers.read")
    ∷ ("/farm-structure", "farm_structure.read")
    ∷ ("/admin/users", "users.read")
    ∷ ("/admin/security-events", "users.read")
    ∷ []

-- The menu links to a page exactly for a user who has the permission of the page, and to the start page
-- for everyone.
pub links_to-management_navigation :
    (user : Option AuthenticatedUser) (current : String)
    → (links_to "/" (management_navigation user current) ≡ true)
      × All
          (λ (p : String × String).
            links_to p.0 (management_navigation user current) ≡ can user p.1)
          permission_for
unfolding management_navigation
links_to-management_navigation user current = (
  simp (links_to-push_if) (ground arith),
  (
    simp (links_to-push_if) (ground arith),
    (
      simp (links_to-push_if) (ground arith),
      (
        simp (links_to-push_if) (ground arith),
        (
          simp (links_to-push_if) (ground arith),
          (
            simp (links_to-push_if) (ground arith),
            (simp (links_to-push_if) (ground arith), (simp (links_to-push_if) (ground arith), tt)),
          ),
        ),
      ),
    ),
  ),
)
