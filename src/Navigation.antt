-- ===== src/Navigation.antt =====
-- components/shells/management-navigation.ts: the entries of the menu, by the user's permissions.
pub mod Gated
use Prim.Native.String
use text.Mathlib.Text.{starts_with}
use koranco.Base.{
  String, Bool, true, false, ◌||◌, Option, none, some, List, [], ◌∷◌, ◌++◌, ◌==◌, if◌then◌else◌,
}
use koranco.Types.Server.{AuthenticatedUser}
use koranco.Offline.Lease.{includes}

pub record ManagementNavItem : Type 0 where
  pub current : Bool
  pub href : String
  pub label : String

-- `user?.permissions.includes(permission) ?? false`
unfoldable pub can : Option AuthenticatedUser → String → Bool
unfolding includes
can none permission = false
can (some user) permission = includes user.permissions permission

unfoldable pub is_current : String → String → Bool
is_current current path = current == path || starts_with current (String.◌++◌ path "/")

abbrev pub item : String → String → Bool → ManagementNavItem
item href label current = record { current = current; href = href; label = label }

-- `if (can(permission)) items.push(...)`
abbrev pub push_if : Bool → List ManagementNavItem → List ManagementNavItem → List ManagementNavItem
push_if allowed pushed items = if allowed then items ++ pushed else items

unfoldable pub management_navigation : Option AuthenticatedUser → String → List ManagementNavItem
unfolding can is_current
management_navigation user current =
    push_if (can user "users.read")
      (item "/admin/users" "Users" (current == "/admin/users")
        ∷ item "/admin/security-events" "Security events" (current == "/admin/security-events")
        ∷ [])
      (push_if (can user "farm_structure.read")
        (item "/farm-structure" "Farm structure" (current == "/farm-structure") ∷ [])
        (push_if (can user "workers.read") (item "/workers" "Workers" (current == "/workers") ∷ [])
          (push_if (can user "harvest.read")
            (item "/harvest" "Harvest" (is_current current "/harvest") ∷ [])
            (push_if (can user "attendance.read")
              (item "/attendance" "Attendance" (is_current current "/attendance") ∷ [])
              (push_if (can user "reports.read")
                (item "/reports" "Reports" (is_current current "/reports") ∷ [])
                (item "/" (if can user "reports.read" then "Overview" else "System status")
                    (current == "/")
                  ∷ []))))))
