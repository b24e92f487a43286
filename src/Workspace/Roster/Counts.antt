-- ===== src/Workspace/Roster/Counts.antt =====
-- The counts of the roster, and what the buttons that mark it do to them.
use koranco.Base.{
  ◌+◌, ◌≡◌, refl, Bool, true, false, Option, none, some, List, [], ◌∷◌, keep, length, arith, ◌⊎◌,
  inl, inr,
}
use koranco.Types.Server.{AttendanceStatus, present, absent}
use koranco.Workspace.Roster.{
  RosterItem, is_present, is_absent, included_items, present_count, absent_count, unmarked_count,
  mark_all_present,
}

abbrev pub is_unmarked : Option AttendanceStatus → Bool
is_unmarked none = true
is_unmarked (some _) = false

abbrev pub with_status : (Option AttendanceStatus → Bool) → List RosterItem → List RosterItem
with_status p items = keep (λ item. p item.attendance_status) items

one_status :
    (s : Option AttendanceStatus)
    → ((is_present s ≡ true) × (is_absent s ≡ false) × (is_unmarked s ≡ false))
      ⊎ ((is_present s ≡ false) × (is_absent s ≡ true) × (is_unmarked s ≡ false))
      ⊎ ((is_present s ≡ false) × (is_absent s ≡ false) × (is_unmarked s ≡ true))
one_status none = inr (inr (refl, refl, refl))
one_status (some present) = inl (refl, refl, refl)
one_status (some absent) = inr (inl (refl, refl, refl))

length-with_status :
    (items : List RosterItem)
    → length (with_status is_present items)
        + length (with_status is_absent items)
        + length (with_status is_unmarked items)
      ≡ length items
length-with_status [] = omega arith
length-with_status (x ∷ xs) = ground (arith, length-with_status xs, one_status x.attendance_status)

-- The workers shown as present, absent and not marked add up to those on the roster, and those not
-- marked are the ones without a status: the difference that gives them never stops at zero.
pub counts_add_up :
    (roster : List RosterItem)
    → (present_count roster + absent_count roster + unmarked_count roster
        ≡ length (included_items roster))
      × (unmarked_count roster ≡ length (with_status is_unmarked (included_items roster)))
unfolding unmarked_count present_count absent_count
counts_add_up roster =
    let e = length-with_status (included_items roster) in (omega (arith, e), omega (arith, e))

included-mark_all_present :
    (roster : List RosterItem)
    → (length (included_items (mark_all_present roster)) ≡ length (included_items roster))
      × (length (with_status is_present (included_items (mark_all_present roster)))
          ≡ length (included_items roster))
unfolding mark_all_present
included-mark_all_present [] = (refl, refl)
included-mark_all_present (x ∷ xs) =
    let (a, b) = included-mark_all_present xs in (ground (arith, a), ground (arith, b))

-- After "mark all present" the same number of workers is on the roster, all are present, none is
-- absent and none is not marked.
pub counts-mark_all_present :
    (roster : List RosterItem)
    → (present_count (mark_all_present roster) ≡ length (included_items roster))
      × (absent_count (mark_all_present roster) ≡ 0)
      × (unmarked_count (mark_all_present roster) ≡ 0)
      × (length (included_items (mark_all_present roster)) ≡ length (included_items roster))
unfolding unmarked_count present_count absent_count
counts-mark_all_present roster =
    let (a, b) = included-mark_all_present roster in
    let e = length-with_status (included_items (mark_all_present roster)) in
    (b, omega (arith, a, b, e), omega (arith, a, b, e), a)
