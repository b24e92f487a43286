-- ===== src/Workspace/Roster/Reload.antt =====
-- What is saved on the device is what the page shows when it is opened again from the device.
use mathlib.Core.Path.{subst}
use koranco.Base.{
  String, ◌≡◌, refl, sym, ◌∙◌, ap, Bool, true, false, ◌&&◌, Option, none, some, List, [], ◌∷◌,
  arith, ◌==◌, eq_iff, eq_refl, if◌then◌else◌, Has, inl, inr, Bool-cases, truthy, first_chars,
  ==-eq-false,
}
use koranco.Types.Local.{CachedWorker}
use koranco.Types.Server.{DraftEntry, AttendanceStatus, present, absent}
use koranco.Workspace.Roster.{
  RosterItem, has_item, entry_of, entries_of, draft_entry_of, offline_item, offline_roster,
  is_present, short_time, time_of,
}

-- Each worker stands on the roster once.
abbrev pub IsDistinct : List RosterItem → Type 0
IsDistinct [] = Unit
IsDistinct (x ∷ xs) = (has_item x.worker_id xs ≡ false) × IsDistinct xs

has_item_there : (xs : List RosterItem) (r : RosterItem) → Has r xs → has_item r.worker_id xs ≡ true
unfolding has_item
has_item_there [] r m = elim m [ ]
has_item_there (x ∷ xs) r (inl e) = rw (sym e, eq_refl)
has_item_there (x ∷ xs) r (inr m) = ground (arith, has_item_there xs r m)

entry_of_missing :
    (id : String) (xs : List RosterItem)
    → has_item id xs ≡ false
    → entry_of id (entries_of xs) ≡ none
unfolding has_item entry_of entries_of draft_entry_of
entry_of_missing id [] h = refl
entry_of_missing id (x ∷ xs) h = ground (arith, entry_of_missing id xs)

-- The entry of a worker among those that are saved.
abbrev pub saved_entry : RosterItem → Option DraftEntry
saved_entry r = if r.included then some (draft_entry_of r) else none

other_worker :
    (x r : RosterItem) (xs : List RosterItem)
    → has_item x.worker_id xs ≡ false
    → Has r xs
    → (x.worker_id == r.worker_id) ≡ false
other_worker x r xs h m =
    ==-eq-false x.worker_id r.worker_id
      (λ e. cc (ap (λ id. has_item id xs) e, h, has_item_there xs r m))

entry_of_saved :
    (xs : List RosterItem) (r : RosterItem)
    → IsDistinct xs
    → Has r xs
    → entry_of r.worker_id (entries_of xs) ≡ saved_entry r
unfolding has_item entry_of entries_of draft_entry_of
entry_of_saved [] r d m = elim m [ ]
entry_of_saved (x ∷ xs) r d (inl e) =
    rw e (ground (arith, entry_of_missing x.worker_id xs d.0, eq_refl x.worker_id))
entry_of_saved (x ∷ xs) r d (inr m) =
    ground (arith, entry_of_saved xs r d.1 m, other_worker x r xs d.0 m)

-- A time as it comes back.
abbrev pub kept_time : Bool → String → String
kept_time b t = if b then first_chars 5 t else ""

short_time-time_of :
    (s : Option AttendanceStatus) (t : String)
    → short_time (time_of s t) ≡ kept_time (is_present s) t
unfolding short_time first_chars
short_time-time_of none t = refl
short_time-time_of (some absent) t = refl
short_time-time_of (some present) t = elim (Bool-cases (truthy t)) [
  | inl h ↦ rw h
  | inr h ↦ let e : t ≡ "" = ground (arith, eq_iff t "") in rw e
]

-- The item of a worker when the page is opened from the device, after the roster was saved.
abbrev pub Restored : RosterItem → RosterItem → Type 0
Restored r item =
    (item.worker_id ≡ r.worker_id)
    × (item.included ≡ r.included)
    × (item.attendance_status ≡ (if r.included then r.attendance_status else none))
    × (item.time_in ≡ kept_time (r.included && is_present r.attendance_status) r.time_in)
    × (item.time_out ≡ kept_time (r.included && is_present r.attendance_status) r.time_out)

offline_item-Restored :
    (w : CachedWorker) (r : RosterItem)
    → w.id ≡ r.worker_id
    → Restored r (offline_item w (saved_entry r))
unfolding offline_item draft_entry_of
offline_item-Restored w r e = elim (Bool-cases r.included) [
  | inl h ↦ rw h (
    e,
    refl,
    refl,
    short_time-time_of r.attendance_status r.time_in,
    short_time-time_of r.attendance_status r.time_out,
  )
  | inr h ↦ rw h (e, refl, refl, refl, refl)
]

Has-offline_item :
    (ws : List CachedWorker) (w : CachedWorker) (es : List DraftEntry)
    → Has w ws
    → Has (offline_item w (entry_of w.id es)) (offline_roster ws es)
unfolding offline_roster
Has-offline_item [] w es m = elim m [ ]
Has-offline_item (x ∷ ws) w es (inl e) = inl (rw e refl)
Has-offline_item (x ∷ ws) w es (inr m) = inr (Has-offline_item ws w es m)

-- When each worker stands on the roster once, the entries that are saved bring back, for every cached
-- worker of the roster, whether he is on it and what he is marked, and the hours and minutes of his
-- times if he is present.
pub offline_roster-entries_of :
    (ws : List CachedWorker) (w : CachedWorker) (roster : List RosterItem) (r : RosterItem)
    → IsDistinct roster
    → Has r roster
    → Has w ws
    → w.id ≡ r.worker_id
    → (item : RosterItem) × Has item (offline_roster ws (entries_of roster)) × Restored r item
offline_roster-entries_of ws w roster r d m there e = (
  offline_item w (entry_of w.id (entries_of roster)),
  Has-offline_item ws w (entries_of roster) there,
  subst (λ o. Restored r (offline_item w o))
      (sym (ap (λ id. entry_of id (entries_of roster)) e ∙ entry_of_saved roster r d m))
      (offline_item-Restored w r e),
)
