-- ===== src/Workspace/Roster.antt =====
-- The roster of modules/attendance/attendance-workspace.tsx: who is on it, what is marked, and the
-- entries that are saved.
pub mod Counts
pub mod Reload
use koranco.Base.{
  ℕ, ◌-◌, String, Bool, true, false, not, ◌&&◌, Option, none, some, List, [], ◌∷◌, ◌++◌, map, keep,
  length, ◌==◌, truthy, if◌then◌else◌, first_chars,
}
use koranco.Types.Server.{
  Instant, Worker, AttendanceEntry, AttendanceStatus, present, absent, DraftEntry,
}
use koranco.Types.Local.{CachedWorker}

pub record RosterItem : Type 0 where
  pub worker_id : String
  pub worker_code : String
  pub worker_name : String
  pub worker_active : Bool
  pub included : Bool
  pub attendance_status : Option AttendanceStatus
  pub time_in : String
  pub time_out : String
  pub entry_id : Option String
  pub version : Option ℕ
  pub corrected_at : Option Instant

-- `time?.slice(0, 5) ?? ""`
unfoldable pub short_time : Option String → String
unfolding first_chars
short_time none = ""
short_time (some t) = first_chars 5 t

unfoldable pub from_entry : AttendanceEntry → RosterItem
unfolding short_time
from_entry e = record {
  worker_id = e.worker_id;
  worker_code = e.worker_code;
  worker_name = e.worker_name;
  worker_active = e.worker_active;
  included = true;
  attendance_status = e.attendance_status;
  time_in = short_time e.time_in;
  time_out = short_time e.time_out;
  entry_id = some e.id;
  version = some e.version;
  corrected_at = e.corrected_at;
}

unfoldable pub from_worker : Worker → RosterItem
from_worker w = record {
  worker_id = w.id;
  worker_code = w.worker_code;
  worker_name = w.full_name;
  worker_active = true;
  included = false;
  attendance_status = none;
  time_in = "";
  time_out = "";
  entry_id = none;
  version = none;
  corrected_at = none;
}

-- `Map.set`: a key that is there keeps its place.
unfoldable pub set_item : RosterItem → List RosterItem → List RosterItem
set_item x [] = x ∷ []
set_item x (y ∷ ys) = if y.worker_id == x.worker_id then x ∷ ys else y ∷ set_item x ys

unfoldable pub has_item : String → List RosterItem → Bool
has_item id [] = false
has_item id (y ∷ ys) = if y.worker_id == id then true else has_item id ys

-- `new Map(entries.map(...))`, from the entries that are there already.
unfoldable pub set_entries : List AttendanceEntry → List RosterItem → List RosterItem
unfolding from_entry set_item
set_entries [] items = items
set_entries (e ∷ es) items = set_entries es (set_item (from_entry e) items)

-- The roster of a session that the server sent.
unfoldable pub online_roster : List AttendanceEntry → List Worker → List RosterItem
unfolding set_entries has_item from_worker
online_roster entries workers =
    let existing = set_entries entries [] in
    existing ++ map from_worker (keep (λ w. not (has_item w.id existing)) workers)

-- `new Map(...).get(id)`: the last entry of a worker counts.
unfoldable pub entry_of : String → List DraftEntry → Option DraftEntry
entry_of id [] = none
entry_of id (e ∷ es) = elim (entry_of id es) [
  | some x ↦ some x
  | none ↦ if e.worker_id == id then some e else none
]

unfoldable pub offline_item : CachedWorker → Option DraftEntry → RosterItem
unfolding short_time
offline_item w none = record {
  worker_id = w.id;
  worker_code = w.worker_code;
  worker_name = w.full_name;
  worker_active = w.active;
  included = false;
  attendance_status = none;
  time_in = "";
  time_out = "";
  entry_id = none;
  version = none;
  corrected_at = none;
}
offline_item w (some e) = record {
  worker_id = w.id;
  worker_code = w.worker_code;
  worker_name = w.full_name;
  worker_active = w.active;
  included = true;
  attendance_status = e.attendance_status;
  time_in = short_time e.time_in;
  time_out = short_time e.time_out;
  entry_id = none;
  version = none;
  corrected_at = none;
}

-- The roster of a draft that is opened from the device.
unfoldable pub offline_roster : List CachedWorker → List DraftEntry → List RosterItem
unfolding entry_of offline_item
offline_roster [] entries = []
offline_roster (w ∷ ws) entries = offline_item w (entry_of w.id entries) ∷ offline_roster ws entries

abbrev pub is_present : Option AttendanceStatus → Bool
is_present (some present) = true
is_present _ = false

abbrev pub is_absent : Option AttendanceStatus → Bool
is_absent (some absent) = true
is_absent _ = false

abbrev pub included_items : List RosterItem → List RosterItem
included_items roster = keep (λ item. item.included) roster

unfoldable pub present_count : List RosterItem → ℕ
present_count roster =
    length (keep (λ item. is_present item.attendance_status) (included_items roster))

unfoldable pub absent_count : List RosterItem → ℕ
absent_count roster =
    length (keep (λ item. is_absent item.attendance_status) (included_items roster))

unfoldable pub unmarked_count : List RosterItem → ℕ
unfolding present_count absent_count
unmarked_count roster = length (included_items roster) - present_count roster - absent_count roster

-- `change(id, patch)`; a patch is what it makes of an item.
unfoldable pub change : String → (RosterItem → RosterItem) → List RosterItem → List RosterItem
change id patch items = map (λ item. if item.worker_id == id then patch item else item) items

unfoldable pub add_all : List RosterItem → List RosterItem
add_all items =
    map (λ item. if item.worker_active then record item { included = true } else item) items

unfoldable pub mark_all_present : List RosterItem → List RosterItem
mark_all_present items =
    map (λ item. if item.included then record item { attendance_status = some present } else item)
      items

abbrev pub time_of : Option AttendanceStatus → String → Option String
time_of status time = if is_present status && truthy time then some time else none

unfoldable pub draft_entry_of : RosterItem → DraftEntry
draft_entry_of item = record {
  worker_id = item.worker_id;
  attendance_status = item.attendance_status;
  time_in = time_of item.attendance_status item.time_in;
  time_out = time_of item.attendance_status item.time_out;
}

-- The entries that `save` sends to the store.
unfoldable pub entries_of : List RosterItem → List DraftEntry
unfolding draft_entry_of
entries_of roster = map draft_entry_of (included_items roster)
