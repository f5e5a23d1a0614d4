-- ===== src/Store/Packages.antt =====
-- internal/store/packages.go: the tables package_inventory, package_events and package_scan_state,
-- and SavePackageScan, which compares a scan with the inventory. internal/model/model.go: Package and
-- PackageScan. A time that the code tests with IsZero is an Option.
pub mod Diff
use servora.Prelude.{
  Bool, List, Option, Table, Text, [], any_of, bytes, count_if, find, if◌then◌else◌, keep, leb,
  length, ltb, none, not, put, remove, some, ℕ, ◌&&◌, ◌++◌, ◌==◌, ◌∷◌, text_eq,
}
use servora.Clock.{unix, from_unix}

pub record Package : Type 0 where
  pub id : Text
  pub manager : Text
  pub name : Text
  pub architecture : Text
  pub installed_version : Text
  pub candidate_version : Text
  pub update_state : Text
  pub source : Text
  pub summary : Text
  pub installed_size_bytes : ℕ
  pub first_seen : ℕ
  pub last_changed : ℕ

pub record PackageScan : Type 0 where
  pub hostname : Text
  pub manager : Text
  pub inventory_available : Bool
  pub update_check_available : Bool
  pub inventory_scanned_at : Option ℕ
  pub metadata_refreshed_at : Option ℕ
  pub error : Text
  pub items : List Package

-- A row of package_inventory; its key, the id, stands in the table.
pub record PackageRow : Type 0 where
  pub manager : Text
  pub name : Text
  pub architecture : Text
  pub installed_version : Text
  pub candidate_version : Text
  pub update_state : Text
  pub source : Text
  pub summary : Text
  pub installed_size_bytes : ℕ
  pub first_seen : ℕ
  pub last_changed : ℕ
  pub last_seen : ℕ

pub record PackageEvent : Type 0 where
  pub ts : ℕ
  pub package_id : Text
  pub manager : Text
  pub name : Text
  pub architecture : Text
  pub event_type : Text
  pub old_version : Text
  pub new_version : Text

-- The one row of package_scan_state.
pub record ScanState : Type 0 where
  pub hostname : Text
  pub manager : Text
  pub inventory_available : Bool
  pub update_check_available : Bool
  pub inventory_scanned_at : ℕ
  pub metadata_refreshed_at : ℕ
  pub error : Text

abbrev pub Inventory : Type 0
Inventory = Table Text PackageRow

pub record PackageDb : Type 0 where
  pub inventory : Inventory
  pub events : List PackageEvent
  pub scan_state : ScanState

-- A row as SavePackageScan and Package scan it.
abbrev pub of_package_row : Text → PackageRow → Package
of_package_row id row = record {
  id = id;
  manager = row.manager;
  name = row.name;
  architecture = row.architecture;
  installed_version = row.installed_version;
  candidate_version = row.candidate_version;
  update_state = row.update_state;
  source = row.source;
  summary = row.summary;
  installed_size_bytes = row.installed_size_bytes;
  first_seen = from_unix row.first_seen;
  last_changed = from_unix row.last_changed;
}

-- Package; `none` for sql.ErrNoRows.
unfoldable pub find_package : (id : Text) → Inventory → Option Package
find_package id inventory = elim (find id inventory) [
  | none ↦ none
  | some row ↦ some (of_package_row id row)
]

-- The row that insertPackageEvent adds.
abbrev pub package_event :
    (now : ℕ) → Package → (event_type old_version new_version : Text) → PackageEvent
package_event now item event_type old_version new_version = record {
  ts = unix now;
  package_id = item.id;
  manager = item.manager;
  name = item.name;
  architecture = item.architecture;
  event_type = event_type;
  old_version = old_version;
  new_version = new_version;
}

-- An unknown update state keeps what an earlier scan found out.
abbrev pub merged : Option Package → Package → Package
merged none item = item
merged (some old) item =
    if item.update_state == bytes "unknown" && not (old.update_state == bytes "unknown")
    then record item { update_state = old.update_state; candidate_version = old.candidate_version }
    else item

-- The values of first_seen and last_changed, and the events of one item. `known` says whether there
-- was any package before.
abbrev pub seen_first : (now : ℕ) → Option Package → ℕ
seen_first now none = now
seen_first now (some old) = old.first_seen

abbrev pub changed_last : (now : ℕ) → Option Package → Package → ℕ
changed_last now none item = now
changed_last now (some old) item =
    if not (old.installed_version == item.installed_version) then now else old.last_changed

unfoldable pub item_events : (now : ℕ) (known : Bool) → Option Package → Package → List PackageEvent
item_events now known none item =
    if known then package_event now item (bytes "installed") [] item.installed_version ∷ [] else []
item_events now known (some old) item =
    if not (old.installed_version == item.installed_version)
    then package_event now item (bytes "version_changed") old.installed_version
        item.installed_version
      ∷ []
    else []

-- The row that the upsert leaves: on a known id the manager, the name, the architecture and
-- first_seen stay.
abbrev pub upserted : Package → (first changed now : ℕ) → Option PackageRow → PackageRow
upserted item first changed now none = record {
  manager = item.manager;
  name = item.name;
  architecture = item.architecture;
  installed_version = item.installed_version;
  candidate_version = item.candidate_version;
  update_state = item.update_state;
  source = item.source;
  summary = item.summary;
  installed_size_bytes = item.installed_size_bytes;
  first_seen = unix first;
  last_changed = unix changed;
  last_seen = unix now;
}
upserted item first changed now (some row) = record row {
  installed_version = item.installed_version;
  candidate_version = item.candidate_version;
  update_state = item.update_state;
  source = item.source;
  summary = item.summary;
  installed_size_bytes = item.installed_size_bytes;
  last_changed = unix changed;
  last_seen = unix now;
}

module _ (now : ℕ) (known : Bool) (existing : Inventory) where
  unfoldable pub save_item : Package → Inventory → Inventory
  save_item scanned inventory =
      let old = find_package scanned.id existing in
      let item = merged old scanned in
      put item.id
        (upserted item (seen_first now old) (changed_last now old item) now
          (find item.id inventory))
        inventory

  -- The loop over the items of the scan: the inventory, and the events in order.
  unfoldable pub save_items : List Package → Inventory → Inventory × List PackageEvent
  unfolding save_item item_events
  save_items [] inventory = (inventory, [])
  save_items (scanned ∷ rest) inventory =
      let old = find_package scanned.id existing in
      let (after, events) = save_items rest (save_item scanned inventory) in
      (after, item_events now known old (merged old scanned) ++ events)

abbrev pub is_seen : List Package → Text → Bool
is_seen items id = any_of (λ item. item.id == id) items

-- The loop over the packages that were known before, in the order of the table: the code's map has
-- none.
unfoldable pub drop_unseen :
    (now : ℕ) (known : Bool) (items : List Package) (rows : Inventory)
    → Inventory
    → Inventory × List PackageEvent
unfolding any_of
drop_unseen now known items [] inventory = (inventory, [])
drop_unseen now known items ((id, row) ∷ rest) inventory =
    let skipped = drop_unseen now known items rest inventory in
    let removed = drop_unseen now known items rest (remove id inventory) in
    if is_seen items id then skipped else (
      removed.0,
      (if known
            then package_event now (of_package_row id row) (bytes "removed") row.installed_version
                []
              ∷ []
            else [])
          ++ removed.1,
    )

-- time.Now where the scan has no time of its own.
abbrev pub scan_time : (clock : ℕ) → Option ℕ → ℕ
scan_time clock none = clock
scan_time clock (some at) = at

abbrev pub refreshed_at : (before : ℕ) → Option ℕ → ℕ
refreshed_at before none = before
refreshed_at before (some at) = unix at

unfoldable pub save_package_scan : (clock : ℕ) → PackageScan → PackageDb → PackageDb
unfolding save_items drop_unseen
save_package_scan clock scan db =
    let now = scan_time clock scan.inventory_scanned_at in
    let known = ltb 0 (length db.inventory) in
    let saved = save_items now known db.inventory scan.items db.inventory in
    let dropped = drop_unseen now known scan.items db.inventory saved.0 in
    record {
      inventory = dropped.0;
      events = db.events ++ saved.1 ++ dropped.1;
      scan_state = record {
        hostname = scan.hostname;
        manager = scan.manager;
        inventory_available = scan.inventory_available;
        update_check_available = scan.update_check_available;
        inventory_scanned_at = unix now;
        metadata_refreshed_at =
            refreshed_at db.scan_state.metadata_refreshed_at scan.metadata_refreshed_at;
        error = scan.error;
      };
    }

-- SetPackageScanError
unfoldable pub set_package_scan_error : (message : Text) → PackageDb → PackageDb
set_package_scan_error message db = record db {
  scan_state = record db.scan_state { error = message };
}

-- PrunePackageEvents
unfoldable pub prune_package_events : (before : ℕ) → PackageDb → PackageDb
prune_package_events before db = record db { events = keep (λ e. leb (unix before) e.ts) db.events }

-- PackageCounts: all packages, those with an update, those of an unknown state.
unfoldable pub package_counts : Inventory → ℕ × ℕ × ℕ
unfolding count_if
package_counts inventory = (
  length inventory,
  count_if (λ entry. entry.1.update_state == bytes "update_available") inventory,
  count_if (λ entry. entry.1.update_state == bytes "unknown") inventory,
)
