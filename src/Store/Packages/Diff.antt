-- ===== src/Store/Packages/Diff.antt =====
-- What SavePackageScan of internal/store/packages.go leaves in the inventory and records.
use servora.Prelude.{
  ==_refl, All, Bool, List, Option, Text, [], ap, arith, bytes, false, find, if◌then◌else◌, length,
  ltb, none, not, refl, some, true, ℕ, ◌++◌, ◌==◌, ◌||◌, ◌∷◌, ◌≡◌, text_eq,
}
use servora.Store.Packages.{
  Package, PackageScan, PackageRow, PackageEvent, PackageDb, Inventory, find_package, item_events,
  save_item, save_items, is_seen, drop_unseen, scan_time, save_package_scan,
}

abbrev is_some : Option PackageRow → Bool
is_some none = false
is_some (some row) = true

-- Of two packages with one id the later counts.
abbrev later_of : Option Package → Option Package → Option Package
later_of earlier none = earlier
later_of earlier (some later) = some later

-- The last package of a scan with an id.
unfoldable pub last_item : (id : Text) → List Package → Option Package
last_item id [] = none
last_item id (item ∷ rest) =
    later_of (if item.id == id then some item else none) (last_item id rest)

-- What a row holds of a package.
pub record Content : Type 0 where
  pub installed_version : Text
  pub candidate_version : Text
  pub update_state : Text
  pub source : Text
  pub summary : Text
  pub installed_size_bytes : ℕ

abbrev pub content : PackageRow → Content
content row = record {
  installed_version = row.installed_version;
  candidate_version = row.candidate_version;
  update_state = row.update_state;
  source = row.source;
  summary = row.summary;
  installed_size_bytes = row.installed_size_bytes;
}

-- What the scan says of a package.
abbrev pub said : Package → Content
said item = record {
  installed_version = item.installed_version;
  candidate_version = item.candidate_version;
  update_state = item.update_state;
  source = item.source;
  summary = item.summary;
  installed_size_bytes = item.installed_size_bytes;
}

-- What a row has to hold of a scanned package: what the scan says but, where the scan does not know
-- the update state and the row of before did, that row's update state and candidate version.
abbrev pub due_content : (before : Option PackageRow) → Package → Content
due_content none item = said item
due_content (some row) item =
    if row.update_state == bytes "unknown" || not (item.update_state == bytes "unknown")
    then said item
    else record (said item) {
      update_state = row.update_state;
      candidate_version = row.candidate_version;
    }

abbrev pub contents : Option PackageRow → Option Content
contents none = none
contents (some row) = some (content row)

-- What the inventory has to hold under an id, from the inventory of before and the scan.
abbrev pub due_contents : (before : Option PackageRow) → Option Package → Option Content
due_contents before none = none
due_contents before (some item) = some (due_content before item)

abbrev or_contents : Option Content → Option Content → Option Content
or_contents none other = other
or_contents (some c) other = some c

unknown_events :
    (now : ℕ) (items : List Package) (inventory : Inventory)
    → (save_items now false [] items inventory).1 ≡ []
unfolding save_items find_package find item_events
unknown_events now [] inventory = refl
unknown_events now (item ∷ rest) inventory =
    unknown_events now rest (save_item now false [] item inventory)

nothing_new : (events : List PackageEvent) → events ++ [] ++ [] ≡ events
nothing_new [] = refl
nothing_new (e ∷ rest) = ap (λ t. e ∷ t) (nothing_new rest)

-- The first scan, into an empty inventory, records no event: what is installed already is not news.
pub first_scan-events :
    (clock : ℕ) (scan : PackageScan) (db : PackageDb)
    → db.inventory ≡ []
    → (save_package_scan clock scan db).events ≡ db.events
unfolding save_package_scan drop_unseen
first_scan-events clock scan db empty =
    let now = scan_time clock scan.inventory_scanned_at in
    rw (empty, unknown_events now scan.items []) (nothing_new db.events)

-- The package of the scan is in the inventory, in the same version.
pub record IsUnchanged (existing : Inventory) (item : Package) : Type 0 where
  pub row : PackageRow
  pub stored : find item.id existing ≡ some row
  pub same_version : row.installed_version ≡ item.installed_version

unchanged_events :
    (now : ℕ) (known : Bool) (existing : Inventory) (items : List Package) (inventory : Inventory)
    → All (IsUnchanged existing) items
    → (save_items now known existing items inventory).1 ≡ []
unfolding save_items find_package item_events
unchanged_events now known existing [] inventory h = refl
unchanged_events now known existing (item ∷ rest) inventory h = ground (
  arith,
  h.0.stored,
  h.0.same_version,
  ==_refl item.installed_version,
  unchanged_events now known existing rest (save_item now known existing item inventory) h.1,
)

no_drop_events :
    (now : ℕ) (known : Bool) (items : List Package) (rows inventory : Inventory)
    → All (λ entry. is_seen items entry.0 ≡ true) rows
    → (drop_unseen now known items rows inventory).1 ≡ []
unfolding drop_unseen
no_drop_events now known items [] inventory h = refl
no_drop_events now known items ((id, row) ∷ rest) inventory h =
    ground (arith, no_drop_events now known items rest inventory h.1, h.0)

-- A scan that finds every package of the inventory again, each in its version and no other, records
-- no event.
pub same_scan-events :
    (clock : ℕ) (scan : PackageScan) (db : PackageDb)
    → All (IsUnchanged db.inventory) scan.items
    → All (λ entry. is_seen scan.items entry.0 ≡ true) db.inventory
    → (save_package_scan clock scan db).events ≡ db.events
unfolding save_package_scan
same_scan-events clock scan db unchanged seen =
    let now = scan_time clock scan.inventory_scanned_at in
    let known = ltb 0 (length db.inventory) in
    let saved = (save_items now known db.inventory scan.items db.inventory).0 in
    rw
      (
        unchanged_events now known db.inventory scan.items db.inventory unchanged,
        no_drop_events now known scan.items db.inventory saved seen,
      )
      (nothing_new db.events)
