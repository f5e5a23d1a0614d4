-- ===== src/Tests/Packages.antt =====
-- Runs of internal/store/packages.go and internal/app/packages.go.
use servora.Prelude.{
  List, Option, Text, [], all_of, any_of, bytes, cut_at, drop, false, find, has_prefix,
  if◌then◌else◌, nat_beq, none, not, refl, some, take, text_beq, true, ◌==◌, ◌∷◌, ◌≡◌, text_eq,
}
use servora.Store.Packages.{Package, PackageScan, PackageRow, PackageDb, ScanState, is_seen}
use servora.Store.Packages.Diff.{IsUnchanged}
use servora.App.Packages.{
  RefreshState, LoopPhase, scanning, request_refresh, begin_scan, take_request, page_start,
  page_slice, slice_of, is_negative,
}
use servora.App.Packages.Paging.{page_slice-eq}
use servora.App.Packages.Refresh.{
  request, receive, begin, Reachable, start, next, is_due, refreshing_not_stuck,
}
use servora.Agent.Packages.{Codec, package_id, decode_package_id, scan_dpkg, split_n}
use servora.Agent.Packages.Ids.{IsPart, decode_package_id-package_id}
use servora.Tests.Data.{noon}

abbrev vim : (version : Text) → Package
vim version = record {
  id = bytes "vim";
  manager = bytes "apt";
  name = bytes "vim";
  architecture = bytes "amd64";
  installed_version = version;
  candidate_version = [];
  update_state = bytes "current";
  source = [];
  summary = bytes "editor";
  installed_size_bytes = 4000000;
  first_seen = 0;
  last_changed = 0;
}

abbrev scan : PackageScan
scan = record {
  hostname = bytes "host";
  manager = bytes "apt";
  inventory_available = true;
  update_check_available = true;
  inventory_scanned_at = some noon;
  metadata_refreshed_at = none;
  error = [];
  items = vim (bytes "9.1") ∷ [];
}

abbrev never_scanned : ScanState
never_scanned = record {
  hostname = [];
  manager = [];
  inventory_available = false;
  update_check_available = false;
  inventory_scanned_at = 0;
  metadata_refreshed_at = 0;
  error = [];
}

abbrev vim_row : PackageRow
vim_row = record {
  manager = bytes "apt";
  name = bytes "vim";
  architecture = bytes "amd64";
  installed_version = bytes "9.1";
  candidate_version = [];
  update_state = bytes "current";
  source = [];
  summary = bytes "editor";
  installed_size_bytes = 4000000;
  first_seen = 900000;
  last_changed = 900000;
  last_seen = 900000;
}

abbrev empty : PackageDb
empty = record { inventory = []; events = []; scan_state = never_scanned }

abbrev with_vim : PackageDb
with_vim = record {
  inventory = (bytes "vim", vim_row) ∷ [];
  events = [];
  scan_state = never_scanned;
}

vim-IsUnchanged : IsUnchanged with_vim.inventory (vim (bytes "9.1"))
unfolding find text_beq bytes
vim-IsUnchanged = record { row = vim_row; stored = refl; same_version = refl }

vim_seen : is_seen scan.items (bytes "vim") ≡ true
unfolding any_of text_beq bytes
vim_seen = refl

abbrev files : List Text
files = bytes "/usr/bin/vim" ∷ bytes "/usr/bin/vi" ∷ bytes "/etc/vimrc" ∷ []

-- A page so far out that its start is negative in 64 bits.
page_slice-eq_example : page_slice 18446744073709553 500 files [] ≡ (
    if is_negative (page_start 18446744073709553 500)
    then none
    else some (take 500 (drop (page_start 18446744073709553 500) files)))
page_slice-eq_example = page_slice-eq 18446744073709553 500 files []

far_page_panics : page_slice 18446744073709553 500 files [] ≡ none
unfolding page_slice page_start is_negative slice_of
far_page_panics = refl

-- A stand-in for base64 that decodes what it encodes.
abbrev tail : Text → Option Text
tail [] = none
tail (c ∷ s) = some s

abbrev codec : Codec
codec = record { encode = λ s. b'x' ∷ s; decode = tail; parse_uint = λ s. 0; trim_space = λ s. s }

part : (s : Text) → all_of (λ c. not (nat_beq c 0)) s ≡ true → (s == []) ≡ false → IsPart s
part s clean given = record { clean = clean; given = given }

decode_package_id-package_id_example :
    decode_package_id codec (package_id codec (bytes "apt") (bytes "vim") (bytes "amd64"))
    ≡ some (bytes "apt", bytes "vim", bytes "amd64")
decode_package_id-package_id_example =
    decode_package_id-package_id codec (bytes "apt") (bytes "vim") (bytes "amd64") (λ s. refl)
      (part (bytes "apt") (unfold all_of bytes in refl) (unfold text_beq bytes in refl))
      (part (bytes "vim") (unfold all_of bytes in refl) (unfold text_beq bytes in refl))
      (part (bytes "amd64") (unfold all_of bytes in refl) (unfold text_beq bytes in refl))

abbrev idle : RefreshState
idle = record { refreshing = false; queued = false; phase = LoopPhase.waiting }

one_scan : Reachable (begin_scan (take_request (request_refresh idle).0))
unfolding request_refresh take_request begin_scan
one_scan = next (next (next start request) (receive refl refl)) (begin refl)

refreshing_not_stuck_example :
    let s = begin_scan (take_request (request_refresh idle).0) in
    (s.refreshing ≡ true → is_due s ≡ true) × (s.phase ≡ scanning → s.refreshing ≡ true)
refreshing_not_stuck_example = refreshing_not_stuck one_scan

abbrev sized : Codec
sized = record codec { parse_uint = λ s. 4000 }

-- A line of dpkg-query with five fields; the line after it is no package that is installed.
dpkg_read :
    scan_dpkg sized
      (bytes "vim:amd64\t9.1\tamd64\tii \t4000" ∷ bytes "nano\t8\tamd64\trc \t10" ∷ [])
    ≡ record (vim (bytes "9.1")) {
      id = package_id sized (bytes "apt") (bytes "vim") (bytes "amd64");
      update_state = bytes "unknown";
      summary = [];
      installed_size_bytes = 4096000;
    }
      ∷ []
unfolding scan_dpkg split_n cut_at has_prefix package_id bytes
dpkg_read = refl
