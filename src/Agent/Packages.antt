-- ===== src/Agent/Packages.antt =====
-- internal/agent/packages.go: packageID, decodePackageID, and the reading of what dpkg-query, rpm and
-- dnf print.
pub mod Ids
use servora.Prelude.{
  List, Option, Table, Text, [], bytes, cut_at, has_prefix, if◌then◌else◌, keep, map, none, not,
  put, some, split_at, suc, zero, ℕ, ◌%◌, ◌*◌, ◌++◌, ◌==◌, ◌^◌, ◌||◌, ◌∷◌, text_eq,
}
use servora.Store.Packages.{Package}

-- base64.RawURLEncoding, strconv.ParseUint (its value, whatever its error) and strings.TrimSpace.
pub record Codec : Type 0 where
  pub encode : Text → Text
  pub decode : Text → Option Text
  pub parse_uint : Text → ℕ
  pub trim_space : Text → Text

unfoldable pub package_id : Codec → (manager name architecture : Text) → Text
package_id codec manager name architecture =
    codec.encode (manager ++ (0 ∷ (name ++ (0 ∷ architecture))))

abbrev three_parts : List Text → Option (Text × Text × Text)
three_parts (m ∷ n ∷ a ∷ []) = if m == [] || n == [] || a == [] then none else some (m, n, a)
three_parts _ = none

abbrev decoded_parts : Option Text → Option (Text × Text × Text)
decoded_parts none = none
decoded_parts (some raw) = three_parts (split_at 0 raw)

-- `none` is the error "invalid package id".
unfoldable pub decode_package_id : Codec → Text → Option (Text × Text × Text)
decode_package_id codec id = decoded_parts (codec.decode id)

-- strings.SplitN at one byte, into n + 1 parts at most.
abbrev split_rest : (Text → List Text) → Text → Option (Text × Text) → List Text
split_rest go s none = s ∷ []
split_rest go s (some (before, after)) = before ∷ go after

unfoldable pub split_n : (sep n : ℕ) → Text → List Text
unfolding cut_at
split_n sep zero s = s ∷ []
split_n sep (suc n) s = split_rest (split_n sep n) s (cut_at sep s)

abbrev first_or_empty : List Text → Text
first_or_empty [] = []
first_or_empty (x ∷ xs) = x

abbrev second_or_empty : List Text → Text
second_or_empty (x ∷ y ∷ xs) = y
second_or_empty _ = []

abbrev before_colon : Text → Option (Text × Text) → Text
before_colon name none = name
before_colon name (some (base, after)) = base

module _ (codec : Codec) where
  abbrev scanned_package :
      (manager name architecture version : Text) (size : ℕ) (more : List Text) → Package
  scanned_package manager name architecture version size more = record {
    id = package_id codec manager name architecture;
    manager = manager;
    name = name;
    architecture = architecture;
    installed_version = version;
    candidate_version = [];
    update_state = bytes "unknown";
    source = first_or_empty more;
    summary = second_or_empty more;
    installed_size_bytes = size;
    first_seen = 0;
    last_changed = 0;
  }

  abbrev dpkg_fields : List Text → Option Package
  dpkg_fields (raw ∷ version ∷ architecture ∷ state ∷ size ∷ more) =
      if has_prefix state (bytes "ii")
      then some (
          scanned_package (bytes "apt") (before_colon raw (cut_at b':' raw)) architecture version
            (codec.parse_uint size * 1024 % 2 ^ 64) more)
      else none
  dpkg_fields _ = none

  abbrev rpm_fields : List Text → Option Package
  rpm_fields (name ∷ version ∷ architecture ∷ size ∷ more) =
      if name == []
      then none
      else some
          (scanned_package (bytes "dnf") name architecture version (codec.parse_uint size) more)
  rpm_fields _ = none

  abbrev add_package : Option Package → List Package → List Package
  add_package none items = items
  add_package (some item) items = item ∷ items

  -- scanDPKG and scanRPM, on the lines that the command printed.
  unfoldable pub scan_dpkg : List Text → List Package
  unfolding split_n
  scan_dpkg [] = []
  scan_dpkg (line ∷ rest) = add_package (dpkg_fields (split_n 9 6 line)) (scan_dpkg rest)

  unfoldable pub scan_rpm : List Text → List Package
  unfolding split_n
  scan_rpm [] = []
  scan_rpm (line ∷ rest) = add_package (rpm_fields (split_n 9 5 line)) (scan_rpm rest)

  abbrev dnf_fields : List Text → Table Text Text → Table Text Text
  dnf_fields (name ∷ version ∷ architecture ∷ []) result =
      put (name ++ 0 ∷ architecture) version result
  dnf_fields _ result = result

  -- dnfUpdates: the candidate versions by name and architecture.
  unfoldable pub dnf_updates : List Text → Table Text Text → Table Text Text
  unfolding split_at put
  dnf_updates [] result = result
  dnf_updates (line ∷ rest) result = dnf_updates rest (dnf_fields (split_at 9 line) result)

  -- The loop of packageFiles over the lines.
  unfoldable pub file_lines : List Text → List Text
  unfolding keep
  file_lines lines = keep (λ line. not (line == [])) (map codec.trim_space lines)
