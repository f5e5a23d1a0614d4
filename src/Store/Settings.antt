-- ===== src/Store/Settings.antt =====
-- internal/store/store.go: the application_settings table and the cache of the history switches.
-- A failing database is an argument: `found` is false where the query fails, `saved` where the
-- statement or the transaction does.
pub mod Coherent
pub mod Overlap
pub mod RoundTrip
pub mod Storage
use servora.Prelude.{
  Bool, List, Option, Table, Text, [], atoi, bytes, false, find, format_bool, if◌then◌else◌, itoa,
  ltb, none, parse_bool, put, some, true, ℕ, ◌||◌, ◌∷◌, text_eq,
}
use servora.Clock.{unix}

pub record SettingRow : Type 0 where
  pub value : Text
  pub updated_at : ℕ

-- The table, and Store.historyCache.
pub record Settings : Type 0 where
  pub rows : Table Text SettingRow
  pub cache : Table Text Bool

abbrev pub retention_key : Text
retention_key = bytes "network_retention_days"

abbrev pub network_key : Text
network_key = bytes "network_history_enabled"

abbrev pub cpu_key : Text
cpu_key = bytes "process_cpu_history_enabled"

abbrev pub memory_key : Text
memory_key = bytes "process_memory_history_enabled"

abbrev pub disk_key : Text
disk_key = bytes "process_disk_io_history_enabled"

abbrev days_in_range : Option ℕ → ℕ
days_in_range none = 10
days_in_range (some days) = if ltb days 1 || ltb 365 days then 10 else days

abbrev pub retention_of : Option SettingRow → ℕ
retention_of none = 10
retention_of (some row) = days_in_range (atoi row.value)

unfoldable pub network_retention_days : (found : Bool) → Settings → ℕ
network_retention_days found s =
    let days = retention_of (find retention_key s.rows) in if found then days else 10

-- The flag is whether there was no error. An int stands in the text column in decimal.
unfoldable pub set_network_retention_days :
    (days now : ℕ) (saved : Bool) → Settings → Bool × Settings
set_network_retention_days days now saved s =
    if ltb days 1 || ltb 365 days
    then (false, s)
    else if saved
    then (
      true,
      record s {
        rows = put retention_key (record { value = itoa days; updated_at = unix now }) s.rows;
      },
    )
    else (false, s)

abbrev pub default_on : Option Bool → Bool
default_on none = true
default_on (some enabled) = enabled

-- What a stored row says: a missing row and a text that is no Boolean mean enabled.
abbrev pub row_enabled : Option SettingRow → Bool
row_enabled none = true
row_enabled (some row) = default_on (parse_bool row.value)

abbrev cache_row : Text → Settings → Option SettingRow → Bool × Settings
cache_row key s none = (true, s)
cache_row key s (some row) =
    let enabled = default_on (parse_bool row.value) in
    (enabled, record s { cache = put key enabled s.cache })

abbrev from_cache : (key : Text) (found : Bool) → Settings → Option Bool → Bool × Settings
from_cache key found s (some enabled) = (enabled, s)
from_cache key found s none = if found then cache_row key s (find key s.rows) else (true, s)

-- Three steps where the cache has no entry: the look into the cache, the query, and the entry, the
-- first and the last under the lock. Other calls may come between them; Overlap is about that.
unfoldable pub setting_enabled : (key : Text) (found : Bool) → Settings → Bool × Settings
setting_enabled key found s = from_cache key found s (find key s.cache)

unfoldable pub load_history_settings : (found : Bool) → Settings → Settings
unfolding setting_enabled
load_history_settings found s =
    let (_, s1) = setting_enabled network_key found s in
    let (_, s2) = setting_enabled cpu_key found s1 in
    let (_, s3) = setting_enabled memory_key found s2 in
    let (_, s4) = setting_enabled disk_key found s3 in s4

unfoldable pub network_history_enabled : (found : Bool) → Settings → Bool × Settings
unfolding setting_enabled
network_history_enabled found s = setting_enabled network_key found s

-- The map `values` of SetHistoryCollectors. Go visits it in any order; its keys are distinct.
abbrev pub collector_values : (network cpu memory disk_io : Bool) → List (Text × Bool)
collector_values network cpu memory disk_io =
    (network_key, network) ∷ (cpu_key, cpu) ∷ (memory_key, memory) ∷ (disk_key, disk_io) ∷ []

unfoldable pub put_rows : ℕ → List (Text × Bool) → Table Text SettingRow → Table Text SettingRow
put_rows now [] rows = rows
put_rows now ((key, enabled) ∷ values) rows =
    put_rows now values
      (put key (record { value = format_bool enabled; updated_at = unix now }) rows)

unfoldable pub put_cache : List (Text × Bool) → Table Text Bool → Table Text Bool
put_cache [] cache = cache
put_cache ((key, enabled) ∷ values) cache = put_cache values (put key enabled cache)

-- Two steps: the transaction commits its rows or is rolled back, and then, under the lock, the cache
-- is written. Other calls may come between them; Overlap is about that.
unfoldable pub set_history_collectors :
    (network cpu memory disk_io : Bool) (now : ℕ) (saved : Bool) → Settings → Bool × Settings
unfolding put_rows put_cache
set_history_collectors network cpu memory disk_io now saved s =
    let values = collector_values network cpu memory disk_io in
    if saved
    then (true, record { rows = put_rows now values s.rows; cache = put_cache values s.cache })
    else (false, s)
