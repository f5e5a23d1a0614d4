-- ===== src/Store/Settings/Storage.antt =====
-- internal/store/store.go: NetworkStorage, what the settings page shows.
use servora.Prelude.{Bool, [], if◌then◌else◌, length, ltb, ℕ, ◌∷◌}
use servora.Store.Settings.{
  Settings, cpu_key, memory_key, disk_key, network_retention_days, network_history_enabled,
  setting_enabled,
}
use servora.Store.Flows.{Flows}

pub record NetworkStorageInfo : Type 0 where
  pub retention_days : ℕ
  pub network_enabled : Bool
  pub cpu_enabled : Bool
  pub memory_enabled : Bool
  pub disk_io_enabled : Bool
  pub rows : ℕ
  pub oldest : ℕ
  pub newest : ℕ
  pub bytes : ℕ
  pub resource_rows : ℕ
  pub resource_bytes : ℕ

-- COALESCE(MIN(bucket),0) and COALESCE(MAX(bucket),0)
unfoldable pub oldest_bucket : Flows → ℕ
oldest_bucket [] = 0
oldest_bucket ((key, row) ∷ []) = key.0
oldest_bucket ((key, row) ∷ entry ∷ t) =
    let rest = oldest_bucket (entry ∷ t) in if ltb key.0 rest then key.0 else rest

unfoldable pub newest_bucket : Flows → ℕ
newest_bucket [] = 0
newest_bucket ((key, row) ∷ t) =
    let rest = newest_bucket t in if ltb rest key.0 then key.0 else rest

-- `sizes` is what the dbstat table says of the two tables. A query that fails leaves its zero.
unfoldable pub network_storage :
    (found : Bool) (sizes : ℕ × ℕ) (resource_rows : ℕ)
    → Flows
    → Settings
    → NetworkStorageInfo × Settings
network_storage found sizes resource_rows flows s =
    let (network, s1) = network_history_enabled found s in
    let (cpu, s2) = setting_enabled cpu_key found s1 in
    let (memory, s3) = setting_enabled memory_key found s2 in
    let (disk, s4) = setting_enabled disk_key found s3 in
    (
      record {
        retention_days = network_retention_days found s;
        network_enabled = network;
        cpu_enabled = cpu;
        memory_enabled = memory;
        disk_io_enabled = disk;
        rows = if found then length flows else 0;
        oldest = if found then oldest_bucket flows else 0;
        newest = if found then newest_bucket flows else 0;
        bytes = if found then sizes.0 else 0;
        resource_rows = if found then resource_rows else 0;
        resource_bytes = if found then sizes.1 else 0;
      },
      s4,
    )
