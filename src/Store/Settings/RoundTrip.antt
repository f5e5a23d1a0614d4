-- ===== src/Store/Settings/RoundTrip.antt =====
-- What the setters of the settings store is what the getters answer.
use servora.Prelude.{
  Bool, Table, Text, arith, atoi-itoa, bytes, false, find, find-put, find-put_self, itoa, put, refl,
  some, text_beq, true, ℕ, ◌<◌, ◌≡◌, ◌≤◌, ◌⊎◌, text_eq,
}
use servora.Clock.{unix}
use servora.Store.Settings.{
  Settings, retention_key, network_key, cpu_key, memory_key, disk_key, network_retention_days,
  set_network_retention_days, setting_enabled, set_history_collectors, put_cache,
}

retention_bounds :
    (found : Bool) (s : Settings)
    → (1 ≤ network_retention_days found s) × (network_retention_days found s ≤ 365)
unfolding network_retention_days
retention_bounds found s = ground arith

-- A number of days from 1 to 365 that is saved is read back; another number is refused and leaves
-- the settings as they are; and whatever the table holds, the retention is 1 to 365 days.
pub network_retention_days-set :
    (days now : ℕ) (s : Settings)
    → ((1 ≤ days
          → days ≤ 365
          → network_retention_days true (set_network_retention_days days now true s).1 ≡ days)
        × ((days < 1) ⊎ (365 < days) → set_network_retention_days days now true s ≡ (false, s)))
      × ((found : Bool)
          → (1 ≤ network_retention_days found s) × (network_retention_days found s ≤ 365))
unfolding network_retention_days set_network_retention_days
network_retention_days-set days now s = (
  (
    λ low high. ground (
      arith,
      find-put_self retention_key (record { value = itoa days; updated_at = unix now }) s.rows,
      atoi-itoa days (omega arith),
    ),
    λ out. ground arith,
  ),
  λ found. retention_bounds found s,
)

-- The cache after SetHistoryCollectors.
pub cached :
    (network cpu memory disk_io : Bool) (cache : Table Text Bool)
    → let t =
        put disk_key disk_io
          (put memory_key memory (put cpu_key cpu (put network_key network cache))) in
      (find network_key t ≡ some network)
      × (find cpu_key t ≡ some cpu)
      × (find memory_key t ≡ some memory)
      × (find disk_key t ≡ some disk_io)
cached network cpu memory disk_io cache = (
  rw (find-put, find-put, find-put, find-put) (unfold bytes text_beq in refl),
  rw (find-put, find-put, find-put) (unfold bytes text_beq in refl),
  rw (find-put, find-put) (unfold bytes text_beq in refl),
  rw find-put (unfold bytes text_beq in refl),
)

-- After SetHistoryCollectors each of the four switches is what it was set to, at once; where the
-- transaction fails, the settings stay as they were.
pub setting_enabled-set :
    (network cpu memory disk_io : Bool) (now : ℕ) (found : Bool) (s : Settings)
    → let t = (set_history_collectors network cpu memory disk_io now true s).1 in
      ((setting_enabled network_key found t ≡ (network, t))
        × (setting_enabled cpu_key found t ≡ (cpu, t))
        × (setting_enabled memory_key found t ≡ (memory, t))
        × (setting_enabled disk_key found t ≡ (disk_io, t)))
      × (set_history_collectors network cpu memory disk_io now false s ≡ (false, s))
unfolding set_history_collectors setting_enabled put_cache
setting_enabled-set network cpu memory disk_io now found s =
    let h = cached network cpu memory disk_io s.cache in
    ((ground arith, ground arith, ground arith, ground arith), refl)
