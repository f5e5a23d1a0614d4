-- ===== src/Store/Settings/Overlap.antt =====
-- What calls of internal/store/store.go leave that overlap: settingEnabled and SetHistoryCollectors
-- hold settingsMu for the cache only, not for the database.
use servora.Prelude.{Bool, Text, put, refl, true, ℕ, ◌≡◌, text_eq}
use servora.Store.Settings.{Settings, set_history_collectors, collector_values, put_rows, put_cache}

-- The four switches of one call of SetHistoryCollectors.
pub record Switches : Type 0 where
  pub network : Bool
  pub cpu : Bool
  pub memory : Bool
  pub disk_io : Bool

-- The two steps of the call: the commit, and the entries of the cache.
abbrev pub commit_switches : (now : ℕ) → Switches → Settings → Settings
commit_switches now v s = record s {
  rows = put_rows now (collector_values v.network v.cpu v.memory v.disk_io) s.rows;
}

abbrev pub cache_switches : Switches → Settings → Settings
cache_switches v s = record s {
  cache = put_cache (collector_values v.network v.cpu v.memory v.disk_io) s.cache;
}

-- The last step of settingEnabled, with what its query has answered.
abbrev pub cache_answer : (key : Text) (enabled : Bool) → Settings → Settings
cache_answer key enabled s = record s { cache = put key enabled s.cache }

-- A call that no other one overlaps is its two steps.
set_history_collectors-eq :
    (now : ℕ) (v : Switches) (s : Settings)
    → set_history_collectors v.network v.cpu v.memory v.disk_io now true s
      ≡ (true, cache_switches v (commit_switches now v s))
unfolding set_history_collectors
set_history_collectors-eq now v s = refl
