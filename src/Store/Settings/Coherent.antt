-- ===== src/Store/Settings/Coherent.antt =====
-- The cache of the switches agrees with the table, and what is set is what is read.
use servora.Prelude.{
  ==_iff, All, Bool, Bool-cases, List, Option-cases, Table, Text, [], arith, bytes, false, find,
  find-put, format_bool, inl, inr, ltb, none, parse_bool-format_bool, put, refl, some, text_beq,
  true, ℕ, ◌==◌, ◌||◌, ◌∷◌, ◌≡◌, ◌≢◌, text_eq,
}
use servora.Clock.{unix}
use servora.Store.Settings.{
  Settings, SettingRow, retention_key, network_key, cpu_key, memory_key, disk_key, row_enabled,
  set_network_retention_days, setting_enabled, load_history_settings, set_history_collectors,
  put_rows, put_cache, collector_values,
}

-- Every cached switch is what the stored row says; the retention is never cached.
pub record IsCoherent (s : Settings) : Type 0 where
  pub agrees :
      (key : Text) (enabled : Bool)
      → find key s.cache ≡ some enabled
      → row_enabled (find key s.rows) ≡ enabled
  pub uncached : find retention_key s.cache ≡ none

-- From a coherent cache a switch is what the table says, whether or not it is cached.
setting_enabled-eq :
    (key : Text) (s : Settings)
    → IsCoherent s
    → (setting_enabled key true s).0 ≡ row_enabled (find key s.rows)
unfolding setting_enabled
setting_enabled-eq key s c = elim (Option-cases (find key s.cache)) [
  | inl missing ↦ elim (Option-cases (find key s.rows)) [
    | inl no_row ↦ ground arith
    | inr (row, stored) ↦ ground arith
  ]
  | inr (enabled, cached) ↦ ground (arith, c.agrees key enabled cached)
]

cached_agrees :
    (key : Text) (row : SettingRow) (s : Settings)
    → IsCoherent s
    → key ≢ retention_key
    → find key s.rows ≡ some row
    → IsCoherent (record s { cache = put key (row_enabled (some row)) s.cache })
cached_agrees key row s c other stored = record {
  agrees = λ k b h.
      ground (arith, c.agrees k b, find-put key k (row_enabled (some row)) s.cache, ==_iff key k);
  uncached = ground (
    arith,
    c.uncached,
    find-put key retention_key (row_enabled (some row)) s.cache,
    ==_iff key retention_key,
  );
}

setting_enabled-IsCoherent :
    (key : Text) (found : Bool) (s : Settings)
    → key ≢ retention_key
    → IsCoherent s
    → IsCoherent (setting_enabled key found s).1
unfolding setting_enabled
setting_enabled-IsCoherent key found s other c = elim (Option-cases (find key s.cache)) [
  | inl missing ↦ rw missing (elim (Bool-cases found) [
    | inl works ↦ rw works (elim (Option-cases (find key s.rows)) [
      | inl no_row ↦ rw no_row c
      | inr (row, stored) ↦ rw stored (cached_agrees key row s c other stored)
    ])
    | inr fails ↦ rw fails c
  ])
  | inr (enabled, cached) ↦ rw cached c
]

retention_row-IsCoherent :
    (row : SettingRow) (s : Settings)
    → IsCoherent s
    → IsCoherent (record s { rows = put retention_key row s.rows })
retention_row-IsCoherent row s c = record {
  agrees = λ key b h. ground (
    arith,
    c.agrees key b h,
    c.uncached,
    find-put retention_key key row s.rows,
    ==_iff retention_key key,
  );
  uncached = c.uncached;
}

set_network_retention_days-IsCoherent :
    (days now : ℕ) (saved : Bool) (s : Settings)
    → IsCoherent s
    → IsCoherent (set_network_retention_days days now saved s).1
unfolding set_network_retention_days
set_network_retention_days-IsCoherent days now saved s c =
    elim (Bool-cases (ltb days 1 || ltb 365 days)) [
      | inl out ↦ rw out c
      | inr within ↦ rw within (elim (Bool-cases saved) [
        | inl works ↦ rw works (retention_row-IsCoherent _ s c)
        | inr fails ↦ rw fails c
      ])
    ]

put_both-IsCoherent :
    (key : Text) (enabled : Bool) (now : ℕ) (s : Settings)
    → key ≢ retention_key
    → IsCoherent s
    → IsCoherent (record {
      rows = put key (record { value = format_bool enabled; updated_at = unix now }) s.rows;
      cache = put key enabled s.cache;
    })
put_both-IsCoherent key enabled now s other c = record {
  agrees = λ k b h. ground (
    arith,
    c.agrees k b,
    find-put key k enabled s.cache,
    find-put key k (record { value = format_bool enabled; updated_at = unix now }) s.rows,
    parse_bool-format_bool enabled,
  );
  uncached =
      ground
        (arith, c.uncached, find-put key retention_key enabled s.cache, ==_iff key retention_key);
}

-- No key of the list is the retention's.
abbrev NoRetention : List (Text × Bool) → Type 0
NoRetention values = All (λ entry. entry.0 ≢ retention_key) values

put_all-IsCoherent :
    (values : List (Text × Bool)) (now : ℕ) (s : Settings)
    → NoRetention values
    → IsCoherent s
    → IsCoherent (record { rows = put_rows now values s.rows; cache = put_cache values s.cache })
unfolding put_rows put_cache
put_all-IsCoherent [] now s h c = c
put_all-IsCoherent ((key, enabled) ∷ values) now s h c =
    put_all-IsCoherent values now _ h.1 (put_both-IsCoherent key enabled now s h.0 c)

ne_of_beq : (s t : Text) → (s == t) ≡ false → s ≢ t
ne_of_beq s t h e = ground (arith, ==_iff s t)

network_ne : network_key ≢ retention_key
network_ne = ne_of_beq network_key retention_key (unfold bytes text_beq in refl)

cpu_ne : cpu_key ≢ retention_key
cpu_ne = ne_of_beq cpu_key retention_key (unfold bytes text_beq in refl)

memory_ne : memory_key ≢ retention_key
memory_ne = ne_of_beq memory_key retention_key (unfold bytes text_beq in refl)

disk_ne : disk_key ≢ retention_key
disk_ne = ne_of_beq disk_key retention_key (unfold bytes text_beq in refl)

set_history_collectors-IsCoherent :
    (network cpu memory disk_io : Bool) (now : ℕ) (saved : Bool) (s : Settings)
    → IsCoherent s
    → IsCoherent (set_history_collectors network cpu memory disk_io now saved s).1
unfolding set_history_collectors
set_history_collectors-IsCoherent network cpu memory disk_io now saved s c =
    elim (Bool-cases saved) [
      | inl works ↦ rw works (
          put_all-IsCoherent (collector_values network cpu memory disk_io) now s
            (network_ne, (cpu_ne, (memory_ne, (disk_ne, tt)))) c)
      | inr fails ↦ rw fails c
    ]

-- The calls of one process, in any order, where each ends before the next begins; each may find the
-- database failing.
pub data SettingsCall : Type 0 where
  load : (found : Bool) → SettingsCall
  ask : (key : Text) → key ≢ retention_key → (found : Bool) → SettingsCall
  retain : (days now : ℕ) (saved : Bool) → SettingsCall
  collect : (network cpu memory disk_io : Bool) (now : ℕ) (saved : Bool) → SettingsCall

unfoldable pub answer_call : SettingsCall → Settings → Settings
answer_call (load found) s = load_history_settings found s
answer_call (ask key other found) s = (setting_enabled key found s).1
answer_call (retain days now saved) s = (set_network_retention_days days now saved s).1
answer_call (collect network cpu memory disk_io now saved) s =
    (set_history_collectors network cpu memory disk_io now saved s).1

unfoldable pub answer_calls : List SettingsCall → Settings → Settings
unfolding answer_call
answer_calls [] s = s
answer_calls (call ∷ calls) s = answer_calls calls (answer_call call s)

load-IsCoherent :
    (found : Bool) (s : Settings) → IsCoherent s → IsCoherent (load_history_settings found s)
unfolding load_history_settings
load-IsCoherent found s c = setting_enabled-IsCoherent disk_key found _ disk_ne (
    setting_enabled-IsCoherent memory_key found _ memory_ne (
      setting_enabled-IsCoherent cpu_key found _ cpu_ne
        (setting_enabled-IsCoherent network_key found s network_ne c)))

answer_call-IsCoherent :
    (call : SettingsCall) (s : Settings) → IsCoherent s → IsCoherent (answer_call call s)
unfolding answer_call
answer_call-IsCoherent (load found) s c = load-IsCoherent found s c
answer_call-IsCoherent (ask key other found) s c = setting_enabled-IsCoherent key found s other c
answer_call-IsCoherent (retain days now saved) s c =
    set_network_retention_days-IsCoherent days now saved s c
answer_call-IsCoherent (collect network cpu memory disk_io now saved) s c =
    set_history_collectors-IsCoherent network cpu memory disk_io now saved s c

answer_calls-IsCoherent :
    (calls : List SettingsCall) (s : Settings) → IsCoherent s → IsCoherent (answer_calls calls s)
unfolding answer_calls
answer_calls-IsCoherent [] s c = c
answer_calls-IsCoherent (call ∷ calls) s c =
    answer_calls-IsCoherent calls (answer_call call s) (answer_call-IsCoherent call s c)

-- The state of a process that has just started on a database.
abbrev pub started : Table Text SettingRow → Settings
started rows = record { rows = rows; cache = [] }

started-IsCoherent : (rows : Table Text SettingRow) → IsCoherent (started rows)
started-IsCoherent rows = record {
  agrees = λ key b h. unfold find in ground arith;
  uncached = unfold find in refl;
}

-- After any sequence of loads, reads and writes of the settings, each of which ends before the next
-- begins and some of which may fail, a switch is answered as the stored row says, whether or not it
-- is cached. Of calls that overlap it says nothing.
pub setting_enabled-answer_calls :
    (calls : List SettingsCall) (rows : Table Text SettingRow) (key : Text)
    → (setting_enabled key true (answer_calls calls (started rows))).0
      ≡ row_enabled (find key (answer_calls calls (started rows)).rows)
setting_enabled-answer_calls calls rows key =
    setting_enabled-eq key _ (answer_calls-IsCoherent calls _ (started-IsCoherent rows))
