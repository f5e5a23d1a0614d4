-- ===== src/App/Settings/Applied.antt =====
-- What a PATCH of the settings stores, deletes and answers.
use servora.Prelude.{
  All, Bool, Option, Option-cases, Table, Text, ap, arith, atoi-itoa, bytes, false, find, find-put,
  find-put_self, inl, inr, itoa, length, ltb, none, put, refl, some, text_beq, true, ℕ, ◌==◌, ◌||◌,
  ◌∙◌, ◌≡◌, ◌≤◌, text_eq,
}
use servora.Clock.{unix}
use servora.Agent.Actions.Effects.{pos}
use servora.Store.Sessions.{Session}
use servora.Store.Settings.{
  Settings, SettingRow, retention_key, network_key, cpu_key, memory_key, disk_key,
  network_retention_days, set_network_retention_days, setting_enabled, network_history_enabled,
  set_history_collectors, put_rows,
}
use servora.Store.Settings.RoundTrip.{setting_enabled-set}
use servora.Store.Settings.Storage.{NetworkStorageInfo, network_storage}
use servora.Store.Flows.{Flows, FlowKey, delete_before, prune_network_flows}
use servora.Store.Flows.Pruning.{delete_before-All}
use servora.Store.Resources.{Loads, ResourceKey}
use servora.App.Http.{patch, Request, Net, Reply, json}
use servora.App.Settings.{
  Patch, Answers, SettingsDb, chosen, show_storage, audited, save_switches, change_days,
  change_settings, by_method, network_settings,
}

-- Reading a switch leaves the rows.
rows-setting_enabled :
    (key : Text) (found : Bool) (s : Settings) → (setting_enabled key found s).1.rows ≡ s.rows
unfolding setting_enabled
rows-setting_enabled key found s = elim (Option-cases (find key s.cache)) [
  | inl missing ↦ elim (Option-cases (find key s.rows)) [
    | inl no_row ↦ ground arith
    | inr (row, stored) ↦ ground arith
  ]
  | inr (enabled, cached) ↦ ground arith
]

rows-network_storage :
    (found : Bool) (sizes : ℕ × ℕ) (n : ℕ) (flows : Flows) (s : Settings)
    → (network_storage found sizes n flows s).1.rows ≡ s.rows
unfolding network_storage network_history_enabled
rows-network_storage found sizes n flows s =
    rows-setting_enabled disk_key found _
    ∙ rows-setting_enabled memory_key found _
    ∙ rows-setting_enabled cpu_key found _
    ∙ rows-setting_enabled network_key found s

retention_other :
    (key : Text) (row : SettingRow) (rows : Table Text SettingRow)
    → (key == retention_key) ≡ false
    → find retention_key (put key row rows) ≡ find retention_key rows
retention_other key row rows h = rw (find-put, h) refl

-- The switches leave the retention.
find-retention-set :
    (network cpu memory disk_io : Bool) (now : ℕ) (s : Settings)
    → find retention_key (set_history_collectors network cpu memory disk_io now true s).1.rows
      ≡ find retention_key s.rows
unfolding set_history_collectors put_rows
find-retention-set network cpu memory disk_io now s =
    retention_other disk_key _ _ (unfold bytes text_beq in refl)
    ∙ retention_other memory_key _ _ (unfold bytes text_beq in refl)
    ∙ retention_other cpu_key _ _ (unfold bytes text_beq in refl)
    ∙ retention_other network_key _ _ (unfold bytes text_beq in refl)

-- What the settings page shows after SetHistoryCollectors.
storage_after :
    (network cpu memory disk_io : Bool) (now : ℕ) (s : Settings) (sizes : ℕ × ℕ) (n : ℕ)
    (flows : Flows)
    → let t = (set_history_collectors network cpu memory disk_io now true s).1 in
      let info = (network_storage true sizes n flows t).0 in
      (info.network_enabled ≡ network)
      × (info.cpu_enabled ≡ cpu)
      × (info.memory_enabled ≡ memory)
      × (info.disk_io_enabled ≡ disk_io)
      × (info.retention_days ≡ network_retention_days true s)
unfolding network_storage network_history_enabled network_retention_days
storage_after network cpu memory disk_io now s sizes n flows =
    let ((on, c, m, d), _) = setting_enabled-set network cpu memory disk_io now true s in
    (
      ap (λ x. x.0) on,
      rw on (ap (λ x. x.0) c),
      rw (on, c) (ap (λ x. x.0) m),
      rw (on, c, m) (ap (λ x. x.0) d),
      rw find-retention-set refl,
    )

-- What a switch is after a body that sends or leaves out its value.
abbrev pub IsAsSent : (before after : Bool) → Option Bool → Type 0
IsAsSent before after none = after ≡ before
IsAsSent before after (some value) = after ≡ value

chosen-IsAsSent :
    (before after : Bool) (sent : Option Bool)
    → after ≡ chosen before sent
    → IsAsSent before after sent
chosen-IsAsSent before after none h = h
chosen-IsAsSent before after (some value) h = h

-- The answers where every query and statement of a PATCH works.
abbrev pub working : Answers → Answers
working a = record a {
  found = true;
  retains = true;
  switches = true;
  prunes_flows = true;
  prunes_resources = true;
}

-- The retention is a matter of the rows.
retention_days_eq :
    (s t : Settings)
    → s.rows ≡ t.rows
    → network_retention_days true s ≡ network_retention_days true t
unfolding network_retention_days
retention_days_eq s t h = rw h refl

retention_after :
    (network cpu memory disk_io : Bool) (now : ℕ) (s : Settings)
    → network_retention_days true (set_history_collectors network cpu memory disk_io now true s).1
      ≡ network_retention_days true s
unfolding network_retention_days
retention_after network cpu memory disk_io now s = rw find-retention-set refl

-- What is left of a table at the cutoff for `kept` days, where that is `days`.
kept-All :
    {K V : Type 0} (cutoff : ℕ → ℕ) (bucket : K → ℕ) (kept days : ℕ)
    → kept ≡ days
    → (t : Table K V)
    → All (λ entry. cutoff days ≤ bucket entry.0) (delete_before bucket (cutoff kept) t)
kept-All cutoff bucket kept days e t = rw (← e) (delete_before-All bucket (cutoff kept) t)

saved_days :
    (s : Settings) (days now : ℕ)
    → 1 ≤ days
    → days ≤ 365
    → network_retention_days true (record s {
      rows = put retention_key (record { value = itoa days; updated_at = unix now }) s.rows;
    })
      ≡ days
unfolding network_retention_days
saved_days s days now low high = ground (
  arith,
  find-put_self retention_key (record { value = itoa days; updated_at = unix now }) s.rows,
  atoi-itoa days (omega arith),
)

module _ (l : Loads) (net : Net) (a : Answers) (session : Session) (r : Request) where
  -- What is left and what is answered, for the days that are kept and the switches.
  abbrev pub Applied :
      (input : Patch) (current : NetworkStorageInfo) (days : ℕ)
      → SettingsDb l × Reply NetworkStorageInfo
      → Type 0
  Applied input current days outcome =
      (info : NetworkStorageInfo) × (outcome.1 ≡ json 200 info)
      × (info.retention_days ≡ days)
      × IsAsSent current.network_enabled info.network_enabled input.network_enabled
      × IsAsSent current.cpu_enabled info.cpu_enabled input.cpu_enabled
      × IsAsSent current.memory_enabled info.memory_enabled input.memory_enabled
      × IsAsSent current.disk_io_enabled info.disk_io_enabled input.disk_io_enabled
      × (All (λ entry. unix (a.days_before days a.now) ≤ entry.0.0) outcome.0.flows)
      × (All (λ entry. unix (a.days_before days a.now) ≤ entry.0.0) outcome.0.history.rows)

  save_switches-Applied :
      (input : Patch) (days : ℕ) (db : SettingsDb l)
      → network_retention_days true db.history.settings ≡ days
      → Applied input
          (network_storage true a.sizes (length db.history.rows) db.flows db.history.settings).0
          days
          (save_switches l net (working a) session r input days db)
  unfolding save_switches show_storage audited set_history_collectors prune_network_flows
  save_switches-Applied input days db h =
      let (current, s) =
        network_storage true a.sizes (length db.history.rows) db.flows db.history.settings in
      let network = chosen current.network_enabled input.network_enabled in
      let cpu = chosen current.cpu_enabled input.cpu_enabled in
      let memory = chosen current.memory_enabled input.memory_enabled in
      let disk_io = chosen current.disk_io_enabled input.disk_io_enabled in
      let t = (set_history_collectors network cpu memory disk_io a.now true s).1 in
      let kept : network_retention_days true s ≡ days =
        retention_days_eq s db.history.settings (rows-network_storage true a.sizes _ _ _) ∙ h in
      let after : network_retention_days true t ≡ days =
        retention_after network cpu memory disk_io a.now s ∙ kept in
      let cutoff : ℕ → ℕ = λ n. unix (a.days_before n a.now) in
      let left =
        delete_before (λ (key : FlowKey). key.0) (cutoff (network_retention_days true t))
          db.flows in
      let rows =
        delete_before (λ (key : ResourceKey). key.0) (cutoff (network_retention_days true t))
          db.history.rows in
      let (e1, e2, e3, e4, e5) =
        storage_after network cpu memory disk_io a.now s a.sizes (length rows) left in
      (
        (network_storage true a.sizes (length rows) left t).0,
        refl,
        e5 ∙ kept,
        chosen-IsAsSent current.network_enabled _ input.network_enabled e1,
        chosen-IsAsSent current.cpu_enabled _ input.cpu_enabled e2,
        chosen-IsAsSent current.memory_enabled _ input.memory_enabled e3,
        chosen-IsAsSent current.disk_io_enabled _ input.disk_io_enabled e4,
        kept-All cutoff (λ key. key.0) (network_retention_days true t) days after db.flows,
        kept-All cutoff (λ key. key.0) (network_retention_days true t) days after db.history.rows,
      )

  network_settings-patch :
      (b : Answers) (input : Option Patch) (confirm : Option Text) (db : SettingsDb l)
      → r.method ≡ patch
      → network_settings l net b session r input confirm db
        ≡ change_settings l net b session r input db
  unfolding network_settings by_method
  network_settings-patch b input confirm db is_patch =
      ap (λ m. by_method l net b m session r input confirm db) is_patch

  change_settings-days :
      (b : Answers) (input : Patch) (days : ℕ) (db : SettingsDb l)
      → input.retention_days ≡ pos days
      → 1 ≤ days
      → days ≤ 365
      → change_settings l net b session r (some input) db
        ≡ change_days l net b session r input (some days) db
  unfolding change_settings
  change_settings-days b input days db given low high =
      ap (λ o. change_days l net b session r input o db) {y = some days} (ground arith)

  -- A PATCH with 1 to 365 days, where every call works, is answered with those days, with each
  -- switch as the body sets it, or as NetworkStorage has it once the days are saved where the body
  -- has none, and it leaves no row of either history that is older than the days.
  pub network_settings-Applied :
      (input : Patch) (confirm : Option Text) (days : ℕ) (db : SettingsDb l)
      → r.method ≡ patch
      → input.retention_days ≡ pos days
      → 1 ≤ days
      → days ≤ 365
      → Applied input
          (network_storage true a.sizes
            (length db.history.rows)
            db.flows
            (set_network_retention_days days a.now true db.history.settings).1).0
          days
          (network_settings l net (working a) session r (some input) confirm db)
  unfolding network_settings change_settings set_network_retention_days change_days
  network_settings-Applied input confirm days db is_patch given low high =
      let within : (ltb days 1 || ltb 365 days) ≡ false = ground arith in
      let row : SettingRow = record { value = itoa days; updated_at = unix a.now } in
      let changed : SettingsDb l = record db {
        history = record db.history {
          settings = record db.history.settings {
            rows = put retention_key row db.history.settings.rows;
          };
        };
      } in
      rw
        (
          network_settings-patch (working a) (some input) confirm db is_patch,
          change_settings-days (working a) input days db given low high,
        )
        (rw within (
          save_switches-Applied input days changed
            (saved_days db.history.settings days a.now low high)))
