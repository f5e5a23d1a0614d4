-- ===== src/App/Settings.antt =====
-- internal/app/server.go: networkSettings, resetAgentNetworkAccounting and resourceSettings, behind
-- requireAuth. The answers of the database, of the clock and of the agent are arguments.
pub mod Applied
pub mod Guarded
use servora.Prelude.{
  Bool, List, Option, Text, [], bytes, false, if◌then◌else◌, length, ltb, nat_beq, none, not, some,
  true, ℕ, ◌/◌, ◌==◌, ◌||◌, text_eq,
}
use servora.Agent.Actions.Effects.{ℤ, pos, negsuc}
use servora.Store.Audits.{Audit, audit}
use servora.Store.Sessions.{Session}
use servora.Store.Settings.{
  Settings, set_network_retention_days, set_history_collectors, network_retention_days,
}
use servora.Store.Settings.Storage.{NetworkStorageInfo, network_storage}
use servora.Store.Flows.{Flows, prune_network_flows, clear_network_flows}
use servora.Store.Resources.{Loads, History, ResourceKey, ResourceRow, clear_resource_history}
use servora.App.Http.{
  Method, get, patch, delete, Request, Net, Reply, json, error, method_not_allowed, peer_ip,
}

-- The body of a PATCH; a switch that is not sent is a null pointer.
pub record Patch : Type 0 where
  pub retention_days : ℤ
  pub network_enabled : Option Bool
  pub cpu_enabled : Option Bool
  pub memory_enabled : Option Bool
  pub disk_io_enabled : Option Bool

-- What the calls of a handler answer: the clock, the database's queries and statements in the order
-- of the code, dbstat, the agent's status, and json.Marshal of the patch for the audit.
pub record Answers : Type 0 where
  pub now : ℕ
  pub days_before : ℕ → ℕ → ℕ
  pub found : Bool
  pub retains : Bool
  pub switches : Bool
  pub prunes_flows : Bool
  pub prunes_resources : Bool
  pub agent_status : Option ℕ
  pub deletes : Bool
  pub vacuums : Bool
  pub sizes : ℕ × ℕ
  pub marshal : Patch → Text

-- An agent that does not answer, or not with a 2xx, is an error.
unfoldable pub reset_agent_network_accounting : Option ℕ → Bool
reset_agent_network_accounting none = false
reset_agent_network_accounting (some status) = nat_beq (status / 100) 2

abbrev pub days_of : ℤ → Option ℕ
days_of (negsuc n) = none
days_of (pos days) = if ltb days 1 || ltb 365 days then none else some days

-- `if input.X != nil { x = *input.X }`
abbrev pub chosen : (current : Bool) → Option Bool → Bool
chosen current none = current
chosen current (some value) = value

module _ (l : Loads) where
  -- What the handlers read and write: the settings, the history of the flows and of the resources,
  -- and the audit log.
  pub record SettingsDb : Type 0 where
    pub history : History l
    pub flows : Flows
    pub audits : List Audit

  module _ (net : Net) (a : Answers) where
    -- writeJSON of NetworkStorage, which may fill the cache.
    unfoldable pub show_storage : SettingsDb → SettingsDb × Reply NetworkStorageInfo
    show_storage db =
        let (info, settings) =
          network_storage a.found a.sizes (length db.history.rows) db.flows db.history.settings in
        (record db { history = record db.history { settings = settings } }, json 200 info)

    unfoldable pub audited :
        Session → Request → (action parameters result : Text) → SettingsDb → SettingsDb
    audited session r action parameters result db = record db {
      audits = audit session.user (peer_ip net r) action [] parameters true result a.now db.audits;
    }

    -- After the retention is saved.
    unfoldable pub save_switches :
        Session → Request → Patch → (days : ℕ) → SettingsDb → SettingsDb × Reply NetworkStorageInfo
    unfolding show_storage audited
    save_switches session r input days db =
        let (current, read) =
          network_storage a.found a.sizes (length db.history.rows) db.flows db.history.settings in
        let (success, settings) =
          set_history_collectors (chosen current.network_enabled input.network_enabled)
            (chosen current.cpu_enabled input.cpu_enabled)
            (chosen current.memory_enabled input.memory_enabled)
            (chosen current.disk_io_enabled input.disk_io_enabled) a.now a.switches read in
        let kept = network_retention_days a.found settings in
        let (_, flows, rows) =
          prune_network_flows a.days_before (λ (key : ResourceKey). key.0) kept a.now a.prunes_flows
            a.prunes_resources (db.flows, db.history.rows) in
        let saved = record db {
          history = record db.history { settings = settings; rows = rows };
          flows = flows;
        } in
        if not success
        then (
          record db { history = record db.history { settings = settings } },
          error 500 (bytes "settings_failed"),
        )
        else show_storage (
            audited session r (bytes "settings.network.update") (a.marshal input)
              (bytes "network retention updated") saved)

    -- The days of the patch, where they are in the range.
    unfoldable pub change_days :
        Session → Request → Patch → Option ℕ → SettingsDb → SettingsDb × Reply NetworkStorageInfo
    unfolding save_switches
    change_days session r input none db = (db, error 400 (bytes "invalid_retention"))
    change_days session r input (some days) db =
        let (success, settings) =
          set_network_retention_days days a.now a.retains db.history.settings in
        let changed = record db { history = record db.history { settings = settings } } in
        let after = save_switches session r input days changed in
        if success then after else (changed, error 500 (bytes "settings_failed"))

    unfoldable pub change_settings :
        Session → Request → Option Patch → SettingsDb → SettingsDb × Reply NetworkStorageInfo
    unfolding change_days
    change_settings session r none db = (db, error 400 (bytes "invalid_retention"))
    change_settings session r (some input) db =
        change_days session r input (days_of input.retention_days) db

    -- The confirmation is `none` where the body is no JSON.
    unfoldable pub confirmed : (phrase : Text) → Option Text → Bool
    confirmed phrase none = false
    confirmed phrase (some text) = text == phrase

    unfoldable pub clear_network :
        Session → Request → Option Text → SettingsDb → SettingsDb × Reply NetworkStorageInfo
    unfolding confirmed show_storage audited
    clear_network session r confirm db =
        let (success, flows) = clear_network_flows a.deletes a.vacuums db.flows in
        let cleared = record db { flows = flows } in
        if not (confirmed (bytes "DELETE NETWORK HISTORY") confirm)
        then (db, error 400 (bytes "confirmation_required"))
        else if not (reset_agent_network_accounting a.agent_status)
        then (db, error 502 (bytes "accounting_reset_failed"))
        else if success
        then show_storage (
            audited session r (bytes "network.history.clear") (bytes "null")
              (bytes "network history cleared") cleared)
        else (cleared, error 500 (bytes "cleanup_failed"))

    unfoldable pub clear_resources :
        Session → Request → Option Text → SettingsDb → SettingsDb × Reply NetworkStorageInfo
    unfolding confirmed show_storage audited
    clear_resources session r confirm db =
        let (success, history) = clear_resource_history l a.deletes a.vacuums db.history in
        let cleared = record db { history = history } in
        if not (confirmed (bytes "DELETE RESOURCE HISTORY") confirm)
        then (db, error 400 (bytes "confirmation_required"))
        else if success
        then show_storage (
            audited session r (bytes "resource.history.clear") (bytes "null")
              (bytes "resource history cleared") cleared)
        else (cleared, error 500 (bytes "cleanup_failed"))

    -- The switch on the method; the handler may decode two bodies, a patch and a confirmation.
    unfoldable pub by_method :
        Method
        → Session
        → Request
        → Option Patch
        → Option Text
        → SettingsDb
        → SettingsDb × Reply NetworkStorageInfo
    unfolding change_settings clear_network
    by_method get session r input confirm db = show_storage db
    by_method patch session r input confirm db = change_settings session r input db
    by_method delete session r input confirm db = clear_network session r confirm db
    by_method _ session r input confirm db = (db, method_not_allowed)

    unfoldable pub network_settings :
        Session
        → Request
        → Option Patch
        → Option Text
        → SettingsDb
        → SettingsDb × Reply NetworkStorageInfo
    unfolding by_method
    network_settings session r input confirm db = by_method r.method session r input confirm db

    unfoldable pub resource_settings :
        Session → Request → Option Text → SettingsDb → SettingsDb × Reply NetworkStorageInfo
    unfolding clear_resources
    resource_settings session r confirm db = elim r.method [
      | get ↦ show_storage db
      | delete ↦ clear_resources session r confirm db
      | _ ↦ (db, method_not_allowed)
    ]
