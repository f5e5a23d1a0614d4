-- ===== src/Tests/History.antt =====
-- Runs of the settings, of the history of flows and of resources, and of the telemetry loop.
use servora.Prelude.{
  All, Bool, List, Text, [], any_of, arith, bytes, false, find, if◌then◌else◌, length, ltb, none,
  put, refl, some, sum_rows, text_beq, true, ℕ, ◌*◌, ◌+◌, ◌-◌, ◌==◌, ◌∷◌, ◌≡◌, ◌⊎◌, text_eq, nat_eq,
  pair_eq,
}
use servora.Clock.{second, minute, hour, unix}
use servora.Store.Settings.{
  Settings, network_retention_days, row_enabled, network_key, setting_enabled,
  set_network_retention_days,
}
use servora.Store.Settings.Coherent.{
  SettingsCall, load, answer_calls, started, setting_enabled-answer_calls,
}
use servora.Store.Settings.Storage.{network_storage}
use servora.Store.Settings.Overlap.{Switches}
use servora.Store.Flows.{
  NetworkFlow, Flows, bucket_of, add_flow, add_flows, save_network_flows, bytes_of, counted,
  network_total, delete_before,
}
use servora.Store.Flows.Totals.{received, name_of, moved_since, network_total-save}
use servora.Store.Resources.{
  Loads, Process, History, save_processes, process_key, save_process_resources, read_enabled,
}
use servora.Store.Resources.Growth.{risen_all, save_process_resources_growth}
use servora.App.Http.{Request, patch}
use servora.App.Settings.{Patch, Answers, SettingsDb, network_settings}
use servora.App.Settings.Applied.{network_settings-Applied, working, Applied}
use servora.App.Collect.{is_due, Loop, collect}
use servora.App.Collect.Once.{collect_again}
use servora.Agent.Actions.Effects.{pos}
use servora.Tests.Data.{net, noon, browser}
use servora.Store.Sessions.{Session}

-- The network history is switched off, and asked for with a failing database.
abbrev calls : List SettingsCall
calls = load true ∷ SettingsCall.collect false true true false noon true ∷ load false ∷ []

-- The history is on, and is switched on and off by two calls at a time.
abbrev on_and_off : (enabled : Bool) → Switches
on_and_off enabled = record { network = enabled; cpu = true; memory = true; disk_io = true }

abbrev history_on : Settings
history_on = started ((network_key, record { value = bytes "true"; updated_at = unix noon }) ∷ [])

setting_enabled-answer_calls_example :
    (setting_enabled network_key true (answer_calls calls (started []))).0
    ≡ row_enabled (find network_key (answer_calls calls (started [])).rows)
setting_enabled-answer_calls_example = setting_enabled-answer_calls calls [] network_key

abbrev download : NetworkFlow
download = record {
  timestamp = noon;
  pid = 7;
  process = bytes "curl";
  group = bytes "curl";
  user = bytes "alice";
  protocol = bytes "tcp";
  remote_ip = bytes "192.0.2.1";
  remote_port = 443;
  rx_bytes = 1500;
  tx_bytes = 40;
}

abbrev accepts : NetworkFlow → Bool
accepts f = false

-- Two flows of one minute are one row.
abbrev after_two : Bool × Flows
after_two = save_network_flows accepts true true (download ∷ download ∷ []) []

after_two_total : network_total (λ n. n) (noon - minute) (bytes "rx") true after_two.1 ≡ some 3000
unfolding save_network_flows add_flows add_flow bucket_of network_total counted bytes_of sum_rows
    find put text_beq bytes
after_two_total = refl

network_total-save_example :
    (total : ℕ) × (network_total (λ n. n) (noon - minute) (name_of received) true [] ≡ some total)
    × (network_total (λ n. n) (noon - minute) (name_of received) true after_two.1
        ≡ some (
            total
            + (if after_two.0
                then moved_since (noon - minute) received (download ∷ download ∷ [])
                else 0)))
    × ((after_two.0 ≡ true) ⊎ (after_two.1 ≡ []))
network_total-save_example =
    network_total-save (λ n. n) accepts true true (download ∷ download ∷ []) [] (noon - minute)
      received

-- CPU loads as numbers.
abbrev loads : Loads
loads = record {
  Load = ℕ;
  zero_load = 0;
  add_load = λ a b. a + b;
  max_load = λ a b. if ltb a b then b else a;
}

abbrev postgres : Process loads
postgres = record {
  pid = 9;
  start_time = 5;
  name = bytes "postgres";
  user = bytes "postgres";
  cpu = 2;
  memory = 100;
  read_bytes = 700;
  write_bytes = 90;
}

-- The process has been seen with 500 bytes read and 100 written: its second counter went back.
abbrev history : History loads
history = record {
  settings = started [];
  seen = (bytes "9/5", (500, 100)) ∷ (bytes "8/1", (1, 1)) ∷ [];
  rows = [];
}

abbrev as_is : Text → Text
as_is text = text

abbrev all_pass : Process loads → Bool
all_pass p = false

abbrev stored : History loads
stored = (save_process_resources loads as_is true true true all_pass noon (postgres ∷ []) history).1

stored_eq :
    save_process_resources loads as_is true true true all_pass noon (postgres ∷ []) history
    ≡ (true, stored)
unfolding save_process_resources save_processes read_enabled setting_enabled find
stored_eq = refl

save_process_resources_growth_example :
    (sum_rows (λ key row. row.read_bytes) stored.rows
      ≡ sum_rows (λ key row. row.read_bytes) history.rows
        + risen_all (λ io. io.0) (postgres ∷ []) history.seen)
    × (sum_rows (λ key row. row.write_bytes) stored.rows
        ≡ sum_rows (λ key row. row.write_bytes) history.rows
          + risen_all (λ io. io.1) (postgres ∷ []) history.seen)
    × All
        (λ p. find (process_key loads p) stored.seen ≡ some (p.read_bytes, p.write_bytes))
        (postgres ∷ [])
    × ((any_of (λ p. process_key loads p == bytes "8/1") (postgres ∷ []) ≡ true)
        ⊎ (find (bytes "8/1") stored.seen ≡ none))
save_process_resources_growth_example =
    save_process_resources_growth as_is true all_pass noon (postgres ∷ []) history stored
      (bytes "8/1") (unfold any_of in (refl, tt)) (unfold read_enabled setting_enabled find in refl)
      stored_eq

abbrev alice : Session
alice = record {
  user = bytes "alice";
  csrf = bytes "c0";
  ip = browser;
  created = noon;
  seen = noon;
}

abbrev patch_request : Request
patch_request = record {
  method = patch;
  path = bytes "/api/v1/settings/network";
  remote_addr = bytes "10.0.0.7:5000";
  host = bytes "servora:8443";
  cookie = some (bytes "t0");
  csrf_token = bytes "c0";
  origin = bytes "https://servora:8443";
}

abbrev answers : Answers
answers = record {
  now = noon;
  days_before = λ days now. now - days * (24 * hour);
  found = true;
  retains = true;
  switches = true;
  prunes_flows = true;
  prunes_resources = true;
  agent_status = some 200;
  deletes = true;
  vacuums = true;
  sizes = (4096, 4096);
  marshal = λ p. [];
}

-- A week, and no network history.
abbrev week : Patch
week = record {
  retention_days = pos 7;
  network_enabled = some false;
  cpu_enabled = none;
  memory_enabled = none;
  disk_io_enabled = none;
}

abbrev settings_db : SettingsDb loads
settings_db = record { history = history; flows = after_two.1; audits = [] }

network_settings-Applied_example :
    Applied loads net answers alice patch_request week
      (network_storage true
        (4096, 4096)
        (length settings_db.history.rows)
        settings_db.flows
        (set_network_retention_days 7 noon true settings_db.history.settings).1).0
      7
      (network_settings loads net
        (working answers)
        alice
        patch_request
        (some week)
        none
        settings_db)
network_settings-Applied_example =
    network_settings-Applied loads net answers alice patch_request week none 7 settings_db refl refl
      (omega arith) (omega arith)

-- The loop at its start, and the same flows twice.
abbrev days_ago : ℕ → ℕ → ℕ
days_ago days now = now - days * (24 * hour)

abbrev at_start : Loop ℕ
at_start = record {
  last_flow_persist = none;
  last_persist = none;
  last_cleanup = none;
  settings = started [];
  flows = [];
  hub = record { latest = 0; subs = [] };
}

abbrev first_round : Loop ℕ
first_round =
    (collect days_ago accepts true true true true noon
      (some (record { flows = download ∷ []; rest = 1 })) at_start).0

abbrev second_round : Loop ℕ
second_round =
    (collect days_ago accepts true true true true (noon + second)
      (some (record { flows = download ∷ []; rest = 2 })) first_round).0

collect_again_example :
    (second_round.flows ≡ first_round.flows)
    ⊎ ((is_due (15 * minute) (noon + second) first_round.last_cleanup ≡ true)
        × (second_round.flows
            ≡ delete_before
                (λ key. key.0)
                (unix
                  (days_ago (network_retention_days true second_round.settings) (noon + second)))
                first_round.flows))
collect_again_example =
    collect_again days_ago accepts true true true true noon (noon + second) (download ∷ []) 1 2
      at_start (unfold save_network_flows add_flows add_flow in refl)
