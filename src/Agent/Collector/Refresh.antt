-- ===== src/Agent/Collector/Refresh.antt =====
-- internal/agent/collector.go: the flags and instants by which Snapshot starts refreshConnections,
-- refreshSystemd and refreshDocker in the background, each at most once at a time, and what
-- refreshDocker leaves.
use servora.Prelude.{
  Bool, Option, Result, Text, [], arith, err, false, if◌then◌else◌, leb, none, not, ok, refl, some,
  true, ℕ, ◌&&◌, ◌*◌, ◌+◌, ◌-◌, ◌<◌, ◌≡◌,
}
use servora.Clock.{second}

-- A flag such as dockerRefreshing, an instant such as lastDocker (the zero time is `none`), and how
-- many of the goroutines run that it started.
pub record Refresh : Type 0 where
  pub refreshing : Bool
  pub last : Option ℕ
  pub running : ℕ

-- IsZero() || now.Sub(last) >= period
abbrev is_stale : (period now : ℕ) → Option ℕ → Bool
is_stale period now none = true
is_stale period now (some last) = leb (last + period) now

-- The test of Snapshot, which starts the goroutine.
unfoldable pub start_if_stale : (period now : ℕ) → Refresh → Refresh
start_if_stale period now s =
    if not s.refreshing && is_stale period now s.last
    then record { refreshing = true; last = s.last; running = s.running + 1 }
    else s

-- The locked end of a goroutine.
unfoldable pub finish : (now : ℕ) → Refresh → Refresh
finish now s = record { refreshing = false; last = some now; running = s.running - 1 }

-- The three of the collector.
pub record Refreshes : Type 0 where
  pub network : Refresh
  pub systemd : Refresh
  pub docker : Refresh

-- c.mu is held for the whole of Snapshot.
unfoldable pub snapshot : (now : ℕ) → Refreshes → Refreshes
unfolding start_if_stale
snapshot now c = record {
  network = start_if_stale second now c.network;
  systemd = start_if_stale (15 * second) now c.systemd;
  docker = start_if_stale (5 * second) now c.docker;
}

abbrev idle : Refresh
idle = record { refreshing = false; last = none; running = 0 }

-- NewCollector
abbrev pub new_collector : Refreshes
new_collector = record { network = idle; systemd = idle; docker = idle }

-- Snapshots, and the ends of goroutines that run, in any order.
pub data CollectorStep (c : Refreshes) : Refreshes → Type 0 where
  snapshotted : (now : ℕ) → CollectorStep c (snapshot now c)
  network_done :
      (now : ℕ)
      → 0 < c.network.running
      → CollectorStep c (record c { network = finish now c.network })
  systemd_done :
      (now : ℕ)
      → 0 < c.systemd.running
      → CollectorStep c (record c { systemd = finish now c.systemd })
  docker_done :
      (now : ℕ) → 0 < c.docker.running → CollectorStep c (record c { docker = finish now c.docker })

pub data CollectorRun (c : Refreshes) : Refreshes → Type 0 where
  begin : CollectorRun c c
  step : {d e : Refreshes} → CollectorRun c d → CollectorStep d e → CollectorRun c e

-- The flag tells whether the one goroutine runs.
abbrev pub IsSingle : Refresh → Type 0
IsSingle s = s.running ≡ (if s.refreshing then 1 else 0)

abbrev pub AreSingle : Refreshes → Type 0
AreSingle c = IsSingle c.network × IsSingle c.systemd × IsSingle c.docker

start_if_stale-IsSingle :
    (period now : ℕ) (s : Refresh) → IsSingle s → IsSingle (start_if_stale period now s)
unfolding start_if_stale
start_if_stale-IsSingle period now s h = ground arith

finish-IsSingle : (now : ℕ) (s : Refresh) → 0 < s.running → IsSingle s → IsSingle (finish now s)
unfolding finish
finish-IsSingle now s r h = ground arith

CollectorStep-AreSingle : {c d : Refreshes} → CollectorStep c d → AreSingle c → AreSingle d
unfolding snapshot
CollectorStep-AreSingle {c} (snapshotted now) (n, s, d) = (
  start_if_stale-IsSingle second now c.network n,
  start_if_stale-IsSingle (15 * second) now c.systemd s,
  start_if_stale-IsSingle (5 * second) now c.docker d,
)
CollectorStep-AreSingle {c} (network_done now r) (n, s, d) =
    (finish-IsSingle now c.network r n, s, d)
CollectorStep-AreSingle {c} (systemd_done now r) (n, s, d) =
    (n, finish-IsSingle now c.systemd r s, d)
CollectorStep-AreSingle {c} (docker_done now r) (n, s, d) = (n, s, finish-IsSingle now c.docker r d)

-- In every state that the collector reaches, each of the three refreshes has at most one goroutine,
-- and its flag is set exactly while that runs: no refresh runs twice at a time, and none is blocked
-- for ever by a flag that nobody clears.
pub CollectorRun-AreSingle : {c : Refreshes} → CollectorRun new_collector c → AreSingle c
CollectorRun-AreSingle begin = (refl, refl, refl)
CollectorRun-AreSingle (step run s) = CollectorStep-AreSingle s (CollectorRun-AreSingle run)

-- What readContainers answers to refreshDocker, and what is kept of it: on an error the containers
-- and the summary of the last success stay.
pub record DockerState (C S : Type 0) : Type 0 where
  pub ready : Bool
  pub failure : Text
  pub containers : C
  pub summary : S

unfoldable pub refresh_docker :
    {C S : Type 0} → Result Text (C × S) → DockerState C S → DockerState C S
refresh_docker (err message) s = record s { ready = false; failure = message }
refresh_docker (ok (containers, summary)) s = record {
  ready = true;
  failure = [];
  containers = containers;
  summary = summary;
}
