-- ===== src/Lib.antt =====
-- Servora is a monitor and maintenance console for one Linux machine: a web server
-- (internal/app) that runs without privileges and keeps its data in SQLite (internal/store), and
-- an agent (internal/agent) that runs as root, collects telemetry, checks passwords with PAM,
-- and carries out actions. The web server calls the agent over a Unix socket.
--
-- Which file models which part:
--   Prelude, Prelude/*          tests on numbers, lists, texts (Go strings as bytes), tables
--   Clock                       time.Time as nanoseconds since the epoch, Unix() and time.Unix
--   Store/Sessions              internal/store/store.go: CreateSession, Session, SessionActive,
--                               DeleteSession; Lifetime and Passive prove what they do over time
--   Store/Bans                  IsBanned, LoginFailed, ClearFailures; Escalation is about one failure,
--                               Runs about several
--   Store/Audits, Store/Db      Audit, and the tables that a login touches
--   Store/Retention             the statements of RollupAndPrune on sessions, bans and the audit log
--   Store/Alerts                ActiveAlert, PutAlert, AcknowledgeAlert; Rows is about the table
--   Store/Settings              application_settings with its cache: NetworkRetentionDays, settingEnabled,
--                               SetHistoryCollectors; Coherent is about the cache, RoundTrip about
--                               what is read back, Overlap about calls that overlap; Storage is
--                               NetworkStorage
--   Store/Flows                 SaveNetworkFlows, NetworkTotal, PruneNetworkFlows, ClearNetworkFlows;
--                               Totals and Pruning; Timeline is NetworkTimeline
--   Store/Resources             SaveProcessResources, ClearResourceHistory; Growth is about the bytes
--   Store/Objects               the tables watches, alert_rules and notification_targets, and the
--                               lists Audits and Alerts
--   Store/Packages              internal/store/packages.go: SavePackageScan, Package, PackageCounts,
--                               SetPackageScanError, PrunePackageEvents; Diff is about a scan
--   App/Config                  internal/app/config.go: DefaultConfig, LoadConfig, parseCIDRs, csvSet;
--                               Limits is about what is accepted
--   App/Packages                internal/app/packages.go: pageParams, the page of packageItem,
--                               packageRefreshRequest and the scan loop's flag; Paging and Refresh
--   App/Http                    internal/app/server.go: mutation, peerIP, containsIP, sameOrigin, and
--                               what a handler answers
--   App/Gate                    security and requireAuth; Access is who passes them
--   App/Login                   login, logout, agentAuthenticate; Flow is a login from end to end,
--                               Privilege a login with the agent behind it, BruteForce the guessing
--   App/Alerts                  compare, validAlertRule, evaluateAlerts; Engine, Engine/Lifecycle and
--                               Engine/Notices are about the table, one alert and what is sent
--   App/Settings                networkSettings, resourceSettings; Applied and Guarded are about a change
--                               that is accepted and one that is refused
--   App/Items                   watches, watchItem, alertRules, alertRuleItem, alerts, alertItem,
--                               activities, auditResult; Rules is about the stored rules
--   App/Targets                 notificationTargets, notificationTargetItem, sendToTarget, notifyRule;
--                               Backed and Requests relate targets to the agent's secrets, Secrecy is
--                               about the token
--   App/Actions                 actions, schedules, forwardAction, redactParams, processDetail, session,
--                               health, dockerErrors; Forwarding is about what reaches the agent
--   App/Stream                  stream; Hub is Server.subs, Expiry the end of a session
--   App/Collect                 collect and collectLoop; Once is about flows that are polled again
--   Agent/Auth                  internal/agent/server.go: authenticate; internal/app/config.go: IsAdmin
--   Agent/Actions/Effects       the effects of an action, run, delayedCommand; the monad of actions
--   Agent/Actions/AtomicWrite   atomicWrite in its steps
--   Agent/Actions/Validate      the four patterns, jobUnit, parseArgs
--   Agent/Actions/Quote         systemdQuote, and what systemd reads of a quoted word
--   Agent/Actions/Schedule      createSchedule, deleteSchedule; UnitFile is about what they write
--   Agent/Actions/Dispatch      execute, protectedPID, writeSecret, deleteSecret; Policy says which
--                               effects root may have, Safety that execute has no other
--   Agent/Packages              internal/agent/packages.go: packageID, decodePackageID, and the loops of
--                               scanDPKG, scanRPM, dnfUpdates, packageFiles over lines; Ids
--   Agent/Collector/Refresh     internal/agent/collector.go: the refreshes that Snapshot starts
--   Agent/Collector/Counters    counterDelta, the usage of readCPU, readMemory
--   Agent/Collector/Sockets     readNetworkFlows, splitEndpoint, networkProcessGroup; Telescope is about
--                               the sum over several rounds
--   Agent/Collector/Crontab     readCronEntries
--   Agent/Collector/Files       parseProperties, readKeyValueFile, readLimits, the children and open
--                               files of ProcessDetail, the ids of readDockerImages
--   Tests/*                     concrete runs
--
-- How the model corresponds to the code. A handler is a function from the request and the
-- database to the database and the answer; a method of the store takes its tables and gives
-- them back. The SQL statements do what SQL says: a primary key is unique, an upsert replaces,
-- a delete deletes the rows of its condition. Whether a statement fails is an argument of the
-- operations whose callers look at the error; an error that the code drops is not modelled in
-- the others. Columns of counters are unbounded, while what the agent computes of counters
-- wraps at 64 bits. An operation that holds its lock throughout is one step; the streams, the
-- hub and the collector's refreshes interleave such steps. A save and a read of the history's
-- switches hold the lock for the cache only: Store/Settings composes their steps without a
-- pause, and Overlap takes them apart. Times are natural numbers of nanoseconds, and the
-- tables keep whole seconds as the code does, which is where "up to a second" comes from.
-- Calls of time.Now that nothing separates give one instant; login has two, before and after
-- the agent's answer. An action of the agent is the list of its effects with its result, in
-- order; what the operating system answers to an effect is a function of the effect. A write
-- of a file is one effect there, and AtomicWrite justifies it. ORDER BY with equal keys takes
-- the first row.
--
-- Parameters stand for code outside the repository: net, net/url and strings.EqualFold (Net),
-- os/user and PAM (Accounts), the operating system, strconv and encoding/json (Os), SHA-256
-- (hash), bufio, net.ParseCIDR and time.ParseDuration (Std), base64 (Codec), float64 (Floats,
-- Loads, of_sum), the texts of fmt.Sprintf (Words), regular expressions, strconv's clamping
-- and net.SplitHostPort (Reading), systemd's unit files (UnitReader), strings.ToLower (lower),
-- strings.TrimSpace beyond ASCII (trim_space), and what the agent, the clock and the database
-- answer to a handler (Answers, TargetCalls). Loops are structural recursion on the list that
-- they range over, so no fuel is needed.
--
-- Not modelled: the rest of the collector (disks, interfaces, processes, services, sessions,
-- containers) and the network tracker of the agent, which read /proc, tools' output and BPF maps;
-- the agent's HTTP endpoints; the commands of the agent's package scans, APT's updates, the
-- searches of packages; the queries NetworkUsage, NetworkDestinations, ResourceUsage and
-- ResourceTimeline with their handlers; SaveMetric, SaveWatchMetrics and their rollups, which sum
-- float64 in the database; routing and the static files; PAM's binding; start-up.
pub mod Prelude
pub mod Clock
pub mod Store
pub mod App
pub mod Agent
pub mod Tests
