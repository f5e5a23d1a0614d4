-- ===== src/App/Collect.antt =====
-- internal/app/server.go: collect, one round of the telemetry loop. What it stores and
-- deletes besides the flows is a list of calls, in their order, since those are modelled elsewhere.
pub mod Once
use servora.Prelude.{
  Bool, List, Option, [], false, if◌then◌else◌, leb, ltb, none, not, some, true, ℕ, ◌&&◌, ◌*◌, ◌++◌,
  ◌+◌, ◌∷◌,
}
use servora.Clock.{second, minute, unix}
use servora.Store.Settings.{Settings, network_history_enabled, network_retention_days}
use servora.Store.Flows.{NetworkFlow, FlowKey, Flows, save_network_flows, delete_before}
use servora.App.Stream.Hub.{Hub, publish}

-- model.Snapshot: its flows, and the rest, which is what is published and stored.
pub record Polled (D : Type 0) : Type 0 where
  pub flows : List NetworkFlow
  pub rest : D

-- SaveMetric, SaveWatchMetrics, SaveProcessResources, evaluateAlerts, RollupAndPrune, and the second
-- statement of PruneNetworkFlows, on process_resource_history.
pub data CollectCall (D : Type 0) : Type 0 where
  save_metric save_watch_metrics save_process_resources evaluate_alerts : D → CollectCall D
  rollup_and_prune prune_resources : (now : ℕ) → CollectCall D

-- The zero time of Go is `none`; every other instant is after it.
pub record Loop (D : Type 0) : Type 0 where
  pub last_flow_persist : Option ℕ
  pub last_persist : Option ℕ
  pub last_cleanup : Option ℕ
  pub settings : Settings
  pub flows : Flows
  pub hub : Hub D

-- t.After(u)
abbrev pub after : Option ℕ → Option ℕ → Bool
after none u = false
after (some t) none = true
after (some t) (some u) = ltb u t

unfoldable pub newest_from : Option ℕ → List NetworkFlow → Option ℕ
newest_from newest [] = newest
newest_from newest (f ∷ flows) =
    newest_from (if after (some f.timestamp) newest then some f.timestamp else newest) flows

unfoldable pub newest_flow : List NetworkFlow → Option ℕ
unfolding newest_from
newest_flow flows = newest_from none flows

-- last.IsZero() || now.Sub(last) >= period
abbrev pub is_due : (period now : ℕ) → Option ℕ → Bool
is_due period now none = true
is_due period now (some last) = leb (last + period) now

-- `deletes` is whether the first statement of PruneNetworkFlows works; only then comes the second.
module _ {D : Type 0} (days_before : ℕ → ℕ → ℕ) (refuses : NetworkFlow → Bool)
    (begins commits found deletes : Bool) where
  unfoldable pub persist_flows : List NetworkFlow → Loop D → Loop D
  persist_flows flows s =
      let (enabled, settings) = network_history_enabled found s.settings in
      let (success, after_save) = save_network_flows refuses begins commits flows s.flows in
      let read : Loop D = record s { settings = settings } in
      if not (enabled && after (newest_flow flows) s.last_flow_persist)
      then read
      else if success
      then record read { flows = after_save; last_flow_persist = newest_flow flows }
      else record read { flows = after_save }

  unfoldable pub persist_rest : (now : ℕ) → D → Loop D → Loop D × List (CollectCall D)
  persist_rest now d s =
      if is_due (10 * second) now s.last_persist
      then (
        record s { last_persist = some now },
        save_metric d ∷ save_watch_metrics d ∷ save_process_resources d ∷ [],
      )
      else (s, [])

  -- RollupAndPrune has no statement on network_flows; PruneNetworkFlows deletes what is older than
  -- the retention.
  unfoldable pub cleanup : (now : ℕ) → Loop D → Loop D × List (CollectCall D)
  unfolding delete_before
  cleanup now s =
      let cutoff = unix (days_before (network_retention_days found s.settings) now) in
      let left = delete_before (λ (key : FlowKey). key.0) cutoff s.flows in
      if not (is_due (15 * minute) now s.last_cleanup)
      then (s, [])
      else if deletes
      then (
        record s { last_cleanup = some now; flows = left },
        rollup_and_prune now ∷ prune_resources now ∷ [],
      )
      else (record s { last_cleanup = some now }, rollup_and_prune now ∷ [])

  -- The snapshot is `none` where the agent does not answer 200 with a snapshot.
  unfoldable pub collect : (now : ℕ) → Option (Polled D) → Loop D → Loop D × List (CollectCall D)
  unfolding persist_flows persist_rest cleanup
  collect now none s = (s, [])
  collect now (some polled) s =
      let kept = persist_flows polled.flows s in
      let shown : Loop D = record kept { hub = publish polled.rest kept.hub } in
      let (stored, saves) = persist_rest now polled.rest shown in
      let (cleaned, cleans) = cleanup now stored in
      (cleaned, saves ++ evaluate_alerts polled.rest ∷ cleans)

  -- The rounds of collectLoop.
  unfoldable pub collect_all : List (ℕ × Option (Polled D)) → Loop D → Loop D
  unfolding collect
  collect_all [] s = s
  collect_all ((now, polled) ∷ rounds) s = collect_all rounds (collect now polled s).0
