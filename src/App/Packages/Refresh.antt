-- ===== src/App/Packages/Refresh.antt =====
-- The requests for a package scan of internal/app/packages.go and the loop that runs them, in any
-- interleaving.
use servora.Prelude.{Bool, arith, false, refl, true, ◌||◌, ◌≡◌}
use servora.App.Packages.{
  LoopPhase, waiting, starting, scanning, RefreshState, request_refresh, take_request, take_tick,
  begin_scan, end_scan,
}

-- One step of the handler or of the loop, which is one goroutine.
pub data Step (s : RefreshState) : RefreshState → Type 0 where
  request : Step s (request_refresh s).0
  receive : s.phase ≡ waiting → s.queued ≡ true → Step s (take_request s)
  tick : s.phase ≡ waiting → Step s (take_tick s)
  begin : s.phase ≡ starting → Step s (begin_scan s)
  finish : s.phase ≡ scanning → Step s (end_scan s)

pub data Reachable : RefreshState → Type 0 where
  start : Reachable (record { refreshing = false; queued = false; phase = waiting })
  next : {s t : RefreshState} → Reachable s → Step s t → Reachable t

abbrev is_busy : LoopPhase → Bool
is_busy waiting = false
is_busy _ = true

-- A scan runs, is about to run, or waits in the channel.
unfoldable pub is_due : RefreshState → Bool
is_due s = is_busy s.phase || s.queued

abbrev pub IsExplained : RefreshState → Type 0
IsExplained s = (s.refreshing ≡ true → is_due s ≡ true) × (s.phase ≡ scanning → s.refreshing ≡ true)

Step-IsExplained : (s : RefreshState) {t : RefreshState} → Step s t → IsExplained s → IsExplained t
unfolding request_refresh take_request take_tick begin_scan end_scan is_due
Step-IsExplained s request h = (λ e. ground (arith, h.0), λ e. ground (arith, h.1))
Step-IsExplained s (receive idle full) h = (λ e. refl, λ e. cc e)
Step-IsExplained s (tick idle) h = (λ e. refl, λ e. cc e)
Step-IsExplained s (begin ready) h = (λ e. refl, λ e. refl)
Step-IsExplained s (finish busy) h = (λ e. cc e, λ e. cc e)

-- In every interleaving of requests, tickers and scans the flag packageRefreshing is never
-- stuck: while it is set, a scan runs, is about to run, or waits in the channel, and while a
-- scan runs it is set.
pub refreshing_not_stuck :
    {s : RefreshState}
    → Reachable s
    → (s.refreshing ≡ true → is_due s ≡ true) × (s.phase ≡ scanning → s.refreshing ≡ true)
refreshing_not_stuck start = (λ e. cc e, λ e. cc e)
refreshing_not_stuck (next r step) = Step-IsExplained _ step (refreshing_not_stuck r)

-- After a request, whether it is accepted or answered as already running, a scan runs, is about to
-- run, or waits in the channel.
pub request_is_served : {s : RefreshState} → Reachable s → is_due (request_refresh s).0 ≡ true
unfolding request_refresh is_due
request_is_served {s} r = ground (arith, (refreshing_not_stuck r).0)
