-- ===== src/Agent/Collector/Sockets/Telescope.antt =====
-- Over many polls the flows of a socket add up to the growth of its counter.
use servora.Prelude.{
  ==_iff, List, Option, Text, [], ap, arith, find, find-put, if◌then◌else◌, none, put, refl, some,
  sum_of, sym, true, ℕ, ◌+◌, ◌==◌, ◌∙◌, ◌∷◌, ◌≡◌, ◌≤◌, text_eq, nat_eq,
}
use servora.Agent.Collector.Counters.{counter_delta}
use servora.Agent.Collector.Sockets.{
  Reading, Socket, SocketFlow, Processes, SocketCounters, socket_key, flow_of, socket_flow,
  socket_flows, current_from,
}

-- The counters that a poll reads for a key.
unfoldable pub readings : Text → List Socket → List (ℕ × ℕ)
readings key [] = []
readings key (s ∷ rest) =
    let later = readings key rest in if socket_key s == key then (s.rx, s.tx) ∷ later else later

-- The received bytes of the flows of a key.
unfoldable pub received_of : Text → List (Socket × SocketFlow) → ℕ
received_of key [] = 0
received_of key ((s, flow) ∷ flows) =
    (if socket_key s == key then flow.rx_bytes else 0) + received_of key flows

module _ (re : Reading) (now : ℕ) (processes : Processes) where
  received_of-socket_flow :
      (key : Text) (s : Socket) (old : Option (ℕ × ℕ)) (before : ℕ × ℕ)
      (flows : List (Socket × SocketFlow))
      → (socket_key s == key ≡ true → old ≡ some before)
      → received_of key (socket_flow re now processes s old flows)
        ≡ (if socket_key s == key then counter_delta s.rx before.0 else 0) + received_of key flows
  unfolding received_of flow_of
  received_of-socket_flow key s none before flows h = ground arith
  received_of-socket_flow key s (some old) before flows h = ground arith

  -- One poll, for a key whose previous counters are known.
  received_of-socket_flows :
      (key : Text) (previous : SocketCounters) (before : ℕ × ℕ) (found : List Socket)
      → find key previous ≡ some before
      → received_of key (socket_flows re now processes previous found)
        ≡ sum_of (λ (r : ℕ × ℕ). counter_delta r.0 before.0) (readings key found)
  unfolding received_of socket_flows readings sum_of
  received_of-socket_flows key previous before [] h = refl
  received_of-socket_flows key previous before (s ∷ found) h = ground (
    arith,
    received_of-socket_flows key previous before found h,
    received_of-socket_flow key s (find (socket_key s) previous) before
        (socket_flows re now processes previous found),
    ==_iff (socket_key s) key,
    ap (λ k. find k previous) {x = socket_key s} {y = key},
  )

find-current_from_other :
    (key : Text) (found : List Socket) (current : SocketCounters)
    → readings key found ≡ []
    → find key (current_from current found) ≡ find key current
unfolding readings current_from
find-current_from_other key [] current h = refl
find-current_from_other key (s ∷ found) current h = ground (
  arith,
  find-current_from_other key found (put (socket_key s) (s.rx, s.tx) current),
  find-put (socket_key s) key (s.rx, s.tx) current,
)

-- A key that is read once has that reading.
find-current_from :
    (key : Text) (found : List Socket) (current : SocketCounters) (r : ℕ × ℕ)
    → readings key found ≡ r ∷ []
    → find key (current_from current found) ≡ some r
unfolding readings current_from
find-current_from key [] current r h = ground arith
find-current_from key (s ∷ found) current r h = ground (
  arith,
  find-current_from key found (put (socket_key s) (s.rx, s.tx) current) r,
  find-current_from_other key found (put (socket_key s) (s.rx, s.tx) current),
  find-put (socket_key s) key (s.rx, s.tx) current,
)

-- What the polls report for a key, from the counters before the first of them.
unfoldable pub reported : Reading → Processes → Text → SocketCounters → List (ℕ × List Socket) → ℕ
reported re processes key previous [] = 0
reported re processes key previous ((now, found) ∷ polls) =
    received_of key (socket_flows re now processes previous found)
    + reported re processes key (current_from [] found) polls

-- Every poll reads the key once, and its received bytes never fall.
abbrev IsGrowing : Text → (before : ℕ × ℕ) → List (ℕ × List Socket) → Type 0
IsGrowing key before [] = Unit
IsGrowing key before ((now, found) ∷ polls) =
    (r : ℕ × ℕ) × (readings key found ≡ r ∷ []) × (before.0 ≤ r.0) × IsGrowing key r polls

abbrev last_or : ℕ × ℕ → List (ℕ × ℕ) → ℕ × ℕ
last_or before [] = before
last_or before (r ∷ rest) = r

-- The last reading.
unfoldable pub final : Text → (before : ℕ × ℕ) → List (ℕ × List Socket) → ℕ × ℕ
unfolding readings
final key before [] = before
final key before ((now, found) ∷ polls) = final key (last_or before (readings key found)) polls

-- One reading, which has not fallen.
counter_delta_growth : (now before : ℕ) → before ≤ now → counter_delta now before + before ≡ now
unfolding counter_delta
counter_delta_growth now before h = ground arith

-- For a socket that every poll finds once, and whose counter of received bytes never falls, the
-- received bytes that the polls report add up to its last counter less the counter before them: no
-- byte is lost between two polls, and none is reported twice.
pub reported_telescopes :
    (re : Reading) (processes : Processes) (key : Text) (previous : SocketCounters) (before : ℕ × ℕ)
    (polls : List (ℕ × List Socket))
    → find key previous ≡ some before
    → IsGrowing key before polls
    → reported re processes key previous polls + before.0 ≡ (final key before polls).0
unfolding reported final
reported_telescopes re processes key previous before [] h g = omega arith
reported_telescopes re processes key previous before ((now, found) ∷ polls) h
      (r, once, grows, rest) =
    let seen = find-current_from key found [] r once in
    let one : received_of key (socket_flows re now processes previous found)
        ≡ counter_delta r.0 before.0 =
      received_of-socket_flows re now processes key previous before found h
      ∙ ap (sum_of (λ (q : ℕ × ℕ). counter_delta q.0 before.0)) once
      ∙ (unfold sum_of in omega arith) in
    let later = reported_telescopes re processes key (current_from [] found) r polls seen rest in
    let sum : reported re processes key previous ((now, found) ∷ polls) + before.0
        ≡ (final key r polls).0 =
      omega (arith, one, counter_delta_growth r.0 before.0 grows, later) in
    sum ∙ ap (λ rs. (final key (last_or before rs) polls).0) (sym once)
