-- ===== src/Store/Flows/Timeline.antt =====
-- internal/store/store.go: NetworkTimeline. SQLite compares the text of a request with the pid
-- column by its own rules: `pid_is` stands for them.
use servora.Prelude.{
  Bool, List, Table, Text, [], arith, bytes, if◌then◌else◌, leb, ltb, map, nat_beq, refl, suc,
  sum_of, sum_rows, true, ℕ, ◌&&◌, ◌*◌, ◌+◌, ◌-◌, ◌/◌, ◌==◌, ◌∙◌, ◌∷◌, ◌≡◌, ◌≤◌, text_eq,
}
use servora.Clock.{unix, from_unix, hour}
use servora.Store.Flows.{FlowKey, Traffic, Flows}

pub record TimelinePoint : Type 0 where
  pub time : ℕ
  pub rx_bytes : ℕ
  pub tx_bytes : ℕ

-- The seconds of a point, by the span of the range; a negative span is 0 here, which makes no
-- difference.
unfoldable pub interval_of : (from to : ℕ) → ℕ
interval_of from to =
    if ltb (72 * hour) (to - from) then 21600 else if ltb (24 * hour) (to - from) then 3600 else 300

-- The column and its test.
unfoldable pub selects : (pid_is : ℕ → Text → Bool) (selector value : Text) → FlowKey → Bool
selects pid_is selector value (bucket, (pid, (process, (group, rest)))) =
    if selector == bytes "group"
    then group == value
    else if selector == bytes "pid"
    then pid_is pid value
    else process == value

-- WHERE bucket BETWEEN ? AND ? AND column=?
unfoldable pub in_timeline :
    (pid_is : ℕ → Text → Bool) (from to : ℕ) (selector value : Text) → FlowKey → Bool
unfolding selects
in_timeline pid_is from to selector value key =
    leb (unix from) key.0 && leb key.0 (unix to) && selects pid_is selector value key

-- GROUP BY … ORDER BY: one point for each start of an interval, in order. Here `start` counts
-- seconds.
unfoldable pub add_point : (start : ℕ) → Traffic → Table ℕ Traffic → Table ℕ Traffic
add_point start row [] = (start, row) ∷ []
add_point start row ((other, sum) ∷ points) =
    let later = add_point start row points in
    if ltb start other
    then (start, row) ∷ (other, sum) ∷ points
    else if nat_beq start other
    then (
      start,
      record {
        rx_bytes = sum.rx_bytes + row.rx_bytes;
        tx_bytes = sum.tx_bytes + row.tx_bytes;
        samples = sum.samples + row.samples;
      },
    )
      ∷ points
    else (other, sum) ∷ later

unfoldable pub grouped : (interval : ℕ) (matches : FlowKey → Bool) → Flows → Table ℕ Traffic
unfolding add_point
grouped interval matches [] = []
grouped interval matches ((key, row) ∷ t) =
    let points = grouped interval matches t in
    if matches key then add_point (key.0 / interval * interval) row points else points

abbrev to_point : ℕ × Traffic → TimelinePoint
to_point (start, row) = record {
  time = from_unix start;
  rx_bytes = row.rx_bytes;
  tx_bytes = row.tx_bytes;
}

unfoldable pub network_timeline :
    (pid_is : ℕ → Text → Bool) (from to : ℕ) (selector value : Text) → Flows → List TimelinePoint
unfolding grouped
network_timeline pid_is from to selector value t =
    map to_point (grouped (interval_of from to) (in_timeline pid_is from to selector value) t)

-- Every point is later than `low`, and later than the ones before it.
unfoldable pub is_ascending : (low : ℕ) → List TimelinePoint → Bool
is_ascending low [] = true
is_ascending low (p ∷ points) = leb low p.time && is_ascending (suc p.time) points

module _ (column : Traffic → ℕ) where
  -- What a table of points adds up to.
  unfoldable points_sum : Table ℕ Traffic → ℕ
  points_sum t = sum_rows (λ start row. column row) t

module _ (column : Traffic → ℕ) (interval : ℕ) (matches : FlowKey → Bool)
    (adds : (a b : Traffic)
      → column (record {
        rx_bytes = a.rx_bytes + b.rx_bytes;
        tx_bytes = a.tx_bytes + b.tx_bytes;
        samples = a.samples + b.samples;
      })
        ≡ column a + column b) where
  points_sum-add_point :
      (start : ℕ) (row : Traffic) (points : Table ℕ Traffic)
      → points_sum column (add_point start row points) ≡ points_sum column points + column row
  unfolding points_sum add_point sum_rows
  points_sum-add_point start row [] = omega arith
  points_sum-add_point start row ((other, sum) ∷ points) =
      ground (arith, points_sum-add_point start row points, adds sum row)

  -- No byte of a matching row is lost.
  points_sum-grouped :
      (t : Flows)
      → points_sum column (grouped interval matches t)
        ≡ sum_rows (λ key row. if matches key then column row else 0) t
  unfolding points_sum grouped sum_rows
  points_sum-grouped [] = refl
  points_sum-grouped ((key, row) ∷ t) = ground (
    arith,
    points_sum-grouped t,
    points_sum-add_point (key.0 / interval * interval) row (grouped interval matches t),
  )

-- Starts in order, with no start twice.
abbrev StartsAfter : ℕ → Table ℕ Traffic → Type 0
StartsAfter low [] = Unit
StartsAfter low ((start, row) ∷ points) = (low ≤ start) × StartsAfter (suc start) points

StartsAfter-add_point :
    (low start : ℕ) (row : Traffic) (points : Table ℕ Traffic)
    → low ≤ start
    → StartsAfter low points
    → StartsAfter low (add_point start row points)
unfolding add_point
StartsAfter-add_point low start row [] h s = (h, tt)
StartsAfter-add_point low start row ((other, sum) ∷ points) h s =
    ground (arith, StartsAfter-add_point (suc other) start row points)

StartsAfter-grouped :
    (interval : ℕ) (matches : FlowKey → Bool) (t : Flows)
    → StartsAfter 0 (grouped interval matches t)
unfolding grouped
StartsAfter-grouped interval matches [] = tt
StartsAfter-grouped interval matches ((key, row) ∷ t) = ground (
  arith,
  StartsAfter-grouped interval matches t,
  StartsAfter-add_point 0 (key.0 / interval * interval) row (grouped interval matches t),
)

is_ascending-map :
    (low earliest : ℕ) (points : Table ℕ Traffic)
    → earliest ≤ from_unix low
    → StartsAfter low points
    → is_ascending earliest (map to_point points) ≡ true
unfolding is_ascending
is_ascending-map low earliest [] h s = refl
is_ascending-map low earliest ((start, row) ∷ points) h s =
    ground (arith, is_ascending-map (suc start) (suc (from_unix start)) points (omega arith) s.1)

sum_of-map :
    (points : Table ℕ Traffic)
    → (sum_of (λ (p : TimelinePoint). p.rx_bytes) (map to_point points)
        ≡ points_sum (λ row. row.rx_bytes) points)
      × (sum_of (λ (p : TimelinePoint). p.tx_bytes) (map to_point points)
          ≡ points_sum (λ row. row.tx_bytes) points)
unfolding sum_of points_sum sum_rows
sum_of-map [] = (refl, refl)
sum_of-map ((start, row) ∷ points) = ground (arith, sum_of-map points)

-- The points of a timeline come in the order of their times, with no time twice, and their received
-- and their sent bytes add up to those of the stored rows that are in the range and selected.
pub network_timeline_sums :
    (pid_is : ℕ → Text → Bool) (from to : ℕ) (selector value : Text) (t : Flows)
    → let points = network_timeline pid_is from to selector value t in
      let wanted = in_timeline pid_is from to selector value in
      (is_ascending 0 points ≡ true)
      × (sum_of (λ (p : TimelinePoint). p.rx_bytes) points
          ≡ sum_rows (λ key row. if wanted key then row.rx_bytes else 0) t)
      × (sum_of (λ (p : TimelinePoint). p.tx_bytes) points
          ≡ sum_rows (λ key row. if wanted key then row.tx_bytes else 0) t)
unfolding network_timeline
network_timeline_sums pid_is from to selector value t =
    let interval = interval_of from to in
    let wanted = in_timeline pid_is from to selector value in
    let points = grouped interval wanted t in
    (
      is_ascending-map 0 0 points (omega arith) (StartsAfter-grouped interval wanted t),
      (sum_of-map points).0
          ∙ points_sum-grouped (λ row. row.rx_bytes) interval wanted (λ a b. refl) t,
      (sum_of-map points).1
          ∙ points_sum-grouped (λ row. row.tx_bytes) interval wanted (λ a b. refl) t,
    )
