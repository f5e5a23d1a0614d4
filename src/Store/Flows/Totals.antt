-- ===== src/Store/Flows/Totals.antt =====
-- No byte of a saved flow is lost or counted twice.
use servora.Prelude.{
  ==_iff, Bool, Bool-cases, List, Option, Option-cases, Text, [], ap, arith, bytes, find,
  if◌then◌else◌, inl, inr, leb, none, refl, some, sum_rows, sum_rows-put, text_beq, true, weight_of,
  ℕ, ◌&&◌, ◌+◌, ◌∷◌, ◌≡◌, ◌≢◌, ◌⊎◌, text_eq, nat_eq, pair_eq,
}
use servora.Clock.{unix}
use servora.Store.Flows.{
  NetworkFlow, Flows, Traffic, flow_key, added, add_flow, add_flows, save_network_flows, bytes_of,
  counted, network_total, bucket_of, is_idle,
}

-- What a flow adds to the total since an instant: its bytes, if its minute starts no earlier.
unfoldable flow_bytes : (since : ℕ) (direction : Text) → NetworkFlow → ℕ
flow_bytes since direction f =
    if leb (unix since) (bucket_of f.timestamp) then bytes_of direction f.rx_bytes f.tx_bytes else 0

unfoldable flows_bytes : (since : ℕ) (direction : Text) → List NetworkFlow → ℕ
flows_bytes since direction [] = 0
flows_bytes since direction (f ∷ flows) =
    flow_bytes since direction f + flows_bytes since direction flows

module _ (since : ℕ) (direction : Text) where
  bytes_of-add :
      (rx tx rx' tx' : ℕ)
      → bytes_of direction (rx + rx') (tx + tx')
        ≡ bytes_of direction rx tx + bytes_of direction rx' tx'
  unfolding bytes_of
  bytes_of-add rx tx rx' tx' = ground arith

  counted-added :
      (f : NetworkFlow) (old : Option Traffic)
      → counted since direction (flow_key f) (added f old)
        ≡ weight_of (counted since direction) (flow_key f) old + flow_bytes since direction f
  unfolding counted flow_bytes
  counted-added f none = ground arith
  counted-added f (some row) =
      ground (arith, bytes_of-add row.rx_bytes row.tx_bytes f.rx_bytes f.tx_bytes)

  sum_rows-add_flow :
      (f : NetworkFlow) (t : Flows)
      → sum_rows (counted since direction) (add_flow f t)
        ≡ sum_rows (counted since direction) t + flow_bytes since direction f
  unfolding add_flow
  sum_rows-add_flow f t = omega (
    arith,
    sum_rows-put (counted since direction) (flow_key f) (added f (find (flow_key f) t)) t,
    counted-added f (find (flow_key f) t),
  )

  idle_bytes : (f : NetworkFlow) → is_idle f ≡ true → flow_bytes since direction f ≡ 0
  unfolding flow_bytes bytes_of
  idle_bytes f h = ground arith

  sum_rows-add_flows :
      (refuses : NetworkFlow → Bool) (flows : List NetworkFlow) (t after : Flows)
      → add_flows refuses flows t ≡ some after
      → sum_rows (counted since direction) after
        ≡ sum_rows (counted since direction) t + flows_bytes since direction flows
  unfolding add_flows flows_bytes
  sum_rows-add_flows refuses [] t after h = ground arith
  sum_rows-add_flows refuses (f ∷ flows) t after h = ground (
    arith,
    sum_rows-add_flows refuses flows t after,
    sum_rows-add_flows refuses flows (add_flow f t) after,
    sum_rows-add_flow f t,
    idle_bytes f,
  )

-- The three directions: those that NetworkTotal names, and any other text, which is both together.
pub data Direction : Type 0 where
  received sent : Direction
  together : (name : Text) → name ≢ bytes "rx" → name ≢ bytes "tx" → Direction

abbrev pub name_of : Direction → Text
name_of received = bytes "rx"
name_of sent = bytes "tx"
name_of (together name not_rx not_tx) = name

abbrev pub moved : Direction → NetworkFlow → ℕ
moved received f = f.rx_bytes
moved sent f = f.tx_bytes
moved (together name not_rx not_tx) f = f.rx_bytes + f.tx_bytes

-- What the flows whose minute starts no earlier have moved.
unfoldable pub moved_since : (since : ℕ) → Direction → List NetworkFlow → ℕ
moved_since since d [] = 0
moved_since since d (f ∷ flows) =
    (if leb (unix since) (bucket_of f.timestamp) then moved d f else 0) + moved_since since d flows

bytes_of-moved :
    (d : Direction) (f : NetworkFlow) → bytes_of (name_of d) f.rx_bytes f.tx_bytes ≡ moved d f
unfolding bytes_of
bytes_of-moved received f = unfold bytes text_beq in refl
bytes_of-moved sent f = unfold bytes text_beq in refl
bytes_of-moved (together name not_rx not_tx) f =
    ground (arith, ==_iff name (bytes "rx"), ==_iff name (bytes "tx"))

flows_bytes-moved :
    (since : ℕ) (d : Direction) (flows : List NetworkFlow)
    → flows_bytes since (name_of d) flows ≡ moved_since since d flows
unfolding flows_bytes flow_bytes moved_since
flows_bytes-moved since d [] = refl
flows_bytes-moved since d (f ∷ flows) =
    ground (arith, bytes_of-moved d f, flows_bytes-moved since d flows)

saved_total :
    (refuses : NetworkFlow → Bool) (begins commits : Bool) (flows : List NetworkFlow) (t : Flows)
    (since : ℕ) (direction : Text)
    → let (success, after) = save_network_flows refuses begins commits flows t in
      sum_rows (counted since direction) after
      ≡ sum_rows (counted since direction) t
        + (if success then flows_bytes since direction flows else 0)
unfolding save_network_flows flows_bytes
saved_total refuses begins commits [] t since direction = omega arith
saved_total refuses begins commits (f ∷ flows) t since direction =
    elim (Option-cases (add_flows refuses (f ∷ flows) t)) [
      | inl refused ↦ ground arith
      | inr (t', stored) ↦
          ground (arith, sum_rows-add_flows since direction refuses (f ∷ flows) t t' stored)
    ]

-- With an error the transaction is rolled back.
pub save_network_flows-fails :
    (refuses : NetworkFlow → Bool) (begins commits : Bool) (flows : List NetworkFlow) (t : Flows)
    → let (success, after) = save_network_flows refuses begins commits flows t in
      (success ≡ true) ⊎ (after ≡ t)
unfolding save_network_flows
save_network_flows-fails refuses begins commits [] t = inl refl
save_network_flows-fails refuses begins commits (f ∷ flows) t =
    elim (Option-cases (add_flows refuses (f ∷ flows) t)) [
      | inl refused ↦ inr (ground arith)
      | inr (t', stored) ↦ elim (Bool-cases (begins && commits)) [
        | inl works ↦ inl (ground arith)
        | inr fails ↦ inr (ground arith)
      ]
    ]

-- NetworkTotal since an instant and in a direction is a sum of bytes, as a float64, and after
-- SaveNetworkFlows: without an error the sum is larger by exactly what the flows whose minute starts
-- no earlier have received, sent, or both, by the direction, and with an error the table is as it
-- was.
pub network_total-save :
    {F : Type 0} (of_sum : ℕ → F) (refuses : NetworkFlow → Bool) (begins commits : Bool)
    (flows : List NetworkFlow) (t : Flows) (since : ℕ) (d : Direction)
    → let (success, after) = save_network_flows refuses begins commits flows t in
      (total : ℕ) × (network_total of_sum since (name_of d) true t ≡ some (of_sum total))
      × (network_total of_sum since (name_of d) true after
          ≡ some (of_sum (total + (if success then moved_since since d flows else 0))))
      × ((success ≡ true) ⊎ (after ≡ t))
unfolding network_total
network_total-save of_sum refuses begins commits flows t since d = (
  sum_rows (counted since (name_of d)) t,
  refl,
  ap (λ n. some (of_sum n))
      (rw (← flows_bytes-moved since d flows)
        (saved_total refuses begins commits flows t since (name_of d))),
  save_network_flows-fails refuses begins commits flows t,
)
