-- ===== src/Store/Flows.antt =====
-- internal/store/store.go: the network_flows table, which adds up the traffic of each minute, with
-- SaveNetworkFlows, NetworkTotal, NetworkTimeline, PruneNetworkFlows and ClearNetworkFlows. A column
-- is not bounded. A failing statement is an argument: `refuses` tells which rows the database
-- rejects, and a flag whether a step works.
pub mod Totals
pub mod Timeline
pub mod Pruning
use servora.Prelude.{
  Bool, List, Option, Table, Text, [], bytes, false, find, if◌then◌else◌, keep, leb, ltb, nat_beq,
  none, not, put, some, sum_rows, true, ℕ, ◌&&◌, ◌*◌, ◌+◌, ◌/◌, ◌==◌, ◌∷◌, text_eq, nat_eq, pair_eq,
}
use servora.Clock.{unix, hour}

-- model.NetworkFlow, without `local`, which is not stored.
pub record NetworkFlow : Type 0 where
  pub timestamp : ℕ
  pub pid : ℕ
  pub process : Text
  pub group : Text
  pub user : Text
  pub protocol : Text
  pub remote_ip : Text
  pub remote_port : ℕ
  pub rx_bytes : ℕ
  pub tx_bytes : ℕ

-- The primary key: bucket, pid, process, group_name, username, protocol, remote_ip, remote_port.
abbrev pub FlowKey : Type 0
FlowKey = ℕ × (ℕ × (Text × (Text × (Text × (Text × (Text × ℕ))))))

pub record Traffic : Type 0 where
  pub rx_bytes : ℕ
  pub tx_bytes : ℕ
  pub samples : ℕ

abbrev pub Flows : Type 0
Flows = Table FlowKey Traffic

-- (flow.Timestamp.Unix() / 60) * 60
unfoldable pub bucket_of : (timestamp : ℕ) → ℕ
bucket_of timestamp = unix timestamp / 60 * 60

abbrev pub flow_key : NetworkFlow → FlowKey
flow_key f = (
  bucket_of f.timestamp,
  (f.pid, (f.process, (f.group, (f.user, (f.protocol, (f.remote_ip, f.remote_port)))))),
)

-- ON CONFLICT … DO UPDATE
abbrev pub added : NetworkFlow → Option Traffic → Traffic
added f none = record { rx_bytes = f.rx_bytes; tx_bytes = f.tx_bytes; samples = 1 }
added f (some row) = record {
  rx_bytes = row.rx_bytes + f.rx_bytes;
  tx_bytes = row.tx_bytes + f.tx_bytes;
  samples = row.samples + 1;
}

unfoldable pub add_flow : NetworkFlow → Flows → Flows
add_flow f t = put (flow_key f) (added f (find (flow_key f) t)) t

abbrev pub is_idle : NetworkFlow → Bool
is_idle f = nat_beq f.rx_bytes 0 && nat_beq f.tx_bytes 0

-- The statements of the transaction; `none` where one is refused.
unfoldable pub add_flows : (refuses : NetworkFlow → Bool) → List NetworkFlow → Flows → Option Flows
unfolding add_flow
add_flows refuses [] t = some t
add_flows refuses (f ∷ flows) t =
    let skipped = add_flows refuses flows t in
    let stored = add_flows refuses flows (add_flow f t) in
    if is_idle f then skipped else if refuses f then none else stored

abbrev commit : (commits : Bool) → Flows → Option Flows → Bool × Flows
commit commits t none = (false, t)
commit commits t (some after) = if commits then (true, after) else (false, t)

-- The flag is whether there was no error; with an error the transaction is rolled back.
unfoldable pub save_network_flows :
    (refuses : NetworkFlow → Bool) (begins commits : Bool) → List NetworkFlow → Flows → Bool × Flows
unfolding add_flows
save_network_flows refuses begins commits [] t = (true, t)
save_network_flows refuses begins commits (f ∷ flows) t =
    let outcome = commit commits t (add_flows refuses (f ∷ flows) t) in
    if begins then outcome else (false, t)

-- The summed column or columns, by the direction.
unfoldable pub bytes_of : (direction : Text) → (rx tx : ℕ) → ℕ
bytes_of direction rx tx =
    if direction == bytes "rx" then rx else if direction == bytes "tx" then tx else rx + tx

-- WHERE bucket>=?
unfoldable pub counted : (since : ℕ) (direction : Text) → FlowKey → Traffic → ℕ
unfolding bytes_of
counted since direction key row =
    if leb (unix since) key.0 then bytes_of direction row.rx_bytes row.tx_bytes else 0

-- `none` for a query that fails. `of_sum` is the float64 that the sum is scanned into.
unfoldable pub network_total :
    {F : Type 0} → (of_sum : ℕ → F) (since : ℕ) (direction : Text) (found : Bool) → Flows → Option F
unfolding counted
network_total of_sum since direction found t =
    let total = sum_rows (counted since direction) t in if found then some (of_sum total) else none

-- DELETE … WHERE bucket < ?
unfoldable pub delete_before :
    {K V : Type 0} → (bucket : K → ℕ) (cutoff : ℕ) → Table K V → Table K V
delete_before bucket cutoff t = keep (λ entry. not (ltb (bucket entry.0) cutoff)) t

-- Both tables, in this order; the second is not reached where the first statement fails.
-- `days_before` is time.Time.AddDate(0, 0, -days).
unfoldable pub prune_network_flows :
    {K V : Type 0}
    → (days_before : ℕ → ℕ → ℕ) (bucket : K → ℕ) (days now : ℕ) (first second : Bool)
    → Flows × Table K V
    → Bool × Flows × Table K V
unfolding delete_before
prune_network_flows days_before bucket days now first second (flows, resources) =
    let cutoff = unix (days_before days now) in
    let left = delete_before (λ (key : FlowKey). key.0) cutoff flows in
    if not first
    then (false, flows, resources)
    else if second
    then (true, left, delete_before bucket cutoff resources)
    else (false, left, resources)

-- The checkpoint's error is ignored; VACUUM's is returned, after the rows are gone.
unfoldable pub clear_network_flows : (deletes vacuums : Bool) → Flows → Bool × Flows
clear_network_flows deletes vacuums t = if deletes then (vacuums, []) else (false, t)
