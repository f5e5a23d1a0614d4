-- ===== src/Store/Flows/Pruning.antt =====
-- What PruneNetworkFlows deletes.
use servora.Prelude.{
  All, Table, Text, [], ap, arith, false, keep, refl, some, sum_rows, true, ℕ, ◌<◌, ◌∷◌, ◌≡◌, ◌≤◌,
}
use servora.Clock.{unix}
use servora.Store.Flows.{Flows, FlowKey, delete_before, prune_network_flows, counted, network_total}

module _ {K V : Type 0} (bucket : K → ℕ) (cutoff : ℕ) where
  sum_rows-delete_before :
      (weight : K → V → ℕ)
      → ((key : K) (row : V) → bucket key < cutoff → weight key row ≡ 0)
      → (t : Table K V) → sum_rows weight (delete_before bucket cutoff t) ≡ sum_rows weight t
  unfolding delete_before keep sum_rows
  sum_rows-delete_before weight old [] = refl
  sum_rows-delete_before weight old ((key, row) ∷ t) =
      ground (arith, sum_rows-delete_before weight old t, old key row)

  pub delete_before-All :
      (t : Table K V) → All (λ entry. cutoff ≤ bucket entry.0) (delete_before bucket cutoff t)
  unfolding delete_before keep
  delete_before-All [] = tt
  delete_before-All (entry ∷ t) = ground (arith, delete_before-All t)

-- When PruneNetworkFlows reports no error, no row of either table is older than the cutoff, and the
-- total since an instant that is not before the cutoff is what it was, in each direction; when its
-- first statement fails, both tables are what they were.
pub prune_network_flows-keeps :
    {K V F : Type 0} (of_sum : ℕ → F) (days_before : ℕ → ℕ → ℕ) (bucket : K → ℕ) (days now : ℕ)
    (flows : Flows) (resources : Table K V) (since : ℕ) (direction : Text)
    → days_before days now ≤ since
    → let (success, flows', resources') =
        prune_network_flows days_before bucket days now true true (flows, resources) in
      (success ≡ true)
      × (All (λ entry. unix (days_before days now) ≤ entry.0.0) flows')
      × (All (λ entry. unix (days_before days now) ≤ bucket entry.0) resources')
      × (network_total of_sum since direction true flows'
          ≡ network_total of_sum since direction true flows)
      × (prune_network_flows days_before bucket days now false true (flows, resources)
          ≡ (false, flows, resources))
unfolding prune_network_flows network_total
prune_network_flows-keeps of_sum days_before bucket days now flows resources since direction h = (
  refl,
  delete_before-All _ _ flows,
  delete_before-All bucket _ resources,
  ap (λ n. some (of_sum n))
      (sum_rows-delete_before (λ (key : FlowKey). key.0) (unix (days_before days now))
        (counted since direction) (λ key row older. unfold counted in ground arith) flows),
  refl,
)
