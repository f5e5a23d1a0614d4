-- ===== src/App/Collect/Once.antt =====
-- The flows of a snapshot that is polled again are not stored again.
use servora.Prelude.{
  Bool, Bool-cases, List, Option, Option-cases, Text, ap, arith, false, find, find-put_self, inl,
  inr, none, refl, some, sym, true, ℕ, ◌&&◌, ◌*◌, ◌∙◌, ◌≡◌, ◌⊎◌, text_eq,
}
use servora.Store.Settings.{
  Settings, row_enabled, network_key, setting_enabled, network_history_enabled,
  network_retention_days,
}
use servora.Store.Flows.{NetworkFlow, Flows, save_network_flows, delete_before}
use servora.Store.Flows.Totals.{save_network_flows-fails}
use servora.Clock.{second, minute, unix}
use servora.App.Stream.Hub.{publish}
use servora.App.Collect.{
  Polled, Loop, is_due, after, newest_flow, persist_flows, persist_rest, cleanup, collect,
}

-- Asking for a switch again gives the same answer.
setting_enabled-again :
    (key : Text) (found : Bool) (s : Settings)
    → (setting_enabled key found (setting_enabled key found s).1).0
      ≡ (setting_enabled key found s).0
unfolding setting_enabled
setting_enabled-again key found s = elim (Option-cases (find key s.cache)) [
  | inl missing ↦ elim (Option-cases (find key s.rows)) [
    | inl no_row ↦ ground arith
    | inr (row, stored) ↦ ground (arith, find-put_self key (row_enabled (some row)) s.cache)
  ]
  | inr (enabled, cached) ↦ ground arith
]

after_irrefl : (t : Option ℕ) → after t t ≡ false
after_irrefl none = refl
after_irrefl (some t) = ground arith

-- What decides on the flows of the next round is the same.
abbrev DecidesSame : {D : Type 0} → (s t : Loop D) → Type 0
DecidesSame s t = (t.last_flow_persist ≡ s.last_flow_persist) × (t.settings ≡ s.settings)

-- The flows that a cleanup leaves of a table.
abbrev left_of : (days_before : ℕ → ℕ → ℕ) (found : Bool) (now : ℕ) → Settings → Flows → Flows
left_of days_before found now settings flows =
    delete_before (λ key. key.0) (unix (days_before (network_retention_days found settings) now))
      flows

module _ {D : Type 0} (days_before : ℕ → ℕ → ℕ) (refuses : NetworkFlow → Bool)
    (begins commits found deletes : Bool) where
  persist_rest-same :
      (now : ℕ) (d : D) (s : Loop D)
      → let t = (persist_rest days_before refuses begins commits found deletes now d s).0 in
        DecidesSame s t × (t.flows ≡ s.flows) × (t.last_cleanup ≡ s.last_cleanup)
  unfolding persist_rest
  persist_rest-same now d s = elim (Bool-cases (is_due (10 * second) now s.last_persist)) [
    | inl due ↦ rw due ((refl, refl), refl, refl)
    | inr early ↦ rw early ((refl, refl), refl, refl)
  ]

  cleanup-flows :
      (now : ℕ) (s : Loop D)
      → let t = (cleanup days_before refuses begins commits found deletes now s).0 in
        DecidesSame s t
        × ((t.flows ≡ s.flows)
            ⊎ ((is_due (15 * minute) now s.last_cleanup ≡ true)
                × (t.flows ≡ left_of days_before found now s.settings s.flows)))
  unfolding cleanup
  cleanup-flows now s = elim (Bool-cases (is_due (15 * minute) now s.last_cleanup)) [
    | inl due ↦ elim (Bool-cases deletes) [
      | inl works ↦ rw (due, works) ((refl, refl), inr (refl, refl))
      | inr fails ↦ rw (due, fails) ((refl, refl), inl refl)
    ]
    | inr early ↦ rw early ((refl, refl), inl refl)
  ]

  persist_flows-last_cleanup :
      (flows : List NetworkFlow) (s : Loop D)
      → (persist_flows days_before refuses begins commits found deletes flows s).last_cleanup
        ≡ s.last_cleanup
  unfolding persist_flows
  persist_flows-last_cleanup flows s = ground arith

  -- A round decides by what persist_flows leaves, and deletes at most what is too old.
  collect-flows :
      (now : ℕ) (polled : Polled D) (s : Loop D)
      → let kept = persist_flows days_before refuses begins commits found deletes polled.flows s in
        let t = (collect days_before refuses begins commits found deletes now (some polled) s).0 in
        DecidesSame kept t
        × ((t.flows ≡ kept.flows)
            ⊎ ((is_due (15 * minute) now s.last_cleanup ≡ true)
                × (t.flows ≡ left_of days_before found now t.settings kept.flows)))
  unfolding collect
  collect-flows now polled s =
      let kept = persist_flows days_before refuses begins commits found deletes polled.flows s in
      let shown : Loop D = record kept { hub = publish polled.rest kept.hub } in
      let rest =
        (persist_rest days_before refuses begins commits found deletes now polled.rest shown).0 in
      let cleaned = (cleanup days_before refuses begins commits found deletes now rest).0 in
      let ((l, c), f, k) = persist_rest-same now polled.rest shown in
      let ((l', c'), either) = cleanup-flows now rest in
      (
        (l' ∙ l, c' ∙ c),
        elim either [
          | inl same_flows ↦ inl (same_flows ∙ f)
          | inr (due, left) ↦ inr (
            ap (is_due (15 * minute) now) (sym (k ∙ persist_flows-last_cleanup polled.flows s))
                ∙ due,
            left
                ∙ ap (λ x. left_of days_before found now x rest.flows) (sym c')
                ∙ ap (λ x. left_of days_before found now cleaned.settings x) f,
          )
        ],
      )

  -- Whether a round stores the flows.
  abbrev stores : List NetworkFlow → Loop D → Bool
  stores flows s =
      (network_history_enabled found s.settings).0 && after (newest_flow flows) s.last_flow_persist

  persist_flows-idle :
      (flows : List NetworkFlow) (s : Loop D)
      → stores flows s ≡ false
      → (persist_flows days_before refuses begins commits found deletes flows s).flows ≡ s.flows
  unfolding persist_flows
  persist_flows-idle flows s h = rw h refl

  -- After a round in which SaveNetworkFlows would work, the same flows are not stored.
  stores-again :
      (flows : List NetworkFlow) (s t : Loop D)
      → DecidesSame (persist_flows days_before refuses begins commits found deletes flows s) t
      → (save_network_flows refuses begins commits flows s.flows).0 ≡ true
      → stores flows t ≡ false
  unfolding persist_flows network_history_enabled
  stores-again flows s t (l, c) h = elim (Bool-cases (stores flows s)) [
    | inl stored ↦ ground (arith, after_irrefl (newest_flow flows))
    | inr idle ↦ ground (arith, setting_enabled-again network_key found s.settings)
  ]

  -- A round whose SaveNetworkFlows fails keeps the table and the instant of the last flows, so that a
  -- later round stores the flows.
  persist_flows-fails :
      (flows : List NetworkFlow) (s : Loop D)
      → (save_network_flows refuses begins commits flows s.flows).0 ≡ false
      → let kept = persist_flows days_before refuses begins commits found deletes flows s in
        (kept.flows ≡ s.flows) × (kept.last_flow_persist ≡ s.last_flow_persist)
  unfolding persist_flows
  persist_flows-fails flows s h =
      let saved = save_network_flows refuses begins commits flows s.flows in
      let either = save_network_flows-fails refuses begins commits flows s.flows in
      let same_table : saved.1 ≡ s.flows = ground (arith, either) in
      elim (Bool-cases (stores flows s)) [
        | inl stored ↦ (rw (stored, h) same_table, rw (stored, h) refl)
        | inr idle ↦ (rw idle refl, rw idle refl)
      ]

  -- Two rounds in a row that get the same flows, of whatever snapshots, where SaveNetworkFlows works
  -- in the first: the second adds nothing. It leaves the table as it is or, where its cleanup is due,
  -- as the deletion of what is older than the retention leaves it, so that no byte is counted twice.
  pub collect_again :
      (now later : ℕ) (flows : List NetworkFlow) (d e : D) (s : Loop D)
      → (save_network_flows refuses begins commits flows s.flows).0 ≡ true
      → let t =
          (collect days_before refuses begins commits found deletes now
            (some (record { flows = flows; rest = d }))
            s).0 in
        let u =
          (collect days_before refuses begins commits found deletes later
            (some (record { flows = flows; rest = e }))
            t).0 in
        (u.flows ≡ t.flows)
        ⊎ ((is_due (15 * minute) later t.last_cleanup ≡ true)
            × (u.flows
                ≡ delete_before
                    (λ key. key.0)
                    (unix (days_before (network_retention_days found u.settings) later))
                    t.flows))
  collect_again now later flows d e s works =
      let first : Polled D = record { flows = flows; rest = d } in
      let second_poll : Polled D = record { flows = flows; rest = e } in
      let t = (collect days_before refuses begins commits found deletes now (some first) s).0 in
      let idle =
        persist_flows-idle flows t (stores-again flows s t (collect-flows now first s).0 works) in
      elim (collect-flows later second_poll t).1 [
        | inl unchanged ↦ inl (unchanged ∙ idle)
        | inr (due, left) ↦ inr (due, left ∙ rw idle refl)
      ]
