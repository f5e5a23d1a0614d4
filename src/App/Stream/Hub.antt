-- ===== src/App/Stream/Hub.antt =====
-- internal/app/server.go: Server.subs, the channels of two places through which collect gives the
-- snapshots to the streams. A send to a full channel is dropped.
use mathlib.Core.List.{append_assoc}
use servora.Prelude.{
  All, All-find, All-put, All-remove, Bool-cases, List, Option, Option-cases, Table, [], ap, arith,
  find, if◌then◌else◌, inl, inr, length, length-append, ltb, none, put, refl, remove, some, ℕ, ◌++◌,
  ◌∷◌, ◌≡◌, ◌≤◌, text_eq, nat_eq,
}

-- One stream: what its channel holds, and what it has written of snapshots. `offered` is what there
-- was to see since it subscribed, first the snapshot that it begins with.
pub record Subscriber (D : Type 0) : Type 0 where
  pub queue : List D
  pub written : List D
  pub offered : List D

-- s.snapshot, and the subscribers by the identity of their channel.
pub record Hub (D : Type 0) : Type 0 where
  pub latest : D
  pub subs : Table ℕ (Subscriber D)

module _ {D : Type 0} where
  -- `select { case ch <- data: default: }`
  unfoldable pub offer : D → Subscriber D → Subscriber D
  offer d s = record {
    queue = if ltb (length s.queue) 2 then s.queue ++ d ∷ [] else s.queue;
    written = s.written;
    offered = s.offered ++ d ∷ [];
  }

  unfoldable pub offer_all : D → Table ℕ (Subscriber D) → Table ℕ (Subscriber D)
  unfolding offer
  offer_all d [] = []
  offer_all d ((id, s) ∷ subs) = (id, offer d s) ∷ offer_all d subs

  unfoldable pub publish : D → Hub D → Hub D
  unfolding offer_all
  publish d h = record { latest = d; subs = offer_all d h.subs }

  -- The stream registers its channel and writes the latest snapshot.
  unfoldable pub subscribe : (id : ℕ) → Hub D → Hub D
  subscribe id h = record h {
    subs = put id (record { queue = []; written = h.latest ∷ []; offered = h.latest ∷ [] }) h.subs;
  }

  abbrev received : Subscriber D → List D → Subscriber D
  received s [] = s
  received s (d ∷ rest) = record s { queue = rest; written = s.written ++ d ∷ [] }

  abbrev receive_from : (id : ℕ) → Hub D → Option (Subscriber D) → Hub D
  receive_from id h none = h
  receive_from id h (some s) = record h { subs = put id (received s s.queue) h.subs }

  -- `case data := <-ch` of the stream; it waits where the channel is empty.
  unfoldable pub receive : (id : ℕ) → Hub D → Hub D
  receive id h = receive_from id h (find id h.subs)

  unfoldable pub unsubscribe : (id : ℕ) → Hub D → Hub D
  unsubscribe id h = record h { subs = remove id h.subs }

  -- What the collector and the streams do, in any order.
  pub data HubStep (h : Hub D) : Hub D → Type 0 where
    published : (d : D) → HubStep h (publish d h)
    subscribed : (id : ℕ) → find id h.subs ≡ none → HubStep h (subscribe id h)
    received_one : (id : ℕ) → HubStep h (receive id h)
    unsubscribed : (id : ℕ) → HubStep h (unsubscribe id h)

  pub data HubRun (h : Hub D) : Hub D → Type 0 where
    start : HubRun h h
    next : {g k : Hub D} → HubRun h g → HubStep g k → HubRun h k

  -- xs is ys with some elements left out.
  pub data IsPartOf : (xs ys : List D) → Type 0 where
    empty : IsPartOf [] []
    left_out : {xs ys : List D} (d : D) → IsPartOf xs ys → IsPartOf xs (d ∷ ys)
    taken : {xs ys : List D} (d : D) → IsPartOf xs ys → IsPartOf (d ∷ xs) (d ∷ ys)

  IsPartOf-miss : {xs ys : List D} (d : D) → IsPartOf xs ys → IsPartOf xs (ys ++ d ∷ [])
  IsPartOf-miss d empty = left_out d empty
  IsPartOf-miss d (left_out e p) = left_out e (IsPartOf-miss d p)
  IsPartOf-miss d (taken e p) = taken e (IsPartOf-miss d p)

  IsPartOf-hit : {xs ys : List D} (d : D) → IsPartOf xs ys → IsPartOf (xs ++ d ∷ []) (ys ++ d ∷ [])
  IsPartOf-hit d empty = taken d empty
  IsPartOf-hit d (left_out e p) = left_out e (IsPartOf-hit d p)
  IsPartOf-hit d (taken e p) = taken e (IsPartOf-hit d p)

  -- A channel never holds more than two, and what a stream has written and has yet to write is in
  -- the order of the snapshots, each at most once.
  pub record IsOrderly (s : Subscriber D) : Type 0 where
    pub small : length s.queue ≤ 2
    pub ordered : IsPartOf (s.written ++ s.queue) s.offered

  offer-IsOrderly : (d : D) (s : Subscriber D) → IsOrderly s → IsOrderly (offer d s)
  unfolding offer
  offer-IsOrderly d s o = elim (Bool-cases (ltb (length s.queue) 2)) [
    | inl room ↦ rw room (record {
      small = ground (arith, length-append s.queue (d ∷ []));
      ordered = rw (← append_assoc s.written s.queue (d ∷ [])) (IsPartOf-hit d o.ordered);
    })
    | inr full ↦ rw full (record { small = o.small; ordered = IsPartOf-miss d o.ordered })
  ]

  received-IsOrderly :
      (s : Subscriber D) (queue : List D)
      → s.queue ≡ queue
      → IsOrderly s
      → IsOrderly (received s queue)
  received-IsOrderly s [] e o = o
  received-IsOrderly s (d ∷ rest) e o = record {
    small = omega (arith, o.small, ap length e);
    ordered = rw (append_assoc s.written (d ∷ []) rest, ← e) o.ordered;
  }

  AreOrderly : Table ℕ (Subscriber D) → Type 0
  AreOrderly subs = All (λ (entry : ℕ × Subscriber D). IsOrderly entry.1) subs

  offer_all-AreOrderly :
      (d : D) (subs : Table ℕ (Subscriber D)) → AreOrderly subs → AreOrderly (offer_all d subs)
  unfolding offer_all AreOrderly
  offer_all-AreOrderly d [] o = tt
  offer_all-AreOrderly d ((id, s) ∷ subs) o =
      (offer-IsOrderly d s o.0, offer_all-AreOrderly d subs o.1)

  receive-AreOrderly : (id : ℕ) (h : Hub D) → AreOrderly h.subs → AreOrderly (receive id h).subs
  unfolding receive AreOrderly
  receive-AreOrderly id h o = elim (Option-cases (find id h.subs)) [
    | inl missing ↦ rw missing o
    | inr (s, found) ↦ rw found (
        All-put (λ (entry : ℕ × Subscriber D). IsOrderly entry.1) id (received s s.queue) h.subs
          (received-IsOrderly s s.queue refl
            (All-find (λ (s : Subscriber D). IsOrderly s) id s h.subs found o))
          o)
  ]

  subscribe-AreOrderly : (id : ℕ) (h : Hub D) → AreOrderly h.subs → AreOrderly (subscribe id h).subs
  unfolding subscribe AreOrderly
  subscribe-AreOrderly id h o =
      All-put (λ (entry : ℕ × Subscriber D). IsOrderly entry.1) id _ h.subs
        (record { small = omega arith; ordered = taken h.latest empty }) o

  HubStep-AreOrderly : {h k : Hub D} → HubStep h k → AreOrderly h.subs → AreOrderly k.subs
  unfolding publish unsubscribe AreOrderly
  HubStep-AreOrderly {h} (published d) o = offer_all-AreOrderly d h.subs o
  HubStep-AreOrderly {h} (subscribed id new) o = subscribe-AreOrderly id h o
  HubStep-AreOrderly {h} (received_one id) o = receive-AreOrderly id h o
  HubStep-AreOrderly {h} (unsubscribed id) o =
      All-remove (λ (entry : ℕ × Subscriber D). IsOrderly entry.1) id h.subs o

  HubRun-AreOrderly : {h k : Hub D} → HubRun h k → AreOrderly h.subs → AreOrderly k.subs
  HubRun-AreOrderly start o = o
  HubRun-AreOrderly (next run step) o = HubStep-AreOrderly step (HubRun-AreOrderly run o)

  -- Whatever the collector and the streams have done, in any order, since there was no stream: the
  -- channel of each stream holds at most two snapshots, and what it has written followed by what it
  -- has yet to write is what was offered to it since it subscribed, in order, with some left out.
  pub HubRun-IsOrderly :
      (latest : D) (h : Hub D) (id : ℕ) (s : Subscriber D)
      → HubRun (record { latest = latest; subs = [] }) h
      → find id h.subs ≡ some s
      → IsOrderly s
  unfolding AreOrderly
  HubRun-IsOrderly latest h id s run found =
      All-find (λ (s : Subscriber D). IsOrderly s) id s h.subs found (HubRun-AreOrderly run tt)
