-- ===== src/Store/Resources/Growth.antt =====
-- The disk bytes that the history records are the growth of the counters since the last snapshot.
use servora.Prelude.{
  ==_iff, ==_refl, All, Bool, Bool-cases, List, Option, Option-cases, Text, [], any_of, ap, arith,
  false, find, find-put, find-put_self, if◌then◌else◌, inl, inr, keep, none, or_false, put, refl,
  some, sum_rows, sum_rows-put, true, weight_of, ℕ, ◌+◌, ◌-◌, ◌==◌, ◌∙◌, ◌∷◌, ◌≡◌, ◌⊎◌, text_eq,
  nat_eq, pair_eq,
}
use servora.Store.Flows.{bucket_of}
use servora.Store.Resources.{
  Loads, Process, ResourceRow, Resources, ResourceKey, Seen, Enabled, History, process_key, growth,
  io_growth, sample, merged, resource_key, add_sample, save_processes, keep_active,
  save_process_resources, read_enabled,
}

-- What a snapshot adds to the read and written bytes, by the code's arithmetic.
unfoldable grown : {l : Loads} (column : ℕ × ℕ → ℕ) (disk : Bool) → List (Process l) → Seen → ℕ
grown {l} column disk [] seen = 0
grown {l} column disk (p ∷ processes) seen =
    column (io_growth disk (p.read_bytes, p.write_bytes) (find (process_key l p) seen))
    + grown column disk processes seen

-- How far a counter has risen: a difference that stops at 0, and nothing for a new process.
abbrev pub risen : (column : ℕ × ℕ → ℕ) (now : ℕ × ℕ) → Option (ℕ × ℕ) → ℕ
risen column now none = 0
risen column now (some before) = column now - column before

-- What the counters of all processes have risen by since the snapshot before.
unfoldable pub risen_all : {l : Loads} (column : ℕ × ℕ → ℕ) → List (Process l) → Seen → ℕ
risen_all {l} column [] seen = 0
risen_all {l} column (p ∷ processes) seen =
    risen column (p.read_bytes, p.write_bytes) (find (process_key l p) seen)
    + risen_all column processes seen

io_growth-risen :
    (now : ℕ × ℕ) (old : Option (ℕ × ℕ))
    → ((io_growth true now old).0 ≡ risen (λ io. io.0) now old)
      × ((io_growth true now old).1 ≡ risen (λ io. io.1) now old)
unfolding io_growth growth
io_growth-risen now none = (refl, refl)
io_growth-risen now (some before) = (ground arith, ground arith)

grown-risen_all :
    {l : Loads} (column : ℕ × ℕ → ℕ)
    → ((now : ℕ × ℕ) (old : Option (ℕ × ℕ))
        → column (io_growth true now old) ≡ risen column now old)
    → (processes : List (Process l)) (seen : Seen)
    → grown column true processes seen ≡ risen_all column processes seen
unfolding grown risen_all
grown-risen_all {l} column agrees [] seen = refl
grown-risen_all {l} column agrees (p ∷ processes) seen = omega (
  arith,
  agrees (p.read_bytes, p.write_bytes) (find (process_key l p) seen),
  grown-risen_all column agrees processes seen,
)

module _ {l : Loads} where
  -- No two processes have the same id and start.
  abbrev pub AreDistinct : List (Process l) → Type 0
  AreDistinct [] = Unit
  AreDistinct (p ∷ processes) =
      (any_of (λ q. process_key l q == process_key l p) processes ≡ false) × AreDistinct processes

  grown-put :
      (column : ℕ × ℕ → ℕ) (disk : Bool) (key : Text) (now : ℕ × ℕ) (processes : List (Process l))
      (seen : Seen)
      → any_of (λ q. process_key l q == key) processes ≡ false
      → grown column disk processes (put key now seen) ≡ grown column disk processes seen
  unfolding grown any_of
  grown-put column disk key now [] seen h = refl
  grown-put column disk key now (p ∷ processes) seen h =
      let (other, rest) =
        or_false (process_key l p == key) (any_of (λ q. process_key l q == key) processes) h in
      omega (
        arith,
        grown-put column disk key now processes seen rest,
        ap (λ o. column (io_growth disk (p.read_bytes, p.write_bytes) o)) (found other),
      )
    where
      found :
          (process_key l p == key) ≡ false
          → find (process_key l p) (put key now seen) ≡ find (process_key l p) seen
      found h = ground (
        arith,
        find-put key (process_key l p) now seen,
        ==_iff key (process_key l p),
        ==_iff (process_key l p) key,
      )

  module _ (lower : Text → Text) (bucket : ℕ) (on : Enabled l) (refuses : Process l → Bool)
      (column : ℕ × ℕ → ℕ) (row_column : ResourceRow l → ℕ)
      (samples : (p : Process l) (io : ℕ × ℕ) → row_column (sample l on p io) ≡ column io)
      (merges : (new old : ResourceRow l)
        → row_column (merged l new (some old)) ≡ row_column old + row_column new) where
    weight-merged :
        (key : ResourceKey) (p : Process l) (io : ℕ × ℕ) (old : Option (ResourceRow l))
        → row_column (merged l (sample l on p io) old)
          ≡ weight_of (λ (k : ResourceKey) row. row_column row) key old + column io
    weight-merged key p io none = omega (arith, samples p io)
    weight-merged key p io (some row) = omega (arith, merges (sample l on p io) row, samples p io)

    sum_rows-add_sample :
        (p : Process l) (io : ℕ × ℕ) (t : Resources l)
        → sum_rows (λ key row. row_column row) (add_sample l lower bucket on refuses p io t)
          ≡ sum_rows (λ key row. row_column row) t + column io
    unfolding add_sample
    sum_rows-add_sample p io t =
        let key = resource_key l lower bucket on refuses p in
        let new = merged l (sample l on p io) (find key t) in
        omega (
          arith,
          sum_rows-put (λ k row. row_column row) key new t,
          weight-merged key p io (find key t),
        )

    sum_rows-save_processes :
        (processes : List (Process l)) (seen seen' : Seen) (t t' : Resources l)
        → AreDistinct processes
        → save_processes l lower bucket on refuses processes seen t ≡ (seen', some t')
        → sum_rows (λ key row. row_column row) t'
          ≡ sum_rows (λ key row. row_column row) t + grown column on.disk processes seen
    unfolding save_processes grown
    sum_rows-save_processes [] seen seen' t t' d h = ground arith
    sum_rows-save_processes (p ∷ processes) seen seen' t t' d h =
        let now : ℕ × ℕ = (p.read_bytes, p.write_bytes) in
        let io = io_growth on.disk now (find (process_key l p) seen) in
        ground (
          arith,
          sum_rows-save_processes processes (put (process_key l p) now seen) seen'
              (add_sample l lower bucket on refuses p io t) t' d.1,
          sum_rows-add_sample p io t,
          grown-put column on.disk (process_key l p) now processes seen d.0,
        )

  module _ (lower : Text → Text) (bucket : ℕ) (on : Enabled l) (refuses : Process l → Bool) where
    -- A process that is not in the list keeps its counters.
    find-save_processes_other :
        (key : Text) (processes : List (Process l)) (seen seen' : Seen) (t t' : Resources l)
        → any_of (λ q. process_key l q == key) processes ≡ false
        → save_processes l lower bucket on refuses processes seen t ≡ (seen', some t')
        → find key seen' ≡ find key seen
    unfolding save_processes any_of
    find-save_processes_other key [] seen seen' t t' d h = ground arith
    find-save_processes_other key (p ∷ processes) seen seen' t t' d h =
        let now : ℕ × ℕ = (p.read_bytes, p.write_bytes) in
        let io = io_growth on.disk now (find (process_key l p) seen) in
        ground (
          arith,
          find-save_processes_other key processes (put (process_key l p) now seen) seen'
              (add_sample l lower bucket on refuses p io t) t',
          find-put (process_key l p) key now seen,
        )

    find-save_processes :
        (processes : List (Process l)) (seen seen' : Seen) (t t' : Resources l)
        → AreDistinct processes
        → save_processes l lower bucket on refuses processes seen t ≡ (seen', some t')
        → All (λ p. find (process_key l p) seen' ≡ some (p.read_bytes, p.write_bytes)) processes
    unfolding save_processes
    find-save_processes [] seen seen' t t' d h = tt
    find-save_processes (p ∷ processes) seen seen' t t' d h =
        let now : ℕ × ℕ = (p.read_bytes, p.write_bytes) in
        let io = io_growth on.disk now (find (process_key l p) seen) in
        ground (
          arith,
          find-save_processes_other (process_key l p) processes (put (process_key l p) now seen)
              seen' (add_sample l lower bucket on refuses p io t) t' d.0,
          find-save_processes processes (put (process_key l p) now seen) seen'
              (add_sample l lower bucket on refuses p io t) t' d.1,
          find-put_self (process_key l p) now seen,
        )

  find-keep_active :
      (processes : List (Process l)) (key : Text) (seen : Seen)
      → find key (keep_active l processes seen)
        ≡ (if any_of (λ p. process_key l p == key) processes then find key seen else none)
  unfolding keep_active keep find
  find-keep_active processes key [] = ground arith
  find-keep_active processes key ((j, now) ∷ seen) = ground (
    arith,
    find-keep_active processes key seen,
    ==_iff j key,
    ap (λ k. any_of (λ p. process_key l p == k) processes),
  )

  IsActive : (all : List (Process l)) → Text → Type 0
  IsActive all key = any_of (λ p. process_key l p == key) all ≡ true

  -- Every process of a part of the list is active.
  IsActive-All :
      (all part : List (Process l))
      → ((key : Text) → IsActive part key → IsActive all key)
      → All (λ p. IsActive all (process_key l p)) part
  unfolding IsActive any_of
  IsActive-All all [] h = tt
  IsActive-All all (p ∷ part) h = (
    h (process_key l p) (ground (arith, ==_refl (process_key l p))),
    IsActive-All all part (λ key a. h key (ground arith)),
  )

  kept-All :
      (all part : List (Process l)) (seen : Seen)
      → All (λ p. IsActive all (process_key l p)) part
      → All (λ p. find (process_key l p) seen ≡ some (p.read_bytes, p.write_bytes)) part
      → All
          (λ p.
            find (process_key l p) (keep_active l all seen) ≡ some (p.read_bytes, p.write_bytes))
          part
  unfolding IsActive
  kept-All all [] seen a h = tt
  kept-All all (p ∷ part) seen a h = (
    ground (arith, find-keep_active all (process_key l p) seen, a.0, h.0),
    kept-All all part seen a.1 h.1,
  )

-- The state that a successful call with the disk history on leaves.
stored_state :
    {l : Loads} (lower : Text → Text) (found : Bool) (refuses : Process l → Bool) (timestamp : ℕ)
    (processes : List (Process l)) (h h' : History l)
    → (read_enabled l found h.settings).0.disk ≡ true
    → save_process_resources l lower found true true refuses timestamp processes h ≡ (true, h')
    → (seen : Seen) × (save_processes l lower
          (bucket_of timestamp)
          (read_enabled l found h.settings).0
          refuses
          processes
          h.seen
          h.rows
        ≡ (seen, some h'.rows))
      × (h'.seen ≡ keep_active l processes seen)
unfolding save_process_resources
stored_state {l} lower found refuses timestamp processes h h' disk e =
    let o : Seen × Option (Resources l) =
      save_processes l lower (bucket_of timestamp) (read_enabled l found h.settings).0 refuses
        processes h.seen h.rows in
    elim (Option-cases o.1) [
      | inl refused ↦ absurd (ground arith)
      | inr (rows, stored) ↦ (o.0, ap (λ x. (o.0, x)) (stored ∙ ground arith), ground arith)
    ]

-- When SaveProcessResources stores a snapshot of distinct processes with the disk history on, the
-- read and the written bytes of the table grow by what each process's counters have risen by since
-- the snapshot before (0 for a process that is new, or whose counter went back), and the counters
-- that it keeps are those of this snapshot's processes and of no other.
pub save_process_resources_growth :
    {l : Loads} (lower : Text → Text) (found : Bool) (refuses : Process l → Bool) (timestamp : ℕ)
    (processes : List (Process l)) (h h' : History l) (key : Text)
    → AreDistinct processes
    → (read_enabled l found h.settings).0.disk ≡ true
    → save_process_resources l lower found true true refuses timestamp processes h ≡ (true, h')
    → (sum_rows (λ key row. row.read_bytes) h'.rows
        ≡ sum_rows (λ key row. row.read_bytes) h.rows + risen_all (λ io. io.0) processes h.seen)
      × (sum_rows (λ key row. row.write_bytes) h'.rows
          ≡ sum_rows (λ key row. row.write_bytes) h.rows + risen_all (λ io. io.1) processes h.seen)
      × (All (λ p. find (process_key l p) h'.seen ≡ some (p.read_bytes, p.write_bytes)) processes)
      × ((any_of (λ p. process_key l p == key) processes ≡ true) ⊎ (find key h'.seen ≡ none))
unfolding save_process_resources
save_process_resources_growth {l} lower found refuses timestamp processes h h' key d disk e =
    let on : Enabled l = (read_enabled l found h.settings).0 in
    let (seen, stored, kept) = stored_state lower found refuses timestamp processes h h' disk e in
    (
      rw
          (
            ← grown-risen_all (λ io. io.0) (λ now old. (io_growth-risen now old).0) processes
                h.seen,
            ← disk,
          )
          (sum_rows-save_processes lower (bucket_of timestamp) on refuses (λ io. io.0)
            (λ row. row.read_bytes) (λ p io. refl) (λ new old. refl) processes h.seen seen h.rows
            h'.rows d stored),
      rw
          (
            ← grown-risen_all (λ io. io.1) (λ now old. (io_growth-risen now old).1) processes
                h.seen,
            ← disk,
          )
          (sum_rows-save_processes lower (bucket_of timestamp) on refuses (λ io. io.1)
            (λ row. row.write_bytes) (λ p io. refl) (λ new old. refl) processes h.seen seen h.rows
            h'.rows d stored),
      rw kept (
          kept-All processes processes seen (IsActive-All processes processes (λ key a. a)) (
            find-save_processes lower (bucket_of timestamp) on refuses processes h.seen seen h.rows
              h'.rows d stored)),
      elim (Bool-cases (any_of (λ p. process_key l p == key) processes)) [
        | inl active ↦ inl active
        | inr other ↦ inr (rw kept (ground (arith, find-keep_active processes key seen)))
      ],
    )
