-- ===== src/Agent/Actions/AtomicWrite.antt =====
-- atomicWrite of internal/agent/server.go in its steps: a temporary file in the same directory, its
-- mode, its content, a sync, a close, and a rename over the target.
use servora.Prelude.{
  ==_iff, Bool-cases, Option, Table, Text, [], arith, find, find-put, find-remove, inl, inr, none,
  put, refl, remove, some, ℕ, ◌==◌, ◌≡◌, ◌≢◌, text_eq,
}

pub record File : Type 0 where
  pub content : Text
  pub mode : ℕ

abbrev pub Disk : Type 0
Disk = Table Text File

-- What the calls answer: the error of each, if it fails, and what a write that fails has put into
-- the file before.
pub record Faults : Type 0 where
  pub create_temp : Option Text
  pub chmod : Option Text
  pub write : Option Text
  pub written : Text
  pub sync : Option Text
  pub close : Option Text
  pub rename : Option Text

-- From the rename on; the deferred os.Remove of the temporary name comes last in every case.
unfoldable pub rename_temp : Faults → (tmp path : Text) → File → Disk → Disk × Option Text
rename_temp f tmp path file disk = elim f.rename [
  | some e ↦ (remove tmp disk, some e)
  | none ↦ (remove tmp (put path file (remove tmp disk)), none)
]

unfoldable pub atomic_write_steps :
    Faults → (tmp path text : Text) (mode : ℕ) → Disk → Disk × Option Text
unfolding rename_temp
atomic_write_steps f tmp path text mode disk = elim f.create_temp [
  | some e ↦ (disk, some e)
  | none ↦
      let created = put tmp (record { content = []; mode = 0o600 }) disk in
      elim f.chmod [
        | some e ↦ (remove tmp created, some e)
        | none ↦
            let moded = put tmp (record { content = []; mode = mode }) created in
            elim f.write [
              | some e ↦
                  (remove tmp (put tmp (record { content = f.written; mode = mode }) moded), some e)
              | none ↦
                  let full : Disk = put tmp (record { content = text; mode = mode }) moded in
                  elim f.sync [
                    | some e ↦ (remove tmp full, some e)
                    | none ↦ elim f.close [
                      | some e ↦ (remove tmp full, some e)
                      | none ↦ rename_temp f tmp path (record { content = text; mode = mode }) full
                    ]
                  ]
            ]
      ]
]

-- What a caller is promised: the whole file if there is no error, nothing at all if there is one.
unfoldable pub IsWhole : (path text : Text) (mode : ℕ) → Disk → Disk × Option Text → Text → Type 0
IsWhole path text mode disk (after, none) j =
    find j after ≡ find j (put path (record { content = text; mode = mode }) disk)
IsWhole path text mode disk (after, some e) j = find j after ≡ find j disk

module _ (tmp : Text) (disk : Disk) where
  -- The disk differs from the one before in the temporary file only.
  abbrev IsOff : Disk → Type 0
  IsOff d = (j : Text) → tmp ≢ j → find j d ≡ find j disk

  put-IsOff : (file : File) (d : Disk) → IsOff d → IsOff (put tmp file d)
  put-IsOff file d off j apart = ground (arith, off j apart, find-put tmp j file d, ==_iff tmp j)

  find-remove_off :
      (d : Disk) (j : Text) → IsOff d → find tmp disk ≡ none → find j (remove tmp d) ≡ find j disk
  find-remove_off d j off unused = elim (Bool-cases (tmp == j)) [
    | inl same ↦ ground (arith, find-remove tmp j d, (==_iff tmp j).0 same)
    | inr apart ↦ ground (arith, find-remove tmp j d, off j (λ e. cc ((==_iff tmp j).1 e, apart)))
  ]

  find-renamed :
      (d : Disk) (path : Text) (file : File) (j : Text)
      → IsOff d
      → find tmp disk ≡ none
      → tmp ≢ path
      → find j (remove tmp (put path file (remove tmp d))) ≡ find j (put path file disk)
  find-renamed d path file j off unused apart = ground (
    arith,
    find-remove tmp j (put path file (remove tmp d)),
    find-put path j file (remove tmp d),
    find-put path j file disk,
    find-remove_off d j off unused,
    ==_iff tmp j,
    ==_iff path j,
  )

module _ (f : Faults) (tmp path text : Text) (mode : ℕ) (disk : Disk) where
  -- Whichever call fails, if one does, and whatever a failed write left behind: without an error the
  -- disk is the one before with the whole new file at its path, with an error it is the one before,
  -- and the temporary file, whose name is unused and not the target's, is gone.
  pub atomic_write_steps-IsWhole :
      (j : Text)
      → find tmp disk ≡ none
      → tmp ≢ path
      → IsWhole path text mode disk (atomic_write_steps f tmp path text mode disk) j
  unfolding atomic_write_steps IsWhole
  atomic_write_steps-IsWhole j unused apart =
      let off_created =
        put-IsOff tmp disk (record { content = []; mode = 0o600 }) disk (λ j h. refl) in
      let created = put tmp (record { content = []; mode = 0o600 }) disk in
      let off_moded =
        put-IsOff tmp disk (record { content = []; mode = mode }) created off_created in
      let moded = put tmp (record { content = []; mode = mode }) created in
      let torn : File = record { content = f.written; mode = mode } in
      let whole : File = record { content = text; mode = mode } in
      let off_torn = put-IsOff tmp disk torn moded off_moded in
      let off_full = put-IsOff tmp disk whole moded off_moded in
      ground (
        arith,
        find-remove_off tmp disk created j off_created unused,
        find-remove_off tmp disk (put tmp torn moded) j off_torn unused,
        find-remove_off tmp disk (put tmp whole moded) j off_full unused,
        find-renamed tmp disk (put tmp whole moded) path whole j off_full unused apart,
      )
