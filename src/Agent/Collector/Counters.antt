-- ===== src/Agent/Collector/Counters.antt =====
-- internal/agent/collector.go: the arithmetic of counterDelta, readCPU and readMemory, in 64-bit
-- unsigned integers, which wrap.
use servora.Prelude.{
  All, All-find, All-put, List, Option, Option-cases, Table, Text, [], ap, arith, bytes, fields,
  find, if◌then◌else◌, inl, inr, ltb, none, put, some, suc, trim_suffix, zero, ℕ, ◌%◌, ◌&&◌, ◌*◌,
  ◌+◌, ◌-◌, ◌<◌, ◌^◌, ◌∷◌, ◌≡◌, ◌≤◌, text_eq,
}

-- a - b of uint64
unfoldable pub sub64 : ℕ → ℕ → ℕ
sub64 a b = (a + 2 ^ 64 - b) % 2 ^ 64

unfoldable pub counter_delta : (current previous : ℕ) → ℕ
counter_delta current previous = if ltb current previous then current else current - previous

-- The sum of the numbers of the first line of /proc/stat.
unfoldable pub cpu_total : List ℕ → ℕ
cpu_total [] = 0
cpu_total (n ∷ values) = (n + cpu_total values) % 2 ^ 64

abbrev nth_or_zero : ℕ → List ℕ → ℕ
nth_or_zero n [] = 0
nth_or_zero zero (x ∷ xs) = x
nth_or_zero (suc n) (x ∷ xs) = nth_or_zero n xs

-- idle + iowait
unfoldable pub cpu_idle : List ℕ → ℕ
cpu_idle values = (nth_or_zero 3 values + nth_or_zero 4 values) % 2 ^ 64

-- lastCPUTotal and lastCPUIdle
pub record CpuState : Type 0 where
  pub last_total : ℕ
  pub last_idle : ℕ

-- The usage is 100 times the first number by the second; `none` where it stays zero.
unfoldable pub cpu_usage : List ℕ → CpuState → Option (ℕ × ℕ) × CpuState
unfolding sub64 cpu_total cpu_idle
cpu_usage values s =
    let total = cpu_total values in
    let idle = cpu_idle values in
    let delta = sub64 total s.last_total in
    let idle_delta = sub64 idle s.last_idle in
    (
      if ltb 0 s.last_total && ltb s.last_total total
          then some (sub64 delta idle_delta, delta)
          else none,
      record { last_total = total; last_idle = idle },
    )

-- The values of /proc/meminfo in bytes; a missing one is 0.
pub record Memory : Type 0 where
  pub total : ℕ
  pub available : ℕ
  pub used : ℕ
  pub swap_total : ℕ
  pub swap_used : ℕ

abbrev or_zero : Option ℕ → ℕ
or_zero none = 0
or_zero (some n) = n

-- The fields of each line: the first without ":" and its second field, by strconv.ParseUint.
unfoldable pub memory_values :
    (parse_uint : Text → ℕ) → List (List Text) → Table Text ℕ → Table Text ℕ
memory_values parse_uint [] values = values
memory_values parse_uint ((name ∷ number ∷ rest) ∷ lines) values =
    memory_values parse_uint lines
      (put (trim_suffix name (bytes ":")) (parse_uint number * 1024 % 2 ^ 64) values)
memory_values parse_uint (fields ∷ lines) values = memory_values parse_uint lines values

unfoldable pub read_memory : (parse_uint : Text → ℕ) → List (List Text) → Memory
unfolding memory_values sub64
read_memory parse_uint lines =
    let values = memory_values parse_uint lines [] in
    let total = or_zero (find (bytes "MemTotal") values) in
    let available = or_zero (find (bytes "MemAvailable") values) in
    let swap_total = or_zero (find (bytes "SwapTotal") values) in
    record {
      total = total;
      available = available;
      used = sub64 total available;
      swap_total = swap_total;
      swap_used = sub64 swap_total (or_zero (find (bytes "SwapFree") values));
    }

sub64-eq : (a b : ℕ) → b ≤ a → a < 2 ^ 64 → sub64 a b ≡ a - b
unfolding sub64
sub64-eq a b h k = omega arith

-- Below zero a difference wraps.
sub64_wraps : (a b : ℕ) → a < b → b < 2 ^ 64 → sub64 a b ≡ 2 ^ 64 - (b - a)
unfolding sub64
sub64_wraps a b h k = omega arith

cpu_total-lt : (values : List ℕ) → cpu_total values < 2 ^ 64
unfolding cpu_total
cpu_total-lt [] = omega arith
cpu_total-lt (n ∷ values) = omega arith

cpu_idle-lt : (values : List ℕ) → cpu_idle values < 2 ^ 64
unfolding cpu_idle
cpu_idle-lt values = omega arith

-- What is busy of a total and an idle difference.
busy_within :
    (delta idle last : ℕ)
    → delta < 2 ^ 64
    → idle < 2 ^ 64
    → last ≤ idle
    → idle - last ≤ delta
    → sub64 delta (sub64 idle last) + (idle - last) ≡ delta
busy_within delta idle last d i h k = omega (
  arith,
  sub64-eq idle last h i,
  sub64-eq delta (idle - last) k d,
  ap (sub64 delta) (sub64-eq idle last h i),
)

busy_beyond :
    (delta idle last : ℕ)
    → idle < last
    → last < 2 ^ 64
    → delta + last < 2 ^ 64
    → sub64 delta (sub64 idle last) ≡ delta + (last - idle)
unfolding sub64
busy_beyond delta idle last h k d = omega arith

-- The sample of a counter that has grown.
cpu_usage_lem :
    (values : List ℕ) (s : CpuState)
    → 0 < s.last_total
    → s.last_total < cpu_total values
    → let delta = cpu_total values - s.last_total in
      (cpu_usage values s).0 ≡ some (sub64 delta (sub64 (cpu_idle values) s.last_idle), delta)
unfolding cpu_usage
cpu_usage_lem values s started grown =
    ground (arith, sub64-eq (cpu_total values) s.last_total (omega arith) (cpu_total-lt values))

-- Where the total has grown since the last sample, and the idle counter by no more than that, the
-- usage is a part of the growth, and with the growth of the idle counter makes up all of it: it is
-- at most 100 %.
pub cpu_usage-within :
    (values : List ℕ) (s : CpuState)
    → 0 < s.last_total
    → s.last_total < cpu_total values
    → s.last_idle ≤ cpu_idle values
    → cpu_idle values - s.last_idle ≤ cpu_total values - s.last_total
    → let delta = cpu_total values - s.last_total in
      (busy : ℕ) × ((cpu_usage values s).0 ≡ some (busy, delta))
      × (busy + (cpu_idle values - s.last_idle) ≡ delta)
      × (busy ≤ delta)
cpu_usage-within values s started grown forward part =
    let delta = cpu_total values - s.last_total in
    let whole =
      busy_within delta (cpu_idle values) s.last_idle (omega (arith, cpu_total-lt values))
        (cpu_idle-lt values) forward part in
    (
      sub64 delta (sub64 (cpu_idle values) s.last_idle),
      cpu_usage_lem values s started grown,
      whole,
      omega (arith, whole),
    )

-- Where the idle counter has gone back while the total has grown, as the kernel's iowait may, the
-- usage is more than the growth, that is, more than 100 %.
pub cpu_usage-beyond :
    (values : List ℕ) (s : CpuState)
    → 0 < s.last_total
    → s.last_total < cpu_total values
    → cpu_idle values < s.last_idle
    → s.last_idle < 2 ^ 64
    → cpu_total values - s.last_total + s.last_idle < 2 ^ 64
    → let delta = cpu_total values - s.last_total in
      (busy : ℕ) × ((cpu_usage values s).0 ≡ some (busy, delta)) × (delta < busy)
cpu_usage-beyond values s started grown back word small =
    let delta = cpu_total values - s.last_total in
    (
      sub64 delta (sub64 (cpu_idle values) s.last_idle),
      cpu_usage_lem values s started grown,
      omega (arith, busy_beyond delta (cpu_idle values) s.last_idle back word small),
    )

-- Every value is a uint64.
abbrev AreWords : Table Text ℕ → Type 0
AreWords values = All (λ (entry : Text × ℕ). entry.1 < 2 ^ 64) values

memory_values-AreWords :
    (parse_uint : Text → ℕ) (lines : List (List Text)) (values : Table Text ℕ)
    → AreWords values
    → AreWords (memory_values parse_uint lines values)
unfolding memory_values
memory_values-AreWords parse_uint [] values w = w
memory_values-AreWords parse_uint ([] ∷ lines) values w =
    memory_values-AreWords parse_uint lines values w
memory_values-AreWords parse_uint ((name ∷ []) ∷ lines) values w =
    memory_values-AreWords parse_uint lines values w
memory_values-AreWords parse_uint ((name ∷ number ∷ rest) ∷ lines) values w =
    memory_values-AreWords parse_uint lines _ (
      All-put (λ (entry : Text × ℕ). entry.1 < 2 ^ 64) (trim_suffix name (bytes ":")) _ values
        (omega arith) w)

or_zero-lt :
    (key : Text) (values : Table Text ℕ) → AreWords values → or_zero (find key values) < 2 ^ 64
or_zero-lt key values w = elim (Option-cases (find key values)) [
  | inl missing ↦ rw missing (omega arith)
  | inr (n, found) ↦ rw found (All-find (λ (n : ℕ). n < 2 ^ 64) key n values found w)
]

-- The used memory is the total less what is available, where that is no more than the total; where more is available than the total, as with a
-- MemTotal line that is missing, the used memory wraps to more than the total.
read_memory-used :
    (parse_uint : Text → ℕ) (lines : List (List Text))
    → let m = read_memory parse_uint lines in
      (m.total < 2 ^ 64)
      × (m.available < 2 ^ 64)
      × (m.available ≤ m.total → m.used + m.available ≡ m.total)
      × (m.total < m.available → m.used ≡ 2 ^ 64 - (m.available - m.total))
unfolding read_memory
read_memory-used parse_uint lines =
    let values = memory_values parse_uint lines [] in
    let words = memory_values-AreWords parse_uint lines [] tt in
    let t = or_zero-lt (bytes "MemTotal") values words in
    let a = or_zero-lt (bytes "MemAvailable") values words in
    (t, a, λ h. omega (arith, sub64-eq _ _ h t), λ h. sub64_wraps _ _ h a)
