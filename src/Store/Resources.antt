-- ===== src/Store/Resources.antt =====
-- internal/store/store.go: the process_resource_history table and Store.ioSeen, with
-- SaveProcessResources, resourceProcessGroup and ClearResourceHistory. Sums of bytes are exact; a
-- CPU load is a float64, whose addition and maximum are SQLite's. A failing statement is an
-- argument, as for the flows.
pub mod Growth
use servora.Prelude.{
  Bool, List, Option, Table, Text, [], any_of, bytes, contains_text, false, find, has_prefix,
  if◌then◌else◌, itoa, keep, leb, ltb, none, not, put, some, true, ℕ, ◌&&◌, ◌++◌, ◌+◌, ◌-◌, ◌==◌,
  ◌||◌, ◌∷◌, text_eq, nat_eq, pair_eq,
}
use servora.Clock.{unix}
use servora.Store.Settings.{Settings, cpu_key, memory_key, disk_key, setting_enabled}
use servora.Store.Flows.{bucket_of}

pub record Loads : Type 1 where
  pub Load : Type 0
  pub zero_load : Load
  pub add_load : Load → Load → Load
  pub max_load : Load → Load → Load

-- strings.ToLower is `lower`.
unfoldable pub resource_process_group : (lower : Text → Text) → Text → Text
resource_process_group lower name =
    let l = lower name in
    if has_prefix l (bytes "ssh")
    then bytes "ssh"
    else if contains_text l (bytes "servora") || contains_text l (bytes "system-maintenance")
    then bytes "servora"
    else if contains_text l (bytes "docker") || contains_text l (bytes "containerd")
    then bytes "docker"
    else if has_prefix l (bytes "postgres")
    then bytes "postgresql"
    else if has_prefix l (bytes "mysql") || has_prefix l (bytes "mariadb")
    then bytes "mysql"
    else l

-- The previous counters of a process: the bytes that it has read and written.
abbrev pub Seen : Type 0
Seen = Table Text (ℕ × ℕ)

-- The primary key: bucket, pid, process, group_name, username.
abbrev pub ResourceKey : Type 0
ResourceKey = ℕ × (ℕ × (Text × (Text × Text)))

-- The bytes by which a counter has grown; a counter that went back counts for nothing.
unfoldable pub growth : (now before : ℕ) → ℕ
growth now before = if leb before now then now - before else 0

-- (readBytes, writeBytes), from the previous counters of the process.
unfoldable pub io_growth : (disk : Bool) (now : ℕ × ℕ) → Option (ℕ × ℕ) → ℕ × ℕ
unfolding growth
io_growth disk now none = (0, 0)
io_growth disk now (some before) =
    if disk then (growth now.0 before.0, growth now.1 before.1) else (0, 0)

module _ (l : Loads) where
  -- model.Process, as far as it is stored.
  pub record Process : Type 0 where
    pub pid : ℕ
    pub start_time : ℕ
    pub name : Text
    pub user : Text
    pub cpu : l.Load
    pub memory : ℕ
    pub read_bytes : ℕ
    pub write_bytes : ℕ

  pub record ResourceRow : Type 0 where
    pub cpu_sum : l.Load
    pub cpu_max : l.Load
    pub memory_sum : ℕ
    pub memory_max : ℕ
    pub read_bytes : ℕ
    pub write_bytes : ℕ
    pub samples : ℕ

  abbrev pub Resources : Type 0
  Resources = Table ResourceKey ResourceRow

  -- fmt.Sprintf("%d/%d", process.PID, process.StartTime.UnixNano())
  unfoldable pub process_key : Process → Text
  process_key p = itoa p.pid ++ b'/' ∷ itoa p.start_time

  -- Which histories are on.
  pub record Enabled : Type 0 where
    pub cpu : Bool
    pub memory : Bool
    pub disk : Bool

  abbrev pub sample : Enabled → Process → ℕ × ℕ → ResourceRow
  sample on p io = record {
    cpu_sum = if on.cpu then p.cpu else l.zero_load;
    cpu_max = if on.cpu then p.cpu else l.zero_load;
    memory_sum = if on.memory then p.memory else 0;
    memory_max = if on.memory then p.memory else 0;
    read_bytes = io.0;
    write_bytes = io.1;
    samples = 1;
  }

  -- ON CONFLICT … DO UPDATE
  abbrev pub merged : ResourceRow → Option ResourceRow → ResourceRow
  merged new none = new
  merged new (some row) = record {
    cpu_sum = l.add_load row.cpu_sum new.cpu_sum;
    cpu_max = l.max_load row.cpu_max new.cpu_max;
    memory_sum = row.memory_sum + new.memory_sum;
    memory_max = if ltb row.memory_max new.memory_max then new.memory_max else row.memory_max;
    read_bytes = row.read_bytes + new.read_bytes;
    write_bytes = row.write_bytes + new.write_bytes;
    samples = row.samples + 1;
  }

  module _ (lower : Text → Text) (bucket : ℕ) (on : Enabled) (refuses : Process → Bool) where
    abbrev pub resource_key : Process → ResourceKey
    resource_key p = (bucket, (p.pid, (p.name, (resource_process_group lower p.name, p.user))))

    unfoldable pub add_sample : Process → ℕ × ℕ → Resources → Resources
    add_sample p io t = put (resource_key p) (merged (sample on p io) (find (resource_key p) t)) t

    -- The loop of the transaction: ioSeen is updated in any case, the rows are `none` where a
    -- statement is refused.
    unfoldable pub save_processes : List Process → Seen → Resources → Seen × Option Resources
    unfolding add_sample
    save_processes [] seen t = (seen, some t)
    save_processes (p ∷ processes) seen t =
        let io = io_growth on.disk (p.read_bytes, p.write_bytes) (find (process_key p) seen) in
        let seen' = put (process_key p) (p.read_bytes, p.write_bytes) seen in
        let rest = save_processes processes seen' (add_sample p io t) in
        if refuses p then (seen', none) else rest

  -- delete(s.ioSeen, key) for every key that is not active
  unfoldable pub keep_active : List Process → Seen → Seen
  keep_active processes seen = keep (λ entry. any_of (λ p. process_key p == entry.0) processes) seen

  pub record History : Type 0 where
    pub settings : Settings
    pub seen : Seen
    pub rows : Resources

  abbrev finish :
      (commits : Bool) → List Process → History → Seen × Option Resources → Bool × History
  finish commits processes h (seen, none) = (false, record h { seen = seen })
  finish commits processes h (seen, some rows) =
      let active = keep_active processes seen in
      if commits
      then (true, record h { seen = active; rows = rows })
      else (false, record h { seen = active })

  -- The three switches, as SaveProcessResources asks for them.
  unfoldable pub read_enabled : (found : Bool) → Settings → Enabled × Settings
  unfolding setting_enabled
  read_enabled found s =
      let (cpu, s1) = setting_enabled cpu_key found s in
      let (memory, s2) = setting_enabled memory_key found s1 in
      let (disk, s3) = setting_enabled disk_key found s2 in
      (record { cpu = cpu; memory = memory; disk = disk }, s3)

  -- The flag is whether there was no error.
  unfoldable pub save_process_resources :
      (lower : Text → Text) (found begins commits : Bool) (refuses : Process → Bool) (timestamp : ℕ)
      → List Process
      → History
      → Bool × History
  unfolding read_enabled save_processes
  save_process_resources lower found begins commits refuses timestamp processes h =
      let (on, settings) = read_enabled found h.settings in
      let outcome = save_processes lower (bucket_of timestamp) on refuses processes h.seen h.rows in
      let saved = finish commits processes (record h { settings = settings }) outcome in
      if not on.cpu && not on.memory && not on.disk
      then (true, record h { settings = settings; seen = [] })
      else if begins
      then saved
      else (false, record h { settings = settings })

  -- The checkpoint's error is ignored; VACUUM's is returned, after the rows are gone.
  unfoldable pub clear_resource_history : (deletes vacuums : Bool) → History → Bool × History
  clear_resource_history deletes vacuums h =
      if deletes then (vacuums, record h { seen = []; rows = [] }) else (false, h)
