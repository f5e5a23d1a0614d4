-- ===== src/App/Config.antt =====
-- internal/app/config.go: DefaultConfig, LoadConfig, parseCIDRs, csvSet. The file comes as the lines
-- that bufio.Scanner gives.
pub mod Limits
use servora.Prelude.{
  Bool, List, Option, Result, Table, Text, [], bytes, cut_at, err, false, find, has_prefix,
  if◌then◌else◌, keep, ltb, map, none, not, ok, put, some, split_at, true, ℕ, ◌%◌, ◌*◌, ◌++◌, ◌-◌,
  ◌==◌, ◌^◌, ◌||◌, ◌∷◌, text_eq,
}
use servora.Clock.{second, minute, hour}
use servora.App.Http.{IpNet}
use servora.Agent.Actions.Effects.{ℤ, pos, negsuc}

pub record Config : Type 0 where
  pub listen : Text
  pub tls_cert : Text
  pub tls_key : Text
  pub data_dir : Text
  pub agent_socket : Text
  pub network_bpf_object : Text
  pub agent_group : Text
  pub web_user : Text
  pub admin_group : Text
  pub pam_service : Text
  pub allowed_cidrs : List IpNet
  pub trusted_proxies : List IpNet
  pub session_idle : ℕ
  pub session_absolute : ℕ
  pub sample_interval : ℕ
  pub raw_retention : ℕ
  pub rollup_retention : ℕ
  pub max_database_bytes : ℕ
  pub service_allowlist : List Text
  pub protected_services : List Text
  pub job_executables : List Text
  pub maintenance_service : Text
  pub package_scan_interval : ℕ
  pub package_metadata_refresh_interval : ℕ
  pub package_event_retention : ℕ

-- The standard library: strings.TrimSpace, strings.Trim with both quotes, net.ParseIP with To4 (is it
-- four bytes long), net.ParseCIDR, strconv.ParseInt, strconv.Atoi, time.ParseDuration in nanoseconds.
pub record Std : Type 0 where
  pub trim_space : Text → Text
  pub trim_quotes : Text → Text
  pub parse_ip4 : Text → Option Bool
  pub parse_cidr : Text → Result Text IpNet
  pub parse_int : Text → Option ℤ
  pub parse_duration : Text → Option ℤ

unfoldable pub then_do : {A B : Type 0} → Result Text A → (A → Result Text B) → Result Text B
then_do (err e) f = err e
then_do (ok a) f = f a

module _ (std : Std) where
  -- loopbackCIDRs: an address that does not parse is left out.
  unfoldable pub parsed_cidrs : List Text → List IpNet
  parsed_cidrs [] = []
  parsed_cidrs (item ∷ rest) =
      let others = parsed_cidrs rest in
      elim (std.parse_cidr item) [ ok network ↦ network ∷ others | err e ↦ others ]

  unfoldable pub loopback_cidrs : List IpNet
  unfolding parsed_cidrs
  loopback_cidrs = parsed_cidrs (bytes "127.0.0.1/32" ∷ bytes "::1/128" ∷ [])

  abbrev pub default_protected : List Text
  default_protected =
      bytes "system-maintenance-monitor.service"
      ∷ bytes "system-maintenance-agent.service"
      ∷ bytes "sshd.service"
      ∷ bytes "ssh.service"
      ∷ bytes "systemd-logind.service"
      ∷ bytes "NetworkManager.service"
      ∷ bytes "systemd-networkd.service"
      ∷ []

  unfoldable pub default_config : Config
  default_config = record {
    listen = bytes "0.0.0.0:8443";
    tls_cert = bytes "/etc/system-maintenance/tls/server.crt";
    tls_key = bytes "/etc/system-maintenance/tls/server.key";
    data_dir = bytes "/var/lib/system-maintenance-monitor";
    agent_socket = bytes "/run/system-maintenance/agent.sock";
    network_bpf_object = bytes "/opt/system-maintenance/lib/network_accounting.bpf.o";
    agent_group = bytes "system-maintenance-agent";
    web_user = bytes "system-maintenance";
    admin_group = bytes "system-maintenance-admin";
    pam_service = bytes "system-maintenance";
    allowed_cidrs = loopback_cidrs;
    trusted_proxies = [];
    session_idle = 30 * minute;
    session_absolute = 12 * hour;
    sample_interval = second;
    raw_retention = 30 * 24 * hour;
    rollup_retention = 365 * 24 * hour;
    max_database_bytes = 2 * 2 ^ 30;
    service_allowlist = bytes "system-maintenance.service" ∷ [];
    protected_services = default_protected;
    job_executables = bytes "/opt/system-maintenance/bin/system-maintenance" ∷ [];
    maintenance_service = bytes "system-maintenance.service";
    package_scan_interval = 15 * minute;
    package_metadata_refresh_interval = 12 * hour;
    package_event_retention = 365 * 24 * hour;
  }

  -- The loop over the lines.
  unfoldable pub parse_lines : List Text → Table Text Text → Result Text (Table Text Text)
  unfolding cut_at
  parse_lines [] values = ok values
  parse_lines (raw ∷ rest) values =
      let line = std.trim_space raw in
      if line == [] || has_prefix line (bytes "#")
      then parse_lines rest values
      else elim (cut_at b'=' line) [
        | none ↦ err (bytes "invalid config line")
        | some (key, value) ↦
            parse_lines rest
              (put (std.trim_space key) (std.trim_quotes (std.trim_space value)) values)
      ]

  abbrev with_mask : Text → Option Bool → Text
  with_mask item none = item
  with_mask item (some true) = item ++ bytes "/32"
  with_mask item (some false) = item ++ bytes "/128"

  unfoldable pub parse_items : List Text → Result Text (List IpNet)
  parse_items [] = ok []
  parse_items (raw ∷ rest) =
      let item = std.trim_space raw in
      let others = parse_items rest in
      then_do (std.parse_cidr (with_mask item (std.parse_ip4 item)))
        (λ network. then_do others (λ networks. ok (network ∷ networks)))

  unfoldable pub parse_cidrs : Text → Result Text (List IpNet)
  unfolding parse_items split_at
  parse_cidrs value = parse_items (split_at b',' value)

  unfoldable pub csv_set : Text → List Text
  unfolding split_at keep
  csv_set value = keep (λ item. not (item == [])) (map std.trim_space (split_at b',' value))

-- values[key], and `set`.
abbrev value_or_empty : Option Text → Text
value_or_empty none = []
value_or_empty (some v) = v

unfoldable pub value_of : Text → Table Text Text → Text
value_of key values = value_or_empty (find key values)

abbrev or_old : Text → Option Text → Text
or_old old none = old
or_old old (some v) = v

unfoldable pub set : Text → (old : Text) → Table Text Text → Text
set key old values = or_old old (find key values)

abbrev pub labelled : {A : Type 0} → Text → Result Text A → Result Text A
labelled label (ok a) = ok a
labelled label (err e) = err (label ++ e)

-- A value that is missing or empty leaves the default.
unfoldable pub optional :
    {A : Type 0} → (value : Text) (default : A) → (Text → Result Text A) → Result Text A
optional value default parse = if value == [] then ok default else parse value

unfoldable pub in_range : (low high : ℕ) (message : Text) → Option ℤ → Result Text ℕ
in_range low high message none = err message
in_range low high message (some (negsuc n)) = err message
in_range low high message (some (pos n)) = if ltb n low || ltb high n then err message else ok n

-- n << 20 in 64 bits.
abbrev pub megabytes : ℕ → ℕ
megabytes n = n * 2 ^ 20 % 2 ^ 64

module _ (std : Std) where
  -- From the values of the file, in the order of the code's checks.
  unfoldable pub load_values : Table Text Text → Result Text Config
  unfolding value_of set optional in_range
  load_values values =
      let d = default_config std in
      then_do
        (optional (value_of (bytes "ALLOWED_CIDRS") values) d.allowed_cidrs
          (λ v. labelled (bytes "ALLOWED_CIDRS: ") (parse_cidrs std v)))
        (λ allowed.
          then_do
            (optional (value_of (bytes "TRUSTED_PROXIES") values) d.trusted_proxies
              (λ v. labelled (bytes "TRUSTED_PROXIES: ") (parse_cidrs std v)))
            (λ proxies.
              then_do
                (optional (value_of (bytes "MAX_DATABASE_MB") values) d.max_database_bytes (λ v.
                  then_do
                    (in_range 64 (2 ^ 63 - 1) (bytes "MAX_DATABASE_MB must be at least 64")
                      (std.parse_int v))
                    (λ n. ok (megabytes n))))
                (λ max_bytes.
                  then_do
                    (optional (value_of (bytes "SAMPLE_INTERVAL") values) d.sample_interval (λ v.
                      in_range 500000000 minute
                        (bytes "SAMPLE_INTERVAL must be between 500ms and 1m")
                        (std.parse_duration v)))
                    (λ sample.
                      then_do
                        (optional (value_of (bytes "PACKAGE_SCAN_INTERVAL") values)
                          d.package_scan_interval
                          (λ v.
                            in_range (5 * minute) (24 * hour)
                              (bytes "PACKAGE_SCAN_INTERVAL must be between 5m and 24h")
                              (std.parse_duration v)))
                        (λ scan.
                          then_do
                            (optional (value_of (bytes "PACKAGE_METADATA_REFRESH_INTERVAL") values)
                              d.package_metadata_refresh_interval
                              (λ v.
                                in_range hour (7 * 24 * hour)
                                  (bytes
                                    "PACKAGE_METADATA_REFRESH_INTERVAL must be between 1h and 168h")
                                  (std.parse_duration v)))
                            (λ refresh.
                              then_do
                                (optional (value_of (bytes "PACKAGE_EVENT_RETENTION_DAYS") values)
                                  d.package_event_retention
                                  (λ v.
                                    then_do
                                      (in_range 1 3650
                                        (bytes
                                          "PACKAGE_EVENT_RETENTION_DAYS must be between 1 and 3650")
                                        (std.parse_int v))
                                      (λ days. ok (days * (24 * hour)))))
                                (λ retention. ok (record d {
                                  listen = set (bytes "LISTEN") d.listen values;
                                  tls_cert = set (bytes "TLS_CERT") d.tls_cert values;
                                  tls_key = set (bytes "TLS_KEY") d.tls_key values;
                                  data_dir = set (bytes "DATA_DIR") d.data_dir values;
                                  agent_socket = set (bytes "AGENT_SOCKET") d.agent_socket values;
                                  network_bpf_object =
                                      set (bytes "NETWORK_BPF_OBJECT") d.network_bpf_object values;
                                  agent_group = set (bytes "AGENT_GROUP") d.agent_group values;
                                  web_user = set (bytes "WEB_USER") d.web_user values;
                                  admin_group = set (bytes "ADMIN_GROUP") d.admin_group values;
                                  pam_service = set (bytes "PAM_SERVICE") d.pam_service values;
                                  maintenance_service =
                                      set (bytes "MAINTENANCE_SERVICE") d.maintenance_service
                                        values;
                                  allowed_cidrs = allowed;
                                  trusted_proxies = proxies;
                                  max_database_bytes = max_bytes;
                                  sample_interval = sample;
                                  package_scan_interval = scan;
                                  package_metadata_refresh_interval = refresh;
                                  package_event_retention = retention;
                                  service_allowlist =
                                      if value_of (bytes "SERVICE_ALLOWLIST") values == []
                                      then d.service_allowlist
                                      else csv_set std
                                          (value_of (bytes "SERVICE_ALLOWLIST") values);
                                  protected_services =
                                      if value_of (bytes "PROTECTED_SERVICES") values == []
                                      then d.protected_services
                                      else d.protected_services
                                        ++ csv_set std
                                            (value_of (bytes "PROTECTED_SERVICES") values);
                                  job_executables =
                                      if value_of (bytes "JOB_EXECUTABLES") values == []
                                      then d.job_executables
                                      else csv_set std (value_of (bytes "JOB_EXECUTABLES") values);
                                }))))))))

  -- What os.Open and the scanner answer.
  pub data Source : Type 0 where
    missing : Source
    unreadable : (error : Text) → Source
    scanned : (lines : List Text) (error : Option Text) → Source

  abbrev pub scan_result : Option Text → Table Text Text → Result Text (Table Text Text)
  scan_result none values = ok values
  scan_result (some e) values = err e

  unfoldable pub load_config : Source → Result Text Config
  unfolding load_values parse_lines
  load_config missing = ok (default_config std)
  load_config (unreadable e) = err (bytes "open config: " ++ e)
  load_config (scanned lines error) =
      then_do (parse_lines std lines []) (λ values. then_do (scan_result error values) load_values)
