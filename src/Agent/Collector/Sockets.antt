-- ===== src/Agent/Collector/Sockets.antt =====
-- internal/agent/collector.go: readNetworkFlows, which takes the traffic of each TCP socket from the
-- counters that `ss` prints, with splitEndpoint and networkProcessGroup. The regular expressions,
-- strconv's clamping of numbers, net.SplitHostPort and strings.ToLower are arguments.
pub mod Telescope
use servora.Prelude.{
  List, Option, Table, Text, [], bytes, contains_text, fields, find, has_prefix, if◌then◌else◌,
  itoa, map, nat_beq, none, put, some, split_at, trim_prefix, trim_suffix, ℕ, ◌&&◌, ◌++◌, ◌==◌,
  ◌||◌, ◌∷◌, nat_eq, text_eq,
}
use servora.Agent.Collector.Counters.{counter_delta}

-- FindStringSubmatch of the four patterns, for their one group; the number of its digits; the split
-- of an address.
pub record Reading : Type 0 where
  pub pid_pattern : Text → Option Text
  pub process_pattern : Text → Option Text
  pub sent_pattern : Text → Option Text
  pub received_pattern : Text → Option Text
  pub number : Text → ℕ
  pub split_host_port : Text → Option (Text × Text)
  pub lower : Text → Text

-- matchInt and matchInt64; no match is 0.
abbrev match_int : (number : Text → ℕ) → Option Text → ℕ
match_int number none = 0
match_int number (some digits) = number digits

-- matchString
abbrev match_string : Option Text → Text
match_string none = []
match_string (some text) = text

unfoldable pub network_process_group : (lower : Text → Text) → Text → Text
network_process_group lower process =
    let name = lower process in
    if has_prefix name (bytes "ssh")
    then bytes "ssh"
    else if has_prefix name (bytes "system-maintenance")
    then bytes "system-maintenance"
    else if has_prefix name (bytes "docker") || has_prefix name (bytes "containerd")
    then bytes "docker"
    else if has_prefix name (bytes "postgres")
    then bytes "postgresql"
    else if has_prefix name (bytes "mysql") || has_prefix name (bytes "mariadb")
    then bytes "mysql"
    else name

-- strings.Trim with the set "[]"
unfoldable trim_brackets_left : Text → Text
trim_brackets_left [] = []
trim_brackets_left (c ∷ s) =
    let rest = trim_brackets_left s in if nat_beq c b'[' || nat_beq c b']' then rest else c ∷ s

unfoldable trim_brackets_right : Text → Text
trim_brackets_right [] = []
trim_brackets_right (c ∷ s) =
    let rest = trim_brackets_right s in
    if rest == [] && (nat_beq c b'[' || nat_beq c b']') then [] else c ∷ rest

abbrev endpoint_of : (number : Text → ℕ) (value : Text) → Option (Text × Text) → Text × ℕ
endpoint_of number value none = (trim_brackets_right (trim_brackets_left value), 0)
endpoint_of number value (some (host, port)) =
    (trim_prefix (trim_suffix host (bytes "]")) (bytes "["), number port)

unfoldable pub split_endpoint : Reading → Text → Text × ℕ
unfolding trim_brackets_left trim_brackets_right
split_endpoint re value = endpoint_of re.number value (re.split_host_port value)

-- A socket of the output: two lines.
pub record Socket : Type 0 where
  pub pid : ℕ
  pub named : Text
  pub local : Text
  pub remote : Text
  pub rx : ℕ
  pub tx : ℕ

abbrev socket_of : Reading → (first second : Text) → List Text → Option Socket
socket_of re first second (a ∷ b ∷ c ∷ local ∷ remote ∷ rest) =
    if contains_text second (bytes "bytes_")
    then some record {
      pid = match_int re.number (re.pid_pattern first);
      named = match_string (re.process_pattern first);
      local = local;
      remote = remote;
      rx = match_int re.number (re.received_pattern second);
      tx = match_int re.number (re.sent_pattern second);
    }
    else none
socket_of re first second _ = none

abbrev found_socket : Option Socket → List Socket → List Socket
found_socket none rest = rest
found_socket (some socket) rest = socket ∷ rest

-- Each line with the one after it.
unfoldable pub sockets : Reading → List Text → List Socket
sockets re [] = []
sockets re (first ∷ []) = []
sockets re (first ∷ second ∷ lines) =
    found_socket (socket_of re first second (fields first)) (sockets re (second ∷ lines))

-- fmt.Sprintf("%d|%s|%s", pid, local, remote)
unfoldable pub socket_key : Socket → Text
socket_key s = itoa s.pid ++ b'|' ∷ (s.local ++ b'|' ∷ s.remote)

-- model.NetworkFlow; `protocol` is always "tcp".
pub record SocketFlow : Type 0 where
  pub timestamp : ℕ
  pub pid : ℕ
  pub process : Text
  pub group : Text
  pub user : Text
  pub local : Text
  pub remote_ip : Text
  pub remote_port : ℕ
  pub rx_bytes : ℕ
  pub tx_bytes : ℕ

-- The name and the user of a process, and the counters of the sockets by their key.
abbrev pub Processes : Type 0
Processes = Table ℕ (Text × Text)

abbrev pub SocketCounters : Type 0
SocketCounters = Table Text (ℕ × ℕ)

abbrev name_and_user : Option (Text × Text) → Text × Text
name_and_user none = ([], [])
name_and_user (some p) = p

abbrev or_else : (name other : Text) → Text
or_else name other = if name == [] then other else name

module _ (re : Reading) (now : ℕ) (processes : Processes) where
  unfoldable pub flow_of : Socket → (rx_delta tx_delta : ℕ) → SocketFlow
  unfolding network_process_group split_endpoint
  flow_of s rx_delta tx_delta =
      let (name, user) = name_and_user (find s.pid processes) in
      let process = or_else (or_else name s.named) (bytes "unknown") in
      let (ip, port) = split_endpoint re s.remote in
      record {
        timestamp = now;
        pid = s.pid;
        process = process;
        group = network_process_group re.lower process;
        user = user;
        local = s.local;
        remote_ip = ip;
        remote_port = port;
        rx_bytes = rx_delta;
        tx_bytes = tx_delta;
      }

  -- A socket that is new, or that has not moved a byte, gives no flow.
  abbrev pub socket_flow :
      Socket → Option (ℕ × ℕ) → List (Socket × SocketFlow) → List (Socket × SocketFlow)
  socket_flow s none flows = flows
  socket_flow s (some (old_rx, old_tx)) flows =
      let rx = counter_delta s.rx old_rx in
      let tx = counter_delta s.tx old_tx in
      if nat_beq rx 0 && nat_beq tx 0 then flows else (s, flow_of s rx tx) ∷ flows

  -- The flows, each with its socket.
  unfoldable pub socket_flows :
      (previous : SocketCounters) → List Socket → List (Socket × SocketFlow)
  unfolding flow_of
  socket_flows previous [] = []
  socket_flows previous (s ∷ rest) =
      socket_flow s (find (socket_key s) previous) (socket_flows previous rest)

unfoldable pub current_from : SocketCounters → List Socket → SocketCounters
current_from current [] = current
current_from current (s ∷ rest) = current_from (put (socket_key s) (s.rx, s.tx) current) rest

-- The output is `none` where the command fails.
abbrev flows_of_output :
    Reading
    → (now : ℕ) → Processes
    → (previous : SocketCounters) → Option Text
    → List SocketFlow × SocketCounters
flows_of_output re now processes previous none = ([], previous)
flows_of_output re now processes previous (some out) =
    let found = sockets re (split_at b'\n' out) in
    (
      map (λ (p : Socket × SocketFlow). p.1) (socket_flows re now processes previous found),
      current_from [] found,
    )

unfoldable pub read_network_flows :
    Reading
    → (now : ℕ) → Processes
    → (previous : SocketCounters) → Option Text
    → List SocketFlow × SocketCounters
unfolding socket_flows current_from sockets
read_network_flows = flows_of_output
