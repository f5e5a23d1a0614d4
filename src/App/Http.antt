-- ===== src/App/Http.antt =====
-- What the handlers of internal/app/server.go read of a request and write of a response, and the
-- standard library's functions on addresses that they call.
use servora.Prelude.{
  Bool, List, Option, Text, any_of, bytes, false, if◌then◌else◌, none, some, true, ℕ, ◌&&◌, ◌==◌,
  text_eq,
}

-- r.Method
pub data Method : Type 0 where
  get head post put_method patch delete connect options trace : Method
  unknown : Text → Method

-- `cookie` is the value of sms_session, if it is sent; a header that is missing is "".
pub record Request : Type 0 where
  pub method : Method
  pub path : Text
  pub remote_addr : Text
  pub host : Text
  pub cookie : Option Text
  pub csrf_token : Text
  pub origin : Text

-- net.IPNet
pub record IpNet : Type 0 where
  pub ip : Text
  pub mask : Text

-- The standard library, by what its calls answer: net.SplitHostPort, net.ParseIP (the address's
-- bytes), IPNet.Contains, url.Parse (the host and the scheme), strings.EqualFold.
pub record Net : Type 0 where
  pub split_host_port : Text → Option (Text × Text)
  pub parse_ip : Text → Option Text
  pub contains : IpNet → Text → Bool
  pub parse_url : Text → Option (Text × Text)
  pub equal_fold : Text → Text → Bool

-- writeJSON, writeError and http.Error, with the status.
pub data Reply (A : Type 0) : Type 0 where
  json : ℕ → A → Reply A
  error : ℕ → (code : Text) → Reply A
  plain : ℕ → Text → Reply A

unfoldable pub status : {A : Type 0} → Reply A → ℕ
status (json n a) = n
status (error n code) = n
status (plain n message) = n

unfoldable pub method_not_allowed : {A : Type 0} → Reply A
method_not_allowed = error 405 (bytes "method_not_allowed")

unfoldable pub mutation : Method → Bool
mutation get = false
mutation head = false
mutation options = false
mutation _ = true

abbrev pub is_get : Method → Bool
is_get get = true
is_get _ = false

abbrev pub is_post : Method → Bool
is_post post = true
is_post _ = false

abbrev host_of : Text → Option (Text × Text) → Text
host_of addr none = addr
host_of addr (some (host, port)) = host

unfoldable pub peer_ip : Net → Request → Text
peer_ip net r = host_of r.remote_addr (net.split_host_port r.remote_addr)

-- `none` is a nil address.
unfoldable pub contains_ip : Net → List IpNet → Option Text → Bool
unfolding any_of
contains_ip net networks none = false
contains_ip net networks (some ip) = any_of (λ n. net.contains n ip) networks

abbrev matches_origin : Net → Request → Option (Text × Text) → Bool
matches_origin net r none = false
matches_origin net r (some (host, scheme)) = net.equal_fold host r.host && scheme == bytes "https"

unfoldable pub same_origin : Net → Request → Bool
same_origin net r =
    if r.origin == bytes "" then false else matches_origin net r (net.parse_url r.origin)
