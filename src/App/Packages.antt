-- ===== src/App/Packages.antt =====
-- internal/app/packages.go: pageParams, the page of files that packageItem answers,
-- packageRefreshRequest and the flag that runPackageScan sets. The numbers of a page are Go's 64-bit
-- int.
pub mod Paging
pub mod Refresh
use servora.Prelude.{
  Bool, List, Option, Text, [], atoi, bytes, drop, false, if◌then◌else◌, leb, length, ltb, none,
  not, some, take, true, ℕ, ◌%◌, ◌&&◌, ◌*◌, ◌++◌, ◌+◌, ◌-◌, ◌^◌, ◌||◌,
}
use servora.Agent.Actions.Effects.{ℤ, pos, negsuc}
use servora.Store.Audits.{Audit, audit}
use servora.Store.Sessions.{Session}
use servora.App.Http.{Request, Net, Reply, json, method_not_allowed, is_post, peer_ip}

-- What strconv.Atoi gives for a parameter, whatever its error, within the range 1 to `most`, and
-- `default` outside.
abbrev bounded : (most : Option ℕ) (default : ℕ) → ℤ → ℕ
bounded most default (negsuc n) = default
bounded none default (pos n) = if ltb n 1 then default else n
bounded (some most) default (pos n) = if ltb n 1 || ltb most n then default else n

unfoldable pub page_params : (atoi : Text → ℤ) (query : Text → Text) → ℕ × ℕ
page_params atoi query = (
  bounded none 1 (atoi (query (bytes "page"))),
  bounded (some 500) 100 (atoi (query (bytes "per_page"))),
)

-- (page - 1) * perPage in 64 bits, two's complement: a value from 2^63 on is negative.
unfoldable pub page_start : (page per_page : ℕ) → ℕ
page_start page per_page = (page - 1) * per_page % 2 ^ 64

unfoldable pub is_negative : ℕ → Bool
is_negative n = leb (2 ^ 63) n

-- items[start:stop] of Go, where `spare` is what the capacity of the slice has behind its items;
-- `none` is the panic, which a negative start, a start after the stop, and a stop beyond the
-- capacity give.
unfoldable pub slice_of : {A : Type 0} → (start stop : ℕ) (items spare : List A) → Option (List A)
unfolding is_negative
slice_of start stop items spare =
    if not (is_negative start) && leb start stop && leb stop (length items + length spare)
    then some (take (stop - start) (drop start (items ++ spare)))
    else none

-- A negative start is not beyond the end.
unfoldable pub page_slice :
    {A : Type 0} → (page per_page : ℕ) (filtered spare : List A) → Option (List A)
unfolding page_start is_negative slice_of
page_slice page per_page filtered spare =
    let raw = page_start page per_page in
    let start =
      if not (is_negative raw) && ltb (length filtered) raw then length filtered else raw in
    let stop =
      if ltb (start + per_page) (length filtered) then start + per_page else length filtered in
    slice_of start stop filtered spare

-- Where packageLoop stands: in its select, before the lock of runPackageScan, or behind it.
pub data LoopPhase : Type 0 where
  waiting starting scanning : LoopPhase

-- The flag packageRefreshing, whether the channel packageRefresh of one place is full, and the loop.
pub record RefreshState : Type 0 where
  pub refreshing : Bool
  pub queued : Bool
  pub phase : LoopPhase

-- Under the lock: the new state, and alreadyRunning.
unfoldable pub request_refresh : RefreshState → RefreshState × Bool
request_refresh s =
    if s.refreshing
    then (s, true)
    else if s.queued
    then (record s { refreshing = true }, true)
    else (record s { refreshing = true; queued = true }, false)

abbrev already_text : Bool → Text
already_text true = bytes "{\"already_running\":true}"
already_text false = bytes "{\"already_running\":false}"

unfoldable pub package_refresh_request :
    Net
    → (now : ℕ) → Session
    → Request
    → RefreshState
    → List Audit
    → RefreshState × List Audit × Reply Bool
unfolding request_refresh
package_refresh_request net now session r s audits =
    if not (is_post r.method)
    then (s, audits, method_not_allowed)
    else (let (s', already) = request_refresh s in
        (
          s',
          audit session.user (peer_ip net r) (bytes "package.metadata_refresh") []
              (already_text already) true (bytes "operation completed") now audits,
          json 202 already,
        ))

-- The select takes the request from the channel, or a ticker fires; runPackageScan sets the flag,
-- and unsets it when it ends.
unfoldable pub take_request : RefreshState → RefreshState
take_request s = record s { queued = false; phase = starting }

unfoldable pub take_tick : RefreshState → RefreshState
take_tick s = record s { phase = starting }

unfoldable pub begin_scan : RefreshState → RefreshState
begin_scan s = record s { refreshing = true; phase = scanning }

unfoldable pub end_scan : RefreshState → RefreshState
end_scan s = record s { refreshing = false; phase = waiting }
