-- ===== src/Tests/Live.antt =====
-- Runs of the handlers of alert rules, notification targets and actions, and of the stream.
use servora.Prelude.{
  Result, Text, [], all_of, any_of, arith, bytes, cut_at, find, inr, is_digit, is_lower, is_upper,
  leb, ltb, nat_beq, none, ok, put, refl, some, text_beq, true, ℕ, ◌*◌, ◌∷◌, ◌≡◌, text_eq, nat_eq,
}
use servora.Clock.{second}
use servora.Store.Sessions.{Session, Sessions, session_active, check_session}
use servora.Store.Objects.{NotificationTarget, put_alert_rule}
use servora.Agent.Actions.Schedule.{ActionRequest}
use servora.App.Alerts.{AlertRule, Floats, valid_alert_rule}
use servora.App.Http.{Request, Method}
use servora.App.Items.{ItemsDb, alert_rules_handler, rules_by_method, save_rule}
use servora.App.Items.Rules.{RuleCall, serve_rule, serve_rules, serve_rules-valid}
use servora.App.Targets.{
  TargetsDb, TargetCalls, notification_targets_handler, target_item, write_secret, valid_token,
  is_token_char,
}
use servora.App.Targets.Backed.{IsBacked}
use servora.App.Targets.Requests.{targets-IsBacked}
use servora.App.Targets.Secrecy.{notification_targets_secret}
use servora.App.Actions.{actions, schedules}
use servora.App.Actions.Forwarding.{SendsOnly, is_plain, is_schedule, actions-SendsOnly}
use servora.App.Stream.{Frame, auth_expired, arrived, check, session_holds, on_event, stream_loop}
use servora.App.Stream.Hub.{
  Hub, Subscriber, start, next, published, subscribed, publish, offer, offer_all, subscribe,
  IsOrderly, HubRun-IsOrderly,
}
use servora.App.Stream.Expiry.{IsOver, stream_loop-expired}
use servora.Tests.Data.{net, noon, browser, hash, limits, token, row, differ}

abbrev alice : Session
alice = record {
  user = bytes "alice";
  csrf = bytes "c0";
  ip = browser;
  created = noon;
  seen = noon;
}

abbrev to_path : Method → Text → Request
to_path method path = record {
  method = method;
  path = path;
  remote_addr = bytes "10.0.0.7:5000";
  host = bytes "servora:8443";
  cookie = some token;
  csrf_token = bytes "c0";
  origin = bytes "https://servora:8443";
}

-- A target whose secret is written, by a telegram bot.
abbrev token_text : Text
token_text = bytes "12345:AAAAAAAAAAAAAAAAAAAA"

abbrev other_token : Text
other_token = bytes "54321:BBBBBBBBBBBBBBBBBBBB"

abbrev bot : NotificationTarget
bot = record {
  id = [];
  name = bytes "ops";
  provider = [];
  chat_id = bytes "-100";
  secret_ref = [];
  enabled = true;
}

abbrev target_calls : TargetCalls
target_calls = record {
  answer = λ req. none;
  failure = none;
  random_id = bytes "00112233";
  random_ref = bytes "44556677";
  now = noon;
  trim_space = λ s. s;
  marshal = λ chat_id. chat_id;
}

abbrev no_targets : TargetsDb
no_targets = record { targets = []; audits = []; secrets = [] }

no_targets-IsBacked : IsBacked [] []
no_targets-IsBacked = record {
  backed = λ id t f. absurd (unfold find in ground arith);
  owned = λ i j s t f g e. absurd (unfold find in ground arith);
}

abbrev posted : TargetsDb
posted =
    (notification_targets_handler net target_calls alice
      (to_path Method.post (bytes "/api/v1/notification-targets"))
      (some (record { target = bot; token = token_text })) no_targets).0

abbrev tested : TargetsDb
tested =
    (target_item net target_calls (λ chat_id token message. none) none alice
      (to_path Method.post (bytes "/api/v1/notification-targets")) no_targets).0

targets-IsBacked_example :
    IsBacked posted.targets posted.secrets × IsBacked tested.targets tested.secrets
targets-IsBacked_example =
    targets-IsBacked net target_calls alice
      (to_path Method.post (bytes "/api/v1/notification-targets")) (λ chat_id token message. none)
      none (some (record { target = bot; token = token_text })) no_targets (unfold find in refl)
      no_targets-IsBacked

abbrev posted_other : TargetsDb
posted_other =
    (notification_targets_handler net target_calls alice
      (to_path Method.post (bytes "/api/v1/notification-targets"))
      (some (record { target = bot; token = other_token })) no_targets).0

notification_targets_secret_example :
    ((notification_targets_handler net target_calls alice
        (to_path Method.post (bytes "/api/v1/notification-targets"))
        (some (record { target = bot; token = token_text }))
        no_targets).1
      ≡ (notification_targets_handler net target_calls alice
          (to_path Method.post (bytes "/api/v1/notification-targets"))
          (some (record { target = bot; token = other_token }))
          no_targets).1)
    × (posted.targets ≡ posted_other.targets)
    × (posted.audits ≡ posted_other.audits)
notification_targets_secret_example =
    notification_targets_secret net target_calls alice
      (to_path Method.post (bytes "/api/v1/notification-targets")) bot token_text other_token
      no_targets
      (unfold valid_token cut_at all_of is_token_char is_digit is_lower is_upper bytes in refl)
      (unfold valid_token cut_at all_of is_token_char is_digit is_lower is_upper bytes in refl)
      (unfold write_secret in refl)

-- A restart of a service.
abbrev restart : ActionRequest
restart = record {
  action = bytes "service.restart";
  target = bytes "nginx.service";
  params = (bytes "token", bytes "abc") ∷ [];
}

abbrev agent_answer : ActionRequest → Result Text Text
agent_answer req = ok (bytes "restarted")

actions-SendsOnly_example :
    SendsOnly net
      (λ s. s)
      (λ p. [])
      noon
      agent_answer
      alice
      (to_path Method.post (bytes "/api/v1/actions"))
      is_plain
      []
      (actions net
        (λ s. s)
        (λ p. [])
        noon
        agent_answer
        alice
        (to_path Method.post (bytes "/api/v1/actions"))
        (some restart)
        [])
    × SendsOnly net
        (λ s. s)
        (λ p. [])
        noon
        agent_answer
        alice
        (to_path Method.post (bytes "/api/v1/actions"))
        is_schedule
        []
        (schedules net
          (λ s. s)
          (λ p. [])
          noon
          agent_answer
          (bytes "listed")
          alice
          (to_path Method.post (bytes "/api/v1/actions"))
          (some restart)
          [])
actions-SendsOnly_example =
    actions-SendsOnly net (λ s. s) (λ p. []) noon agent_answer alice
      (to_path Method.post (bytes "/api/v1/actions")) (bytes "listed") (some restart) []

-- Numbers as float64.
abbrev floats : Floats ℕ
floats = record { lt = ltb; le = leb; eq = nat_beq; zero_value = 0; nanos = λ n. n * second }

abbrev cpu_rule : AlertRule ℕ
cpu_rule = record {
  id = bytes "00112233";
  name = bytes "cpu";
  source = bytes "cpu";
  operator = bytes ">";
  severity = bytes "warning";
  target_ids = [];
  threshold = 90;
  for_seconds = 60;
  cooldown_seconds = 0;
  enabled = true;
  notify_recovery = true;
}

abbrev no_items : ItemsDb ℕ
no_items = record { watch_rows = []; rule_rows = []; alert_rows = []; audits = [] }

abbrev post_rule : RuleCall floats
post_rule =
    RuleCall.collection net noon none (bytes "99999999") (λ rule. rule.name) alice
      (to_path Method.post (bytes "/api/v1/alert-rules")) (some cpu_rule)

post_rule_stores :
    find (bytes "00112233") (serve_rules floats Text (post_rule ∷ []) no_items).rule_rows
    ≡ some cpu_rule
unfolding serve_rules serve_rule alert_rules_handler rules_by_method save_rule valid_alert_rule
    any_of put_alert_rule find put text_beq bytes
post_rule_stores = refl

serve_rules-valid_example : valid_alert_rule floats cpu_rule ≡ true
serve_rules-valid_example =
    serve_rules-valid floats Text (post_rule ∷ []) no_items
      (λ id rule found. absurd (unfold find in ground arith)) (bytes "00112233") cpu_rule
      post_rule_stores

-- A stream that subscribes and then misses nothing.
abbrev hub_after : Hub ℕ
hub_after = publish 6 (subscribe 1 (record { latest = 5; subs = [] }))

abbrev watcher : Subscriber ℕ
watcher = record { queue = 6 ∷ []; written = 5 ∷ []; offered = 5 ∷ 6 ∷ [] }

watcher_found : find 1 hub_after.subs ≡ some watcher
unfolding publish subscribe offer_all offer find put
watcher_found = refl

HubRun-IsOrderly_example : IsOrderly watcher
HubRun-IsOrderly_example =
    HubRun-IsOrderly 5 hub_after 1 watcher
      (next (next start (subscribed 1 (unfold find in refl))) (published 6)) watcher_found

-- The session of the stream is of another address.
abbrev away : Sessions
away = (hash token, record row { ip = bytes "10.0.0.8" }) ∷ []

away-IsOver : IsOver limits hash token browser noon away
away-IsOver = inr (
  record row { ip = bytes "10.0.0.8" },
  unfold find text_beq bytes in refl,
  inr (inr (differ (bytes "10.0.0.8") browser (unfold bytes text_beq in refl))),
)

stream_loop-expired_example :
    (stream_loop {D = ℕ} limits hash token browser (check noon away ∷ arrived 6 ∷ [])
      ≡ auth_expired ∷ [])
    × (stream_loop {D = ℕ} limits hash token browser
          (arrived 5 ∷ (check noon away ∷ arrived 6 ∷ []))
        ≡ stream_loop {D = ℕ} limits hash token browser (arrived 5 ∷ (check noon away ∷ [])))
stream_loop-expired_example =
    stream_loop-expired limits hash token browser (arrived 5 ∷ []) (arrived 6 ∷ []) noon away
      away-IsOver

stream_ends :
    stream_loop {D = ℕ} limits hash token browser (arrived 5 ∷ check noon [] ∷ arrived 6 ∷ [])
    ≡ Frame.snapshot 5 ∷ Frame.auth_expired ∷ []
unfolding stream_loop on_event session_holds session_active check_session find
stream_ends = refl
