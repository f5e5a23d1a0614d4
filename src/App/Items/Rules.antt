-- ===== src/App/Items/Rules.antt =====
-- The alert rules that the handlers keep.
use servora.Prelude.{
  ==_iff, Bool-cases, List, Option, Text, [], ap, arith, bytes, false, find, find-put,
  find-put_self, find-remove, inl, inr, none, not, refl, some, trim_prefix, trim_prefix-append,
  true, ℕ, ◌++◌, ◌||◌, ◌∙◌, ◌∷◌, ◌≡◌, ◌≢◌, text_eq,
}
use servora.Store.Sessions.{Session}
use servora.Store.Objects.{AlertRules, put_alert_rule, delete_alert_rule}
use servora.Agent.Actions.Validate.{safe_id}
use servora.App.Alerts.{AlertRule, Floats, valid_alert_rule}
use servora.App.Http.{
  Method, get, head, put_method, patch, delete, connect, options, trace, unknown, Request, Net,
  json, method_not_allowed, post,
}
use servora.App.Items.{
  ItemsDb, rule_saved, audit_result, id_or, alert_rules_handler, alert_rule_item, stored, save_rule,
  rules_by_method, is_delete,
}

module _ {F : Type 0} (floats : Floats F) where
  -- Every rule of the table passes validAlertRule.
  AreValid : AlertRules F → Type 0
  AreValid t =
      (id : Text) (rule : AlertRule F) → find id t ≡ some rule → valid_alert_rule floats rule ≡ true

  put-AreValid :
      (rule : AlertRule F) (t : AlertRules F)
      → valid_alert_rule floats rule ≡ true
      → AreValid t
      → AreValid (put_alert_rule rule t)
  unfolding AreValid put_alert_rule
  put-AreValid rule t h v id found f = ground (arith, v id found, find-put rule.id id rule t)

  delete-AreValid : (id : Text) (t : AlertRules F) → AreValid t → AreValid (delete_alert_rule id t)
  unfolding AreValid delete_alert_rule
  delete-AreValid key t v id found f = ground (arith, v id found, find-remove key id t)

  stored-AreValid :
      (failure : Option Text) (before after : AlertRules F)
      → AreValid before
      → AreValid after
      → AreValid (stored failure before after)
  stored-AreValid none before after b a = a
  stored-AreValid (some message) before after b a = b

  module _ (H : Type 0) (net : Net) (now : ℕ) (failure : Option Text) (random_id : Text)
      (session : Session) (r : Request) where
    save_rule-AreValid :
        (marshal : AlertRule F → Text) (body : AlertRule F) (db : ItemsDb F)
        → AreValid db.rule_rows
        → AreValid
            (save_rule {H = H} net floats now failure random_id marshal session r body
              db).0.rule_rows
    unfolding save_rule
    save_rule-AreValid marshal body db v =
        let item : AlertRule F = record body { id = id_or random_id body.id } in
        elim (Bool-cases (valid_alert_rule floats item)) [
          | inl valid ↦ rw valid (
              stored-AreValid failure db.rule_rows (put_alert_rule item db.rule_rows) v
                (put-AreValid item db.rule_rows valid v))
          | inr invalid ↦ rw invalid v
        ]

    rules_by_method-AreValid :
        (m : Method) (marshal : AlertRule F → Text) (body : Option (AlertRule F)) (db : ItemsDb F)
        → AreValid db.rule_rows
        → AreValid
            (rules_by_method {H = H} net floats now failure random_id m marshal session r body
              db).0.rule_rows
    unfolding rules_by_method
    rules_by_method-AreValid get marshal body db v = v
    rules_by_method-AreValid post marshal none db v = v
    rules_by_method-AreValid post marshal (some item) db v = save_rule-AreValid marshal item db v
    rules_by_method-AreValid head marshal body db v = v
    rules_by_method-AreValid put_method marshal body db v = v
    rules_by_method-AreValid patch marshal body db v = v
    rules_by_method-AreValid delete marshal body db v = v
    rules_by_method-AreValid connect marshal body db v = v
    rules_by_method-AreValid options marshal body db v = v
    rules_by_method-AreValid trace marshal body db v = v
    rules_by_method-AreValid (unknown m) marshal body db v = v

    alert_rule_item-AreValid :
        (db : ItemsDb F)
        → AreValid db.rule_rows
        → AreValid
            (alert_rule_item {H = H} net floats now failure random_id session r db).0.rule_rows
    unfolding alert_rule_item
    alert_rule_item-AreValid db v =
        let id = trim_prefix r.path (bytes "/api/v1/alert-rules/") in
        elim (Bool-cases (not (is_delete r.method) || not (safe_id id))) [
          | inl refused ↦ rw refused v
          | inr allowed ↦ rw allowed (
              stored-AreValid failure db.rule_rows (delete_alert_rule id db.rule_rows) v
                (delete-AreValid id db.rule_rows v))
        ]

  -- A request to /alert-rules or to a path below it, with what its calls answer.
  pub data RuleCall : Type 0 where
    collection item :
        (net : Net) (now : ℕ) (failure : Option Text) (random_id : Text)
        (marshal : AlertRule F → Text) (session : Session) (r : Request)
        (body : Option (AlertRule F))
        → RuleCall

  unfoldable pub serve_rule : (H : Type 0) → RuleCall → ItemsDb F → ItemsDb F
  serve_rule H (collection net now failure random_id marshal session r body) db =
      (alert_rules_handler {H = H} net floats now failure random_id marshal session r body db).0
  serve_rule H (item net now failure random_id marshal session r body) db =
      (alert_rule_item {H = H} net floats now failure random_id session r db).0

  unfoldable pub serve_rules : (H : Type 0) → List RuleCall → ItemsDb F → ItemsDb F
  unfolding serve_rule
  serve_rules H [] db = db
  serve_rules H (call ∷ calls) db = serve_rules H calls (serve_rule H call db)

  serve_rule-AreValid :
      (H : Type 0) (call : RuleCall) (db : ItemsDb F)
      → AreValid db.rule_rows
      → AreValid (serve_rule H call db).rule_rows
  unfolding serve_rule alert_rules_handler
  serve_rule-AreValid H (collection net now failure random_id marshal session r body) db v =
      rules_by_method-AreValid H net now failure random_id session r r.method marshal body db v
  serve_rule-AreValid H (item net now failure random_id marshal session r body) db v =
      alert_rule_item-AreValid H net now failure random_id session r db v

  -- Whatever requests are served in whatever order, with any of their statements failing, each rule
  -- that is then stored passes validAlertRule, if each stored rule did before.
  pub serve_rules-valid :
      (H : Type 0) (calls : List RuleCall) (db : ItemsDb F)
      → ((id : Text) (rule : AlertRule F)
          → find id db.rule_rows ≡ some rule
          → valid_alert_rule floats rule ≡ true)
      → (id : Text) (rule : AlertRule F) → find id (serve_rules H calls db).rule_rows ≡ some rule
      → valid_alert_rule floats rule ≡ true
  unfolding serve_rules AreValid
  serve_rules-valid H [] db v = v
  serve_rules-valid H (call ∷ calls) db v =
      serve_rules-valid H calls (serve_rule H call db) (serve_rule-AreValid H call db v)

-- A valid rule that carries an id is stored as it is.
save_rule-named :
    {F : Type 0} (H : Type 0) (net : Net) (floats : Floats F) (now : ℕ) (random_id : Text)
    (marshal : AlertRule F → Text) (session : Session) (r : Request) (rule : AlertRule F)
    (db : ItemsDb F)
    → valid_alert_rule floats rule ≡ true
    → rule.id ≢ []
    → save_rule {H = H} net floats now none random_id marshal session r rule db ≡ (
      record db {
        rule_rows = put_alert_rule rule db.rule_rows;
        audits =
            audit_result net session r
              (bytes "alert_rule.save")
              rule.id
              (marshal rule)
              none
              now
              db.audits;
      },
      json 201 (rule_saved rule),
    )
unfolding save_rule
save_rule-named H net floats now random_id marshal session r rule db valid named =
    let kept : id_or random_id rule.id ≡ rule.id = ground (arith, ==_iff rule.id []) in
    rw (kept, valid) refl

-- A rule whose id does not have the form of safeID can be stored by a POST, but no request to its
-- path deletes it: the answer is 405, and nothing changes.
pub alert_rule_item-unsafe :
    {F H : Type 0} (net : Net) (floats : Floats F) (now : ℕ) (random_id : Text)
    (marshal : AlertRule F → Text) (session : Session) (r q : Request) (rule : AlertRule F)
    (db : ItemsDb F)
    → valid_alert_rule floats rule ≡ true
    → rule.id ≢ []
    → safe_id rule.id ≡ false
    → r.method ≡ post
    → q.path ≡ bytes "/api/v1/alert-rules/" ++ rule.id
    → let (db', reply) =
        alert_rules_handler {H = H} net floats now none random_id marshal session r
          (some rule)
          db in
      (reply ≡ json 201 (rule_saved rule))
      × (find rule.id db'.rule_rows ≡ some rule)
      × ((failure : Option Text)
          → alert_rule_item {H = H} net floats now failure random_id session q db'
            ≡ (db', method_not_allowed))
unfolding alert_rules_handler rules_by_method save_rule alert_rule_item put_alert_rule
alert_rule_item-unsafe net floats now random_id marshal session r q rule db valid named unsafe
      is_post at =
    let handled =
      ap (λ m. rules_by_method net floats now none random_id m marshal session r (some rule) db)
        is_post
      ∙ save_rule-named _ net floats now random_id marshal session r rule db valid named in
    let id_of : trim_prefix q.path (bytes "/api/v1/alert-rules/") ≡ rule.id =
      rw at (trim_prefix-append _ rule.id) in
    (
      ap (λ p. p.1) handled,
      ap (λ p. find rule.id p.0.rule_rows) handled ∙ find-put_self rule.id rule db.rule_rows,
      λ failure. rw (id_of, unsafe) (ground arith),
    )
