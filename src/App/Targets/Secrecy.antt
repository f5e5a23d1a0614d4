-- ===== src/App/Targets/Secrecy.antt =====
-- Where the token of a notification target goes.
use servora.Prelude.{Bool-cases, Text, inl, inr, refl, some, true, ◌≡◌}
use servora.Store.Sessions.{Session}
use servora.Store.Objects.{NotificationTarget}
use servora.App.Http.{
  Method, get, head, post, put_method, patch, delete, connect, options, trace, unknown, Request,
  Net, Reply,
}
use servora.App.Items.{is_ok}
use servora.App.Targets.{
  TargetsDb, TargetCalls, TargetPayload, new_target, write_secret, keep_target, save_target,
  targets_by_method, notification_targets_handler, valid_token, valid_notification_target,
}

-- The same answer, the same targets and the same audit log.
abbrev Agree : (p q : TargetsDb × Reply TargetPayload) → Type 0
Agree (one, reply) (two, reply') =
    (reply ≡ reply') × (one.targets ≡ two.targets) × (one.audits ≡ two.audits)

-- With the form of the token given, the test is on the rest.
valid_without_token :
    (trim_space : Text → Text) (name provider chat_id token other : Text)
    → valid_token token ≡ true
    → valid_token other ≡ true
    → valid_notification_target trim_space name provider chat_id token
      ≡ valid_notification_target trim_space name provider chat_id other
unfolding valid_notification_target
valid_without_token trim_space name provider chat_id token other v w = rw (v, w) refl

module _ (net : Net) (c : TargetCalls) (session : Session) (r : Request) where
  save_target-Agree :
      (target : NotificationTarget) (token other : Text) (db : TargetsDb)
      → valid_token token ≡ true
      → valid_token other ≡ true
      → (write_secret c.answer c.random_ref token db.secrets).0
        ≡ (write_secret c.answer c.random_ref other db.secrets).0
      → Agree
          (save_target net c session r (record { target = target; token = token }) db)
          (save_target net c session r (record { target = target; token = other }) db)
  unfolding save_target keep_target
  save_target-Agree target token other db v w e =
      let t = new_target net c (record { target = target; token = token }) in
      let alike = valid_without_token c.trim_space t.name t.provider t.chat_id token other v w in
      elim (Bool-cases (valid_notification_target c.trim_space t.name t.provider t.chat_id other)) [
        | inl valid ↦
            rw (alike, valid, e)
              (elim (Bool-cases (is_ok (write_secret c.answer c.random_ref other db.secrets).0)) [
                | inl written ↦ rw written (refl, refl, refl)
                | inr failed ↦ rw failed (refl, refl, refl)
              ])
        | inr invalid ↦ rw (alike, invalid) (refl, refl, refl)
      ]

  targets_by_method-Agree :
      (m : Method) (target : NotificationTarget) (token other : Text) (db : TargetsDb)
      → valid_token token ≡ true
      → valid_token other ≡ true
      → (write_secret c.answer c.random_ref token db.secrets).0
        ≡ (write_secret c.answer c.random_ref other db.secrets).0
      → Agree
          (targets_by_method net c m session r
            (some (record { target = target; token = token }))
            db)
          (targets_by_method net c m session r
            (some (record { target = target; token = other }))
            db)
  unfolding targets_by_method
  targets_by_method-Agree post target token other db v w e =
      save_target-Agree target token other db v w e
  targets_by_method-Agree get target token other db v w e = (refl, refl, refl)
  targets_by_method-Agree head target token other db v w e = (refl, refl, refl)
  targets_by_method-Agree put_method target token other db v w e = (refl, refl, refl)
  targets_by_method-Agree patch target token other db v w e = (refl, refl, refl)
  targets_by_method-Agree delete target token other db v w e = (refl, refl, refl)
  targets_by_method-Agree connect target token other db v w e = (refl, refl, refl)
  targets_by_method-Agree options target token other db v w e = (refl, refl, refl)
  targets_by_method-Agree trace target token other db v w e = (refl, refl, refl)
  targets_by_method-Agree (unknown m) target token other db v w e = (refl, refl, refl)

-- Two bodies that differ in their tokens only get the same answer and leave the same targets and the
-- same audit log, where both tokens have the form of a token and the agent gives both the same
-- answer: neither the database nor the client is told the token.
pub notification_targets_secret :
    (net : Net) (c : TargetCalls) (session : Session) (r : Request) (target : NotificationTarget)
    (token other : Text) (db : TargetsDb)
    → valid_token token ≡ true
    → valid_token other ≡ true
    → (write_secret c.answer c.random_ref token db.secrets).0
      ≡ (write_secret c.answer c.random_ref other db.secrets).0
    → let (one, reply) =
        notification_targets_handler net c session r
          (some (record { target = target; token = token }))
          db in
      let (two, reply') =
        notification_targets_handler net c session r
          (some (record { target = target; token = other }))
          db in
      (reply ≡ reply') × (one.targets ≡ two.targets) × (one.audits ≡ two.audits)
unfolding notification_targets_handler
notification_targets_secret net c session r target token other db v w e =
    targets_by_method-Agree net c session r r.method target token other db v w e
