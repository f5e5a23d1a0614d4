-- ===== src/App/Actions/Forwarding.antt =====
-- Which requests reach the agent, and what the audit log says of them.
use servora.Prelude.{
  Bool, Bool-cases, List, Option, Result, Table, Text, [], ap, arith, bytes, false, has_prefix, inl,
  inr, none, not, refl, some, true, ℕ, ◌++◌, ◌||◌, ◌∷◌, ◌≡◌, ◌⊎◌,
}
use servora.Store.Audits.{Audit, audit_row}
use servora.Store.Sessions.{Session}
use servora.Agent.Actions.Schedule.{ActionRequest}
use servora.App.Items.{audit_result, is_ok}
use servora.App.Http.{Request, Net, Reply, error, peer_ip, is_get, is_post}
use servora.App.Actions.{
  Outcome, is_sensitive, redact_params, forward_action, checked, failure_of, changes_schedule,
  actions, schedules,
}

-- The audit log has one more row: who asked for what, and whether it worked.
abbrev pub Audited :
    {R : Type 0}
    → (user ip : Text) → ActionRequest
    → (success : Bool) → List Audit
    → Outcome R
    → Type 0
Audited user ip req success audits o =
    (row : Audit) × (o.audits ≡ audits ++ row ∷ [])
    × (row.username ≡ user)
    × (row.ip ≡ ip)
    × (row.action ≡ req.action)
    × (row.target ≡ req.target)
    × (row.success ≡ success)

unfoldable pub is_plain : (action : Text) → Bool
is_plain action = not (has_prefix action (bytes "secret.") || has_prefix action (bytes "schedule."))

unfoldable pub is_schedule : (action : Text) → Bool
is_schedule action = has_prefix action (bytes "schedule.")

module _ {R : Type 0} (net : Net) (lower : Text → Text) (marshal : Table Text Text → Text) (now : ℕ)
    (answer : ActionRequest → Result Text R) (session : Session) (r : Request) where
  forward_action-Audited :
      (req : ActionRequest) (audits : List Audit)
      → Audited session.user
          (peer_ip net r)
          req
          (is_ok (failure_of (answer req)))
          audits
          (forward_action net lower marshal now answer session r req audits)
  unfolding forward_action audit_result
  forward_action-Audited req audits =
      audit_row session.user (peer_ip net r) req.action req.target _ _ _ now audits

  -- Nothing is sent and nothing is audited, or one request of the test is sent and audited.
  abbrev pub SendsOnly : (allowed : Text → Bool) → List Audit → Outcome R → Type 0
  SendsOnly allowed audits o =
      ((o.sent ≡ []) × (o.audits ≡ audits))
      ⊎ ((req : ActionRequest) × (o.sent ≡ req ∷ [])
          × (allowed req.action ≡ true)
          × Audited session.user (peer_ip net r) req (is_ok (failure_of (answer req))) audits o)

  checked-SendsOnly :
      (allowed : Text → Bool) (denial : Reply R) (body : Option ActionRequest) (audits : List Audit)
      → SendsOnly allowed audits (
          checked net lower marshal now answer
            (λ req. allowed req.action)
            denial
            session
            r
            audits
            body)
  checked-SendsOnly allowed denial none audits = inl (refl, refl)
  checked-SendsOnly allowed denial (some req) audits = elim (Bool-cases (allowed req.action)) [
    | inl fits ↦
        rw fits
          (inr (req, (unfold forward_action in refl), fits, forward_action-Audited req audits))
    | inr denied ↦ rw denied (inl (refl, refl))
  ]

  -- /actions sends at most one request to the agent, whose action begins with neither "secret." nor
  -- "schedule."; /schedules sends at most one, whose action begins with "schedule.". What is sent is
  -- audited with its user, address, action, target and success; where nothing is sent, nothing is
  -- audited.
  pub actions-SendsOnly :
      (listed : R) (body : Option ActionRequest) (audits : List Audit)
      → SendsOnly is_plain audits (actions net lower marshal now answer session r body audits)
        × SendsOnly is_schedule audits
            (schedules net lower marshal now answer listed session r body audits)
  unfolding actions schedules is_plain is_schedule
  actions-SendsOnly listed body audits = (
    elim (Bool-cases (is_post r.method)) [
      | inl posts ↦
          rw posts (checked-SendsOnly is_plain (error 403 (bytes "action_denied")) body audits)
      | inr other ↦ rw other (inl (refl, refl))
    ],
    elim (Bool-cases (is_get r.method)) [
      | inl gets ↦ rw gets (inl (refl, refl))
      | inr other ↦
          rw other (elim (Bool-cases (changes_schedule net lower marshal now answer r.method)) [
            | inl changes ↦
                rw changes
                  (checked-SendsOnly is_schedule (error 400 (bytes "invalid_action")) body audits)
            | inr odd ↦ rw odd (inl (refl, refl))
          ])
    ],
  )

-- Parameters that agree on the keys and on the values of every key that is not sensitive.
abbrev pub AgreeInClear : (lower : Text → Text) (one two : Table Text Text) → Type 0
AgreeInClear lower [] [] = Unit
AgreeInClear lower [] (q ∷ two) = ⊥
AgreeInClear lower (p ∷ one) [] = ⊥
AgreeInClear lower (p ∷ one) (q ∷ two) =
    (p.0 ≡ q.0) × ((is_sensitive lower p.0 ≡ false) → p.1 ≡ q.1) × AgreeInClear lower one two

redact_params-Agree :
    (lower : Text → Text) (one two : Table Text Text)
    → AgreeInClear lower one two
    → redact_params lower one ≡ redact_params lower two
unfolding redact_params
redact_params-Agree lower [] [] a = refl
redact_params-Agree lower [] (q ∷ two) a = absurd a
redact_params-Agree lower (p ∷ one) [] a = absurd a
redact_params-Agree lower ((k, v) ∷ one) ((k', v') ∷ two) a =
    ground (arith, redact_params-Agree lower one two, ap (is_sensitive lower) a.0)

-- The audit log of /actions and /schedules does not depend on the value of a parameter whose key
-- holds "token" or "password": two requests that agree in the rest leave the same log, where the
-- agent's answers fail with the same text or not at all.
pub forward_action_redacts :
    {R : Type 0} (net : Net) (lower : Text → Text) (marshal : Table Text Text → Text) (now : ℕ)
    (answer : ActionRequest → Result Text R) (session : Session) (r : Request)
    (action target : Text) (one two : Table Text Text) (audits : List Audit)
    → AgreeInClear lower one two
    → failure_of (answer (record { action = action; target = target; params = one }))
      ≡ failure_of (answer (record { action = action; target = target; params = two }))
    → (forward_action net lower marshal now answer session r
        (record { action = action; target = target; params = one })
        audits).audits
      ≡ (forward_action net lower marshal now answer session r
          (record { action = action; target = target; params = two })
          audits).audits
unfolding forward_action
forward_action_redacts net lower marshal now answer session r action target one two audits a e =
    rw (redact_params-Agree lower one two a, e) refl
