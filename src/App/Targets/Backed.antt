-- ===== src/App/Targets/Backed.antt =====
-- Every notification target that is stored has its secret.
use servora.Prelude.{
  ==_iff, Bool-cases, Option, Option-cases, Text, ap, arith, find, find-put, find-put_self,
  find-remove, inl, inr, none, put, remove, some, ◌∙◌, ◌≡◌, ◌≢◌, text_eq,
}
use servora.Store.Sessions.{Session}
use servora.Store.Objects.{
  NotificationTarget, Targets, put_notification_target, delete_notification_target,
}
use servora.Agent.Actions.Schedule.{ActionRequest}
use servora.App.Items.{stored}
use servora.App.Http.{Request, Net}
use servora.App.Targets.{
  Secrets, TargetsDb, TargetInput, TargetCalls, new_target, write_secret, delete_secret,
  keep_target, save_target, valid_notification_target,
}

-- The secret of each target is there, and no other target has the same one.
pub record IsBacked (targets : Targets) (secrets : Secrets) : Type 0 where
  pub backed :
      (id : Text) (t : NotificationTarget)
      → find id targets ≡ some t
      → find t.secret_ref secrets ≢ none
  pub owned :
      (i j : Text) (s t : NotificationTarget)
      → find i targets ≡ some s
      → find j targets ≡ some t
      → s.secret_ref ≡ t.secret_ref
      → i ≡ j

-- A secret that no target names may come and go.
put_secret-IsBacked :
    (ref value : Text) (targets : Targets) (secrets : Secrets)
    → IsBacked targets secrets
    → IsBacked targets (put ref value secrets)
put_secret-IsBacked ref value targets secrets b = record {
  backed = λ id t f. ground (arith, b.backed id t f, find-put ref t.secret_ref value secrets);
  owned = b.owned;
}

-- No target names the secret.
abbrev pub IsUnused : Text → Targets → Type 0
IsUnused ref targets =
    (id : Text) (t : NotificationTarget) → find id targets ≡ some t → t.secret_ref ≢ ref

remove_secret-IsBacked :
    (ref : Text) (targets : Targets) (secrets : Secrets)
    → IsUnused ref targets
    → IsBacked targets secrets
    → IsBacked targets (remove ref secrets)
remove_secret-IsBacked ref targets secrets unused b = record {
  backed = λ id t f. ground (
    arith,
    b.backed id t f,
    unused id t f,
    find-remove ref t.secret_ref secrets,
    ==_iff ref t.secret_ref,
  );
  owned = b.owned;
}

fresh-IsUnused :
    (ref : Text) (targets : Targets) (secrets : Secrets)
    → IsBacked targets secrets
    → find ref secrets ≡ none
    → IsUnused ref targets
fresh-IsUnused ref targets secrets b fresh id t f e =
    b.backed id t f (ap (λ k. find k secrets) e ∙ fresh)

put_target-IsBacked :
    (target : NotificationTarget) (targets : Targets) (secrets : Secrets)
    → IsUnused target.secret_ref targets
    → find target.secret_ref secrets ≢ none
    → IsBacked targets secrets
    → IsBacked (put_notification_target target targets) secrets
unfolding put_notification_target
put_target-IsBacked target targets secrets unused there b = record {
  backed = λ id t f. ground (arith, b.backed id t, find-put target.id id target targets);
  owned = λ i j s t f g e. ground (
    arith,
    b.owned i j s t,
    unused i s,
    unused j t,
    find-put target.id i target targets,
    find-put target.id j target targets,
    ==_iff target.id i,
    ==_iff target.id j,
  );
}

pub delete_target_row-IsBacked :
    (id : Text) (targets : Targets) (secrets : Secrets)
    → IsBacked targets secrets
    → IsBacked (delete_notification_target id targets) secrets
unfolding delete_notification_target
delete_target_row-IsBacked id targets secrets b = record {
  backed = λ k t f. ground (arith, b.backed k t, find-remove id k targets);
  owned = λ i j s t f g e.
      ground (arith, b.owned i j s t, find-remove id i targets, find-remove id j targets);
}

pub stored-IsBacked :
    (failure : Option Text) (t1 t2 : Targets) (s1 s2 : Secrets)
    → IsBacked t1 s1
    → IsBacked t2 s2
    → IsBacked (stored failure t1 t2) (stored failure s1 s2)
stored-IsBacked none t1 t2 s1 s2 b1 b2 = b2
stored-IsBacked (some message) t1 t2 s1 s2 b1 b2 = b1

-- Deleting a secret that no target names, whether or not the agent does it.
pub delete_secret-IsBacked :
    (answer : ActionRequest → Option Text) (ref : Text) (targets : Targets) (secrets : Secrets)
    → IsUnused ref targets
    → IsBacked targets secrets
    → IsBacked targets (delete_secret answer ref secrets).1
unfolding delete_secret
delete_secret-IsBacked answer ref targets secrets unused b =
    elim (Option-cases (delete_secret answer ref secrets).0) [
      | inl done ↦ rw done (remove_secret-IsBacked ref targets secrets unused b)
      | inr (message, failed) ↦ rw failed b
    ]

module _ (net : Net) (c : TargetCalls) (session : Session) (r : Request) where
  keep_target-IsBacked :
      (target : NotificationTarget) (db : TargetsDb)
      → IsUnused target.secret_ref db.targets
      → find target.secret_ref db.secrets ≢ none
      → IsBacked db.targets db.secrets
      → let db' = (keep_target net c session r target db).0 in IsBacked db'.targets db'.secrets
  unfolding keep_target
  keep_target-IsBacked target db unused there b =
      stored-IsBacked c.failure db.targets (put_notification_target target db.targets) _ db.secrets
        (delete_secret-IsBacked c.answer target.secret_ref db.targets db.secrets unused b)
        (put_target-IsBacked target db.targets db.secrets unused there b)

  pub save_target-IsBacked :
      (input : TargetInput) (db : TargetsDb)
      → find c.random_ref db.secrets ≡ none
      → IsBacked db.targets db.secrets
      → let db' = (save_target net c session r input db).0 in IsBacked db'.targets db'.secrets
  unfolding save_target write_secret
  save_target-IsBacked input db fresh b =
      let target = new_target net c input in
      let failure = (write_secret c.answer c.random_ref input.token db.secrets).0 in
      let unused : IsUnused c.random_ref db.targets =
        fresh-IsUnused c.random_ref db.targets db.secrets b fresh in
      elim (Bool-cases (
        valid_notification_target c.trim_space target.name target.provider target.chat_id
          input.token)) [
            | inl valid ↦ rw valid (elim (Option-cases failure) [
              | inl written ↦ rw written (
                  keep_target-IsBacked target
                    (record db { secrets = put c.random_ref input.token db.secrets }) unused
                    (ground (arith, find-put_self c.random_ref input.token db.secrets))
                    (put_secret-IsBacked c.random_ref input.token db.targets db.secrets b))
              | inr (message, failed) ↦ rw failed b
            ])
            | inr invalid ↦ rw invalid b
          ]
