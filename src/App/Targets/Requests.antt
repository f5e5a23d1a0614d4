-- ===== src/App/Targets/Requests.antt =====
-- The handlers of notification targets keep every stored target backed by its secret.
use servora.Prelude.{
  ==_refl, Bool, Bool-cases, Option, Option-cases, Text, [], arith, bytes, false, find, find-remove,
  has_suffix, if◌then◌else◌, inl, inr, none, not, refl, some, sym, text_beq, trim_prefix,
  trim_suffix, true, ◌&&◌, ◌==◌, ◌||◌, ◌∙◌, ◌≡◌, ◌⊎◌, text_eq,
}
use servora.Store.Sessions.{Session}
use servora.Store.Objects.{NotificationTarget, Targets, delete_notification_target}
use servora.Agent.Actions.Validate.{safe_id}
use servora.App.Items.{is_ok, is_delete, stored}
use servora.App.Http.{
  Method, get, head, post, put_method, patch, delete, connect, options, trace, unknown, Request,
  Net, is_post,
}
use servora.App.Targets.{
  Secrets, TargetsDb, TargetInput, TargetCalls, delete_secret, targets_by_method,
  notification_targets_handler, secret_of, delete_target, target_item, send_to_target,
}
use servora.App.Targets.Backed.{
  IsBacked, IsUnused, delete_secret-IsBacked, delete_target_row-IsBacked, save_target-IsBacked,
}

-- Once a target's row is gone, no row names its secret.
removed-IsUnused :
    (id : Text) (s : NotificationTarget) (targets : Targets) (secrets : Secrets)
    → IsBacked targets secrets
    → find id targets ≡ some s
    → IsUnused s.secret_ref (delete_notification_target id targets)
unfolding delete_notification_target
removed-IsUnused id s targets secrets b found k t f e =
    ground (arith, b.owned id k s t found, find-remove id k targets, ==_refl id)

module _ (net : Net) (c : TargetCalls) (session : Session) (r : Request) where
  -- The secret that DELETE asks the agent to delete, if it is not "".
  left_IsBacked :
      (id secret : Text) (db : TargetsDb)
      → IsBacked db.targets db.secrets
      → ((secret ≡ [])
          ⊎ ((s : NotificationTarget) × (find id db.targets ≡ some s) × (s.secret_ref ≡ secret)))
      → IsBacked
          (delete_notification_target id db.targets)
          (if not (secret == []) then (delete_secret c.answer secret db.secrets).1 else db.secrets)
  left_IsBacked id secret db b (inl empty) =
      rw empty (unfold text_beq in delete_target_row-IsBacked id db.targets db.secrets b)
  left_IsBacked id secret db b (inr (s, found, ref)) = elim (Bool-cases (not (secret == []))) [
    | inl named ↦ rw named (
        delete_secret-IsBacked c.answer secret (delete_notification_target id db.targets) db.secrets
          (λ k t f e. removed-IsUnused id s db.targets db.secrets b found k t f (e ∙ sym ref))
          (delete_target_row-IsBacked id db.targets db.secrets b))
    | inr unnamed ↦ rw unnamed (delete_target_row-IsBacked id db.targets db.secrets b)
  ]

  secret_source :
      (listed : Bool) (id : Text) (targets : Targets)
      → let secret = if listed then secret_of net c (find id targets) else [] in
        (secret ≡ [])
        ⊎ ((s : NotificationTarget) × (find id targets ≡ some s) × (s.secret_ref ≡ secret))
  secret_source false id targets = inl refl
  secret_source true id targets = elim (Option-cases (find id targets)) [
    | inl missing ↦ inl (rw missing refl)
    | inr (s, found) ↦ inr (s, found, rw found refl)
  ]

  -- By whether the row's deletion works.
  deleted-IsBacked :
      (failure : Option Text) (id secret : Text) (db : TargetsDb)
      → IsBacked db.targets db.secrets
      → IsBacked
          (delete_notification_target id db.targets)
          (if not (secret == []) then (delete_secret c.answer secret db.secrets).1 else db.secrets)
      → IsBacked (stored failure db.targets (delete_notification_target id db.targets)) (
          if is_ok failure && not (secret == [])
          then (delete_secret c.answer secret db.secrets).1
          else db.secrets)
  deleted-IsBacked none id secret db b after = after
  deleted-IsBacked (some message) id secret db b after = b

  delete_target-IsBacked :
      (listed : Option Text) (id : Text) (db : TargetsDb)
      → IsBacked db.targets db.secrets
      → let db' = (delete_target net c listed session r id db).0 in IsBacked db'.targets db'.secrets
  unfolding delete_target
  delete_target-IsBacked listed id db b =
      let secret = if is_ok listed then secret_of net c (find id db.targets) else [] in
      deleted-IsBacked c.failure id secret db b
        (left_IsBacked id secret db b (secret_source (is_ok listed) id db.targets))

  target_item-IsBacked :
      (send : (chat_id token message : Text) → Option Text) (listed : Option Text) (db : TargetsDb)
      → IsBacked db.targets db.secrets
      → let db' = (target_item net c send listed session r db).0 in IsBacked db'.targets db'.secrets
  unfolding target_item
  target_item-IsBacked send listed db b =
      let path = trim_prefix r.path (bytes "/api/v1/notification-targets/") in
      let id = trim_suffix path (bytes "/test") in
      let sent = send_to_target net c send listed id (bytes "✅ Servora test message") db in
      elim (Bool-cases (has_suffix path (bytes "/test"))) [
        | inl test ↦ rw test (elim (Bool-cases (not (is_post r.method) || not (safe_id id))) [
          | inl refused ↦ rw refused b
          | inr allowed ↦ rw allowed (elim (Bool-cases (is_ok sent)) [
            | inl delivered ↦ rw delivered b
            | inr lost ↦ rw lost b
          ])
        ])
        | inr item ↦ rw item (elim (Bool-cases (not (is_delete r.method) || not (safe_id path))) [
          | inl refused ↦ rw refused b
          | inr allowed ↦ rw allowed (delete_target-IsBacked listed path db b)
        ])
      ]

  targets_by_method-IsBacked :
      (m : Method) (body : Option TargetInput) (db : TargetsDb)
      → find c.random_ref db.secrets ≡ none
      → IsBacked db.targets db.secrets
      → let db' = (targets_by_method net c m session r body db).0 in
        IsBacked db'.targets db'.secrets
  unfolding targets_by_method
  targets_by_method-IsBacked get body db fresh b = b
  targets_by_method-IsBacked post none db fresh b = b
  targets_by_method-IsBacked post (some input) db fresh b =
      save_target-IsBacked net c session r input db fresh b
  targets_by_method-IsBacked head body db fresh b = b
  targets_by_method-IsBacked put_method body db fresh b = b
  targets_by_method-IsBacked patch body db fresh b = b
  targets_by_method-IsBacked delete body db fresh b = b
  targets_by_method-IsBacked connect body db fresh b = b
  targets_by_method-IsBacked options body db fresh b = b
  targets_by_method-IsBacked trace body db fresh b = b
  targets_by_method-IsBacked (unknown m) body db fresh b = b

  -- A request to either endpoint of notification targets, whatever the database, the agent and
  -- Telegram answer, keeps every stored target backed by a secret of its own, where the reference
  -- that randomID gives is new.
  pub targets-IsBacked :
      (send : (chat_id token message : Text) → Option Text) (listed : Option Text)
      (body : Option TargetInput) (db : TargetsDb)
      → find c.random_ref db.secrets ≡ none
      → IsBacked db.targets db.secrets
      → (let db' = (notification_targets_handler net c session r body db).0 in
          IsBacked db'.targets db'.secrets)
        × (let db' = (target_item net c send listed session r db).0 in
            IsBacked db'.targets db'.secrets)
  unfolding notification_targets_handler
  targets-IsBacked send listed body db fresh b =
      (targets_by_method-IsBacked r.method body db fresh b, target_item-IsBacked send listed db b)
