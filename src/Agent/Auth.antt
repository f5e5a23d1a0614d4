-- ===== src/Agent/Auth.antt =====
-- The authentication that internal/agent/server.go answers (authenticate), with Config.IsAdmin of
-- internal/app/config.go. PAM and the user database are the operating system's.
use servora.Prelude.{
  Bool, List, Option, Text, any_of, arith, false, if◌then◌else◌, none, not, some, true, ℕ, ◌==◌,
  ◌||◌, ◌↔◌, ◌≡◌, text_eq,
}
use servora.App.Http.{Method, is_post}

-- The fields of the JSON body.
pub record Login : Type 0 where
  pub username : Text
  pub password : Text
  pub remote : Text

-- os/user: the group ids of a user (`none` for an unknown user, or where the list fails), and the
-- id of a group. PAM: whether Authenticate returns no error for a name, a password and an address.
pub record Accounts : Type 0 where
  pub group_ids : Text → Option (List Text)
  pub lookup_group : Text → Option Text
  pub pam : (service username password remote : Text) → Bool

abbrev is_member : Option (List Text) → Option Text → Bool
is_member none gid = false
is_member (some ids) none = false
is_member (some ids) (some gid) = any_of (λ id. id == gid) ids

-- Config.IsAdmin
unfoldable pub is_admin : Accounts → (admin_group username : Text) → Bool
unfolding any_of
is_admin os admin_group username = is_member (os.group_ids username) (os.lookup_group admin_group)

-- The status of the answer; `input` is `none` where the body does not decode.
unfoldable pub authenticate :
    Accounts → (pam_service admin_group : Text) → Method → (input : Option Login) → ℕ
authenticate os pam_service admin_group method input =
    if not (is_post method) then 405 else elim input [
      | none ↦ 400
      | some l ↦
          if not (os.pam pam_service l.username l.password l.remote)
            || not (is_admin os admin_group l.username)
          then 401
          else 200
    ]

-- The agent answers a POST of a login with 200 exactly when PAM accepts it and the user is in
-- the admin group.
pub authenticate-eq-200 :
    (os : Accounts) (service group : Text) (l : Login)
    → (authenticate os service group Method.post (some l) ≡ 200) ↔ (
        (os.pam service l.username l.password l.remote ≡ true)
        × (is_admin os group l.username ≡ true))
unfolding authenticate
authenticate-eq-200 os service group l = ground arith
