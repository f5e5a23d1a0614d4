-- ===== src/Store/Audits.antt =====
-- internal/store/store.go: the audit table and Audit. The parameters come as the text that
-- json.Marshal makes of them.
use servora.Prelude.{
  Bool, List, Text, [], arith, bytes, if◌then◌else◌, length, length-take-le, ltb, refl, take, ℕ,
  ◌++◌, ◌∷◌, ◌≡◌, ◌≤◌,
}
use servora.Clock.{unix}

pub record Audit : Type 0 where
  pub ts : ℕ
  pub username : Text
  pub ip : Text
  pub action : Text
  pub target : Text
  pub parameters : Text
  pub success : Bool
  pub result : Text

-- `text[:n]` where the text is longer than n.
unfoldable pub cut : ℕ → Text → Text
cut n text = if ltb n (length text) then take n text else text

-- `substitute` for a text that is longer than n.
unfoldable pub redact_over : ℕ → Text → Text → Text
redact_over n substitute text = if ltb n (length text) then substitute else text

abbrev redacted : Text
redacted = bytes "{\"redacted\":\"too large\"}"

unfoldable pub audit :
    (username ip action target params : Text) (success : Bool) (result : Text) (now : ℕ)
    → List Audit
    → List Audit
audit username ip action target params success result now rows =
    rows
    ++ record {
      ts = unix now;
      username = username;
      ip = ip;
      action = action;
      target = target;
      parameters = redact_over 4096 redacted params;
      success = success;
      result = cut 4096 result;
    }
      ∷ []

length-cut-le : (n : ℕ) (text : Text) → length (cut n text) ≤ n
unfolding cut
length-cut-le n text = ground (arith, length-take-le n text)

length-redact_over-le :
    (n : ℕ) (substitute text : Text)
    → length substitute ≤ n
    → length (redact_over n substitute text) ≤ n
unfolding redact_over
length-redact_over-le n substitute text h = ground arith

-- Audit adds one row at the end, whose parameters and result have at most 4096 bytes each and
-- whose action is the one that was audited.
pub audit_bounded :
    (username ip action target params : Text) (success : Bool) (result : Text) (now : ℕ)
    (rows : List Audit)
    → (row : Audit) × (audit username ip action target params success result now rows
        ≡ rows ++ row ∷ [])
      × (length row.parameters ≤ 4096)
      × (length row.result ≤ 4096)
      × (row.action ≡ action)
unfolding audit
audit_bounded username ip action target params success result now rows = (
  record {
    ts = unix now;
    username = username;
    ip = ip;
    action = action;
    target = target;
    parameters = redact_over 4096 redacted params;
    success = success;
    result = cut 4096 result;
  },
  refl,
  length-redact_over-le 4096 redacted params (unfold bytes in omega arith),
  length-cut-le 4096 result,
  refl,
)

-- The row that Audit adds names who did what to what.
pub audit_row :
    (username ip action target params : Text) (success : Bool) (result : Text) (now : ℕ)
    (rows : List Audit)
    → (row : Audit) × (audit username ip action target params success result now rows
        ≡ rows ++ row ∷ [])
      × (row.username ≡ username)
      × (row.ip ≡ ip)
      × (row.action ≡ action)
      × (row.target ≡ target)
      × (row.success ≡ success)
unfolding audit
audit_row username ip action target params success result now rows = (
  record {
    ts = unix now;
    username = username;
    ip = ip;
    action = action;
    target = target;
    parameters = redact_over 4096 redacted params;
    success = success;
    result = cut 4096 result;
  },
  refl,
  refl,
  refl,
  refl,
  refl,
  refl,
)
