-- ===== src/App/Settings/Guarded.antt =====
-- Which requests may delete history.
use servora.Prelude.{
  ==_iff, Option, Text, ap, arith, bytes, inl, inr, none, refl, some, true, ◌≡◌, ◌≢◌, ◌⊎◌, text_eq,
}
use servora.Store.Sessions.{Session}
use servora.Store.Resources.{Loads}
use servora.App.Http.{
  Method, get, head, post, put_method, connect, options, trace, unknown, patch, delete, Request,
  Net,
}
use servora.App.Settings.{
  Patch, Answers, SettingsDb, show_storage, by_method, confirmed, clear_network, network_settings,
  reset_agent_network_accounting,
}

module _ (l : Loads) (net : Net) (a : Answers) (session : Session) (r : Request) where
  -- The flows, the resources and the audit log are the same.
  abbrev Keeps : (db db' : SettingsDb l) → Type 0
  Keeps db db' =
      (db'.flows ≡ db.flows) × (db'.history.rows ≡ db.history.rows) × (db'.audits ≡ db.audits)

  -- The request lacks the phrase, or the agent does not answer.
  abbrev IsRefused : Option Text → Type 0
  IsRefused confirm = (confirm ≢ some (bytes "DELETE NETWORK HISTORY")) ⊎ (a.agent_status ≡ none)

  confirmed-eq :
      (phrase : Text) (confirm : Option Text)
      → confirmed l net a phrase confirm ≡ true
      → confirm ≡ some phrase
  unfolding confirmed
  confirmed-eq phrase none h = ground arith
  confirmed-eq phrase (some text) h = ground (arith, ==_iff text phrase)

  clear_network-refused :
      (confirm : Option Text) (db : SettingsDb l)
      → IsRefused confirm
      → (clear_network l net a session r confirm db).0 ≡ db
  unfolding clear_network reset_agent_network_accounting
  clear_network-refused confirm db (inl other) =
      ground (arith, other, confirmed-eq (bytes "DELETE NETWORK HISTORY") confirm)
  clear_network-refused confirm db (inr silent) = rw silent (ground arith)

  by_method-Keeps :
      (m : Method) (input : Option Patch) (confirm : Option Text) (db : SettingsDb l)
      → m ≢ patch
      → IsRefused confirm
      → Keeps db (by_method l net a m session r input confirm db).0
  unfolding by_method show_storage
  by_method-Keeps get input confirm db other refused = (refl, refl, refl)
  by_method-Keeps patch input confirm db other refused = absurd (other refl)
  by_method-Keeps delete input confirm db other refused =
      let unchanged = clear_network-refused confirm db refused in
      (
        ap (λ d. d.flows) unchanged,
        ap (λ d. d.history.rows) unchanged,
        ap (λ d. d.audits) unchanged,
      )
  by_method-Keeps head input confirm db other refused = (refl, refl, refl)
  by_method-Keeps post input confirm db other refused = (refl, refl, refl)
  by_method-Keeps put_method input confirm db other refused = (refl, refl, refl)
  by_method-Keeps connect input confirm db other refused = (refl, refl, refl)
  by_method-Keeps options input confirm db other refused = (refl, refl, refl)
  by_method-Keeps trace input confirm db other refused = (refl, refl, refl)
  by_method-Keeps (unknown m) input confirm db other refused = (refl, refl, refl)

  -- A request that is no PATCH, and that lacks the confirmation phrase or finds no agent to reset its
  -- counters, leaves the flows, the resources and the audit log as they are, whatever else works.
  pub network_settings-Keeps :
      (input : Option Patch) (confirm : Option Text) (db : SettingsDb l)
      → r.method ≢ patch
      → IsRefused confirm
      → Keeps db (network_settings l net a session r input confirm db).0
  unfolding network_settings
  network_settings-Keeps input confirm db = by_method-Keeps r.method input confirm db
