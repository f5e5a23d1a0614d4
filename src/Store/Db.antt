-- ===== src/Store/Db.antt =====
-- internal/store/store.go: the tables of the database that the web server reads and writes.
use servora.Prelude.{List}
use servora.Store.Sessions.{Sessions}
use servora.Store.Bans.{Bans}
use servora.Store.Audits.{Audit}

pub record Db : Type 0 where
  pub sessions : Sessions
  pub login : Bans
  pub audits : List Audit
