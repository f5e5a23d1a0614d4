-- ===== src/Store.antt =====
-- internal/store: the tables of the database and the operations on them. A statement of SQLite is
-- modelled by what it does to its table.
pub mod Sessions
pub mod Bans
pub mod Audits
pub mod Alerts
pub mod Db
pub mod Retention
pub mod Packages
pub mod Settings
pub mod Flows
pub mod Resources
pub mod Objects
