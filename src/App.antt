-- ===== src/App.antt =====
-- internal/app: the web server. Each handler is a function of the request, the answers of the
-- libraries that it calls, the instants at which it reads the clock, and the database.
pub mod Http
pub mod Config
pub mod Gate
pub mod Login
pub mod Alerts
pub mod Packages
pub mod Settings
pub mod Items
pub mod Targets
pub mod Actions
pub mod Stream
pub mod Collect
