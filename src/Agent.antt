-- ===== src/Agent.antt =====
-- internal/agent: the privileged agent, which answers the web server over a Unix socket.
pub mod Auth
pub mod Actions
pub mod Packages
pub mod Collector
