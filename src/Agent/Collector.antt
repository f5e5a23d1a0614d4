-- ===== src/Agent/Collector.antt =====
-- internal/agent/collector.go: the collector of the agent, which reads the state of the host.
pub mod Refresh
pub mod Counters
pub mod Sockets
pub mod Crontab
pub mod Files
