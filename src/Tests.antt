-- ===== src/Tests.antt =====
-- Concrete runs of the components, on the data of Tests/Data.antt.
pub mod Data
pub mod Store
pub mod Web
pub mod Alerting
pub mod Root
pub mod Collector
pub mod Config
pub mod Packages
pub mod History
pub mod Live
