-- ===== src/Proxy.antt =====
-- internal/proxy: the parts of the Secret Service proxy that decide by themselves.
pub mod UnitPath
pub mod Tracker
pub mod Upstream
pub mod Session
pub mod World
pub mod ObjectPath
pub mod Item
pub mod Prompter
pub mod Properties
pub mod Collection
pub mod Service
pub mod Gate
pub mod Gated
pub mod Denied
pub mod Tests
