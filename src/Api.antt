-- ===== src/Api.antt =====
-- internal/api: the HTTP API's authentication, its handlers and the resolver behind them.
pub mod Token
pub mod Auth
pub mod Resolver
pub mod Sign
pub mod Handlers
pub mod Tests
