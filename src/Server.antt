-- ===== src/Server.antt =====
-- backend/internal/api/server.go: the routes, the middleware, and the handlers behind them.
pub mod Writer
pub mod Routes
pub mod Services
pub mod Replies
pub mod Handlers
pub mod Middleware
pub mod Walk
pub mod Reading
pub mod Guarded
pub mod Served
pub mod Isolation
pub mod Requests
pub mod Denied
pub mod Finishes
pub mod Answers
