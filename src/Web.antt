-- ===== src/Web.antt =====
-- web.c: the handlers of the web thread, one for each request kind, and its loop.
pub mod Confirm
pub mod Login
pub mod Net
pub mod Users
pub mod Info
pub mod SystemInfo
pub mod Logs
pub mod Dispatch
