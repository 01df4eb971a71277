-- ===== src/Server.antt =====
-- internal/server/server.go: the handlers.
pub mod Bodies
pub mod Response
pub mod Swipe
pub mod Paging
pub mod Payload
pub mod Chat
pub mod Auth
pub mod Profiles
pub mod Blocks
pub mod Photos
pub mod Browsing
pub mod Talks
pub mod Socket
pub mod Google
pub mod Cors
