-- ===== src/Handle.antt =====
-- The handlers of epoll+tpool/server/handle.c.
pub mod Common
pub mod Account
pub mod Show
pub mod Send
pub mod Offline
pub mod Friends
pub mod Change
pub mod Groups
