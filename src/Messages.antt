-- ===== src/Messages.antt =====
-- The packet classes of rosecommon.
pub mod Entities
pub mod Fields
pub mod Account
pub mod Char
pub mod World
pub mod Social
pub mod Isc
pub mod Request
pub mod Replies
pub mod Talk
pub mod Reply
pub mod Lobby
pub mod CharacterList
