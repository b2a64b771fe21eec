-- ===== src/Char.antt =====
-- The char server (src/char/src): the tables it reads and writes, and CCharClient, the state machine of a player
-- who chooses a character.
pub mod Tables
pub mod Client
pub mod Select
pub mod Choice
