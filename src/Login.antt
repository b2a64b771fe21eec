-- ===== src/Login.antt =====
-- The login server (src/login/src): CLoginISC, which the char and map servers register with, the account database
-- as far as it is read and written, and CLoginClient, the state machine of a player who logs in.
pub mod Isc
pub mod Database
pub mod Client
pub mod Access
pub mod Grants
