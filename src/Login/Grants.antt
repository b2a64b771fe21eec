-- ===== src/Login/Grants.antt =====
-- Who is let in by UserLogin, and who is not.
use os_irose_new.Common.{
  ℕ, ◌%◌, ◌^◌, ◌≤◌, ◌≡◌, refl, true, false, List, [], ◌∷◌, Option, none, some, arith,
}
use os_irose_new.Messages.Account.{CliLoginReq}
use os_irose_new.Socket.SendQueue.{is_empty}
use os_irose_new.Escape.{escape_data}
use os_irose_new.Login.Database.{
  Account, Session, Database, Sql, select, update, hash_text, has_id, of_user, of_session,
  logged_in_row,
}
use os_irose_new.Login.Client.{
  default, login_reply, LoginClient, Env, new_client, send_login_reply, has_char, rights_of,
  login_known, login_rows, user_login, on_disconnected,
}

-- The right that a login leaves: that of the account, in 16 bits, or the one that the player held if it is null.
pub data IsRight : Option ℕ → ℕ → ℕ → Type 0 where
  held : (right : ℕ) → IsRight none right right
  given : (access right : ℕ) → IsRight (some access) right (access % 2 ^ 16)

module _ (sql : Sql) (env : Env) where
  -- `row` may log in, and what the login leaves of a player who held a right.
  pub record IsGranted (row : Account) (right : ℕ) (db : Database) (c : LoginClient)
      (db' : Database) : Type 0 where
    pub offline : row.online ≡ false
    pub free : select (of_user row.id) db.sessions ≡ []
    pub its_right : IsRight row.access right c.access_rights
    pub allowed : 1 ≤ c.access_rights
    pub user : c.userid ≡ row.id
    pub session : c.session_id ≡ env.now % 2 ^ 32
    pub marked : db' ≡ record db {
      accounts = update (has_id row.id) (logged_in_row env.address env.now) db.accounts;
    }

  -- A player who disconnects while a session has the player's session id, be it of another user who logged in within
  -- the same second, stays online in the database: the next login, with a user name and a password for which the
  -- database finds an account with a right of 1 or more, is refused, and changes nothing there.
  pub on_disconnected-locked_out :
      (p : CliLoginReq) (c : LoginClient) (db : Database) (other : Session) (others : List Session)
      (row : Account) (rest : List Account)
      → select (of_session c.session_id) db.sessions ≡ other ∷ others
      → sql.account_rows (escape_data p.username) (hash_text (escape_data p.password)) db.accounts
        ≡ row ∷ rest
      → row.online ≡ true
      → 1 ≤ rights_of row.access 0
      → has_char env.isc_list ≡ true
      → env.fails_account ≡ false
      → env.fails_session ≡ false
      → let db' = on_disconnected sql env c db in
        let r = user_login sql env p new_client db' in
        (r.1.login_state ≡ default)
        × (r.1.sent ≡ login_reply (record { result = 4; right = 0; type_ = 0; servers = [] }) ∷ [])
        × (r.2 ≡ db)
  unfolding on_disconnected user_login login_rows login_known send_login_reply new_client is_empty
  on_disconnected-locked_out p c db other others row rest s a o h chars yes1 yes2 =
      let stays : on_disconnected sql env c db ≡ db = rw s refl in
      rw stays (rw chars (rw yes1 (rw a (ground (arith, o, h, yes2)))))
