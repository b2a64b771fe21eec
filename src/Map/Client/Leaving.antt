-- ===== src/Map/Client/Leaving.antt =====
-- What a player who joins the map server and leaves it again leaves in the table of accounts.
use os_irose_new.Common.{
  ℕ, ◌≡◌, ◌≢◌, refl, ap, ◌∙◌, false, List, [], ◌∷◌, Option, none, some, ◌==◌, arith,
}
use os_irose_new.Messages.Account.{CliJoinServerReq}
use os_irose_new.Escape.{escape_data}
use os_irose_new.Login.Database.{select, update}
use os_irose_new.Map.Client.{
  Account, Session, Sql, State, default, logged_in, switching, EntitySystem, MapClient, World, Env,
  on_disconnected, join_entity, join_of, join_rows, join_server_reply,
}

-- Setting the rows of one id leaves those of another.
select-update :
    (mine other : ℕ) (accounts : List Account)
    → mine ≢ other
    → select
        (λ (a : Account). a.id == mine)
        (update
          (λ (a : Account). a.id == other)
          (λ (a : Account). record a { online = false })
          accounts)
      ≡ select (λ (a : Account). a.id == mine) accounts
unfolding select update
select-update mine other [] n = refl
select-update mine other (a ∷ accounts) n = ground (arith, n, select-update mine other accounts n)

module _ {W E : Type 0} (system : EntitySystem W E) (sql : Sql) (env : Env) where
  join_entity-accounts :
      (row : Session) (o : Option E) (c : MapClient E) (w : World W)
      → (join_entity system sql env row o c w).1.accounts ≡ w.accounts
  unfolding join_entity
  join_entity-accounts row none c w = refl
  join_entity-accounts row (some e) c w = ground arith

  join_rows-accounts :
      (id : ℕ) (rows : List (Session × Account)) (c : MapClient E) (w : World W)
      → (join_rows system sql env id rows c w).1.accounts ≡ w.accounts
  unfolding join_rows
  join_rows-accounts id [] c w = refl
  join_rows-accounts id ((row, account) ∷ rows) c w = join_entity-accounts row _ _ _

  join_server_reply_in :
      (st : State) (p : CliJoinServerReq) (c : MapClient E) (w : World W)
      → (join_server_reply system sql env p (record c { login_state = st }) w).1.accounts
        ≡ w.accounts
  unfolding join_server_reply
  join_server_reply_in default p c w =
      let joined =
        join_rows-accounts p.session_id
          (join_of system sql env p.session_id (escape_data p.password) w.sessions w.accounts)
          (record c { login_state = default }) w in
      ground (arith, joined)
  join_server_reply_in logged_in p c w = refl
  join_server_reply_in switching p c w = refl

  on_disconnected_in :
      (st : State) (c : MapClient E) (w : World W) (mine : ℕ)
      → mine ≢ c.id
      → select
          (λ (a : Account). a.id == mine)
          (on_disconnected system sql env (record c { login_state = st }) w).1.accounts
        ≡ select (λ (a : Account). a.id == mine) w.accounts
  unfolding on_disconnected
  on_disconnected_in default c w mine n = refl
  on_disconnected_in logged_in c w mine n = select-update mine c.id w.accounts n
  on_disconnected_in switching c w mine n = refl

  -- A player who joins and then disconnects leaves the row of an account as it was, online if it was online, unless
  -- the account's id happens to be the number of the player's socket.
  pub on_disconnected-stays_online :
      (p : CliJoinServerReq) (c : MapClient E) (w : World W) (mine : ℕ)
      → let r = join_server_reply system sql env p c w in
        mine ≢ r.0.id
        → select (λ (a : Account). a.id == mine) (on_disconnected system sql env r.0 r.1).1.accounts
          ≡ select (λ (a : Account). a.id == mine) w.accounts
  on_disconnected-stays_online p c w mine n =
      let r = join_server_reply system sql env p c w in
      on_disconnected_in r.0.login_state r.0 r.1 mine n
      ∙ ap (select (λ (a : Account). a.id == mine)) (join_server_reply_in c.login_state p c w)
