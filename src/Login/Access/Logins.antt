-- ===== src/Login/Access/Logins.antt =====
-- UserLogin and SendLoginReply keep what a player can have got.
use os_irose_new.Common.{
  ℕ, suc, ◌+◌, ◌%◌, ◌^◌, ◌≤◌, ◌≡◌, refl, sym, subst, ◌∙◌, List, [], ◌∷◌, ◌==◌, if◌then◌else◌, arith,
}
use os_irose_new.Messages.Lobby.{SrvLoginReply, add_server}
use os_irose_new.Messages.Account.{CliLoginReq}
use os_irose_new.Escape.{escape_data}
use os_irose_new.Login.Isc.{LoginIsc, char_type}
use os_irose_new.Login.Database.{Account, Database, Sql, hash_text}
use os_irose_new.Login.Client.{
  State, default, logged_in, transfering, Sent, login_reply, LoginClient, Env, add_servers,
  send_login_reply, rights_of, login_known, login_unknown, login_rows, user_login,
}
use os_irose_new.Login.Access.{is_ok, is_selection, is_channels, IsIn, IsPlayer, count-snoc}

add_servers-result :
    (list : List LoginIsc) (r : SrvLoginReply) → (add_servers list r).result ≡ r.result
unfolding add_servers add_server
add_servers-result [] r = refl
add_servers-result (s ∷ list) r =
    add_servers-result list (
      if s.type_ == char_type
      then add_server s.server_name ((s.id + 1) % 2 ^ 32) s.test_server r
      else r)
    ∙ ground arith

-- A login reply in the state before the login.
send_login_reply-IsPlayer :
    (env : Env) (result rights userid session_id : ℕ) (username name : List ℕ) (sent : List Sent)
    → IsIn default rights sent
    → (result ≡ 0 → 1 ≤ rights)
    → IsPlayer (
        send_login_reply env result (record {
          access_rights = rights;
          username = username;
          login_state = default;
          userid = userid;
          session_id = session_id;
          name = name;
          sent = sent;
        }))
unfolding send_login_reply
send_login_reply-IsPlayer env result rights userid session_id username name sent v h =
    let packet : SrvLoginReply = record { result = result; right = 0; type_ = 0; servers = [] } in
    let listed = add_servers env.isc_list (record packet { right = rights }) in
    ground (
      arith,
      v,
      h,
      add_servers-result env.isc_list (record packet { right = rights }),
      count-snoc is_ok sent (login_reply packet),
      count-snoc is_selection sent (login_reply packet),
      count-snoc is_channels sent (login_reply packet),
      count-snoc is_ok sent (login_reply listed),
      count-snoc is_selection sent (login_reply listed),
    )

reply-IsPlayer :
    (env : Env) (result : ℕ) (c : LoginClient)
    → c.login_state ≡ default
    → IsIn default c.access_rights c.sent
    → (result ≡ 0 → 1 ≤ c.access_rights)
    → IsPlayer (send_login_reply env result c)
reply-IsPlayer env result c d v h =
    subst (λ (st : State). IsPlayer (send_login_reply env result (record c { login_state = st })))
      (sym d)
      (send_login_reply-IsPlayer env result c.access_rights c.userid c.session_id c.username c.name
        c.sent v h)

-- A reply that does not let the player in.
refused-IsPlayer :
    (env : Env) (result : ℕ) (c : LoginClient)
    → c.login_state ≡ default
    → IsIn default c.access_rights c.sent
    → IsPlayer (send_login_reply env (suc result) c)
refused-IsPlayer env result c d v =
    reply-IsPlayer env (suc result) c d v (λ e. absurd (omega arith))

module _ (sql : Sql) (env : Env) where
  login_known-IsPlayer :
      (c : LoginClient) (db : Database) (row : Account)
      → c.login_state ≡ default
      → IsIn default c.access_rights c.sent
      → IsPlayer (login_known sql env c db row).1
  unfolding login_known
  login_known-IsPlayer c db row d v =
      let seen = record c { access_rights = rights_of row.access c.access_rights } in
      let accepted = record seen { userid = row.id; session_id = env.now % 2 ^ 32 } in
      ground (
        arith,
        refused-IsPlayer env 0 c d v,
        refused-IsPlayer env 6 seen d v,
        refused-IsPlayer env 0 accepted d v,
        reply-IsPlayer env 0 (record accepted { name = c.username }) d v,
        refused-IsPlayer env 3 seen d v,
      )

  login_rows-IsPlayer :
      (c : LoginClient) (password : List ℕ) (db : Database) (rows : List Account)
      → c.login_state ≡ default
      → IsIn default c.access_rights c.sent
      → IsPlayer (login_rows sql env c password db rows).1
  unfolding login_rows login_unknown
  login_rows-IsPlayer c password db [] d v = ground (
    arith,
    refused-IsPlayer env 0 c d v,
    refused-IsPlayer env 1 c d v,
    refused-IsPlayer env 2 c d v,
  )
  login_rows-IsPlayer c password db (row ∷ rows) d v = login_known-IsPlayer c db row d v

  pub user_login-in :
      (p : CliLoginReq) (c : LoginClient) (db : Database) (st : State)
      → IsPlayer (record c { login_state = st })
      → IsPlayer (user_login sql env p (record c { login_state = st }) db).1
  unfolding user_login
  user_login-in p c db default v =
      let named : LoginClient = record c {
        username = escape_data p.username;
        login_state = default;
      } in
      let password = escape_data p.password in
      ground (
        arith,
        refused-IsPlayer env 0 (record c { login_state = default }) refl v,
        refused-IsPlayer env 0 named refl v,
        login_rows-IsPlayer named password db
            (sql.account_rows named.username (hash_text password) db.accounts) refl v,
      )
  user_login-in p c db logged_in v = v
  user_login-in p c db transfering v = v
