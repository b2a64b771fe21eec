-- ===== src/Login/Client.antt =====
-- CLoginClient (src/login/src/cloginclient.cpp): a player who logs in and selects a server. `none` is an exception
-- that nothing catches.
use os_irose_new.Common.{
  ℕ, ◌+◌, ◌-◌, ◌%◌, ◌^◌, Bool, true, false, not, ◌&&◌, List, [], ◌∷◌, ◌++◌, Option, none, some,
  ◌==◌, ltb, if◌then◌else◌,
}
use os_irose_new.Messages.Account.{CliLoginReq, CliChannelListReq, CliSrvSelectReq}
use os_irose_new.Messages.Replies.{SrvScreenShotTimeReply}
use os_irose_new.Messages.Reply.{
  Reply, srv_accept_reply, srv_screen_shot_time_reply, srv_srv_select_reply,
}
use os_irose_new.Messages.Lobby.{SrvLoginReply, add_server, SrvChannelListReply, add_channel}
use os_irose_new.Messages.Request.{
  Request, cli_login_req, cli_channel_list_req, cli_srv_select_req, cli_alive, cli_accept_req,
  cli_screen_shot_time_req,
}
use os_irose_new.Socket.SendQueue.{is_empty}
use os_irose_new.Escape.{escape_data}
use os_irose_new.Login.Isc.{Channel, LoginIsc, char_type}
use os_irose_new.Login.Database.{
  Account, Session, Database, Sql, select, update, hash_text, has_id, of_user, of_session,
  logged_in_row, logged_out_row,
}

pub data State : Type 0 where
  default logged_in transfering : State

pub data Sent : Type 0 where
  login_reply : SrvLoginReply → Sent
  channel_list_reply : SrvChannelListReply → Sent
  reply : Reply → Sent

-- `sent` is what has been given to send.
pub record LoginClient : Type 0 where
  pub access_rights : ℕ
  pub username : List ℕ
  pub login_state : State
  pub userid : ℕ
  pub session_id : ℕ
  pub name : List ℕ
  pub sent : List Sent

-- What a handler finds around it: the time, the connected servers, the player's address, createAccountOnFail, what a
-- default SrvScreenShotTimeReply holds, and which of its statements the database fails.
pub record Env : Type 0 where
  pub now : ℕ
  pub isc_list : List LoginIsc
  pub address : List ℕ
  pub create_account_on_fail : Bool
  pub unset : SrvScreenShotTimeReply
  pub fails_account : Bool
  pub fails_session : Bool
  pub fails_login : Bool
  pub fails_username : Bool
  pub fails_create : Bool
  pub fails_insert : Bool

unfoldable pub new_client : LoginClient
new_client = record {
  access_rights = 0;
  username = [];
  login_state = default;
  userid = 0;
  session_id = 0;
  name = [];
  sent = [];
}

abbrev pub send : Sent → LoginClient → LoginClient
send packet c = record c { sent = c.sent ++ packet ∷ [] }

unfoldable pub add_servers : List LoginIsc → SrvLoginReply → SrvLoginReply
add_servers [] packet = packet
add_servers (s ∷ list) packet = add_servers list (
    if s.type_ == char_type
    then add_server s.server_name ((s.id + 1) % 2 ^ 32) s.test_server packet
    else packet)

unfoldable pub send_login_reply : Env → ℕ → LoginClient → LoginClient
send_login_reply env result c =
    let packet : SrvLoginReply = record { result = result; right = 0; type_ = 0; servers = [] } in
    let listed = add_servers env.isc_list (record packet { right = c.access_rights }) in
    if result == 0
    then send (login_reply listed) (record c { login_state = logged_in })
    else send (login_reply packet) c

-- Whether one of the servers is a char server.
unfoldable pub has_char : List LoginIsc → Bool
has_char [] = false
has_char (s ∷ list) = let rest = has_char list in if s.type_ == char_type then true else rest

-- access_rights_ after a row, whose access may be null.
unfoldable pub rights_of : Option ℕ → ℕ → ℕ
rights_of none held = held
rights_of (some access) held = access % 2 ^ 16

module _ (sql : Sql) (env : Env) where
  -- The user name and the password belong to `row`.
  unfoldable pub login_known : LoginClient → Database → Account → Bool × LoginClient × Database
  login_known c db row =
      let seen = record c { access_rights = rights_of row.access c.access_rights } in
      let accepted = record seen { userid = row.id; session_id = env.now % 2 ^ 32 } in
      let free = not row.online && is_empty (select (of_user row.id) db.sessions) in
      let set = update (has_id row.id) (logged_in_row env.address env.now) db.accounts in
      if env.fails_session
      then (true, send_login_reply env 1 c, db)
      else (if ltb seen.access_rights 1
          then (false, send_login_reply env 7 seen, db)
          else (if free
              then (if env.fails_login then (true, send_login_reply env 1 accepted, db) else (
                true,
                send_login_reply env 0 (record accepted { name = c.username }),
                record db { accounts = set },
              ))
              else (true, send_login_reply env 4 seen, db)))

  unfoldable pub login_unknown : LoginClient → List ℕ → Database → Bool × LoginClient × Database
  login_unknown c password db =
      let created =
        if env.create_account_on_fail then sql.create_account c.username password db else db in
      if env.fails_username
      then (true, send_login_reply env 1 c, db)
      else (if is_empty (select (λ (a : Account). sql.same a.username c.username) db.accounts)
          then (if env.create_account_on_fail && env.fails_create
              then (true, send_login_reply env 1 c, db)
              else (true, send_login_reply env 2 c, created))
          else (true, send_login_reply env 3 c, db))

  -- What is done with the rows of the first select.
  unfoldable pub login_rows :
      LoginClient → List ℕ → Database → List Account → Bool × LoginClient × Database
  login_rows c password db [] = login_unknown c password db
  login_rows c password db (row ∷ rows) = login_known c db row

  unfoldable pub user_login : CliLoginReq → LoginClient → Database → Bool × LoginClient × Database
  user_login p c db =
      let named = record c { username = escape_data p.username } in
      let password = escape_data p.password in
      let rows = sql.account_rows named.username (hash_text password) db.accounts in
      elim (c.login_state) [
        | default ↦
            if has_char env.isc_list
            then (if env.fails_account
                then (true, send_login_reply env 1 named, db)
                else login_rows named password db rows)
            else (true, send_login_reply env 1 c, db)
        | logged_in ↦ (true, c, db)
        | transfering ↦ (true, c, db)
      ]

  unfoldable pub on_disconnected : LoginClient → Database → Database
  on_disconnected c db =
      if is_empty (select (of_session c.session_id) db.sessions)
      then record db { accounts = update (has_id c.userid) logged_out_row db.accounts }
      else db

  unfoldable pub add_channels : List Channel → SrvChannelListReply → SrvChannelListReply
  add_channels [] packet = packet
  add_channels (info ∷ channels) packet =
      add_channels channels (add_channel info.channel_name ((info.channel_id + 1) % 256) 0 packet)

  unfoldable pub add_channels_of : ℕ → List LoginIsc → SrvChannelListReply → SrvChannelListReply
  add_channels_of server_id [] packet = packet
  add_channels_of server_id (s ∷ list) packet = add_channels_of server_id list (
      if (s.type_ == char_type) && (s.id == server_id)
      then add_channels s.channel_list packet
      else packet)

  unfoldable pub channel_list : CliChannelListReq → LoginClient → LoginClient
  channel_list p c =
      let server_id = (p.server_id + (2 ^ 32 - 1)) % 2 ^ 32 in
      let empty : SrvChannelListReply = record { id = (server_id + 1) % 2 ^ 32; channels = [] } in
      elim (c.login_state) [
        | logged_in ↦ send (channel_list_reply (add_channels_of server_id env.isc_list empty)) c
        | default ↦ c
        | transfering ↦ c
      ]

  -- The insertion into sessions, whose primary key is the id.
  unfoldable pub insert_session : Session → Database → Option Database
  insert_session s db =
      if env.fails_insert
      then none
      else (if is_empty (select (of_session s.id) db.sessions)
          then some (record db { sessions = db.sessions ++ s ∷ [] })
          else none)

  -- The answer to the selection of `s`, once the session is inserted.
  unfoldable pub selected :
      LoginIsc → LoginClient → Option Database → Option (Bool × LoginClient × Database)
  selected s c none = none
  selected s c (some db) = some (
    true,
    send
        (reply (
          srv_srv_select_reply (record {
            result = 0;
            session_id = c.session_id;
            crypt_val = 0;
            ip = s.address;
            port = s.port;
          })))
        c,
    db,
  )

  -- The loop over the servers, which ends at the first that is selected.
  unfoldable pub select_in :
      ℕ → ℕ → List LoginIsc → LoginClient → Database → Option (Bool × LoginClient × Database)
  select_in server_id channel_id [] c db = some (true, c, db)
  select_in server_id channel_id (s ∷ list) c db =
      let later = select_in server_id channel_id list c db in
      let session : Session = record {
        id = c.session_id;
        userid = c.userid;
        channelid = channel_id;
        time = env.now;
      } in
      if (s.type_ == char_type) && (s.id == server_id)
      then selected s c (insert_session session db)
      else later

  unfoldable pub server_select :
      CliSrvSelectReq → LoginClient → Database → Option (Bool × LoginClient × Database)
  server_select p c db =
      let server_id = (p.server_id + (2 ^ 32 - 1)) % 2 ^ 32 in
      let channel_id = (p.channel_id + 255) % 256 in
      elim (c.login_state) [
        | logged_in ↦
            select_in server_id channel_id env.isc_list (record c { login_state = transfering }) db
        | default ↦ some (true, c, db)
        | transfering ↦ some (true, c, db)
      ]

  -- HandlePacket of CRoseSocket, for what CLoginClient leaves to it.
  unfoldable pub handle_default : Request → LoginClient → Bool × LoginClient
  handle_default cli_alive c = (true, c)
  handle_default cli_accept_req c = (
    true,
    send (reply (srv_accept_reply (record { result = 2; rand_value = env.now % 2 ^ 32 }))) c,
  )
  handle_default (cli_screen_shot_time_req p) c =
      (true, send (reply (srv_screen_shot_time_reply env.unset)) c)
  handle_default _ c = (false, c)

  unfoldable pub handle_packet :
      Request → LoginClient → Database → Option (Bool × LoginClient × Database)
  handle_packet (cli_channel_list_req p) c db = some (true, channel_list p c, db)
  handle_packet (cli_srv_select_req p) c db = server_select p c db
  handle_packet (cli_login_req p) c db = some (user_login p c db)
  handle_packet p c db = let r = handle_default p c in some (r.0, r.1, db)
