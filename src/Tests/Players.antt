-- ===== src/Tests/Players.antt =====
-- The results about the texts and the logins of players, each applied at a concrete input.
use os_irose_new.Common.{
  ℕ, ◌≡◌, refl, arith, Bool, true, false, ◌&&◌, List, [], ◌∷◌, ◌++◌, some, none, ◌==◌,
}
use os_irose_new.Messages.Account.{CliLoginReq}
use os_irose_new.Messages.Request.{cli_login_req}
use os_irose_new.Messages.Lobby.{add_server}
use os_irose_new.Socket.SendQueue.{is_empty}
use os_irose_new.Escape.{escape_data, replace_all, quote, backslash}
use os_irose_new.Common.{take, drop, length, ◌-◌}
use os_irose_new.Escape.Quoted.{literal, stays, IsQuoted, escape_data-IsQuoted, escape_data-escapes}
use os_irose_new.Login.Isc.{LoginIsc}
use os_irose_new.Login.Database.{
  Account, Session, Database, Sql, select, update, hash_text, logged_in_row,
}
use os_irose_new.Login.Client.{
  default, logged_in, transfering, login_reply, LoginClient, Env, new_client, add_servers,
  send_login_reply, has_char, rights_of, login_known, login_rows, user_login, on_disconnected,
  handle_packet,
}
use os_irose_new.Messages.Char.{CliSelectCharReq}
use os_irose_new.Messages.Reply.{srv_switch_server}
use os_irose_new.Messages.CharacterList.{empty_list}
use os_irose_new.Char.Tables.{Character, CharDb, Procedures}
use os_irose_new.Char.Client
use os_irose_new.Char.Client.{
  CharClient, Server, reply, character_list_reply, ids_of, add_items, add_characters,
  send_char_list_reply,
}
use os_irose_new.Char.Select.{send_char_select_reply}
use os_irose_new.Char.Choice.{send_char_select_reply-listed, send_char_select_reply-overrun}
use os_irose_new.Login.Access.{IsPlayer}
use os_irose_new.Login.Access.Runs.{connected, handled, Reaches-IsPlayer}
use os_irose_new.Login.Grants.{on_disconnected-locked_out}

-- x' OR 1;
abbrev attack : List ℕ
attack = 120 ∷ 39 ∷ 32 ∷ 79 ∷ 82 ∷ 32 ∷ 49 ∷ 59 ∷ []

escape_data-IsQuoted_example : IsQuoted (escape_data attack)
escape_data-IsQuoted_example = escape_data-IsQuoted attack (ground arith)

escape_data-escapes_example :
    stays false (escape_data (120 ∷ backslash ∷ quote ∷ 79 ∷ 82 ∷ [])) ≡ false
escape_data-escapes_example = escape_data-escapes (120 ∷ []) (79 ∷ 82 ∷ []) (ground arith)

abbrev same_text : List ℕ → List ℕ → Bool
same_text [] [] = true
same_text (c ∷ s) (d ∷ t) = (c == d) && same_text s t
same_text [] (d ∷ t) = false
same_text (c ∷ s) [] = false

-- The text of a query's password: what stands between SHA2(CONCAT(' and ', salt), 256).
abbrev between : List ℕ → List ℕ
between text = take (length (drop 13 text) - 14) (drop 13 text)

abbrev is_account : List ℕ → List ℕ → Account → Bool
is_account username password a =
    same_text a.username username && same_text a.password (password ++ a.salt)

abbrev sql : Sql
sql = record {
  sha2 = λ password salt. password ++ salt;
  same = same_text;
  account_rows = λ username text accounts.
      select (is_account username (literal false (between text))) accounts;
  create_account = λ username password db. db;
}

abbrev char_server : LoginIsc
char_server = record {
  id = 3;
  type_ = 1;
  address = 49 ∷ [];
  port = 29100;
  name = 65 ∷ [];
  server_name = 65 ∷ [];
  channel_count = 0;
  min_right = 0;
  test_server = false;
  channel_list = [];
}

abbrev env : Env
env = record {
  now = 1500000000;
  isc_list = char_server ∷ [];
  address = 50 ∷ [];
  create_account_on_fail = false;
  unset = record { year = 0; month = 0; day = 0; hour = 0; min = 0 };
  fails_account = false;
  fails_session = false;
  fails_login = false;
  fails_username = false;
  fails_create = false;
  fails_insert = false;
}

-- The user "ab" with the password "pp", and what a login makes of the row.
abbrev row : Account
row = record {
  id = 7;
  username = 97 ∷ 98 ∷ [];
  password = 112 ∷ 112 ∷ 33 ∷ [];
  salt = 33 ∷ [];
  access = some 100;
  online = false;
  login_count = 0;
  lastip = [];
  lasttime = 0;
}

abbrev online_row : Account
online_row = logged_in_row (50 ∷ []) 1500000000 row

abbrev offline_db : Database
offline_db = record { accounts = row ∷ []; sessions = [] }

abbrev request : CliLoginReq
request = record { password = 112 ∷ 112 ∷ []; username = 97 ∷ 98 ∷ [] }

abbrev login_db : Bool × LoginClient × Database
login_db = user_login sql env request new_client offline_db

-- Another user's session has the same id.
abbrev other : Session
other = record { id = 1500000000; userid = 8; channelid = 0; time = 1500000000 }

abbrev online_db : Database
online_db = record { accounts = online_row ∷ []; sessions = other ∷ [] }

abbrev player : LoginClient
player = record {
  access_rights = 100;
  username = 97 ∷ 98 ∷ [];
  login_state = logged_in;
  userid = 7;
  session_id = 1500000000;
  name = 97 ∷ 98 ∷ [];
  sent = [];
}

on_disconnected-locked_out_example :
    let r = user_login sql env request new_client (on_disconnected sql env player online_db) in
    (r.1.login_state ≡ default)
    × (r.1.sent ≡ login_reply (record { result = 4; right = 0; type_ = 0; servers = [] }) ∷ [])
    × (r.2 ≡ online_db)
unfolding has_char select escape_data replace_all rights_of hash_text
on_disconnected-locked_out_example =
    on_disconnected-locked_out sql env request player online_db other [] online_row [] refl refl
      refl (omega arith) refl refl refl

-- The player logs in and selects the server.
abbrev after_login : LoginClient
after_login = record {
  access_rights = 100;
  username = 97 ∷ 98 ∷ [];
  login_state = logged_in;
  userid = 7;
  session_id = 1500000000;
  name = 97 ∷ 98 ∷ [];
  sent =
      login_reply (record {
        result = 0;
        right = 100;
        type_ = 0;
        servers = record { name = 65 ∷ []; id = 4; test = false } ∷ [];
      })
      ∷ [];
}

login_handled :
    handle_packet sql env (cli_login_req request) new_client offline_db
    ≡ some (true, after_login, record { accounts = online_row ∷ []; sessions = [] })
unfolding handle_packet user_login login_rows login_known send_login_reply new_client is_empty
    has_char select update escape_data replace_all rights_of add_servers add_server hash_text
login_handled = refl

Reaches-IsPlayer_example : IsPlayer after_login
Reaches-IsPlayer_example = Reaches-IsPlayer sql after_login (
    handled env (cli_login_req request) offline_db
      (true, after_login, record { accounts = online_row ∷ []; sessions = [] }) login_handled
      connected)

-- The user 7 has the character 31, and another user has 30.
abbrev hero : Character
hero = record {
  id = 31;
  userid = 7;
  name = 72 ∷ [];
  race = 0;
  level = 1;
  job = 0;
  face = 1;
  hair = 0;
  delete_date = 0;
  map_id = 20;
}

abbrev char_db : CharDb
char_db = record {
  accounts = [];
  sessions = [];
  characters = record hero { id = 30; userid = 8 } ∷ hero ∷ [];
  inventory = [];
}

abbrev procedures : Procedures
procedures = record {
  sha2 = λ password salt. password ++ salt;
  same = same_text;
  create_char = λ name userid race face hair stone db. none;
}

abbrev char_env : Client.Env
char_env = record {
  now = 1500000000;
  tick = 0;
  isc_list = [];
  unset = record { year = 0; month = 0; day = 0; hour = 0; min = 0 };
  rest = 0;
  fails_join = false;
  fails_other = false;
}

abbrev chooser : CharClient
chooser = record {
  login_state = logged_in;
  session_id = 1500000000;
  user_id = 7;
  channel_id = 0;
  character_real_id = [];
  sent = [];
}

abbrev after_list : CharClient
after_list = record chooser {
  character_real_id = 31 ∷ [];
  sent =
      character_list_reply (add_characters procedures char_env 0 char_db (hero ∷ []) empty_list)
      ∷ [];
}

list_sent : send_char_list_reply procedures char_env chooser char_db ≡ some after_list
unfolding send_char_list_reply ids_of select
list_sent = refl

abbrev choose : ℕ → CliSelectCharReq
choose n = record { char_id = n; run_mode = 0; ride_mode = 0; name = 72 ∷ [] }

-- A map server of the player's channel, one of another channel, and a char server.
abbrev servers : List Server
servers =
    record { type_ = 3; id = 5; port = 29200; address = 49 ∷ [] }
    ∷ record { type_ = 3; id = 0; port = 29300; address = 50 ∷ [] }
    ∷ record { type_ = 1; id = 0; port = 29100; address = 51 ∷ [] }
    ∷ []

abbrev map_env : Client.Env
map_env = record char_env { isc_list = servers }

send_char_select_reply-listed_example :
    send_char_select_reply procedures map_env (choose 0) after_list char_db
    ≡ some (
      true,
      record after_list {
        login_state = transfering;
        sent =
            after_list.sent
            ++ reply (
                srv_switch_server (record {
                  port = 29320;
                  session_id = 1500000000;
                  session_seed = 0;
                  ip = 50 ∷ [];
                }))
              ∷ [];
      },
      char_db,
    )
unfolding select update send_char_list_reply ids_of add_characters add_items
send_char_select_reply-listed_example =
    send_char_select_reply-listed procedures map_env (choose 0) chooser after_list char_db hero refl
      list_sent refl refl refl

send_char_select_reply-overrun_example :
    send_char_select_reply procedures char_env (choose 1) after_list char_db ≡ none
unfolding select
send_char_select_reply-overrun_example =
    send_char_select_reply-overrun procedures char_env (choose 1) chooser after_list char_db refl
      list_sent refl
