-- ===== src/Login/Access.antt =====
-- What a player can have got, whatever the requests, the servers and the database were.
pub mod Logins
pub mod Selections
pub mod Runs
use os_irose_new.Common.{
  ℕ, suc, ◌+◌, ◌-◌, ◌%◌, ◌^◌, ◌≤◌, ◌≡◌, refl, sym, subst, ap, ◌∙◌, Bool, true, false, ◌&&◌, List,
  [], ◌∷◌, ◌++◌, Option, none, some, ◌==◌, if◌then◌else◌, Bool-cases, inl, inr, arith,
}
use os_irose_new.Messages.Reply.{srv_srv_select_reply}
use os_irose_new.Messages.Lobby.{SrvLoginReply, add_server}
use os_irose_new.Messages.Account.{CliLoginReq, CliChannelListReq, CliSrvSelectReq}
use os_irose_new.Messages.Request.{
  Request, cli_accept_req, cli_channel_list_req, cli_login_req, cli_srv_select_req,
  cli_join_server_req, cli_screen_shot_time_req, cli_alive, cli_logout_req, cli_char_list_req,
  cli_create_char_req, cli_delete_char_req, cli_select_char_req, cli_change_map_req, cli_drop_item,
  cli_equip_item, cli_mouse_cmd, cli_revive_req, cli_stop, cli_stop_moving, cli_normal_chat,
  cli_whisper_chat, cli_party_chat, cli_party_req, cli_party_reply, isc_server_register,
  isc_shutdown,
}
use os_irose_new.Escape.{escape_data}
use os_irose_new.Login.Isc.{LoginIsc, char_type}
use os_irose_new.Login.Database.{Account, Session, Database, Sql, select}
use os_irose_new.Login.Client.{
  State, default, logged_in, transfering, Sent, login_reply, channel_list_reply, reply, LoginClient,
  Env, new_client, add_servers, send_login_reply, rights_of, login_known, login_unknown, login_rows,
  user_login, channel_list, insert_session, selected, select_in, server_select, handle_default,
  handle_packet,
}

-- The login replies that let the player in, the answers to a selected server, and the channel lists.
abbrev pub is_ok : Sent → Bool
is_ok (login_reply r) = r.result == 0
is_ok (channel_list_reply r) = false
is_ok (reply r) = false

abbrev pub is_selection : Sent → Bool
is_selection (reply (srv_srv_select_reply r)) = true
is_selection _ = false

abbrev pub is_channels : Sent → Bool
is_channels (channel_list_reply r) = true
is_channels _ = false

abbrev pub count : (Sent → Bool) → List Sent → ℕ
count test [] = 0
count test (x ∷ xs) = let rest = count test xs in if test x then suc rest else rest

-- What can have been sent in a state.
abbrev pub IsIn : State → ℕ → List Sent → Type 0
IsIn default rights sent =
    (count is_ok sent ≡ 0) × (count is_selection sent ≡ 0) × (count is_channels sent ≡ 0)
IsIn logged_in rights sent = (1 ≤ rights) × (count is_ok sent ≡ 1) × (count is_selection sent ≡ 0)
IsIn transfering rights sent = (1 ≤ rights) × (count is_ok sent ≡ 1) × (count is_selection sent ≤ 1)

abbrev pub IsPlayer : LoginClient → Type 0
IsPlayer c = IsIn c.login_state c.access_rights c.sent

pub count-snoc :
    (test : Sent → Bool) (xs : List Sent) (x : Sent)
    → count test (xs ++ x ∷ []) ≡ count test xs + (if test x then 1 else 0)
count-snoc test [] x = ground arith
count-snoc test (y ∷ xs) x = ground (arith, count-snoc test xs x)

-- A packet that is none of the three changes nothing.
pub send-IsIn :
    (state : State) (rights : ℕ) (sent : List Sent) (x : Sent)
    → is_ok x ≡ false
    → is_selection x ≡ false
    → is_channels x ≡ false
    → IsIn state rights sent
    → IsIn state rights (sent ++ x ∷ [])
send-IsIn default rights sent x o s l v = ground (
  arith,
  count-snoc is_ok sent x,
  count-snoc is_selection sent x,
  count-snoc is_channels sent x,
  v,
  o,
  s,
  l,
)
send-IsIn logged_in rights sent x o s l v =
    ground (arith, count-snoc is_ok sent x, count-snoc is_selection sent x, v, o, s)
send-IsIn transfering rights sent x o s l v =
    ground (arith, count-snoc is_ok sent x, count-snoc is_selection sent x, v, o, s)
