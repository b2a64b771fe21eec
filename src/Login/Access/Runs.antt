-- ===== src/Login/Access/Runs.antt =====
-- HandlePacket keeps what a player can have got, and so does every run of it.
use os_irose_new.Common.{◌≡◌, refl, Bool, some}
use os_irose_new.Messages.Request.{
  Request, cli_accept_req, cli_channel_list_req, cli_login_req, cli_srv_select_req,
  cli_join_server_req, cli_screen_shot_time_req, cli_alive, cli_logout_req, cli_char_list_req,
  cli_create_char_req, cli_delete_char_req, cli_select_char_req, cli_change_map_req, cli_drop_item,
  cli_equip_item, cli_mouse_cmd, cli_revive_req, cli_stop, cli_stop_moving, cli_normal_chat,
  cli_whisper_chat, cli_party_chat, cli_party_req, cli_party_reply, isc_server_register,
  isc_shutdown,
}
use os_irose_new.Login.Database.{Database, Sql}
use os_irose_new.Login.Client.{LoginClient, Env, new_client, handle_default, handle_packet}
use os_irose_new.Login.Access.{IsPlayer, send-IsIn}
use os_irose_new.Login.Access.Logins.{user_login-in}
use os_irose_new.Login.Access.Selections.{moved, channel_list-in, server_select-in}

module _ (sql : Sql) (env : Env) where
  handle_default-IsPlayer :
      (p : Request) (c : LoginClient) → IsPlayer c → IsPlayer (handle_default sql env p c).1
  unfolding handle_default
  handle_default-IsPlayer cli_accept_req c v =
      send-IsIn c.login_state c.access_rights c.sent _ refl refl refl v
  handle_default-IsPlayer (cli_channel_list_req p) c v = v
  handle_default-IsPlayer (cli_login_req p) c v = v
  handle_default-IsPlayer (cli_srv_select_req p) c v = v
  handle_default-IsPlayer (cli_join_server_req p) c v = v
  handle_default-IsPlayer (cli_screen_shot_time_req p) c v =
      send-IsIn c.login_state c.access_rights c.sent _ refl refl refl v
  handle_default-IsPlayer cli_alive c v = v
  handle_default-IsPlayer cli_logout_req c v = v
  handle_default-IsPlayer cli_char_list_req c v = v
  handle_default-IsPlayer (cli_create_char_req p) c v = v
  handle_default-IsPlayer (cli_delete_char_req p) c v = v
  handle_default-IsPlayer (cli_select_char_req p) c v = v
  handle_default-IsPlayer (cli_change_map_req p) c v = v
  handle_default-IsPlayer (cli_drop_item p) c v = v
  handle_default-IsPlayer (cli_equip_item p) c v = v
  handle_default-IsPlayer (cli_mouse_cmd p) c v = v
  handle_default-IsPlayer (cli_revive_req p) c v = v
  handle_default-IsPlayer (cli_stop p) c v = v
  handle_default-IsPlayer (cli_stop_moving p) c v = v
  handle_default-IsPlayer (cli_normal_chat p) c v = v
  handle_default-IsPlayer (cli_whisper_chat p) c v = v
  handle_default-IsPlayer (cli_party_chat p) c v = v
  handle_default-IsPlayer (cli_party_req p) c v = v
  handle_default-IsPlayer (cli_party_reply p) c v = v
  handle_default-IsPlayer (isc_server_register p) c v = v
  handle_default-IsPlayer (isc_shutdown p) c v = v

  handle_packet-IsPlayer :
      (p : Request) (c : LoginClient) (db : Database) (r : Bool × LoginClient × Database)
      → IsPlayer c
      → handle_packet sql env p c db ≡ some r
      → IsPlayer r.1
  unfolding handle_packet
  handle_packet-IsPlayer (cli_login_req p) c db r v e =
      moved (user_login-in sql env p c db c.login_state v) e
  handle_packet-IsPlayer (cli_channel_list_req p) c db r v e =
      moved (channel_list-in sql env p c c.login_state v) e
  handle_packet-IsPlayer (cli_srv_select_req p) c db r v e =
      server_select-in sql env p c db c.login_state r v e
  handle_packet-IsPlayer cli_accept_req c db r v e =
      moved (handle_default-IsPlayer cli_accept_req c v) e
  handle_packet-IsPlayer (cli_join_server_req p) c db r v e =
      moved (handle_default-IsPlayer (cli_join_server_req p) c v) e
  handle_packet-IsPlayer (cli_screen_shot_time_req p) c db r v e =
      moved (handle_default-IsPlayer (cli_screen_shot_time_req p) c v) e
  handle_packet-IsPlayer cli_alive c db r v e = moved (handle_default-IsPlayer cli_alive c v) e
  handle_packet-IsPlayer cli_logout_req c db r v e =
      moved (handle_default-IsPlayer cli_logout_req c v) e
  handle_packet-IsPlayer cli_char_list_req c db r v e =
      moved (handle_default-IsPlayer cli_char_list_req c v) e
  handle_packet-IsPlayer (cli_create_char_req p) c db r v e =
      moved (handle_default-IsPlayer (cli_create_char_req p) c v) e
  handle_packet-IsPlayer (cli_delete_char_req p) c db r v e =
      moved (handle_default-IsPlayer (cli_delete_char_req p) c v) e
  handle_packet-IsPlayer (cli_select_char_req p) c db r v e =
      moved (handle_default-IsPlayer (cli_select_char_req p) c v) e
  handle_packet-IsPlayer (cli_change_map_req p) c db r v e =
      moved (handle_default-IsPlayer (cli_change_map_req p) c v) e
  handle_packet-IsPlayer (cli_drop_item p) c db r v e =
      moved (handle_default-IsPlayer (cli_drop_item p) c v) e
  handle_packet-IsPlayer (cli_equip_item p) c db r v e =
      moved (handle_default-IsPlayer (cli_equip_item p) c v) e
  handle_packet-IsPlayer (cli_mouse_cmd p) c db r v e =
      moved (handle_default-IsPlayer (cli_mouse_cmd p) c v) e
  handle_packet-IsPlayer (cli_revive_req p) c db r v e =
      moved (handle_default-IsPlayer (cli_revive_req p) c v) e
  handle_packet-IsPlayer (cli_stop p) c db r v e =
      moved (handle_default-IsPlayer (cli_stop p) c v) e
  handle_packet-IsPlayer (cli_stop_moving p) c db r v e =
      moved (handle_default-IsPlayer (cli_stop_moving p) c v) e
  handle_packet-IsPlayer (cli_normal_chat p) c db r v e =
      moved (handle_default-IsPlayer (cli_normal_chat p) c v) e
  handle_packet-IsPlayer (cli_whisper_chat p) c db r v e =
      moved (handle_default-IsPlayer (cli_whisper_chat p) c v) e
  handle_packet-IsPlayer (cli_party_chat p) c db r v e =
      moved (handle_default-IsPlayer (cli_party_chat p) c v) e
  handle_packet-IsPlayer (cli_party_req p) c db r v e =
      moved (handle_default-IsPlayer (cli_party_req p) c v) e
  handle_packet-IsPlayer (cli_party_reply p) c db r v e =
      moved (handle_default-IsPlayer (cli_party_reply p) c v) e
  handle_packet-IsPlayer (isc_server_register p) c db r v e =
      moved (handle_default-IsPlayer (isc_server_register p) c v) e
  handle_packet-IsPlayer (isc_shutdown p) c db r v e =
      moved (handle_default-IsPlayer (isc_shutdown p) c v) e

-- The player after any requests, each of them handled with any servers, at any time and on any database.
pub data Reaches (sql : Sql) : LoginClient → Type 0 where
  connected : Reaches sql new_client
  handled :
      {c : LoginClient}
      → (env : Env) (p : Request) (db : Database) (r : Bool × LoginClient × Database)
      → handle_packet sql env p c db ≡ some r
      → Reaches sql c
      → Reaches sql r.1

-- However a player's requests are handled: before the login no channel list and no answer to a selected server has
-- been sent; the player is let in once at most, and only with an access right of 1 or more; and one
-- selected server is answered at most, after which the player is in transfer.
pub Reaches-IsPlayer : (sql : Sql) (c : LoginClient) → Reaches sql c → IsPlayer c
unfolding new_client
Reaches-IsPlayer sql _ connected = (refl, refl, refl)
Reaches-IsPlayer sql _ (handled {c} env p db r e before) =
    handle_packet-IsPlayer sql env p c db r (Reaches-IsPlayer sql c before) e
