-- ===== src/Char/Select.antt =====
-- The rest of CCharClient (src/char/src/ccharclient.cpp): SendCharSelectReply, OnDisconnected and HandlePacket.
use os_irose_new.Common.{
  ℕ, ◌+◌, ◌%◌, ◌^◌, Bool, true, false, not, ◌&&◌, List, [], ◌∷◌, Option, none, some, ◌==◌, ltb,
  if◌then◌else◌, length, get_elem?,
}
use os_irose_new.Messages.Char.{CliSelectCharReq}
use os_irose_new.Messages.Reply.{srv_accept_reply, srv_screen_shot_time_reply, srv_switch_server}
use os_irose_new.Messages.Request.{
  Request, cli_join_server_req, cli_char_list_req, cli_create_char_req, cli_delete_char_req,
  cli_select_char_req, cli_alive, cli_accept_req, cli_screen_shot_time_req,
}
use os_irose_new.Login.Isc.{map_master_type}
use os_irose_new.Login.Database.{Account, select, update}
use os_irose_new.Login.Client.{default, logged_in, transfering}
use os_irose_new.Char.Tables.{Session, Character, CharDb, Procedures, update_session_with_character}
use os_irose_new.Char.Client.{
  CharClient, World, Server, Env, Handled, send, update_session, join_server_reply,
  send_char_list_reply, send_char_create_reply, send_char_delete_reply,
}

-- The loop over the servers.
unfoldable pub switch_servers : ℕ → List Server → CharClient → CharClient
switch_servers map_id [] c = c
switch_servers map_id (s ∷ list) c =
    let packet = srv_switch_server (record {
      port = (s.port + map_id) % 2 ^ 16;
      session_id = c.session_id;
      session_seed = 0;
      ip = s.address;
    }) in
    switch_servers map_id list
      (if (s.type_ == map_master_type) && (s.id == c.channel_id) then send packet c else c)

-- From the rows with the map of the character on.
unfoldable pub switch_to :
    List Server → CharClient → CharDb → List Character → Option (Bool × CharClient × CharDb)
switch_to list c db [] = none
switch_to list c db (row ∷ rows) = some (true, switch_servers (row.map_id % 2 ^ 16) list c, db)

module _ (procedures : Procedures) (env : Env) where
  -- From characterRealId_[selected_id] on.
  unfoldable pub select_real_id :
      Option ℕ → CharClient → CharDb → Option (Bool × CharClient × CharDb)
  select_real_id none c db = none
  select_real_id (some real_id) c db =
      let db' = update_session_with_character c.session_id real_id db in
      let rows = select (λ (row : Character). row.id == real_id) db'.characters in
      if env.fails_other then none else switch_to env.isc_list c db' rows

  unfoldable pub send_char_select_reply :
      CliSelectCharReq → CharClient → CharDb → Option (Bool × CharClient × CharDb)
  send_char_select_reply p c db =
      let c' : CharClient = record c { login_state = transfering } in
      elim (c.login_state) [
        | logged_in ↦
            if ltb (length c.character_real_id) p.char_id
            then some (false, c', db)
            else select_real_id (get_elem? c.character_real_id p.char_id) c' db
        | default ↦ some (true, c, db)
        | transfering ↦ some (true, c, db)
      ]

  -- online, of the account's row if there is one.
  unfoldable pub is_online : List Account → Bool
  is_online [] = false
  is_online (row ∷ rows) = row.online

  unfoldable pub on_disconnected : CharClient → CharDb → CharDb
  on_disconnected c db =
      let mine : Account → Bool = λ (a : Account). a.id == c.user_id in
      let left = select (λ (s : Session). not (s.userid == c.user_id)) db.sessions in
      record db {
        sessions = if is_online (select mine db.accounts) then left else db.sessions;
        accounts = update mine (λ (a : Account). record a { online = false }) db.accounts;
      }

  -- What CRoseSocket::HandlePacket sends, whose answer is not looked at.
  unfoldable pub handle_rest : Request → CharClient → CharClient
  handle_rest cli_accept_req c =
      send (srv_accept_reply (record { result = 2; rand_value = env.now % 2 ^ 32 })) c
  handle_rest (cli_screen_shot_time_req p) c = send (srv_screen_shot_time_reply env.unset) c
  handle_rest _ c = c

  abbrev with_db : World → Option (Bool × CharClient × CharDb) → Option Handled
  with_db w none = none
  with_db w (some r) = some (r.0, r.1, record w { db = r.2 })

  abbrev listed : World → Option CharClient → Option Handled
  listed w none = none
  listed w (some c) = some (true, c, w)

  abbrev updated : CharClient → Option World → Option Handled
  updated c none = none
  updated c (some w) = some (true, c, w)

  unfoldable pub handle_packet : Request → CharClient → World → Option Handled
  handle_packet (cli_join_server_req p) c w =
      some (true, join_server_reply procedures env p c w.db, w)
  handle_packet cli_char_list_req c w = listed w (send_char_list_reply procedures env c w.db)
  handle_packet (cli_create_char_req p) c w =
      let r = send_char_create_reply procedures env p c w.db in
      some (true, r.0, record w { db = r.1 })
  handle_packet (cli_delete_char_req p) c w =
      with_db w (send_char_delete_reply procedures env p c w.db)
  handle_packet (cli_select_char_req p) c w = with_db w (send_char_select_reply p c w.db)
  handle_packet cli_alive c w = elim (c.login_state) [
    | logged_in ↦ updated c (update_session procedures env c w)
    | default ↦ some (true, c, w)
    | transfering ↦ some (true, c, w)
  ]
  handle_packet p c w = some (true, handle_rest p c, w)
