-- ===== src/Char/Client.antt =====
-- CCharClient (src/char/src/ccharclient.cpp). `none` is an exception that nothing catches, or a read past the end of
-- characterRealId_ or of a result without rows.
use os_irose_new.Common.{
  ℕ, ◌+◌, ◌-◌, ◌*◌, ◌%◌, ◌^◌, Bool, true, false, ◌&&◌, List, [], ◌∷◌, ◌++◌, Option, none, some,
  ◌==◌, ltb, if◌then◌else◌,
}
use os_irose_new.Messages.Account.{CliJoinServerReq}
use os_irose_new.Messages.Char.{CliCreateCharReq, CliDeleteCharReq}
use os_irose_new.Messages.Replies.{SrvScreenShotTimeReply}
use os_irose_new.Messages.Reply.{
  Reply, srv_join_server_reply, srv_create_char_reply, srv_delete_char_reply,
}
use os_irose_new.Messages.CharacterList.{
  SrvCharacterListReply, empty_list, add_character, get_position, add_equip_item,
}
use os_irose_new.Escape.{escape_data}
use os_irose_new.Login.Database.{select, update}
use os_irose_new.Login.Client.{State, default, logged_in, transfering}
use os_irose_new.Char.Tables.{
  Session, Character, ItemRow, CharDb, Procedures, delete_character, has_account,
}

pub data Sent : Type 0 where
  character_list_reply : SrvCharacterListReply → Sent
  reply : Reply → Sent

-- accessRights_ is never used. `sent` is what has been given to send.
pub record CharClient : Type 0 where
  pub login_state : State
  pub session_id : ℕ
  pub user_id : ℕ
  pub channel_id : ℕ
  pub character_real_id : List ℕ
  pub sent : List Sent

-- The database, and the time of updateSession, which is static and so one for all players.
pub record World : Type 0 where
  pub db : CharDb
  pub updated : ℕ

-- What the socket of a server has.
pub record Server : Type 0 where
  pub type_ : ℕ
  pub id : ℕ
  pub port : ℕ
  pub address : List ℕ

-- What a handler finds around it: the time, the steady clock in nanoseconds, the connected servers, what a
-- default SrvScreenShotTimeReply and a default equip_item hold, and which statements the database fails.
pub record Env : Type 0 where
  pub now : ℕ
  pub tick : ℕ
  pub isc_list : List Server
  pub unset : SrvScreenShotTimeReply
  pub rest : ℕ
  pub fails_join : Bool
  pub fails_other : Bool

unfoldable pub new_char_client : CharClient
new_char_client = record {
  login_state = default;
  session_id = 0;
  user_id = 0;
  channel_id = 0;
  character_real_id = [];
  sent = [];
}

abbrev pub Handled : Type 0
Handled = Bool × CharClient × World

abbrev pub send : Reply → CharClient → CharClient
send packet c = record c { sent = c.sent ++ reply packet ∷ [] }

module _ (procedures : Procedures) (env : Env) where
  unfoldable pub update_session : CharClient → World → Option World
  update_session c w =
      let db = w.db in
      let sessions =
        update (λ (s : Session). s.userid == c.user_id)
          (λ (s : Session). record s { time = env.now }) db.sessions in
      if ltb (env.tick - w.updated) (120 * 10 ^ 9)
      then some w
      else (if env.fails_other
          then none
          else some (record { db = record db { sessions = sessions }; updated = env.tick }))

  abbrev joined : ℕ → ℕ → Reply
  joined result id = srv_join_server_reply (record { result = result; id = id; pay_flag = 0 })

  -- What is done with the rows of the select.
  unfoldable pub join_rows : ℕ → CharClient → List Session → CharClient
  join_rows session_id c [] = send (joined 3 0) c
  join_rows session_id c (row ∷ rows) = send (joined 0 (env.now % 2 ^ 32)) (record c {
    login_state = logged_in;
    user_id = row.userid;
    channel_id = row.channelid;
    session_id = session_id;
  })

  unfoldable pub join_server_reply : CliJoinServerReq → CharClient → CharDb → CharClient
  join_server_reply p c db =
      let password = escape_data p.password in
      let test : Session → Bool = λ (s : Session).
        (s.id == p.session_id) && has_account procedures password db.accounts s.userid in
      elim (c.login_state) [
        | default ↦
            if env.fails_join
            then send (joined 1 0) c
            else join_rows p.session_id c (select test db.sessions)
        | logged_in ↦ c
        | transfering ↦ c
      ]

  -- The loop over what a character wears.
  unfoldable pub add_items : ℕ → List ItemRow → SrvCharacterListReply → SrvCharacterListReply
  add_items id [] packet = packet
  add_items id (row ∷ rows) packet =
      add_items id rows
        (add_equip_item (id % 256) (get_position row.slot) (row.itemid % 2 ^ 16) packet)

  -- The loop over the characters, from the `id`-th.
  unfoldable pub add_characters :
      ℕ → CharDb → List Character → SrvCharacterListReply → SrvCharacterListReply
  add_characters id db [] packet = packet
  add_characters id db (row ∷ rows) packet =
      let worn = select (λ (i : ItemRow). (i.char_id == row.id) && ltb i.slot 10) db.inventory in
      let listed =
        add_character row.name (row.race % 256) (row.level % 2 ^ 16) (row.job % 2 ^ 16) row.face
          row.hair row.delete_date env.rest packet in
      add_characters (id + 1) db rows (add_items id worn listed)

  unfoldable pub ids_of : List Character → List ℕ
  ids_of [] = []
  ids_of (row ∷ rows) = row.id ∷ ids_of rows

  abbrev pub characters_of : ℕ → CharDb → List Character
  characters_of user_id db = select (λ (row : Character). row.userid == user_id) db.characters

  unfoldable pub send_char_list_reply : CharClient → CharDb → Option CharClient
  send_char_list_reply c db =
      let rows = characters_of c.user_id db in
      let listed : CharClient = record c {
        character_real_id = ids_of rows;
        sent = c.sent ++ character_list_reply (add_characters 0 db rows empty_list) ∷ [];
      } in
      elim (c.login_state) [
        | logged_in ↦ if env.fails_other then none else some listed
        | default ↦ some c
        | transfering ↦ some c
      ]

  -- The answer to create_char, whose error is caught.
  unfoldable pub created : CharClient → CharDb → Option CharDb → CharClient × CharDb
  created c db none = (send (srv_create_char_reply (record { result = 2; platinium = 0 })) c, db)
  created c db (some db') =
      (send (srv_create_char_reply (record { result = 0; platinium = 0 })) c, db')

  unfoldable pub send_char_create_reply :
      CliCreateCharReq → CharClient → CharDb → CharClient × CharDb
  send_char_create_reply p c db = elim (c.login_state) [
    | logged_in ↦
        created c db
          (procedures.create_char (escape_data p.name) c.user_id p.race p.face p.hair p.stone db)
    | default ↦ (c, db)
    | transfering ↦ (c, db)
  ]

  unfoldable pub send_char_delete_reply :
      CliDeleteCharReq → CharClient → CharDb → Option (Bool × CharClient × CharDb)
  send_char_delete_reply p c db =
      let answer : ℕ → CharClient = λ (time : ℕ).
        send (srv_delete_char_reply (record { remaining_time = time; name = p.name })) c in
      elim (c.login_state) [
        | logged_in ↦
            if ltb 6 p.char_id
            then some (false, c, db)
            else (if p.is_delete == 0
                then some (true, answer 0, db)
                else (if env.fails_other
                    then none
                    else some (
                      true,
                      answer (env.now % 2 ^ 32),
                      delete_character procedures c.user_id (escape_data p.name) db,
                    )))
        | default ↦ some (true, c, db)
        | transfering ↦ some (true, c, db)
      ]
