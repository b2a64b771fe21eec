-- ===== src/Map/Client.antt =====
-- CMapClient (src/map/src/cmapclient.cpp): a player in the world. The systems of the map server are an argument, an
-- `EntitySystem` over a state and entities of its own; so are the functions and the failures of the database.
pub mod Leaving
use os_irose_new.Common.{
  ℕ, ◌+◌, ◌-◌, ◌*◌, ◌%◌, ◌^◌, ◌≡◌, ◌≢◌, refl, ap, Bool, true, false, not, ◌&&◌, List, [], ◌∷◌, ◌++◌,
  Option, none, some, ◌==◌, ltb, if◌then◌else◌, arith,
}
use os_irose_new.Messages.Account.{CliJoinServerReq}
use os_irose_new.Messages.Replies.{SrvScreenShotTimeReply}
use os_irose_new.Messages.Reply.{
  Reply, srv_accept_reply, srv_screen_shot_time_reply, srv_join_server_reply,
}
use os_irose_new.Messages.Request.{
  Request, cli_alive, cli_accept_req, cli_screen_shot_time_req, cli_change_map_req,
}
use os_irose_new.Escape.{escape_data}
use os_irose_new.Login.Database.{select, update}

-- The rows of accounts and sessions that the map server reads and writes.
pub record Account : Type 0 where
  pub id : ℕ
  pub password : List ℕ
  pub salt : List ℕ
  pub platinium : Bool
  pub online : Bool

pub record Session : Type 0 where
  pub id : ℕ
  pub userid : ℕ
  pub charid : ℕ
  pub worldip : Option (List ℕ)
  pub worldport : ℕ
  pub time : ℕ

pub record Sql : Type 0 where
  -- SHA2(CONCAT(password, salt), 256)
  pub sha2 : List ℕ → List ℕ → List ℕ
  -- The comparison of two texts under the collation of the column.
  pub same : List ℕ → List ℕ → Bool

pub data State : Type 0 where
  default logged_in switching : State

pub record EntitySystem (W E : Type 0) : Type 0 where
  pub load_character : ℕ → Bool → W → Option E × W
  pub destroy : Option E → Bool → W → W
  pub dispatch : Option E → Request → W → Bool × W
  pub basic_id : E → ℕ
  -- entity_.assign<SocketConnector>
  pub assign_socket : E → W → W

pub data Sent (E : Type 0) : Type 0 where
  reply : Reply → Sent E
  select_char_reply inventory_data quest_data teleport_reply : E → Sent E
  billing_message : Sent E

-- `id` is get_id, which is the socket's. accessRights_ is never used.
pub record MapClient (E : Type 0) : Type 0 where
  pub id : ℕ
  pub login_state : State
  pub session_id : ℕ
  pub userid : ℕ
  pub charid : ℕ
  pub entity : Option E
  pub sent : List (Sent E)

-- The tables, the entity system, and the time of updateSession, which is static.
pub record World (W : Type 0) : Type 0 where
  pub accounts : List Account
  pub sessions : List Session
  pub updated : ℕ
  pub entities : W

-- The time, the steady clock in nanoseconds, the address of the server in its configuration, what a default
-- SrvScreenShotTimeReply holds, and which statements the database fails.
pub record Env : Type 0 where
  pub now : ℕ
  pub tick : ℕ
  pub ip : List ℕ
  pub client_port : ℕ
  pub unset : SrvScreenShotTimeReply
  pub fails_join : Bool
  pub fails_world : Bool

-- A packet, by what HandlePacket does with its type: `other` has what fetchPacket makes of it.
pub data Packet : Type 0 where
  alive change_char_req : Packet
  join_server_req : CliJoinServerReq → Packet
  other : Option Request → Packet

module _ {W E : Type 0} (system : EntitySystem W E) (sql : Sql) (env : Env) where
  abbrev send : Sent E → MapClient E → MapClient E
  send packet c = record c { sent = c.sent ++ packet ∷ [] }

  abbrev joined : ℕ → ℕ → Sent E
  joined result id =
      reply (srv_join_server_reply (record { result = result; id = id; pay_flag = 0 }))

  unfoldable pub update_session : MapClient E → World W → World W
  update_session c w =
      let sessions =
        update (λ (s : Session). s.userid == c.id) (λ (s : Session). record s { time = env.now })
          w.sessions in
      if ltb (env.tick - w.updated) (120 * 10 ^ 9)
      then w
      else record w { sessions = sessions; updated = env.tick }

  unfoldable pub on_disconnected : MapClient E → World W → MapClient E × World W
  on_disconnected c w =
      let gone : MapClient E = record c { login_state = default } in
      let offline =
        update (λ (a : Account). a.id == c.id) (λ (a : Account). record a { online = false })
          w.accounts in
      elim (c.login_state) [
        | default ↦ (c, w)
        | logged_in ↦ (
          gone,
          record w { accounts = offline; entities = system.destroy c.entity true w.entities },
        )
        | switching ↦ (gone, record w { entities = system.destroy c.entity false w.entities })
      ]

  -- What a player is sent who comes from the char server, or from another map server.
  unfoldable pub send_start : Option (List ℕ) → E → MapClient E → MapClient E
  send_start none e c =
      send billing_message
        (send (quest_data e) (send (inventory_data e) (send (select_char_reply e) c)))
  send_start (some ip) e c = send (teleport_reply e) c

  -- From the entity on.
  unfoldable pub join_entity : Session → Option E → MapClient E → World W → MapClient E × World W
  join_entity row none c w = (send (joined 1 0) c, w)
  join_entity row (some e) c w =
      let sessions =
        update (λ (s : Session). s.id == c.session_id)
          (λ (s : Session). record s { worldip = some env.ip; worldport = env.client_port })
          w.sessions in
      if env.fails_world then (send (joined 1 0) c, w) else (
        send_start row.worldip e (send (joined 0 (system.basic_id e)) c),
        record w { sessions = sessions; entities = system.assign_socket e w.entities },
      )

  -- From the rows on, of which each is a session with its account.
  unfoldable pub join_rows :
      ℕ → List (Session × Account) → MapClient E → World W → MapClient E × World W
  join_rows session_id [] c w = (send (joined 3 0) c, w)
  join_rows session_id ((row, account) ∷ rows) c w =
      let loaded = system.load_character row.charid account.platinium w.entities in
      join_entity row loaded.0
        (record c {
          login_state = logged_in;
          userid = row.userid;
          charid = row.charid;
          session_id = session_id;
          entity = loaded.0;
        })
        (record w { entities = loaded.1 })

  -- The accounts of a session's user with the password, each with the session.
  abbrev with_accounts : List ℕ → Session → List Account → List (Session × Account)
  with_accounts password s [] = []
  with_accounts password s (a ∷ accounts) =
      let rest = with_accounts password s accounts in
      if (s.userid == a.id) && sql.same a.password (sql.sha2 password a.salt)
      then (s, a) ∷ rest
      else rest

  unfoldable pub join_of : ℕ → List ℕ → List Session → List Account → List (Session × Account)
  join_of id password [] accounts = []
  join_of id password (s ∷ sessions) accounts =
      let rest = join_of id password sessions accounts in
      if s.id == id then with_accounts password s accounts ++ rest else rest

  unfoldable pub join_server_reply :
      CliJoinServerReq → MapClient E → World W → MapClient E × World W
  join_server_reply p c w =
      let rows = join_of p.session_id (escape_data p.password) w.sessions w.accounts in
      elim (c.login_state) [
        | default ↦
            if env.fails_join then (send (joined 1 0) c, w) else join_rows p.session_id rows c w
        | logged_in ↦ (c, w)
        | switching ↦ (c, w)
      ]

  -- HandlePacket of CRoseSocket.
  unfoldable pub handle_socket : Option Request → MapClient E → Bool × MapClient E
  handle_socket none c = (false, c)
  handle_socket (some cli_alive) c = (true, c)
  handle_socket (some cli_accept_req) c = (
    true,
    send (reply (srv_accept_reply (record { result = 2; rand_value = env.now % 2 ^ 32 }))) c,
  )
  handle_socket (some (cli_screen_shot_time_req p)) c =
      (true, send (reply (srv_screen_shot_time_reply env.unset)) c)
  handle_socket (some _) c = (false, c)

  -- What a logged-in player's packet comes to: the systems first, and the socket if none of them takes it.
  unfoldable pub dispatched : Option Request → MapClient E → World W → Bool × MapClient E × World W
  dispatched none c w = (true, (handle_socket none c).1, w)
  dispatched (some r) c w =
      let (taken, entities) = system.dispatch c.entity r w.entities in
      let w' : World W = record w { entities = entities } in
      if taken then (true, c, w') else (true, (handle_socket (some r) c).1, w')

  abbrev is_logged_in : State → Bool
  is_logged_in default = false
  is_logged_in logged_in = true
  is_logged_in switching = false

  abbrev is_change_map : Option Request → Bool
  is_change_map (some (cli_change_map_req p)) = true
  is_change_map _ = false

  unfoldable pub handle_packet : Packet → MapClient E → World W → Bool × MapClient E × World W
  handle_packet (join_server_req p) c w = let r = join_server_reply p c w in (true, r.0, r.1)
  handle_packet change_char_req c w = (true, c, w)
  handle_packet alive c w =
      if is_logged_in c.login_state
      then dispatched (some cli_alive) c (update_session c w)
      else (true, c, w)
  handle_packet (other r) c w =
      let socket = handle_socket r c in
      if is_logged_in c.login_state
      then dispatched r c w
      else (if is_change_map r then (true, c, w) else (socket.0, socket.1, w))
