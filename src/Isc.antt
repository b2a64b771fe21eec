-- ===== src/Isc.antt =====
-- The connections between the servers, as CCharISC (src/char/src/ccharisc.cpp) and CMapISC
-- (src/map/src/cmapisc.cpp) keep them.
pub mod Char
pub mod Map
use os_irose_new.Common.{
  ℕ, zero, suc, ◌+◌, ◌-◌, ◌%◌, ◌^◌, Bool, true, false, ◌&&◌, List, [], ◌∷◌, ◌++◌, Option, none,
  some, ◌==◌, leb, ltb, if◌then◌else◌,
}
use os_irose_new.Messages.Isc.{IscServerRegister, IscShutdown}

-- The packets that the servers send each other; ISC_ALIVE has no members.
pub data IscSent : Type 0 where
  isc_server_register : IscServerRegister → IscSent
  isc_shutdown : IscShutdown → IscSent
  isc_alive : IscSent

-- A CRoseISC, by what its socket keeps and what it has sent. The time is in milliseconds.
pub record Conn : Type 0 where
  pub id : ℕ
  pub type_ : ℕ
  pub address : List ℕ
  pub port : ℕ
  pub active : Bool
  pub update_time : ℕ
  pub sent : List IscSent

-- Isc::ServerType
pub data ServerType : Type 0 where
  login : ServerType
  char : ServerType
  node : ServerType
  map_master : ServerType
  map_worker : ServerType

unfoldable pub server_type_code : ServerType → ℕ
server_type_code login = 0
server_type_code char = 1
server_type_code node = 2
server_type_code map_master = 3
server_type_code map_worker = 4

abbrev pub send : IscSent → Conn → Conn
send packet c = record c { sent = c.sent ++ packet ∷ [] }

abbrev pub has_type : ServerType → Conn → Bool
has_type t c = c.type_ == server_type_code t

-- What the settings of a server say about it.
pub record Config : Type 0 where
  pub name : List ℕ
  pub ip : List ℕ
  pub client_port : ℕ
  pub access_level : ℕ

-- One round of the thread that pings, for a connection of the type it pings at. It ends where the answer is false.
unfoldable pub ping : ServerType → ℕ → Conn → Bool × Conn
ping t now c =
    if c.active && has_type t c
    then (true, if ltb 60000 (now - c.update_time) then send isc_alive c else c)
    else (false, c)

-- The change of the connection at a place.
unfoldable pub change : ℕ → (Conn → Conn) → List Conn → List Conn
change i f [] = []
change zero f (c ∷ conns) = f c ∷ conns
change (suc i) f (c ∷ conns) = c ∷ change i f conns

-- The first connection of a type gets the packet; the answer is whether there is one.
unfoldable pub send_first : ServerType → IscSent → List Conn → Bool × List Conn
send_first t packet [] = (false, [])
send_first t packet (c ∷ conns) =
    let later = send_first t packet conns in
    if has_type t c then (true, send packet c ∷ conns) else (later.0, c ∷ later.1)

-- Every connection of a type gets it.
unfoldable pub send_all : ServerType → IscSent → List Conn → List Conn
send_all t packet [] = []
send_all t packet (c ∷ conns) =
    let later = send_all t packet conns in if has_type t c then send packet c ∷ later else c ∷ later
