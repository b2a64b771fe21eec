-- ===== src/Isc/Map.antt =====
-- CMapISC (src/map/src/cmapisc.cpp).
use os_irose_new.Common.{
  ℕ, Bool, true, false, not, List, Option, none, some, get_elem?, ◌==◌, if◌then◌else◌,
}
use os_irose_new.Messages.Isc.{IscServerRegister}
use os_irose_new.Isc.{
  Conn, isc_server_register, isc_shutdown, char, map_master, server_type_code, Config, send,
  has_type, send_first,
}

-- The constructor with a socket, but for the callbacks.
unfoldable pub map_isc : Conn → Conn
map_isc c = record c { type_ = server_type_code map_master }

-- ServerRegister only logs.
unfoldable pub server_register : IscServerRegister → List Conn → Bool × List Conn
server_register p conns = (false, conns)

unfoldable pub handle_packet : ℕ → IscServerRegister → List Conn → Bool × List Conn
unfolding server_register
handle_packet packet_type p conns =
    let kept : Bool × List Conn = (true, conns) in
    if packet_type == 0x301
    then kept
    else if packet_type == 0x302
    then kept
    else if packet_type == 0x303
    then server_register p conns
    else if packet_type == 0x304
    then kept
    else if packet_type == 0x305
    then kept
    else (false, conns)

-- OnConnected, but for the thread, which is `ping` with the type of the char server.
unfoldable pub on_connected : Config → Conn → Conn
on_connected config c =
    send
      (isc_server_register (record {
        server_type = server_type_code map_master;
        name = config.name;
        addr = config.ip;
        port = config.client_port;
        right = config.access_level;
        id = c.id;
      }))
      c

-- OnShutdown of the connection at place `i`. IscShutdown() leaves both members as they were, which are arguments.
unfoldable pub on_shutdown : ℕ → ℕ → Bool → ℕ → List Conn → Option (Bool × List Conn)
on_shutdown type id reconnects i conns = elim (get_elem? conns i) [
  | none ↦ none
  | some c ↦
      let told : List Conn =
        (send_first char (isc_shutdown (record { server_type = type; id = id })) conns).1 in
      let quiet : Option (Bool × List Conn) = some (true, conns) in
      if not c.active
      then quiet
      else if has_type char c
      then some (not reconnects, conns)
      else some (true, told)
]
