-- ===== src/Isc/Char.antt =====
-- CCharISC (src/char/src/ccharisc.cpp), and how CCharServer accepts one (src/char/src/ccharserver.cpp).
pub mod Link
pub mod Told
use os_irose_new.Common.{
  ℕ, zero, suc, ◌+◌, ◌-◌, ◌%◌, ◌^◌, Bool, true, false, not, ◌&&◌, List, [], ◌∷◌, ◌++◌, Option, none,
  some, get_elem?, ◌==◌, leb, ltb, if◌then◌else◌,
}
use os_irose_new.Messages.Isc.{IscServerRegister, IscShutdown}
use os_irose_new.Isc.{
  Conn, IscSent, isc_server_register, isc_shutdown, ServerType, login, char, map_master, node,
  server_type_code, Config, send, has_type, change, send_first, send_all,
}

-- The ISC server's part of CCharServer: server_count_ and isc_list_.
pub record CharIscServer : Type 0 where
  pub server_count : ℕ
  pub isc_list : List Conn

-- OnAccepted, of a socket with its address and port; its type is still 0.
unfoldable pub on_accepted : ℕ → List ℕ → ℕ → CharIscServer → CharIscServer
on_accepted now address port s = record {
  server_count = (s.server_count + 1) % 2 ^ 32;
  isc_list =
      record {
        id = s.server_count;
        type_ = 0;
        address = address;
        port = port;
        active = true;
        update_time = now;
        sent = [];
      }
      ∷ s.isc_list;
}

-- set_address, set_port and set_type of ServerRegister.
abbrev pub registered : IscServerRegister → Conn → Conn
registered p c = record c {
  address = p.addr;
  port = p.port % 2 ^ 16;
  type_ = server_type_code map_master;
}

-- The packet that is passed on. `type` is what the local variable holds before it is set.
abbrev pub passed_on : ℕ → IscServerRegister → Conn → IscServerRegister
passed_on type p c =
    let is_map : Bool = p.server_type == server_type_code map_master in
    record {
      server_type = if is_map then p.server_type else type;
      name = if is_map then p.name else [];
      addr = c.address;
      port = c.port;
      right = if is_map then p.right else 0;
      id = c.id;
    }

-- The loop over the list.
abbrev pub pass_on : IscServerRegister → CharIscServer → Bool × CharIscServer
pass_on packet s =
    let result = send_first login (isc_server_register packet) s.isc_list in
    (result.0, record s { isc_list = result.1 })

-- ServerRegister of the connection at place `i` of the list.
unfoldable pub server_register :
    ℕ → ℕ → IscServerRegister → CharIscServer → Option (Bool × CharIscServer)
server_register type i p s =
    let s' : CharIscServer =
      if p.server_type == server_type_code node
      then s
      else if p.server_type == server_type_code map_master
      then record s { isc_list = change i (registered p) s.isc_list }
      else s in
    elim (get_elem? s'.isc_list i) [ none ↦ none | some c ↦ some (pass_on (passed_on type p c) s') ]

-- HandlePacket: by its type, and with what getPacket makes of it.
unfoldable pub handle_packet :
    ℕ → ℕ → ℕ → IscServerRegister → CharIscServer → Option (Bool × CharIscServer)
handle_packet type i packet_type p s =
    let kept : Option (Bool × CharIscServer) = some (true, s) in
    if packet_type == 0x301
    then kept
    else if packet_type == 0x302
    then kept
    else if packet_type == 0x303
    then server_register type i p s
    else if packet_type == 0x304
    then kept
    else if packet_type == 0x305
    then kept
    else some (false, s)

-- OnConnected, but for the thread, which is `ping` with the type of the login server.
unfoldable pub on_connected : Config → Conn → Conn
on_connected config c =
    let packet : IscServerRegister = record {
      server_type = server_type_code char;
      name = config.name;
      addr = config.ip;
      port = config.client_port;
      right = config.access_level;
      id = c.id;
    } in
    record (send (isc_server_register packet) c) { type_ = server_type_code login }

-- OnShutdown of the connection at place `i`; `reconnects` is what reconnect answers.
unfoldable pub on_shutdown : Bool → ℕ → CharIscServer → Option (Bool × CharIscServer)
on_shutdown reconnects i s = elim (get_elem? s.isc_list i) [
  | none ↦ none
  | some c ↦
      let packet : IscShutdown = record { server_type = c.type_ % 2 ^ 8; id = c.id } in
      let told : CharIscServer = record s {
        isc_list = send_all login (isc_shutdown packet) s.isc_list;
      } in
      let quiet : Option (Bool × CharIscServer) = some (true, s) in
      if not c.active
      then quiet
      else if has_type login c
      then some (not reconnects, s)
      else some (true, told)
]
