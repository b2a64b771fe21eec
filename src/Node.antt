-- ===== src/Node.antt =====
-- The node server (src/node/src): NodeClient, which stands between a player and a server, and NodeISC, which keeps
-- what CLoginISC keeps.
pub mod Relay
use os_irose_new.Common.{
  ℕ, zero, suc, ◌+◌, ◌%◌, ◌^◌, Bool, true, false, List, [], ◌∷◌, ◌++◌, Option, none, some, ◌==◌,
  if◌then◌else◌,
}
use os_irose_new.Common.Memory.{Memory, load16}
use os_irose_new.Packet.{packet_of_buffer}
use os_irose_new.Messages.Isc.{IscServerRegister, IscShutdown}
use os_irose_new.Messages.Replies.{SrvSrvSelectReply, unpack_srv_srv_select_reply}
use os_irose_new.Login.Isc.{LoginIsc, Channel, char_type, map_master_type, remove_channel}

-- What goes to the player: a copy of a packet's bytes, or a packet of its own.
pub data Relayed : Type 0 where
  copied : List ℕ → Relayed
  srv_select_reply : SrvSrvSelectReply → Relayed

-- The two connections, by what was sent on them. The other members of NodeClient are never read or changed.
pub record NodeClient : Type 0 where
  pub to_client : List Relayed
  pub to_server : List (List ℕ)

-- `n` bytes from `i`: the std::memcpy.
unfoldable pub bytes_from : Memory → ℕ → ℕ → List ℕ
bytes_from m i zero = []
bytes_from m i (suc n) = m i ∷ bytes_from m (i + 1) n

-- The copy that is sent on, of CRosePacket::size bytes.
abbrev pub copy_of : Memory → List ℕ
copy_of buffer = bytes_from buffer 0 (load16 buffer 0)

-- HandlePacket: what the player sends.
unfoldable pub handle_packet : Memory → NodeClient → Bool × NodeClient
handle_packet buffer c = (true, record c { to_server = c.to_server ++ copy_of buffer ∷ [] })

-- The address and the port are those of the settings.
unfoldable pub server_select_reply : List ℕ → ℕ → SrvSrvSelectReply → NodeClient → Bool × NodeClient
server_select_reply ip client_port r c = (
  true,
  record c {
    to_client = c.to_client ++ srv_select_reply (record r { ip = ip; port = client_port }) ∷ [];
  },
)

-- HandleServerPacket: what the server sends. `none` is a failed throw_assert.
unfoldable pub handle_server_packet :
    List ℕ → ℕ → Memory → Memory → NodeClient → Option (Bool × NodeClient)
handle_server_packet ip client_port garbage buffer c =
    let forwarded : Option (Bool × NodeClient) =
      some (true, record c { to_client = c.to_client ++ copied (copy_of buffer) ∷ [] }) in
    if load16 buffer 2 == 0x70a
    then elim (packet_of_buffer garbage buffer) [
      | none ↦ none
      | some p ↦ elim (unpack_srv_srv_select_reply p) [
        | none ↦ none
        | some r ↦ some (server_select_reply ip client_port r c)
      ]
    ]
    else forwarded

-- NodeISC::ServerRegister
unfoldable pub server_register : IscServerRegister → LoginIsc → Bool × LoginIsc
server_register p s =
    let channel : Channel = record {
      channel_name = p.name;
      channel_id = p.id % 2 ^ 16;
      min_right = p.right;
    } in
    let char_server : LoginIsc = record s {
      server_name = p.name;
      address = p.addr;
      port = p.port % 2 ^ 16;
      min_right = p.right;
      type_ = p.server_type;
    } in
    let map_server : LoginIsc = record s {
      channel_list = channel ∷ s.channel_list;
      channel_count = (s.channel_count + 1) % 2 ^ 32;
    } in
    if p.server_type == char_type
    then (true, char_server)
    else if p.server_type == map_master_type
    then (true, map_server)
    else (true, s)

-- NodeISC::ServerShutdown
unfoldable pub server_shutdown : IscShutdown → LoginIsc → Bool × LoginIsc
unfolding remove_channel
server_shutdown p s = (true, record s { channel_list = remove_channel p.id s.channel_list })
