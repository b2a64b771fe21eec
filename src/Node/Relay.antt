-- ===== src/Node/Relay.antt =====
-- What passes through the node server.
use os_irose_new.Common.{
  ℕ, ◌+◌, ◌≡◌, refl, ap, sym, ◌∙◌, true, List, [], ◌∷◌, ◌++◌, some, map, arith,
}
use os_irose_new.Common.Memory.{Memory, load16}
use mathlib.Core.List.{append-nil, append_assoc}
use os_irose_new.Common.{length, ◌<◌}
use os_irose_new.Common.Memory.{IsBytes}
use os_irose_new.Packet.{max_packet_size}
use os_irose_new.Packet.Invariant.{encode_all}
use os_irose_new.Packet.Keeps.{HaveBytes}
use os_irose_new.Packet.Transfer.{AreFields, Carries, Received, receive}
use os_irose_new.Crypt.Codec.{Table}
use os_irose_new.Messages.Replies.{
  SrvSrvSelectReply, pack_srv_srv_select_reply, unpack-pack_srv_srv_select_reply,
}
use os_irose_new.Delivery.{packed, server-Carries, from_server}
use os_irose_new.Node.{
  srv_select_reply, server_select_reply, NodeClient, copy_of, handle_packet, handle_server_packet,
}

-- The calls of HandlePacket, one after the other.
abbrev pub handle_all : List Memory → NodeClient → NodeClient
handle_all [] c = c
handle_all (buffer ∷ buffers) c = handle_all buffers (handle_packet buffer c).1

-- The server gets a copy of every packet of the player, in their order, and the player nothing.
pub handle_all-relays :
    (buffers : List Memory) (c : NodeClient)
    → handle_all buffers c ≡ record c { to_server = c.to_server ++ map copy_of buffers }
unfolding handle_packet
handle_all-relays [] c =
    ap (λ (xs : List (List ℕ)). record c { to_server = xs }) (sym (append-nil c.to_server))
handle_all-relays (buffer ∷ buffers) c =
    handle_all-relays buffers (handle_packet buffer c).1
    ∙ ap (λ (xs : List (List ℕ)). record c { to_server = xs })
        (append_assoc c.to_server (copy_of buffer ∷ []) (map copy_of buffers))

redirects_received :
    (garbage b : Memory) (size : ℕ) (ip : List ℕ) (client_port : ℕ) (r : SrvSrvSelectReply)
    (c : NodeClient)
    → load16 b 2 ≡ 0x70a
    → Received b garbage 0x70a size (pack_srv_srv_select_reply r)
    → handle_server_packet ip client_port garbage b c
      ≡ some (
        true,
        record c {
          to_client =
              c.to_client ++ srv_select_reply (record r { ip = ip; port = client_port }) ∷ [];
        },
      )
unfolding handle_server_packet server_select_reply
redirects_received garbage b size ip client_port r c t got =
    rw (t, got.accepted, unpack-pack_srv_srv_select_reply got.packet r got.its_type got.its_fields)
      refl

-- A reply to the choice of a server, as a server packs, enciphers and sends it: what the node deciphers goes to the
-- player as the same reply, but for the address and the port, which are those of the node's settings. Its members fit
-- their types, its text holds no 0, and the packet fits the buffer.
pub handle_server_packet-from_server :
    (rt : Table) (garbage garbage' : Memory) (ip : List ℕ) (client_port : ℕ) (r : SrvSrvSelectReply)
    (c : NodeClient)
    → IsBytes garbage
    → AreFields (pack_srv_srv_select_reply r)
    → HaveBytes (pack_srv_srv_select_reply r)
    → 6 + length (encode_all (pack_srv_srv_select_reply r)) < max_packet_size
    → handle_server_packet ip client_port garbage'
        (from_server rt (packed garbage 0x70a (pack_srv_srv_select_reply r))).1.1
        c
      ≡ some (
        true,
        record c {
          to_client =
              c.to_client ++ srv_select_reply (record r { ip = ip; port = client_port }) ∷ [];
        },
      )
handle_server_packet-from_server rt garbage garbage' ip client_port r c v fields bytes fits =
    let there : Carries (from_server rt (packed garbage 0x70a (pack_srv_srv_select_reply r))).1.1
        0x70a (pack_srv_srv_select_reply r) =
      (server-Carries rt garbage 0x70a (pack_srv_srv_select_reply r) v (omega arith) bytes
        fits).2 in
    redirects_received garbage'
      (from_server rt (packed garbage 0x70a (pack_srv_srv_select_reply r))).1.1
      (6 + length (encode_all (pack_srv_srv_select_reply r))) ip client_port r c there.type_bytes
      (receive garbage' (from_server rt (packed garbage 0x70a (pack_srv_srv_select_reply r))).1.1
        0x70a (pack_srv_srv_select_reply r) fields there fits)
