-- ===== src/Messages/Isc.antt =====
-- Packet classes: the packets that the servers send each other (src/rosecommon/include/packets, src/rosecommon/src/packets).
-- A float, an enum and a signed number are their bit patterns. `none` is a failed throw_assert.
use os_irose_new.Common.{ℕ, ◌∷◌, [], ◌≡◌, refl, List, Option, some, map, ◌==◌}
use os_irose_new.Packet.{CRosePacket, Field, num8, num32, text, k8, k32, k_text, read_fields}
use os_irose_new.Packet.Transfer.{kind}
use os_irose_new.Messages.Fields.{asserted, num_at, chars_at}

pub record IscServerRegister : Type 0 where
  pub server_type : ℕ
  pub name : List ℕ
  pub addr : List ℕ
  pub port : ℕ
  pub right : ℕ
  pub id : ℕ

unfoldable pub pack_isc_server_register : IscServerRegister → List Field
pack_isc_server_register r =
    num8 r.server_type ∷ text r.name ∷ text r.addr ∷ num32 r.port ∷ num32 r.right ∷ num32 r.id ∷ []

unfoldable pub unpack_isc_server_register : CRosePacket → Option IscServerRegister
unpack_isc_server_register p =
    let fs = (read_fields (k8 ∷ k_text ∷ k_text ∷ k32 ∷ k32 ∷ k32 ∷ []) p).0 in
    asserted (p.packet_type == 0x303) (record {
      server_type = num_at fs 0;
      name = chars_at fs 1;
      addr = chars_at fs 2;
      port = num_at fs 3;
      right = num_at fs 4;
      id = num_at fs 5;
    })

pub unpack-pack_isc_server_register :
    (p : CRosePacket) (r : IscServerRegister)
    → p.packet_type ≡ 0x303
    → (read_fields (map kind (pack_isc_server_register r)) p).0 ≡ pack_isc_server_register r
    → unpack_isc_server_register p ≡ some r
unfolding pack_isc_server_register unpack_isc_server_register
unpack-pack_isc_server_register p r t e = rw e (rw t refl)

pub record IscShutdown : Type 0 where
  pub server_type : ℕ
  pub id : ℕ

unfoldable pub pack_isc_shutdown : IscShutdown → List Field
pack_isc_shutdown r = num8 r.server_type ∷ num32 r.id ∷ []

unfoldable pub unpack_isc_shutdown : CRosePacket → Option IscShutdown
unpack_isc_shutdown p =
    let fs = (read_fields (k8 ∷ k32 ∷ []) p).0 in
    asserted (p.packet_type == 0x305) (record { server_type = num_at fs 0; id = num_at fs 1 })

pub unpack-pack_isc_shutdown :
    (p : CRosePacket) (r : IscShutdown)
    → p.packet_type ≡ 0x305
    → (read_fields (map kind (pack_isc_shutdown r)) p).0 ≡ pack_isc_shutdown r
    → unpack_isc_shutdown p ≡ some r
unfolding pack_isc_shutdown unpack_isc_shutdown
unpack-pack_isc_shutdown p r t e = rw e (rw t refl)
