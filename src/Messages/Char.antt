-- ===== src/Messages/Char.antt =====
-- Packet classes: the requests of the character server (src/rosecommon/include/packets, src/rosecommon/src/packets).
-- A float, an enum and a signed number are their bit patterns. `none` is a failed throw_assert.
use os_irose_new.Common.{ℕ, ◌∷◌, [], ◌≡◌, refl, List, Option, some, map, ◌==◌}
use os_irose_new.Packet.{CRosePacket, Field, num8, num16, text, k8, k16, k_text, read_fields}
use os_irose_new.Packet.Transfer.{kind}
use os_irose_new.Messages.Fields.{asserted, num_at, chars_at}

pub record CliCreateCharReq : Type 0 where
  pub race : ℕ
  pub stone : ℕ
  pub hair : ℕ
  pub face : ℕ
  pub weapon : ℕ
  pub zone : ℕ
  pub name : List ℕ

unfoldable pub pack_cli_create_char_req : CliCreateCharReq → List Field
pack_cli_create_char_req r =
    num8 r.race
    ∷ num8 r.stone
    ∷ num8 r.hair
    ∷ num8 r.face
    ∷ num8 r.weapon
    ∷ num16 r.zone
    ∷ text r.name
    ∷ []

unfoldable pub unpack_cli_create_char_req : CRosePacket → Option CliCreateCharReq
unpack_cli_create_char_req p =
    let fs = (read_fields (k8 ∷ k8 ∷ k8 ∷ k8 ∷ k8 ∷ k16 ∷ k_text ∷ []) p).0 in
    asserted (p.packet_type == 0x713) (record {
      race = num_at fs 0;
      stone = num_at fs 1;
      hair = num_at fs 2;
      face = num_at fs 3;
      weapon = num_at fs 4;
      zone = num_at fs 5;
      name = chars_at fs 6;
    })

pub unpack-pack_cli_create_char_req :
    (p : CRosePacket) (r : CliCreateCharReq)
    → p.packet_type ≡ 0x713
    → (read_fields (map kind (pack_cli_create_char_req r)) p).0 ≡ pack_cli_create_char_req r
    → unpack_cli_create_char_req p ≡ some r
unfolding pack_cli_create_char_req unpack_cli_create_char_req
unpack-pack_cli_create_char_req p r t e = rw e (rw t refl)

pub record CliDeleteCharReq : Type 0 where
  pub char_id : ℕ
  pub is_delete : ℕ
  pub name : List ℕ

unfoldable pub pack_cli_delete_char_req : CliDeleteCharReq → List Field
pack_cli_delete_char_req r = num8 r.char_id ∷ num8 r.is_delete ∷ text r.name ∷ []

unfoldable pub unpack_cli_delete_char_req : CRosePacket → Option CliDeleteCharReq
unpack_cli_delete_char_req p =
    let fs = (read_fields (k8 ∷ k8 ∷ k_text ∷ []) p).0 in
    asserted (p.packet_type == 0x714)
      (record { char_id = num_at fs 0; is_delete = num_at fs 1; name = chars_at fs 2 })

pub unpack-pack_cli_delete_char_req :
    (p : CRosePacket) (r : CliDeleteCharReq)
    → p.packet_type ≡ 0x714
    → (read_fields (map kind (pack_cli_delete_char_req r)) p).0 ≡ pack_cli_delete_char_req r
    → unpack_cli_delete_char_req p ≡ some r
unfolding pack_cli_delete_char_req unpack_cli_delete_char_req
unpack-pack_cli_delete_char_req p r t e = rw e (rw t refl)

pub record CliSelectCharReq : Type 0 where
  pub char_id : ℕ
  pub run_mode : ℕ
  pub ride_mode : ℕ
  pub name : List ℕ

unfoldable pub pack_cli_select_char_req : CliSelectCharReq → List Field
pack_cli_select_char_req r = num8 r.char_id ∷ num8 r.run_mode ∷ num8 r.ride_mode ∷ text r.name ∷ []

unfoldable pub unpack_cli_select_char_req : CRosePacket → Option CliSelectCharReq
unpack_cli_select_char_req p =
    let fs = (read_fields (k8 ∷ k8 ∷ k8 ∷ k_text ∷ []) p).0 in
    asserted (p.packet_type == 0x715) (record {
      char_id = num_at fs 0;
      run_mode = num_at fs 1;
      ride_mode = num_at fs 2;
      name = chars_at fs 3;
    })

pub unpack-pack_cli_select_char_req :
    (p : CRosePacket) (r : CliSelectCharReq)
    → p.packet_type ≡ 0x715
    → (read_fields (map kind (pack_cli_select_char_req r)) p).0 ≡ pack_cli_select_char_req r
    → unpack_cli_select_char_req p ≡ some r
unfolding pack_cli_select_char_req unpack_cli_select_char_req
unpack-pack_cli_select_char_req p r t e = rw e (rw t refl)
