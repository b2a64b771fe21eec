-- ===== src/Messages/World.antt =====
-- Packet classes: the requests of the map server about the world (src/rosecommon/include/packets, src/rosecommon/src/packets).
-- A float, an enum and a signed number are their bit patterns. `none` is a failed throw_assert.
use os_irose_new.Common.{ℕ, ◌∷◌, [], ◌≡◌, refl, List, Option, some, map, ◌==◌}
use os_irose_new.Packet.{CRosePacket, Field, num8, num16, num32, k8, k16, k32, read_fields}
use os_irose_new.Packet.Transfer.{kind}
use os_irose_new.Messages.Fields.{asserted, num_at}

pub record CliChangeMapReq : Type 0 where
  pub weight_rate : ℕ
  pub z : ℕ

unfoldable pub pack_cli_change_map_req : CliChangeMapReq → List Field
pack_cli_change_map_req r = num8 r.weight_rate ∷ num16 r.z ∷ []

unfoldable pub unpack_cli_change_map_req : CRosePacket → Option CliChangeMapReq
unpack_cli_change_map_req p =
    let fs = (read_fields (k8 ∷ k16 ∷ []) p).0 in
    asserted (p.packet_type == 0x753) (record { weight_rate = num_at fs 0; z = num_at fs 1 })

pub unpack-pack_cli_change_map_req :
    (p : CRosePacket) (r : CliChangeMapReq)
    → p.packet_type ≡ 0x753
    → (read_fields (map kind (pack_cli_change_map_req r)) p).0 ≡ pack_cli_change_map_req r
    → unpack_cli_change_map_req p ≡ some r
unfolding pack_cli_change_map_req unpack_cli_change_map_req
unpack-pack_cli_change_map_req p r t e = rw e (rw t refl)

pub record CliDropItem : Type 0 where
  pub item : ℕ
  pub quantity : ℕ

unfoldable pub pack_cli_drop_item : CliDropItem → List Field
pack_cli_drop_item r = num8 r.item ∷ num32 r.quantity ∷ []

unfoldable pub unpack_cli_drop_item : CRosePacket → Option CliDropItem
unpack_cli_drop_item p =
    let fs = (read_fields (k8 ∷ k32 ∷ []) p).0 in
    asserted (p.packet_type == 0x7a4) (record { item = num_at fs 0; quantity = num_at fs 1 })

pub unpack-pack_cli_drop_item :
    (p : CRosePacket) (r : CliDropItem)
    → p.packet_type ≡ 0x7a4
    → (read_fields (map kind (pack_cli_drop_item r)) p).0 ≡ pack_cli_drop_item r
    → unpack_cli_drop_item p ≡ some r
unfolding pack_cli_drop_item unpack_cli_drop_item
unpack-pack_cli_drop_item p r t e = rw e (rw t refl)

pub record CliEquipItem : Type 0 where
  pub slot_to : ℕ
  pub slot_from : ℕ

unfoldable pub pack_cli_equip_item : CliEquipItem → List Field
pack_cli_equip_item r = num16 r.slot_to ∷ num16 r.slot_from ∷ []

unfoldable pub unpack_cli_equip_item : CRosePacket → Option CliEquipItem
unpack_cli_equip_item p =
    let fs = (read_fields (k16 ∷ k16 ∷ []) p).0 in
    asserted (p.packet_type == 0x7a5) (record { slot_to = num_at fs 0; slot_from = num_at fs 1 })

pub unpack-pack_cli_equip_item :
    (p : CRosePacket) (r : CliEquipItem)
    → p.packet_type ≡ 0x7a5
    → (read_fields (map kind (pack_cli_equip_item r)) p).0 ≡ pack_cli_equip_item r
    → unpack_cli_equip_item p ≡ some r
unfolding pack_cli_equip_item unpack_cli_equip_item
unpack-pack_cli_equip_item p r t e = rw e (rw t refl)

pub record CliMouseCmd : Type 0 where
  pub target_id : ℕ
  pub x : ℕ
  pub y : ℕ
  pub z : ℕ

unfoldable pub pack_cli_mouse_cmd : CliMouseCmd → List Field
pack_cli_mouse_cmd r = num16 r.target_id ∷ num32 r.x ∷ num32 r.y ∷ num16 r.z ∷ []

unfoldable pub unpack_cli_mouse_cmd : CRosePacket → Option CliMouseCmd
unpack_cli_mouse_cmd p =
    let fs = (read_fields (k16 ∷ k32 ∷ k32 ∷ k16 ∷ []) p).0 in
    asserted (p.packet_type == 0x79a)
      (record { target_id = num_at fs 0; x = num_at fs 1; y = num_at fs 2; z = num_at fs 3 })

pub unpack-pack_cli_mouse_cmd :
    (p : CRosePacket) (r : CliMouseCmd)
    → p.packet_type ≡ 0x79a
    → (read_fields (map kind (pack_cli_mouse_cmd r)) p).0 ≡ pack_cli_mouse_cmd r
    → unpack_cli_mouse_cmd p ≡ some r
unfolding pack_cli_mouse_cmd unpack_cli_mouse_cmd
unpack-pack_cli_mouse_cmd p r t e = rw e (rw t refl)

pub record CliReviveReq : Type 0 where
  pub revive_type : ℕ

unfoldable pub pack_cli_revive_req : CliReviveReq → List Field
pack_cli_revive_req r = num8 r.revive_type ∷ []

unfoldable pub unpack_cli_revive_req : CRosePacket → Option CliReviveReq
unpack_cli_revive_req p =
    let fs = (read_fields (k8 ∷ []) p).0 in
    asserted (p.packet_type == 0x755) (record { revive_type = num_at fs 0 })

pub unpack-pack_cli_revive_req :
    (p : CRosePacket) (r : CliReviveReq)
    → p.packet_type ≡ 0x755
    → (read_fields (map kind (pack_cli_revive_req r)) p).0 ≡ pack_cli_revive_req r
    → unpack_cli_revive_req p ≡ some r
unfolding pack_cli_revive_req unpack_cli_revive_req
unpack-pack_cli_revive_req p r t e = rw e (rw t refl)

pub record CliStop : Type 0 where
  pub x : ℕ
  pub y : ℕ

unfoldable pub pack_cli_stop : CliStop → List Field
pack_cli_stop r = num32 r.x ∷ num32 r.y ∷ []

unfoldable pub unpack_cli_stop : CRosePacket → Option CliStop
unpack_cli_stop p =
    let fs = (read_fields (k32 ∷ k32 ∷ []) p).0 in
    asserted (p.packet_type == 0x796) (record { x = num_at fs 0; y = num_at fs 1 })

pub unpack-pack_cli_stop :
    (p : CRosePacket) (r : CliStop)
    → p.packet_type ≡ 0x796
    → (read_fields (map kind (pack_cli_stop r)) p).0 ≡ pack_cli_stop r
    → unpack_cli_stop p ≡ some r
unfolding pack_cli_stop unpack_cli_stop
unpack-pack_cli_stop p r t e = rw e (rw t refl)

pub record CliStopMoving : Type 0 where
  pub x : ℕ
  pub y : ℕ
  pub z : ℕ

unfoldable pub pack_cli_stop_moving : CliStopMoving → List Field
pack_cli_stop_moving r = num32 r.x ∷ num32 r.y ∷ num16 r.z ∷ []

unfoldable pub unpack_cli_stop_moving : CRosePacket → Option CliStopMoving
unpack_cli_stop_moving p =
    let fs = (read_fields (k32 ∷ k32 ∷ k16 ∷ []) p).0 in
    asserted (p.packet_type == 0x771) (record { x = num_at fs 0; y = num_at fs 1; z = num_at fs 2 })

pub unpack-pack_cli_stop_moving :
    (p : CRosePacket) (r : CliStopMoving)
    → p.packet_type ≡ 0x771
    → (read_fields (map kind (pack_cli_stop_moving r)) p).0 ≡ pack_cli_stop_moving r
    → unpack_cli_stop_moving p ≡ some r
unfolding pack_cli_stop_moving unpack_cli_stop_moving
unpack-pack_cli_stop_moving p r t e = rw e (rw t refl)
