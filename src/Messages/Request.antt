-- ===== src/Messages/Request.antt =====
-- fetchPacket (src/rosecommon/include/packetfactory.h) over Core::Factory (src/core/include/factory.h): the class
-- that is registered for the type in the buffer reads it. `none` is a null pointer, or what throws.
use os_irose_new.Common.{
  ℕ, ◌∷◌, [], ◌≡◌, ◌<◌, ◌^◌, arith, refl, List, Option, none, some, ◌==◌, if◌then◌else◌,
}
use os_irose_new.Common.Memory.{Memory, load16}
use os_irose_new.Packet.{CRosePacket, Field, packet_of_buffer}
use os_irose_new.Packet.Transfer.{Received}
use os_irose_new.Messages.Fields.{asserted, IsPassword}
use os_irose_new.Messages.Account.{
  CliChannelListReq, pack_cli_channel_list_req, unpack_cli_channel_list_req,
  unpack-pack_cli_channel_list_req, CliLoginReq, pack_cli_login_req, unpack_cli_login_req,
  unpack-pack_cli_login_req, CliSrvSelectReq, pack_cli_srv_select_req, unpack_cli_srv_select_req,
  unpack-pack_cli_srv_select_req, CliJoinServerReq, pack_cli_join_server_req,
  unpack_cli_join_server_req, unpack-pack_cli_join_server_req, CliScreenShotTimeReq,
  pack_cli_screen_shot_time_req, unpack_cli_screen_shot_time_req,
  unpack-pack_cli_screen_shot_time_req,
}
use os_irose_new.Messages.Char.{
  CliCreateCharReq, pack_cli_create_char_req, unpack_cli_create_char_req,
  unpack-pack_cli_create_char_req, CliDeleteCharReq, pack_cli_delete_char_req,
  unpack_cli_delete_char_req, unpack-pack_cli_delete_char_req, CliSelectCharReq,
  pack_cli_select_char_req, unpack_cli_select_char_req, unpack-pack_cli_select_char_req,
}
use os_irose_new.Messages.World.{
  CliChangeMapReq, pack_cli_change_map_req, unpack_cli_change_map_req,
  unpack-pack_cli_change_map_req, CliDropItem, pack_cli_drop_item, unpack_cli_drop_item,
  unpack-pack_cli_drop_item, CliEquipItem, pack_cli_equip_item, unpack_cli_equip_item,
  unpack-pack_cli_equip_item, CliMouseCmd, pack_cli_mouse_cmd, unpack_cli_mouse_cmd,
  unpack-pack_cli_mouse_cmd, CliReviveReq, pack_cli_revive_req, unpack_cli_revive_req,
  unpack-pack_cli_revive_req, CliStop, pack_cli_stop, unpack_cli_stop, unpack-pack_cli_stop,
  CliStopMoving, pack_cli_stop_moving, unpack_cli_stop_moving, unpack-pack_cli_stop_moving,
}
use os_irose_new.Messages.Social.{
  CliNormalChat, pack_cli_normal_chat, unpack_cli_normal_chat, unpack-pack_cli_normal_chat,
  CliWhisperChat, pack_cli_whisper_chat, unpack_cli_whisper_chat, unpack-pack_cli_whisper_chat,
  CliPartyChat, pack_cli_party_chat, unpack_cli_party_chat, unpack-pack_cli_party_chat, CliPartyReq,
  pack_cli_party_req, unpack_cli_party_req, unpack-pack_cli_party_req, CliPartyReply,
  pack_cli_party_reply, unpack_cli_party_reply, unpack-pack_cli_party_reply,
}
use os_irose_new.Messages.Isc.{
  IscServerRegister, pack_isc_server_register, unpack_isc_server_register,
  unpack-pack_isc_server_register, IscShutdown, pack_isc_shutdown, unpack_isc_shutdown,
  unpack-pack_isc_shutdown,
}

-- An instance of one of the classes that REGISTER_RECV_PACKET names.
pub data Request : Type 0 where
  cli_accept_req : Request
  cli_channel_list_req : CliChannelListReq → Request
  cli_login_req : CliLoginReq → Request
  cli_srv_select_req : CliSrvSelectReq → Request
  cli_join_server_req : CliJoinServerReq → Request
  cli_screen_shot_time_req : CliScreenShotTimeReq → Request
  cli_alive : Request
  cli_logout_req : Request
  cli_char_list_req : Request
  cli_create_char_req : CliCreateCharReq → Request
  cli_delete_char_req : CliDeleteCharReq → Request
  cli_select_char_req : CliSelectCharReq → Request
  cli_change_map_req : CliChangeMapReq → Request
  cli_drop_item : CliDropItem → Request
  cli_equip_item : CliEquipItem → Request
  cli_mouse_cmd : CliMouseCmd → Request
  cli_revive_req : CliReviveReq → Request
  cli_stop : CliStop → Request
  cli_stop_moving : CliStopMoving → Request
  cli_normal_chat : CliNormalChat → Request
  cli_whisper_chat : CliWhisperChat → Request
  cli_party_chat : CliPartyChat → Request
  cli_party_req : CliPartyReq → Request
  cli_party_reply : CliPartyReply → Request
  isc_server_register : IscServerRegister → Request
  isc_shutdown : IscShutdown → Request

-- What the constructor passes to CRosePacket.
unfoldable pub type_of : Request → ℕ
type_of cli_accept_req = 0x703
type_of (cli_channel_list_req r) = 0x704
type_of (cli_login_req r) = 0x708
type_of (cli_srv_select_req r) = 0x70a
type_of (cli_join_server_req r) = 0x70b
type_of (cli_screen_shot_time_req r) = 0x7eb
type_of cli_alive = 0x700
type_of cli_logout_req = 0x707
type_of cli_char_list_req = 0x712
type_of (cli_create_char_req r) = 0x713
type_of (cli_delete_char_req r) = 0x714
type_of (cli_select_char_req r) = 0x715
type_of (cli_change_map_req r) = 0x753
type_of (cli_drop_item r) = 0x7a4
type_of (cli_equip_item r) = 0x7a5
type_of (cli_mouse_cmd r) = 0x79a
type_of (cli_revive_req r) = 0x755
type_of (cli_stop r) = 0x796
type_of (cli_stop_moving r) = 0x771
type_of (cli_normal_chat r) = 0x783
type_of (cli_whisper_chat r) = 0x784
type_of (cli_party_chat r) = 0x786
type_of (cli_party_req r) = 0x7d0
type_of (cli_party_reply r) = 0x7d1
type_of (isc_server_register r) = 0x303
type_of (isc_shutdown r) = 0x305

-- The virtual function pack.
unfoldable pub pack : Request → List Field
unfolding pack_cli_channel_list_req pack_cli_login_req pack_cli_srv_select_req
    pack_cli_join_server_req pack_cli_screen_shot_time_req pack_cli_create_char_req
    pack_cli_delete_char_req pack_cli_select_char_req pack_cli_change_map_req pack_cli_drop_item
    pack_cli_equip_item pack_cli_mouse_cmd pack_cli_revive_req pack_cli_stop pack_cli_stop_moving
    pack_cli_normal_chat pack_cli_whisper_chat pack_cli_party_chat pack_cli_party_req
    pack_cli_party_reply pack_isc_server_register pack_isc_shutdown
pack cli_accept_req = []
pack (cli_channel_list_req r) = pack_cli_channel_list_req r
pack (cli_login_req r) = pack_cli_login_req r
pack (cli_srv_select_req r) = pack_cli_srv_select_req r
pack (cli_join_server_req r) = pack_cli_join_server_req r
pack (cli_screen_shot_time_req r) = pack_cli_screen_shot_time_req r
pack cli_alive = []
pack cli_logout_req = []
pack cli_char_list_req = []
pack (cli_create_char_req r) = pack_cli_create_char_req r
pack (cli_delete_char_req r) = pack_cli_delete_char_req r
pack (cli_select_char_req r) = pack_cli_select_char_req r
pack (cli_change_map_req r) = pack_cli_change_map_req r
pack (cli_drop_item r) = pack_cli_drop_item r
pack (cli_equip_item r) = pack_cli_equip_item r
pack (cli_mouse_cmd r) = pack_cli_mouse_cmd r
pack (cli_revive_req r) = pack_cli_revive_req r
pack (cli_stop r) = pack_cli_stop r
pack (cli_stop_moving r) = pack_cli_stop_moving r
pack (cli_normal_chat r) = pack_cli_normal_chat r
pack (cli_whisper_chat r) = pack_cli_whisper_chat r
pack (cli_party_chat r) = pack_cli_party_chat r
pack (cli_party_req r) = pack_cli_party_req r
pack (cli_party_reply r) = pack_cli_party_reply r
pack (isc_server_register r) = pack_isc_server_register r
pack (isc_shutdown r) = pack_isc_shutdown r

abbrev pub Creator : Type 0
Creator = Memory → Memory → Option Request

module _ {ℓ} {A : Type ℓ} where
  wrapped : (A → Request) → Option A → Option Request
  wrapped wrap none = none
  wrapped wrap (some a) = some (wrap a)

  unpacked : (CRosePacket → Option A) → (A → Request) → Option CRosePacket → Option Request
  unfolding wrapped
  unpacked unpack wrap none = none
  unpacked unpack wrap (some p) = wrapped wrap (unpack p)

  -- createPacket<T>
  unfoldable pub create_packet : (CRosePacket → Option A) → (A → Request) → Creator
  unfolding unpacked
  create_packet unpack wrap garbage b = unpacked unpack wrap (packet_of_buffer garbage b)

-- A class without members: its constructor only asserts the type.
unfoldable pub unpack_empty : ℕ → Request → CRosePacket → Option Request
unpack_empty key r p = asserted (p.packet_type == key) r

-- The initialisers, one per REGISTER_RECV_PACKET.
abbrev pub associations : List (ℕ × Creator)
associations =
    (0x703, create_packet (unpack_empty 0x703 cli_accept_req) (λ r. r))
    ∷ (0x704, create_packet unpack_cli_channel_list_req cli_channel_list_req)
    ∷ (0x708, create_packet unpack_cli_login_req cli_login_req)
    ∷ (0x70a, create_packet unpack_cli_srv_select_req cli_srv_select_req)
    ∷ (0x70b, create_packet unpack_cli_join_server_req cli_join_server_req)
    ∷ (0x7eb, create_packet unpack_cli_screen_shot_time_req cli_screen_shot_time_req)
    ∷ (0x700, create_packet (unpack_empty 0x700 cli_alive) (λ r. r))
    ∷ (0x707, create_packet (unpack_empty 0x707 cli_logout_req) (λ r. r))
    ∷ (0x712, create_packet (unpack_empty 0x712 cli_char_list_req) (λ r. r))
    ∷ (0x713, create_packet unpack_cli_create_char_req cli_create_char_req)
    ∷ (0x714, create_packet unpack_cli_delete_char_req cli_delete_char_req)
    ∷ (0x715, create_packet unpack_cli_select_char_req cli_select_char_req)
    ∷ (0x753, create_packet unpack_cli_change_map_req cli_change_map_req)
    ∷ (0x7a4, create_packet unpack_cli_drop_item cli_drop_item)
    ∷ (0x7a5, create_packet unpack_cli_equip_item cli_equip_item)
    ∷ (0x79a, create_packet unpack_cli_mouse_cmd cli_mouse_cmd)
    ∷ (0x755, create_packet unpack_cli_revive_req cli_revive_req)
    ∷ (0x796, create_packet unpack_cli_stop cli_stop)
    ∷ (0x771, create_packet unpack_cli_stop_moving cli_stop_moving)
    ∷ (0x783, create_packet unpack_cli_normal_chat cli_normal_chat)
    ∷ (0x784, create_packet unpack_cli_whisper_chat cli_whisper_chat)
    ∷ (0x786, create_packet unpack_cli_party_chat cli_party_chat)
    ∷ (0x7d0, create_packet unpack_cli_party_req cli_party_req)
    ∷ (0x7d1, create_packet unpack_cli_party_reply cli_party_reply)
    ∷ (0x303, create_packet unpack_isc_server_register isc_server_register)
    ∷ (0x305, create_packet unpack_isc_shutdown isc_shutdown)
    ∷ []

-- Factory::create, which returns ReturnType{} for an unknown key.
unfoldable pub create : List (ℕ × Creator) → ℕ → Creator
create [] key garbage b = none
create (a ∷ rest) key garbage b =
    let later = create rest key garbage b in if a.0 == key then a.1 garbage b else later

unfoldable pub fetch_packet : Creator
unfolding create
fetch_packet garbage b = create associations (load16 b 2) garbage b

-- The passwords are of 32 characters.
abbrev pub HasPassword : Request → Type 0
HasPassword cli_accept_req = Unit {0}
HasPassword (cli_channel_list_req r) = Unit {0}
HasPassword (cli_login_req r) = IsPassword r.password
HasPassword (cli_srv_select_req r) = Unit {0}
HasPassword (cli_join_server_req r) = IsPassword r.password
HasPassword (cli_screen_shot_time_req r) = Unit {0}
HasPassword cli_alive = Unit {0}
HasPassword cli_logout_req = Unit {0}
HasPassword cli_char_list_req = Unit {0}
HasPassword (cli_create_char_req r) = Unit {0}
HasPassword (cli_delete_char_req r) = Unit {0}
HasPassword (cli_select_char_req r) = Unit {0}
HasPassword (cli_change_map_req r) = Unit {0}
HasPassword (cli_drop_item r) = Unit {0}
HasPassword (cli_equip_item r) = Unit {0}
HasPassword (cli_mouse_cmd r) = Unit {0}
HasPassword (cli_revive_req r) = Unit {0}
HasPassword (cli_stop r) = Unit {0}
HasPassword (cli_stop_moving r) = Unit {0}
HasPassword (cli_normal_chat r) = Unit {0}
HasPassword (cli_whisper_chat r) = Unit {0}
HasPassword (cli_party_chat r) = Unit {0}
HasPassword (cli_party_req r) = Unit {0}
HasPassword (cli_party_reply r) = Unit {0}
HasPassword (isc_server_register r) = Unit {0}
HasPassword (isc_shutdown r) = Unit {0}

-- A buffer that carries the type of a request, and is received with its type and its fields, is fetched
-- as that request, if its password has 32 characters and no 0.
pub fetch_packet-Received :
    (garbage b : Memory) (size : ℕ) (r : Request)
    → HasPassword r
    → load16 b 2 ≡ type_of r
    → Received b garbage (type_of r) size (pack r)
    → fetch_packet garbage b ≡ some r
unfolding fetch_packet type_of create_packet unpack_empty pack
fetch_packet-Received garbage b size cli_accept_req v t c = rw (t, c.accepted, c.its_type) refl
fetch_packet-Received garbage b size (cli_channel_list_req r) v t c =
    rw (t, c.accepted, unpack-pack_cli_channel_list_req c.packet r c.its_type c.its_fields) refl
fetch_packet-Received garbage b size (cli_login_req r) v t c =
    rw (t, c.accepted, unpack-pack_cli_login_req c.packet r c.its_type v c.its_fields) refl
fetch_packet-Received garbage b size (cli_srv_select_req r) v t c =
    rw (t, c.accepted, unpack-pack_cli_srv_select_req c.packet r c.its_type c.its_fields) refl
fetch_packet-Received garbage b size (cli_join_server_req r) v t c =
    rw (t, c.accepted, unpack-pack_cli_join_server_req c.packet r c.its_type v c.its_fields) refl
fetch_packet-Received garbage b size (cli_screen_shot_time_req r) v t c =
    rw (t, c.accepted, unpack-pack_cli_screen_shot_time_req c.packet r c.its_type c.its_fields) refl
fetch_packet-Received garbage b size cli_alive v t c = rw (t, c.accepted, c.its_type) refl
fetch_packet-Received garbage b size cli_logout_req v t c = rw (t, c.accepted, c.its_type) refl
fetch_packet-Received garbage b size cli_char_list_req v t c = rw (t, c.accepted, c.its_type) refl
fetch_packet-Received garbage b size (cli_create_char_req r) v t c =
    rw (t, c.accepted, unpack-pack_cli_create_char_req c.packet r c.its_type c.its_fields) refl
fetch_packet-Received garbage b size (cli_delete_char_req r) v t c =
    rw (t, c.accepted, unpack-pack_cli_delete_char_req c.packet r c.its_type c.its_fields) refl
fetch_packet-Received garbage b size (cli_select_char_req r) v t c =
    rw (t, c.accepted, unpack-pack_cli_select_char_req c.packet r c.its_type c.its_fields) refl
fetch_packet-Received garbage b size (cli_change_map_req r) v t c =
    rw (t, c.accepted, unpack-pack_cli_change_map_req c.packet r c.its_type c.its_fields) refl
fetch_packet-Received garbage b size (cli_drop_item r) v t c =
    rw (t, c.accepted, unpack-pack_cli_drop_item c.packet r c.its_type c.its_fields) refl
fetch_packet-Received garbage b size (cli_equip_item r) v t c =
    rw (t, c.accepted, unpack-pack_cli_equip_item c.packet r c.its_type c.its_fields) refl
fetch_packet-Received garbage b size (cli_mouse_cmd r) v t c =
    rw (t, c.accepted, unpack-pack_cli_mouse_cmd c.packet r c.its_type c.its_fields) refl
fetch_packet-Received garbage b size (cli_revive_req r) v t c =
    rw (t, c.accepted, unpack-pack_cli_revive_req c.packet r c.its_type c.its_fields) refl
fetch_packet-Received garbage b size (cli_stop r) v t c =
    rw (t, c.accepted, unpack-pack_cli_stop c.packet r c.its_type c.its_fields) refl
fetch_packet-Received garbage b size (cli_stop_moving r) v t c =
    rw (t, c.accepted, unpack-pack_cli_stop_moving c.packet r c.its_type c.its_fields) refl
fetch_packet-Received garbage b size (cli_normal_chat r) v t c =
    rw (t, c.accepted, unpack-pack_cli_normal_chat c.packet r c.its_type c.its_fields) refl
fetch_packet-Received garbage b size (cli_whisper_chat r) v t c =
    rw (t, c.accepted, unpack-pack_cli_whisper_chat c.packet r c.its_type c.its_fields) refl
fetch_packet-Received garbage b size (cli_party_chat r) v t c =
    rw (t, c.accepted, unpack-pack_cli_party_chat c.packet r c.its_type c.its_fields) refl
fetch_packet-Received garbage b size (cli_party_req r) v t c =
    rw (t, c.accepted, unpack-pack_cli_party_req c.packet r c.its_type c.its_fields) refl
fetch_packet-Received garbage b size (cli_party_reply r) v t c =
    rw (t, c.accepted, unpack-pack_cli_party_reply c.packet r c.its_type c.its_fields) refl
fetch_packet-Received garbage b size (isc_server_register r) v t c =
    rw (t, c.accepted, unpack-pack_isc_server_register c.packet r c.its_type c.its_fields) refl
fetch_packet-Received garbage b size (isc_shutdown r) v t c =
    rw (t, c.accepted, unpack-pack_isc_shutdown c.packet r c.its_type c.its_fields) refl

-- Every type fits the eleven bits of the enciphered header.
pub type_of-lt : (r : Request) → type_of r < 2 ^ 11
unfolding type_of
type_of-lt cli_accept_req = omega arith
type_of-lt (cli_channel_list_req r) = omega arith
type_of-lt (cli_login_req r) = omega arith
type_of-lt (cli_srv_select_req r) = omega arith
type_of-lt (cli_join_server_req r) = omega arith
type_of-lt (cli_screen_shot_time_req r) = omega arith
type_of-lt cli_alive = omega arith
type_of-lt cli_logout_req = omega arith
type_of-lt cli_char_list_req = omega arith
type_of-lt (cli_create_char_req r) = omega arith
type_of-lt (cli_delete_char_req r) = omega arith
type_of-lt (cli_select_char_req r) = omega arith
type_of-lt (cli_change_map_req r) = omega arith
type_of-lt (cli_drop_item r) = omega arith
type_of-lt (cli_equip_item r) = omega arith
type_of-lt (cli_mouse_cmd r) = omega arith
type_of-lt (cli_revive_req r) = omega arith
type_of-lt (cli_stop r) = omega arith
type_of-lt (cli_stop_moving r) = omega arith
type_of-lt (cli_normal_chat r) = omega arith
type_of-lt (cli_whisper_chat r) = omega arith
type_of-lt (cli_party_chat r) = omega arith
type_of-lt (cli_party_req r) = omega arith
type_of-lt (cli_party_reply r) = omega arith
type_of-lt (isc_server_register r) = omega arith
type_of-lt (isc_shutdown r) = omega arith
