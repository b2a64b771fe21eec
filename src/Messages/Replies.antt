-- ===== src/Messages/Replies.antt =====
-- Packet classes: replies whose fields are their own members (src/rosecommon/include/packets, src/rosecommon/src/packets).
-- A float, an enum and a signed number are their bit patterns. `none` is a failed throw_assert.
use os_irose_new.Common.{ℕ, ◌∷◌, [], ◌≡◌, refl, List, Option, some, map, ◌==◌}
use os_irose_new.Packet.{
  CRosePacket, Field, num8, num16, num32, text, k8, k16, k32, k_text, read_fields,
}
use os_irose_new.Packet.Transfer.{kind}
use os_irose_new.Messages.Fields.{asserted, num_at, chars_at}

pub record SrvAcceptReply : Type 0 where
  pub result : ℕ
  pub rand_value : ℕ

unfoldable pub pack_srv_accept_reply : SrvAcceptReply → List Field
pack_srv_accept_reply r = num8 r.result ∷ num32 r.rand_value ∷ []

unfoldable pub unpack_srv_accept_reply : CRosePacket → Option SrvAcceptReply
unpack_srv_accept_reply p =
    let fs = (read_fields (k8 ∷ k32 ∷ []) p).0 in
    asserted (p.packet_type == 0x7ff) (record { result = num_at fs 0; rand_value = num_at fs 1 })

pub unpack-pack_srv_accept_reply :
    (p : CRosePacket) (r : SrvAcceptReply)
    → p.packet_type ≡ 0x7ff
    → (read_fields (map kind (pack_srv_accept_reply r)) p).0 ≡ pack_srv_accept_reply r
    → unpack_srv_accept_reply p ≡ some r
unfolding pack_srv_accept_reply unpack_srv_accept_reply
unpack-pack_srv_accept_reply p r t e = rw e (rw t refl)

pub record SrvCreateCharReply : Type 0 where
  pub result : ℕ
  pub platinium : ℕ

unfoldable pub pack_srv_create_char_reply : SrvCreateCharReply → List Field
pack_srv_create_char_reply r = num8 r.result ∷ num8 r.platinium ∷ []

pub record SrvDeleteCharReply : Type 0 where
  pub remaining_time : ℕ
  pub name : List ℕ

unfoldable pub pack_srv_delete_char_reply : SrvDeleteCharReply → List Field
pack_srv_delete_char_reply r = num32 r.remaining_time ∷ text r.name ∷ []

pub record SrvInitData : Type 0 where
  pub rand_seed : ℕ
  pub rand_index : ℕ

unfoldable pub pack_srv_init_data : SrvInitData → List Field
pack_srv_init_data r = num32 r.rand_seed ∷ num16 r.rand_index ∷ []

pub record SrvJoinServerReply : Type 0 where
  pub result : ℕ
  pub id : ℕ
  pub pay_flag : ℕ

unfoldable pub pack_srv_join_server_reply : SrvJoinServerReply → List Field
pack_srv_join_server_reply r = num8 r.result ∷ num32 r.id ∷ num32 r.pay_flag ∷ []

unfoldable pub unpack_srv_join_server_reply : CRosePacket → Option SrvJoinServerReply
unpack_srv_join_server_reply p =
    let fs = (read_fields (k8 ∷ k32 ∷ k32 ∷ []) p).0 in
    asserted (p.packet_type == 0x70c)
      (record { result = num_at fs 0; id = num_at fs 1; pay_flag = num_at fs 2 })

pub unpack-pack_srv_join_server_reply :
    (p : CRosePacket) (r : SrvJoinServerReply)
    → p.packet_type ≡ 0x70c
    → (read_fields (map kind (pack_srv_join_server_reply r)) p).0 ≡ pack_srv_join_server_reply r
    → unpack_srv_join_server_reply p ≡ some r
unfolding pack_srv_join_server_reply unpack_srv_join_server_reply
unpack-pack_srv_join_server_reply p r t e = rw e (rw t refl)

pub record SrvLogoutReply : Type 0 where
  pub wait_time : ℕ

unfoldable pub pack_srv_logout_reply : SrvLogoutReply → List Field
pack_srv_logout_reply r = num16 r.wait_time ∷ []

pub record SrvReviveReply : Type 0 where
  pub map_id : ℕ

unfoldable pub pack_srv_revive_reply : SrvReviveReply → List Field
pack_srv_revive_reply r = num16 r.map_id ∷ []

pub record SrvScreenShotTimeReply : Type 0 where
  pub year : ℕ
  pub month : ℕ
  pub day : ℕ
  pub hour : ℕ
  pub min : ℕ

unfoldable pub pack_srv_screen_shot_time_reply : SrvScreenShotTimeReply → List Field
pack_srv_screen_shot_time_reply r =
    num16 r.year ∷ num8 r.month ∷ num8 r.day ∷ num8 r.hour ∷ num8 r.min ∷ []

pub record SrvSrvSelectReply : Type 0 where
  pub result : ℕ
  pub session_id : ℕ
  pub crypt_val : ℕ
  pub ip : List ℕ
  pub port : ℕ

unfoldable pub pack_srv_srv_select_reply : SrvSrvSelectReply → List Field
pack_srv_srv_select_reply r =
    num8 r.result ∷ num32 r.session_id ∷ num32 r.crypt_val ∷ text r.ip ∷ num16 r.port ∷ []

unfoldable pub unpack_srv_srv_select_reply : CRosePacket → Option SrvSrvSelectReply
unpack_srv_srv_select_reply p =
    let fs = (read_fields (k8 ∷ k32 ∷ k32 ∷ k_text ∷ k16 ∷ []) p).0 in
    asserted (p.packet_type == 0x70a) (record {
      result = num_at fs 0;
      session_id = num_at fs 1;
      crypt_val = num_at fs 2;
      ip = chars_at fs 3;
      port = num_at fs 4;
    })

pub unpack-pack_srv_srv_select_reply :
    (p : CRosePacket) (r : SrvSrvSelectReply)
    → p.packet_type ≡ 0x70a
    → (read_fields (map kind (pack_srv_srv_select_reply r)) p).0 ≡ pack_srv_srv_select_reply r
    → unpack_srv_srv_select_reply p ≡ some r
unfolding pack_srv_srv_select_reply unpack_srv_srv_select_reply
unpack-pack_srv_srv_select_reply p r t e = rw e (rw t refl)

pub record SrvSwitchServer : Type 0 where
  pub port : ℕ
  pub session_id : ℕ
  pub session_seed : ℕ
  pub ip : List ℕ

unfoldable pub pack_srv_switch_server : SrvSwitchServer → List Field
pack_srv_switch_server r = num16 r.port ∷ num32 r.session_id ∷ num32 r.session_seed ∷ text r.ip ∷ []

unfoldable pub unpack_srv_switch_server : CRosePacket → Option SrvSwitchServer
unpack_srv_switch_server p =
    let fs = (read_fields (k16 ∷ k32 ∷ k32 ∷ k_text ∷ []) p).0 in
    asserted (p.packet_type == 0x711) (record {
      port = num_at fs 0;
      session_id = num_at fs 1;
      session_seed = num_at fs 2;
      ip = chars_at fs 3;
    })

pub unpack-pack_srv_switch_server :
    (p : CRosePacket) (r : SrvSwitchServer)
    → p.packet_type ≡ 0x711
    → (read_fields (map kind (pack_srv_switch_server r)) p).0 ≡ pack_srv_switch_server r
    → unpack_srv_switch_server p ≡ some r
unfolding pack_srv_switch_server unpack_srv_switch_server
unpack-pack_srv_switch_server p r t e = rw e (rw t refl)
