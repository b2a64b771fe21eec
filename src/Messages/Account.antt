-- ===== src/Messages/Account.antt =====
-- Packet classes: the requests of the login server and those that every server answers (src/rosecommon/include/packets, src/rosecommon/src/packets).
-- A float, an enum and a signed number are their bit patterns. `none` is a failed throw_assert.
use os_irose_new.Common.{ℕ, ◌∷◌, [], ◌≡◌, refl, subst, length, List, Option, some, map, ◌==◌}
use os_irose_new.Packet.{
  CRosePacket, Field, num8, num16, num32, text, raw, k8, k16, k32, k_text, k_raw, read_fields,
}
use os_irose_new.Packet.Transfer.{kind}
use os_irose_new.Messages.Fields.{asserted, num_at, chars_at, c_str, c_str-IsText, IsPassword}

pub record CliChannelListReq : Type 0 where
  pub server_id : ℕ

unfoldable pub pack_cli_channel_list_req : CliChannelListReq → List Field
pack_cli_channel_list_req r = num32 r.server_id ∷ []

unfoldable pub unpack_cli_channel_list_req : CRosePacket → Option CliChannelListReq
unpack_cli_channel_list_req p =
    let fs = (read_fields (k32 ∷ []) p).0 in
    asserted (p.packet_type == 0x704) (record { server_id = num_at fs 0 })

pub unpack-pack_cli_channel_list_req :
    (p : CRosePacket) (r : CliChannelListReq)
    → p.packet_type ≡ 0x704
    → (read_fields (map kind (pack_cli_channel_list_req r)) p).0 ≡ pack_cli_channel_list_req r
    → unpack_cli_channel_list_req p ≡ some r
unfolding pack_cli_channel_list_req unpack_cli_channel_list_req
unpack-pack_cli_channel_list_req p r t e = rw e (rw t refl)

pub record CliLoginReq : Type 0 where
  pub password : List ℕ
  pub username : List ℕ

unfoldable pub pack_cli_login_req : CliLoginReq → List Field
pack_cli_login_req r = raw (c_str r.password) ∷ text r.username ∷ []

unfoldable pub unpack_cli_login_req : CRosePacket → Option CliLoginReq
unpack_cli_login_req p =
    let fs = (read_fields (k_raw 32 ∷ k_text ∷ []) p).0 in
    asserted (p.packet_type == 0x708)
      (record { password = chars_at fs 0; username = chars_at fs 1 })

pub unpack-pack_cli_login_req :
    (p : CRosePacket) (r : CliLoginReq)
    → p.packet_type ≡ 0x708
    → IsPassword r.password
    → (read_fields (map kind (pack_cli_login_req r)) p).0 ≡ pack_cli_login_req r
    → unpack_cli_login_req p ≡ some r
unfolding pack_cli_login_req unpack_cli_login_req
unpack-pack_cli_login_req p r t v e = rw read (rw t refl)
  where
    sent :
        (read_fields (k_raw (length r.password) ∷ k_text ∷ []) p).0
        ≡ raw r.password ∷ text r.username ∷ []
    sent =
        subst
          (λ (cs : List ℕ).
            (read_fields (k_raw (length cs) ∷ k_text ∷ []) p).0 ≡ raw cs ∷ text r.username ∷ [])
          (c_str-IsText r.password v.0) e

    read : (read_fields (k_raw 32 ∷ k_text ∷ []) p).0 ≡ raw r.password ∷ text r.username ∷ []
    read =
        subst
          (λ (n : ℕ).
            (read_fields (k_raw n ∷ k_text ∷ []) p).0 ≡ raw r.password ∷ text r.username ∷ [])
          v.1 sent

pub record CliSrvSelectReq : Type 0 where
  pub server_id : ℕ
  pub channel_id : ℕ

unfoldable pub pack_cli_srv_select_req : CliSrvSelectReq → List Field
pack_cli_srv_select_req r = num32 r.server_id ∷ num8 r.channel_id ∷ []

unfoldable pub unpack_cli_srv_select_req : CRosePacket → Option CliSrvSelectReq
unpack_cli_srv_select_req p =
    let fs = (read_fields (k32 ∷ k8 ∷ []) p).0 in
    asserted (p.packet_type == 0x70a) (record { server_id = num_at fs 0; channel_id = num_at fs 1 })

pub unpack-pack_cli_srv_select_req :
    (p : CRosePacket) (r : CliSrvSelectReq)
    → p.packet_type ≡ 0x70a
    → (read_fields (map kind (pack_cli_srv_select_req r)) p).0 ≡ pack_cli_srv_select_req r
    → unpack_cli_srv_select_req p ≡ some r
unfolding pack_cli_srv_select_req unpack_cli_srv_select_req
unpack-pack_cli_srv_select_req p r t e = rw e (rw t refl)

pub record CliJoinServerReq : Type 0 where
  pub session_id : ℕ
  pub password : List ℕ

unfoldable pub pack_cli_join_server_req : CliJoinServerReq → List Field
pack_cli_join_server_req r = num32 r.session_id ∷ raw (c_str r.password) ∷ []

unfoldable pub unpack_cli_join_server_req : CRosePacket → Option CliJoinServerReq
unpack_cli_join_server_req p =
    let fs = (read_fields (k32 ∷ k_raw 32 ∷ []) p).0 in
    asserted (p.packet_type == 0x70b)
      (record { session_id = num_at fs 0; password = chars_at fs 1 })

pub unpack-pack_cli_join_server_req :
    (p : CRosePacket) (r : CliJoinServerReq)
    → p.packet_type ≡ 0x70b
    → IsPassword r.password
    → (read_fields (map kind (pack_cli_join_server_req r)) p).0 ≡ pack_cli_join_server_req r
    → unpack_cli_join_server_req p ≡ some r
unfolding pack_cli_join_server_req unpack_cli_join_server_req
unpack-pack_cli_join_server_req p r t v e = rw read (rw t refl)
  where
    sent :
        (read_fields (k32 ∷ k_raw (length r.password) ∷ []) p).0
        ≡ num32 r.session_id ∷ raw r.password ∷ []
    sent =
        subst
          (λ (cs : List ℕ).
            (read_fields (k32 ∷ k_raw (length cs) ∷ []) p).0 ≡ num32 r.session_id ∷ raw cs ∷ [])
          (c_str-IsText r.password v.0) e

    read : (read_fields (k32 ∷ k_raw 32 ∷ []) p).0 ≡ num32 r.session_id ∷ raw r.password ∷ []
    read =
        subst
          (λ (n : ℕ).
            (read_fields (k32 ∷ k_raw n ∷ []) p).0 ≡ num32 r.session_id ∷ raw r.password ∷ [])
          v.1 sent

pub record CliScreenShotTimeReq : Type 0 where
  pub count : ℕ

unfoldable pub pack_cli_screen_shot_time_req : CliScreenShotTimeReq → List Field
pack_cli_screen_shot_time_req r = num16 r.count ∷ []

unfoldable pub unpack_cli_screen_shot_time_req : CRosePacket → Option CliScreenShotTimeReq
unpack_cli_screen_shot_time_req p =
    let fs = (read_fields (k16 ∷ []) p).0 in
    asserted (p.packet_type == 0x7eb) (record { count = num_at fs 0 })

pub unpack-pack_cli_screen_shot_time_req :
    (p : CRosePacket) (r : CliScreenShotTimeReq)
    → p.packet_type ≡ 0x7eb
    → (read_fields (map kind (pack_cli_screen_shot_time_req r)) p).0
      ≡ pack_cli_screen_shot_time_req r
    → unpack_cli_screen_shot_time_req p ≡ some r
unfolding pack_cli_screen_shot_time_req unpack_cli_screen_shot_time_req
unpack-pack_cli_screen_shot_time_req p r t e = rw e (rw t refl)
