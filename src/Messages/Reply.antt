-- ===== src/Messages/Reply.antt =====
-- The replies that carry their own members, as the sender's pack writes them.
use os_irose_new.Common.{ℕ, ◌^◌, ◌<◌, arith, List}
use os_irose_new.Packet.{Field}
use os_irose_new.Messages.Replies.{
  SrvAcceptReply, pack_srv_accept_reply, SrvCreateCharReply, pack_srv_create_char_reply,
  SrvDeleteCharReply, pack_srv_delete_char_reply, SrvInitData, pack_srv_init_data,
  SrvJoinServerReply, pack_srv_join_server_reply, SrvLogoutReply, pack_srv_logout_reply,
  SrvReviveReply, pack_srv_revive_reply, SrvScreenShotTimeReply, pack_srv_screen_shot_time_reply,
  SrvSrvSelectReply, pack_srv_srv_select_reply, SrvSwitchServer, pack_srv_switch_server,
}
use os_irose_new.Messages.Talk.{
  SrvNormalChat, pack_srv_normal_chat, SrvWhisperChat, pack_srv_whisper_chat, SrvPartyChat,
  pack_srv_party_chat, SrvPartyReply, pack_srv_party_reply,
}

-- An instance of one of the classes.
pub data Reply : Type 0 where
  srv_accept_reply : SrvAcceptReply → Reply
  srv_create_char_reply : SrvCreateCharReply → Reply
  srv_delete_char_reply : SrvDeleteCharReply → Reply
  srv_init_data : SrvInitData → Reply
  srv_join_server_reply : SrvJoinServerReply → Reply
  srv_logout_reply : SrvLogoutReply → Reply
  srv_revive_reply : SrvReviveReply → Reply
  srv_screen_shot_time_reply : SrvScreenShotTimeReply → Reply
  srv_srv_select_reply : SrvSrvSelectReply → Reply
  srv_switch_server : SrvSwitchServer → Reply
  srv_normal_chat : SrvNormalChat → Reply
  srv_whisper_chat : SrvWhisperChat → Reply
  srv_party_chat : SrvPartyChat → Reply
  srv_party_reply : SrvPartyReply → Reply

-- What the constructor passes to CRosePacket.
unfoldable pub reply_type : Reply → ℕ
reply_type (srv_accept_reply r) = 0x7ff
reply_type (srv_create_char_reply r) = 0x713
reply_type (srv_delete_char_reply r) = 0x714
reply_type (srv_init_data r) = 0x754
reply_type (srv_join_server_reply r) = 0x70c
reply_type (srv_logout_reply r) = 0x707
reply_type (srv_revive_reply r) = 0x755
reply_type (srv_screen_shot_time_reply r) = 0x7eb
reply_type (srv_srv_select_reply r) = 0x70a
reply_type (srv_switch_server r) = 0x711
reply_type (srv_normal_chat r) = 0x783
reply_type (srv_whisper_chat r) = 0x784
reply_type (srv_party_chat r) = 0x786
reply_type (srv_party_reply r) = 0x7d1

-- The virtual function pack.
unfoldable pub pack_reply : Reply → List Field
unfolding pack_srv_accept_reply pack_srv_create_char_reply pack_srv_delete_char_reply
    pack_srv_init_data pack_srv_join_server_reply pack_srv_logout_reply pack_srv_revive_reply
    pack_srv_screen_shot_time_reply pack_srv_srv_select_reply pack_srv_switch_server
    pack_srv_normal_chat pack_srv_whisper_chat pack_srv_party_chat pack_srv_party_reply
pack_reply (srv_accept_reply r) = pack_srv_accept_reply r
pack_reply (srv_create_char_reply r) = pack_srv_create_char_reply r
pack_reply (srv_delete_char_reply r) = pack_srv_delete_char_reply r
pack_reply (srv_init_data r) = pack_srv_init_data r
pack_reply (srv_join_server_reply r) = pack_srv_join_server_reply r
pack_reply (srv_logout_reply r) = pack_srv_logout_reply r
pack_reply (srv_revive_reply r) = pack_srv_revive_reply r
pack_reply (srv_screen_shot_time_reply r) = pack_srv_screen_shot_time_reply r
pack_reply (srv_srv_select_reply r) = pack_srv_srv_select_reply r
pack_reply (srv_switch_server r) = pack_srv_switch_server r
pack_reply (srv_normal_chat r) = pack_srv_normal_chat r
pack_reply (srv_whisper_chat r) = pack_srv_whisper_chat r
pack_reply (srv_party_chat r) = pack_srv_party_chat r
pack_reply (srv_party_reply r) = pack_srv_party_reply r

-- Every type fits the eleven bits of the enciphered header.
pub reply_type-lt : (r : Reply) → reply_type r < 2 ^ 11
unfolding reply_type
reply_type-lt (srv_accept_reply r) = omega arith
reply_type-lt (srv_create_char_reply r) = omega arith
reply_type-lt (srv_delete_char_reply r) = omega arith
reply_type-lt (srv_init_data r) = omega arith
reply_type-lt (srv_join_server_reply r) = omega arith
reply_type-lt (srv_logout_reply r) = omega arith
reply_type-lt (srv_revive_reply r) = omega arith
reply_type-lt (srv_screen_shot_time_reply r) = omega arith
reply_type-lt (srv_srv_select_reply r) = omega arith
reply_type-lt (srv_switch_server r) = omega arith
reply_type-lt (srv_normal_chat r) = omega arith
reply_type-lt (srv_whisper_chat r) = omega arith
reply_type-lt (srv_party_chat r) = omega arith
reply_type-lt (srv_party_reply r) = omega arith
