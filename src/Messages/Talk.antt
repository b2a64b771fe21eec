-- ===== src/Messages/Talk.antt =====
-- Packet classes: chat and party replies (src/rosecommon/include/packets, src/rosecommon/src/packets).
-- A float, an enum and a signed number are their bit patterns. `none` is a failed throw_assert.
use os_irose_new.Common.{ℕ, ◌∷◌, [], List}
use os_irose_new.Packet.{Field, num8, num16, num32, text}

pub record SrvNormalChat : Type 0 where
  pub char_id : ℕ
  pub message : List ℕ

unfoldable pub pack_srv_normal_chat : SrvNormalChat → List Field
pack_srv_normal_chat r = num16 r.char_id ∷ text r.message ∷ []

pub record SrvWhisperChat : Type 0 where
  pub sender_id : List ℕ
  pub message : List ℕ

unfoldable pub pack_srv_whisper_chat : SrvWhisperChat → List Field
pack_srv_whisper_chat r = text r.sender_id ∷ text r.message ∷ []

pub record SrvPartyChat : Type 0 where
  pub char_id : ℕ
  pub message : List ℕ

unfoldable pub pack_srv_party_chat : SrvPartyChat → List Field
pack_srv_party_chat r = num16 r.char_id ∷ text r.message ∷ []

pub record SrvPartyReply : Type 0 where
  pub reply : ℕ
  pub id : ℕ

unfoldable pub pack_srv_party_reply : SrvPartyReply → List Field
pack_srv_party_reply r = num8 r.reply ∷ num32 r.id ∷ []
