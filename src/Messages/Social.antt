-- ===== src/Messages/Social.antt =====
-- Packet classes: chat and party requests (src/rosecommon/include/packets, src/rosecommon/src/packets).
-- A float, an enum and a signed number are their bit patterns. `none` is a failed throw_assert.
use os_irose_new.Common.{ℕ, ◌∷◌, [], ◌≡◌, refl, List, Option, some, map, ◌==◌}
use os_irose_new.Packet.{CRosePacket, Field, num8, num32, text, k8, k32, k_text, read_fields}
use os_irose_new.Packet.Transfer.{kind}
use os_irose_new.Messages.Fields.{asserted, num_at, chars_at}

pub record CliNormalChat : Type 0 where
  pub message : List ℕ

unfoldable pub pack_cli_normal_chat : CliNormalChat → List Field
pack_cli_normal_chat r = text r.message ∷ []

unfoldable pub unpack_cli_normal_chat : CRosePacket → Option CliNormalChat
unpack_cli_normal_chat p =
    let fs = (read_fields (k_text ∷ []) p).0 in
    asserted (p.packet_type == 0x783) (record { message = chars_at fs 0 })

pub unpack-pack_cli_normal_chat :
    (p : CRosePacket) (r : CliNormalChat)
    → p.packet_type ≡ 0x783
    → (read_fields (map kind (pack_cli_normal_chat r)) p).0 ≡ pack_cli_normal_chat r
    → unpack_cli_normal_chat p ≡ some r
unfolding pack_cli_normal_chat unpack_cli_normal_chat
unpack-pack_cli_normal_chat p r t e = rw e (rw t refl)

pub record CliWhisperChat : Type 0 where
  pub target_id : List ℕ
  pub message : List ℕ

unfoldable pub pack_cli_whisper_chat : CliWhisperChat → List Field
pack_cli_whisper_chat r = text r.target_id ∷ text r.message ∷ []

unfoldable pub unpack_cli_whisper_chat : CRosePacket → Option CliWhisperChat
unpack_cli_whisper_chat p =
    let fs = (read_fields (k_text ∷ k_text ∷ []) p).0 in
    asserted (p.packet_type == 0x784)
      (record { target_id = chars_at fs 0; message = chars_at fs 1 })

pub unpack-pack_cli_whisper_chat :
    (p : CRosePacket) (r : CliWhisperChat)
    → p.packet_type ≡ 0x784
    → (read_fields (map kind (pack_cli_whisper_chat r)) p).0 ≡ pack_cli_whisper_chat r
    → unpack_cli_whisper_chat p ≡ some r
unfolding pack_cli_whisper_chat unpack_cli_whisper_chat
unpack-pack_cli_whisper_chat p r t e = rw e (rw t refl)

pub record CliPartyChat : Type 0 where
  pub message : List ℕ

unfoldable pub pack_cli_party_chat : CliPartyChat → List Field
pack_cli_party_chat r = text r.message ∷ []

unfoldable pub unpack_cli_party_chat : CRosePacket → Option CliPartyChat
unpack_cli_party_chat p =
    let fs = (read_fields (k_text ∷ []) p).0 in
    asserted (p.packet_type == 0x786) (record { message = chars_at fs 0 })

pub unpack-pack_cli_party_chat :
    (p : CRosePacket) (r : CliPartyChat)
    → p.packet_type ≡ 0x786
    → (read_fields (map kind (pack_cli_party_chat r)) p).0 ≡ pack_cli_party_chat r
    → unpack_cli_party_chat p ≡ some r
unfolding pack_cli_party_chat unpack_cli_party_chat
unpack-pack_cli_party_chat p r t e = rw e (rw t refl)

pub record CliPartyReq : Type 0 where
  pub request : ℕ
  pub id_xor_tag : ℕ

unfoldable pub pack_cli_party_req : CliPartyReq → List Field
pack_cli_party_req r = num8 r.request ∷ num32 r.id_xor_tag ∷ []

unfoldable pub unpack_cli_party_req : CRosePacket → Option CliPartyReq
unpack_cli_party_req p =
    let fs = (read_fields (k8 ∷ k32 ∷ []) p).0 in
    asserted (p.packet_type == 0x7d0) (record { request = num_at fs 0; id_xor_tag = num_at fs 1 })

pub unpack-pack_cli_party_req :
    (p : CRosePacket) (r : CliPartyReq)
    → p.packet_type ≡ 0x7d0
    → (read_fields (map kind (pack_cli_party_req r)) p).0 ≡ pack_cli_party_req r
    → unpack_cli_party_req p ≡ some r
unfolding pack_cli_party_req unpack_cli_party_req
unpack-pack_cli_party_req p r t e = rw e (rw t refl)

pub record CliPartyReply : Type 0 where
  pub reply : ℕ
  pub id_xor_tag : ℕ

unfoldable pub pack_cli_party_reply : CliPartyReply → List Field
pack_cli_party_reply r = num8 r.reply ∷ num32 r.id_xor_tag ∷ []

unfoldable pub unpack_cli_party_reply : CRosePacket → Option CliPartyReply
unpack_cli_party_reply p =
    let fs = (read_fields (k8 ∷ k32 ∷ []) p).0 in
    asserted (p.packet_type == 0x7d1) (record { reply = num_at fs 0; id_xor_tag = num_at fs 1 })

pub unpack-pack_cli_party_reply :
    (p : CRosePacket) (r : CliPartyReply)
    → p.packet_type ≡ 0x7d1
    → (read_fields (map kind (pack_cli_party_reply r)) p).0 ≡ pack_cli_party_reply r
    → unpack_cli_party_reply p ≡ some r
unfolding pack_cli_party_reply unpack_cli_party_reply
unpack-pack_cli_party_reply p r t e = rw e (rw t refl)
