-- ===== src/Crypt/Codec/Bounds.antt =====
-- Which bytes the codec touches. The length is a field of eleven bits, so all stay within a buffer of
-- MAX_PACKET_SIZE bytes, but for one case of the client body decoder.
use os_irose_new.Common.{ℕ, ◌+◌, ◌-◌, ◌%◌, ◌^◌, ◌≤◌, ◌<◌, ◌≡◌, ap, ◌∙◌, arith}
use os_irose_new.Common.Memory.{Memory, load16, load40, store40_above}
use os_irose_new.Common.Xor.{xor_byte, field}
use os_irose_new.Crypt.Head.{Head, word_head, head_crypted_server, head_crypted_client}
use os_irose_new.Crypt.Codec.{
  Table, Loop, body_key, sum_head, decode_packet_body, server_buflen, client_buflen,
  decode_server_body, decode_client_body, encode_server_packet, encode_client_packet, encode_packet,
  packet_head, flip_final_into,
}
use os_irose_new.Crypt.Codec.Body.{mixed, decode_body-mixed, mixed_inside, mixed_after}
use os_irose_new.Crypt.Codec.Encoder.{encode_packet-sealed, sealed, sealed_body, head, rounds}
use os_irose_new.Crypt.Head.{Layout}

encode_packet_above :
    (l : Layout) (encrypt_value : ℕ) (rt : Table) (m : Memory) (j : ℕ)
    → 6 ≤ j
    → load16 m 0 % 2 ^ 11 ≤ j
    → encode_packet l encrypt_value rt m j ≡ m j
unfolding flip_final_into packet_head
encode_packet_above l ev rt m j lo hi =
    ap (λ (n : Memory). n j) (encode_packet-sealed l ev rt m)
    ∙ store40_above (sealed l ev rt m) _ j (omega arith)
    ∙ sealed_body l ev rt m j lo
    ∙ mixed_after rt (head l ev rt m) (rounds l ev rt m) 6 m j (omega arith)

-- What the body decoders do to a byte of the body, whatever the verdict.
decode_packet_body-mixed :
    (buflen_of : Head → ℕ) (rt : Table) (m : Memory) (j : ℕ)
    → 6 ≤ j
    → (decode_packet_body buflen_of rt m).1 j
      ≡ mixed rt (word_head (load40 m)) (buflen_of (word_head (load40 m)) - 6) 6 m j
unfolding decode_packet_body
decode_packet_body-mixed buflen_of rt m j lo =
    let h = word_head (load40 m) in
    let start : Loop = record { checksum = sum_head h 5 0 0; buffer = m } in
    ground (arith, decode_body-mixed rt h (buflen_of h - 6) 6 start j)

server_buflen-lt : (x : ℕ) → server_buflen (word_head x) < 2 ^ 11
unfolding server_buflen word_head field
server_buflen-lt x = omega arith

-- Neither encoder nor the server body decoder writes past the 2047 bytes of a packet buffer.
pub codec_in_buffer :
    (rt : Table) (m : Memory) (j : ℕ)
    → 0x7FF ≤ j
    → (encode_server_packet rt m j ≡ m j)
      × (encode_client_packet rt m j ≡ m j)
      × ((decode_server_body rt m).1 j ≡ m j)
unfolding encode_server_packet encode_client_packet decode_server_body
codec_in_buffer rt m j p = (
  encode_packet_above head_crypted_server (0x100 + 0x04) rt m j (omega arith) (omega arith),
  encode_packet_above head_crypted_client 0 rt m j (omega arith) (omega arith),
  decode_packet_body-mixed server_buflen rt m j (omega arith)
      ∙ mixed_after rt _ _ 6 m j (omega (arith, server_buflen-lt (load40 m))),
)

-- Nor does the client body decoder, if the header's EncryptValue is at most its length.
pub decode_client_body_in_buffer :
    (rt : Table) (m : Memory) (j : ℕ)
    → (word_head (load40 m)).encrypt_value ≤ (word_head (load40 m)).add_buffer_len
    → 0x7FF ≤ j
    → (decode_client_body rt m).1 j ≡ m j
unfolding decode_client_body client_buflen word_head field
decode_client_body_in_buffer rt m j le p =
    decode_packet_body-mixed client_buflen rt m j (omega arith)
    ∙ mixed_after rt (word_head (load40 m)) (client_buflen (word_head (load40 m)) - 6) 6 m j
        (omega arith)

-- If EncryptValue is above the length the subtraction wraps, and the decoder deciphers every byte
-- from 6 up to 65528, far past the end of a packet buffer.
pub decode_client_body_overrun :
    (rt : Table) (m : Memory) (j : ℕ)
    → (word_head (load40 m)).add_buffer_len < (word_head (load40 m)).encrypt_value
    → 6 ≤ j
    → j ≤ 65528
    → (decode_client_body rt m).1 j ≡ xor_byte (m j) (body_key rt (word_head (load40 m)) j)
unfolding decode_client_body client_buflen word_head field
decode_client_body_overrun rt m j wraps lo hi =
    decode_packet_body-mixed client_buflen rt m j lo
    ∙ mixed_inside rt (word_head (load40 m)) (client_buflen (word_head (load40 m)) - 6) 6 m j lo
        (omega arith)
