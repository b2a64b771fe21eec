-- ===== src/Crypt/Codec.antt =====
-- PacketCodec (crosecrypt.h, crosecrypt.cpp): a packet is ciphered and deciphered in place.
-- `Table` is `m_Rt`, each `int` as the 32-bit pattern that it is stored in. The buffer is the memory
-- that the pointer sees; `Codec/Bounds` proves which part of it each operation touches.
pub mod Body
pub mod Bounds
pub mod Tamper
pub mod RoundTrip
pub mod Encoder
pub mod Header
pub mod Locality
use os_irose_new.Common.{
  ℕ, zero, suc, ◌+◌, ◌-◌, ◌*◌, ◌/◌, ◌%◌, ◌^◌, Bool, true, false, ◌==◌, if◌then◌else◌, u8, u16,
}
use os_irose_new.Common.Memory.{Memory, store, load16, store16, load40, store40}
use os_irose_new.Common.Xor.{xor_byte}
use os_irose_new.Crypt.Crc.{crc_step}
use os_irose_new.Crypt.Head.{
  Layout, read_fields, write_fields, flip_head_main, flip_head_final, head_crypted_server,
  head_crypted_client, head_decrypted, Head, head_word, word_head,
}

abbrev pub Table : Type 0
Table = ℕ → ℕ → ℕ

-- The running checksum and the buffer of a loop.
pub record Loop : Type 0 where
  pub checksum : ℕ
  pub buffer : Memory

-- ((unsigned char*)&head)[i]
unfoldable pub head_byte : Head → ℕ → ℕ
head_byte h i = head_word h / 256 ^ i % 256

-- m_Rt[(head.EncryptAddValue + i) & 0xF][(head.AddTableValue + i) & 0x7FF]
unfoldable pub body_key : Table → Head → ℕ → ℕ
body_key rt h i = rt ((h.encrypt_add_value + i) % 0x10) ((h.add_table_value + i) % 0x800)

-- The loops `for (i = 0; i < 5; i++)` over the header, with `left` rounds to go.
unfoldable pub encode_head : Table → Head → ℕ → ℕ → Loop → Loop
encode_head rt h zero i s = s
encode_head rt h (suc left) i s = encode_head rt h left (i + 1) (record {
  checksum = crc_step (head_byte h i) s.checksum;
  buffer = store s.buffer i (xor_byte (s.buffer i) (rt i h.add_table_value));
})

unfoldable pub decode_head : Table → Head → ℕ → ℕ → Memory → Memory
decode_head rt h zero i m = m
decode_head rt h (suc left) i m =
    decode_head rt h left (i + 1) (store m i (xor_byte (m i) (rt i h.add_table_value)))

unfoldable pub sum_head : Head → ℕ → ℕ → ℕ → ℕ
sum_head h zero i checksum = checksum
sum_head h (suc left) i checksum = sum_head h left (i + 1) (crc_step (head_byte h i) checksum)

-- The loops `for (i = 6; i < len; i++)` over the body.
unfoldable pub encode_body : Table → Head → ℕ → ℕ → Loop → Loop
encode_body rt h zero i s = s
encode_body rt h (suc left) i s = encode_body rt h left (i + 1) (record {
  checksum = crc_step (s.buffer i) s.checksum;
  buffer = store s.buffer i (xor_byte (s.buffer i) (body_key rt h i));
})

unfoldable pub decode_body : Table → Head → ℕ → ℕ → Loop → Loop
decode_body rt h zero i s = s
decode_body rt h (suc left) i s =
    let plain = xor_byte (s.buffer i) (body_key rt h i) in
    decode_body rt h left (i + 1)
      (record { checksum = crc_step plain s.checksum; buffer = store s.buffer i plain })

-- FlipHeadMain and FlipHeadFinal into a buffer that is cast to a header of layout `l`.
unfoldable pub flip_main_into : Layout → Memory → Head → Memory
flip_main_into l m h = store40 m (
    write_fields l
      (flip_head_main (read_fields l (load40 m)) (read_fields head_decrypted (head_word h))))

unfoldable pub flip_final_into : Layout → Memory → Head → Memory
flip_final_into l m h = store40 m (
    write_fields l
      (flip_head_final (read_fields l (load40 m)) (read_fields head_decrypted (head_word h))))

-- The same, out of such a buffer into a Head that is cast to HeadDecrypted.
unfoldable pub flip_main_from : Layout → Head → Memory → Head
flip_main_from l h m = word_head (
    write_fields head_decrypted
      (flip_head_main (read_fields head_decrypted (head_word h)) (read_fields l (load40 m))))

unfoldable pub flip_final_from : Layout → Head → Memory → Head
flip_final_from l h m = word_head (
    write_fields head_decrypted
      (flip_head_final (read_fields head_decrypted (head_word h)) (read_fields l (load40 m))))

-- The header that the encoders build: memset to 0, then each bit-field assigned.
unfoldable pub packet_head : ℕ → Memory → Head
packet_head encrypt_value m = record {
  add_buffer_len = load16 m 0 % 2 ^ 11;
  command = load16 m 2 % 2 ^ 11;
  add_table_value = 0x100;
  encrypt_add_value = 0x04;
  encrypt_value = encrypt_value % 2 ^ 3;
}

-- The two encoders differ in the layout of the header and in EncryptValue.
unfoldable pub encode_packet : Layout → ℕ → Table → Memory → Memory
encode_packet l encrypt_value rt m =
    let h = packet_head encrypt_value m in
    let s = encode_head rt h 5 0 (record { checksum = 0; buffer = flip_main_into l m h }) in
    let t = encode_body rt h (h.add_buffer_len - 6) 6 s in
    flip_final_into l (store t.buffer 5 t.checksum) h

unfoldable pub encode_server_packet : Table → Memory → Memory
unfolding encode_packet
encode_server_packet = encode_packet head_crypted_server (0x100 + 0x04)

unfoldable pub encode_client_packet : Table → Memory → Memory
unfolding encode_packet
encode_client_packet = encode_packet head_crypted_client 0

-- memset(&head, 0, sizeof(head))
abbrev pub zero_head : Head
zero_head = record {
  add_buffer_len = 0;
  command = 0;
  add_table_value = 0;
  encrypt_add_value = 0;
  encrypt_value = 0;
}

-- The two header decoders differ in the layout. The result is the length and the buffer.
unfoldable pub decode_header : Layout → Table → Memory → ℕ × Memory
decode_header l rt m =
    let h = flip_final_from l zero_head m in
    let m' = decode_head rt h 5 0 m in
    let h' = flip_main_from l h m' in (h'.add_buffer_len, store40 m' (head_word h'))

unfoldable pub decode_server_header : Table → Memory → ℕ × Memory
unfolding decode_header
decode_server_header = decode_header head_crypted_server

unfoldable pub decode_client_header : Table → Memory → ℕ × Memory
unfolding decode_header
decode_client_header = decode_header head_crypted_client

-- (unsigned short)(head.AddBufferLen), and with head.EncryptValue taken off, which wraps below 0.
unfoldable pub server_buflen : Head → ℕ
server_buflen h = u16 h.add_buffer_len

unfoldable pub client_buflen : Head → ℕ
client_buflen h = u16 (h.add_buffer_len + 2 ^ 16 - h.encrypt_value)

-- The two body decoders differ in that length. The result is the verdict and the buffer.
unfoldable pub decode_packet_body : (Head → ℕ) → Table → Memory → Bool × Memory
decode_packet_body buflen_of rt m =
    let h = word_head (load40 m) in
    let buflen = buflen_of h in
    let s = decode_body rt h (buflen - 6) 6 (record { checksum = sum_head h 5 0 0; buffer = m }) in
    if s.checksum == s.buffer 5
    then (true, store16 (store16 s.buffer 0 buflen) 2 h.command)
    else (false, s.buffer)

unfoldable pub decode_server_body : Table → Memory → Bool × Memory
unfolding decode_packet_body server_buflen
decode_server_body = decode_packet_body server_buflen

unfoldable pub decode_client_body : Table → Memory → Bool × Memory
unfolding decode_packet_body client_buflen
decode_client_body = decode_packet_body client_buflen
