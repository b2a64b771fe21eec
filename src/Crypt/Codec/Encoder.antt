-- ===== src/Crypt/Codec/Encoder.antt =====
-- What the encoders leave in the buffer, stage by stage.
use os_irose_new.Common.{ℕ, zero, suc, ◌+◌, ◌-◌, ◌≤◌, ◌<◌, ◌≡◌, refl, ap, ◌∙◌, arith}
use os_irose_new.Common.Memory.{Memory, IsBytes, store, store-IsBytes, store40_above}
use os_irose_new.Common.Xor.{xor_byte, xor_byte-lt}
use os_irose_new.Crypt.Crc.{crc_step}
use os_irose_new.Crypt.Crc.Laws.{crc_step-lt}
use os_irose_new.Crypt.Head.{Layout, Head}
use os_irose_new.Crypt.Head.Layouts.{IsHead}
use os_irose_new.Crypt.Codec.{
  Table, Loop, head_byte, encode_head, decode_head, sum_head, encode_body, flip_main_into,
  flip_final_into, packet_head, encode_packet,
}
use os_irose_new.Crypt.Codec.Body.{
  body_sum, mixed, encode_body-mixed, encode_body-checksum, mixed_before, mixed-IsBytes,
  body_sum-lt, body_sum_congr,
}
use os_irose_new.Crypt.Codec.Header.{Masked, flip_main_into-IsBytes}

pub encode_head-Masked :
    (rt : Table) (h : Head) (s : Loop)
    → Masked rt h.add_table_value s.buffer (encode_head rt h 5 0 s).buffer
unfolding encode_head
encode_head-Masked rt h s j p = ground arith

encode_head_above :
    (rt : Table) (h : Head) (s : Loop) (j : ℕ)
    → 5 ≤ j
    → (encode_head rt h 5 0 s).buffer j ≡ s.buffer j
unfolding encode_head
encode_head_above rt h s j p = ground arith

encode_head-checksum :
    (rt : Table) (h : Head) (left i : ℕ) (s : Loop)
    → (encode_head rt h left i s).checksum ≡ sum_head h left i s.checksum
unfolding encode_head sum_head
encode_head-checksum rt h zero i s = refl
encode_head-checksum rt h (suc left) i s = encode_head-checksum rt h left (i + 1) (record {
  checksum = crc_step (head_byte h i) s.checksum;
  buffer = store s.buffer i (xor_byte (s.buffer i) (rt i h.add_table_value));
})

encode_head-IsBytes :
    (rt : Table) (h : Head) (left i : ℕ) (s : Loop)
    → IsBytes s.buffer
    → IsBytes (encode_head rt h left i s).buffer
unfolding encode_head
encode_head-IsBytes rt h zero i s v = v
encode_head-IsBytes rt h (suc left) i s v =
    encode_head-IsBytes rt h left (i + 1) _
      (store-IsBytes s.buffer i _ (xor_byte-lt (s.buffer i) (rt i h.add_table_value)) v)

pub decode_head-Masked :
    (rt : Table) (h : Head) (m : Memory) → Masked rt h.add_table_value m (decode_head rt h 5 0 m)
unfolding decode_head
decode_head-Masked rt h m j p = ground arith

pub decode_head_above :
    (rt : Table) (h : Head) (m : Memory) (j : ℕ) → 5 ≤ j → decode_head rt h 5 0 m j ≡ m j
unfolding decode_head
decode_head_above rt h m j p = ground arith

pub sum_head-lt : (h : Head) (left i c : ℕ) → c < 256 → sum_head h left i c < 256
unfolding sum_head head_byte
sum_head-lt h zero i c p = p
sum_head-lt h (suc left) i c p =
    sum_head-lt h left (i + 1) _ (crc_step-lt (head_byte h i) c (omega arith) p)

pub packet_head-IsHead : (encrypt_value : ℕ) (m : Memory) → IsHead (packet_head encrypt_value m)
unfolding packet_head
packet_head-IsHead encrypt_value m = omega arith

module _ (l : Layout) (encrypt_value : ℕ) (rt : Table) (m : Memory) where
  abbrev pub head : Head
  head = packet_head encrypt_value m

  -- The rounds of the loop over the body.
  abbrev pub rounds : ℕ
  rounds = head.add_buffer_len - 6

  abbrev after_head : Loop
  after_head = encode_head rt head 5 0 (record { checksum = 0; buffer = flip_main_into l m head })

  -- The checksum of the packet as the sender sees it.
  abbrev pub plain_sum : ℕ
  plain_sum = body_sum m rounds 6 (sum_head head 5 0 0)

  abbrev after_body : Loop
  after_body = encode_body rt head rounds 6 after_head

  -- The buffer before the table value is put in.
  abbrev pub sealed : Memory
  sealed = store after_body.buffer 5 after_body.checksum

  pub encode_packet-sealed : encode_packet l encrypt_value rt m ≡ flip_final_into l sealed head
  unfolding encode_packet
  encode_packet-sealed = refl

  after_head_plain : (j : ℕ) → 5 ≤ j → after_head.buffer j ≡ m j
  unfolding flip_main_into
  after_head_plain j p = encode_head_above rt head _ j p ∙ store40_above m _ j (omega arith)

  after_body-checksum : after_body.checksum ≡ plain_sum
  after_body-checksum =
      encode_body-checksum rt head rounds 6 after_head
      ∙ ap (body_sum after_head.buffer rounds 6) (encode_head-checksum rt head 5 0 _)
      ∙ body_sum_congr after_head.buffer m rounds 6 _ (λ j p q. after_head_plain j (omega arith))

  pub sealed-Masked : Masked rt head.add_table_value (flip_main_into l m head) sealed
  sealed-Masked j p = ground (
    arith,
    encode_head-Masked rt head (record { checksum = 0; buffer = flip_main_into l m head }) j p,
    encode_body-mixed rt head rounds 6 after_head j,
    mixed_before rt head rounds 6 after_head.buffer j,
  )

  pub sealed_sum : sealed 5 ≡ plain_sum
  sealed_sum = after_body-checksum

  pub sealed_body : (j : ℕ) → 6 ≤ j → sealed j ≡ mixed rt head rounds 6 m j
  unfolding mixed
  sealed_body j p =
      ground (arith, encode_body-mixed rt head rounds 6 after_head j, after_head_plain j)

  pub plain_sum-lt : IsBytes m → plain_sum < 256
  plain_sum-lt v = body_sum-lt m rounds 6 _ v (sum_head-lt head 5 0 0 (omega arith))

  pub sealed-IsBytes : IsBytes m → IsBytes sealed
  sealed-IsBytes v =
      store-IsBytes after_body.buffer 5 after_body.checksum
        (rw after_body-checksum (plain_sum-lt v)) body
    where
      plain : IsBytes after_head.buffer
      plain = encode_head-IsBytes rt head 5 0 _ (flip_main_into-IsBytes l m head v)

      body : IsBytes after_body.buffer
      body j =
          rw (encode_body-mixed rt head rounds 6 after_head j)
            (mixed-IsBytes rt head rounds 6 after_head.buffer plain j)
