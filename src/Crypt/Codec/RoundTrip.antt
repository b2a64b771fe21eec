-- ===== src/Crypt/Codec/RoundTrip.antt =====
-- A packet that is encoded and then decoded is accepted and comes back.
use os_irose_new.Common.{ℕ, ◌+◌, ◌^◌, ◌≤◌, ◌<◌, ◌≡◌, ◌≢◌, sym, ap, ◌∙◌, arith, true}
use os_irose_new.Common.Memory.{
  Memory, IsBytes, load16, store16, load40, store40, store40_above, load40-store40,
}
use os_irose_new.Common.Xor.{xor_byte, xor_byte_cancel}
use os_irose_new.Crypt.Head.{
  Layout, Head, head_word, word_head, head_crypted_server, head_crypted_client,
}
use os_irose_new.Crypt.Head.Layouts.{
  IsLayout, head_word-lt, word_head-head_word, head_crypted_server-IsLayout,
  head_crypted_client-IsLayout,
}
use os_irose_new.Crypt.Codec.{
  Table, Loop, body_key, decode_head, sum_head, decode_body, flip_final_from, flip_final_into,
  zero_head, packet_head, encode_packet, decode_header, decode_packet_body, server_buflen,
  client_buflen, encode_server_packet, encode_client_packet, decode_server_header,
  decode_client_header, decode_server_body, decode_client_body,
}
use os_irose_new.Crypt.Codec.Body.{
  mixed, decode_body-mixed, decode_body-checksum, body_sum_congr, mixed_before,
}
use os_irose_new.Crypt.Codec.Header.{Masked, table_value-flip_final_from, flip_main_from-Masked}
use os_irose_new.Crypt.Codec.Encoder.{
  head, rounds, sealed, encode_packet-sealed, sealed-Masked, sealed_sum, sealed_body,
  sealed-IsBytes, decode_head-Masked, decode_head_above, packet_head-IsHead,
}

module _ (l : Layout) (lay : IsLayout l) (encrypt_value : ℕ) (rt : Table) (m : Memory)
    (v : IsBytes m) where
  abbrev pub h : Head
  h = head l encrypt_value rt m

  abbrev s : Memory
  s = sealed l encrypt_value rt m

  abbrev e : Memory
  e = flip_final_into l s h

  abbrev first : Head
  first = flip_final_from l zero_head e

  abbrev unmasked : Memory
  unmasked = decode_head rt first 5 0 e

  unmasked-Masked : Masked rt h.add_table_value e unmasked
  unmasked-Masked j p =
      decode_head-Masked rt first e j p
      ∙ ap (λ (t : ℕ). xor_byte (e j) (rt j t))
          (table_value-flip_final_from l lay s h (packet_head-IsHead encrypt_value m))

  -- The header decoder finds the header that the encoder built, and writes it out in the clear.
  pub decode_header-encode_packet :
      decode_header l rt (encode_packet l encrypt_value rt m)
      ≡ (h.add_buffer_len, store40 unmasked (head_word h))
  unfolding decode_header
  decode_header-encode_packet =
      ap (decode_header l rt) (encode_packet-sealed l encrypt_value rt m)
      ∙ ap (λ (g : Head). (g.add_buffer_len, store40 unmasked (head_word g)))
          (flip_main_from-Masked l lay rt h.add_table_value h m s unmasked
            (packet_head-IsHead encrypt_value m) v (sealed-IsBytes l encrypt_value rt m v)
            (sealed-Masked l encrypt_value rt m) unmasked-Masked)

  abbrev pub opened : Memory
  opened = store40 unmasked (head_word h)

  opened_above : (j : ℕ) → 5 ≤ j → opened j ≡ s j
  unfolding flip_final_into
  opened_above j p =
      store40_above unmasked (head_word h) j p
      ∙ decode_head_above rt first e j p
      ∙ store40_above s _ j p

  opened-head : word_head (load40 opened) ≡ h
  opened-head =
      ap word_head (
        load40-store40 unmasked (head_word h) (head_word-lt h (packet_head-IsHead encrypt_value m)))
      ∙ word_head-head_word h (packet_head-IsHead encrypt_value m)

  -- The deciphered header is the one that the encoder built.
  pub decode_header-head :
      word_head (load40 (decode_header l rt (encode_packet l encrypt_value rt m)).1) ≡ h
  decode_header-head =
      ap (λ (d : ℕ × Memory). word_head (load40 d.1)) decode_header-encode_packet ∙ opened-head

  opened_body : (j : ℕ) → 6 ≤ j → opened j ≡ mixed rt h (rounds l encrypt_value rt m) 6 m j
  opened_body j p = opened_above j (omega arith) ∙ sealed_body l encrypt_value rt m j p

  -- The state after the loop of the body decoder.
  abbrev final : Loop
  final =
      decode_body rt h (rounds l encrypt_value rt m) 6
        (record { checksum = sum_head h 5 0 0; buffer = opened })

  final_body : (j : ℕ) → 6 ≤ j → final.buffer j ≡ m j
  unfolding mixed
  final_body j p = ground (
    arith,
    decode_body-mixed rt h (rounds l encrypt_value rt m) 6
        (record { checksum = sum_head h 5 0 0; buffer = opened }) j,
    opened_body j p,
    xor_byte_cancel (m j) (body_key rt h j) (v j),
  )

  final_sum : final.checksum ≡ final.buffer 5
  unfolding mixed
  final_sum =
      decode_body-checksum rt h (rounds l encrypt_value rt m) 6
        (record { checksum = sum_head h 5 0 0; buffer = opened })
      ∙ body_sum_congr _ m (rounds l encrypt_value rt m) 6 _
          (λ j p q. ground (arith, opened_body j p, xor_byte_cancel (m j) (body_key rt h j) (v j)))
      ∙ sym (sealed_sum l encrypt_value rt m)
      ∙ sym (opened_above 5 (omega arith))
      ∙ sym (mixed_before rt h (rounds l encrypt_value rt m) 6 opened 5 (omega arith))
      ∙ sym (
          decode_body-mixed rt h (rounds l encrypt_value rt m) 6
            (record { checksum = sum_head h 5 0 0; buffer = opened }) 5)

  module _ (buflen_of : Head → ℕ) (len : buflen_of h ≡ h.add_buffer_len) where
    -- The body decoder accepts, and writes the length and the command in the clear.
    decode_packet_body-opened :
        decode_packet_body buflen_of rt opened
        ≡ (true, store16 (store16 final.buffer 0 h.add_buffer_len) 2 h.command)
    unfolding decode_packet_body
    decode_packet_body-opened = rw (opened-head, len) (ground (arith, final_sum))

    abbrev pub Delivers : ℕ × Memory → ℕ → Type 0
    Delivers d j =
        (d.0 ≡ load16 m 0)
        × ((decode_packet_body buflen_of rt d.1).0 ≡ true)
        × ((decode_packet_body buflen_of rt d.1).1 j ≡ m j)

    -- For either pair of an encoder and its decoders.
    pub encode_packet-Delivers :
        (j : ℕ)
        → load16 m 0 < 2 ^ 11
        → load16 m 2 < 2 ^ 11
        → j ≢ 4
        → j ≢ 5
        → Delivers (decode_header l rt (encode_packet l encrypt_value rt m)) j
    unfolding packet_head
    encode_packet-Delivers j len_fits command_fits four five =
        rw (decode_header-encode_packet, decode_packet_body-opened)
          (ground (arith, v 0, v 1, v 2, v 3, final_body j))

-- A server packet whose length and command fit their eleven bits survives encryption: the header
-- decoder reports its length, the body decoder accepts it, and every byte but the two checksum
-- bytes 4 and 5 is as it was.
pub decode_server-encode_server :
    (rt : Table) (m : Memory) (j : ℕ)
    → IsBytes m
    → load16 m 0 < 2 ^ 11
    → load16 m 2 < 2 ^ 11
    → j ≢ 4
    → j ≢ 5
    → ((decode_server_header rt (encode_server_packet rt m)).0 ≡ load16 m 0)
      × ((decode_server_body rt (decode_server_header rt (encode_server_packet rt m)).1).0 ≡ true)
      × ((decode_server_body rt (decode_server_header rt (encode_server_packet rt m)).1).1 j ≡ m j)
unfolding encode_server_packet decode_server_header decode_server_body server_buflen packet_head
decode_server-encode_server rt m j v len_fits command_fits four five =
    encode_packet-Delivers head_crypted_server head_crypted_server-IsLayout (0x100 + 0x04) rt m v
      server_buflen (omega arith) j len_fits command_fits four five

-- The same of a client packet, from the client's encoder to the server's decoders.
pub decode_client-encode_client :
    (rt : Table) (m : Memory) (j : ℕ)
    → IsBytes m
    → load16 m 0 < 2 ^ 11
    → load16 m 2 < 2 ^ 11
    → j ≢ 4
    → j ≢ 5
    → ((decode_client_header rt (encode_client_packet rt m)).0 ≡ load16 m 0)
      × ((decode_client_body rt (decode_client_header rt (encode_client_packet rt m)).1).0 ≡ true)
      × ((decode_client_body rt (decode_client_header rt (encode_client_packet rt m)).1).1 j ≡ m j)
unfolding encode_client_packet decode_client_header decode_client_body client_buflen packet_head
decode_client-encode_client rt m j v len_fits command_fits four five =
    encode_packet-Delivers head_crypted_client head_crypted_client-IsLayout 0 rt m v client_buflen
      (omega arith) j len_fits command_fits four five
