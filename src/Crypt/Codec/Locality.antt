-- ===== src/Crypt/Codec/Locality.antt =====
-- The decoders look at no byte past the packet: on buffers that agree up to its length they do the same.
use os_irose_new.Common.{ℕ, ◌+◌, ◌-◌, ◌≤◌, ◌≡◌, refl, sym, ap, ◌∙◌, arith}
use os_irose_new.Common.Memory.{Memory, Agree, load40, load40_congr, store40, store40_above}
use os_irose_new.Common.Xor.{xor_byte}
use os_irose_new.Crypt.Head.{Layout, Head, word_head}
use os_irose_new.Crypt.Codec.{
  Table, body_key, decode_head, sum_head, decode_body, flip_main_from, flip_final_from, zero_head,
  decode_header, decode_packet_body,
}
use os_irose_new.Crypt.Codec.Encoder.{decode_head_above}
use os_irose_new.Crypt.Codec.Body.{body_sum_congr, decode_body-checksum, decode_body-mixed, mixed}

load40-Agree : (b n : Memory) → Agree 5 b n → load40 b ≡ load40 n
load40-Agree b n a = load40_congr b n a

decode_head-Agree :
    (rt : Table) (h : Head) (b n : Memory) (k : ℕ)
    → 5 ≤ k
    → Agree k b n
    → Agree k (decode_head rt h 5 0 b) (decode_head rt h 5 0 n)
unfolding decode_head
decode_head-Agree rt h b n k five a j p = ground (arith, a j)

store40-Agree : (b n : Memory) (x k : ℕ) → Agree k b n → Agree k (store40 b x) (store40 n x)
unfolding store40
store40-Agree b n x k a j p = ground (arith, a j)

flip_final_from-Agree :
    (l : Layout) (h : Head) (b n : Memory)
    → Agree 5 b n
    → flip_final_from l h b ≡ flip_final_from l h n
unfolding flip_final_from
flip_final_from-Agree l h b n a = rw (load40-Agree b n a) refl

flip_main_from-Agree :
    (l : Layout) (h : Head) (b n : Memory)
    → Agree 5 b n
    → flip_main_from l h b ≡ flip_main_from l h n
unfolding flip_main_from
flip_main_from-Agree l h b n a = rw (load40-Agree b n a) refl

-- The loop over the body, from the same checksum.
decode_body-Agree :
    (rt : Table) (h : Head) (left i c : ℕ) (b n : Memory) (k : ℕ)
    → i + left ≤ k
    → Agree k b n
    → let s = decode_body rt h left i (record { checksum = c; buffer = b }) in
      let t = decode_body rt h left i (record { checksum = c; buffer = n }) in
      (s.checksum ≡ t.checksum) × Agree k s.buffer t.buffer
unfolding mixed
decode_body-Agree rt h left i c b n k fits a = (
  decode_body-checksum rt h left i (record { checksum = c; buffer = b })
      ∙ body_sum_congr _ _ left i c
          (λ j lo hi. ap (λ (x : ℕ). xor_byte x (body_key rt h j)) (a j (omega arith)))
      ∙ sym (decode_body-checksum rt h left i (record { checksum = c; buffer = n })),
  λ j p. ground (
    arith,
    a j,
    decode_body-mixed rt h left i (record { checksum = c; buffer = b }) j,
    decode_body-mixed rt h left i (record { checksum = c; buffer = n }) j,
  ),
)

module _ (l : Layout) (rt : Table) (b n : Memory) (k : ℕ) (five : 5 ≤ k) (a : Agree k b n) where
  -- The header decoder reads the five bytes of the header.
  pub decode_header-Agree :
      ((decode_header l rt b).0 ≡ (decode_header l rt n).0)
      × Agree k (decode_header l rt b).1 (decode_header l rt n).1
  unfolding decode_header
  decode_header-Agree =
      rw
        (
          flip_final_from-Agree l zero_head b n (λ j p. a j (omega arith)),
          flip_main_from-Agree l first (decode_head rt first 5 0 b) (decode_head rt first 5 0 n)
              (decode_head-Agree rt first b n 5 (omega arith) (λ j p. a j (omega arith))),
        )
        (
          refl,
          store40-Agree (decode_head rt first 5 0 b) (decode_head rt first 5 0 n) _ k
              (decode_head-Agree rt first b n k five a),
        )
    where
      first : Head
      first = flip_final_from l zero_head n

module _ (buflen_of : Head → ℕ) (rt : Table) (b n : Memory) (k : ℕ) (six : 6 ≤ k) (a : Agree k b n)
    (short : buflen_of (word_head (load40 n)) ≤ k) where
  -- The body decoder reads as many bytes as it finds the packet to have.
  pub decode_packet_body-Agree :
      ((decode_packet_body buflen_of rt b).0 ≡ (decode_packet_body buflen_of rt n).0)
      × Agree k (decode_packet_body buflen_of rt b).1 (decode_packet_body buflen_of rt n).1
  unfolding decode_packet_body
  decode_packet_body-Agree =
      rw (ap word_head (load40-Agree b n (λ j p. a j (omega arith))))
        ((ground (arith, same.0, same.1 5), λ j p. ground (arith, same.0, same.1 5, same.1 j)))
    where
      h : Head
      h = word_head (load40 n)

      same :
          let s =
            decode_body rt h
              (buflen_of h - 6)
              6
              (record { checksum = sum_head h 5 0 0; buffer = b }) in
          let t =
            decode_body rt h
              (buflen_of h - 6)
              6
              (record { checksum = sum_head h 5 0 0; buffer = n }) in
          (s.checksum ≡ t.checksum) × Agree k s.buffer t.buffer
      same = decode_body-Agree rt h (buflen_of h - 6) 6 (sum_head h 5 0 0) b n k (omega arith) a

-- The header decoder leaves the body as it is.
pub decode_header_above :
    (l : Layout) (rt : Table) (b : Memory) (j : ℕ) → 5 ≤ j → (decode_header l rt b).1 j ≡ b j
unfolding decode_header
decode_header_above l rt b j p =
    store40_above _ _ j p ∙ decode_head_above rt (flip_final_from l zero_head b) b j p
