-- ===== src/Crypt/Codec/Tamper.antt =====
-- The checksum finds every change of a single byte of the enciphered body.
use os_irose_new.Common.{
  ℕ, zero, suc, ◌+◌, ◌-◌, ◌≤◌, ◌<◌, ◌≡◌, ◌≢◌, sym, ap, ◌∙◌, arith, true, false, ◌==◌,
}
use native.Mathlib.Decide.{ℕ_discrete}
use os_irose_new.Common.Memory.{Memory, IsBytes, store, load40, load40_congr}
use os_irose_new.Common.Xor.{xor_byte, xor_byte-lt, xor_byte_cancel}
use os_irose_new.Crypt.Crc.{crc_step}
use os_irose_new.Crypt.Crc.Laws.{crc_step-lt, crc_step_inj_byte, crc_step_inj_sum}
use os_irose_new.Crypt.Head.{Head, word_head}
use os_irose_new.Crypt.Codec.{
  Table, Loop, body_key, sum_head, decode_packet_body, server_buflen, client_buflen,
  decode_server_body, decode_client_body,
}
use os_irose_new.Crypt.Codec.Body.{
  body_sum, body_sum_congr, decode_body-checksum, decode_body-mixed, mixed_before,
}
use os_irose_new.Crypt.Codec.Encoder.{sum_head-lt}

-- Different checksums stay different over the same bytes.
body_sum_inj :
    (m : Memory) (left i c d : ℕ)
    → IsBytes m
    → c < 256
    → d < 256
    → body_sum m left i c ≡ body_sum m left i d
    → c ≡ d
unfolding body_sum
body_sum_inj m zero i c d v p q e = e
body_sum_inj m (suc left) i c d v p q e = crc_step_inj_sum (m i) c d (v i) p q (
    body_sum_inj m left (i + 1) (crc_step (m i) c) (crc_step (m i) d) v
      (crc_step-lt (m i) c (v i) p) (crc_step-lt (m i) d (v i) q) e)

-- Bytes that differ in one place have different checksums.
body_sum-ne :
    (m n : Memory) (k left i c : ℕ)
    → IsBytes m
    → IsBytes n
    → c < 256
    → i ≤ k
    → k < i + left
    → m k ≢ n k
    → ((j : ℕ) → j ≢ k → m j ≡ n j)
    → body_sum m left i c ≢ body_sum n left i c
unfolding body_sum
body_sum-ne m n k zero i c vm vn p q r ne same = absurd (omega arith)
body_sum-ne m n k (suc left) i c vm vn p q r ne same = elim (ℕ_discrete i k) [
  | yes here ↦ λ e. ne (
      rw (← here) (
        crc_step_inj_byte (m i) (n i) c (vm i) (vn i) p (
          body_sum_inj n left (i + 1) (crc_step (m i) c) (crc_step (n i) c) vn
            (crc_step-lt (m i) c (vm i) p) (crc_step-lt (n i) c (vn i) p)
            (sym
                (body_sum_congr m n left (i + 1) (crc_step (m i) c) (λ j a b. same j (omega arith)))
              ∙ e))))
  | no later ↦ rw (same i later) (
      body_sum-ne m n k left (i + 1) (crc_step (n i) c) vm vn (crc_step-lt (n i) c (vn i) p)
        (omega arith) (omega arith) ne same)
]

abbrev plain_of : Table → Head → Memory → Memory
plain_of rt h m j = xor_byte (m j) (body_key rt h j)

-- The verdict of the body decoder is a comparison of checksums.
verdict :
    (buflen_of : Head → ℕ) (rt : Table) (m : Memory)
    → let h = word_head (load40 m) in
      (decode_packet_body buflen_of rt m).0
      ≡ (body_sum (plain_of rt h m) (buflen_of h - 6) 6 (sum_head h 5 0 0) == m 5)
unfolding decode_packet_body
verdict buflen_of rt m =
    let h = word_head (load40 m) in
    let start : Loop = record { checksum = sum_head h 5 0 0; buffer = m } in
    ground (
      arith,
      decode_body-checksum rt h (buflen_of h - 6) 6 start,
      decode_body-mixed rt h (buflen_of h - 6) 6 start 5,
      mixed_before rt h (buflen_of h - 6) 6 m 5,
    )

module _ (buflen_of : Head → ℕ) (rt : Table) (m : Memory) (k x : ℕ) where
  same_head : 6 ≤ k → word_head (load40 (store m k x)) ≡ word_head (load40 m)
  same_head lo = ap word_head (load40_congr (store m k x) m (λ j p. ground arith))

  plain-ne :
      (h : Head) → IsBytes m → x < 256 → x ≢ m k → plain_of rt h m k ≢ plain_of rt h (store m k x) k
  plain-ne h v xb ne e = ne (
      sym (xor_byte_cancel x (body_key rt h k) xb)
      ∙ ap (λ (t : ℕ). xor_byte t (body_key rt h k)) (ground (arith, e))
      ∙ xor_byte_cancel (m k) (body_key rt h k) (v k))

  -- For either body decoder: if it accepts a packet, it rejects it with one body byte changed.
  one_byte_rejected :
      IsBytes m
      → x < 256
      → x ≢ m k
      → 6 ≤ k
      → k < buflen_of (word_head (load40 m))
      → (decode_packet_body buflen_of rt m).0 ≡ true
      → (decode_packet_body buflen_of rt (store m k x)).0 ≡ false
  one_byte_rejected v xb ne lo hi accepted =
      let h = word_head (load40 m) in
      let left = buflen_of h - 6 in
      let differs =
        body_sum-ne (plain_of rt h m) (plain_of rt h (store m k x)) k left 6 (sum_head h 5 0 0)
          (λ j. xor_byte-lt (m j) (body_key rt h j))
          (λ j. xor_byte-lt (store m k x j) (body_key rt h j)) (sum_head-lt h 5 0 0 (omega arith))
          lo (omega arith) (plain-ne h v xb ne) (λ j away. ground arith) in
      verdict buflen_of rt (store m k x)
      ∙ rw (same_head lo) (ground (arith, differs, sym (verdict buflen_of rt m) ∙ accepted))

-- If the body decoder for server packets accepts a buffer, it rejects it once any single byte of
-- the enciphered body, from byte 6 up to the length in the header, has another value.
pub decode_server_body-rejects :
    (rt : Table) (m : Memory) (k x : ℕ)
    → IsBytes m
    → x < 256
    → x ≢ m k
    → 6 ≤ k
    → k < server_buflen (word_head (load40 m))
    → (decode_server_body rt m).0 ≡ true
    → (decode_server_body rt (store m k x)).0 ≡ false
unfolding decode_server_body
decode_server_body-rejects = one_byte_rejected server_buflen

-- The same of the body decoder for client packets, up to the length that it computes.
pub decode_client_body-rejects :
    (rt : Table) (m : Memory) (k x : ℕ)
    → IsBytes m
    → x < 256
    → x ≢ m k
    → 6 ≤ k
    → k < client_buflen (word_head (load40 m))
    → (decode_client_body rt m).0 ≡ true
    → (decode_client_body rt (store m k x)).0 ≡ false
unfolding decode_client_body
decode_client_body-rejects = one_byte_rejected client_buflen
