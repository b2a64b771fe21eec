-- ===== src/Crypt/Codec/Body.antt =====
-- The two loops over the body of a packet in closed form: which bytes they change and what they
-- add to the checksum.
use os_irose_new.Common.{
  ℕ, zero, suc, ◌+◌, ◌≤◌, ◌<◌, ◌≡◌, refl, ◌∙◌, arith, ltb, leb, ◌&&◌, if◌then◌else◌,
}
use os_irose_new.Common.Memory.{Memory, IsBytes, store}
use os_irose_new.Common.Xor.{xor_byte, xor_byte-lt}
use os_irose_new.Crypt.Crc.{crc_step}
use os_irose_new.Crypt.Crc.Laws.{crc_step-lt}
use os_irose_new.Crypt.Head.{Head}
use os_irose_new.Crypt.Codec.{Table, Loop, body_key, encode_body, decode_body}

-- The checksum of the bytes from `i` on, `left` of them, after `c`.
unfoldable pub body_sum : Memory → ℕ → ℕ → ℕ → ℕ
body_sum m zero i c = c
body_sum m (suc left) i c = body_sum m left (i + 1) (crc_step (m i) c)

-- The bytes from `i` on, `left` of them, each mixed with its key.
unfoldable pub mixed : Table → Head → ℕ → ℕ → Memory → Memory
mixed rt h left i m j =
    if leb i j && ltb j (i + left) then xor_byte (m j) (body_key rt h j) else m j

pub body_sum_congr :
    (m n : Memory) (left i c : ℕ)
    → ((j : ℕ) → i ≤ j → j < i + left → m j ≡ n j)
    → body_sum m left i c ≡ body_sum n left i c
unfolding body_sum
body_sum_congr m n zero i c h = refl
body_sum_congr m n (suc left) i c h =
    rw (h i (omega arith) (omega arith)) (
      body_sum_congr m n left (i + 1) (crc_step (n i) c) (λ j p q. h j (omega arith) (omega arith)))

pub encode_body-mixed :
    (rt : Table) (h : Head) (left i : ℕ) (s : Loop) (j : ℕ)
    → (encode_body rt h left i s).buffer j ≡ mixed rt h left i s.buffer j
unfolding encode_body mixed
encode_body-mixed rt h zero i s j = ground arith
encode_body-mixed rt h (suc left) i s j = ground (
  arith,
  encode_body-mixed rt h left (i + 1)
      (record {
        checksum = crc_step (s.buffer i) s.checksum;
        buffer = store s.buffer i (xor_byte (s.buffer i) (body_key rt h i));
      })
      j,
)

pub decode_body-mixed :
    (rt : Table) (h : Head) (left i : ℕ) (s : Loop) (j : ℕ)
    → (decode_body rt h left i s).buffer j ≡ mixed rt h left i s.buffer j
unfolding decode_body mixed
decode_body-mixed rt h zero i s j = ground arith
decode_body-mixed rt h (suc left) i s j =
    let plain = xor_byte (s.buffer i) (body_key rt h i) in
    ground (
      arith,
      decode_body-mixed rt h left (i + 1)
          (record { checksum = crc_step plain s.checksum; buffer = store s.buffer i plain }) j,
    )

-- The sum is over the bytes before they are ciphered.
pub encode_body-checksum :
    (rt : Table) (h : Head) (left i : ℕ) (s : Loop)
    → (encode_body rt h left i s).checksum ≡ body_sum s.buffer left i s.checksum
unfolding encode_body body_sum
encode_body-checksum rt h zero i s = refl
encode_body-checksum rt h (suc left) i s =
    let sum = crc_step (s.buffer i) s.checksum in
    let next = store s.buffer i (xor_byte (s.buffer i) (body_key rt h i)) in
    encode_body-checksum rt h left (i + 1) (record { checksum = sum; buffer = next })
    ∙ body_sum_congr next s.buffer left (i + 1) sum (λ j p q. ground arith)

-- The sum is over the bytes after they are deciphered.
pub decode_body-checksum :
    (rt : Table) (h : Head) (left i : ℕ) (s : Loop)
    → (decode_body rt h left i s).checksum
      ≡ body_sum (λ j. xor_byte (s.buffer j) (body_key rt h j)) left i s.checksum
unfolding decode_body body_sum
decode_body-checksum rt h zero i s = refl
decode_body-checksum rt h (suc left) i s =
    let plain = λ (m : Memory) (j : ℕ). xor_byte (m j) (body_key rt h j) in
    let sum = crc_step (plain s.buffer i) s.checksum in
    let next = store s.buffer i (plain s.buffer i) in
    decode_body-checksum rt h left (i + 1) (record { checksum = sum; buffer = next })
    ∙ body_sum_congr (plain next) (plain s.buffer) left (i + 1) sum (λ j p q. ground arith)

pub mixed_inside :
    (rt : Table) (h : Head) (left i : ℕ) (m : Memory) (j : ℕ)
    → i ≤ j
    → j < i + left
    → mixed rt h left i m j ≡ xor_byte (m j) (body_key rt h j)
unfolding mixed
mixed_inside rt h left i m j p q = ground arith

pub mixed_before :
    (rt : Table) (h : Head) (left i : ℕ) (m : Memory) (j : ℕ) → j < i → mixed rt h left i m j ≡ m j
unfolding mixed
mixed_before rt h left i m j p = ground arith

pub mixed_after :
    (rt : Table) (h : Head) (left i : ℕ) (m : Memory) (j : ℕ)
    → i + left ≤ j
    → mixed rt h left i m j ≡ m j
unfolding mixed
mixed_after rt h left i m j p = ground arith

pub mixed-IsBytes :
    (rt : Table) (h : Head) (left i : ℕ) (m : Memory) → IsBytes m → IsBytes (mixed rt h left i m)
unfolding mixed
mixed-IsBytes rt h left i m v j = ground (arith, v j, xor_byte-lt (m j) (body_key rt h j))

pub body_sum-lt : (m : Memory) (left i c : ℕ) → IsBytes m → c < 256 → body_sum m left i c < 256
unfolding body_sum
body_sum-lt m zero i c v h = h
body_sum-lt m (suc left) i c v h =
    body_sum-lt m left (i + 1) (crc_step (m i) c) v (crc_step-lt (m i) c (v i) h)
