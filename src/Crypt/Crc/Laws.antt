-- ===== src/Crypt/Crc/Laws.antt =====
-- The checksum table is that of CRC-8 with the polynomial x^8 + x^5 + x^4 + 1, and it is a
-- permutation of the bytes: a step of the checksum loses nothing.
use os_irose_new.Common.{false, ◌≤◌}
use os_irose_new.Common.{
  ℕ, zero, suc, ◌+◌, ◌*◌, ◌/◌, ◌%◌, ◌<◌, ◌≡◌, refl, sym, ap, ◌∙◌, Bool, true, arith, ◌==◌, ==_iff,
  if◌then◌else◌, bit_xor,
}
use native.Mathlib.Decide.{ℕ_discrete}
use os_irose_new.Common.Xor.{xor_cancel, xor_comm, xor-lt}
use os_irose_new.Crypt.Crc.{crc, crc_step}

-- A test of the `left` numbers from `i` on, run by evaluation.
passes : (ℕ → Bool) → ℕ → ℕ → Bool
passes test i zero = true
passes test i (suc left) = if test i then passes test (i + 1) left else false

passes_at :
    (test : ℕ → Bool) (left i x : ℕ)
    → passes test i left ≡ true
    → i ≤ x
    → x < i + left
    → test x ≡ true
unfolding passes
passes_at test zero i x e lo hi = absurd (omega arith)
passes_at test (suc left) i x e lo hi = elim (ℕ_discrete i x) [
  | yes here ↦ ap test (sym here) ∙ first
  | no later ↦ passes_at test left (i + 1) x rest (omega arith) (omega arith)
]
  where
    first : test i ≡ true
    first = ground (arith, e)

    rest : passes test (i + 1) left ≡ true
    rest = ground (arith, e)

passes_byte : (test : ℕ → Bool) → passes test 0 256 ≡ true → (x : ℕ) → x < 256 → test x ≡ true
passes_byte test e x h = passes_at test 256 0 x e (omega arith) (omega arith)

-- One bit of CRC-8 with the reflected polynomial 0x8c, lowest bit first.
abbrev pub crc8_bit : ℕ → ℕ
crc8_bit c = if c % 2 == 1 then bit_xor (c / 2) 0x8c else c / 2

abbrev pub crc8_bits : ℕ → ℕ → ℕ
crc8_bits zero c = c
crc8_bits (suc n) c = crc8_bits n (crc8_bit c)

crc_table_check : passes (λ i. crc i == crc8_bits 8 i) 0 256 ≡ true
unfolding passes crc
crc_table_check = refl

-- The table entry of a byte is what eight steps of the bitwise CRC-8 make of it.
pub crc-eq-crc8_bits : (i : ℕ) → i < 256 → crc i ≡ crc8_bits 8 i
crc-eq-crc8_bits i h = (==_iff _ _).0 (passes_byte _ crc_table_check i h)

-- The other way: eight steps of the CRC backwards. The top bit tells whether the polynomial was added.
abbrev uncrc8_bit : ℕ → ℕ
uncrc8_bit c = if c / 128 == 1 then bit_xor c 0x8c * 2 + 1 else c * 2

abbrev uncrc8_bits : ℕ → ℕ → ℕ
uncrc8_bits zero c = c
uncrc8_bits (suc n) c = uncrc8_bits n (uncrc8_bit c)

uncrc_check : passes (λ i. uncrc8_bits 8 (crc i) == i) 0 256 ≡ true
unfolding passes crc
uncrc_check = refl

crc_byte_check : passes (λ i. crc i / 256 == 0) 0 256 ≡ true
unfolding passes crc
crc_byte_check = refl

pub crc-lt : (i : ℕ) → i < 256 → crc i < 256
crc-lt i h = omega (arith, (==_iff _ _).0 (passes_byte _ crc_byte_check i h))

uncrc : (i : ℕ) → i < 256 → uncrc8_bits 8 (crc i) ≡ i
uncrc i h = (==_iff _ _).0 (passes_byte _ uncrc_check i h)

crc_inj : (i j : ℕ) → i < 256 → j < 256 → crc i ≡ crc j → i ≡ j
crc_inj i j p q e = sym (uncrc i p) ∙ ap (uncrc8_bits 8) e ∙ uncrc j q

pub crc_step-lt : (b c : ℕ) → b < 256 → c < 256 → crc_step b c < 256
unfolding crc_step
crc_step-lt b c p q = crc-lt (bit_xor b c) (xor-lt 8 b c p q)

-- Two bytes that take one checksum to the same checksum are the same byte.
pub crc_step_inj_byte :
    (a b c : ℕ) → a < 256 → b < 256 → c < 256 → crc_step a c ≡ crc_step b c → a ≡ b
unfolding crc_step
crc_step_inj_byte a b c p q r e =
    sym (xor_cancel a c)
    ∙ ap (λ (t : ℕ). bit_xor t c)
        (crc_inj (bit_xor a c) (bit_xor b c) (xor-lt 8 a c p r) (xor-lt 8 b c q r) e)
    ∙ xor_cancel b c

-- Two checksums that one byte takes to the same checksum are the same.
pub crc_step_inj_sum :
    (b c d : ℕ) → b < 256 → c < 256 → d < 256 → crc_step b c ≡ crc_step b d → c ≡ d
crc_step_inj_sum b c d p q r e = crc_step_inj_byte c d b q r p (swap c ∙ e ∙ sym (swap d))
  where
    swap : (x : ℕ) → crc_step x b ≡ crc_step b x
    swap x = unfold crc_step in ap crc (xor_comm x b)
