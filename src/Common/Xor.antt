-- ===== src/Common/Xor.antt =====
-- Laws of exclusive or at every width: it is its own inverse, and it goes under a division and a
-- remainder by a power of two, so under the reading of any bit-field.
use Prim.Native.Nat.{
  ℕ, zero, suc, ◌+◌, ◌*◌, ◌/◌, ◌%◌, ◌^◌, ◌≤◌, ◌<◌, bit_xor, digits, differ, bit_xor-bitwise,
}
use mathlib.Core.Path.{◌≡◌, refl, sym, ap, ap₂, subst, ◌∙◌}
use native.Mathlib.Nat.{
  le_refl, pow-succ', one-le-pow, div-div-eq-div-mul, div-one, mod-one, mod-lt, div-add-mod,
  add-mul-mod_self_left, mod-eq_of_lt, mod-mod,
}
use native.Mathlib.Omega.{arith}

-- The recursion on digits, with fuel to spare.
abbrev xor_digits : ℕ → ℕ → ℕ → ℕ
xor_digits = digits (λ y. y) differ

xor_digits_fuel : (n m a b : ℕ) → a ≤ n → a ≤ m → xor_digits n a b ≡ xor_digits m a b
xor_digits_fuel zero zero zero b p q = refl
xor_digits_fuel zero (suc m) zero b p q = refl
xor_digits_fuel (suc n) zero zero b p q = refl
xor_digits_fuel (suc n) (suc m) zero b p q = refl
xor_digits_fuel (suc n) (suc m) (suc a) b p q =
    ap (λ (t : ℕ). t * 2 + differ (suc a % 2) (b % 2))
      (xor_digits_fuel n m (suc a / 2) (b / 2) (omega arith) (omega arith))
xor_digits_fuel zero m (suc a) b p q = absurd (omega arith)
xor_digits_fuel (suc n) zero (suc a) b p q = absurd (omega arith)

zero-xor : (b : ℕ) → bit_xor 0 b ≡ b
zero-xor b = bit_xor-bitwise 0 b

-- The lowest digit and the rest.
xor-digit : (a b : ℕ) → bit_xor a b ≡ bit_xor (a / 2) (b / 2) * 2 + differ (a % 2) (b % 2)
xor-digit zero b = omega (arith, zero-xor b, zero-xor (b / 2))
xor-digit (suc a) b = omega (
  arith,
  bit_xor-bitwise (suc a) b,
  bit_xor-bitwise (suc a / 2) (b / 2),
  xor_digits_fuel a (suc a / 2) (suc a / 2) (b / 2) (omega arith) (le_refl _),
)

differ-lt : (a b : ℕ) → differ (a % 2) (b % 2) < 2
differ-lt a b = go (a % 2) (b % 2) (omega arith) (omega arith)
  where
    go : (x y : ℕ) → x < 2 → y < 2 → differ x y < 2
    go zero y p q = q
    go (suc zero) zero p q = omega arith
    go (suc zero) (suc zero) p q = omega arith
    go (suc zero) (suc (suc y)) p q = absurd (omega arith)
    go (suc (suc x)) y p q = absurd (omega arith)

differ_cancel : (a b : ℕ) → differ (differ (a % 2) (b % 2)) (b % 2) ≡ a % 2
differ_cancel a b = go (a % 2) (b % 2) (omega arith) (omega arith)
  where
    go : (x y : ℕ) → x < 2 → y < 2 → differ (differ x y) y ≡ x
    go zero zero p q = refl
    go zero (suc zero) p q = refl
    go (suc zero) zero p q = refl
    go (suc zero) (suc zero) p q = refl
    go x (suc (suc y)) p q = absurd (omega arith)
    go (suc (suc x)) y p q = absurd (omega arith)

xor-half : (a b : ℕ) → bit_xor a b / 2 ≡ bit_xor (a / 2) (b / 2)
xor-half a b = omega (arith, xor-digit a b, differ-lt a b)

xor-parity : (a b : ℕ) → bit_xor a b % 2 ≡ differ (a % 2) (b % 2)
xor-parity a b = omega (arith, xor-digit a b, differ-lt a b)

xor_cancel_fuel : (n a b : ℕ) → a ≤ n → b ≤ n → bit_xor (bit_xor a b) b ≡ a
xor_cancel_fuel zero zero zero p q = refl
xor_cancel_fuel zero (suc a) b p q = absurd (omega arith)
xor_cancel_fuel zero zero (suc b) p q = absurd (omega arith)
xor_cancel_fuel (suc n) a b p q =
    rw (xor-digit (bit_xor a b) b, xor-half, xor-parity, differ_cancel)
      (omega (arith, xor_cancel_fuel n (a / 2) (b / 2) (omega arith) (omega arith)))

-- A second exclusive or by the same number undoes the first.
pub xor_cancel : (a b : ℕ) → bit_xor (bit_xor a b) b ≡ a
xor_cancel a b = xor_cancel_fuel (a + b) a b (omega arith) (omega arith)

halve : (k x : ℕ) → x / 2 ^ suc k ≡ x / 2 / 2 ^ k
halve k x = ap (λ (t : ℕ). x / t) (pow-succ' 2 k) ∙ sym (div-div-eq-div-mul x 2 (2 ^ k))

pub xor-div : (k a b : ℕ) → bit_xor a b / 2 ^ k ≡ bit_xor (a / 2 ^ k) (b / 2 ^ k)
xor-div zero a b = div-one (bit_xor a b) ∙ ap₂ bit_xor (sym (div-one a)) (sym (div-one b))
xor-div (suc k) a b =
    rw (halve k (bit_xor a b), halve k a, halve k b, xor-half) (xor-div k (a / 2) (b / 2))

mod_unique : (m q r x : ℕ) → r < m → x ≡ r + m * q → x % m ≡ r
mod_unique m q r x h e = rw e (add-mul-mod_self_left r m q ∙ mod-eq_of_lt h)

mod_halve : (k x : ℕ) → x % 2 ^ suc k ≡ x / 2 % 2 ^ k * 2 + x % 2
mod_halve k x =
    mod_unique (2 ^ suc k) (x / 2 / 2 ^ k) _ x
      (omega (arith, pow-succ' 2 k, mod-lt (x / 2) (one-le-pow k 2 (omega arith))))
      (omega
        (arith, ap (λ (t : ℕ). t * (x / 2 / 2 ^ k)) (pow-succ' 2 k), div-add-mod (x / 2) (2 ^ k)))

half-mod : (k x : ℕ) → x % 2 ^ suc k / 2 ≡ x / 2 % 2 ^ k
half-mod k x = omega (arith, mod_halve k x)

parity-mod : (k x : ℕ) → x % 2 ^ suc k % 2 ≡ x % 2
parity-mod k x = omega (arith, mod_halve k x)

pub xor-mod : (k a b : ℕ) → bit_xor a b % 2 ^ k ≡ bit_xor (a % 2 ^ k) (b % 2 ^ k)
xor-mod zero a b = mod-one _ ∙ ap₂ bit_xor (sym (mod-one a)) (sym (mod-one b))
xor-mod (suc k) a b =
    rw (mod_halve k (bit_xor a b), xor-half, xor-parity, xor-mod k (a / 2) (b / 2))
      (sym (
        rw
          (
            xor-digit (a % 2 ^ suc k) (b % 2 ^ suc k),
            half-mod k a,
            half-mod k b,
            parity-mod k a,
            parity-mod k b,
          )
          refl))

-- The bits from `o` on, `w` of them: what reading a bit-field gives.
unfoldable pub field : ℕ → ℕ → ℕ → ℕ
field o w x = x / 2 ^ o % 2 ^ w

pub xor-field : (o w a b : ℕ) → field o w (bit_xor a b) ≡ bit_xor (field o w a) (field o w b)
unfolding field
xor-field o w a b = rw (xor-div o a b) (xor-mod w (a / 2 ^ o) (b / 2 ^ o))

-- The exclusive or of a byte with any number, cut to a byte: `buffer[i] ^= v`.
unfoldable pub xor_byte : ℕ → ℕ → ℕ
xor_byte x v = bit_xor x v % 256

pub xor_byte-lt : (x v : ℕ) → xor_byte x v < 256
unfolding xor_byte
xor_byte-lt x v = omega arith

pub xor_byte_cancel : (x v : ℕ) → x < 256 → xor_byte (xor_byte x v) v ≡ x
unfolding xor_byte
xor_byte_cancel x v h =
    rw (xor-mod 8 (bit_xor x v % 256) v, mod-mod, ← xor-mod 8 (bit_xor x v) v, xor_cancel)
      (mod-eq_of_lt h)

pub xor-lt : (k a b : ℕ) → a < 2 ^ k → b < 2 ^ k → bit_xor a b < 2 ^ k
xor-lt k a b p q =
    subst (λ (t : ℕ). t < 2 ^ k) (xor-mod k a b ∙ ap₂ bit_xor (mod-eq_of_lt p) (mod-eq_of_lt q))
      (mod-lt (bit_xor a b) (one-le-pow k 2 (omega arith)))

differ_comm : (a b : ℕ) → differ (a % 2) (b % 2) ≡ differ (b % 2) (a % 2)
differ_comm a b = go (a % 2) (b % 2) (omega arith) (omega arith)
  where
    go : (x y : ℕ) → x < 2 → y < 2 → differ x y ≡ differ y x
    go zero zero p q = refl
    go zero (suc zero) p q = refl
    go (suc zero) zero p q = refl
    go (suc zero) (suc zero) p q = refl
    go x (suc (suc y)) p q = absurd (omega arith)
    go (suc (suc x)) y p q = absurd (omega arith)

xor_comm_fuel : (n a b : ℕ) → a ≤ n → b ≤ n → bit_xor a b ≡ bit_xor b a
xor_comm_fuel zero zero zero p q = refl
xor_comm_fuel zero (suc a) b p q = absurd (omega arith)
xor_comm_fuel zero zero (suc b) p q = absurd (omega arith)
xor_comm_fuel (suc n) a b p q = omega (
  arith,
  xor-digit a b,
  xor-digit b a,
  differ_comm a b,
  xor_comm_fuel n (a / 2) (b / 2) (omega arith) (omega arith),
)

pub xor_comm : (a b : ℕ) → bit_xor a b ≡ bit_xor b a
xor_comm a b = xor_comm_fuel (a + b) a b (omega arith) (omega arith)
