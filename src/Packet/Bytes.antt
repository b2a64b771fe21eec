-- ===== src/Packet/Bytes.antt =====
-- Values as bytes, lowest first, and runs of bytes in memory.
use os_irose_new.Common.{
  ℕ, zero, suc, ◌+◌, ◌*◌, ◌/◌, ◌%◌, ◌≤◌, ◌<◌, ◌≡◌, refl, ap, ap₂, ◌∙◌, List, [], ◌∷◌, ◌++◌, arith,
  length,
}
use native.Mathlib.Nat.{add-zero}
use os_irose_new.Common.Memory.{Memory, store}

add_regroup : (i n : ℕ) → i + suc n ≡ i + 1 + n
add_regroup i n = omega arith

-- The `n` bytes of a number.
abbrev pub le : ℕ → ℕ → List ℕ
le zero v = []
le (suc n) v = (v % 256) ∷ le n (v / 256)

abbrev pub from_le : List ℕ → ℕ
from_le [] = 0
from_le (b ∷ bs) = b + 256 * from_le bs

-- memcpy of the bytes `bs` to `m + i`
unfoldable pub store_bytes : Memory → ℕ → List ℕ → Memory
store_bytes m i [] = m
store_bytes m i (b ∷ bs) = store_bytes (store m i b) (i + 1) bs

unfoldable pub load_bytes : Memory → ℕ → ℕ → List ℕ
load_bytes m i zero = []
load_bytes m i (suc n) = m i ∷ load_bytes m (i + 1) n

-- The bytes at `i` are `bs`.
abbrev pub Holds : Memory → ℕ → List ℕ → Type 0
Holds m i [] = Unit
Holds m i (b ∷ bs) = (m i ≡ b) × Holds m (i + 1) bs

pub store_bytes_outside_before :
    (m : Memory) (i : ℕ) (bs : List ℕ) (j : ℕ) → j < i → store_bytes m i bs j ≡ m j
unfolding store_bytes
store_bytes_outside_before m i [] j p = refl
store_bytes_outside_before m i (b ∷ bs) j p =
    ground (arith, store_bytes_outside_before (store m i b) (i + 1) bs j)

pub store_bytes_outside_after :
    (m : Memory) (i : ℕ) (bs : List ℕ) (j : ℕ) → i + length bs ≤ j → store_bytes m i bs j ≡ m j
unfolding store_bytes
store_bytes_outside_after m i [] j p = refl
store_bytes_outside_after m i (b ∷ bs) j p =
    ground (arith, store_bytes_outside_after (store m i b) (i + 1) bs j)

pub Holds-store_bytes : (m : Memory) (i : ℕ) (bs : List ℕ) → Holds (store_bytes m i bs) i bs
unfolding store_bytes
Holds-store_bytes m i [] = tt
Holds-store_bytes m i (b ∷ bs) = (
  store_bytes_outside_before (store m i b) (i + 1) bs i (omega arith) ∙ ground arith,
  Holds-store_bytes (store m i b) (i + 1) bs,
)

pub Holds-congr :
    (m n : Memory) (i : ℕ) (bs : List ℕ)
    → ((j : ℕ) → i ≤ j → j < i + length bs → m j ≡ n j)
    → Holds n i bs
    → Holds m i bs
Holds-congr m n i [] e h = tt
Holds-congr m n i (b ∷ bs) e h = (
  e i (omega arith) (omega arith) ∙ h.0,
  Holds-congr m n (i + 1) bs (λ j p q. e j (omega arith) (omega arith)) h.1,
)

pub Holds-append :
    (m : Memory) (i : ℕ) (bs cs : List ℕ)
    → Holds m i bs
    → Holds m (i + length bs) cs
    → Holds m i (bs ++ cs)
Holds-append m i [] cs p q = rw (← add-zero i) q
Holds-append m i (b ∷ bs) cs p q =
    (p.0, Holds-append m (i + 1) bs cs p.1 (rw (← add_regroup i (length bs)) q))

pub Holds-left : (m : Memory) (i : ℕ) (bs cs : List ℕ) → Holds m i (bs ++ cs) → Holds m i bs
Holds-left m i [] cs p = tt
Holds-left m i (b ∷ bs) cs p = (p.0, Holds-left m (i + 1) bs cs p.1)

pub Holds-right :
    (m : Memory) (i : ℕ) (bs cs : List ℕ) → Holds m i (bs ++ cs) → Holds m (i + length bs) cs
Holds-right m i [] cs p = rw add-zero p
Holds-right m i (b ∷ bs) cs p = rw (add_regroup i (length bs)) (Holds-right m (i + 1) bs cs p.1)

pub load_bytes-Holds :
    (m : Memory) (i : ℕ) (bs : List ℕ) → Holds m i bs → load_bytes m i (length bs) ≡ bs
unfolding load_bytes
load_bytes-Holds m i [] p = refl
load_bytes-Holds m i (b ∷ bs) p = ap₂ ◌∷◌ p.0 (load_bytes-Holds m (i + 1) bs p.1)

pub length-load_bytes : (m : Memory) (i n : ℕ) → length (load_bytes m i n) ≡ n
unfolding load_bytes
length-load_bytes m i zero = refl
length-load_bytes m i (suc n) = ap suc (length-load_bytes m (i + 1) n)

load_bytes_at : (m : Memory) (i j n k : ℕ) → i ≡ j → n ≡ k → load_bytes m i n ≡ load_bytes m j k
load_bytes_at m i j n k p q = ap₂ (load_bytes m) p q

pub load_bytes-append :
    (m : Memory) (i n k : ℕ) → load_bytes m i (n + k) ≡ load_bytes m i n ++ load_bytes m (i + n) k
unfolding load_bytes
load_bytes-append m i zero k = load_bytes_at m i (i + 0) (0 + k) k (omega arith) (omega arith)
load_bytes-append m i (suc n) k =
    load_bytes_at m i i (suc n + k) (suc (n + k)) refl (omega arith)
    ∙ ap (λ (bs : List ℕ). m i ∷ bs)
        (load_bytes-append m (i + 1) n k
          ∙ ap (λ (bs : List ℕ). load_bytes m (i + 1) n ++ bs)
              (load_bytes_at m (i + 1 + n) (i + suc n) k k (omega arith) refl))

-- Bytes that are copied to where they came from are as they were there.
pub store_bytes-load_bytes :
    (m n : Memory) (i k j : ℕ) → i ≤ j → j < i + k → store_bytes m i (load_bytes n i k) j ≡ n j
unfolding store_bytes load_bytes
store_bytes-load_bytes m n i zero j lo hi = absurd (omega arith)
store_bytes-load_bytes m n i (suc k) j lo hi = ground (
  arith,
  store_bytes-load_bytes (store m i (n i)) n (i + 1) k j,
  store_bytes_outside_before (store m i (n i)) (i + 1) (load_bytes n (i + 1) k) j,
)
