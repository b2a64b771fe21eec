-- ===== src/Messages/Fields.antt =====
-- What the packet classes share: the fields that were read, by position, and the assertion on the type.
use os_irose_new.Common.{
  ℕ, zero, suc, List, [], ◌∷◌, Option, none, some, Bool, if◌then◌else◌, ◌==◌, ◌≡◌, refl, arith,
  length,
}
use os_irose_new.Packet.{Field, num8, num16, num32, text, raw}
use os_irose_new.Packet.Transfer.{IsText}

abbrev num_of : Field → ℕ
num_of (num8 v) = v
num_of (num16 v) = v
num_of (num32 v) = v
num_of (text cs) = 0
num_of (raw cs) = 0

abbrev chars_of : Field → List ℕ
chars_of (num8 v) = []
chars_of (num16 v) = []
chars_of (num32 v) = []
chars_of (text cs) = cs
chars_of (raw cs) = cs

-- The number, or the characters, that `>>` put into the i-th member.
abbrev pub num_at : List Field → ℕ → ℕ
num_at [] i = 0
num_at (f ∷ fs) zero = num_of f
num_at (f ∷ fs) (suc i) = num_at fs i

abbrev pub chars_at : List Field → ℕ → List ℕ
chars_at [] i = []
chars_at (f ∷ fs) zero = chars_of f
chars_at (f ∷ fs) (suc i) = chars_at fs i

-- throw_assert(test) before a constructor's result.
abbrev pub asserted {ℓ} : {A : Type ℓ} → Bool → A → Option A
asserted test a = if test then some a else none

-- The characters that a `const char *` to them shows: up to the first 0.
unfoldable pub c_str : List ℕ → List ℕ
c_str [] = []
c_str (c ∷ cs) = if c == 0 then [] else c ∷ c_str cs

pub c_str-IsText : (cs : List ℕ) → IsText cs → c_str cs ≡ cs
unfolding c_str
c_str-IsText [] t = refl
c_str-IsText (c ∷ cs) t = ground (arith, t.0, c_str-IsText cs t.1)

-- A password as the client sends it: 32 characters, none of them 0.
abbrev pub IsPassword : List ℕ → Type 0
IsPassword cs = IsText cs × (length cs ≡ 32)
