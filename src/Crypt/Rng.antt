-- ===== src/Crypt/Rng.antt =====
-- RoseRandomNumber (crosecrypt.h, crosecrypt.cpp). A seed is an `int`, kept as its 32-bit pattern;
-- products and sums wrap, as the project's compilers do.
pub mod Laws
use os_irose_new.Common.{ℕ, ◌+◌, ◌-◌, ◌*◌, ◌/◌, ◌%◌, ◌^◌, ltb, if◌then◌else◌, u32}

-- enum Type
pub data RngType : Type 0 where
  bc ac my vc : RngType

pub record RoseRandomNumber : Type 0 where
  pub rng_type : RngType
  pub vc_seed : ℕ
  pub bc_seed : ℕ
  pub ac_seed : ℕ
  pub my_seed : ℕ

unfoldable pub rose_random_number : ℕ → RoseRandomNumber
rose_random_number seed = record {
  rng_type = bc;
  vc_seed = seed;
  bc_seed = seed;
  ac_seed = seed;
  my_seed = seed;
}

unfoldable pub set_type : RoseRandomNumber → RngType → RoseRandomNumber
set_type r rng_type = record r { rng_type = rng_type }

-- The pattern of x / 0x10000, which rounds towards 0.
unfoldable pub div_high : ℕ → ℕ
div_high x = if ltb x (2 ^ 31) then x / 0x10000 else u32 (2 ^ 32 - (2 ^ 32 - x) / 0x10000)

unfoldable pub r_bc : RoseRandomNumber → RoseRandomNumber × ℕ
unfolding div_high
r_bc r = let seed = u32 (0x8088405 * r.bc_seed + 1) in (record r { bc_seed = seed }, div_high seed)

-- & 0x7FFFFFFF
unfoldable pub r_ac : RoseRandomNumber → RoseRandomNumber × ℕ
r_ac r = let seed = (0x41C64E6D * r.ac_seed + 12345) % 2 ^ 31 in (record r { ac_seed = seed }, seed)

unfoldable pub r_my : RoseRandomNumber → RoseRandomNumber × ℕ
unfolding div_high
r_my r =
    let seed = u32 (0x41C64E6D * r.my_seed + 12345) in (record r { my_seed = seed }, div_high seed)

unfoldable pub r_vc : RoseRandomNumber → RoseRandomNumber × ℕ
unfolding div_high
r_vc r =
    let seed = (0x343FD * r.vc_seed + 0x269EC3) % 2 ^ 31 in
    (record r { vc_seed = seed }, div_high seed)

-- The test of the type, as a choice of the generator.
get_as : RngType → RoseRandomNumber → RoseRandomNumber × ℕ
unfolding r_bc r_ac r_my r_vc
get_as bc r = r_bc r
get_as ac r = r_ac r
get_as my r = r_my r
get_as vc r = r_vc r

unfoldable pub get : RoseRandomNumber → RoseRandomNumber × ℕ
unfolding get_as
get r = get_as r.rng_type r
