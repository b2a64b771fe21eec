-- ===== src/Crypt/Rng/Laws.antt =====
-- No generator forgets its seed: each step can be taken back.
use os_irose_new.Common.{◌+◌, ◌-◌, ◌*◌, ◌%◌, ◌^◌, ◌<◌, ◌≡◌, refl, arith, u32}
use os_irose_new.Crypt.Rng.{RngType, bc, ac, my, vc, RoseRandomNumber, get}

-- The seeds are within the ranges that the steps keep them in: 32 bits, or 31 behind the mask.
pub record IsSeeded (r : RoseRandomNumber) : Type 0 where
  pub bc_seed : r.bc_seed < 2 ^ 32
  pub my_seed : r.my_seed < 2 ^ 32
  pub ac_seed : r.ac_seed < 2 ^ 31
  pub vc_seed : r.vc_seed < 2 ^ 31

abbrev pub unget_as : RngType → RoseRandomNumber → RoseRandomNumber
unget_as bc r = record r { bc_seed = u32 ((r.bc_seed + (2 ^ 32 - 1)) * 3645876429) }
unget_as ac r = record r { ac_seed = (r.ac_seed + (2 ^ 31 - 12345)) * 1857678181 % 2 ^ 31 }
unget_as my r = record r { my_seed = u32 ((r.my_seed + (2 ^ 32 - 12345)) * 4005161829) }
unget_as vc r = record r { vc_seed = (r.vc_seed + (2 ^ 31 - 0x269EC3)) * 968044885 % 2 ^ 31 }

unget-get_as :
    (t : RngType) (r : RoseRandomNumber) → r.rng_type ≡ t → IsSeeded r → unget_as t (get r).0 ≡ r
unfolding get
unget-get_as bc r e v = ground arith
unget-get_as ac r e v = ground arith
unget-get_as my r e v = ground arith
unget-get_as vc r e v = ground arith

get-IsSeeded :
    (t : RngType) (r : RoseRandomNumber) → r.rng_type ≡ t → IsSeeded r → IsSeeded (get r).0
unfolding get
get-IsSeeded bc r e v = ground arith
get-IsSeeded ac r e v = ground arith
get-IsSeeded my r e v = ground arith
get-IsSeeded vc r e v = ground arith

-- From seeds in their ranges, each of the four generators leaves seeds in their ranges, and its step
-- can be taken back: no state is reached from two others.
pub unget-get :
    (r : RoseRandomNumber) → IsSeeded r → IsSeeded (get r).0 × (unget_as r.rng_type (get r).0 ≡ r)
unget-get r v = (get-IsSeeded r.rng_type r refl v, unget-get_as r.rng_type r refl v)
