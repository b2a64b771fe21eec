-- ===== src/Map/Ids.antt =====
-- IdManager (src/map/include/id_manager.h, src/map/src/id_manager.cpp). The set of free identifiers is a list in
-- the order of the hash table; where `emplace` puts an identifier is an argument.
use os_irose_new.Common.{count, without, count-without}
use os_irose_new.Common.{
  ℕ, ◌+◌, ◌-◌, ◌^◌, ◌≤◌, ◌<◌, ◌≡◌, List, [], ◌∷◌, ◌==◌, if◌then◌else◌, u16, arith,
}

pub record IdManager : Type 0 where
  pub free_ids : List ℕ
  pub max_id : ℕ

abbrev pub new_ids : IdManager
new_ids = record { free_ids = []; max_id = 0 }

-- The identifier and the manager afterwards.
unfoldable pub get_free_id : IdManager → ℕ × IdManager
get_free_id m = elim m.free_ids [
  | [] ↦ (m.max_id, record m { max_id = u16 (m.max_id + 1) })
  | i ∷ rest ↦ (i, record m { free_ids = rest })
]

-- A set takes an element once.
unfoldable pub release_id : (ℕ → List ℕ → List ℕ) → IdManager → ℕ → IdManager
release_id emplace m i =
    if count i m.free_ids == 0 then record m { free_ids = emplace i m.free_ids } else m

module _ (emplace : ℕ → List ℕ → List ℕ) where
  -- What the entity system can bring about: the identifiers in use, and the manager. It gives back what is in
  -- use only, and never holds all the numbers below 2^16 - 1.
  pub data Reaches : List ℕ → IdManager → Type 0 where
    start : Reaches [] new_ids
    acquire :
        {used : List ℕ} {m : IdManager}
        → Reaches used m
        → m.max_id < 2 ^ 16 - 1
        → Reaches ((get_free_id m).0 ∷ used) (get_free_id m).1
    release :
        {used : List ℕ} {m : IdManager} (i : ℕ)
        → Reaches used m
        → 0 < count i used
        → Reaches (without i used) (release_id emplace m i)

-- Every identifier is in use or free at most once, never both, and below max_id.
pub record IsUnique (used : List ℕ) (m : IdManager) : Type 0 where
  pub once : (i : ℕ) → count i used + count i m.free_ids ≤ 1
  pub below : (i : ℕ) → 0 < count i used + count i m.free_ids → i < m.max_id

get_free_id-IsUnique :
    (used : List ℕ) (free_ids : List ℕ) (max_id : ℕ)
    → (let m : IdManager = record { free_ids = free_ids; max_id = max_id } in
        IsUnique used m
        → max_id < 2 ^ 16 - 1
        → IsUnique ((get_free_id m).0 ∷ used) (get_free_id m).1)
unfolding get_free_id
get_free_id-IsUnique used [] max_id u h = record {
  once = λ i. ground (arith, u.once i, u.below i);
  below = λ i p. ground (arith, u.below i);
}
get_free_id-IsUnique used (j ∷ rest) max_id u h = record {
  once = λ i. ground (arith, u.once i, u.below i);
  below = λ i p. ground (arith, u.below i);
}

module _ (emplace : ℕ → List ℕ → List ℕ)
    (emplaced : (i j : ℕ) (ids : List ℕ) → count j (emplace i ids) ≡ count j (i ∷ ids)) where
  release_id-IsUnique :
      (used : List ℕ) (m : IdManager) (i : ℕ)
      → IsUnique used m
      → 0 < count i used
      → IsUnique (without i used) (release_id emplace m i)
  unfolding release_id
  release_id-IsUnique used m i u h = record {
    once =
        λ j. ground (arith, u.once j, u.once i, count-without i j used h, emplaced i j m.free_ids);
    below = λ j p.
        ground (
          arith,
          u.below j,
          u.once i,
          u.below i,
          count-without i j used h,
          emplaced i j m.free_ids,
        );
  }

  -- However identifiers are taken and given back, none is in use twice or both in use and free, and each is
  -- below max_id, if `emplace` adds its argument to the set and nothing else. Only identifiers in use are
  -- given back, and max_id is below 2^16 - 1 before one is taken.
  pub Reaches-IsUnique : (used : List ℕ) (m : IdManager) → Reaches emplace used m → IsUnique used m
  Reaches-IsUnique used m start = record {
    once = λ i. omega arith;
    below = λ i p. absurd (omega arith);
  }
  Reaches-IsUnique used m (acquire {used = used'} {m = m'} r h) =
      get_free_id-IsUnique used' m'.free_ids m'.max_id (Reaches-IsUnique used' m' r) h
  Reaches-IsUnique used m (release {used = used'} {m = m'} i r h) =
      release_id-IsUnique used' m' i (Reaches-IsUnique used' m' r) h
