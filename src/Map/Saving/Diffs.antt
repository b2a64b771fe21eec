-- ===== src/Map/Saving/Diffs.antt =====
-- What the loops over the rows and over the slots put in the lists, for one slot.
use os_irose_new.Common.{
  ℕ, zero, suc, ◌+◌, ◌≤◌, ◌<◌, ◌≡◌, refl, Bool, true, false, not, ◌&&◌, List, [], ◌∷◌, ltb,
  if◌then◌else◌, arith,
}
use os_irose_new.Common.{count}
use native.Mathlib.Decide.{ℕ_discrete}
use os_irose_new.Login.Database.{select}
use os_irose_new.Map.Inventory.{Item, max_items, is_item}
use os_irose_new.Map.Saving.{Row, of_char, contains, same_item, item_of_row, missing, classify}
use os_irose_new.Map.Saving.Slots.{at}

abbrev pub filled : List Row → Bool
filled [] = false
filled (row ∷ rows) = true

module _ {Script : Type 0} where
  missing-below :
      (items : ℕ → Item Script) (modified : List ℕ) (s left i : ℕ)
      → s < i
      → count s (missing items modified left i) ≡ 0
  unfolding missing
  missing-below items modified s zero i h = refl
  missing-below items modified s (suc left) i h =
      ground (arith, h, missing-below items modified s left (i + 1) (omega arith))

  pub count-missing :
      (items : ℕ → Item Script) (modified : List ℕ) (s left i : ℕ)
      → i ≤ s
      → count s (missing items modified left i)
        ≡ (if ltb s (i + left) && (is_item (items s) && not (contains s modified)) then 1 else 0)
  unfolding missing
  count-missing items modified s zero i h = ground (arith, h)
  count-missing items modified s (suc left) i h = elim (ℕ_discrete s i) [
    | yes same ↦
        let later : count s (missing items modified left (i + 1)) ≡ 0 =
          missing-below items modified s left (i + 1) (omega arith) in
        let kept : is_item (items i) && not (contains i modified)
            ≡ is_item (items s) && not (contains s modified) =
          rw same refl in
        ground (arith, same, later, kept)
    | no other ↦ ground (arith, h, other, count-missing items modified s left (i + 1) (omega arith))
  ]

module _ {Script : Type 0} (no_script : Script) where
  -- Some row differs from the item.
  abbrev pub differs : Item Script → List Row → Bool
  differs item [] = false
  differs item (row ∷ rows) =
      if same_item item (item_of_row no_script row) then differs item rows else true

  pub modified-classify :
      (items : ℕ → Item Script) (c s : ℕ) (rows : List Row)
      → contains s (classify no_script items (select (of_char c) rows)).modified
        ≡ filled (at c s rows)
  unfolding classify select
  modified-classify items c s [] = refl
  modified-classify items c s (row ∷ rows) = ground (arith, modified-classify items c s rows)

  pub to_delete-classify :
      (items : ℕ → Item Script) (c s : ℕ) (rows : List Row)
      → contains s (classify no_script items (select (of_char c) rows)).to_delete
        ≡ filled (at c s rows) && not (ltb s max_items && is_item (items s))
  unfolding classify select
  to_delete-classify items c s [] = refl
  to_delete-classify items c s (row ∷ rows) = ground (arith, to_delete-classify items c s rows)

  pub to_update-classify :
      (items : ℕ → Item Script) (c s : ℕ) (rows : List Row)
      → contains s (classify no_script items (select (of_char c) rows)).to_update
        ≡ (ltb s max_items && is_item (items s)) && differs (items s) (at c s rows)
  unfolding classify select
  to_update-classify items c s [] = ground (arith)
  to_update-classify items c s (row ∷ rows) = ground (arith, to_update-classify items c s rows)
