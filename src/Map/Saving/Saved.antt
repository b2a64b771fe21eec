-- ===== src/Map/Saving/Saved.antt =====
-- The rows of a slot after saving.
use os_irose_new.Common.{
  ℕ, ◌<◌, ◌≡◌, ◌≢◌, refl, ap, ◌∙◌, Bool, true, false, not, ◌&&◌, List, [], ◌∷◌, ◌++◌, ◌==◌, ltb,
  if◌then◌else◌, arith,
}
use os_irose_new.Common.{count}
use native.Mathlib.Decide.{ℕ_discrete}
use os_irose_new.Login.Database.{select}
use os_irose_new.Map.Inventory.{Item, max_items, is_item}
use os_irose_new.Map.Saving.{
  Row, Diff, of_char, contains, missing, classify, set_row, row_of, delete_slots, update_slots,
  save_inventory,
}
use os_irose_new.Map.Saving.Slots.{
  at, map_rows, copies, away-delete_slots, away-update_slots, away-insert_slots, at-delete_slots,
  at-update_slots, at-insert_slots,
}
use os_irose_new.Map.Saving.Diffs.{
  filled, count-missing, differs, modified-classify, to_delete-classify, to_update-classify,
}

assembled :
    (f : Row → Row) (r : Row) (below item dif : Bool) (here : List Row)
    → (let rest : List Row = if filled here && not (below && item) then [] else here in
          if (below && item) && dif then map_rows f rest else rest)
        ++ copies (if below && (item && not (filled here)) then 1 else 0) r
      ≡ (if below && item
          then (if dif then map_rows f here else here) ++ (if filled here then [] else r ∷ [])
          else [])
assembled f r false item dif [] = refl
assembled f r false item dif (x ∷ xs) = refl
assembled f r true false dif [] = refl
assembled f r true false dif (x ∷ xs) = refl
assembled f r true true false [] = refl
assembled f r true true true [] = refl
assembled f r true true false (x ∷ xs) = refl
assembled f r true true true (x ∷ xs) = refl

assemble :
    (f : Row → Row) (r : Row) (below item dif : Bool) (here : List Row) (gone changed seen : Bool)
    (new : ℕ)
    → gone ≡ filled here && not (below && item)
    → changed ≡ (below && item) && dif
    → seen ≡ filled here
    → new ≡ (if below && (item && not seen) then 1 else 0)
    → (let rest : List Row = if gone then [] else here in if changed then map_rows f rest else rest)
        ++ copies new r
      ≡ (if below && item
          then (if dif then map_rows f here else here) ++ (if filled here then [] else r ∷ [])
          else [])
assemble f r below item dif here gone changed seen new a b d e =
    rw (a, b, e, d) (assembled f r below item dif here)

has-row :
    (f : Row → Row) (r : Row) (item dif : Bool) (here : List Row) (below : Bool)
    → below ≡ true
    → filled (
        if below && item
        then (if dif then map_rows f here else here) ++ (if filled here then [] else r ∷ [])
        else [])
      ≡ item
has-row f r item dif here false e = ground (arith, e)
has-row f r false dif here true e = refl
has-row f r true false [] true e = refl
has-row f r true true [] true e = refl
has-row f r true false (x ∷ xs) true e = refl
has-row f r true true (x ∷ xs) true e = refl

module _ {Script : Type 0} (no_script : Script) where
  -- The rows of a slot after saving.
  pub at-save_inventory :
      (c s : ℕ) (items : ℕ → Item Script) (rows : List Row)
      → at c s (save_inventory no_script c items rows) ≡ (
          if ltb s max_items && is_item (items s)
          then (if differs no_script (items s) (at c s rows)
              then map_rows (set_row (items s)) (at c s rows)
              else at c s rows)
            ++ (if filled (at c s rows) then [] else row_of c s (items s) ∷ [])
          else [])
  unfolding save_inventory
  at-save_inventory c s items rows =
      let d : Diff = classify no_script items (select (of_char c) rows) in
      let gone : List Row = delete_slots c d.to_delete rows in
      let set : List Row = update_slots c items d.to_update gone in
      let rest : List Row = if contains s d.to_delete then [] else at c s rows in
      let e1 : at c s gone ≡ rest = at-delete_slots c s d.to_delete rows in
      let e2 : at c s set
          ≡ (if contains s d.to_update then map_rows (set_row (items s)) rest else rest) =
        at-update_slots c s items d.to_update gone
        ∙ ap
            (λ (xs : List Row).
              if contains s d.to_update then map_rows (set_row (items s)) xs else xs)
            e1 in
      at-insert_slots c s items (missing items d.modified max_items 0) set
      ∙ ap
          (λ (xs : List Row).
            xs ++ copies (count s (missing items d.modified max_items 0)) (row_of c s (items s)))
          e2
      ∙ assemble (set_row (items s)) (row_of c s (items s)) (ltb s max_items) (is_item (items s))
          (differs no_script (items s) (at c s rows)) (at c s rows) (contains s d.to_delete)
          (contains s d.to_update) (contains s d.modified)
          (count s (missing items d.modified max_items 0))
          (to_delete-classify no_script items c s rows)
          (to_update-classify no_script items c s rows) (modified-classify no_script items c s rows)
          (count-missing items d.modified s max_items 0 (omega arith))

  away-save_inventory :
      (c d s : ℕ) (items : ℕ → Item Script) (rows : List Row)
      → d ≢ c
      → at d s (save_inventory no_script c items rows) ≡ at d s rows
  unfolding save_inventory
  away-save_inventory c d s items rows n =
      let diff : Diff = classify no_script items (select (of_char c) rows) in
      let gone : List Row = delete_slots c diff.to_delete rows in
      let set : List Row = update_slots c items diff.to_update gone in
      away-insert_slots items c d s n (missing items diff.modified max_items 0) set
      ∙ away-update_slots items c d s n diff.to_update gone
      ∙ away-delete_slots items c d s n diff.to_delete rows

  -- What saving leaves in the table for any character and slot, for any rows before. The rows of other characters stay
  -- as they are. A slot without an item, or from 140 on, keeps no row. A slot with an item keeps its rows, or gets one
  -- if it has none, and if one of the rows differs from the item all of them are set to the item.
  pub save_inventory_lem :
      (c d s : ℕ) (items : ℕ → Item Script) (rows : List Row)
      → at d s (save_inventory no_script c items rows) ≡ (
          if not (d == c)
          then at d s rows
          else if not (ltb s max_items && is_item (items s))
          then []
          else (if differs no_script (items s) (at c s rows)
              then map_rows (set_row (items s)) (at c s rows)
              else at c s rows)
            ++ (if filled (at c s rows) then [] else row_of c s (items s) ∷ []))
  save_inventory_lem c d s items rows = elim (ℕ_discrete d c) [
    | yes same ↦
        let here : at d s (save_inventory no_script c items rows)
            ≡ at c s (save_inventory no_script c items rows) =
          ap (λ (e : ℕ). at e s (save_inventory no_script c items rows)) same in
        here ∙ at-save_inventory c s items rows ∙ ground (arith, same)
    | no other ↦ away-save_inventory c d s items rows other ∙ ground (arith, other)
  ]

  -- There is one.
  pub filled-save_inventory :
      (c s : ℕ) (items : ℕ → Item Script) (rows : List Row)
      → s < max_items
      → filled (at c s (save_inventory no_script c items rows)) ≡ is_item (items s)
  filled-save_inventory c s items rows below =
      ap filled (at-save_inventory c s items rows)
      ∙ has-row (set_row (items s)) (row_of c s (items s)) (is_item (items s))
          (differs no_script (items s) (at c s rows)) (at c s rows) (ltb s max_items)
          (ground (arith, below))
