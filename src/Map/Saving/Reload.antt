-- ===== src/Map/Saving/Reload.antt =====
-- Saving the slots and loading them again.
use os_irose_new.Common.{
  ℕ, ◌%◌, ◌^◌, ◌<◌, ◌≡◌, refl, sym, ap, ◌∙◌, Bool, true, List, [], ◌∷◌, Option, some, leb,
  if◌then◌else◌, arith,
}
use os_irose_new.Common.{Bool-cases, inl, inr}
use os_irose_new.Login.Database.{select}
use os_irose_new.Map.Inventory.{Item, max_items, empty_item, is_item, put}
use os_irose_new.Map.Saving.{
  Row, of_char, is_at, row_of, load_row, load_from_result, save_inventory, load_inventory,
}
use os_irose_new.Map.Saving.Slots.{at}
use os_irose_new.Map.Saving.Diffs.{filled}
use os_irose_new.Map.Saving.Saved.{filled-save_inventory}
use os_irose_new.Map.Saving.Read.{as_read, AllRead, InRange, AllRead-save_inventory}
use os_irose_new.Map.Saving.Load.{
  AllRead-tail, AllRead-head, Builds, placed_row, placed, load-elsewhere, load-here,
}

module _ {Script : Type 0} (build : ℕ → ℕ → Option (Option (Item Script))) where
  -- What the slots of `items` are to the rows of a character: the rows of a slot below 140 are read as its item, and
  -- there are some only where it has one, which the builder has too.
  record IsSavedFor (c : ℕ) (items : ℕ → Item Script) (rows : List Row) : Type 0 where
    is_there : (s : ℕ) → s < max_items → filled (at c s rows) ≡ true → is_item (items s) ≡ true
    is_read :
        (s : ℕ)
        → s < max_items
        → is_item (items s) ≡ true
        → AllRead (row_of c s (items s)) (at c s rows)
    is_built : (s : ℕ) → s < max_items → is_item (items s) ≡ true → Builds build (items s)

  IsSavedFor-tail :
      (c : ℕ) (items : ℕ → Item Script) (row : Row) (rows : List Row)
      → IsSavedFor c items (row ∷ rows)
      → IsSavedFor c items rows
  unfolding select
  IsSavedFor-tail c items row rows v = record {
    is_there = λ (s : ℕ) (h : s < max_items) (e : filled (at c s rows) ≡ true).
        v.is_there s h (ground (arith, e));
    is_read = λ (s : ℕ) (h : s < max_items) (e : is_item (items s) ≡ true).
        AllRead-tail (row_of c s (items s)) row (at c s rows) (is_at c s row) (v.is_read s h e);
    is_built = v.is_built;
  }

  -- No row of the character makes the builder throw.
  load_row-IsSavedFor :
      (c : ℕ) (items : ℕ → Item Script) (row : Row) (rows : List Row) (old : Item Script)
      → IsSavedFor c items (row ∷ rows)
      → of_char c row ≡ true
      → row.slot < max_items
      → load_row build row old ≡ some (placed_row build row old)
  unfolding load_row select
  load_row-IsSavedFor c items row rows old v mine below =
      let here : is_at c row.slot row ≡ true = ground (arith, mine) in
      let found : filled (at c row.slot (row ∷ rows)) ≡ true = ground (arith, here) in
      let item : is_item (items row.slot) ≡ true = v.is_there row.slot below found in
      let b : Builds build (items row.slot) = v.is_built row.slot below item in
      let read : as_read row ≡ row_of c row.slot (items row.slot) =
        AllRead-head (row_of c row.slot (items row.slot)) row (at c row.slot rows)
          (is_at c row.slot row) here (v.is_read row.slot below item) in
      let asked : build (row.itemtype % 2 ^ 8) (row.itemid % 2 ^ 16) ≡ some (some b.built) =
        ap (λ (r : Row). build r.itemtype r.itemid) read ∙ b.is_built in
      rw (load_row, asked) refl

  load_from_result-IsSavedFor :
      (c : ℕ) (items : ℕ → Item Script) (rows : List Row) (old : ℕ → Item Script)
      → IsSavedFor c items rows
      → load_from_result build (select (of_char c) rows) old
        ≡ some (placed build (select (of_char c) rows) old)
  unfolding load_from_result placed select
  load_from_result-IsSavedFor c items [] old v = refl
  load_from_result-IsSavedFor c items (row ∷ rows) old v =
      let rest : IsSavedFor c items rows = IsSavedFor-tail c items row rows v in
      let skipped = load_from_result-IsSavedFor c items rows old rest in
      elim (Bool-cases (of_char c row)) [
        | inr other ↦ rw other skipped
        | inl mine ↦ elim (Bool-cases (leb max_items row.slot)) [
          | inl beyond ↦ rw mine (rw beyond skipped)
          | inr below ↦
              let loaded : load_row build row (old row.slot)
                  ≡ some (placed_row build row (old row.slot)) =
                load_row-IsSavedFor c items row rows (old row.slot) v mine
                  (ground (arith, below)) in
              rw mine (
                rw below (
                  rw loaded (
                    load_from_result-IsSavedFor c items rows
                      (put old row.slot (placed_row build row (old row.slot))) rest)))
        ]
      ]

module _ {Script : Type 0} (no_script : Script) where
  IsSavedFor-save_inventory :
      (build : ℕ → ℕ → Option (Option (Item Script))) (c : ℕ) (items : ℕ → Item Script)
      (rows : List Row)
      → ((n : ℕ) → n < max_items → is_item (items n) ≡ true → InRange (items n))
      → ((n : ℕ) → n < max_items → is_item (items n) ≡ true → Builds build (items n))
      → IsSavedFor build c items (save_inventory no_script c items rows)
  IsSavedFor-save_inventory build c items rows fits built = record {
    is_there =
        λ (s : ℕ) (h : s < max_items)
            (e : filled (at c s (save_inventory no_script c items rows)) ≡ true).
          sym (filled-save_inventory no_script c s items rows h) ∙ e;
    is_read = λ (s : ℕ) (h : s < max_items) (e : is_item (items s) ≡ true).
        AllRead-save_inventory no_script c s items rows h e (fits s h e);
    is_built = built;
  }

  -- For any rows, duplicates included, and slots below 140 whose items have members that fit their columns' types and
  -- are of a type and an id for which the builder has an item of that type and id: loadCharacter loads the rows that
  -- saveCharacter leaves without an exception, and has then at each slot below 140 the same values as the item in all
  -- the members that the table keeps (type, id, count, refine, gem and socket), and those of the empty item where the
  -- slot has no item.
  pub reload :
      (build : ℕ → ℕ → Option (Option (Item Script))) (c s : ℕ) (items : ℕ → Item Script)
      (rows : List Row)
      → s < max_items
      → ((n : ℕ) → n < max_items → is_item (items n) ≡ true → InRange (items n))
      → ((n : ℕ) → n < max_items → is_item (items n) ≡ true → Builds build (items n))
      → (loaded : ℕ → Item Script) × (load_inventory no_script build c
            (save_inventory no_script c items rows)
          ≡ some loaded)
        × (row_of c s (loaded s)
            ≡ row_of c s (if is_item (items s) then items s else empty_item no_script))
  unfolding load_inventory
  reload build c s items rows below fits built =
      let saved : List Row = save_inventory no_script c items rows in
      let empty : ℕ → Item Script = λ slot. empty_item no_script in
      (
        placed build (select (of_char c) saved) empty,
        load_from_result-IsSavedFor build c items saved empty
            (IsSavedFor-save_inventory build c items rows fits built),
        here,
      )
    where
      here :
          row_of c s (
            placed build
              (select (of_char c) (save_inventory no_script c items rows))
              (λ slot. empty_item no_script)
              s)
          ≡ row_of c s (if is_item (items s) then items s else empty_item no_script)
      here = elim (Bool-cases (is_item (items s))) [
        | inl e ↦
            load-here build c s (items s) (save_inventory no_script c items rows)
              (λ slot. empty_item no_script) below (built s below e)
              (AllRead-save_inventory no_script c s items rows below e (fits s below e))
            ∙ ap (λ (b : Bool). row_of c s (if b then items s else empty_item no_script))
                (filled-save_inventory no_script c s items rows below)
        | inr e ↦
            let chosen : (if is_item (items s) then items s else empty_item no_script)
                ≡ empty_item no_script =
              rw e refl in
            ap (row_of c s) (
              load-elsewhere build c s (save_inventory no_script c items rows)
                (λ slot. empty_item no_script)
                (filled-save_inventory no_script c s items rows below ∙ e)
              ∙ sym chosen)
      ]
