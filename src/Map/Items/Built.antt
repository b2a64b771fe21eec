-- ===== src/Map/Items/Built.antt =====
-- What is built is what was asked for.
use os_irose_new.Common.{
  ℕ, ◌%◌, ◌^◌, ◌≡◌, ◌≢◌, refl, ◌∙◌, Bool, false, List, [], ◌∷◌, ◌++◌, Option, none, some, ◌==◌, leb,
  ◌&&◌, if◌then◌else◌, arith,
}
use os_irose_new.Common.{Bool-cases, inl, inr}
use os_irose_new.Login.Database.{select}
use os_irose_new.Map.Inventory.{Item}
use os_irose_new.Map.Items.{
  ItemRow, ItemDef, item_def_of, initialize, item_exists, get_item_def, item_of_def, build_item,
}

module _ {Text : Type 0} where
  -- Whether a row has a key.
  abbrev pub has_key : ℕ → ℕ → ItemRow Text → Bool
  has_key t i row = (row.item_type % 2 ^ 8 == t) && (row.id % 2 ^ 16 == i)

  -- What the loop has done once it is past a row.
  abbrev added : ItemRow Text → (ℕ → ℕ → Option (ItemDef Text)) → ℕ → ℕ → Option (ItemDef Text)
  added row database t i =
      if (t == row.item_type % 2 ^ 8) && (i == row.id % 2 ^ 16)
      then some (item_def_of row)
      else database t i

  initialize-other :
      (rows : List (ItemRow Text)) (database : ℕ → ℕ → Option (ItemDef Text)) (t i : ℕ)
      → select (has_key t i) rows ≡ []
      → initialize rows database t i ≡ database t i
  unfolding initialize select
  initialize-other [] database t i n = refl
  initialize-other (row ∷ rows) database t i n =
      let rest : select (has_key t i) rows ≡ [] = ground (arith, n) in
      let same : added row database t i ≡ database t i = ground (arith, n) in
      elim (Bool-cases (row.item_type == 0)) [
        | inl skipped ↦ rw skipped (initialize-other rows database t i rest)
        | inr kept ↦ rw kept (initialize-other rows (added row database) t i rest ∙ same)
      ]

  initialize-last :
      (before after : List (ItemRow Text)) (row : ItemRow Text)
      (database : ℕ → ℕ → Option (ItemDef Text))
      → row.item_type ≢ 0
      → select (has_key (row.item_type % 2 ^ 8) (row.id % 2 ^ 16)) after ≡ []
      → initialize (before ++ row ∷ after) database (row.item_type % 2 ^ 8) (row.id % 2 ^ 16)
        ≡ some (item_def_of row)
  unfolding initialize
  initialize-last [] after row database z n =
      let kept : (row.item_type == 0) ≡ false = ground (arith, z) in
      let here : added row database (row.item_type % 2 ^ 8) (row.id % 2 ^ 16)
          ≡ some (item_def_of row) =
        ground (arith) in
      rw kept (
        initialize-other after (added row database) (row.item_type % 2 ^ 8) (row.id % 2 ^ 16) n
        ∙ here)
  initialize-last (first ∷ before) after row database z n =
      elim (Bool-cases (first.item_type == 0)) [
        | inl skipped ↦ rw skipped (initialize-last before after row database z n)
        | inr kept ↦ rw kept (initialize-last before after row (added first database) z n)
      ]

module _ {Text Script : Type 0} where
  -- For a row of the table whose type is not 0, the last with its key, and whose script loads: buildItem gives an item
  -- of the type and the id of the row, one of it, with the given life and appraisal, which stacks just when the type
  -- is from 10 to 13, and with the script that its on_init leaves, whatever the other rows are.
  pub build_item-initialize :
      (no_script : Script) (load_script : Text → Option Script) (on_init : Script → Script)
      (before after : List (ItemRow Text)) (row : ItemRow Text) (life : ℕ) (is_appraised : Bool)
      (lua : Script)
      → row.item_type ≢ 0
      → select (has_key (row.item_type % 2 ^ 8) (row.id % 2 ^ 16)) after ≡ []
      → load_script row.script ≡ some lua
      → (item : Item Script) × (build_item no_script load_script on_init
            (initialize (before ++ row ∷ after) (λ (u : ℕ). λ (j : ℕ). none))
            (row.item_type % 2 ^ 8)
            (row.id % 2 ^ 16)
            life
            is_appraised
          ≡ some (some item))
        × (item.item_type ≡ row.item_type % 2 ^ 8)
        × (item.id ≡ row.id % 2 ^ 16)
        × (item.count ≡ 1)
        × (item.life ≡ life)
        × (item.is_appraised ≡ is_appraised)
        × (item.is_stackable ≡ leb 10 (row.item_type % 2 ^ 8) && leb (row.item_type % 2 ^ 8) 13)
        × (item.lua ≡ on_init lua)
  unfolding build_item get_item_def item_exists item_of_def item_def_of
  build_item-initialize no_script load_script on_init before after row life is_appraised lua z n f =
      let e : initialize (before ++ row ∷ after) (λ (u : ℕ). λ (j : ℕ). none)
            (row.item_type % 2 ^ 8) (row.id % 2 ^ 16)
          ≡ some (item_def_of row) =
        initialize-last before after row (λ (u : ℕ). λ (j : ℕ). none) z n in
      (
        record (item_of_def no_script (item_def_of row)) {
          life = life;
          is_appraised = is_appraised;
          lua = on_init lua;
        },
        rw (build_item, get_item_def, item_exists, e, f) refl,
        refl,
        refl,
        refl,
        refl,
        refl,
        refl,
        refl,
      )
