-- ===== src/Tests/Saving.antt =====
-- The results about items and the database, each applied at a concrete input. A script is a number here.
use os_irose_new.Common.{
  ℕ, ◌≡◌, ◌<◌, refl, arith, ◌&&◌, List, [], ◌∷◌, ◌++◌, Option, none, some, true, leb, if◌then◌else◌,
  ◌==◌,
}
use os_irose_new.Common.{Bool-cases, inl, inr}
use os_irose_new.Map.Inventory.{Item, max_items, empty_item, is_item}
use os_irose_new.Login.Database.{select}
use os_irose_new.Map.Saving.{Row, same_item, item_of_row, row_of, save_inventory, load_inventory}
use os_irose_new.Map.Saving.Reload.{reload}
use os_irose_new.Map.Saving.Load.{Builds}
use os_irose_new.Map.Saving.Read.{InRange}
use os_irose_new.Map.Saving.Slots.{at}
use os_irose_new.Map.Saving.Saved.{save_inventory_lem}
use os_irose_new.Map.Items.{ItemRow, initialize, build_item}
use os_irose_new.Map.Items.Built.{build_item-initialize}

abbrev herbs : Item ℕ
herbs = record (empty_item 0) { item_type = 10; id = 5; count = 8; is_stackable = true; lua = 3 }

-- Eight herbs in slot 14, and nothing else.
abbrev pouch : ℕ → Item ℕ
pouch slot = if slot == 14 then herbs else empty_item 0

abbrev old_row : ℕ → ℕ → ℕ → Row
old_row char_id slot amount = record {
  char_id = char_id;
  slot = slot;
  itemid = 5;
  itemtype = 10;
  amount = amount;
  refine = 0;
  gem_opt = 0;
  socket = 0;
}

-- Two rows for the slot, one with another amount, one for a slot that is empty now, and one of another character.
abbrev old_rows : List Row
old_rows = old_row 7 14 8 ∷ old_row 7 20 1 ∷ old_row 9 14 2 ∷ old_row 7 14 6 ∷ []

abbrev builder : ℕ → ℕ → Option (Option (Item ℕ))
builder t i =
    if i == 5
    then some (some (record (empty_item 0) { item_type = t; id = i; count = 1; lua = 3 }))
    else none

pouch-InRange : (n : ℕ) → n < max_items → is_item (pouch n) ≡ true → InRange (pouch n)
unfolding empty_item
pouch-InRange n h e = elim (Bool-cases (n == 14)) [
  | inl there ↦ rw there (record {
    type_fits = omega arith;
    id_fits = omega arith;
    count_fits = omega arith;
    refine_fits = omega arith;
    gem_opt_fits = omega arith;
  })
  | inr other ↦ absurd (ground (arith, e, other))
]

pouch-Builds : (n : ℕ) → n < max_items → is_item (pouch n) ≡ true → Builds builder (pouch n)
unfolding empty_item
pouch-Builds n h e = elim (Bool-cases (n == 14)) [
  | inl there ↦ rw there (record {
    built = record (empty_item 0) { item_type = 10; id = 5; count = 1; lua = 3 };
    is_built = refl;
    same_type = refl;
    same_id = refl;
  })
  | inr other ↦ absurd (ground (arith, e, other))
]

reload_example :
    (loaded : ℕ → Item ℕ) × (load_inventory 0 builder 7 (save_inventory 0 7 pouch old_rows)
      ≡ some loaded)
    × (row_of 7 14 (loaded 14)
        ≡ row_of 7 14 (if is_item (pouch 14) then pouch 14 else empty_item 0))
reload_example = reload 0 builder 7 14 pouch old_rows (omega arith) pouch-InRange pouch-Builds

save_inventory_lem_example :
    at 7 14 (save_inventory 0 7 pouch old_rows) ≡ old_row 7 14 8 ∷ old_row 7 14 8 ∷ []
unfolding select same_item item_of_row empty_item
save_inventory_lem_example = save_inventory_lem 0 7 7 14 pouch old_rows

-- A row of the item database, with its name and its script as numbers.
abbrev herb_row : ItemRow ℕ
herb_row = record {
  id = 5;
  name = 1;
  desc = 2;
  item_type = 10;
  subtype = 0;
  price_buy = 30;
  price_sell = 10;
  weight = 1;
  attack = 0;
  defense = 0;
  slots = 0;
  equip_level = 0;
  view_id = 0;
  script = 4;
}

-- Before the row, one that is skipped and one of the same key.
abbrev rows_before : List (ItemRow ℕ)
rows_before = record herb_row { item_type = 0 } ∷ record herb_row { script = 6 } ∷ []

-- After it, one of another type.
abbrev rows_after : List (ItemRow ℕ)
rows_after = record herb_row { item_type = 11 } ∷ []

build_item-initialize_example :
    (item : Item ℕ) × (build_item 0 some
        (λ lua. lua)
        (initialize (rows_before ++ herb_row ∷ rows_after) (λ (u : ℕ). λ (j : ℕ). none))
        10
        5
        1000
        true
      ≡ some (some item))
    × (item.item_type ≡ 10)
    × (item.id ≡ 5)
    × (item.count ≡ 1)
    × (item.life ≡ 1000)
    × (item.is_appraised ≡ true)
    × (item.is_stackable ≡ leb 10 10 && leb 10 13)
    × (item.lua ≡ 4)
unfolding select
build_item-initialize_example =
    build_item-initialize 0 some (λ lua. lua) rows_before rows_after herb_row 1000 true 4
      (omega arith) refl refl
