-- ===== src/Map/Saving.antt =====
-- The inventory in the database: the end of EntitySystem::saveCharacter (src/map/src/entitysystem.cpp), which
-- brings the rows in line with the slots, and Inventory::loadFromResult
-- (src/rosecommon/include/components/inventory.h), which fills the slots from the rows. Both use what
-- src/rosecommon/include/item.h does with a row. A statement that fails is left out.
pub mod Slots
pub mod Diffs
pub mod Saved
pub mod Read
pub mod Load
pub mod Reload
use os_irose_new.Common.{
  ℕ, zero, suc, ◌+◌, ◌%◌, ◌^◌, Bool, true, false, not, ◌&&◌, List, [], ◌∷◌, ◌++◌, Option, none,
  some, ◌==◌, leb, if◌then◌else◌,
}
use os_irose_new.Common.{count}
use os_irose_new.Login.Database.{select, update}
use os_irose_new.Map.Inventory.{Item, max_items, empty_item, is_item, put}

-- A row of the table inventory, but for its number.
pub record Row : Type 0 where
  pub char_id : ℕ
  pub slot : ℕ
  pub itemid : ℕ
  pub itemtype : ℕ
  pub amount : ℕ
  pub refine : ℕ
  pub gem_opt : ℕ
  pub socket : ℕ

abbrev pub of_char : ℕ → Row → Bool
of_char char_id row = row.char_id == char_id

abbrev pub is_at : ℕ → ℕ → Row → Bool
is_at char_id slot row = (row.char_id == char_id) && (row.slot == slot)

abbrev pub contains : ℕ → List ℕ → Bool
contains i is = if count i is == 0 then false else true

abbrev pub bit_of : Bool → ℕ
bit_of b = if b then 1 else 0

-- toDelete, toUpdate and modified.
pub record Diff : Type 0 where
  pub to_delete : List ℕ
  pub to_update : List ℕ
  pub modified : List ℕ

-- The three loops that run the statements.
unfoldable pub delete_slots : ℕ → List ℕ → List Row → List Row
delete_slots char_id [] rows = rows
delete_slots char_id (slot ∷ slots) rows =
    delete_slots char_id slots (select (λ (row : Row). not (is_at char_id slot row)) rows)

module _ {Script : Type 0} where
  -- commitToUpdate
  abbrev pub set_row : Item Script → Row → Row
  set_row item row = record row {
    itemid = item.id;
    itemtype = item.item_type;
    amount = item.count;
    refine = item.refine;
    gem_opt = item.gem_opt;
    socket = bit_of item.has_socket;
  }

  -- commitToInsert, and the slot and the character.
  abbrev pub row_of : ℕ → ℕ → Item Script → Row
  row_of char_id slot item = record {
    char_id = char_id;
    slot = slot;
    itemid = item.id;
    itemtype = item.item_type;
    amount = item.count;
    refine = item.refine;
    gem_opt = item.gem_opt;
    socket = bit_of item.has_socket;
  }

  unfoldable pub update_slots : ℕ → (ℕ → Item Script) → List ℕ → List Row → List Row
  update_slots char_id items [] rows = rows
  update_slots char_id items (slot ∷ slots) rows =
      update_slots char_id items slots (update (is_at char_id slot) (set_row (items slot)) rows)

  unfoldable pub insert_slots : ℕ → (ℕ → Item Script) → List ℕ → List Row → List Row
  insert_slots char_id items [] rows = rows
  insert_slots char_id items (slot ∷ slots) rows =
      insert_slots char_id items slots (rows ++ row_of char_id slot (items slot) ∷ [])

  -- Item::operator==
  unfoldable pub same_item : Item Script → Item Script → Bool
  same_item a b =
      (a.item_type == b.item_type)
      && (a.id == b.id)
      && (bit_of a.is_created == bit_of b.is_created)
      && (a.gem_opt == b.gem_opt)
      && (a.durability == b.durability)
      && (a.life == b.life)
      && (bit_of a.has_socket == bit_of b.has_socket)
      && (bit_of a.is_appraised == bit_of b.is_appraised)
      && (a.refine == b.refine)
      && (a.count == b.count)
      && (bit_of a.is_stackable == bit_of b.is_stackable)

  -- The loop over the slots, with `left` to go from the `i`-th: toInsert.
  unfoldable pub missing : (ℕ → Item Script) → List ℕ → ℕ → ℕ → List ℕ
  missing items modified zero i = []
  missing items modified (suc left) i =
      let rest = missing items modified left (i + 1) in
      if is_item (items i) && not (contains i modified) then i ∷ rest else rest

  -- The four members of a row that Item::loadFromRow sets itself.
  abbrev pub row_members : Row → Item Script → Item Script
  row_members row item = record item {
    count = row.amount % 2 ^ 32;
    refine = row.refine % 2 ^ 8;
    gem_opt = row.gem_opt % 2 ^ 16;
    has_socket = if row.socket == 0 then false else true;
  }

  -- Item::loadFromRow with a builder, which is asked for an item of the type and the id: `none` is the exception that
  -- buildItem throws, `some none` that it gives no item.
  unfoldable pub load_row :
      (ℕ → ℕ → Option (Option (Item Script))) → Row → Item Script → Option (Item Script)
  load_row build row item = elim (build (row.itemtype % 2 ^ 8) (row.itemid % 2 ^ 16)) [
    | none ↦ none
    | some o ↦ some (row_members row (elim o [ none ↦ item | some built ↦ built ]))
  ]

  -- loadFromResult, which an exception ends.
  unfoldable pub load_from_result :
      (ℕ → ℕ → Option (Option (Item Script)))
      → List Row
      → (ℕ → Item Script)
      → Option (ℕ → Item Script)
  load_from_result build [] items = some items
  load_from_result build (row ∷ rows) items =
      let kept = load_from_result build rows items in
      let loaded : Option (ℕ → Item Script) = elim (load_row build row (items row.slot)) [
        | none ↦ none
        | some item ↦ load_from_result build rows (put items row.slot item)
      ] in
      if leb max_items row.slot then kept else loaded

module _ {Script : Type 0} (no_script : Script) where
  -- Item(row), where an int becomes a member by conversion.
  unfoldable pub item_of_row : Row → Item Script
  item_of_row row = record (empty_item no_script) {
    item_type = row.itemtype % 2 ^ 8;
    id = row.itemid % 2 ^ 16;
    life = 1000;
    is_appraised = true;
    count = row.amount % 2 ^ 32;
    refine = row.refine % 2 ^ 8;
    gem_opt = row.gem_opt % 2 ^ 16;
    has_socket = if row.socket == 0 then false else true;
  }

  -- The loop over the rows.
  unfoldable pub classify : (ℕ → Item Script) → List Row → Diff
  classify items [] = record { to_delete = []; to_update = []; modified = [] }
  classify items (row ∷ rows) =
      let d = classify items rows in
      let seen : Diff = record d { modified = row.slot ∷ d.modified } in
      let gone : Diff = record seen { to_delete = row.slot ∷ d.to_delete } in
      let changed : Diff = record seen { to_update = row.slot ∷ d.to_update } in
      if leb max_items row.slot
      then gone
      else (if is_item (items row.slot)
          then (if same_item (items row.slot) (item_of_row row) then seen else changed)
          else gone)

  unfoldable pub save_inventory : ℕ → (ℕ → Item Script) → List Row → List Row
  save_inventory char_id items rows =
      let d = classify items (select (of_char char_id) rows) in
      insert_slots char_id items (missing items d.modified max_items 0)
        (update_slots char_id items d.to_update (delete_slots char_id d.to_delete rows))

  -- What loadCharacter makes of the rows: the slots of a fresh inventory, `none` where it throws.
  unfoldable pub load_inventory :
      (ℕ → ℕ → Option (Option (Item Script))) → ℕ → List Row → Option (ℕ → Item Script)
  load_inventory build char_id rows =
      load_from_result build (select (of_char char_id) rows) (λ slot. empty_item no_script)
