-- ===== src/Map/Inventory.antt =====
-- Inventory (src/rosecommon/include/components/inventory.h), Item (src/rosecommon/include/item.h) and
-- InventorySystem (src/map/src/systems/inventorysystem.cpp). A script is what the Lua library keeps for an
-- item; its hooks are arguments, and what they do beyond their answer is left out.
pub mod Totals
pub mod Slots
use os_irose_new.Common.{
  ℕ, zero, suc, ◌+◌, ◌-◌, ◌*◌, ◌%◌, ◌^◌, Bool, true, false, List, [], ◌∷◌, ◌++◌, Option, none, some,
  ◌==◌, ltb, leb, if◌then◌else◌,
}

-- enum Position's MAX_EQUIP_ITEMS, and maxItems.
abbrev pub max_equip_items : ℕ
max_equip_items = 12

abbrev pub max_items : ℕ
max_items = 140

pub record Item (Script : Type 0) : Type 0 where
  pub item_type : ℕ
  pub id : ℕ
  pub is_created : Bool
  pub gem_opt : ℕ
  pub durability : ℕ
  pub life : ℕ
  pub has_socket : Bool
  pub is_appraised : Bool
  pub refine : ℕ
  pub count : ℕ
  pub is_stackable : Bool
  pub atk : ℕ
  pub def : ℕ
  pub range : ℕ
  pub lua : Script

-- What the handlers send: packets to the client, and those to everyone.
pub data Sent (Script : Type 0) : Type 0 where
  set_item : List ℕ → Sent Script
  equip_item : ℕ → Sent Script
  drop_item : Item Script → Sent Script

module _ {Script : Type 0} where
  -- Item()
  unfoldable pub empty_item : Script → Item Script
  empty_item no_script = record {
    item_type = 0;
    id = 0;
    is_created = false;
    gem_opt = 0;
    durability = 0;
    life = 0;
    has_socket = false;
    is_appraised = false;
    refine = 0;
    count = 0;
    is_stackable = false;
    atk = 0;
    def = 0;
    range = 0;
    lua = no_script;
  }

  -- operator bool
  abbrev pub is_item : Item Script → Bool
  is_item item = if item.id == 0 then false else true

  -- items_[slot] = item
  abbrev pub put : (ℕ → Item Script) → ℕ → Item Script → ℕ → Item Script
  put items slot item j = if j == slot then item else items j

  -- The loop of findNextEmptySlot, with `left` slots to go.
  unfoldable pub empty_from : (ℕ → Item Script) → ℕ → ℕ → ℕ
  empty_from items zero i = 0
  empty_from items (suc left) i =
      let later = empty_from items left (i + 1) in if is_item (items i) then later else i

  -- `none` is an entity without the component. 0 is the answer when there is no slot.
  unfoldable pub find_next_empty_slot : Option (ℕ → Item Script) → ℕ
  unfolding empty_from
  find_next_empty_slot none = 0
  find_next_empty_slot (some items) = empty_from items (max_items - max_equip_items) max_equip_items

  -- The answer, both slots, which are references, and the items.
  unfoldable pub swap_items :
      Option (ℕ → Item Script) → ℕ → ℕ → Bool × ℕ × ℕ × Option (ℕ → Item Script)
  swap_items none a b = (false, a, b, none)
  swap_items (some items) a b =
      let a' = if a == 0 then find_next_empty_slot (some items) else a in
      let b' = if b == 0 then find_next_empty_slot (some items) else b in
      let refused : Bool × ℕ × ℕ × Option (ℕ → Item Script) = (false, a, b, some items) in
      if leb max_items a
      then refused
      else if leb max_items b
      then refused
      else if a == b
      then refused
      else (true, a', b', some (put (put items a' (items b')) b' (items a')))

  -- removeItem: the item, the items left, and what is sent.
  unfoldable pub remove_item :
      Script → (ℕ → Item Script) → ℕ → Item Script × (ℕ → Item Script) × List (Sent Script)
  remove_item no_script items slot =
      let nothing : Item Script × (ℕ → Item Script) × List (Sent Script) =
        (empty_item no_script, items, []) in
      if slot == 0 then nothing else if leb max_items slot then nothing else (
        items slot,
        put items slot (empty_item no_script),
        set_item (slot ∷ []) ∷ (if ltb slot max_equip_items then equip_item slot ∷ [] else []),
      )

  -- addItem
  unfoldable pub add_item :
      (ℕ → Item Script) → Item Script → Bool × (ℕ → Item Script) × List (Sent Script)
  add_item items item =
      let slot = find_next_empty_slot (some items) in
      if slot == 0
      then (false, items, [])
      else (true, put items slot item, set_item (slot ∷ []) ∷ [])

  -- dropItem with the members of the packet: the items left, the item on the ground, if any, and what is
  -- sent.
  unfoldable pub process_drop :
      Script
      → (ℕ → Item Script)
      → ℕ
      → ℕ
      → (ℕ → Item Script) × Option (Item Script) × List (Sent Script)
  process_drop no_script items slot quantity =
      let held = (items slot).count in
      let count = if ltb held quantity then held else quantity in
      let rest : Item Script = record (items slot) { count = held - count } in
      let split : Item Script = record (items slot) { count = count } in
      let removed = remove_item no_script items slot in
      let nothing : (ℕ → Item Script) × Option (Item Script) × List (Sent Script) =
        (items, none, []) in
      if slot == 0
      then nothing
      else if leb max_items slot
      then nothing
      else if ltb count held
      then (put items slot rest, some split, set_item (slot ∷ []) ∷ drop_item split ∷ [])
      else (removed.1, some removed.0, removed.2 ++ drop_item removed.0 ∷ [])

  -- The swapped items, and what processEquip sends.
  unfoldable pub sent_swap :
      (ℕ → Item Script)
      → Bool × ℕ × ℕ × Option (ℕ → Item Script)
      → ℕ
      → Option ((ℕ → Item Script) × List (Sent Script))
  sent_swap items (done, to, from, none) slot_to = some (items, [])
  sent_swap items (done, to, from, some items') slot_to =
      some (items', equip_item slot_to ∷ set_item (to ∷ from ∷ []) ∷ [])

  -- processEquip with the members of the packet and the answers of the hooks onUnequip and onEquip. `slot_to`
  -- is the pattern of an int16_t, so a negative one is large. `none` is an access past the end of items_.
  unfoldable pub process_equip :
      (Item Script → Bool)
      → (Item Script → Bool)
      → (ℕ → Item Script)
      → ℕ
      → ℕ
      → Option ((ℕ → Item Script) × List (Sent Script))
  process_equip on_unequip on_equip items slot_to slot_from =
      let from = slot_from % 2 ^ 8 in
      let unequip = if is_item (items slot_to) then on_unequip (items slot_to) else true in
      let equip = if is_item (items from) then on_equip (items from) else true in
      let swapped = swap_items (some items) slot_to from in
      let refused : Option ((ℕ → Item Script) × List (Sent Script)) = some (items, []) in
      if slot_to == 0
      then refused
      else if leb max_equip_items slot_to
      then refused
      else if leb max_items from
      then none
      else if equip
      then (if unequip
          then (if swapped.0 then sent_swap items swapped slot_to else refused)
          else refused)
      else refused
