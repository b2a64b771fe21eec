-- ===== src/Map/Items.antt =====
-- The item database (src/rosecommon/src/itemdb.cpp), the items that InventorySystem::buildItem makes of it
-- (src/map/src/systems/inventorysystem.cpp), and what the packets show of an item (src/rosecommon/src/item.cpp).
pub mod Built
use os_irose_new.Common.{
  ℕ, ◌+◌, ◌*◌, ◌%◌, ◌^◌, ◌-◌, Bool, true, false, not, ◌&&◌, List, [], ◌∷◌, Option, none, some, ◌==◌,
  leb, if◌then◌else◌,
}
use Prim.Native.Nat.{bit_or}
use os_irose_new.Map.Inventory.{Item}

-- A row of the table item_db. `Text` stands for the strings.
pub record ItemRow (Text : Type 0) : Type 0 where
  pub id : ℕ
  pub name : Text
  pub desc : Text
  pub item_type : ℕ
  pub subtype : ℕ
  pub price_buy : ℕ
  pub price_sell : ℕ
  pub weight : ℕ
  pub attack : ℕ
  pub defense : ℕ
  pub slots : ℕ
  pub equip_level : ℕ
  pub view_id : ℕ
  pub script : Text

pub record ItemDef (Text : Type 0) : Type 0 where
  pub item_type : ℕ
  pub subtype : ℕ
  pub id : ℕ
  pub buy_price : ℕ
  pub sell_price : ℕ
  pub weight : ℕ
  pub atk : ℕ
  pub def : ℕ
  pub range : ℕ
  pub slots : ℕ
  pub level : ℕ
  pub view_id : ℕ
  pub name : Text
  pub desc : Text
  pub script : Text

module _ {Text : Type 0} where
  -- The body of the loop: newItem, which no row gives a range.
  unfoldable pub item_def_of : ItemRow Text → ItemDef Text
  item_def_of row = record {
    item_type = row.item_type % 2 ^ 8;
    subtype = row.subtype % 2 ^ 8;
    id = row.id % 2 ^ 16;
    buy_price = row.price_buy % 2 ^ 32;
    sell_price = row.price_sell % 2 ^ 32;
    weight = row.weight % 2 ^ 16;
    atk = row.attack % 2 ^ 16;
    def = row.defense % 2 ^ 16;
    range = 0;
    slots = row.slots % 2 ^ 8;
    level = row.equip_level % 2 ^ 8;
    view_id = row.view_id % 2 ^ 32;
    name = row.name;
    desc = row.desc;
    script = row.script;
  }

  -- _database, as a function of the two parts of a key, after the loop has gone over the rows.
  unfoldable pub initialize :
      List (ItemRow Text) → (ℕ → ℕ → Option (ItemDef Text)) → ℕ → ℕ → Option (ItemDef Text)
  initialize [] database = database
  initialize (row ∷ rows) database =
      let skipped = initialize rows database in
      let added = initialize rows (λ (item_type : ℕ). λ (id : ℕ).
        if (item_type == row.item_type % 2 ^ 8) && (id == row.id % 2 ^ 16)
        then some (item_def_of row)
        else database item_type id) in
      if row.item_type == 0 then skipped else added

  unfoldable pub item_exists : (ℕ → ℕ → Option (ItemDef Text)) → ℕ → ℕ → Bool
  item_exists database item_type id = elim (database item_type id) [
    | none ↦ false
    | some def ↦ true
  ]

  -- `none` is the exception of throw_assert.
  unfoldable pub get_item_def : (ℕ → ℕ → Option (ItemDef Text)) → ℕ → ℕ → Option (ItemDef Text)
  unfolding item_exists
  get_item_def database item_type id =
      if item_exists database item_type id then database item_type id else none

module _ {Text Script : Type 0} where
  -- Item(def)
  unfoldable pub item_of_def : Script → ItemDef Text → Item Script
  item_of_def no_script def = record {
    item_type = def.item_type;
    id = def.id;
    is_created = false;
    gem_opt = 0;
    durability = 0;
    life = 0;
    has_socket = false;
    is_appraised = false;
    refine = 0;
    count = 1;
    is_stackable = leb 10 def.item_type && leb def.item_type 13;
    atk = 0;
    def = 0;
    range = 0;
    lua = no_script;
  }

  -- buildItem: `none` is the exception of getItemDef, `some none` is the answer without an item. The Lua system is
  -- given by its loadScript, and by what the script's on_init leaves.
  unfoldable pub build_item :
      Script
      → (Text → Option Script)
      → (Script → Script)
      → (ℕ → ℕ → Option (ItemDef Text))
      → ℕ
      → ℕ
      → ℕ
      → Bool
      → Option (Option (Item Script))
  unfolding get_item_def item_of_def
  build_item no_script load_script on_init database item_type id life is_appraised =
      elim (get_item_def database item_type id) [
        | none ↦ none
        | some def ↦ elim (load_script def.script) [
          | none ↦ some none
          | some lua ↦ some (
              some (record (item_of_def no_script def) {
                life = life;
                is_appraised = is_appraised;
                lua = on_init lua;
              }))
        ]
      ]

module _ {Script : Type 0} where
  -- The shifts and ors of an int, as the return types hold them.
  unfoldable pub get_visible : Item Script → ℕ
  get_visible item =
      bit_or
        (bit_or (bit_or (item.refine * 2 ^ 20) ((if item.has_socket then 1 else 0) * 2 ^ 19))
          (item.gem_opt * 2 ^ 10))
        item.id
      % 2 ^ 32

  unfoldable pub get_header : Item Script → ℕ
  get_header item =
      bit_or (bit_or ((if item.is_created then 1 else 0) * 2 ^ 15) (item.id * 2 ^ 5)) item.item_type
      % 2 ^ 16

  unfoldable pub get_data : Item Script → ℕ
  get_data item =
      if item.is_stackable
      then item.count
      else bit_or
          (bit_or
            (bit_or
              (bit_or
                (bit_or (item.refine * 2 ^ 28) ((if item.is_appraised then 1 else 0) * 2 ^ 27))
                ((if item.has_socket then 1 else 0) * 2 ^ 26))
              (item.life * 2 ^ 16))
            (item.durability * 2 ^ 9))
          item.gem_opt
        % 2 ^ 32
