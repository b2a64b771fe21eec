-- ===== src/Map/Saving/Read.antt =====
-- How the rows of a slot are read after saving.
use os_irose_new.Common.{
  ℕ, ◌%◌, ◌^◌, ◌<◌, ◌≡◌, refl, ◌∙◌, Bool, true, false, List, [], ◌∷◌, ◌++◌, ◌==◌, if◌then◌else◌,
  arith,
}
use os_irose_new.Login.Database.{select}
use os_irose_new.Map.Inventory.{Item, max_items, is_item}
use os_irose_new.Map.Saving.{
  Row, is_at, bit_of, same_item, item_of_row, set_row, row_of, save_inventory,
}
use os_irose_new.Map.Saving.Slots.{at, map_rows}
use os_irose_new.Map.Saving.Diffs.{filled, differs}
use os_irose_new.Map.Saving.Saved.{at-save_inventory}

-- A row after the conversions of Item::loadFromRow.
abbrev pub as_read : Row → Row
as_read row = record row {
  itemid = row.itemid % 2 ^ 16;
  itemtype = row.itemtype % 2 ^ 8;
  amount = row.amount % 2 ^ 32;
  refine = row.refine % 2 ^ 8;
  gem_opt = row.gem_opt % 2 ^ 16;
  socket = bit_of (if row.socket == 0 then false else true);
}

-- Every row is read as `r`.
abbrev pub AllRead : Row → List Row → Type 0
AllRead r [] = Unit {0}
AllRead r (row ∷ rows) = (as_read row ≡ r) × AllRead r rows

AllRead-append : (r : Row) (xs ys : List Row) → AllRead r xs → AllRead r ys → AllRead r (xs ++ ys)
AllRead-append r [] ys h k = k
AllRead-append r (x ∷ xs) ys h k = (h.0, AllRead-append r xs ys h.1 k)

AllRead-step :
    (r row : Row) (rest : List Row) (f : Row → Row) (b : Bool)
    → (b ≡ true → as_read (f row) ≡ r)
    → AllRead r (map_rows f rest)
    → AllRead r (map_rows f (if b then row ∷ rest else rest))
AllRead-step r row rest f true h k = (h refl, k)
AllRead-step r row rest f false h k = k

AllRead-select :
    (r : Row) (f : Row → Row) (test : Row → Bool) (rows : List Row)
    → ((row : Row) → test row ≡ true → as_read (f row) ≡ r)
    → AllRead r (map_rows f (select test rows))
unfolding select
AllRead-select r f test [] h = tt
AllRead-select r f test (row ∷ rows) h =
    AllRead-step r row (select test rows) f (test row) (h row) (AllRead-select r f test rows h)

bit_of-socket : (b : Bool) → bit_of (if bit_of b == 0 then false else true) ≡ bit_of b
bit_of-socket b = ground (arith)

pub row_ext :
    (x y : Row)
    → x.char_id ≡ y.char_id
    → x.slot ≡ y.slot
    → x.itemid ≡ y.itemid
    → x.itemtype ≡ y.itemtype
    → x.amount ≡ y.amount
    → x.refine ≡ y.refine
    → x.gem_opt ≡ y.gem_opt
    → x.socket ≡ y.socket
    → x ≡ y
row_ext x y a b d e f g h k = λ i. record {
  char_id = a i;
  slot = b i;
  itemid = d i;
  itemtype = e i;
  amount = f i;
  refine = g i;
  gem_opt = h i;
  socket = k i;
}

module _ {Script : Type 0} where
  -- The members that the table keeps fit their types.
  pub record InRange (item : Item Script) : Type 0 where
    pub type_fits : item.item_type < 2 ^ 8
    pub id_fits : item.id < 2 ^ 16
    pub count_fits : item.count < 2 ^ 32
    pub refine_fits : item.refine < 2 ^ 8
    pub gem_opt_fits : item.gem_opt < 2 ^ 16

  read-set_row :
      (c s : ℕ) (item : Item Script) (row : Row)
      → InRange item
      → is_at c s row ≡ true
      → as_read (set_row item row) ≡ row_of c s item
  read-set_row c s item row h e =
      row_ext (as_read (set_row item row)) (row_of c s item) (ground (arith, e)) (ground (arith, e))
        (omega arith) (omega arith) (omega arith) (omega arith) (omega arith)
        (bit_of-socket item.has_socket)

  read-row_of :
      (c s : ℕ) (item : Item Script) → InRange item → as_read (row_of c s item) ≡ row_of c s item
  read-row_of c s item h = read-set_row c s item (row_of c s item) h (ground (arith))

  pub AllRead-updated :
      (c s : ℕ) (item : Item Script) (rows : List Row)
      → InRange item
      → AllRead (row_of c s item) (map_rows (set_row item) (at c s rows))
  AllRead-updated c s item rows h =
      AllRead-select (row_of c s item) (set_row item) (is_at c s) rows
        (λ (row : Row). λ (e : is_at c s row ≡ true). read-set_row c s item row h e)

module _ {Script : Type 0} (no_script : Script) where
  read-same :
      (c s : ℕ) (item : Item Script) (row : Row)
      → is_at c s row ≡ true
      → same_item item (item_of_row no_script row) ≡ true
      → as_read row ≡ row_of c s item
  unfolding same_item item_of_row
  read-same c s item row e h =
      row_ext (as_read row) (row_of c s item) (ground (arith, e)) (ground (arith, e))
        (ground (arith, h)) (ground (arith, h)) (ground (arith, h)) (ground (arith, h))
        (ground (arith, h)) (ground (arith, h))

  unchanged-step :
      (r row : Row) (item : Item Script) (rest : List Row) (b : Bool)
      → (b ≡ true → same_item item (item_of_row no_script row) ≡ true → as_read row ≡ r)
      → (differs no_script item rest ≡ false → AllRead r rest)
      → differs no_script item (if b then row ∷ rest else rest) ≡ false
      → AllRead r (if b then row ∷ rest else rest)
  unchanged-step r row item rest true h k e = (h refl (ground (arith, e)), k (ground (arith, e)))
  unchanged-step r row item rest false h k e = k e

  AllRead-unchanged :
      (c s : ℕ) (item : Item Script) (rows : List Row)
      → differs no_script item (at c s rows) ≡ false
      → AllRead (row_of c s item) (at c s rows)
  unfolding select
  AllRead-unchanged c s item [] e = tt
  AllRead-unchanged c s item (row ∷ rows) e =
      unchanged-step (row_of c s item) row item (at c s rows) (is_at c s row)
        (read-same c s item row) (AllRead-unchanged c s item rows) e

  AllRead-read :
      (c s : ℕ) (items : ℕ → Item Script) (rows : List Row) (dif : Bool)
      → InRange (items s)
      → differs no_script (items s) (at c s rows) ≡ dif
      → AllRead
          (row_of c s (items s))
          (if dif then map_rows (set_row (items s)) (at c s rows) else at c s rows)
  AllRead-read c s items rows true h e = AllRead-updated c s (items s) rows h
  AllRead-read c s items rows false h e = AllRead-unchanged c s (items s) rows e

  AllRead-new : (r row : Row) (b : Bool) → as_read row ≡ r → AllRead r (if b then [] else row ∷ [])
  AllRead-new r row true e = tt
  AllRead-new r row false e = (e, tt)

  -- The rows of a slot with an item are all read as the item.
  pub AllRead-save_inventory :
      (c s : ℕ) (items : ℕ → Item Script) (rows : List Row)
      → s < max_items
      → is_item (items s) ≡ true
      → InRange (items s)
      → AllRead (row_of c s (items s)) (at c s (save_inventory no_script c items rows))
  AllRead-save_inventory c s items rows below e h =
      let r : Row = row_of c s (items s) in
      let dif : Bool = differs no_script (items s) (at c s rows) in
      let kept : List Row =
        if dif then map_rows (set_row (items s)) (at c s rows) else at c s rows in
      let new : List Row = if filled (at c s rows) then [] else r ∷ [] in
      let saved : AllRead r (kept ++ new) =
        AllRead-append r kept new (AllRead-read c s items rows dif h refl)
          (AllRead-new r r (filled (at c s rows)) (read-row_of c s (items s) h)) in
      let rows_are : at c s (save_inventory no_script c items rows) ≡ kept ++ new =
        at-save_inventory no_script c s items rows ∙ ground (arith, below, e) in
      rw rows_are saved
