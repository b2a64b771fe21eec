-- ===== src/Map/Inventory/Totals.antt =====
-- What the handlers keep: for any measure of an item, the total over all slots.
use os_irose_new.Common.{
  ℕ, zero, suc, ◌+◌, ◌-◌, ◌%◌, ◌^◌, ◌≤◌, ◌<◌, ◌≡◌, refl, ap, Bool, List, Option, none, some, ◌==◌,
  ltb, if◌then◌else◌, arith,
}
use native.Mathlib.Decide.{ℕ_discrete}
use os_irose_new.Map.Inventory.{
  Item, Sent, max_items, empty_item, put, empty_from, find_next_empty_slot, swap_items, remove_item,
  add_item, process_drop, process_equip, sent_swap,
}

module _ {Script : Type 0} where
  -- The sum of the measure `f` over the first `n` slots.
  unfoldable pub total : (Item Script → ℕ) → (ℕ → Item Script) → ℕ → ℕ
  total f items zero = 0
  total f items (suc n) = total f items n + f (items n)

  total-put_above :
      (f : Item Script → ℕ) (items : ℕ → Item Script) (slot : ℕ) (item : Item Script) (n : ℕ)
      → n ≤ slot
      → total f (put items slot item) n ≡ total f items n
  unfolding total
  total-put_above f items slot item zero h = refl
  total-put_above f items slot item (suc n) h = ground (arith, total-put_above f items slot item n)

  -- Putting an item into a slot adds its measure and takes off that of the item before.
  pub total-put :
      (f : Item Script → ℕ) (items : ℕ → Item Script) (slot : ℕ) (item : Item Script) (n : ℕ)
      → slot < n
      → total f (put items slot item) n + f (items slot) ≡ total f items n + f item
  unfolding total
  total-put f items slot item zero h = absurd (omega arith)
  total-put f items slot item (suc n) h = elim (ℕ_discrete n slot) [
    | yes here ↦ ground (arith, total-put_above f items slot item n (omega arith))
    | no other ↦ ground (arith, total-put f items slot item n (omega arith))
  ]

  empty_from-lt :
      (items : ℕ → Item Script) (left i : ℕ) → 0 < i → empty_from items left i < i + left
  unfolding empty_from
  empty_from-lt items zero i h = omega arith
  empty_from-lt items (suc left) i h = ground (arith, empty_from-lt items left (i + 1))

  find_next_empty_slot-lt : (inv : Option (ℕ → Item Script)) → find_next_empty_slot inv < max_items
  unfolding find_next_empty_slot
  find_next_empty_slot-lt none = omega arith
  find_next_empty_slot-lt (some items) = empty_from-lt items 128 12 (omega arith)

  total-swap :
      (f : Item Script → ℕ) (items : ℕ → Item Script) (a b : ℕ)
      → a < max_items
      → b < max_items
      → total f (put (put items a (items b)) b (items a)) max_items ≡ total f items max_items
  total-swap f items a b p q = omega (
    arith,
    total-put f items a (items b) max_items p,
    total-put f (put items a (items b)) b (items a) max_items q,
    ap f unmoved,
  )
    where
      unmoved : put items a (items b) b ≡ items b
      unmoved = ground arith

  -- The total over an inventory that may be missing.
  abbrev pub total_of : (Item Script → ℕ) → Option (ℕ → Item Script) → ℕ
  total_of f none = 0
  total_of f (some items) = total f items max_items

  -- swapItems keeps the total, whatever the slots are.
  pub total-swap_items :
      (f : Item Script → ℕ) (inv : Option (ℕ → Item Script)) (a b : ℕ)
      → total_of f (swap_items inv a b).3 ≡ total_of f inv
  unfolding swap_items
  total-swap_items f none a b = refl
  total-swap_items f (some items) a b =
      ground
        (arith, find_next_empty_slot-lt (some items), total-swap f items (resolved a) (resolved b))
    where
      resolved : ℕ → ℕ
      resolved slot = if slot == 0 then find_next_empty_slot (some items) else slot

  -- addItem that succeeds adds the item's measure, and takes off that of what the free slot held; one that
  -- fails changes nothing.
  pub total-add_item :
      (f : Item Script → ℕ) (items : ℕ → Item Script) (item : Item Script)
      → let slot = find_next_empty_slot (some items) in
        let added = add_item items item in
        total f added.1 max_items + (if added.0 then f (items slot) else 0)
        ≡ total f items max_items + (if added.0 then f item else 0)
  unfolding add_item
  total-add_item f items item = ground (
    arith,
    total-put f items (find_next_empty_slot (some items)) item max_items
        (find_next_empty_slot-lt (some items)),
  )

  -- processEquip that stays within the array keeps the total, whatever the hooks answer.
  pub total-process_equip :
      (f : Item Script → ℕ) (on_unequip on_equip : Item Script → Bool)
      (items items' : ℕ → Item Script) (slot_to slot_from : ℕ) (sent : List (Sent Script))
      → process_equip on_unequip on_equip items slot_to slot_from ≡ some (items', sent)
      → total f items' max_items ≡ total f items max_items
  unfolding process_equip sent_swap
  total-process_equip f on_unequip on_equip items items' slot_to slot_from sent e =
      ground (arith, total-swap_items f (some items) slot_to (slot_from % 2 ^ 8), e)

  -- The measure of the item on the ground, if there is one.
  abbrev pub on_ground : (Item Script → ℕ) → Option (Item Script) → ℕ
  on_ground f none = 0
  on_ground f (some item) = f item

  -- dropItem neither makes nor loses a piece: those left in the slots and those on the ground are as many
  -- as before.
  pub total-process_drop :
      (no_script : Script) (items : ℕ → Item Script) (slot quantity : ℕ)
      → let dropped = process_drop no_script items slot quantity in
        total (λ item. item.count) dropped.0 max_items + on_ground (λ item. item.count) dropped.1
        ≡ total (λ item. item.count) items max_items
  unfolding process_drop remove_item empty_item
  total-process_drop no_script items slot quantity = ground (
    arith,
    total-put (λ item. item.count) items slot (empty_item no_script) max_items,
    total-put (λ item. item.count) items slot
        (record (items slot) {
          count =
              (items slot).count
              - (if ltb (items slot).count quantity then (items slot).count else quantity);
        })
        max_items,
  )
