-- ===== src/Map/Inventory/Slots.antt =====
-- findNextEmptySlot, and addItem on top of it.
use os_irose_new.Common.{
  ℕ, zero, suc, ◌+◌, ◌%◌, ◌^◌, ◌≤◌, ◌<◌, ◌≡◌, ◌≢◌, refl, ap, ◌∙◌, Bool, true, false, [], none, some,
  arith,
}
use native.Mathlib.Decide.{ℕ_discrete}
use os_irose_new.Map.Inventory.{
  Item, is_item, empty_from, find_next_empty_slot, put, swap_items, process_drop, process_equip,
}

module _ {Script : Type 0} where
  -- `slot` is the first of the slots from `i` to `j` without an item, or 0 if all have one.
  pub record IsFirstEmpty (items : ℕ → Item Script) (i j slot : ℕ) : Type 0 where
    pub lower : slot ≢ 0 → i ≤ slot
    pub upper : slot ≢ 0 → slot < j
    pub empty : slot ≢ 0 → is_item (items slot) ≡ false
    pub before : (k : ℕ) → i ≤ k → k < j → is_item (items k) ≡ false → slot ≢ 0
    pub first : (k : ℕ) → i ≤ k → k < j → is_item (items k) ≡ false → slot ≤ k

  empty_from-step :
      (items : ℕ → Item Script) (left i : ℕ)
      → 0 < i
      → IsFirstEmpty items (i + 1) (i + 1 + left) (empty_from items left (i + 1))
      → IsFirstEmpty items i (i + suc left) (empty_from items (suc left) i)
  unfolding empty_from
  empty_from-step items left i pos c = record {
    lower = λ ne. ground (arith, c.lower);
    upper = λ ne. ground (arith, c.upper);
    empty = λ ne. ground (arith, c.empty);
    before = λ k lo hi e. elim (ℕ_discrete i k) [
      | yes here ↦ ground (arith, at k here e)
      | no later ↦ ground (arith, c.before k)
    ];
    first = λ k lo hi e. elim (ℕ_discrete i k) [
      | yes here ↦ ground (arith, at k here e)
      | no later ↦ ground (arith, c.first k)
    ];
  }
    where
      at : (k : ℕ) → i ≡ k → is_item (items k) ≡ false → is_item (items i) ≡ false
      at k here e = ap (λ (t : ℕ). is_item (items t)) here ∙ e

  empty_from-IsFirstEmpty :
      (items : ℕ → Item Script) (left i : ℕ)
      → 0 < i
      → IsFirstEmpty items i (i + left) (empty_from items left i)
  unfolding empty_from
  empty_from-IsFirstEmpty items zero i h = record {
    lower = λ ne. absurd (ne refl);
    upper = λ ne. absurd (ne refl);
    empty = λ ne. absurd (ne refl);
    before = λ k lo hi e. absurd (omega arith);
    first = λ k lo hi e. absurd (omega arith);
  }
  empty_from-IsFirstEmpty items (suc left) i h =
      empty_from-step items left i h (empty_from-IsFirstEmpty items left (i + 1) (omega arith))

  -- Without an entity's inventory the answer is 0. Else it is the first slot without an item behind the
  -- equipped ones, or 0 if every slot there has one.
  pub find_next_empty_slot-IsFirstEmpty :
      (items : ℕ → Item Script) → IsFirstEmpty items 12 140 (find_next_empty_slot (some items))
  unfolding find_next_empty_slot
  find_next_empty_slot-IsFirstEmpty items = empty_from-IsFirstEmpty items 128 12 (omega arith)

  -- If every slot behind the equipped ones has an item, a swap with slot 0 puts the other item into slot 0
  -- itself, which findNextEmptySlot never looks at and dropItem refuses.
  pub swap_items_full :
      (no_script : Script) (items : ℕ → Item Script) (b quantity : ℕ)
      → ((k : ℕ) → 12 ≤ k → k < 140 → is_item (items k) ≡ true)
      → b ≢ 0
      → b < 140
      → (swap_items (some items) 0 b ≡ (true, 0, b, some (put (put items 0 (items b)) b (items 0))))
        × (process_drop no_script (put (put items 0 (items b)) b (items 0)) 0 quantity
            ≡ (put (put items 0 (items b)) b (items 0), none, []))
  unfolding swap_items process_drop
  swap_items_full no_script items b quantity full ne hi = (ground (arith, none_left), refl)
    where
      none_left : find_next_empty_slot (some items) ≡ 0
      none_left = elim (ℕ_discrete (find_next_empty_slot (some items)) 0) [
        | yes z ↦ z
        | no nz ↦
            let c = find_next_empty_slot-IsFirstEmpty items in
            ground (arith, full _ (c.lower nz) (c.upper nz), c.empty nz)
      ]

  -- processEquip for a slot that can be equipped reads past the end of items_ when the low byte of slotFrom
  -- is 140 or more.
  pub process_equip_overrun :
      (on_unequip on_equip : Item Script → Bool) (items : ℕ → Item Script) (slot_to slot_from : ℕ)
      → 1 ≤ slot_to
      → slot_to < 12
      → 140 ≤ slot_from % 2 ^ 8
      → process_equip on_unequip on_equip items slot_to slot_from ≡ none
  unfolding process_equip
  process_equip_overrun on_unequip on_equip items slot_to slot_from lo hi past = ground arith
