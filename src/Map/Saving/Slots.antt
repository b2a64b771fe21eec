-- ===== src/Map/Saving/Slots.antt =====
-- What the statements do to the rows of one slot of one character.
use os_irose_new.Common.{
  ℕ, zero, suc, ◌≡◌, ◌≢◌, refl, sym, ap, ◌∙◌, Bool, not, List, [], ◌∷◌, ◌++◌, if◌then◌else◌, arith,
}
use os_irose_new.Common.{count}
use native.Mathlib.Decide.{ℕ_discrete}
use mathlib.Core.List.{append-nil, append_assoc}
use os_irose_new.Login.Database.{select, update}
use os_irose_new.Map.Inventory.{Item}
use os_irose_new.Map.Saving.{
  Row, is_at, contains, set_row, row_of, delete_slots, update_slots, insert_slots,
}

-- The rows of a slot.
abbrev pub at : ℕ → ℕ → List Row → List Row
at char_id slot rows = select (is_at char_id slot) rows

abbrev pub map_rows : (Row → Row) → List Row → List Row
map_rows f [] = []
map_rows f (row ∷ rows) = f row ∷ map_rows f rows

abbrev pub copies : ℕ → Row → List Row
copies zero row = []
copies (suc n) row = row ∷ copies n row

at-delete_same :
    (c s : ℕ) (rows : List Row) → at c s (select (λ (row : Row). not (is_at c s row)) rows) ≡ []
unfolding select
at-delete_same c s [] = refl
at-delete_same c s (row ∷ rows) = ground (arith, at-delete_same c s rows)

at-delete_other :
    (c s t : ℕ) (rows : List Row)
    → s ≢ t
    → at c s (select (λ (row : Row). not (is_at c t row)) rows) ≡ at c s rows
unfolding select
at-delete_other c s t [] n = refl
at-delete_other c s t (row ∷ rows) n = ground (arith, n, at-delete_other c s t rows n)

-- The rows of a slot after the deletions.
pub at-delete_slots :
    (c s : ℕ) (slots : List ℕ) (rows : List Row)
    → at c s (delete_slots c slots rows) ≡ (if contains s slots then [] else at c s rows)
unfolding delete_slots
at-delete_slots c s [] rows = refl
at-delete_slots c s (t ∷ slots) rows = elim (ℕ_discrete s t) [
  | yes same ↦
      let here : at c s (select (λ (row : Row). not (is_at c t row)) rows) ≡ [] =
        rw same (at-delete_same c t rows) in
      at-delete_slots c s slots (select (λ (row : Row). not (is_at c t row)) rows)
      ∙ ground (arith, same, here)
  | no other ↦
      at-delete_slots c s slots (select (λ (row : Row). not (is_at c t row)) rows)
      ∙ ground (arith, other, at-delete_other c s t rows other)
]

select-append :
    (test : Row → Bool) (xs ys : List Row)
    → select test (xs ++ ys) ≡ select test xs ++ select test ys
unfolding select
select-append test [] ys = refl
select-append test (x ∷ xs) ys = ground (arith, select-append test xs ys)

module _ {Script : Type 0} (items : ℕ → Item Script) (c d s : ℕ) (n : d ≢ c) where
  away-select :
      (t : ℕ) (rows : List Row)
      → at d s (select (λ (row : Row). not (is_at c t row)) rows) ≡ at d s rows
  unfolding select
  away-select t [] = refl
  away-select t (row ∷ rows) = ground (arith, n, away-select t rows)

  pub away-delete_slots :
      (slots : List ℕ) (rows : List Row) → at d s (delete_slots c slots rows) ≡ at d s rows
  unfolding delete_slots
  away-delete_slots [] rows = refl
  away-delete_slots (t ∷ slots) rows =
      away-delete_slots slots (select (λ (row : Row). not (is_at c t row)) rows)
      ∙ away-select t rows

  away-update :
      (t : ℕ) (item : Item Script) (rows : List Row)
      → at d s (update (is_at c t) (set_row item) rows) ≡ at d s rows
  unfolding select update
  away-update t item [] = refl
  away-update t item (row ∷ rows) = ground (arith, n, away-update t item rows)

  pub away-update_slots :
      (slots : List ℕ) (rows : List Row) → at d s (update_slots c items slots rows) ≡ at d s rows
  unfolding update_slots
  away-update_slots [] rows = refl
  away-update_slots (t ∷ slots) rows =
      away-update_slots slots (update (is_at c t) (set_row (items t)) rows)
      ∙ away-update t (items t) rows

  away-row_of : (t : ℕ) (rows : List Row) → at d s (rows ++ row_of c t (items t) ∷ []) ≡ at d s rows
  unfolding select
  away-row_of t [] = ground (arith, n)
  away-row_of t (row ∷ rows) = ground (arith, n, away-row_of t rows)

  pub away-insert_slots :
      (slots : List ℕ) (rows : List Row) → at d s (insert_slots c items slots rows) ≡ at d s rows
  unfolding insert_slots
  away-insert_slots [] rows = refl
  away-insert_slots (t ∷ slots) rows =
      away-insert_slots slots (rows ++ row_of c t (items t) ∷ []) ∙ away-row_of t rows

count_here : (s t : ℕ) (slots : List ℕ) → s ≡ t → count s (t ∷ slots) ≡ suc (count s slots)
count_here s t slots same = ground (arith, same)

module _ {Script : Type 0} where
  at-update_same :
      (c s : ℕ) (item : Item Script) (rows : List Row)
      → at c s (update (is_at c s) (set_row item) rows) ≡ map_rows (set_row item) (at c s rows)
  unfolding select update
  at-update_same c s item [] = refl
  at-update_same c s item (row ∷ rows) = ground (arith, at-update_same c s item rows)

  at-update_other :
      (c s t : ℕ) (item : Item Script) (rows : List Row)
      → s ≢ t
      → at c s (update (is_at c t) (set_row item) rows) ≡ at c s rows
  unfolding select update
  at-update_other c s t item [] n = refl
  at-update_other c s t item (row ∷ rows) n = ground (arith, n, at-update_other c s t item rows n)

  map_rows-twice :
      (item : Item Script) (rows : List Row)
      → map_rows (set_row item) (map_rows (set_row item) rows) ≡ map_rows (set_row item) rows
  map_rows-twice item [] = refl
  map_rows-twice item (row ∷ rows) =
      ap (λ (t : List Row). set_row item row ∷ t) (map_rows-twice item rows)

  -- The rows of a slot after the updates.
  pub at-update_slots :
      (c s : ℕ) (items : ℕ → Item Script) (slots : List ℕ) (rows : List Row)
      → at c s (update_slots c items slots rows)
        ≡ (if contains s slots then map_rows (set_row (items s)) (at c s rows) else at c s rows)
  unfolding update_slots
  at-update_slots c s items [] rows = refl
  at-update_slots c s items (t ∷ slots) rows = elim (ℕ_discrete s t) [
    | yes same ↦
        let here : at c s (update (is_at c t) (set_row (items t)) rows)
            ≡ map_rows (set_row (items s)) (at c s rows) =
          rw same (at-update_same c t (items t) rows) in
        at-update_slots c s items slots (update (is_at c t) (set_row (items t)) rows)
        ∙ ground (arith, same, here, map_rows-twice (items s) (at c s rows))
    | no other ↦
        at-update_slots c s items slots (update (is_at c t) (set_row (items t)) rows)
        ∙ ground (arith, other, at-update_other c s t (items t) rows other)
  ]

  at-row_same :
      (c s : ℕ) (item : Item Script) → at c s (row_of c s item ∷ []) ≡ row_of c s item ∷ []
  unfolding select
  at-row_same c s item = ground (arith)

  at-row_other : (c s t : ℕ) (item : Item Script) → s ≢ t → at c s (row_of c t item ∷ []) ≡ []
  unfolding select
  at-row_other c s t item n = ground (arith, n)

  -- The rows of a slot after the insertions.
  pub at-insert_slots :
      (c s : ℕ) (items : ℕ → Item Script) (slots : List ℕ) (rows : List Row)
      → at c s (insert_slots c items slots rows)
        ≡ at c s rows ++ copies (count s slots) (row_of c s (items s))
  unfolding insert_slots
  at-insert_slots c s items [] rows = sym (append-nil (at c s rows))
  at-insert_slots c s items (t ∷ slots) rows = elim (ℕ_discrete s t) [
    | yes same ↦
        let here : at c s (row_of c t (items t) ∷ []) ≡ row_of c s (items s) ∷ [] =
          rw same (at-row_same c t (items t)) in
        at-insert_slots c s items slots (rows ++ row_of c t (items t) ∷ [])
        ∙ ap (λ (ys : List Row). ys ++ copies (count s slots) (row_of c s (items s)))
            (select-append (is_at c s) rows (row_of c t (items t) ∷ [])
              ∙ ap (λ (ys : List Row). at c s rows ++ ys) here)
        ∙ append_assoc (at c s rows) (row_of c s (items s) ∷ [])
            (copies (count s slots) (row_of c s (items s)))
        ∙ ap (λ (n : ℕ). at c s rows ++ copies n (row_of c s (items s)))
            (sym (count_here s t slots same))
    | no other ↦
        at-insert_slots c s items slots (rows ++ row_of c t (items t) ∷ [])
        ∙ ground (
          arith,
          other,
          at-row_other c s t (items t) other,
          select-append (is_at c s) rows (row_of c t (items t) ∷ []),
          append-nil (at c s rows),
        )
  ]
