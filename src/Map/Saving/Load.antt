-- ===== src/Map/Saving/Load.antt =====
-- Loading rows with a builder that throws for none of them.
use os_irose_new.Common.{
  ℕ, ◌%◌, ◌^◌, ◌<◌, ◌≡◌, refl, sym, ap, ◌∙◌, Bool, true, false, ◌&&◌, List, [], ◌∷◌, Option, none,
  some, ltb, leb, if◌then◌else◌, arith,
}
use os_irose_new.Common.{Bool-cases, inl, inr}
use os_irose_new.Login.Database.{select}
use os_irose_new.Map.Inventory.{Item, max_items, put}
use os_irose_new.Map.Saving.{Row, of_char, is_at, row_of, row_members}
use os_irose_new.Map.Saving.Slots.{at}
use os_irose_new.Map.Saving.Diffs.{filled}
use os_irose_new.Map.Saving.Read.{as_read, row_ext, AllRead}

pub AllRead-tail :
    (r row : Row) (rest : List Row) (b : Bool)
    → AllRead r (if b then row ∷ rest else rest)
    → AllRead r rest
AllRead-tail r row rest true k = k.1
AllRead-tail r row rest false k = k

pub AllRead-head :
    (r row : Row) (rest : List Row) (b : Bool)
    → b ≡ true
    → AllRead r (if b then row ∷ rest else rest)
    → as_read row ≡ r
AllRead-head r row rest true e k = k.0
AllRead-head r row rest false e k = absurd (ground (arith, e))

last :
    {A : Type 0} (f : A → Row) (b : Bool) {x : A} (y : A) → f y ≡ f x → f (if b then x else y) ≡ f x
last f true y e = refl
last f false y e = e

module _ {Script : Type 0} (build : ℕ → ℕ → Option (Option (Item Script))) where
  -- The builder has an item of this type and id.
  pub record Builds (item : Item Script) : Type 0 where
    pub built : Item Script
    pub is_built : build item.item_type item.id ≡ some (some built)
    pub same_type : built.item_type ≡ item.item_type
    pub same_id : built.id ≡ item.id

  -- The item of a row, and the slots after the rows, where no row makes the builder throw.
  abbrev pub placed_row : Row → Item Script → Item Script
  placed_row row item =
      let base : Option (Option (Item Script)) → Item Script =
        λ (o : Option (Option (Item Script))). elim o [
          | none ↦ item
          | some p ↦ elim p [ none ↦ item | some built ↦ built ]
        ] in
      row_members row (base (build (row.itemtype % 2 ^ 8) (row.itemid % 2 ^ 16)))

  unfoldable pub placed : List Row → (ℕ → Item Script) → ℕ → Item Script
  placed [] items = items
  placed (row ∷ rows) items =
      let kept = placed rows items in
      let loaded = placed rows (put items row.slot (placed_row row (items row.slot))) in
      if leb max_items row.slot then kept else loaded

  row_of-placed_row :
      (c s : ℕ) (item old : Item Script) (row : Row)
      → Builds item
      → as_read row ≡ row_of c s item
      → row_of c s (placed_row row old) ≡ row_of c s item
  row_of-placed_row c s item old row h e =
      let asked : build (row.itemtype % 2 ^ 8) (row.itemid % 2 ^ 16) ≡ some (some h.built) =
        ap (λ (r : Row). build r.itemtype r.itemid) e ∙ h.is_built in
      row_ext (row_of c s (placed_row row old)) (row_of c s item) refl refl (rw asked h.same_id)
        (rw asked h.same_type) (ap (λ (r : Row). r.amount) e) (ap (λ (r : Row). r.refine) e)
        (ap (λ (r : Row). r.gem_opt) e) (ap (λ (r : Row). r.socket) e)

  load_step :
      (c s : ℕ) (row : Row) (rows : List Row) (items : ℕ → Item Script)
      → placed (select (of_char c) (row ∷ rows)) items s ≡ (
          if of_char c row && ltb row.slot max_items
          then placed
              (select (of_char c) rows)
              (put items row.slot (placed_row row (items row.slot)))
              s
          else placed (select (of_char c) rows) items s)
  unfolding placed select
  load_step c s row rows items = ground (arith)

  pub load-elsewhere :
      (c s : ℕ) (rows : List Row) (items : ℕ → Item Script)
      → filled (at c s rows) ≡ false
      → placed (select (of_char c) rows) items s ≡ items s
  unfolding placed select
  load-elsewhere c s [] items e = refl
  load-elsewhere c s (row ∷ rows) items e =
      let replaced : ℕ → Item Script = put items row.slot (placed_row row (items row.slot)) in
      ground (arith, e, load-elsewhere c s rows items, load-elsewhere c s rows replaced)

  -- The last of the rows of a slot is what is loaded.
  pub load-here :
      (c s : ℕ) (item : Item Script) (rows : List Row) (items : ℕ → Item Script)
      → s < max_items
      → Builds item
      → AllRead (row_of c s item) (at c s rows)
      → row_of c s (placed (select (of_char c) rows) items s)
        ≡ row_of c s (if filled (at c s rows) then item else items s)
  unfolding placed select
  load-here c s item [] items below h k = refl
  load-here c s item (row ∷ rows) items below h k =
      let replaced : ℕ → Item Script = put items row.slot (placed_row row (items row.slot)) in
      let rest : AllRead (row_of c s item) (at c s rows) =
        AllRead-tail (row_of c s item) row (at c s rows) (is_at c s row) k in
      elim (Bool-cases (is_at c s row)) [
        | inl e ↦
            let loaded : row_of c s (placed_row row (items row.slot)) ≡ row_of c s item =
              row_of-placed_row c s item (items row.slot) row h
                (AllRead-head (row_of c s item) row (at c s rows) (is_at c s row) e k) in
            let later : row_of c s (placed (select (of_char c) rows) replaced s)
                ≡ row_of c s (if filled (at c s rows) then item else replaced s) =
              load-here c s item rows replaced below h rest in
            let replaced_by : replaced s ≡ placed_row row (items row.slot) = ground (arith, e) in
            let found : filled (at c s (row ∷ rows)) ≡ true = ground (arith, e) in
            let taken : of_char c row && ltb row.slot max_items ≡ true = ground (arith, e, below) in
            let step : placed (select (of_char c) (row ∷ rows)) items s
                ≡ placed (select (of_char c) rows) replaced s =
              rw taken at (load_step c s row rows items) in
            ap (row_of c s) step
            ∙ later
            ∙ last (row_of c s) (filled (at c s rows)) (replaced s)
                (ap (row_of c s) replaced_by ∙ loaded)
            ∙ rw found refl
        | inr e ↦
            let later : row_of c s (placed (select (of_char c) rows) replaced s)
                ≡ row_of c s (if filled (at c s rows) then item else replaced s) =
              load-here c s item rows replaced below h rest in
            let skipped : row_of c s (placed (select (of_char c) rows) items s)
                ≡ row_of c s (if filled (at c s rows) then item else items s) =
              load-here c s item rows items below h rest in
            let same_rows : filled (at c s (row ∷ rows)) ≡ filled (at c s rows) =
              ground (arith, e) in
            elim (Bool-cases (of_char c row && ltb row.slot max_items)) [
              | inl taken ↦
                  let kept : replaced s ≡ items s = ground (arith, e, taken) in
                  ap (row_of c s) (rw taken at (load_step c s row rows items))
                  ∙ later
                  ∙ ap (λ (x : Item Script). row_of c s (if filled (at c s rows) then item else x))
                      kept
                  ∙ ap (λ (b : Bool). row_of c s (if b then item else items s)) (sym same_rows)
              | inr passed ↦
                  ap (row_of c s) (rw passed at (load_step c s row rows items))
                  ∙ skipped
                  ∙ ap (λ (b : Bool). row_of c s (if b then item else items s)) (sym same_rows)
            ]
      ]
