-- ===== src/Analytics/Heatmap/Totals.antt =====
-- The totals of the digest: what each call adds to them.
use futures_orderbook.Prelude.{
  ℕ, ◌+◌, ◌≡◌, refl, Option, none, some, All, arith, Option-cases, inl, inr,
}
use futures_orderbook.TreeMap.{TreeMap, get, insert, IsOrdered}
use futures_orderbook.TreeMap.Laws.{insert-Ascends}
use futures_orderbook.TreeMap.Sums.{sum, measured, sum-insert}
use futures_orderbook.TreeMap.Entries.{insert-All, All-get}
use futures_orderbook.Analytics.Heatmap.{
  HeatmapCell, Grid, new_cell, cells_or_new, cell_or_new, on_cell,
}

-- A number that a new cell does not have, and that placing a cell leaves alone.
pub record IsMeasure (measure : HeatmapCell → ℕ) : Type 0 where
  pub fresh : (price : ℕ) → measure (new_cell price) ≡ 0
  pub placed :
      (c : HeatmapCell) (start : Option ℕ) (price : ℕ)
      → measure (record c { timestamp_bucket = start; price = price }) ≡ measure c

abbrev pub IsBucketOrdered : ℕ × TreeMap HeatmapCell → Type 0
IsBucketOrdered e = IsOrdered e.1

pub record IsSorted (g : Grid) : Type 0 where
  pub outer : IsOrdered g
  pub inner : All IsBucketOrdered g

abbrev pub grid_sum : (HeatmapCell → ℕ) → Grid → ℕ
grid_sum measure g = sum (sum measure) g

cells-IsOrdered :
    (start : ℕ) (g : Grid) → All IsBucketOrdered g → IsOrdered (cells_or_new (get start g))
cells-IsOrdered start g h = elim (Option-cases (get start g)) [
  | inl e ↦ rw e tt
  | inr (cells, e) ↦ rw e (All-get IsBucketOrdered start cells g h e)
]

module _ (f : HeatmapCell → HeatmapCell) (price start : ℕ) where
  pub on_cell-IsSorted : (g : Grid) → IsSorted g → IsSorted (on_cell f price start g)
  unfolding on_cell
  on_cell-IsSorted g h =
      let cells = cells_or_new (get start g) in
      let found = cell_or_new price (get price cells) in
      let cell = record found { timestamp_bucket = some start; price = price } in
      let ordered =
        insert-Ascends price (f cell) cells 0 (omega arith) (cells-IsOrdered start g h.inner) in
      record {
        outer = insert-Ascends start (insert price (f cell) cells) g 0 (omega arith) h.outer;
        inner = insert-All IsBucketOrdered start (insert price (f cell) cells) g ordered h.inner;
      }

  module _ (measure : HeatmapCell → ℕ) (is : IsMeasure measure) where
    found_measure : (o : Option HeatmapCell) → measure (cell_or_new price o) ≡ measured measure o
    found_measure none = is.fresh price
    found_measure (some c) = refl

    cells_measure :
        (o : Option (TreeMap HeatmapCell)) → sum measure (cells_or_new o) ≡ measured (sum measure) o
    cells_measure none = refl
    cells_measure (some cells) = refl

    -- One cell of the grid is replaced by what `f` makes of it.
    pub grid_sum-on_cell :
        (g : Grid)
        → IsSorted g
        → (c : HeatmapCell) × (grid_sum measure (on_cell f price start g) + measure c
            ≡ grid_sum measure g + measure (f c))
    unfolding on_cell
    grid_sum-on_cell g h =
        let cells = cells_or_new (get start g) in
        let found = cell_or_new price (get price cells) in
        let cell = record found { timestamp_bucket = some start; price = price } in
        let row = insert price (f cell) cells in
        (
          cell,
          omega (
            arith,
            sum-insert (sum measure) start 0 row g h.outer,
            sum-insert measure price 0 (f cell) cells (cells-IsOrdered start g h.inner),
            is.placed found (some start) price,
            found_measure (get price cells),
            cells_measure (get start g),
          ),
        )
