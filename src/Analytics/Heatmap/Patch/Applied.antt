-- ===== src/Analytics/Heatmap/Patch/Applied.antt =====
-- A renderer that applies a delta to the cells of the previous frame has those of the current one.
use futures_orderbook.Prelude.{
  ℕ, suc, ◌≡◌, refl, ◌∙◌, ap, List, [], ◌∷◌, Option, none, some, true, All, arith, if-elim,
  if◌then◌else◌,
}
use futures_orderbook.TreeMap.{TreeMap, get, insert, remove, Ascends, IsOrdered}
use futures_orderbook.TreeMap.Laws.{
  get-insert, get-remove, get_below, insert-Ascends, remove-Ascends, TreeMap-ext,
}
use futures_orderbook.TreeMap.Entries.{insert-All}
use futures_orderbook.Analytics.Heatmap.Frame.{HeatmapCellSnapshot, HeatmapFrame, same_cell}
use futures_orderbook.Analytics.Heatmap.Patch.{
  HeatmapDelta, collect, by_price, changed_cells, created_cells, removed_prices, compute,
}

abbrev Cells : Type 0
Cells = TreeMap HeatmapCellSnapshot

same_cell-eq : (a b : HeatmapCellSnapshot) → same_cell a b ≡ true → a ≡ b
unfolding same_cell
same_cell-eq a b e = ground (arith, e)

-- What a renderer does with a delta: overwrite the changed cells, add the created ones, drop the
-- removed ones.
unfoldable pub overwrite : List (ℕ × HeatmapCellSnapshot) → Cells → Cells
overwrite [] m = m
overwrite ((price, c) ∷ cells) m = overwrite cells (insert price c m)

unfoldable pub drop_prices : List ℕ → Cells → Cells
drop_prices [] m = m
drop_prices (price ∷ prices) m = drop_prices prices (remove price m)

unfoldable pub patch : HeatmapDelta → Cells → Cells
patch delta m = drop_prices delta.removed (collect delta.created (overwrite delta.changed m))

-- Entries are kept under their own price.
abbrev IsKeyed : ℕ × HeatmapCellSnapshot → Type 0
IsKeyed e = e.1.price_tick ≡ e.0

collect-IsOrdered :
    (cells : List HeatmapCellSnapshot) (m : Cells) → IsOrdered m → IsOrdered (collect cells m)
unfolding collect
collect-IsOrdered [] m h = h
collect-IsOrdered (c ∷ cells) m h =
    collect-IsOrdered cells (insert c.price_tick c m)
      (insert-Ascends c.price_tick c m 0 (omega arith) h)

collect-IsKeyed :
    (cells : List HeatmapCellSnapshot) (m : Cells) → All IsKeyed m → All IsKeyed (collect cells m)
unfolding collect
collect-IsKeyed [] m h = h
collect-IsKeyed (c ∷ cells) m h =
    collect-IsKeyed cells (insert c.price_tick c m) (insert-All IsKeyed c.price_tick c m refl h)

overwrite-IsOrdered :
    (cells : List (ℕ × HeatmapCellSnapshot)) (m : Cells)
    → IsOrdered m
    → IsOrdered (overwrite cells m)
unfolding overwrite
overwrite-IsOrdered [] m h = h
overwrite-IsOrdered ((price, c) ∷ cells) m h =
    overwrite-IsOrdered cells (insert price c m) (insert-Ascends price c m 0 (omega arith) h)

drop_prices-IsOrdered :
    (prices : List ℕ) (m : Cells) → IsOrdered m → IsOrdered (drop_prices prices m)
unfolding drop_prices
drop_prices-IsOrdered [] m h = h
drop_prices-IsOrdered (price ∷ prices) m h =
    drop_prices-IsOrdered prices (remove price m) (remove-Ascends price m 0 h)

-- What is read at a price after each of the three, from what the current map, the previous map and
-- the map itself had there.
abbrev changed_at :
    Option HeatmapCellSnapshot
    → Option HeatmapCellSnapshot
    → Option HeatmapCellSnapshot
    → Option HeatmapCellSnapshot
changed_at (some c) (some p) m = if same_cell p c then m else some c
changed_at (some c) none m = m
changed_at none p m = m

abbrev created_at :
    Option HeatmapCellSnapshot
    → Option HeatmapCellSnapshot
    → Option HeatmapCellSnapshot
    → Option HeatmapCellSnapshot
created_at (some c) none m = some c
created_at (some c) (some p) m = m
created_at none p m = m

abbrev removed_at :
    Option HeatmapCellSnapshot
    → Option HeatmapCellSnapshot
    → Option HeatmapCellSnapshot
    → Option HeatmapCellSnapshot
removed_at (some p) none m = none
removed_at (some p) (some c) m = m
removed_at none c m = m

get-overwrite :
    (j b : ℕ) (prev curr m : Cells)
    → Ascends b curr
    → get j (overwrite (changed_cells prev curr) m) ≡ changed_at (get j curr) (get j prev) (get j m)
unfolding overwrite changed_cells get
get-overwrite j b prev [] m h = refl
get-overwrite j b prev ((k, c) ∷ curr) m h = ground (
  arith,
  get-overwrite j (suc k) prev curr m h.1,
  get-overwrite j (suc k) prev curr (insert k c m) h.1,
  get-insert k j c m,
  get_below j curr (suc k),
)

get-collect :
    (j b : ℕ) (prev curr m : Cells)
    → Ascends b curr
    → All IsKeyed curr
    → get j (collect (created_cells prev curr) m) ≡ created_at (get j curr) (get j prev) (get j m)
unfolding collect created_cells get
get-collect j b prev [] m h w = refl
get-collect j b prev ((k, c) ∷ curr) m h w = ground (
  arith,
  w.0,
  get-collect j (suc k) prev curr m h.1 w.1,
  get-collect j (suc k) prev curr (insert c.price_tick c m) h.1 w.1,
  get-insert c.price_tick j c m,
  get_below j curr (suc k),
)

get-drop_prices :
    (j b : ℕ) (prev curr m : Cells)
    → Ascends b prev
    → IsOrdered m
    → get j (drop_prices (removed_prices curr prev) m)
      ≡ removed_at (get j prev) (get j curr) (get j m)
unfolding drop_prices removed_prices get
get-drop_prices j b [] curr m h o = refl
get-drop_prices j b ((k, p) ∷ prev) curr m h o = ground (
  arith,
  get-drop_prices j (suc k) prev curr m h.1 o,
  get-drop_prices j (suc k) prev curr (remove k m) h.1 (remove-Ascends k m 0 o),
  get-remove k j m 0 o,
  get_below j prev (suc k),
)

-- The three reads in a row, from the previous map, give what the current one has.
reads_current :
    (p c : Option HeatmapCellSnapshot) → removed_at p c (created_at c p (changed_at c p p)) ≡ c
reads_current none none = refl
reads_current none (some c) = refl
reads_current (some p) none = refl
reads_current (some p) (some c) =
    if-elim (λ o. o ≡ some c) (same_cell p c) (some p) (some c) (λ e. ap some (same_cell-eq p c e))
      (λ _. refl)

-- For any two frames: overwriting the changed cells, adding the created ones and dropping the
-- removed ones takes the cells of the previous frame, by price, to those of the current frame.
pub patch-compute :
    (previous current : HeatmapFrame)
    → patch (compute previous current) (by_price previous) ≡ by_price current
unfolding patch compute by_price
patch-compute previous current =
    let prev = by_price previous in
    let curr = by_price current in
    let delta = compute previous current in
    let prev_ordered = collect-IsOrdered previous.cells [] tt in
    let curr_ordered = collect-IsOrdered current.cells [] tt in
    let written = overwrite delta.changed prev in
    let added = collect delta.created written in
    let added_ordered =
      collect-IsOrdered delta.created written
        (overwrite-IsOrdered delta.changed prev prev_ordered) in
    TreeMap-ext (drop_prices delta.removed added) curr 0
      (drop_prices-IsOrdered delta.removed added added_ordered) curr_ordered
      (λ j.
        get-drop_prices j 0 prev curr added prev_ordered added_ordered
        ∙ ap (removed_at (get j prev) (get j curr)) (
            get-collect j 0 prev curr written curr_ordered (collect-IsKeyed current.cells [] tt)
            ∙ ap (created_at (get j curr) (get j prev))
                (get-overwrite j 0 prev curr prev curr_ordered))
        ∙ reads_current (get j prev) (get j curr))
