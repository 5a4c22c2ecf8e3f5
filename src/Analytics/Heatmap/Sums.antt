-- ===== src/Analytics/Heatmap/Sums.antt =====
-- A field of the digest is the wrapping sum of its measure over the grid.
use futures_orderbook.Prelude.{ℕ, ◌+◌, ◌%◌, ◌^◌, ◌<◌, ◌≡◌, sym, ap, ◌∙◌, subst, [], ◌∷◌, arith}
use native.Mathlib.Nat.{mod-add-mod, mod-lt, mod-eq_of_lt}
use futures_orderbook.TreeMap.{TreeMap}
use futures_orderbook.TreeMap.Sums.{sum}
use futures_orderbook.Analytics.Heatmap.{HeatmapCell, Grid, Heatmap}
use futures_orderbook.Analytics.Heatmap.Digest.{
  HeatmapDigest, digest_cell, digest_cells, digest_buckets, digest, zero_digest,
}
use futures_orderbook.Analytics.Heatmap.Totals.{grid_sum}

pub record IsField (m : ℕ) (field : HeatmapDigest → ℕ) (measure : HeatmapCell → ℕ) : Type 0 where
  pub positive : 0 < m
  pub start : field zero_digest ≡ 0
  pub cell :
      (c : HeatmapCell) (d : HeatmapDigest) → field (digest_cell c d) ≡ (field d + measure c) % m
  pub bucket : (d : HeatmapDigest) (n : ℕ) → field (record d { total_buckets = n }) ≡ field d

module _ (m : ℕ) (field : HeatmapDigest → ℕ) (measure : HeatmapCell → ℕ)
    (is : IsField m field measure) where
  wrapped : (a : ℕ) → a < m → a ≡ (a + 0) % m
  wrapped a h = let e : a ≡ a + 0 = omega arith in sym (mod-eq_of_lt h) ∙ ap (λ n. n % m) e

  -- One summand `q` more before the sum `s`.
  wrapped_step : (a b q s : ℕ) → b ≡ (a + q) % m → (b + s) % m ≡ (a + (q + s)) % m
  wrapped_step a b q s e =
      let f : a + q + s ≡ a + (q + s) = omega arith in
      ap (λ n. (n + s) % m) e ∙ mod-add-mod (a + q) m s ∙ ap (λ n. n % m) f

  below : (a b : ℕ) → b ≡ a % m → b < m
  below a b e = subst (λ n. n < m) (sym e) (mod-lt a is.positive)

  digest_cells-sum :
      (cells : TreeMap HeatmapCell) (d : HeatmapDigest)
      → field d < m
      → field (digest_cells cells d) ≡ (field d + sum measure cells) % m
  unfolding digest_cells
  digest_cells-sum [] d h = wrapped (field d) h
  digest_cells-sum ((price, c) ∷ cells) d h =
      let next = digest_cell c d in
      let e = is.cell c d in
      digest_cells-sum cells next (below (field d + measure c) (field next) e)
      ∙ wrapped_step (field d) (field next) (measure c) (sum measure cells) e

  digest_buckets-sum :
      (g : Grid) (d : HeatmapDigest)
      → field d < m
      → field (digest_buckets g d) ≡ (field d + grid_sum measure g) % m
  unfolding digest_buckets
  digest_buckets-sum [] d h = wrapped (field d) h
  digest_buckets-sum ((start, cells) ∷ g) d h =
      let opened = record d { total_buckets = (d.total_buckets + 1) % 2 ^ 64 } in
      let same = is.bucket d opened.total_buckets in
      let e =
        digest_cells-sum cells opened (subst (λ n. n < m) (sym same) h)
        ∙ ap (λ n. (n + sum measure cells) % m) same in
      let next = digest_cells cells opened in
      digest_buckets-sum g next (below (field d + sum measure cells) (field next) e)
      ∙ wrapped_step (field d) (field next) (sum measure cells) (grid_sum measure g) e

  pub digest-sum : (h : Heatmap) → field (digest h) ≡ grid_sum measure h.buckets % m
  unfolding digest
  digest-sum h =
      let total = grid_sum measure h.buckets in
      let e : 0 + total ≡ total = omega arith in
      digest_buckets-sum h.buckets zero_digest (subst (λ n. n < m) (sym is.start) is.positive)
      ∙ ap (λ n. (n + total) % m) is.start
      ∙ ap (λ n. n % m) e
