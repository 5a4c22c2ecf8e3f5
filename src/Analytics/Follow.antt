-- ===== src/Analytics/Follow.antt =====
-- The shadow book follows the live book through the events that the driver sends.
use mathlib.Core.List.{reverse_aux}
use futures_orderbook.Prelude.{
  ℕ, suc, ◌<◌, ◌≡◌, refl, ap, ap₂, sym, ◌∙◌, List, [], ◌∷◌, map, reverse, Bool-cases, true, Option,
  none, some, ltb, ok, err, inl, inr, Result-cases, All, arith,
}
use futures_orderbook.TreeMap.{TreeMap, get, Ascends}
use futures_orderbook.Level.{price_str_to_ticks, quantity_str_to_ticks}
use futures_orderbook.Level.Floats.{F64}
use futures_orderbook.Binance.{DepthUpdate}
use futures_orderbook.Events.{Change}
use futures_orderbook.Book.Defs.{OrderBook, Quote}
use futures_orderbook.Book.Apply.{store, write, finish, update_done, Outcome, apply_depth_update}
use futures_orderbook.Book.Update.{sides_written, apply_depth_update-decode}
use futures_orderbook.Book.View.{snapshot, level}
use futures_orderbook.TreeMap.Laws.{TreeMap-ext}
use futures_orderbook.Book.Spec.{put_all, last_stored, decode, get-store_all, store_all-IsOrdered}
use futures_orderbook.Book.Valid.{IsValid, IsSide, Fits}
use futures_orderbook.Engine.Defs.{change_of, pairs}
use futures_orderbook.Analytics.Shadow.{
  BookSide, bid, ask, ShadowBook, load, apply_snapshot, update_levels, apply_update,
}

abbrev pub asked : Change → ℕ × ℕ
asked c = (c.price, c.new_qty)

pub update_levels-put :
    (side : BookSide) (changes : List Change) (m : TreeMap ℕ)
    → (update_levels side changes m).0 ≡ put_all write (map asked changes) m
unfolding update_levels put_all
update_levels-put side [] m = refl
update_levels-put side (c ∷ changes) m = update_levels-put side changes (write c.price c.new_qty m)

load-put :
    (us : List (ℕ × ℕ)) (m : TreeMap ℕ) (rejected : ℕ) → (load us m rejected).0 ≡ put_all store us m
unfolding load put_all
load-put [] m rejected = refl
load-put ((k, q) ∷ us) m rejected = elim (Bool-cases (ltb 0 q)) [
  | inl e ↦ rw e (load-put us _ rejected)
  | inr e ↦ rw e (load-put us m _)
]

-- The changes that the driver sends for texts that parse are what the texts decode to.
change_of-decode :
    (fl : F64) (qs : List Quote)
    → (decode fl qs).1 ≡ ok tt
    → map asked (map (change_of fl) qs) ≡ (decode fl qs).0
unfolding decode
change_of-decode fl [] h = refl
change_of-decode fl ((ps, qs) ∷ rest) h = elim (Result-cases (price_str_to_ticks fl ps)) [
  | inr (e, bad) ↦ let h2 = rw (bad, decode) at h in cc
  | inl (k, price) ↦ elim (Result-cases (quantity_str_to_ticks fl qs)) [
    | inr (e, bad) ↦ let h2 = rw (price, bad, decode) at h in cc
    | inl (q, qty) ↦
        rw (price, qty, decode)
          (ap (◌∷◌ (k, q)) (change_of-decode fl rest (rw (price, qty, decode) at h)))
  ]
]

-- Both sides of the two books are the same maps.
abbrev pub Mirrors : ShadowBook → OrderBook → Type 0
Mirrors s b = (s.bids ≡ b.bids) × (s.asks ≡ b.asks)

-- What a successful update leaves.
abbrev Live :
    ℕ → OrderBook → Outcome (List (ℕ × ℕ)) → Outcome (List (ℕ × ℕ)) → Outcome OrderBook → Type 0
Live id b us vs r =
    r.1 ≡ ok tt
    → (r.0.bids ≡ put_all write us.0 b.bids)
      × (r.0.asks ≡ put_all write vs.0 b.asks)
      × (us.1 ≡ ok tt)
      × (vs.1 ≡ ok tt)
      × (r.0.last_update_id ≡ id)

finished :
    (us vs : Outcome (List (ℕ × ℕ))) (id : ℕ) (b : OrderBook)
    → Live id b us vs (finish (update_done id) (sides_written write us vs b))
finished (us, err e) vs id b h = cc
finished (us, ok u) (vs, ok w) id b h = (refl, refl, refl, refl, refl)
finished (us, ok u) (vs, err e) id b h = cc

apply_depth_update-Live :
    (fl : F64) (bids asks : List Quote) (id : ℕ) (b : OrderBook)
    → Live id b (decode fl bids) (decode fl asks) (apply_depth_update fl bids asks id b)
unfolding apply_depth_update
apply_depth_update-Live fl bids asks id b = elim (Bool-cases b.initialized) [
  | inl i ↦
      rw (apply_depth_update-decode fl bids asks id b i)
        (finished (decode fl bids) (decode fl asks) id b)
  | inr i ↦ λ h. let h2 = rw i at h in cc
]

-- Loading the levels of a side from its last to its first gives the side back.
last_stored-reverse :
    (p : ℕ) (m acc : TreeMap ℕ)
    → All Fits m
    → last_stored p (reverse_aux m acc) none ≡ last_stored p acc (get p m)
unfolding last_stored get
last_stored-reverse p [] acc h = refl
last_stored-reverse p ((k, q) ∷ m) acc h =
    last_stored-reverse p m ((k, q) ∷ acc) h.1 ∙ ap (last_stored p acc) (ground (arith, h.0))

last_stored_below :
    (p b : ℕ) (m : TreeMap ℕ) (old : Option ℕ) → p < b → Ascends b m → last_stored p m old ≡ old
unfolding last_stored
last_stored_below p b [] old h a = refl
last_stored_below p b ((k, q) ∷ m) old h a = ground (arith, last_stored_below p (suc k) m old)

-- So does loading them from its first to its last.
last_stored_side :
    (p b : ℕ) (m : TreeMap ℕ) → Ascends b m → All Fits m → last_stored p m none ≡ get p m
unfolding last_stored get
last_stored_side p b [] a h = refl
last_stored_side p b ((k, q) ∷ m) a h =
    ground
      (arith, h.0, last_stored_below p (suc k) m (some q), last_stored_side p (suc k) m a.1 h.1)

update_levels-follows :
    (fl : F64) (side : BookSide) (qs : List Quote) (m n : TreeMap ℕ)
    → m ≡ n
    → (decode fl qs).1 ≡ ok tt
    → (update_levels side (map (change_of fl) qs) m).0 ≡ put_all write (decode fl qs).0 n
update_levels-follows fl side qs m n e h =
    update_levels-put side (map (change_of fl) qs) m
    ∙ ap₂ (put_all write) (change_of-decode fl qs h) e

module _ (fl : F64) (update : DepthUpdate) (b : OrderBook) (s : ShadowBook) where
  -- When the two books have the same sides and the live book takes a depth event without an error,
  -- the shadow book, given the changes of the message that the driver then sends, has the same sides
  -- again, and the same update id.
  pub apply_update_follows :
      Mirrors s b
      → (apply_depth_update fl update.bids update.asks update.final_update_id b).1 ≡ ok tt
      → let (c, _) = apply_depth_update fl update.bids update.asks update.final_update_id b in
        let (t, _) =
          apply_update
            (map (change_of fl) update.bids)
            (map (change_of fl) update.asks)
            update.final_update_id
            s in
        Mirrors t c × (t.last_update_id ≡ some c.last_update_id)
  unfolding apply_update
  apply_update_follows (eb, ea) h =
      let (bids, asks, db, da, id) =
        apply_depth_update-Live fl update.bids update.asks update.final_update_id b h in
      (
        (
          update_levels-follows fl bid update.bids s.bids b.bids eb db ∙ sym bids,
          update_levels-follows fl ask update.asks s.asks b.asks ea da ∙ sym asks,
        ),
        ap some (sym id),
      )

load-follows :
    (us : List (ℕ × ℕ)) (m : TreeMap ℕ) (rejected : ℕ)
    → IsSide m
    → ((p : ℕ) → last_stored p us none ≡ get p m)
    → (load us [] rejected).0 ≡ m
unfolding get
load-follows us m rejected side reads =
    load-put us [] rejected
    ∙ TreeMap-ext (put_all store us []) m 0 (store_all-IsOrdered us [] tt) side.ordered
        (λ p. get-store_all p us [] ∙ reads p)

pairs-level : (fl : F64) (m : TreeMap ℕ) → pairs fl "" (map level m) ≡ m
pairs-level fl [] = refl
pairs-level fl (e ∷ m) = ap (◌∷◌ e) (pairs-level fl m)

-- When the shadow book is given the levels of a valid live book, in the order of the message that a
-- snapshot task sends, it has the same sides and the same update id, and is ready.
pub apply_snapshot_follows :
    (fl : F64) (b : OrderBook) (s : ShadowBook)
    → IsValid b
    → let full = snapshot fl b in
      let t =
        apply_snapshot (pairs fl "" full.bids) (pairs fl "" full.asks) full.last_update_id s in
      Mirrors t b × (t.ready ≡ true) × (t.last_update_id ≡ some b.last_update_id)
unfolding snapshot apply_snapshot get last_stored
apply_snapshot_follows fl b s v = (
  (
    load-follows _ b.bids s.invalid_levels_rejected v.bids (λ p.
        ap (λ us. last_stored p us none) (pairs-level fl (reverse b.bids))
        ∙ last_stored-reverse p b.bids [] v.bids.fits),
    load-follows _ b.asks _ v.asks (λ p.
        ap (λ us. last_stored p us none) (pairs-level fl b.asks)
        ∙ last_stored_side p 0 b.asks v.asks.ordered v.asks.fits),
  ),
  refl,
  refl,
)
