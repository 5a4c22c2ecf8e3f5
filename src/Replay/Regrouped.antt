-- ===== src/Replay/Regrouped.antt =====
-- The depth events that were recorded level by level are rebuilt from their rows.
use futures_orderbook.Prelude.{
  ℕ, ◌*◌, ◌≤◌, ◌<◌, ◌≡◌, refl, sym, ◌∙◌, ap, subst, String, List, [], ◌∷◌, ◌++◌, map, false, ◌==◌,
  ==_refl, if_true, if_false, All, All-append, All-imp, Result, ok, err, arith,
}
use mathlib.Core.List.{append_assoc, append-nil}
use futures_orderbook.Level.Floats.{F64}
use futures_orderbook.Level.{price_str_to_ticks, quantity_str_to_ticks}
use futures_orderbook.Error.{AnyError}
use futures_orderbook.Binance.{DepthUpdate}
use futures_orderbook.Book.Defs.{Quote}
use futures_orderbook.Recording.Host.{Host, IsClock, max_secs}
use futures_orderbook.Recording.Rows.{LevelChangeRow}
use futures_orderbook.Recording.Recorder.{Shared, both_read, level_row, level_rows, read_pairs}
use futures_orderbook.Replay.Reader.{
  quote_of, update_of, bids_with, asks_with, regroup, reconstruct_depth_updates,
}
use futures_orderbook.Replay.Restored.{datetime_to_ms-ms_to_datetime}

module _ (host : Host) (fl : F64) where
  open host use {Uuid, DateTime}

  -- An event, its arrival, and the recorder when it was recorded.
  pub record Entry : Type 0 where
    pub event : DepthUpdate
    pub local_ns : ℕ
    pub before : Shared Uuid DateTime

  abbrev pub rows_of : Entry → List (LevelChangeRow Uuid DateTime)
  rows_of e =
      level_rows host fl e.event e.local_ns e.before "BID" e.event.bids
      ++ level_rows host fl e.event e.local_ns e.before "ASK" e.event.asks

  -- The levels that were read, printed again.
  abbrev pub printed : List Quote → List Quote
  printed quotes = map (quote_of host fl) (read_pairs host fl quotes)

  abbrev pub with_levels : DepthUpdate → (bids asks : List Quote) → DepthUpdate
  with_levels event bids asks = record event {
    event_type = "depthUpdate";
    bids = bids;
    asks = asks;
  }

  abbrev pub rebuilt : Entry → ℕ × DepthUpdate
  rebuilt e = (e.before.seq, with_levels e.event (printed e.event.bids) (printed e.event.asks))

  abbrev pub all_rows : List Entry → List (LevelChangeRow Uuid DateTime)
  all_rows [] = []
  all_rows (e ∷ es) = rows_of e ++ all_rows es

  -- An entry without a level that was read has no rows.
  abbrev pub cons_rebuilt :
      Entry → List (LevelChangeRow Uuid DateTime) → List (ℕ × DepthUpdate) → List (ℕ × DepthUpdate)
  cons_rebuilt e [] rest = rest
  cons_rebuilt e (r ∷ rows) rest = rebuilt e ∷ rest

  abbrev pub all_rebuilt : List Entry → List (ℕ × DepthUpdate)
  all_rebuilt [] = []
  all_rebuilt (e ∷ es) = cons_rebuilt e (rows_of e) (all_rebuilt es)

  -- The sequence numbers climb from above `n`, and the times are in the range of dates.
  abbrev pub Climbs : ℕ → List Entry → Type 0
  Climbs n [] = Unit
  Climbs n (e ∷ es) = (n < e.before.seq) × Climbs e.before.seq es

  abbrev pub IsDated : Entry → Type 0
  IsDated e = (e.event.event_time ≤ max_secs * 1000) × (e.event.transaction_time ≤ max_secs * 1000)

  -- A row of an entry.
  record IsRowOf (e : Entry) (r : LevelChangeRow Uuid DateTime) : Type 0 where
    pub seq : r.seq ≡ e.before.seq
    pub update :
        (bids asks : List Quote) → update_of host fl r bids asks ≡ with_levels e.event bids asks

  level_row-IsRowOf :
      (e : Entry) (side : String) (p q : ℕ)
      → IsClock host
      → IsDated e
      → IsRowOf e (level_row host fl e.event e.local_ns e.before side p q)
  level_row-IsRowOf e side p q clock dated = record {
    seq = refl;
    update = λ bids asks.
        rw
          (
            datetime_to_ms-ms_to_datetime host clock e.event.event_time dated.0,
            datetime_to_ms-ms_to_datetime host clock e.event.transaction_time dated.1,
          )
          refl;
  }

  level_rows-All :
      (P : LevelChangeRow Uuid DateTime → Type 0) (e : Entry) (side : String) (quotes : List Quote)
      → ((p q : ℕ) → P (level_row host fl e.event e.local_ns e.before side p q))
      → All P (level_rows host fl e.event e.local_ns e.before side quotes)
  unfolding level_rows
  level_rows-All P e side [] h = tt
  level_rows-All P e side ((price, qty) ∷ quotes) h =
      read (level_rows-All P e side quotes h) (price_str_to_ticks fl price)
        (quantity_str_to_ticks fl qty)
    where
      read :
          All P (level_rows host fl e.event e.local_ns e.before side quotes)
          → (p q : Result ℕ AnyError)
          → All P (
              both_read host p q
                (level_row host fl e.event e.local_ns e.before side)
                (level_rows host fl e.event e.local_ns e.before side quotes))
      read rest (ok p) (ok q) = (h p q, rest)
      read rest (ok p) (err x) = rest
      read rest (err x) q = rest

  -- A row of the group at hand is added to it.
  regroup-same :
      (first r : LevelChangeRow Uuid DateTime) (bids asks : List Quote)
      (rows : List (LevelChangeRow Uuid DateTime))
      → r.seq ≡ first.seq
      → regroup host fl first bids asks (r ∷ rows)
        ≡ regroup host fl first (bids_with host fl r bids) (asks_with host fl r asks) rows
  unfolding regroup
  regroup-same first r bids asks rows e =
      if_true _ _ (ap (λ n. n == first.seq) e ∙ ==_refl first.seq)

  -- The rows of one side of an entry, at the front.
  regroup-bids :
      (first : LevelChangeRow Uuid DateTime) (e : Entry) (quotes bids asks : List Quote)
      (rows : List (LevelChangeRow Uuid DateTime))
      → e.before.seq ≡ first.seq
      → regroup host fl first bids asks
          (level_rows host fl e.event e.local_ns e.before "BID" quotes ++ rows)
        ≡ regroup host fl first (bids ++ printed quotes) asks rows
  unfolding level_rows
  regroup-bids first e [] bids asks rows h =
      ap (λ l. regroup host fl first l asks rows) (sym (append-nil bids))
  regroup-bids first e ((price, qty) ∷ quotes) bids asks rows h =
      read (λ l. regroup-bids first e quotes l asks rows h) (price_str_to_ticks fl price)
        (quantity_str_to_ticks fl qty)
    where
      read :
          ((l : List Quote)
            → regroup host fl first l asks
                (level_rows host fl e.event e.local_ns e.before "BID" quotes ++ rows)
              ≡ regroup host fl first (l ++ printed quotes) asks rows)
          → (p q : Result ℕ AnyError)
          → regroup host fl first bids asks (
              both_read host p q
                (level_row host fl e.event e.local_ns e.before "BID")
                (level_rows host fl e.event e.local_ns e.before "BID" quotes)
              ++ rows)
            ≡ regroup host fl first
                (bids
                  ++ map
                      (quote_of host fl)
                      (both_read host p q (λ price qty. (price, qty)) (read_pairs host fl quotes)))
                asks
                rows
      read again (ok p) (ok q) =
          regroup-same first (level_row host fl e.event e.local_ns e.before "BID" p q) bids asks
            (level_rows host fl e.event e.local_ns e.before "BID" quotes ++ rows) h
          ∙ again (bids ++ quote_of host fl (p, q) ∷ [])
          ∙ ap (λ l. regroup host fl first l asks rows)
              (append_assoc bids (quote_of host fl (p, q) ∷ []) (printed quotes))
      read again (ok p) (err x) = again bids
      read again (err x) q = again bids

  regroup-asks :
      (first : LevelChangeRow Uuid DateTime) (e : Entry) (quotes bids asks : List Quote)
      (rows : List (LevelChangeRow Uuid DateTime))
      → e.before.seq ≡ first.seq
      → regroup host fl first bids asks
          (level_rows host fl e.event e.local_ns e.before "ASK" quotes ++ rows)
        ≡ regroup host fl first bids (asks ++ printed quotes) rows
  unfolding level_rows
  regroup-asks first e [] bids asks rows h =
      ap (λ l. regroup host fl first bids l rows) (sym (append-nil asks))
  regroup-asks first e ((price, qty) ∷ quotes) bids asks rows h =
      read (λ l. regroup-asks first e quotes bids l rows h) (price_str_to_ticks fl price)
        (quantity_str_to_ticks fl qty)
    where
      read :
          ((l : List Quote)
            → regroup host fl first bids l
                (level_rows host fl e.event e.local_ns e.before "ASK" quotes ++ rows)
              ≡ regroup host fl first bids (l ++ printed quotes) rows)
          → (p q : Result ℕ AnyError)
          → regroup host fl first bids asks (
              both_read host p q
                (level_row host fl e.event e.local_ns e.before "ASK")
                (level_rows host fl e.event e.local_ns e.before "ASK" quotes)
              ++ rows)
            ≡ regroup host fl first bids
                (asks
                  ++ map
                      (quote_of host fl)
                      (both_read host p q (λ price qty. (price, qty)) (read_pairs host fl quotes)))
                rows
      read again (ok p) (ok q) =
          regroup-same first (level_row host fl e.event e.local_ns e.before "ASK" p q) bids asks
            (level_rows host fl e.event e.local_ns e.before "ASK" quotes ++ rows) h
          ∙ again (asks ++ quote_of host fl (p, q) ∷ [])
          ∙ ap (λ l. regroup host fl first bids l rows)
              (append_assoc asks (quote_of host fl (p, q) ∷ []) (printed quotes))
      read again (ok p) (err x) = again asks
      read again (err x) q = again asks

  -- A group ends before a row with another number.
  abbrev Ends : ℕ → List (LevelChangeRow Uuid DateTime) → Type 0
  Ends n [] = Unit
  Ends n (r ∷ rows) = (r.seq == n) ≡ false

  regroup-end :
      (first : LevelChangeRow Uuid DateTime) (bids asks : List Quote)
      (rows : List (LevelChangeRow Uuid DateTime))
      → Ends first.seq rows
      → regroup host fl first bids asks rows
        ≡ (first.seq, update_of host fl first bids asks) ∷ reconstruct_depth_updates host fl rows
  unfolding regroup reconstruct_depth_updates
  regroup-end first bids asks [] h = refl
  regroup-end first bids asks (r ∷ rows) h = if_false _ _ h

  -- All rows of an entry, the first of which opens the group.
  reconstruct-rows :
      (e : Entry) (own rest : List (LevelChangeRow Uuid DateTime))
      → rows_of e ≡ own
      → All (IsRowOf e) own
      → Ends e.before.seq rest
      → reconstruct_depth_updates host fl (own ++ rest)
        ≡ cons_rebuilt e own (reconstruct_depth_updates host fl rest)
  unfolding reconstruct_depth_updates
  reconstruct-rows e [] rest same all ends = refl
  reconstruct-rows e (r ∷ own) rest same all ends =
      let is = all.0 in
      let n = e.before.seq in
      sym (regroup-same r r [] [] (own ++ rest) refl)
      ∙ ap (λ l. regroup host fl r [] [] (l ++ rest)) (sym same)
      ∙ ap (regroup host fl r [] []) (
          append_assoc (level_rows host fl e.event e.local_ns e.before "BID" e.event.bids)
            (level_rows host fl e.event e.local_ns e.before "ASK" e.event.asks) rest)
      ∙ regroup-bids r e e.event.bids [] []
          (level_rows host fl e.event e.local_ns e.before "ASK" e.event.asks ++ rest) (sym is.seq)
      ∙ regroup-asks r e e.event.asks (printed e.event.bids) [] rest (sym is.seq)
      ∙ regroup-end r (printed e.event.bids) (printed e.event.asks) rest
          (subst (λ k. Ends k rest) (sym is.seq) ends)
      ∙ ap
          (λ k.
            (k, update_of host fl r (printed e.event.bids) (printed e.event.asks))
            ∷ reconstruct_depth_updates host fl rest)
          is.seq
      ∙ ap (λ u. (n, u) ∷ reconstruct_depth_updates host fl rest)
          (is.update (printed e.event.bids) (printed e.event.asks))

  later : (n : ℕ) (es : List Entry) → Climbs n es → All (λ r. n < r.seq) (all_rows es)
  later n [] h = tt
  later n (e ∷ es) h =
      let above = λ (r : LevelChangeRow Uuid DateTime). n < r.seq in
      All-append above (rows_of e) (all_rows es)
        (All-append above (level_rows host fl e.event e.local_ns e.before "BID" e.event.bids)
          (level_rows host fl e.event e.local_ns e.before "ASK" e.event.asks)
          (level_rows-All above e "BID" e.event.bids (λ p q. h.0))
          (level_rows-All above e "ASK" e.event.asks (λ p q. h.0)))
        (All-imp (λ r. e.before.seq < r.seq) above (λ r g. omega (arith, g, h.0)) (all_rows es)
          (later e.before.seq es h.1))

  later-Ends :
      (n : ℕ) (rows : List (LevelChangeRow Uuid DateTime)) → All (λ r. n < r.seq) rows → Ends n rows
  later-Ends n [] h = tt
  later-Ends n (r ∷ rows) h = let g = h.0 in ground (arith, g)

  rows_of-All : (e : Entry) → IsClock host → IsDated e → All (IsRowOf e) (rows_of e)
  rows_of-All e clock dated =
      All-append (IsRowOf e) (level_rows host fl e.event e.local_ns e.before "BID" e.event.bids)
        (level_rows host fl e.event e.local_ns e.before "ASK" e.event.asks)
        (level_rows-All (IsRowOf e) e "BID" e.event.bids
          (λ p q. level_row-IsRowOf e "BID" p q clock dated))
        (level_rows-All (IsRowOf e) e "ASK" e.event.asks
          (λ p q. level_row-IsRowOf e "ASK" p q clock dated))

  -- For any clock as documented, and any depth events recorded with climbing sequence numbers and
  -- times in the range of dates: from their rows, one after the other, the replay rebuilds, in
  -- order and with their numbers, the events that have a level that could be read, each with its
  -- times, symbol and ids, and with the levels that could be read, printed again.
  pub reconstruct_depth_updates-all_rows :
      (n : ℕ) (entries : List Entry)
      → IsClock host
      → Climbs n entries
      → All IsDated entries
      → reconstruct_depth_updates host fl (all_rows entries) ≡ all_rebuilt entries
  unfolding reconstruct_depth_updates
  reconstruct_depth_updates-all_rows n [] clock climbs dated = refl
  reconstruct_depth_updates-all_rows n (e ∷ es) clock climbs dated =
      reconstruct-rows e (rows_of e) (all_rows es) refl (rows_of-All e clock dated.0)
        (later-Ends e.before.seq (all_rows es) (later e.before.seq es climbs.1))
      ∙ ap (cons_rebuilt e (rows_of e))
          (reconstruct_depth_updates-all_rows e.before.seq es clock climbs.1 dated.1)
