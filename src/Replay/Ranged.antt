-- ===== src/Replay/Ranged.antt =====
-- Which events the replay handles (src/replay/engine.rs, src/replay/reader.rs).
use futures_orderbook.Prelude.{
  ℕ, ◌≤◌, ◌≡◌, refl, sym, ◌∙◌, ap, ap₂, subst, fun_ext, List, [], ◌∷◌, Bool, true, false, not, ◌&&◌,
  Option, none, some, All, Result, ok, ◌>>=◌, Bool-cases, inl, inr, arith, if◌then◌else◌, ltb, leb,
}
use futures_orderbook.Level.Floats.{F64}
use futures_orderbook.Error.{AnyError}
use futures_orderbook.Storage.Sorts.{
  sort_by_key, sort_by, insert_by, key_order, Climbs, sort_by_key-Climbs,
}
use futures_orderbook.Storage.Memory.{filter}
use futures_orderbook.Replay.Reader.{ReplayEvent, seq, insert_sorted, new}
use futures_orderbook.Replay.Engine.{
  ReplayConfig, Replay, before_start, after_end, on_event, replay_all, begin, finish, run_replay,
}

insert_sorted_lem :
    (e : ReplayEvent) (es : List ReplayEvent) → insert_sorted e es ≡ insert_by (key_order seq) e es
unfolding insert_sorted insert_by
insert_sorted_lem e [] = refl
insert_sorted_lem e (x ∷ xs) =
    ap (λ rest. if ltb (seq x) (seq e) then x ∷ rest else e ∷ x ∷ xs) (insert_sorted_lem e xs)

new_lem : (es : List ReplayEvent) → new es ≡ sort_by_key seq es
unfolding new sort_by_key sort_by
new_lem [] = refl
new_lem (e ∷ es) = ap (insert_sorted e) (new_lem es) ∙ insert_sorted_lem e (sort_by_key seq es)

new-Climbs : (es : List ReplayEvent) → Climbs seq (new es)
new-Climbs es = subst (Climbs seq) (sym (new_lem es)) (sort_by_key-Climbs seq es)

after_end_mono :
    (end : Option ℕ) (n m : ℕ) → n ≤ m → after_end end n ≡ true → after_end end m ≡ true
after_end_mono none n m h e = e
after_end_mono (some end) n m h e = ground arith

abbrev pub from_first : Option ℕ → ℕ → Bool
from_first none n = true
from_first (some first) n = leb first n

abbrev pub to_last : Option ℕ → ℕ → Bool
to_last none n = true
to_last (some last) n = leb n last

from_first_lem : (o : Option ℕ) (n : ℕ) → from_first o n ≡ not (before_start o n)
from_first_lem none n = refl
from_first_lem (some first) n = ground arith

to_last_lem : (o : Option ℕ) (n : ℕ) → to_last o n ≡ not (after_end o n)
to_last_lem none n = refl
to_last_lem (some last) n = ground arith

module _ (config : ReplayConfig) where
  -- An event whose sequence number is at least the first of the configuration and at most the last,
  -- where they are given.
  abbrev pub in_range : ReplayEvent → Bool
  in_range e = from_first config.seq_start (seq e) && to_last config.seq_end (seq e)

  -- What the loop does not pass over.
  abbrev is_done : ReplayEvent → Bool
  is_done e = not (before_start config.seq_start (seq e)) && not (after_end config.seq_end (seq e))

  in_range_lem : in_range ≡ is_done
  in_range_lem = fun_ext (λ e.
      ap₂ (λ a b. a && b) (from_first_lem config.seq_start (seq e))
        (to_last_lem config.seq_end (seq e)))

  is_done_after : (e : ReplayEvent) → after_end config.seq_end (seq e) ≡ true → is_done e ≡ false
  is_done_after e h = elim (Bool-cases (before_start config.seq_start (seq e))) [
    | inl b ↦ rw b refl
    | inr b ↦ rw (b, h) refl
  ]

  filter_after :
      (n : ℕ) (es : List ReplayEvent)
      → after_end config.seq_end n ≡ true
      → All (λ y. n ≤ seq y) es
      → filter is_done es ≡ []
  filter_after n [] h a = refl
  filter_after n (e ∷ es) h a =
      let later = after_end_mono config.seq_end n (seq e) a.0 h in
      rw (is_done_after e later) (filter_after n es h a.1)

  module _ (fl : F64) where
    -- The events one after the other, up to the first error.
    abbrev pub replay_each : List ReplayEvent → Replay fl.Float → Result (Replay fl.Float) AnyError
    replay_each [] r = ok r
    replay_each (e ∷ es) r = on_event fl config e r >>= λ next. replay_each es next

    replay_all-is_done :
        (es : List ReplayEvent) (r : Replay fl.Float)
        → Climbs seq es
        → replay_all fl config es r ≡ replay_each (filter is_done es) r
    unfolding replay_all
    replay_all-is_done [] r c = refl
    replay_all-is_done (e ∷ es) r c = elim (Bool-cases (before_start config.seq_start (seq e))) [
      | inl b ↦ rw b (replay_all-is_done es r c.1)
      | inr b ↦ elim (Bool-cases (after_end config.seq_end (seq e))) [
        | inl a ↦ rw (b, a, filter_after (seq e) es a c.0) refl
        | inr a ↦
            rw (b, a)
              (ap (λ f. on_event fl config e r >>= f)
                (fun_ext (λ next. replay_all-is_done es next c.1)))
      ]
    ]

    -- The replay of a loaded session does the events whose sequence numbers are in the configured
    -- range, both ends in it, each once and in the order of the sorted events, up to the first error: the `break` at
    -- the first event after the range leaves out no event of it.
    pub run_replay-in_range :
        (events : List ReplayEvent)
        → run_replay fl config (new events) ≡ (
            replay_each (filter in_range (new events)) (begin fl config (new events)) >>= λ r.
            ok (finish fl config r))
    unfolding run_replay
    run_replay-in_range events =
        let all = new events in
        let start = begin fl config all in
        ap (λ result. result >>= λ r. ok (finish fl config r))
          (replay_all-is_done all start (new-Climbs events)
            ∙ ap (λ p. replay_each (filter p all) start) (sym in_range_lem))
