-- ===== src/Sync/Buffer.antt =====
-- The parts of `reconcile`: the discarded prefix, the bridging event and the chain after it.
use futures_orderbook.Prelude.{
  ℕ, suc, ◌+◌, ◌≡◌, refl, ap, ◌≢◌, inl, inr, List, [], ◌∷◌, ◌++◌, true, false, Bool-cases, none,
  some, All, length, drop, arith, ltb,
}
use futures_orderbook.Prelude.Word.{add64}
use futures_orderbook.Binance.{DepthUpdate}
use futures_orderbook.Sync.Defs.{
  discard_stale, bridges, bridge_index, breaks, take_chain, get_elem?,
}

abbrev pub IsUnbridged : ℕ → List DepthUpdate → Type 0
IsUnbridged id = All (λ e. bridges id e ≡ false)

-- From `u` on, the `pu` of each event is the `u` of the event before it.
abbrev pub Linked : ℕ → List DepthUpdate → Type 0
Linked u [] = Unit
Linked u (e ∷ es) = (e.previous_final_update_id ≡ u) × Linked e.final_update_id es

-- The `u` of the last event, or the given one.
abbrev pub last_u : ℕ → List DepthUpdate → ℕ
last_u u [] = u
last_u u (e ∷ es) = last_u e.final_update_id es

-- There is no next event, or it does not link up.
abbrev pub Stops : ℕ → List DepthUpdate → Type 0
Stops u [] = Unit
Stops u (e ∷ es) = e.previous_final_update_id ≢ u

stale-unbridged :
    (id : ℕ) (e : DepthUpdate) → ltb e.final_update_id id ≡ true → bridges id e ≡ false
unfolding bridges
stale-unbridged id e h = ground arith

-- What is discarded contains no bridging event.
pub discard_stale_lem :
    (id : ℕ) (buffer : List DepthUpdate) (n : ℕ)
    → (pre : List DepthUpdate) × (buffer ≡ pre ++ (discard_stale id buffer n).0)
      × IsUnbridged id pre
unfolding discard_stale
discard_stale_lem id [] n = ([], refl, tt)
discard_stale_lem id (e ∷ rest) n = elim (Bool-cases (ltb e.final_update_id id)) [
  | inl old ↦
      let (pre, whole, none_hit) = discard_stale_lem id rest (add64 n 1) in
      (e ∷ pre, rw old (ap (◌∷◌ e) whole), (stale-unbridged id e old, none_hit))
  | inr new ↦ ([], rw new, tt)
]

-- The index is that of the first bridging event.
pub bridge_index-some :
    (id i : ℕ) (buffer : List DepthUpdate) (k : ℕ)
    → bridge_index id i buffer ≡ some k
    → (pre : List DepthUpdate) × (bridge : DepthUpdate) × (rest : List DepthUpdate) × (buffer
        ≡ pre ++ bridge ∷ rest)
      × (k ≡ i + length pre)
      × IsUnbridged id pre
      × (bridges id bridge ≡ true)
unfolding bridge_index
bridge_index-some id i [] k h = cc
bridge_index-some id i (e ∷ rest) k h = elim (Bool-cases (bridges id e)) [
  | inl hit ↦ let same : some i ≡ some k = rw hit at h in ([], e, rest, refl, ground arith, tt, hit)
  | inr miss ↦
      let (pre, bridge, after, whole, index, none_hit, hit) =
        bridge_index-some id (i + 1) rest k (rw miss at h) in
      (e ∷ pre, bridge, after, ap (◌∷◌ e) whole, omega arith, (miss, none_hit), hit)
]

pub bridge_index-none :
    (id i : ℕ) (buffer : List DepthUpdate) → bridge_index id i buffer ≡ none → IsUnbridged id buffer
unfolding bridge_index
bridge_index-none id i [] h = tt
bridge_index-none id i (e ∷ rest) h = elim (Bool-cases (bridges id e)) [
  | inl hit ↦ let never : some i ≡ none = rw hit at h in cc
  | inr miss ↦ (miss, bridge_index-none id (i + 1) rest (rw miss at h))
]

pub get_elem?-append :
    (pre : List DepthUpdate) (e : DepthUpdate) (rest : List DepthUpdate)
    → get_elem? (pre ++ e ∷ rest) (length pre) ≡ some e
get_elem?-append [] e rest = refl
get_elem?-append (x ∷ pre) e rest = get_elem?-append pre e rest

pub drop-append :
    (pre : List DepthUpdate) (e : DepthUpdate) (rest : List DepthUpdate)
    → drop (suc (length pre)) (pre ++ e ∷ rest) ≡ rest
drop-append [] e rest = refl
drop-append (x ∷ pre) e rest = drop-append pre e rest

breaks-true : (u : ℕ) (e : DepthUpdate) → breaks (some u) e ≡ true → e.previous_final_update_id ≢ u
unfolding breaks
breaks-true u e h = ground arith

breaks-false :
    (u : ℕ) (e : DepthUpdate) → breaks (some u) e ≡ false → e.previous_final_update_id ≡ u
unfolding breaks
breaks-false u e h = ground arith

-- With a `pu` to check, the loop takes the longest linked prefix.
pub take_chain-some :
    (u : ℕ) (rest : List DepthUpdate)
    → let (events, end) = take_chain (some u) rest (some u) in
      Linked u events
      × ((left : List DepthUpdate) × (rest ≡ events ++ left) × Stops (last_u u events) left)
      × (end ≡ some (last_u u events))
unfolding take_chain
take_chain-some u [] = (tt, ([], refl, tt), refl)
take_chain-some u (e ∷ rest) = elim (Bool-cases (breaks (some u) e)) [
  | inl broken ↦ rw broken (tt, (e ∷ rest, refl, breaks-true u e broken), refl)
  | inr fits ↦
      let (linked, (left, whole, stops), end) = take_chain-some e.final_update_id rest in
      rw fits ((breaks-false u e fits, linked), (left, ap (◌∷◌ e) whole, stops), end)
]
