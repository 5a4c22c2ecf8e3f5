-- ===== src/Verify/Counts.antt =====
-- When each count of the audit is 0 (src/verify/mod.rs).
use futures_orderbook.Prelude.{
  ℕ, suc, max, ◌+◌, ◌≤◌, ◌<◌, ◌≡◌, ◌↔◌, refl, ◌∙◌, ap, List, [], ◌∷◌, length, Bool, true, false,
  ◌||◌, ◌==◌, ltb, Option, none, some, if◌then◌else◌, All, arith, Bool-cases, inl, inr,
}
use futures_orderbook.TreeMap.{TreeMap, get, insert, Ascends}
use futures_orderbook.TreeMap.Laws.{get-insert, insert-Ascends, get_below}
use futures_orderbook.Analytics.Shadow.{unwrap_or_zero}
use futures_orderbook.Recording.Rows.{TradeRow, LevelChangeRow}
use futures_orderbook.Verify.{
  count_if, repeated, anomaly, is_marker, marker_ids, seen_trade_ids, same_identity, is_known,
  duplicates, in_event, sequence_anomalies,
}

pub count_if-none :
    {A : Type 0} (p : A → Bool) (xs : List A) → (count_if p xs ≡ 0) ↔ All (λ x. p x ≡ false) xs
count_if-none p [] = ((λ e. tt), (λ h. refl))
count_if-none p (x ∷ xs) =
    let ih = count_if-none p xs in
    elim (Bool-cases (p x)) [
      | inl h ↦ ground (arith, h)
      | inr h ↦ rw h ((λ e. (refl, ih.0 e)), (λ a. ih.1 a.1))
    ]

counts_above : (m : TreeMap ℕ) → length (repeated m) ≡ 0 → (k : ℕ) → unwrap_or_zero (get k m) ≤ 1
unfolding get
counts_above [] e k = omega arith
counts_above ((j, c) ∷ m) e k = elim (Bool-cases (ltb 1 c)) [
  | inl h ↦ ground (arith, h)
  | inr h ↦
      let ih : length (repeated m) ≡ 0 → unwrap_or_zero (get k m) ≤ 1 = λ z. counts_above m z k in
      ground (arith, h, ih)
]

counts_below :
    (m : TreeMap ℕ) (b : ℕ)
    → Ascends b m
    → ((k : ℕ) → unwrap_or_zero (get k m) ≤ 1)
    → length (repeated m) ≡ 0
unfolding get
counts_below [] b s h = refl
counts_below ((j, c) ∷ m) b s h =
    let ih = counts_below m (suc j) s.1 (λ k. rest k) in ground (arith, ih, h j)
  where
    rest : (k : ℕ) → unwrap_or_zero (get k m) ≤ 1
    rest k = ground (arith, h k, get_below k m (suc j))

abbrev pub Above : Option ℕ → ℕ → Type 0
Above none final = Unit
Above (some prev) final = prev < final

-- Each id is above the one before it.
abbrev pub Rises : Option ℕ → List ℕ → Type 0
Rises prev [] = Unit
Rises prev (final ∷ finals) = Above prev final × Rises (some final) finals

anomaly-none : (final : ℕ) (prev : Option ℕ) → (anomaly final prev ≡ 0) ↔ Above prev final
anomaly-none final none = ((λ e. tt), (λ h. refl))
anomaly-none final (some prev) = ((λ e. ground arith), (λ h. ground arith))

sum-none : (a b : ℕ) → (a + b ≡ 0) ↔ ((a ≡ 0) × (b ≡ 0))
sum-none a b = ((λ e. (omega (arith, e), omega (arith, e))), (λ h. omega (arith, h.0, h.1)))

module _ {Uuid DateTime : Type 0} where
  pub marker_ids-none :
      (ts : List (TradeRow Uuid DateTime))
      → (length (marker_ids ts) ≡ 0) ↔ All (λ t. is_marker t ≡ false) ts
  marker_ids-none [] = ((λ e. tt), (λ h. refl))
  marker_ids-none (t ∷ ts) =
      let ih = marker_ids-none ts in
      elim (Bool-cases (is_marker t)) [
        | inl h ↦ rw h ((λ e. ground arith), (λ a. ground arith))
        | inr h ↦ rw h ((λ e. (refl, ih.0 e)), (λ a. ih.1 a.1))
      ]

  -- How often an id occurs.
  abbrev pub occurrences : ℕ → List (TradeRow Uuid DateTime) → ℕ
  occurrences id [] = 0
  occurrences id (t ∷ ts) =
      let rest = occurrences id ts in if t.trade_id == id then suc rest else rest

  get-seen_trade_ids :
      (k : ℕ) (ts : List (TradeRow Uuid DateTime)) (m : TreeMap ℕ)
      → unwrap_or_zero (get k (seen_trade_ids ts m)) ≡ unwrap_or_zero (get k m) + occurrences k ts
  unfolding seen_trade_ids
  get-seen_trade_ids k [] m = omega arith
  get-seen_trade_ids k (t ∷ ts) m =
      let count = unwrap_or_zero (get t.trade_id m) + 1 in
      let ih = get-seen_trade_ids k ts (insert t.trade_id count m) in
      let read = get-insert t.trade_id k count m in
      ih
      ∙ ap (λ o. unwrap_or_zero o + occurrences k ts) read
      ∙ elim (Bool-cases (t.trade_id == k)) [
        | inl e ↦
            let id : t.trade_id ≡ k = ground (arith, e) in
            let counted = ap (λ j. unwrap_or_zero (get j m)) id in rw e (omega (arith, counted))
        | inr e ↦ rw e refl
      ]

  seen_trade_ids-Ascends :
      (ts : List (TradeRow Uuid DateTime)) (m : TreeMap ℕ)
      → Ascends 0 m
      → Ascends 0 (seen_trade_ids ts m)
  unfolding seen_trade_ids
  seen_trade_ids-Ascends [] m s = s
  seen_trade_ids-Ascends (t ∷ ts) m s =
      seen_trade_ids-Ascends ts _ (insert-Ascends t.trade_id _ m 0 (omega arith) s)

  -- No id is repeated when each occurs once at most.
  pub repeated-none :
      (ts : List (TradeRow Uuid DateTime))
      → (length (repeated (seen_trade_ids ts [])) ≡ 0) ↔ ((id : ℕ) → occurrences id ts ≤ 1)
  unfolding get
  repeated-none ts =
      let m = seen_trade_ids ts [] in
      (
        (λ e id. omega (arith, get-seen_trade_ids id ts [], counts_above m e id)),
        (λ h.
            counts_below m 0 (seen_trade_ids-Ascends ts [] tt)
              (λ k. omega (arith, get-seen_trade_ids k ts [], h k))),
      )

  -- No two rows have one identity.
  abbrev pub Distinct : List (LevelChangeRow Uuid DateTime) → Type 0
  Distinct [] = Unit
  Distinct (r ∷ rs) = All (λ q. same_identity r q ≡ false) rs × Distinct rs

  abbrev New : List (LevelChangeRow Uuid DateTime) → List (LevelChangeRow Uuid DateTime) → Type 0
  New seen rs = All (λ r. is_known r seen ≡ false) rs

  New-split :
      (q : LevelChangeRow Uuid DateTime) (seen rs : List (LevelChangeRow Uuid DateTime))
      → New (q ∷ seen) rs ↔ (All (λ r. same_identity q r ≡ false) rs × New seen rs)
  New-split q seen [] = ((λ h. (tt, tt)), (λ h. tt))
  New-split q seen (r ∷ rs) =
      let ih = New-split q seen rs in
      let both = or_false (same_identity q r) (is_known r seen) in
      (
        (λ h. let (a, b) = both.0 h.0 in let (c, d) = ih.0 h.1 in ((a, c), (b, d))),
        (λ h. (both.1 (h.0.0, h.1.0), ih.1 (h.0.1, h.1.1))),
      )
    where
      or_false : (a b : Bool) → ((a || b) ≡ false) ↔ ((a ≡ false) × (b ≡ false))
      or_false true b = ((λ e. ground arith), (λ h. ground arith))
      or_false false b = ((λ e. (refl, e)), (λ h. h.1))

  duplicates_from :
      (seen rs : List (LevelChangeRow Uuid DateTime))
      → (duplicates seen rs ≡ 0) ↔ (New seen rs × Distinct rs)
  duplicates_from seen [] = ((λ e. (tt, tt)), (λ h. refl))
  duplicates_from seen (r ∷ rs) =
      let ih = duplicates_from (r ∷ seen) rs in
      let split = New-split r seen rs in
      elim (Bool-cases (is_known r seen)) [
        | inl h ↦ rw h ((λ e. ground arith), (λ a. ground arith))
        | inr h ↦ rw h (
          (λ e. let (n, d) = ih.0 e in let (a, b) = split.0 n in ((refl, b), (a, d))),
          (λ a. ih.1 (split.1 (a.1.0, a.0.1), a.1.1)),
        )
      ]

  New-empty : (rs : List (LevelChangeRow Uuid DateTime)) → New [] rs
  New-empty [] = tt
  New-empty (r ∷ rs) = (refl, New-empty rs)

  pub duplicates-none :
      (rs : List (LevelChangeRow Uuid DateTime)) → (duplicates [] rs ≡ 0) ↔ Distinct rs
  duplicates-none rs =
      let all = duplicates_from [] rs in ((λ e. (all.0 e).1), (λ h. all.1 (New-empty rs, h)))

  -- The largest id of each event, the rows of one `seq` in a run being an event.
  abbrev pub finals_from : (seq final : ℕ) → List (LevelChangeRow Uuid DateTime) → List ℕ
  finals_from seq final [] = final ∷ []
  finals_from seq final (r ∷ rs) =
      let same = finals_from seq (max final r.final_update_id) rs in
      let next = finals_from r.seq r.final_update_id rs in
      if r.seq == seq then same else final ∷ next

  abbrev pub event_finals : List (LevelChangeRow Uuid DateTime) → List ℕ
  event_finals [] = []
  event_finals (r ∷ rs) = finals_from r.seq r.final_update_id rs

  in_event-none :
      (seq final : ℕ) (prev : Option ℕ) (rs : List (LevelChangeRow Uuid DateTime))
      → (in_event seq final prev rs ≡ 0) ↔ Rises prev (finals_from seq final rs)
  unfolding in_event
  in_event-none seq final prev [] =
      let one = anomaly-none final prev in ((λ e. (one.0 e, tt)), (λ h. one.1 h.0))
  in_event-none seq final prev (r ∷ rs) = elim (Bool-cases (r.seq == seq)) [
    | inl h ↦ rw h (in_event-none seq (max final r.final_update_id) prev rs)
    | inr h ↦
        let one = anomaly-none final prev in
        let later = in_event-none r.seq r.final_update_id (some final) rs in
        let both =
          sum-none (anomaly final prev) (in_event r.seq r.final_update_id (some final) rs) in
        rw h (
          (λ e. (one.0 (both.0 e).0, later.0 (both.0 e).1)),
          (λ a. both.1 (one.1 a.0, later.1 a.1)),
        )
  ]

  pub sequence_anomalies-none :
      (rs : List (LevelChangeRow Uuid DateTime))
      → (sequence_anomalies rs ≡ 0) ↔ Rises none (event_finals rs)
  unfolding sequence_anomalies
  sequence_anomalies-none [] = ((λ e. tt), (λ h. refl))
  sequence_anomalies-none (r ∷ rs) = in_event-none r.seq r.final_update_id none rs
