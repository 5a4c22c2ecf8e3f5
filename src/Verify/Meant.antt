-- ===== src/Verify/Meant.antt =====
-- What the tests of the audit mean, without the code of the tests (src/verify/mod.rs).
use text.Mathlib.Text.{◌==◌ as str_eq}
use text.Mathlib.TextEquality.{eq_iff as str_eq_iff}
use futures_orderbook.Prelude.{
  ℕ, ◌≡◌, ◌≢◌, ◌↔◌, refl, String, List, [], ◌∷◌, Bool, true, false, not, ◌&&◌, ◌||◌, ◌==◌, ==_iff,
  Option, none, some, All, arith,
}
use futures_orderbook.Recording.Rows.{SessionRecord, TradeRow, LevelChangeRow}
use futures_orderbook.Verify.{is_marker, is_foreign, same_identity, expected_symbol}
use futures_orderbook.Verify.Counts.{Distinct}

All-iff :
    {A : Type 0} (P Q : A → Type 0) → ((a : A) → P a ↔ Q a) → (xs : List A) → All P xs ↔ All Q xs
All-iff P Q f [] = ((λ h. tt), (λ h. tt))
All-iff P Q f (x ∷ xs) =
    let ih = All-iff P Q f xs in ((λ h. ((f x).0 h.0, ih.0 h.1)), (λ h. ((f x).1 h.0, ih.1 h.1)))

false_iff : (b : Bool) → (b ≡ false) ↔ ¬ (b ≡ true)
false_iff true = ((λ e h. ground (arith, e)), (λ n. absurd (n refl)))
false_iff false = ((λ e h. ground (arith, h)), (λ n. refl))

not_iff : (b : Bool) → (not b ≡ false) ↔ (b ≡ true)
not_iff true = ((λ e. refl), (λ e. refl))
not_iff false = ((λ e. ground (arith, e)), (λ e. ground (arith, e)))

and_iff : (a b : Bool) → ((a && b) ≡ true) ↔ ((a ≡ true) × (b ≡ true))
and_iff true b = ((λ e. (refl, e)), (λ h. h.1))
and_iff false b = ((λ e. ground (arith, e)), (λ h. ground (arith, h.0)))

or_iff : (a b : Bool) → ((a || b) ≡ false) ↔ ((a ≡ false) × (b ≡ false))
or_iff true b = ((λ e. ground (arith, e)), (λ h. ground (arith, h.0)))
or_iff false b = ((λ e. (refl, e)), (λ h. h.1))

eq_false_iff : (a b : ℕ) → ((a == b) ≡ false) ↔ (a ≢ b)
eq_false_iff a b =
    let f = false_iff (a == b) in
    let e = ==_iff a b in ((λ h p. f.0 h (e.1 p)), (λ n. f.1 (λ h. n (e.0 h))))

text_false_iff : (s t : String) → (str_eq s t ≡ false) ↔ (s ≢ t)
text_false_iff s t =
    let f = false_iff (str_eq s t) in
    let e = str_eq_iff s t in ((λ h p. f.0 h (e.1 p)), (λ n. f.1 (λ h. n (e.0 h))))

pub iff_trans : {A B C : Type 0} → A ↔ B → B ↔ C → A ↔ C
iff_trans f g = ((λ a. g.0 (f.0 a)), (λ c. f.1 (g.1 c)))

-- A payload that parses.
pub parsed_iff :
    {A : Type 0} (is_json : String → Bool) (text : A → String) (xs : List A)
    → All (λ x. not (is_json (text x)) ≡ false) xs ↔ All (λ x. is_json (text x) ≡ true) xs
parsed_iff is_json text = All-iff _ _ (λ x. not_iff (is_json (text x)))

module _ {Uuid DateTime : Type 0} where
  abbrev pub IsReal : TradeRow Uuid DateTime → Type 0
  IsReal t = (t.price ≢ 0) × (t.quantity ≢ 0) × (t.order_type ≢ "NA")

  pub IsReal-iff :
      (ts : List (TradeRow Uuid DateTime)) → All (λ t. is_marker t ≡ false) ts ↔ All IsReal ts
  IsReal-iff = All-iff _ _ (λ t. one t)
    where
      one : (t : TradeRow Uuid DateTime) → (is_marker t ≡ false) ↔ IsReal t
      one t =
          let all = or_iff (t.price == 0 || t.quantity == 0) (str_eq t.order_type "NA") in
          let two = or_iff (t.price == 0) (t.quantity == 0) in
          let price = eq_false_iff t.price 0 in
          let quantity = eq_false_iff t.quantity 0 in
          let kind = text_false_iff t.order_type "NA" in
          (
            (λ h.
                let (a, b) = all.0 h in
                let (c, d) = two.0 a in (price.0 c, quantity.0 d, kind.0 b)),
            (λ h. all.1 (two.1 (price.1 h.0, quantity.1 h.1), kind.1 h.2)),
          )

  -- The symbol of the session, if there is one.
  abbrev pub HasSymbol : Option (SessionRecord Uuid DateTime) → String → Type 0
  HasSymbol none symbol = Unit
  HasSymbol (some session) symbol = symbol ≡ session.symbol

  has_symbol :
      (session : Option (SessionRecord Uuid DateTime)) (symbol : String)
      → (is_foreign (expected_symbol session) symbol ≡ false) ↔ HasSymbol session symbol
  has_symbol none symbol = ((λ e. tt), (λ h. refl))
  has_symbol (some session) symbol =
      let e = str_eq_iff symbol session.symbol in
      let n = not_iff (str_eq symbol session.symbol) in ((λ h. e.0 (n.0 h)), (λ h. n.1 (e.1 h)))

  pub symbols_iff :
      {A : Type 0} (session : Option (SessionRecord Uuid DateTime)) (symbol : A → String)
      (xs : List A)
      → All (λ x. is_foreign (expected_symbol session) (symbol x) ≡ false) xs
        ↔ All (λ x. HasSymbol session (symbol x)) xs
  symbols_iff session symbol = All-iff _ _ (λ x. has_symbol session (symbol x))

  abbrev pub IsSameLevel : LevelChangeRow Uuid DateTime → LevelChangeRow Uuid DateTime → Type 0
  IsSameLevel r q =
      (r.final_update_id ≡ q.final_update_id) × (r.side ≡ q.side) × (r.price ≡ q.price)

  differ_iff :
      (r q : LevelChangeRow Uuid DateTime) → (same_identity r q ≡ false) ↔ ¬ IsSameLevel r q
  differ_iff r q =
      let ids = r.final_update_id == q.final_update_id in
      let sides = str_eq r.side q.side in
      let all = and_iff (ids && sides) (r.price == q.price) in
      let two = and_iff ids sides in
      let id = ==_iff r.final_update_id q.final_update_id in
      let side = str_eq_iff r.side q.side in
      let price = ==_iff r.price q.price in
      let f = false_iff (same_identity r q) in
      (
        (λ h p. f.0 h (all.1 (two.1 (id.1 p.0, side.1 p.1), price.1 p.2))),
        (λ n.
            f.1 (λ h.
              let (a, b) = all.0 h in let (c, d) = two.0 a in n (id.0 c, side.0 d, price.0 b))),
      )

  -- No two rows have the same last update id, side and price.
  abbrev pub NoTwoSame : List (LevelChangeRow Uuid DateTime) → Type 0
  NoTwoSame [] = Unit
  NoTwoSame (r ∷ rs) = All (λ q. ¬ IsSameLevel r q) rs × NoTwoSame rs

  pub Distinct-iff : (rs : List (LevelChangeRow Uuid DateTime)) → Distinct rs ↔ NoTwoSame rs
  Distinct-iff [] = ((λ h. tt), (λ h. tt))
  Distinct-iff (r ∷ rs) =
      let ih = Distinct-iff rs in
      let first = All-iff _ _ (differ_iff r) rs in
      ((λ h. (first.0 h.0, ih.0 h.1)), (λ h. (first.1 h.0, ih.1 h.1)))
