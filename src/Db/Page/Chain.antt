-- ===== src/Db/Page/Chain.antt =====
-- The order of the rows that a page shows (src/store.rs).
use harness_talk.Prelude.{
  ℕ, zero, suc, ◌≤◌, ◌<◌, ◌≡◌, sym, ap, ◌∙◌, Bool, true, false, none, some, List, [], ◌∷◌, ◌++◌,
  arith, select, All, get_last?, reverse, take, drop, take-append-drop, ltb, lt→ltb, Bool-cases,
  inl, inr,
}
use harness_talk.Prelude.Select.{
  select-All, All-append, All-reverse, All-select, All-last, All-take, last_cases,
}
use mathlib.Core.Path.{subst}
use mathlib.Core.List.{reverse-cons}
use harness_talk.Model.{Row}
use harness_talk.Db.Page.{beyond, in_order, start, i64_max}
use harness_talk.Db.Valid.{Ordered}

module _ (newest_first : Bool) where
  -- Each row stands beyond all rows before it.
  abbrev pub Chain : List Row → Type 0
  Chain [] = Unit
  Chain (m ∷ ms) = All (λ n. beyond newest_first m.seq n ≡ true) ms × Chain ms

  pub Chain-select : (q : Row → Bool) (ms : List Row) → Chain ms → Chain (select q ms)
  Chain-select q [] h = tt
  Chain-select q (m ∷ ms) h = elim (Bool-cases (q m)) [
    | inl e ↦ rw e (All-select _ q ms h.0, Chain-select q ms h.1)
    | inr e ↦ rw e (Chain-select q ms h.1)
  ]

  Chain-append :
      (ms : List Row) (n : Row)
      → Chain ms
      → All (λ m. beyond newest_first m.seq n ≡ true) ms
      → Chain (ms ++ n ∷ [])
  Chain-append [] n h k = (tt, tt)
  Chain-append (m ∷ ms) n h k = (All-append _ ms (n ∷ []) h.0 (k.0, tt), Chain-append ms n h.1 k.1)

  pub beyond_trans :
      (a : ℕ) (m n : Row)
      → beyond newest_first a m ≡ true
      → beyond newest_first m.seq n ≡ true
      → beyond newest_first a n ≡ true
  beyond_trans a m n h k = ground arith

  -- The row itself and those before it do not stand beyond a row.
  All-later :
      (m p : Row) (ms : List Row)
      → m ≡ p
      → All (λ n. beyond newest_first m.seq n ≡ true) ms
      → select (beyond newest_first p.seq) (m ∷ ms) ≡ ms
  All-later m p ms same h =
      subst (λ q. select (beyond newest_first q.seq) (m ∷ ms) ≡ ms) same
        (ground (arith, select-All (beyond newest_first m.seq) ms h))

  earlier_out :
      (m p : Row) (ms : List Row)
      → beyond newest_first m.seq p ≡ true
      → select (beyond newest_first p.seq) (m ∷ ms) ≡ select (beyond newest_first p.seq) ms
  earlier_out m p ms h = ground arith

  -- What stands beyond the last of the first rows is the rest.
  pub rest_of_Chain :
      (k : ℕ) (ms : List Row) (p : Row)
      → Chain ms
      → get_last? (take k ms) ≡ some p
      → select (beyond newest_first p.seq) ms ≡ drop k ms
  rest_of_Chain zero ms p h e = absurd (ground arith)
  rest_of_Chain (suc k) [] p h e = absurd (ground arith)
  rest_of_Chain (suc k) (m ∷ ms) p h e = elim (last_cases m (take k ms) p e) [
    | inl (none_left, same) ↦
        All-later m p ms same h.0
        ∙ sym (ap (λ xs. xs ++ drop k ms) (sym none_left) ∙ take-append-drop k ms)
    | inr e' ↦
        earlier_out m p ms (All-last _ (take k ms) p (All-take _ k ms h.0) e')
        ∙ rest_of_Chain k ms p h.1 e'
  ]

  pub Chain-reverse_step :
      (m : Row) (ms : List Row)
      → Chain (reverse ms)
      → All (λ n. beyond newest_first n.seq m ≡ true) ms
      → Chain (reverse (m ∷ ms))
  Chain-reverse_step m ms h k =
      rw (reverse-cons m ms) (Chain-append (reverse ms) m h (All-reverse _ ms k))

later_rows :
    (ms : List Row) (base low high : ℕ)
    → base ≤ low
    → Ordered low ms high
    → All (λ n. ltb base n.seq ≡ true) ms
later_rows [] base low high h o = tt
later_rows (m ∷ ms) base low high h o =
    (lt→ltb base m.seq (omega (arith, o.0)), later_rows ms base m.seq high (omega (arith, o.0)) o.1)

seq_le : (m : Row) (ms : List Row) (high : ℕ) → Ordered m.seq ms high → m.seq ≤ high
seq_le m [] high h = h
seq_le m (n ∷ ms) high h = omega (arith, h.0, seq_le n ms high h.1)

-- All rows stand before what is above the last.
pub earlier_rows :
    (ms : List Row) (low high top : ℕ)
    → high < top
    → Ordered low ms high
    → All (λ n. ltb n.seq top ≡ true) ms
earlier_rows [] low high top h o = tt
earlier_rows (m ∷ ms) low high top h o =
    (lt→ltb m.seq top (omega (arith, seq_le m ms high o.1)), earlier_rows ms m.seq high top h o.1)

-- The rows are a chain in the order that a page shows them.
pub in_order-Chain :
    (newest_first : Bool) (ms : List Row) (low high : ℕ)
    → Ordered low ms high
    → Chain newest_first (in_order newest_first ms)
in_order-Chain false [] low high o = tt
in_order-Chain true [] low high o = tt
in_order-Chain false (m ∷ ms) low high o =
    (later_rows ms m.seq m.seq high (omega arith) o.1, in_order-Chain false ms m.seq high o.1)
in_order-Chain true (m ∷ ms) low high o =
    Chain-reverse_step true m ms (in_order-Chain true ms m.seq high o.1)
      (later_rows ms m.seq m.seq high (omega arith) o.1)

-- A first page starts before all rows.
pub starts_before :
    (newest_first : Bool) (ms : List Row) (high : ℕ)
    → high < i64_max
    → Ordered 0 ms high
    → All (λ n. beyond newest_first (start newest_first none) n ≡ true) ms
starts_before false ms high h o = later_rows ms 0 0 high (omega arith) o
starts_before true ms high h o = earlier_rows ms 0 high i64_max h o
