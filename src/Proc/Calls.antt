-- ===== src/Proc/Calls.antt =====
-- The calls of the notifiers, beside the claims of notifications.
use harness_talk.Prelude.{
  ℕ, zero, suc, ◌+◌, ◌≤◌, ◌≡◌, refl, String, String_eq, List, ◌++◌, arith, ◌==◌, eq_iff, count,
  Bool-cases, inl, inr,
}
use mathlib.Core.Path.{subst}
use harness_talk.Prelude.Find.{count-append}
use harness_talk.Error.{Result, ok, err}
use harness_talk.Db.{Db}
use harness_talk.Db.Claim.{started, started-Extends, claim_starts}
use harness_talk.Db.History.{Extends, apply-Extends}
use harness_talk.Db.Txn.{Txn, apply, start_notification}
use harness_talk.Db.Update.{claim}
use harness_talk.Db.Valid.{IsValid}
use harness_talk.Proc.{World, calls_of, calls_after}
use harness_talk.Proc.Leads.{Leads, Leads-Extends, Leads-IsValid}

abbrev pub called : String → List String → ℕ
called id calls = count (λ c. c == id) calls

-- From valid tables, each call that is added for a message stands beside a claim that was won,
-- but for `extra` calls.
pub record Covered (extra : String → ℕ) (w w' : World) : Type 0 where
  pub bound :
      IsValid w.mailbox
      → (id : String)
      → called id w'.calls + started id w.mailbox
        ≤ called id w.calls + started id w'.mailbox + extra id

abbrev pub no_extra : String → ℕ
no_extra id = 0

pub Covered-trans :
    {e f : String → ℕ} {u v w : World}
    → Leads u.mailbox v.mailbox
    → Covered e u v
    → Covered f v w
    → Covered (λ id. e id + f id) u w
Covered-trans l a b = record {
  bound = λ valid id. omega (arith, a.bound valid id, b.bound (Leads-IsValid l valid) id);
}

-- A step that leaves the log as it was.
pub Covered-uncalled :
    (w w' : World) → Leads w.mailbox w'.mailbox → w'.calls ≡ w.calls → Covered no_extra w w'
Covered-uncalled w w' l e = record {
  bound = λ valid id. rw e (omega (arith, started-Extends id (Leads-Extends l)));
}

claim-Extends : (id : String) (time : ℕ) (d : Db) → Extends d (claim id time d).1
claim-Extends id time d = unfold apply in apply-Extends (start_notification id time) d

module _ (d : Db) (id : String) (time : ℕ) where
  -- The call that a claim allows, beside what the claim does to the tables.
  claim_bound :
      IsValid d
      → (j : String)
      → called j (calls_after (claim id time d).0 id) + started j d ≤ started j (claim id time d).1
  claim_bound valid j = counted (claim id time d).0 refl
    where
      grows : started j d ≤ started j (claim id time d).1
      grows = started-Extends j (claim-Extends id time d)

      counted :
          (r : Result ℕ)
          → (claim id time d).0 ≡ r
          → called j (calls_after r id) + started j d ≤ started j (claim id time d).1
      counted (ok zero) e = omega (arith, grows)
      counted (err x) e = omega (arith, grows)
      counted (ok (suc n)) e =
          let (before, after) = claim_starts id time d valid (λ z. absurd (ground arith)) in
          elim (Bool-cases (id == j)) [
            | inl same ↦
                let b : started j d ≡ 0 =
                  subst (λ i. started i d ≡ 0) ((eq_iff id j).0 same) before in
                let a : started j (claim id time d).1 ≡ 1 =
                  subst (λ i. started i (claim id time d).1 ≡ 1) ((eq_iff id j).0 same) after in
                rw (same, a, b) (omega arith)
            | inr other ↦ rw other (omega (arith, grows))
          ]

calls_of_bound :
    (t : Txn) (d : Db)
    → IsValid d
    → (id : String) → called id (calls_of t d) + started id d ≤ started id (apply t d)
unfolding apply
calls_of_bound (start_notification i time) d valid id = claim_bound d i time valid id
calls_of_bound t d valid id =
    let grows = started-Extends id (apply-Extends t d) in omega (arith, grows)

-- What another process does, its call included.
pub Covered-other :
    (w w' : World) (t : Txn)
    → w'.mailbox ≡ apply t w.mailbox
    → w'.calls ≡ w.calls ++ calls_of t w.mailbox
    → Covered no_extra w w'
Covered-other w w' t m c = record {
  bound = λ valid id.
      let counted = calls_of_bound t w.mailbox valid id in
      rw (m, c)
        (rw (count-append (λ c. c == id) w.calls (calls_of t w.mailbox)) (omega (arith, counted)));
}

pub Covered-weaken :
    {e f : String → ℕ} {w w' : World}
    → Covered e w w'
    → ((id : String) → e id ≤ f id)
    → Covered f w w'
Covered-weaken h more = record { bound = λ valid id. omega (arith, h.bound valid id, more id) }
