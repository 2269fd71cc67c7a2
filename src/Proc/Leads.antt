-- ===== src/Proc/Leads.antt =====
-- How the tables come from one state to another by transactions, and what that keeps.
use harness_talk.Prelude.{◌≡◌}
use harness_talk.Db.{Db}
use harness_talk.Db.Txn.{Txn, apply}
use harness_talk.Db.History.{Extends, Extends-refl, Extends-trans, apply-Extends}
use harness_talk.Db.Valid.{IsValid}
use harness_talk.Db.Valid.Steps.{apply-IsValid}

-- Reachability by transactions.
pub data Leads (d : Db) : Db → Type 0 where
  here : Leads d d
  next : {e f : Db} → Leads d e → (t : Txn) → f ≡ apply t e → Leads d f

pub Leads-trans : {d e f : Db} → Leads d e → Leads e f → Leads d f
Leads-trans l here = l
Leads-trans l (next r t q) = next (Leads-trans l r) t q

pub Leads-step : {d e : Db} (t : Txn) → e ≡ apply t d → Leads d e
Leads-step t q = next here t q

-- A property that every transaction keeps.
abbrev pub IsStable {ℓ} : (Db → Type ℓ) → Type ℓ
IsStable P = (t : Txn) (d : Db) → P d → P (apply t d)

pub Leads-induction {ℓ} : (P : Db → Type ℓ) → IsStable P → {d e : Db} → Leads d e → P d → P e
Leads-induction P stable here h = h
Leads-induction P stable (next {e = e} r t q) h = rw q (stable t e (Leads-induction P stable r h))

pub Leads-Extends : {d e : Db} → Leads d e → Extends d e
Leads-Extends {d} l =
    Leads-induction (λ f. Extends d f) (λ t f x. Extends-trans x (apply-Extends t f)) l
      (Extends-refl d)

pub Leads-IsValid : {d e : Db} → Leads d e → IsValid d → IsValid e
Leads-IsValid l v = Leads-induction IsValid apply-IsValid l v
