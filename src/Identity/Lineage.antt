-- ===== src/Identity/Lineage.antt =====
-- The ancestors of the process that asks (`ancestry` of src/identity.rs).
use harness_talk.Prelude.{
  ℕ, zero, suc, ◌≤◌, ◌≡◌, ◌≢◌, refl, ◌⊎◌, inl, inr, String, String_eq, Bool, true, false, not,
  Option, none, some, List, [], ◌∷◌, ◌++◌, ℤ, int_eq, int_eq→eq, arith, All, length, Bool-cases,
  Option-cases, if◌then◌else◌,
}
use mathlib.Core.Path.{subst}
use mathlib.Core.List.{append_assoc}
use harness_talk.Prelude.Select.{All-append}
use harness_talk.Identity.{
  ProcTable, Process, Between, looks_like_client, inspected, inspect, is_positive, climb,
}

-- The processes between, each the parent of the one before, the first the parent of `pid`; the
-- parent of the last is `claude`.
pub data Lineage (t : ProcTable) (claude : ℤ) : ℤ → List Between → Type 0 where
  child : (parent : ℤ) → parent ≡ claude → Lineage t claude parent []
  below :
      (parent : ℤ) (p : Process) (rest : List Between)
      → t.process parent ≡ some p
      → Lineage t claude p.parent rest
      → Lineage t claude parent (record { pid = parent; comm = p.comm } ∷ rest)

pub no_answer : {A : Type 0} {a : A} → none ≢ some a
no_answer h = cc

module _ (t : ProcTable) (claude : ℤ) where
  -- A process that the loop passed over.
  abbrev pub NoClient : Between → Type 0
  NoClient p = looks_like_client t p ≡ some false

  inspect_step :
      (o : Option Bool) (rest : Option (Option String))
      → inspected o rest ≡ some none
      → (o ≡ some false) × (rest ≡ some none)
  inspect_step none rest h = absurd (ground arith)
  inspect_step (some true) rest h = absurd (ground arith)
  inspect_step (some false) rest h = (refl, h)

  inspect_passed : (ps : List Between) → inspect t ps ≡ some none → All NoClient ps
  unfolding inspect
  inspect_passed [] h = tt
  inspect_passed (p ∷ ps) h =
      let (a, b) = inspect_step (looks_like_client t p) (inspect t ps) h in (a, inspect_passed ps b)

  -- Where the loop finds nothing against the session.
  pub record Climbed (left : ℕ) (parent : ℤ) (before : List Between) : Type 0 where
    pub between : List Between
    pub lineage : Lineage t claude parent between
    pub short : length between ≤ left
    pub passed : All NoClient (before ++ between)

  Climbed-here :
      (left : ℕ) (parent : ℤ) (before : List Between)
      → int_eq parent claude ≡ true
      → inspect t before ≡ some none
      → Climbed left parent before
  Climbed-here left parent before same h = record {
    between = [];
    lineage = child parent (int_eq→eq parent claude same);
    short = omega arith;
    passed = All-append NoClient before [] (inspect_passed before h) tt;
  }

  Climbed-below :
      (left : ℕ) (parent : ℤ) (before : List Between) (p : Process)
      → t.process parent ≡ some p
      → Climbed left p.parent (before ++ record { pid = parent; comm = p.comm } ∷ [])
      → Climbed (suc left) parent before
  Climbed-below left parent before p there c = record {
    between = record { pid = parent; comm = p.comm } ∷ c.between;
    lineage = below parent p c.between there c.lineage;
    short = omega (arith, c.short);
    passed =
        subst (All NoClient)
          (append_assoc before (record { pid = parent; comm = p.comm } ∷ []) c.between) c.passed;
  }

  passed_if :
      (b c : Bool) (x : Option (Option String)) (y : Option (Option String))
      → (if b then x else if c then some (some "claude_pid_not_an_ancestor") else y) ≡ some none
      → ((b ≡ true) × (x ≡ some none)) ⊎ (y ≡ some none)
  passed_if true c x y h = inl (refl, h)
  passed_if false true x y h = absurd (ground arith)
  passed_if false false x y h = inr h

  pub climb_found :
      (left : ℕ) (parent : ℤ) (before : List Between)
      → climb t claude left parent before ≡ some none
      → Climbed left parent before
  unfolding climb
  climb_found zero parent before h = elim (Bool-cases (int_eq parent claude)) [
    | inl e ↦ Climbed-here zero parent before e (rw e at h)
    | inr e ↦ absurd (ground arith)
  ]
  climb_found (suc left) parent before h =
      elim (passed_if (int_eq parent claude) (not (is_positive parent)) _ _ h) [
        | inl (e, k) ↦ Climbed-here (suc left) parent before e k
        | inr k ↦ elim (Option-cases (t.process parent)) [
          | inl e ↦ absurd (no_answer (rw e at k))
          | inr (p, e) ↦ Climbed-below left parent before p e (
              climb_found left p.parent (before ++ record { pid = parent; comm = p.comm } ∷ [])
                (rw e at k))
        ]
      ]
