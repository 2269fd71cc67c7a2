-- ===== src/Receiver/Final.antt =====
-- What a state directory does once the outcome of a submission is unknown
-- (src/adapters/codex/receive.rs).
use harness_talk.Prelude.{
  ℕ, zero, suc, ◌≡◌, ◌≢◌, refl, String, not, Option, none, some, List, [], ◌∷◌, take, nat_eq, inl,
  inr,
}
use harness_talk.Error.{Result, ok, err, refuse_if, Result-cases}
use harness_talk.Error.Steps.{both, ok_step}
use harness_talk.Db.{is_some}
use harness_talk.Receiver.{State, Binding, Action, disk_after}
use harness_talk.Receiver.Start.{
  Started, start_from, start_saved, with_additions, other_binding, rebind, binding_of,
}
use harness_talk.Receiver.Lives.{
  Life, running, rebinding, Run, Rebinding, Cut, actions_of, actions_until, history, operated,
  actions_of_rebind, started,
}

not_refused :
    (i : String) (o : Option String) (c : String) → o ≡ some i → refuse_if (is_some o) c ≢ ok tt
not_refused i none c h e = cc
not_refused i (some a) c h e = cc

pending_refuses :
    (i : String) (b : Binding) (s : State) (st : Started)
    → s.pending ≡ some i
    → start_saved b s ≢ ok st
unfolding start_saved with_additions
pending_refuses i b s st h e =
    let t = with_additions b s in
    let (_, p) = both (refuse_if (other_binding b t) _) _ st e in
    let (q, _) = both (refuse_if (is_some t.pending) _) _ st p in not_refused i s.pending _ h q

module _ (i : String) (s : State) (h : s.pending ≡ some i) where
  run_refused :
      (parse_str : List ℕ → Option String) (r : Run) (res : Result Started)
      → started parse_str r (some s) ≡ res
      → operated parse_str r res ≡ []
  unfolding operated started start_from
  run_refused parse_str r (err x) e = refl
  run_refused parse_str r (ok st) e =
      let (b, _, p) = ok_step (binding_of r.host parse_str r.watch) _ st e in
      absurd (pending_refuses i b s st h p)

  rebind_refused : (r : Rebinding) → actions_of_rebind r (some s) ≡ []
  unfolding actions_of_rebind rebind
  rebind_refused r = elim (Result-cases (rebind r.host r.probe r.later s)) [
    | inl (st, e) ↦
        let (_, p) = both (refuse_if (not (nat_eq s.version 1)) _) _ st e in
        let (q, _) = both (refuse_if (is_some s.pending) _) _ st p in
        absurd (not_refused i s.pending _ h q)
    | inr (x, e) ↦ rw e refl
  ]

  life_refused :
      (parse_str : List ℕ → Option String) (l : Life) → actions_of parse_str l (some s) ≡ []
  unfolding actions_of
  life_refused parse_str (running r) = run_refused parse_str r (started parse_str r (some s)) refl
  life_refused parse_str (rebinding r) = rebind_refused r

  take_nothing : (k : ℕ) → take {A = Action} k [] ≡ []
  take_nothing zero = refl
  take_nothing (suc k) = refl

  -- From a saved state with a pending message, no life writes the state, calls the client or prints
  -- anything, whatever its arguments and the host are.
  pub history_of_pending :
      (parse_str : List ℕ → Option String) (lives : List Cut)
      → history parse_str lives (some s) ≡ []
  unfolding history actions_until disk_after
  history_of_pending parse_str [] = refl
  history_of_pending parse_str (c ∷ cs) =
      rw (life_refused parse_str c.life, take_nothing c.kept) (history_of_pending parse_str cs)
