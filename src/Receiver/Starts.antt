-- ===== src/Receiver/Starts.antt =====
-- How a start and a rebinding keep what the state knows (src/adapters/codex/receive.rs).
use harness_talk.Prelude.{
  ℕ, ◌≤◌, ◌≡◌, refl, sym, String, String_eq, Bool, true, false, Option, none, some, List, [], ◌∷◌,
  ◌++◌, arith, not, nat_eq, if◌then◌else◌,
}
use harness_talk.Error.{Result, Checked, ok, refuse_if}
use harness_talk.Error.Steps.{both, ok_step, ok_same}
use harness_talk.Db.{is_some}
use harness_talk.Receiver.{
  State, Binding, Action, wrote, submitted_to, emitted, same_socket, check_socket, BoundSocket,
}
use harness_talk.Receiver.Start.{
  Started, start_from, start_fresh, start_saved, Host, saved_socket, with_socket, rebound_to,
  capture_socket, with_additions, additions, other_binding, rebind,
}
use harness_talk.Receiver.Kept.{known, Kept, tried}

pub rebind_result :
    (host : Host) (probe : BoundSocket → Checked) (later : String → Result BoundSocket) (s : State)
    (st : Started)
    → rebind host probe later s ≡ ok st
    → (bound : BoundSocket) × (c : Bool) × (st ≡ rebound_to c (with_socket bound s))
unfolding rebind
rebind_result host probe later s st e =
    let (_, p) = both (refuse_if (not (nat_eq s.version 1)) _) _ st e in
    let (_, p) = both (refuse_if (is_some s.pending) _) _ st p in
    let (previous, _, p) = ok_step (saved_socket s.binding.codex_socket) _ st p in
    let (bound, _, p) = ok_step (capture_socket host previous.path) _ st p in
    let (_, p) = both (probe bound) _ st p in
    let (_, p) = both (check_socket bound (later bound.path)) _ st p in
    (bound, not (same_socket previous bound), sym (ok_same p))

module _ (id : String) where
  pub record GoodStart (d : Option State) (n : ℕ) (st : Started) : Type 0 where
    pub idle : st.state.pending ≡ none
    pub bound : n ≤ known id (some st.state)
    pub before :
        (rest : List Action) → Kept id (some st.state) n rest → Kept id d n (st.actions ++ rest)

  Kept-same :
      (d e : Option State) (xs : List Action) (n : ℕ)
      → known id d ≡ known id e
      → Kept id e n xs
      → Kept id d n xs
  Kept-same d e [] n h k = rw h k
  Kept-same d e (wrote s ∷ xs) n h k = (rw h k.0, k.1)
  Kept-same d e (submitted_to i b ∷ xs) n h k = (rw h k.0, Kept-same d e xs (tried id i b n) h k.1)
  Kept-same d e (emitted p ∷ xs) n h k = (rw h k.0, Kept-same d e xs n h k.1)

  start_fresh-GoodStart :
      (others : Bool) (b : Binding) (st : Started) (n : ℕ)
      → n ≤ 0
      → start_fresh others b ≡ ok st
      → GoodStart none n st
  unfolding start_fresh
  start_fresh-GoodStart true b st n h e = absurd (ground arith)
  start_fresh-GoodStart false b st n h e =
      rw (sym (ok_same e))
        (record { idle = refl; bound = ground arith; before = λ rest k. (ground arith, k) })

  none_of : {A : Type 0} (o : Option A) (c : String) → refuse_if (is_some o) c ≡ ok tt → o ≡ none
  none_of none c h = refl
  none_of (some a) c h = absurd (ground arith)

  written-GoodStart :
      (c : Bool) (s t : State) (n : ℕ)
      → t.pending ≡ none
      → known id (some s) ≡ known id (some t)
      → n ≤ known id (some s)
      → GoodStart (some s) n (record { actions = (if c then wrote t ∷ [] else []); state = t })
  written-GoodStart true s t n idle same h = record {
    idle = idle;
    bound = rw same at h;
    before = λ rest k. (h, k);
  }
  written-GoodStart false s t n idle same h = record {
    idle = idle;
    bound = rw same at h;
    before = λ rest k. Kept-same (some s) (some t) rest n same k;
  }

  additions-known :
      (b : Binding) (s : State) → known id (some s) ≡ known id (some (with_additions b s))
  unfolding with_additions
  additions-known b s = refl

  start_saved-GoodStart :
      (b : Binding) (s : State) (st : Started) (n : ℕ)
      → n ≤ known id (some s)
      → start_saved b s ≡ ok st
      → GoodStart (some s) n st
  unfolding start_saved
  start_saved-GoodStart b s st n h e =
      let t = with_additions b s in
      let (_, p) = both (refuse_if (other_binding b t) _) _ st e in
      let (q, r) = both (refuse_if (is_some t.pending) _) _ st p in
      rw (sym (ok_same r))
        (written-GoodStart (additions b s) s t n (none_of t.pending _ q) (additions-known b s) h)

  pub start_from-GoodStart :
      (others : Bool) (b : Binding) (d : Option State) (st : Started) (n : ℕ)
      → n ≤ known id d
      → start_from others b d ≡ ok st
      → GoodStart d n st
  unfolding start_from
  start_from-GoodStart others b none st n h e = start_fresh-GoodStart others b st n h e
  start_from-GoodStart others b (some s) st n h e = start_saved-GoodStart b s st n h e
