-- ===== src/Receiver/Once.antt =====
-- The submissions of one message over all lives of a state directory
-- (src/adapters/codex/receive.rs).
use harness_talk.Prelude.{
  ℕ, ◌≤◌, ◌≡◌, refl, ◌∙◌, String, String_eq, Bool, true, false, Option, none, some, List, [], ◌∷◌,
  arith, count, inl, inr,
}
use harness_talk.Error.{Result, Checked, ok, err, ◌>>=◌, Result-cases}
use harness_talk.Error.Steps.{ok_step}
use harness_talk.Receiver.{State, Action, disk_after, BoundSocket}
use harness_talk.Receiver.Start.{Started, start_from, binding_of, with_socket, rebound_to, rebind}
use harness_talk.Receiver.Lives.{
  Life, running, rebinding, Run, Rebinding, Cut, actions_of, actions_until, history, is_attempt,
  operated, actions_of_rebind, when_ready, started,
}
use harness_talk.Receiver.Kept.{
  known, Kept, Kept-append, Kept-take, Kept_end, attempts, attempts-eq-count,
}
use harness_talk.Receiver.Runs.{connections-Kept}
use harness_talk.Receiver.Starts.{start_from-GoodStart, rebind_result}

module _ (id : String) where
  ready-Kept :
      (c : Checked) (s : State) (n : ℕ) (xs : List Action)
      → n ≤ known id (some s)
      → Kept id (some s) n xs
      → Kept id (some s) n (when_ready c xs)
  ready-Kept (ok _) s n xs h k = k
  ready-Kept (err e) s n xs h k = h

  open_start :
      (parse_str : List ℕ → Option String) (r : Run) (d : Option State)
      → (binding_of r.host parse_str r.watch >>= λ b. start_from r.others b d)
        ≡ started parse_str r d
  unfolding started
  open_start parse_str r d = refl

  rebound-Kept :
      (s : State) (bound : BoundSocket) (c : Bool) (n : ℕ)
      → n ≤ known id (some s)
      → Kept id (some s) n (rebound_to c (with_socket bound s)).actions
  rebound-Kept s bound true n h = (h, (h, h))
  rebound-Kept s bound false n h = (h, h)

  known-le : (d : Option State) → known id d ≤ 1
  known-le none = ground arith
  known-le (some s) = ground arith

  operated_by :
      (parse_str : List ℕ → Option String) (r : Run) (d : Option State) (n : ℕ)
      (res : Result Started)
      → n ≤ known id d
      → started parse_str r d ≡ res
      → Kept id d n (operated parse_str r res)
  unfolding operated
  operated_by parse_str r d n (err x) h e = h
  operated_by parse_str r d n (ok st) h e =
      let (b, _, p) =
        ok_step (binding_of r.host parse_str r.watch) (λ b. start_from r.others b d) st
          (open_start parse_str r d ∙ e) in
      let g = start_from-GoodStart id r.others b d st n h p in
      g.before _ (
        ready-Kept (r.ready st.state) st.state n _ g.bound
          (connections-Kept id parse_str 1 st.state n r.script g.idle g.bound))

  rebind-Kept :
      (r : Rebinding) (d : Option State) (n : ℕ)
      → n ≤ known id d
      → Kept id d n (actions_of_rebind r d)
  unfolding actions_of_rebind
  rebind-Kept r none n h = h
  rebind-Kept r (some s) n h = elim (Result-cases (rebind r.host r.probe r.later s)) [
    | inl (st, e) ↦
        let (bound, c, p) = rebind_result r.host r.probe r.later s st e in
        rw (e, p) (rebound-Kept s bound c n h)
    | inr (x, e) ↦ rw e h
  ]

  life-Kept :
      (parse_str : List ℕ → Option String) (l : Life) (d : Option State) (n : ℕ)
      → n ≤ known id d
      → Kept id d n (actions_of parse_str l d)
  unfolding actions_of
  life-Kept parse_str (running r) d n h = operated_by parse_str r d n (started parse_str r d) h refl
  life-Kept parse_str (rebinding r) d n h = rebind-Kept r d n h

  until-Kept :
      (parse_str : List ℕ → Option String) (c : Cut) (d : Option State) (n : ℕ)
      → n ≤ known id d
      → Kept id d n (actions_until parse_str c d)
  unfolding actions_until
  until-Kept parse_str c d n h =
      Kept-take id c.kept (actions_of parse_str c.life d) d n (life-Kept parse_str c.life d n h)

  history-Kept :
      (parse_str : List ℕ → Option String) (cs : List Cut) (d : Option State) (n : ℕ)
      → n ≤ known id d
      → Kept id d n (history parse_str cs d)
  unfolding history
  history-Kept parse_str [] d n h = h
  history-Kept parse_str (c ∷ cs) d n h =
      let now = actions_until parse_str c d in
      let k = until-Kept parse_str c d n h in
      Kept-append id now _ d n k
        (history-Kept parse_str cs (disk_after d now) (attempts id n now) (Kept_end id now d n k))

-- Over all lives of a state directory that starts without a saved state, however each is cut off
-- and whatever the stream, the mailbox and the client answer: at most one submission of a message
-- may have been taken by the client, counting each call of the client that did not answer that
-- nothing was submitted.
pub history-Once :
    (parse_str : List ℕ → Option String) (lives : List Cut) (id : String)
    → count (is_attempt id) (history parse_str lives none) ≤ 1
history-Once parse_str lives id = ground (
  arith,
  attempts-eq-count id 0 (history parse_str lives none),
  Kept_end id (history parse_str lives none) none 0
      (history-Kept id parse_str lives none 0 (ground arith)),
  known-le id (disk_after none (history parse_str lives none)),
)
