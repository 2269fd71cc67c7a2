-- ===== src/Receiver/Runs.antt =====
-- The loops of a receiver (src/adapters/codex/receive.rs), and what they leave saved.
use harness_talk.Prelude.{
  ℕ, ◌≤◌, ◌≡◌, refl, ◌∙◌, String, String_eq, Bool, true, false, Option, none, some, List, [], ◌∷◌,
  ◌++◌, arith, ap,
}
use harness_talk.Receiver.{State, Action, emitted, disk_after, disconnected}
use harness_talk.Receiver.Stream.{
  Turn, Next, listening, reconnecting, failed, turn, Ended, stopped, dropped, ended, Ran, then_ran,
  consume, connections, next_delay,
}
use harness_talk.Receiver.Kept.{known, Kept, Kept-append, Kept_end, attempts, disk_after-append}
use harness_talk.Receiver.Round.{is_failed, turn-GoodTurn}

abbrev is_dropped : Ended → Bool
is_dropped dropped = true
is_dropped _ = false

record GoodRun (id : String) (s : State) (n : ℕ) (r : Ran) : Type 0 where
  pub kept : Kept id (some s) n r.actions
  pub on_disk : disk_after (some s) r.actions ≡ some r.state
  pub settled : is_dropped r.result ≡ true → r.state.pending ≡ none

module _ (id : String) where
  kept_then :
      (xs ys : List Action) (d e : Option State) (n : ℕ)
      → Kept id d n xs
      → disk_after d xs ≡ e
      → Kept id e (attempts id n xs) ys
      → Kept id d n (xs ++ ys)
  kept_then xs ys d e n h there k = Kept-append id xs ys d n h (rw there k)

  bound_after :
      (xs : List Action) (d e : Option State) (n : ℕ)
      → Kept id d n xs
      → disk_after d xs ≡ e
      → attempts id n xs ≤ known id e
  bound_after xs d e n h there = rw there at (Kept_end id xs d n h)

  disk_of_both :
      (xs ys : List Action) (d e f : Option State)
      → disk_after d xs ≡ e
      → disk_after e ys ≡ f
      → disk_after d (xs ++ ys) ≡ f
  disk_of_both xs ys d e f h k = disk_after-append d xs ys ∙ ap (λ x. disk_after x ys) h ∙ k

  abbrev resumed : List Action → State → (Bool → Ran) → Next → Ran
  resumed actions t rest (listening b) = then_ran actions (rest b)
  resumed actions t rest reconnecting = record { actions = actions; state = t; result = dropped }
  resumed actions t rest (failed e) = record { actions = actions; state = t; result = ended e }

  resumed-GoodRun :
      (s t : State) (n : ℕ) (actions : List Action) (rest : Bool → Ran) (next : Next)
      → Kept id (some s) n actions
      → disk_after (some s) actions ≡ some t
      → (is_failed next ≡ false → t.pending ≡ none)
      → ((b : Bool)
          → t.pending ≡ none
          → attempts id n actions ≤ known id (some t)
          → GoodRun id t (attempts id n actions) (rest b))
      → GoodRun id s n (resumed actions t rest next)
  resumed-GoodRun s t n actions rest (listening b) kept on_disk idle k =
      let g = k b (idle refl) (bound_after actions (some s) (some t) n kept on_disk) in
      record {
        kept = kept_then actions (rest b).actions (some s) (some t) n kept on_disk g.kept;
        on_disk = disk_of_both actions (rest b).actions (some s) (some t) _ on_disk g.on_disk;
        settled = g.settled;
      }
  resumed-GoodRun s t n actions rest reconnecting kept on_disk idle k = record {
    kept = kept;
    on_disk = on_disk;
    settled = λ _. idle refl;
  }
  resumed-GoodRun s t n actions rest (failed e) kept on_disk idle k = record {
    kept = kept;
    on_disk = on_disk;
    settled = λ h. absurd (ground arith);
  }

  consume-GoodRun :
      (parse_str : List ℕ → Option String) (ready : Bool) (s : State) (n : ℕ) (ts : List Turn)
      → s.pending ≡ none
      → n ≤ known id (some s)
      → GoodRun id s n (consume parse_str ready s ts)
  unfolding consume disk_after
  consume-GoodRun parse_str ready s n [] idle h = record {
    kept = h;
    on_disk = refl;
    settled = λ k. idle;
  }
  consume-GoodRun parse_str ready s n (t ∷ ts) idle h =
      let r = turn parse_str ready t s in
      let g = turn-GoodTurn id s n idle h parse_str ready t in
      resumed-GoodRun s r.state n r.actions (λ b. consume parse_str b r.state ts) r.next g.kept
        g.on_disk g.settled
        (λ b idle' h'. consume-GoodRun parse_str b r.state (attempts id n r.actions) ts idle' h')

  abbrev reconnected : List Action → ℕ → List Action → Ended → List Action
  reconnected actions delay rest dropped = actions ++ emitted (disconnected delay) ∷ rest
  reconnected actions delay rest _ = actions

  reconnected-Kept :
      (s t : State) (n delay : ℕ) (actions rest : List Action) (result : Ended)
      → Kept id (some s) n actions
      → disk_after (some s) actions ≡ some t
      → (is_dropped result ≡ true → t.pending ≡ none)
      → (t.pending ≡ none
          → attempts id n actions ≤ known id (some t)
          → Kept id (some t) (attempts id n actions) rest)
      → Kept id (some s) n (reconnected actions delay rest result)
  reconnected-Kept s t n delay actions rest dropped kept on_disk idle k =
      let h = bound_after actions (some s) (some t) n kept on_disk in
      kept_then actions _ (some s) (some t) n kept on_disk (h, k (idle refl) h)
  reconnected-Kept s t n delay actions rest stopped kept on_disk idle k = kept
  reconnected-Kept s t n delay actions rest (ended e) kept on_disk idle k = kept

  pub connections-Kept :
      (parse_str : List ℕ → Option String) (delay : ℕ) (s : State) (n : ℕ) (cs : List (List Turn))
      → s.pending ≡ none
      → n ≤ known id (some s)
      → Kept id (some s) n (connections parse_str delay s cs)
  unfolding connections
  connections-Kept parse_str delay s n [] idle h = h
  connections-Kept parse_str delay s n (c ∷ cs) idle h =
      let r = consume parse_str false s c in
      let g = consume-GoodRun parse_str false s n c idle h in
      reconnected-Kept s r.state n delay r.actions
        (connections parse_str (next_delay delay) r.state cs) r.result g.kept g.on_disk g.settled
        (λ idle' h'.
          connections-Kept parse_str (next_delay delay) r.state (attempts id n r.actions) cs idle'
            h')
