-- ===== src/Receiver/Round.antt =====
-- One round of a receiver (src/adapters/codex/receive.rs), and what it leaves saved.
use harness_talk.Prelude.{
  ltb, nat_eq, not, ℕ, ◌≤◌, ◌≡◌, refl, sym, String, String_eq, Bool, true, false, ◌||◌, Option,
  none, some, List, [], ◌∷◌, ◌==◌, arith, eq_iff, if◌then◌else◌,
}
use harness_talk.Error.{Result, Checked, ok, err, code}
use harness_talk.Model.{Submission, not_submitted, submitted, submission_unknown, Outcome}
use harness_talk.Receiver.{
  State, Receipt, contains_key, emitted, disk_after, Printed, ready_line, check_unavailable,
  skipped_line,
}
use harness_talk.Receiver.Check.{needs_notification}
use harness_talk.Receiver.Stream.{
  Turn, Turned, Next, listening, reconnecting, failed, notified, settle, checked, with_pending,
  goes_on, Event, on_message, valid_message, known_sequence, on_ready, on_event, turn, quiet,
  after_check, checked_message,
}
use harness_talk.Receiver.Kept.{known, Kept, tried, insert-holds}

abbrev pub is_failed : Next → Bool
is_failed (failed e) = true
is_failed _ = false

-- A round keeps within what is saved, and leaves no pending message where the receiver goes on.
pub record GoodTurn (id : String) (s : State) (n : ℕ) (r : Turned) : Type 0 where
  pub kept : Kept id (some s) n r.actions
  pub on_disk : disk_after (some s) r.actions ≡ some r.state
  pub settled : is_failed r.next ≡ false → r.state.pending ≡ none

fresh_of_same :
    (id i : String) (rs : List Receipt)
    → contains_key i rs ≡ false
    → (i == id) ≡ true
    → contains_key id rs ≡ false
fresh_of_same id i rs fresh h = rw (sym ((eq_iff i id).0 h)) fresh

module _ (id i detail : String) (s : State) (n : ℕ) (fresh : contains_key i s.receipts ≡ false)
    (idle : s.pending ≡ none) (h : n ≤ known id (some s)) where
  bound : n ≤ (if contains_key id s.receipts then 1 else 0)
  bound = ground (arith, rw idle at h)

  before_call : n ≤ known id (some (with_pending (some i) s))
  before_call = ground (arith, bound)

  in_call : (b : Submission) → tried id i b n ≤ known id (some (with_pending (some i) s))
  in_call b = ground (arith, bound, fresh_of_same id i s.receipts fresh)

  after_call :
      (b : Submission)
      → tried id i b n ≤ known id (some (settle i detail b (with_pending (some i) s)))
  unfolding settle
  after_call not_submitted = ground (arith, bound)
  after_call submitted = ground (
    arith,
    bound,
    fresh_of_same id i s.receipts fresh,
    insert-holds id (record { id = i; detail = detail }) s.receipts,
  )
  after_call submission_unknown = in_call submission_unknown

notified-Kept :
    (id i : String) (outcome : Outcome) (s : State) (n : ℕ)
    → contains_key i s.receipts ≡ false
    → s.pending ≡ none
    → n ≤ known id (some s)
    → Kept id (some s) n (notified i outcome s).actions
unfolding notified
notified-Kept id i outcome s n fresh idle h =
    let after = after_call id i outcome.detail s n fresh idle h outcome.submission in
    (
      h,
      (
        before_call id i outcome.detail s n fresh idle h,
        (in_call id i outcome.detail s n fresh idle h outcome.submission, (after, after)),
      ),
    )

module _ (id : String) (s : State) (n : ℕ) (idle : s.pending ≡ none)
    (h : n ≤ known id (some s)) where
  quiet-GoodTurn : (next : Next) → GoodTurn id s n (quiet s next)
  unfolding disk_after
  quiet-GoodTurn next = record { kept = h; on_disk = refl; settled = λ _. idle }

  printed-GoodTurn :
      (p : Printed) (next : Next)
      → GoodTurn id s n (record { actions = emitted p ∷ []; state = s; next = next })
  unfolding disk_after
  printed-GoodTurn p next = record { kept = (h, h); on_disk = refl; settled = λ _. idle }

  settled_by :
      (i detail : String) (b : Submission) (t : State)
      → is_failed (goes_on b) ≡ false
      → (settle i detail b t).pending ≡ none
  unfolding settle
  settled_by i detail submitted t k = refl
  settled_by i detail not_submitted t k = refl
  settled_by i detail submission_unknown t k = absurd (ground arith)

  notified-GoodTurn :
      (i : String) (outcome : Outcome)
      → contains_key i s.receipts ≡ false
      → GoodTurn id s n (notified i outcome s)
  unfolding notified disk_after
  notified-GoodTurn i outcome fresh = record {
    kept = notified-Kept id i outcome s n fresh idle h;
    on_disk = refl;
    settled = settled_by i outcome.detail outcome.submission (with_pending (some i) s);
  }

  if-GoodTurn :
      (b : Bool) (x y : Turned)
      → GoodTurn id s n x
      → (b ≡ false → GoodTurn id s n y)
      → GoodTurn id s n (if b then x else y)
  if-GoodTurn true x y g k = g
  if-GoodTurn false x y g k = k refl

  option-GoodTurn :
      {A : Type 0} (o : Option A) (x : Turned) (f : A → Turned)
      → GoodTurn id s n x
      → ((a : A) → GoodTurn id s n (f a))
      → GoodTurn id s n (elim o [ none ↦ x | some a ↦ f a ])
  option-GoodTurn none x f g k = g
  option-GoodTurn (some a) x f g k = k a

  after_check-GoodTurn :
      (i : String) (outcome : Outcome) (r : Result (Option Bool))
      → contains_key i s.receipts ≡ false
      → GoodTurn id s n (after_check i outcome s r)
  unfolding after_check
  after_check-GoodTurn i outcome (err e) fresh = quiet-GoodTurn (failed e)
  after_check-GoodTurn i outcome (ok none) fresh =
      printed-GoodTurn (check_unavailable i) reconnecting
  after_check-GoodTurn i outcome (ok (some true)) fresh = notified-GoodTurn i outcome fresh
  after_check-GoodTurn i outcome (ok (some false)) fresh =
      printed-GoodTurn (skipped_line i) (listening true)

  checked-GoodTurn :
      (i : String) (seq : ℕ) (t : Turn)
      → contains_key i s.receipts ≡ false
      → GoodTurn id s n (checked i seq t s)
  unfolding checked
  checked-GoodTurn i seq t fresh =
      option-GoodTurn s.binding.mcp_command _ _ (notified-GoodTurn i t.outcome fresh) (λ command.
        after_check-GoodTurn i t.outcome (needs_notification s.binding.peer i seq t.response) fresh)

  checked_message-GoodTurn :
      (c : Checked) (i : String) (seq : ℕ) (t : Turn)
      → GoodTurn id s n (checked_message c i seq t s)
  unfolding checked_message
  checked_message-GoodTurn (err e) i seq t = quiet-GoodTurn (failed e)
  checked_message-GoodTurn (ok _) i seq t =
      if-GoodTurn (contains_key i s.receipts) _ _ (quiet-GoodTurn (listening true))
        (checked-GoodTurn i seq t)

  on_message-GoodTurn :
      (parse_str : List ℕ → Option String) (e : Event) (t : Turn)
      → GoodTurn id s n (on_message parse_str e t s)
  unfolding on_message
  on_message-GoodTurn parse_str e t =
      option-GoodTurn e.id _ _ (quiet-GoodTurn (failed (code "Watch message ID missing")))
        (λ i. checked_message-GoodTurn (valid_message parse_str i e) i (known_sequence e.seq) t)

  on_ready-GoodTurn : (e : Event) → GoodTurn id s n (on_ready e s)
  unfolding on_ready
  on_ready-GoodTurn e =
      if-GoodTurn _ _ _
        (quiet-GoodTurn (failed (code "Remote watch peer differs from the fixed receiver binding")))
        (λ _. printed-GoodTurn (ready_line s.binding.peer) (listening true))

  on_event-GoodTurn :
      (parse_str : List ℕ → Option String) (ready : Bool) (e : Option Event) (t : Turn)
      → GoodTurn id s n (on_event parse_str ready e t s)
  unfolding on_event
  on_event-GoodTurn parse_str ready none t = quiet-GoodTurn (failed (code "invalid JSON"))
  on_event-GoodTurn parse_str false (some e) t = on_ready-GoodTurn e
  on_event-GoodTurn parse_str true (some e) t = on_message-GoodTurn parse_str e t

  pub turn-GoodTurn :
      (parse_str : List ℕ → Option String) (ready : Bool) (t : Turn)
      → GoodTurn id s n (turn parse_str ready t s)
  unfolding turn
  turn-GoodTurn parse_str ready t =
      if-GoodTurn (ltb 16384 t.line.bytes) _ _
        (quiet-GoodTurn (failed (code "Watch event too large")))
        (λ _.
          if-GoodTurn (nat_eq t.line.bytes 0 || not t.line.newline) _ _
            (quiet-GoodTurn reconnecting) (λ _. on_event-GoodTurn parse_str ready t.line.event t))
