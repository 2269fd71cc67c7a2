-- ===== src/Receiver/Stream.antt =====
-- The loops of `operate` in src/adapters/codex/receive.rs, over what the stream and the clients say.
--
-- A script that ends stands for a stop request, or for the end of the process.
use harness_talk.Prelude.{
  ℕ, ◌*◌, min, String, String_eq, Bool, true, false, not, ◌||◌, Option, none, some, List, [], ◌∷◌,
  ◌++◌, ◌==◌, ltb, nat_eq, if◌then◌else◌,
}
use harness_talk.Error.{Error, Result, Checked, ok, err, code, ◌>>=◌, ◌>>◌, refuse_if}
use harness_talk.Model.{Submission, not_submitted, submission_unknown, submitted, Outcome}
use harness_talk.Validate
use harness_talk.Db.{is_some}
use harness_talk.Receiver.{
  State, Receipt, contains_key, insert, Action, wrote, submitted_to, emitted, ready_line,
  skipped_line, check_unavailable, notified_line, disconnected,
}
use harness_talk.Receiver.Check.{Response, needs_notification}

-- A JSON value of the stream, by the fields that are read; a field of another type is null.
pub record Event : Type 0 where
  pub event : Option String
  pub peer : Option String
  pub id : Option String
  pub seq : Option ℕ

-- What one `read_line` of at most 16385 bytes answers. `event` is null where it is not JSON.
pub record Line : Type 0 where
  pub bytes : ℕ
  pub newline : Bool
  pub event : Option Event

-- One round of the inner loop: the line, and what the mailbox and the client would answer.
pub record Turn : Type 0 where
  pub line : Line
  pub response : Response
  pub outcome : Outcome

pub data Next : Type 0 where
  listening : Bool → Next
  reconnecting : Next
  failed : Error → Next

pub record Turned : Type 0 where
  pub actions : List Action
  pub state : State
  pub next : Next

abbrev pub quiet : State → Next → Turned
quiet s next = record { actions = []; state = s; next = next }

abbrev pub with_pending : Option String → State → State
with_pending p s = record {
  version = s.version;
  binding = s.binding;
  pending = p;
  receipts = s.receipts;
}

abbrev pub with_receipt : Receipt → State → State
with_receipt r s = record {
  version = s.version;
  binding = s.binding;
  pending = none;
  receipts = insert r s.receipts;
}

unfoldable pub settle : String → String → Submission → State → State
settle id detail submitted s = with_receipt (record { id = id; detail = detail }) s
settle id detail not_submitted s = with_pending none s
settle id detail submission_unknown s = s

abbrev pub goes_on : Submission → Next
goes_on submitted = listening true
goes_on _ =
    failed (code "Native notification not confirmed; inspect state before restarting receiver")

-- The intent is saved before the client is called, and its outcome after.
unfoldable pub notified : String → Outcome → State → Turned
unfolding settle
notified id outcome s =
    let intent = with_pending (some id) s in
    let after = settle id outcome.detail outcome.submission intent in
    record {
      actions =
          wrote intent
          ∷ submitted_to id outcome.submission
          ∷ wrote after
          ∷ emitted (notified_line id outcome.submission outcome.detail)
          ∷ [];
      state = after;
      next = goes_on outcome.submission;
    }

unfoldable pub after_check : String → Outcome → State → Result (Option Bool) → Turned
unfolding notified
after_check id outcome s (err e) = quiet s (failed e)
after_check id outcome s (ok none) = record {
  actions = emitted (check_unavailable id) ∷ [];
  state = s;
  next = reconnecting;
}
after_check id outcome s (ok (some true)) = notified id outcome s
after_check id outcome s (ok (some false)) = record {
  actions = emitted (skipped_line id) ∷ [];
  state = s;
  next = listening true;
}

-- The mailbox is asked where the binding has a checker.
unfoldable pub checked : String → ℕ → Turn → State → Turned
unfolding notified after_check needs_notification
checked id seq t s = elim s.binding.mcp_command [
  | none ↦ notified id t.outcome s
  | some command ↦ after_check id t.outcome s (needs_notification s.binding.peer id seq t.response)
]

abbrev pub known_sequence : Option ℕ → ℕ
known_sequence none = 0
known_sequence (some n) = n

abbrev pub text_eq : Option String → String → Bool
text_eq none s = false
text_eq (some t) s = t == s

-- The conditions on a message event, as they stand in the source.
unfoldable pub valid_message : (List ℕ → Option String) → String → Event → Checked
unfolding Validate.uuid
valid_message parse_str id e = do
  refuse_if (not (text_eq e.event "message") || not (is_some e.seq)) "Invalid watch message"
  canonical ← Validate.uuid parse_str id
  refuse_if (not (canonical == id)) "Invalid watch message"

unfoldable pub checked_message : Checked → String → ℕ → Turn → State → Turned
unfolding checked
checked_message (err e) id seq t s = quiet s (failed e)
checked_message (ok _) id seq t s =
    if contains_key id s.receipts then quiet s (listening true) else checked id seq t s

unfoldable pub on_message : (List ℕ → Option String) → Event → Turn → State → Turned
unfolding valid_message checked_message
on_message parse_str e t s = elim e.id [
  | none ↦ quiet s (failed (code "Watch message ID missing"))
  | some id ↦ checked_message (valid_message parse_str id e) id (known_sequence e.seq) t s
]

unfoldable pub on_ready : Event → State → Turned
on_ready e s =
    if not (text_eq e.event "ready") || not (text_eq e.peer s.binding.peer)
    then quiet s (failed (code "Remote watch peer differs from the fixed receiver binding"))
    else record {
      actions = emitted (ready_line s.binding.peer) ∷ [];
      state = s;
      next = listening true;
    }

unfoldable pub on_event : (List ℕ → Option String) → Bool → Option Event → Turn → State → Turned
unfolding on_message on_ready
on_event parse_str ready none t s = quiet s (failed (code "invalid JSON"))
on_event parse_str false (some e) t s = on_ready e s
on_event parse_str true (some e) t s = on_message parse_str e t s

-- One round of the inner loop.
unfoldable pub turn : (List ℕ → Option String) → Bool → Turn → State → Turned
unfolding on_event
turn parse_str ready t s =
    if ltb 16384 t.line.bytes
    then quiet s (failed (code "Watch event too large"))
    else if nat_eq t.line.bytes 0 || not t.line.newline
    then quiet s reconnecting
    else on_event parse_str ready t.line.event t s

pub data Ended : Type 0 where
  stopped dropped : Ended
  ended : Error → Ended

pub record Ran : Type 0 where
  pub actions : List Action
  pub state : State
  pub result : Ended

abbrev pub then_ran : List Action → Ran → Ran
then_ran before r = record { actions = before ++ r.actions; state = r.state; result = r.result }

-- The inner loop, over one connection.
unfoldable pub consume : (List ℕ → Option String) → Bool → State → List Turn → Ran
unfolding turn
consume parse_str ready s [] = record { actions = []; state = s; result = stopped }
consume parse_str ready s (t ∷ ts) =
    let r = turn parse_str ready t s in
    elim r.next [
      | listening b ↦ then_ran r.actions (consume parse_str b r.state ts)
      | reconnecting ↦ record { actions = r.actions; state = r.state; result = dropped }
      | failed e ↦ record { actions = r.actions; state = r.state; result = ended e }
    ]

abbrev pub next_delay : ℕ → ℕ
next_delay delay = min (delay * 2) 30

-- The outer loop, over the connections.
unfoldable pub connections : (List ℕ → Option String) → ℕ → State → List (List Turn) → List Action
unfolding consume
connections parse_str delay s [] = []
connections parse_str delay s (c ∷ cs) =
    let r = consume parse_str false s c in
    elim r.result [
      | dropped ↦
          r.actions
          ++ emitted (disconnected delay) ∷ connections parse_str (next_delay delay) r.state cs
      | _ ↦ r.actions
    ]
