-- ===== src/Tests.antt =====
-- A mailbox with two peers, and the commands of a conversation between them.
pub mod Tables
pub mod Catalog
pub mod Upgrade
pub mod Pages
pub mod Receiver
pub mod Clients
pub mod Browse
pub mod Endpoint
pub mod Callers
use harness_talk.Prelude.{
  ℕ, String, String_eq, true, false, ◌≡◌, refl, Option, none, some, List, [], ◌∷◌, arith, nat_eq,
  if◌then◌else◌,
}
use harness_talk.Prelude.{◌≢◌, ◌≤◌, ◌↔◌, length, all}
use harness_talk.Prelude.Text.{codes, byte_len, trim, trim_start, utf8_width}
use harness_talk.Error.{ok, err}
use harness_talk.Model.Words.{
  submission_as_str, submission_from_str, submission_words, skip_reason_as_str, parse_skip_reason,
  skip_reason_words, delivery_as_str, delivery_from_str, delivery_words,
}
use harness_talk.Validate.{text, bad_text, is_space, is_whitespace, preview}
use harness_talk.Validate.Bodies.{in_line, text_accepts, preview_of_text}
use harness_talk.Model.{
  Peer, native, Message, submitted, Outcome, Cleanup, removed, cleanup_detail, recipient_retired,
}
use harness_talk.Validate.{ms}
use harness_talk.Db.History.{Extends}
use harness_talk.Db.Valid.{IsValid, empty, empty-IsValid}
use harness_talk.Proc.{World, Turn, tick, other}
use harness_talk.Db.Txn
use harness_talk.Proc.Runs.{Moves-refl}
use harness_talk.Store.{Client}
use harness_talk.Store.Steps.{IsClient}
use harness_talk.Store.Notify.Once.{CalledOnce}
use harness_talk.Store.Ends.{wait_ends}
use harness_talk.Store.Ends.Notify.{notify_once_ends}
use harness_talk.Store.Notify.{out_of_fuel, notify_once}
use harness_talk.Store.Wait.{wait}
use harness_talk.Store.Session.{Command, add_peer, send, notify_of, acknowledge, wait_for, run_all}
use harness_talk.Store.Session.Invariants.{run_all-IsValid, run_all-Extends, run_all-CalledOnce}

abbrev parsed : List ℕ → Option String
parsed s = some "0d5f4c1e-0000-4000-8000-000000000001"

abbrev pub peer_in : String → String → Peer
peer_in name session = record {
  name = name;
  harness = "codex";
  session_id = some session;
  workspace = some "/work";
  socket = none;
  url = none;
  retired_at = none;
  delivery = native;
}

-- Another process acknowledges the message while the notifier is at work.
abbrev future : ℕ → Turn
future n = record {
  before = tick 1 ∷ (if nat_eq n 16 then other (Txn.ack "m1" "bob" 7) ∷ [] else []);
  fault = none;
}

abbrev pub start : World
start = record {
  mailbox = empty;
  clock = 0;
  stop = false;
  turn = 0;
  future = future;
  drawn = 0;
  fresh = λ n. "m1";
  calls = [];
}

abbrev notify : Peer → Message → Client Outcome
notify p m w = (record { submission = submitted; detail = "queued" }, w)

abbrev dismiss : Peer → Message → Client Cleanup
dismiss p m w = (cleanup_detail removed "queue", w)

notify-IsClient : IsClient notify
notify-IsClient p m w = Moves-refl w

dismiss-IsClient : IsClient dismiss
dismiss-IsClient p m w = Moves-refl w

abbrev conversation : List Command
conversation =
    add_peer (peer_in "alice" "s1")
    ∷ add_peer (peer_in "bob" "s2")
    ∷ send "alice" "bob" "Is the build green?" none none
    ∷ notify_of "m1"
    ∷ notify_of "m1"
    ∷ acknowledge "m1" "bob"
    ∷ send "bob" "alice" "Yes." (some "m2") (some "m1")
    ∷ wait_for "m1" "alice" (ms 1000)
    ∷ []

abbrev after : World
after = run_all parsed notify dismiss conversation start

start-CalledOnce : CalledOnce start
start-CalledOnce id = omega arith

run_all-IsValid_example : IsValid after.mailbox
run_all-IsValid_example =
    run_all-IsValid parsed notify dismiss notify-IsClient dismiss-IsClient conversation start
      empty-IsValid

run_all-Extends_example : Extends start.mailbox after.mailbox
run_all-Extends_example =
    run_all-Extends parsed notify dismiss notify-IsClient dismiss-IsClient conversation start

run_all-CalledOnce_example : CalledOnce after
run_all-CalledOnce_example =
    run_all-CalledOnce parsed notify dismiss notify-IsClient dismiss-IsClient conversation start
      empty-IsValid start-CalledOnce

wait_ends_example : (wait "m1" "alice" (ms 1000) after).0 ≢ err out_of_fuel
wait_ends_example = wait_ends "m1" "alice" (ms 1000) after

notify_once_ends_example : (notify_once "m1" notify dismiss after).0 ≢ err out_of_fuel
notify_once_ends_example =
    notify_once_ends notify dismiss notify-IsClient dismiss-IsClient "m1" after

text_example : text "Is the build green?" ≡ ok tt
unfolding text bad_text trim trim_start is_space is_whitespace byte_len utf8_width
text_example = refl

preview_of_text_example :
    (preview (codes "Is the build green?") ≢ [])
    × (length (preview (codes "Is the build green?")) ≤ 120)
    × (all in_line (preview (codes "Is the build green?")) ≡ true)
preview_of_text_example = preview_of_text "Is the build green?" text_example

text_accepts_example :
    (text " \n" ≡ ok tt) ↔ ((all is_space (codes " \n") ≡ false) × (byte_len (codes " \n") ≤ 32000))
text_accepts_example = text_accepts " \n"

skip_reason_words_example :
    (parse_skip_reason "pull_only" ≡ some recipient_retired)
    ↔ ("pull_only" ≡ skip_reason_as_str recipient_retired)
skip_reason_words_example = skip_reason_words "pull_only" recipient_retired

submission_words_example :
    (submission_from_str "sent" ≡ ok submitted) ↔ ("sent" ≡ submission_as_str submitted)
submission_words_example = submission_words "sent" submitted

delivery_words_example :
    (delivery_from_str "native" ≡ ok native) ↔ ("native" ≡ delivery_as_str native)
delivery_words_example = delivery_words "native" native
