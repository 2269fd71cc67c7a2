-- ===== src/Tests/Clients.antt =====
-- A notice and its removal over a connection, and a session that is recognized.
use harness_talk.Prelude.{
  ◌≡◌, refl, ℤ, pos, String, String_eq, Bool, true, false, Option, none, some, [], ◌∷◌, count, ◌==◌,
  int_eq, if◌then◌else◌,
}
use harness_talk.Prelude.Text.{remove, remove_from, starts_with, trim, trim_start, is_digit}
use harness_talk.Error.{ok}
use harness_talk.Model.{NativePeer, Row, submitted, from_row}
use harness_talk.Validate.{uuid}
use harness_talk.Codex.Json.{Json, object, text, integer, field, no_fields, get, as_str}
use harness_talk.Codex.Rpc.{Rpc, Frame, frame, same_id, answer_of, receive, call, call_after}
use harness_talk.Codex.Identity.{check_live, live_thread}
use harness_talk.Codex.Notify.{
  notify_socket, when_live, unless_skipped, submit, queued_receipt, sent_as,
}
use harness_talk.Codex.Sent.{notify_socket-adds, adds, method_is}
use harness_talk.Codex.Dismiss.{dismiss, queued_in}
use harness_talk.Codex.Removed.{dismiss-deletes, deletes}
use harness_talk.Codex.Receipts.{queued_in-receipt}
use harness_talk.Identity.{
  Host, Process, SessionFile, claude_session, recognized, by_variables, by_pid, by_process, by_file,
  by_ancestry, valid_variables, metadata_matches, ancestry, climb, inspect, looks_like_client,
}
use harness_talk.Identity.Sound.{claude_session-Known, Known}
use harness_talk.Tests.Catalog.{one_id, parse_str}

abbrev show : ℤ → String
show n = "1"

abbrev same_workspace : Option Json → String → Bool
same_workspace directory workspace = true

abbrev bob : NativePeer
bob = record {
  name = "bob";
  session_id = "s2";
  workspace = "/work";
  socket = some "/run/codex.sock";
  url = none;
  retired_at = none;
}

abbrev answer : ℤ → Json → Frame
answer id result = frame (object (field "id" (integer id) (field "result" result no_fields)))

abbrev thread : Json
thread = object (
    field "thread"
      (object (
        field "id" (text "s2")
          (field "status" (object (field "type" (text "idle") no_fields)) no_fields)))
      no_fields)

abbrev queued : Json
queued = object (field "clientUserMessageId" (text "m1") (field "id" (text "q7") no_fields))

abbrev receipt : Json
receipt = object (field "queuedSubmission" queued no_fields)

abbrev connection : Rpc
connection = record {
  counter = 0;
  closing = false;
  frames = answer (pos 1) thread ∷ answer (pos 9) thread ∷ answer (pos 2) receipt ∷ [];
  writes = [];
  sent = [];
}

notice_queued :
    (notify_socket show same_workspace bob "m1" "hello" (ok none) (ok connection)).outcome
    ≡ sent_as "codex_queued:q7"
unfolding notify_socket when_live check_live live_thread unless_skipped submit call call_after
    receive same_id answer_of queued_receipt
notice_queued = refl

notify_socket-adds_example :
    count
      (method_is "thread/queue/add")
      (notify_socket show same_workspace bob "m1" "hello" (ok none) (ok connection)).sent
    ≡ adds
        (notify_socket show same_workspace bob "m1" "hello"
          (ok none)
          (ok connection)).outcome.submission
notify_socket-adds_example =
    notify_socket-adds show same_workspace bob "m1" "hello" (ok none) connection refl refl

abbrev saved_row : Row
saved_row = record {
  seq = 1;
  id = "m1";
  sender = "alice";
  recipient = "bob";
  in_reply_to = none;
  body = "hello";
  created_at = 5;
  ack_at = some 9;
  submission = submitted;
  notification_started_at = some 6;
  notification_finished_at = some 7;
  notification_detail = some "codex_queued:q7";
  wait_returned_at = none;
}

dismiss-deletes_example :
    count
      (method_is "thread/queue/delete")
      (dismiss show same_workspace parse_str bob
        (from_row saved_row none)
        (ok connection)
        (ok tt)).sent
    ≡ deletes
        (dismiss show same_workspace parse_str bob
          (from_row saved_row none)
          (ok connection)
          (ok tt)).cleanup.status
dismiss-deletes_example =
    dismiss-deletes show same_workspace parse_str bob (from_row saved_row none) (ok connection)
      (ok tt) (refl, refl)

receipt_accepted : queued_receipt "m1" receipt ≡ ok (sent_as "codex_queued:q7")
unfolding queued_receipt
receipt_accepted = refl

queued_in-receipt_example : queued_in (some "/run/codex.sock") saved_row ≡ as_str (get "id" queued)
queued_in-receipt_example =
    queued_in-receipt "m1" "/run/codex.sock" receipt queued (sent_as "codex_queued:q7") saved_row
      receipt_accepted refl refl refl

abbrev process : ℤ → Option Process
process pid =
    if int_eq pid (pos 30)
    then some (record { comm = "bash"; parent = pos 20; started = "7" })
    else if int_eq pid (pos 20)
    then some (record { comm = "sh"; parent = pos 10; started = "6" })
    else if int_eq pid (pos 10)
    then some (record { comm = "claude"; parent = pos 1; started = "5" })
    else none

abbrev environment : String → Option String
environment name =
    if name == "CLAUDE_CODE_SESSION_ID"
    then some one_id
    else if name == "CLAUDE_PID"
    then some "10"
    else none

abbrev host : Host
host = record {
  env = environment;
  table = record { process = process; exe = λ pid. some "bash" };
  session_file = λ pid. SessionFile.object (record {
    session_id = some one_id;
    pid = some (pos 10);
    proc_start = some "5";
    cwd = some "/work";
  });
  parse_pid = λ s. some (pos 10);
  parse_uuid = parse_str;
}

is_recognized : claude_session host (pos 30) ≡ recognized one_id (some "/work")
unfolding claude_session by_variables by_pid by_process by_file by_ancestry valid_variables
    metadata_matches ancestry climb inspect looks_like_client uuid remove remove_from starts_with
    trim trim_start is_digit
is_recognized = refl

claude_session-Known_example : Known host (pos 30) one_id (some "/work")
claude_session-Known_example =
    claude_session-Known host (pos 30) one_id (some "/work") is_recognized
