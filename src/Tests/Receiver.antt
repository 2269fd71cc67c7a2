-- ===== src/Tests/Receiver.antt =====
-- The lives of a receiver: one that is stopped between the client's answer and its receipt, and one
-- that comes after it.
use harness_talk.Prelude.{ℤ, ℕ, ◌≡◌, ◌≤◌, refl, String_eq, true, false, none, some, [], ◌∷◌, count}
use harness_talk.Prelude.Text.{
  remove, remove_from, starts_with, trim, trim_start, byte_len, utf8_width, is_lowercase, is_digit,
}
use harness_talk.Error.{ok}
use harness_talk.Model.{submitted}
use harness_talk.Validate.{uuid, peer_name, bad_name, name_start, name_char}
use harness_talk.Receiver.{State, disk_after}
use harness_talk.Receiver.Stream.{
  Event, Line, Turn, turn, on_event, on_message, on_ready, valid_message, checked_message, checked,
  notified, settle, consume, connections,
}
use harness_talk.Receiver.Start.{
  Watch, Host, binding_of, start_from, start_fresh, start_saved, with_additions,
}
use harness_talk.Receiver.Lives.{
  Run, running, Cut, history, actions_until, actions_of, operated, started, is_attempt,
}
use harness_talk.Receiver.Once.{history-Once}
use harness_talk.Receiver.Final.{history_of_pending}
use harness_talk.Tests.Catalog.{parse_str, one_id}

abbrev host : Host
host = record {
  is_absolute = λ path. true;
  resolve = λ path. path;
  resolve_strict = λ path. ok path;
  is_dir = λ path. true;
  capture = λ path. ok (record {
    path = path;
    device = 1;
    inode = 2;
    changed_seconds = ℤ.pos 3;
    changed_nanos = ℤ.pos 4;
  });
}

abbrev watch : Watch
watch = record {
  peer = "bob";
  session = one_id;
  workspace = "/work";
  connector = "connect" ∷ [];
  mcp_command = none;
  codex_socket = none;
}

abbrev line : Event → Line
line e = record { bytes = 100; newline = true; event = some e }

abbrev ready_turn : Turn
ready_turn = record {
  line = line (record { event = some "ready"; peer = some "bob"; id = none; seq = none });
  response = record { structured_content = none; is_error = false };
  outcome = record { submission = submitted; detail = "" };
}

abbrev message_turn : Turn
message_turn = record {
  line = line (record { event = some "message"; peer = none; id = some one_id; seq = some 1 });
  response = record { structured_content = none; is_error = false };
  outcome = record { submission = submitted; detail = "codex_queued:q1" };
}

abbrev run : Run
run = record {
  host = host;
  watch = watch;
  others = false;
  ready = λ s. ok tt;
  script = (ready_turn ∷ message_turn ∷ message_turn ∷ []) ∷ [];
}

abbrev stopped_after : ℕ → Cut
stopped_after n = record { life = running run; kept = n }

-- The client took the message in the first life, which ends before its answer is saved.
one_attempt :
    count (is_attempt one_id) (history parse_str (stopped_after 4 ∷ stopped_after 9 ∷ []) none) ≡ 1
unfolding history actions_until actions_of operated started binding_of start_from start_fresh
    start_saved with_additions connections consume turn on_event on_message on_ready valid_message
    checked_message checked notified settle is_attempt disk_after uuid remove remove_from
    starts_with trim trim_start peer_name bad_name name_start name_char byte_len utf8_width
    is_lowercase is_digit
one_attempt = refl

history-Once_example :
    count (is_attempt one_id) (history parse_str (stopped_after 4 ∷ stopped_after 9 ∷ []) none) ≤ 1
history-Once_example = history-Once parse_str (stopped_after 4 ∷ stopped_after 9 ∷ []) one_id

abbrev interrupted : State
interrupted = record {
  version = 1;
  binding = record {
    peer = "bob";
    session = one_id;
    workspace = "/work";
    command = "connect" ∷ [];
    mcp_command = none;
    codex_socket = none;
  };
  pending = some one_id;
  receipts = [];
}

history_of_pending_example : history parse_str (stopped_after 9 ∷ []) (some interrupted) ≡ []
history_of_pending_example =
    history_of_pending one_id interrupted refl parse_str (stopped_after 9 ∷ [])
