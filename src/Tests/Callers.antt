-- ===== src/Tests/Callers.antt =====
-- The caller of a command, and a watch, on the mailbox of Tests/Pages.
use harness_talk.Prelude.{◌≡◌, refl, String_eq, none, some, [], ◌∷◌}
use harness_talk.Error.{ok}
use harness_talk.Model.{is_native}
use harness_talk.Identity.{recognized}
use harness_talk.Db.{find_retired, joined}
use harness_talk.Store.Peers.{session_peer_on}
use harness_talk.Commands.Caller.{Caller, Chosen, native_session, session, choose_from, by_session}
use harness_talk.Commands.Caller.Settled.{session-Settled, Settled}
use harness_talk.Commands.Watch.{busy, tables, watch}
use harness_talk.Commands.Watch.Ascending.{watch-Ascends, Ascends}
use harness_talk.Tests.Pages.{mailbox, steps, after_steps-IsValid}
use harness_talk.Db.{Db, PeerRow}
use harness_talk.Model.{native}

abbrev claude_row : PeerRow
claude_row = record {
  name = "carol";
  harness = "claude";
  session_id = some "s9";
  workspace = some "/work";
  socket = none;
  url = none;
  delivery = native;
}

abbrev db : Db
db = record { peers = claude_row ∷ []; retired = []; messages = []; last_seq = 0; waits = [] }

abbrev caller : Caller
caller = record {
  actor = none;
  htalk_peer = some "";
  codex_thread = none;
  native = recognized "s9" (some "/work");
}

abbrev chosen : Chosen
chosen = record { actor = "carol"; own = joined db claude_row; source = native_session }

is_chosen : session caller db ≡ ok chosen
unfolding session choose_from by_session session_peer_on is_native joined find_retired
is_chosen = refl

session-Settled_example : Settled caller db chosen
session-Settled_example = session-Settled caller db chosen is_chosen

watch-Ascends_example : Ascends 0 (watch "bob" none (busy ∷ tables mailbox ∷ tables mailbox ∷ []))
watch-Ascends_example =
    watch-Ascends "bob" (busy ∷ tables mailbox ∷ tables mailbox ∷ [])
      (after_steps-IsValid steps, (after_steps-IsValid steps, tt))
