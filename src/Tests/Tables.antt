-- ===== src/Tests/Tables.antt =====
-- The tables of a mailbox with two peers, and what the transactions and the notices do with them.
use harness_talk.Prelude.{
  eq_iff, String, String_eq, true, false, ◌≡◌, ◌↔◌, ◌⊎◌, refl, none, some, [], ◌∷◌, arith,
}
use harness_talk.Error.{ok}
use harness_talk.Model.{
  Peer, native, NativePeer, Row, submitted, removed, cleanup_detail, is_native,
}
use harness_talk.Db.{
  PeerRow, Db, joined, find_reply, find_message, find_peer, find_retired, with_reply,
}
use harness_talk.Db.Peers.{fits_delivery, register_txn, register_new, insert_peer, has_session}
use harness_talk.Db.Peers.Effect.{with_peer, Registers, register_txn_cases}
use harness_talk.Db.Peers.Again.{register_again_keeps}
use harness_talk.Db.Save.{
  Draft, same_content, save_txn, saved_answer, saved_message, save_new, insert_message,
  check_request, new_row,
}
use harness_talk.Db.Save.Effect.{with_new, Inserts, save_txn_cases}
use harness_talk.Db.Save.Again.{save_again}
use harness_talk.Db.Save.Inbox.{in_inbox-save_txn}
use harness_talk.Db.Page.{in_inbox}
use harness_talk.Db.History.{Extends-refl}
use harness_talk.Harness.{Harness, codex, from_str, as_str, Adapter}
use harness_talk.Notice.{native_address}
use harness_talk.Notice.Reach.{harness_words, native_address_found}

abbrev pub row_in : String → String → PeerRow
row_in name session = record {
  name = name;
  harness = "codex";
  session_id = some session;
  workspace = some "/work";
  socket = none;
  url = none;
  delivery = native;
}

abbrev pub two_peers : Db
two_peers = record {
  peers = row_in "alice" "s1" ∷ row_in "bob" "s2" ∷ [];
  retired = [];
  messages = [];
  last_seq = 0;
  waits = [];
}

abbrev pub question : Draft
question = record {
  id = "m1";
  sender = "alice";
  recipient = "bob";
  in_reply_to = none;
  body = "Is the build green?";
  pull_only = false;
}

question_saved : (save_txn question 5 two_peers).0 ≡ ok none
unfolding save_txn saved_answer saved_message save_new insert_message find_message find_peer
    find_retired
question_saved = refl

abbrev pub asked : Db
asked = (save_txn question 5 two_peers).1

save_again_example :
    (m : Row) × (save_txn question 9 asked ≡ (ok (some (with_reply asked m)), asked))
    × (find_message "m1" asked ≡ some m)
    × (same_content question m ≡ true)
save_again_example =
    save_again question 5 9 two_peers asked refl question_saved (Extends-refl asked)

save_txn_cases_example :
    ((save_txn question 5 two_peers).1 ≡ two_peers)
    ⊎ (((save_txn question 5 two_peers).1 ≡ with_new question 5 two_peers)
        × Inserts question two_peers)
save_txn_cases_example = save_txn_cases question 5 two_peers

abbrev carol : PeerRow
carol = row_in "carol" "s3"

carol_registered : (register_txn carol two_peers).0 ≡ ok tt
unfolding register_txn register_new insert_peer find_peer has_session fits_delivery is_native
carol_registered = refl

abbrev three_peers : Db
three_peers = (register_txn carol two_peers).1

register_again_keeps_example : register_txn carol three_peers ≡ (ok tt, three_peers)
register_again_keeps_example =
    register_again_keeps carol two_peers three_peers carol_registered (Extends-refl three_peers)

register_txn_cases_example :
    ((register_txn carol two_peers).1 ≡ two_peers)
    ⊎ (((register_txn carol two_peers).1 ≡ with_peer carol two_peers) × Registers carol two_peers)
register_txn_cases_example = register_txn_cases carol two_peers

harness_words_example : (from_str "Codex" ≡ ok codex) ↔ ("Codex" ≡ as_str codex)
harness_words_example = harness_words "Codex" codex

alice_fits : fits_delivery (row_in "alice" "s1") ≡ true
unfolding fits_delivery is_native
alice_fits = refl

codex_known : from_str "codex" ≡ ok codex
unfolding from_str as_str
codex_known = refl

native_address_found_example :
    (a : NativePeer) × (native_address (joined two_peers (row_in "alice" "s1")) ≡ ok (codex, a))
    × (a.name ≡ "alice")
    × (some "s1" ≡ some a.session_id)
    × (some "/work" ≡ some a.workspace)
native_address_found_example =
    native_address_found two_peers (row_in "alice" "s1") codex alice_fits refl codex_known

abbrev adapter : Harness → Adapter
adapter h = record {
  address = λ session workspace socket url.
      ok (record { session_id = session; workspace = workspace; socket = socket; url = url });
  notify = λ p m body skip w. (record { submission = submitted; detail = "queued" }, w);
  dismiss = λ p m w. (cleanup_detail removed "queue", w);
}

abbrev dave : Peer
dave = record {
  name = "dave";
  harness = "claude";
  session_id = some "s4";
  workspace = some "/work";
  socket = none;
  url = none;
  retired_at = none;
  delivery = native;
}

abbrev reply_draft : Draft
reply_draft = record {
  id = "m2";
  sender = "bob";
  recipient = "alice";
  in_reply_to = some "m1";
  body = "Yes.";
  pull_only = false;
}

reply_saved : (save_txn reply_draft 9 asked).0 ≡ ok none
unfolding save_txn saved_answer saved_message save_new insert_message find_message find_peer
    find_retired check_request find_reply
reply_saved = refl

in_inbox-save_txn_example :
    in_inbox "bob" (save_txn reply_draft 9 asked).1 (new_row question 1 5) ≡ false
in_inbox-save_txn_example =
    in_inbox-save_txn reply_draft 9 asked none (new_row question 1 5) "bob" reply_saved refl
      (λ e. absurd (ground (arith, (eq_iff "m1" "").1 e))) refl
