-- ===== src/Tests/Pages.antt =====
-- A mailbox with a question and its answer, read in pages of one.
use harness_talk.Prelude.{
  ◌≡◌, ◌≤◌, refl, String, String_eq, true, false, ◌&&◌, Option, none, some, List, [], ◌∷◌, arith,
  pos, length, count, select, map, ◌+◌,
}
use harness_talk.Error.{ok}
use harness_talk.Model.{Row, from_row, is_native, not_submitted}
use harness_talk.Db.{Db, find_message, find_reply, find_peer, find_retired, with_reply}
use harness_talk.Db.Txn.{Txn, apply}
use harness_talk.Db.Save.{Draft, save_txn, saved_answer, saved_message, save_new, insert_message}
use harness_talk.Db.Peers.{register_txn, register_new, insert_peer, has_session, fits_delivery}
use harness_talk.Db.Valid.{IsValid, empty, empty-IsValid}
use harness_talk.Db.Valid.Steps.{apply-IsValid}
use harness_talk.Db.Page.{in_inbox, is_sent, page_of, page_rows, beyond, start, in_order}
use harness_talk.Db.Page.Walk.{walk, next_page}
use harness_talk.Db.Page.Visits.{walk_shows_all, page_counts}
use harness_talk.Receiver.Check.{check_message}
use harness_talk.Receiver.Agrees.{check_message_agrees}
use harness_talk.Tests.Tables.{row_in}

abbrev draft : String → String → String → Option String → Draft
draft id sender recipient in_reply_to = record {
  id = id;
  sender = sender;
  recipient = recipient;
  in_reply_to = in_reply_to;
  body = "Is the build green?";
  pull_only = false;
}

abbrev pub steps : List Txn
steps =
    Txn.save (draft "m2" "bob" "alice" (some "m1")) 7
    ∷ Txn.save (draft "m3" "alice" "bob" none) 6
    ∷ Txn.save (draft "m1" "alice" "bob" none) 5
    ∷ Txn.register (row_in "bob" "s2")
    ∷ Txn.register (row_in "alice" "s1")
    ∷ []

abbrev pub after_steps : List Txn → Db
after_steps [] = empty
after_steps (t ∷ ts) = apply t (after_steps ts)

pub after_steps-IsValid : (ts : List Txn) → IsValid (after_steps ts)
after_steps-IsValid [] = empty-IsValid
after_steps-IsValid (t ∷ ts) = apply-IsValid t (after_steps ts) (after_steps-IsValid ts)

abbrev pub mailbox : Db
mailbox = after_steps steps

sent_in_pages :
    map (λ m. m.row.id) (walk (is_sent "alice" mailbox) true (pos 1) 3 none mailbox)
    ≡ "m3" ∷ "m1" ∷ []
unfolding walk next_page page_of page_rows is_sent find_message apply save_txn saved_answer
    saved_message save_new insert_message find_peer find_retired find_reply with_reply from_row
    register_txn register_new insert_peer has_session fits_delivery is_native
sent_in_pages = refl

last_seq_is : mailbox.last_seq ≡ 3
unfolding find_message apply save_txn saved_answer saved_message save_new insert_message find_peer
    find_retired find_reply with_reply from_row register_txn register_new insert_peer has_session
    fits_delivery is_native
last_seq_is = refl

length_is : length mailbox.messages ≡ 3
unfolding find_message apply save_txn saved_answer saved_message save_new insert_message find_peer
    find_retired find_reply with_reply from_row register_txn register_new insert_peer has_session
    fits_delivery is_native
length_is = refl

walk_shows_all_example :
    walk (is_sent "alice" mailbox) true (pos 1) 3 none mailbox
    ≡ map (with_reply mailbox) (in_order true (select (is_sent "alice" mailbox) mailbox.messages))
walk_shows_all_example =
    walk_shows_all (is_sent "alice" mailbox) true mailbox (pos 1) 3 (after_steps-IsValid steps)
      (rw last_seq_is (omega arith)) (omega arith) (rw length_is (omega arith))

page_counts_example :
    (length (page_of (is_sent "alice" mailbox) true (pos 1) none mailbox).messages ≤ 1)
    × (length (page_of (is_sent "alice" mailbox) true (pos 1) none mailbox).messages
          + (page_of (is_sent "alice" mailbox) true (pos 1) none mailbox).omitted
        ≡ count
            (λ m. is_sent "alice" mailbox m && beyond true (start true none) m)
            mailbox.messages)
page_counts_example =
    page_counts (is_sent "alice" mailbox) true mailbox (pos 1) none (after_steps-IsValid steps)
      (omega arith)

abbrev question : Row
question = record {
  seq = 1;
  id = "m1";
  sender = "alice";
  recipient = "bob";
  in_reply_to = none;
  body = "Is the build green?";
  created_at = 5;
  ack_at = none;
  submission = not_submitted;
  notification_started_at = none;
  notification_finished_at = none;
  notification_detail = none;
  wait_returned_at = none;
}

question_found : find_message question.id mailbox ≡ some question
unfolding find_message apply save_txn saved_answer saved_message save_new insert_message find_peer
    find_retired find_reply with_reply from_row register_txn register_new insert_peer has_session
    fits_delivery is_native
question_found = refl

check_message_agrees_example :
    check_message "bob" "m1" 1 (with_reply mailbox question)
    ≡ ok (some (in_inbox "bob" mailbox question))
check_message_agrees_example =
    check_message_agrees mailbox (after_steps-IsValid steps) question question_found (λ h. cc)
