-- ===== src/Db/Save.antt =====
-- The transaction of `Store::save` in src/store.rs, with the constraints of `messages` in
-- src/schema.rs.
pub mod Effect
pub mod Inbox
pub mod Again
use harness_talk.Prelude.{
  ℕ, String, String_eq, Option_eq, Bool, false, not, ◌&&◌, ◌||◌, Option, none, some, [], ◌∷◌, ◌++◌,
  ◌+◌, ◌==◌, if◌then◌else◌,
}
use harness_talk.Error.{Result, ok, err, db, constraint_violation, ◌>>=◌, ◌>>◌, refuse_if}
use harness_talk.Model.{not_submitted, Row, Message}
use harness_talk.Db.{
  Db, is_some, ok_or, find_peer, find_retired, find_message, find_reply, with_reply,
}
use harness_talk.Db.Write.{Write, commit}

-- What `Store::save` puts in its transaction, once its peers were found and its ID was made or
-- checked.
pub record Draft : Type 0 where
  pub id : String
  pub sender : String
  pub recipient : String
  pub in_reply_to : Option String
  pub body : String
  pub pull_only : Bool

abbrev pub new_row : Draft → ℕ → ℕ → Row
new_row draft seq now = record {
  seq = seq;
  id = draft.id;
  sender = draft.sender;
  recipient = draft.recipient;
  in_reply_to = draft.in_reply_to;
  body = draft.body;
  created_at = now;
  ack_at = none;
  submission = not_submitted;
  notification_started_at = none;
  notification_finished_at = none;
  notification_detail = if draft.pull_only then some "pull_only" else none;
  wait_returned_at = none;
}

-- INSERT INTO messages, with the table's constraints: the key, one answer to a request, and the
-- references to peers and to the request.
unfoldable pub insert_message : Draft → ℕ → Db → Result Db
insert_message draft now d =
    if is_some (find_message draft.id d)
      || not (is_some (find_peer draft.sender d))
      || not (is_some (find_peer draft.recipient d))
      || elim draft.in_reply_to [
        | none ↦ false
        | some request ↦ is_some (find_reply request d) || not (is_some (find_message request d))
      ]
    then err (db constraint_violation)
    else ok (record d {
      messages = d.messages ++ new_row draft (d.last_seq + 1) now ∷ [];
      last_seq = d.last_seq + 1;
    })

abbrev same_answer : Draft → Option Row → Result (Option Row)
same_answer draft none = ok none
same_answer draft (some existing) = do
  refuse_if (not (existing.body == draft.body)) "reply_conflict_existing_answer_preserved"
  ok (some existing)

-- A reply's request: it is there, is a request, and is addressed the other way round. An answer
-- that it has is kept, and given back where the new one says the same.
unfoldable pub check_request : Draft → Db → String → Result (Option Row)
check_request draft d request = do
  parent ← ok_or (find_message request d) "unknown_request"
  refuse_if (is_some parent.in_reply_to) "reply_requires_a_request"
  refuse_if (not (draft.sender == parent.recipient && draft.recipient == parent.sender))
      "reply_address_mismatch"
  same_answer draft (find_reply request d)

-- `in_reply_to.filter(|v| !v.is_empty())`
abbrev pub request_of : Draft → Option String
request_of draft = elim draft.in_reply_to [
  | none ↦ none
  | some request ↦ if request == "" then none else some request
]

unfoldable pub saved_answer : Draft → Db → Result (Option Row)
unfolding check_request
saved_answer draft d = elim (request_of draft) [
  | none ↦ ok none
  | some request ↦ check_request draft d request
]

abbrev pub same_content : Draft → Row → Bool
same_content draft m =
    m.sender == draft.sender
    && m.recipient == draft.recipient
    && m.body == draft.body
    && m.in_reply_to == draft.in_reply_to

-- A message with the ID is given back where it says the same.
unfoldable pub saved_message : Draft → Db → Result (Option Row)
saved_message draft d = elim (find_message draft.id d) [
  | none ↦ ok none
  | some existing ↦ do
    refuse_if (not (same_content draft existing)) "message_id_conflict"
    ok (some existing)
]

-- Retirement refuses new requests only.
abbrev refused_as_retired : Draft → Db → Bool
refused_as_retired draft d =
    not (is_some draft.in_reply_to)
    && (is_some (find_retired draft.sender d) || is_some (find_retired draft.recipient d))

unfoldable pub save_new : Draft → ℕ → Db → Result (Option Message × Db)
save_new draft now d = do
  refuse_if (refused_as_retired draft d) "peer_retired"
  d' ← insert_message draft now d
  ok (none, d')

-- Goes on where no message was found, and gives back one that was.
abbrev pub or_else :
    Db → Result (Option Row) → Result (Option Message × Db) → Result (Option Message × Db)
or_else d (ok none) next = next
or_else d (ok (some m)) next = ok (some (with_reply d m), d)
or_else d (err e) next = err e

-- The transaction of `Store::save`: the saved message that it found, or none where it inserted one.
unfoldable pub save_txn : Draft → ℕ → Write (Option Message)
save_txn draft now d =
    commit d
      (or_else d (saved_answer draft d) (or_else d (saved_message draft d) (save_new draft now d)))
