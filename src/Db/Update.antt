-- ===== src/Db/Update.antt =====
-- The statements of src/store.rs that mark a message or keep the waits.
use harness_talk.Prelude.{
  ℕ, String, String_eq, Option_eq, Bool, not, ◌&&◌, ◌||◌, Option, none, some, [], ◌∷◌, ◌++◌, ◌+◌,
  ◌==◌, ltb, any, select, count, update_where, if◌then◌else◌,
}
use harness_talk.Error.{ok, err, db, constraint_violation}
use harness_talk.Model.{submission_unknown, is_native, Row, Outcome}
use harness_talk.Db.{Wait, Db, is_some, find_message}
use harness_talk.Db.Write.{Write}

-- `notify_once` claims the one notification attempt of a message. It answers how many rows changed.
unfoldable pub claimable : String → Db → Row → Bool
claimable id d m =
    m.id == id
    && not (is_some m.notification_started_at)
    && not (is_some m.ack_at)
    && any (λ p. p.name == m.recipient && is_native p.delivery) d.peers

abbrev pub claimed : ℕ → Row → Row
claimed now m = record m { submission = submission_unknown; notification_started_at = some now }

unfoldable pub claim : String → ℕ → Write ℕ
unfolding claimable is_native
claim id now d = (
  ok (count (claimable id d) d.messages),
  record d { messages = update_where (claimable id d) (claimed now) d.messages },
)

abbrev pub finished : Outcome → ℕ → Row → Row
finished outcome now m = record m {
  submission = outcome.submission;
  notification_detail = some outcome.detail;
  notification_finished_at = some now;
}

-- `notify_once` saves what became of the attempt.
unfoldable pub finish : String → Outcome → ℕ → Write (Unit {0})
finish id outcome now d = (
  ok tt,
  record d { messages = update_where (λ m. m.id == id) (finished outcome now) d.messages },
)

-- COALESCE(column, now)
abbrev pub coalesce : Option ℕ → ℕ → Option ℕ
coalesce none now = some now
coalesce (some t) now = some t

abbrev pub acked : ℕ → Row → Row
acked now m = record m { ack_at = coalesce m.ack_at now }

abbrev pub returned : ℕ → Row → Row
returned now m = record m { wait_returned_at = coalesce m.wait_returned_at now }

abbrev pub addressed : String → String → Row → Bool
addressed id actor m = m.id == id && m.recipient == actor

-- The update of `Store::ack`. It answers how many rows changed.
unfoldable pub set_ack : String → String → ℕ → Write ℕ
set_ack id actor now d = (
  ok (count (addressed id actor) d.messages),
  record d { messages = update_where (addressed id actor) (acked now) d.messages },
)

-- The update of `return_wait_answer`.
unfoldable pub set_returned : String → String → ℕ → Write (Unit {0})
set_returned id actor now d =
    (ok tt, record d { messages = update_where (addressed id actor) (returned now) d.messages })

-- The transaction in which `wait` registers its poll: rows a minute past their end are dropped.
unfoldable pub add_wait : Wait → ℕ → Write (Unit {0})
unfolding find_message
add_wait w now d =
    let kept = select (λ x. not (ltb (x.until + 60000) now)) d.waits in
    if any (λ x. x.token == w.token) kept || not (is_some (find_message w.message_id d))
    then (err (db constraint_violation), d)
    else (ok tt, record d { waits = kept ++ w ∷ [] })

-- What `Registration` does when it is dropped.
unfoldable pub drop_wait : String → Write (Unit {0})
drop_wait token d = (ok tt, record d { waits = select (λ x. not (x.token == token)) d.waits })
