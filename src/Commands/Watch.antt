-- ===== src/Commands/Watch.antt =====
-- `watch` of src/commands/read.rs: the messages of the inbox, as they come.
--
-- A script that ends stands for an interrupt, or for a reader that is gone.
pub mod Ascending
use harness_talk.Prelude.{
  ℕ, ℤ, pos, String, Bool, false, Option, none, some, List, [], ◌∷◌, ◌++◌, get_last?,
}
use harness_talk.Error.{Error, Result, ok, err, code, ◌>>=◌, ◌>>◌}
use harness_talk.Model.{Message, Page}
use harness_talk.Validate
use harness_talk.Db.{Db, peer_on}
use harness_talk.Db.Page.{in_inbox, page_of}

-- What one poll meets: a busy database, a failure, or the tables as they are then.
pub data Poll : Type 0 where
  busy : Poll
  broken : Error → Poll
  tables : Db → Poll

-- `store.inbox(own, 100, after_seq)`
unfoldable pub poll_inbox : String → Option ℤ → Db → Result Page
poll_inbox own cursor db = do
  Validate.page (pos 100) cursor
  peer_on own db
  ok (page_of (in_inbox own db) false (pos 100) cursor db)

-- `after_seq` once the messages are printed.
abbrev pub advance : Option ℤ → List Message → Option ℤ
advance cursor [] = cursor
advance cursor (m ∷ ms) = advance (some (pos m.row.seq)) ms

-- The messages that are printed, in turn.
unfoldable pub watch : String → Option ℤ → List Poll → List Message
unfolding poll_inbox
watch own cursor [] = []
watch own cursor (busy ∷ polls) = watch own cursor polls
watch own cursor (broken e ∷ polls) = []
watch own cursor (tables db ∷ polls) = elim (poll_inbox own cursor db) [
  | ok page ↦ page.messages ++ watch own (advance cursor page.messages) polls
  | err e ↦ []
]

-- `page_parameters`. `parse_i64` is `str::parse` of an `i64`.
abbrev parsed : Option ℤ → String → Result ℤ
parsed none c = err (code c)
parsed (some n) c = ok n

abbrev parsed_cursor : (String → Option ℤ) → Option String → Result (Option ℤ)
parsed_cursor parse_i64 none = ok none
parsed_cursor parse_i64 (some s) = do
  n ← parsed (parse_i64 s) "seq_cursor_must_be_a_positive_integer"
  ok (some n)

unfoldable pub page_parameters :
    (String → Option ℤ) → String → Option String → Result (ℤ × Option ℤ)
page_parameters parse_i64 limit cursor = do
  n ← parsed (parse_i64 limit) "limit_must_be_between_1_and_500"
  c ← parsed_cursor parse_i64 cursor
  Validate.page n c
  ok (n, c)
