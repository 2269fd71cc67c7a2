-- ===== src/Catalog/Mailbox.antt =====
-- src/catalog/mailbox.rs: the catalog's own reads of a mailbox. `opened` is the mailbox in the
-- state of its read transaction, or why it could not be opened.
use harness_talk.Prelude.{
  ℕ, String, String_eq, Bool, ◌&&◌, Option, some, List, [], ◌∷◌, ◌==◌, ℤ, any, if◌then◌else◌,
}
use harness_talk.Error.{Result, ok, ◌>>=◌, ◌>>◌}
use harness_talk.Model.{Peer, Row, Message, Page}
use harness_talk.Validate
use harness_talk.Db.{Db, peer_on, load_row, with_reply}
use harness_talk.Db.Page.{in_inbox, is_sent, page_of}

abbrev onto_peers : Result Peer → Result (List Peer) → Result (List Peer)
onto_peers p rest = do row ← p; rows ← rest; ok (row ∷ rows)

unfoldable pub peers_on : Db → List String → Result (List Peer)
unfolding peer_on
peers_on db [] = ok []
peers_on db (name ∷ names) = onto_peers (peer_on name db) (peers_on db names)

-- `mailbox::peers`
unfoldable pub peers : Result Db → List String → Result (List Peer)
peers opened names = do db ← opened; peers_on db names

-- `mailbox::message`
unfoldable pub message : (List ℕ → Option String) → Result Db → String → String → Result Message
message parse_str opened id actor = do
  db ← opened
  canonical ← Validate.uuid parse_str id
  row ← load_row canonical (some actor) db
  ok (with_reply db row)

-- Whether the other end of the actor's message is one of the names.
abbrev pub between : String → List String → Row → Bool
between actor names m = any (λ n. n == (if m.sender == actor then m.recipient else m.sender)) names

-- `mailbox::page`, with full bodies.
unfoldable pub page : Result Db → String → List String → Bool → ℤ → Option ℤ → Result Page
unfolding page_of
page opened actor names sent limit cursor = do
  Validate.page limit cursor
  db ← opened
  peer_on actor db
  ok (
      page_of
        (λ m. (if sent then is_sent actor db m else in_inbox actor db m) && between actor names m)
        sent limit cursor db)
