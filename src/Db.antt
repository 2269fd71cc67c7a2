-- ===== src/Db.antt =====
-- The mailbox's tables (src/schema.rs) and what src/store.rs reads from one state of them.
--
-- A table is the list of its rows. `messages` stands in the order of `seq`, its rowid. A query
-- is a function of the tables; the SQL that it renders stands in the source at the lines named.
pub mod Page
pub mod Write
pub mod Peers
pub mod Save
pub mod Update
pub mod Txn
pub mod History
pub mod Valid
pub mod Claim
use harness_talk.Prelude.{
  ℕ, String, String_eq, Bool, true, false, not, ◌&&◌, ◌||◌, Option, none, some, List, [], ◌∷◌, ◌==◌,
  find?, any, select, max, if◌then◌else◌,
}
use harness_talk.Error.{Result, ok, err, code, ◌>>=◌, ◌>>◌, refuse_if}
use harness_talk.Model.{
  SkipReason, acknowledged_before_notification, returned_by_recipient_wait, recipient_retired,
  Delivery, Peer, Row, Message, from_row,
}

-- A row of `peers`; a retirement is in a table of its own.
pub record PeerRow : Type 0 where
  pub name : String
  pub harness : String
  pub session_id : Option String
  pub workspace : Option String
  pub socket : Option String
  pub url : Option String
  pub delivery : Delivery

pub record Retired : Type 0 where
  pub name : String
  pub retired_at : ℕ

pub record Wait : Type 0 where
  pub token : String
  pub message_id : String
  pub actor : String
  pub until : ℕ

-- `last_seq` is AUTOINCREMENT's memory of the largest `seq` ever given.
pub record Db : Type 0 where
  pub peers : List PeerRow
  pub retired : List Retired
  pub messages : List Row
  pub last_seq : ℕ
  pub waits : List Wait

-- `column=?` on a column that may be null, which equals nothing.
abbrev pub column_eq : String → Option String → Bool
column_eq s none = false
column_eq s (some t) = t == s

abbrev pub is_some {ℓ} : {A : Type ℓ} → Option A → Bool
is_some none = false
is_some (some a) = true

unfoldable pub find_peer : String → Db → Option PeerRow
find_peer name db = find? (λ p. p.name == name) db.peers

unfoldable pub find_retired : String → Db → Option Retired
find_retired name db = find? (λ r. r.name == name) db.retired

unfoldable pub find_message : String → Db → Option Row
find_message id db = find? (λ m. m.id == id) db.messages

-- SELECT * FROM messages WHERE in_reply_to=?
unfoldable pub find_reply : String → Db → Option Row
find_reply id db = find? (λ m. column_eq id m.in_reply_to) db.messages

abbrev time_of : Option Retired → Option ℕ
time_of none = none
time_of (some r) = some r.retired_at

-- `PEER_ROWS`: the peer's row with its retirement, which is null for an active peer.
unfoldable pub joined : Db → PeerRow → Peer
unfolding find_retired
joined db p = record {
  name = p.name;
  harness = p.harness;
  session_id = p.session_id;
  workspace = p.workspace;
  socket = p.socket;
  url = p.url;
  retired_at = time_of (find_retired p.name db);
  delivery = p.delivery;
}

abbrev pub ok_or {ℓ} : {A : Type ℓ} → Option A → String → Result A
ok_or none c = err (code c)
ok_or (some a) c = ok a

unfoldable pub peer_on : String → Db → Result Peer
unfolding find_peer joined
peer_on name db = do p ← ok_or (find_peer name db) "unknown_peer"; ok (joined db p)

unfoldable pub with_reply : Db → Row → Message
unfolding find_reply from_row
with_reply db row = from_row row (find_reply row.id db)

-- Whether the caller named is neither end of the message.
abbrev pub stranger : Option String → Row → Bool
stranger none row = false
stranger (some a) row = not (a == row.sender) && not (a == row.recipient)

-- The first query of `load`, with the check of who asks.
unfoldable pub load_row : String → Option String → Db → Result Row
unfolding find_message
load_row id actor db = do
  row ← ok_or (find_message id db) "unknown_message"
  refuse_if (stranger actor row) "message_not_addressed_to_peer"
  ok row

-- The first query of `skip_reason`.
unfoldable pub skip_by_message : String → String → Db → Result (Option SkipReason)
skip_by_message id recipient db = do
  row ←
      ok_or (find? (λ m. m.id == id && m.recipient == recipient) db.messages)
        "notification_message_not_found"
  ok (
      if is_some row.ack_at
      then some acknowledged_before_notification
      else if is_some row.in_reply_to && is_some row.wait_returned_at
      then some returned_by_recipient_wait
      else none)

-- The second query of `skip_reason`.
unfoldable pub skip_by_peer : String → Db → Option SkipReason
unfolding find_retired
skip_by_peer recipient db =
    if is_some (find_retired recipient db) then some recipient_retired else none

-- `skip_reason`, both queries in one state.
unfoldable pub skip_reason_of : String → String → Db → Result (Option SkipReason)
unfolding skip_by_message skip_by_peer
skip_reason_of id recipient db = do
  reason ← skip_by_message id recipient db
  ok (if is_some reason then reason else skip_by_peer recipient db)

-- SELECT MAX(w.until), where null is the maximum of no row.
abbrev latest : List Wait → Option ℕ
latest [] = none
latest (w ∷ ws) = elim (latest ws) [ none ↦ some w.until | some t ↦ some (max w.until t) ]

abbrev is_polled : String → String → Row → Wait → Bool
is_polled id recipient m w =
    m.id == id
    && column_eq w.message_id m.in_reply_to
    && w.actor == recipient
    && w.actor == m.recipient

-- `wait_deadline`: the latest poll of the recipient on the request that the message answers.
unfoldable pub wait_deadline : String → String → Db → Option ℕ
wait_deadline id recipient db =
    latest (select (λ w. any (λ m. is_polled id recipient m w) db.messages) db.waits)
