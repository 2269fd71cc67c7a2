-- ===== src/Receiver/Check.antt =====
-- `needs_notification` of src/adapters/codex/receive.rs: whether a message still needs a notification.
--
-- `crate::mcp::run_remote` answers the mailbox's `show` command, or no structured content.
use harness_talk.Prelude.{
  ℕ, String, String_eq, Bool, true, false, not, ◌&&◌, ◌||◌, Option, none, some, ◌==◌, nat_eq,
  if◌then◌else◌,
}
use harness_talk.Error.{Result, ok, err, code, ◌>>=◌, ◌>>◌, refuse_if}
use harness_talk.Model.{Row, Message}
use harness_talk.Db.{column_eq, is_some}

-- The JSON of one message: which fields it has, and the message where it has the shape of one.
pub record Shown : Type 0 where
  pub has_in_reply_to : Bool
  pub has_ack_at : Bool
  pub has_reply : Bool
  pub message : Option Message

pub record Envelope : Type 0 where
  pub exit_code : Option ℕ
  pub result : Shown

pub record Response : Type 0 where
  pub structured_content : Option Envelope
  pub is_error : Bool

-- A request needs work while it has no reply, acked or not; an answer while it is not acked.
unfoldable pub needs_work : Message → Bool
needs_work m =
    if is_some m.row.in_reply_to then not (is_some m.row.ack_at) else not (is_some m.reply)

abbrev pub unrelated : String → Row → Option Row → Bool
unrelated id row none = false
unrelated id row (some reply) =
    not (column_eq id reply.in_reply_to)
    || not (reply.sender == row.recipient)
    || not (reply.recipient == row.sender)

abbrev parsed : Option Message → Result Message
parsed none = err (code "invalid message")
parsed (some m) = ok m

abbrev pub differs : String → String → ℕ → Message → Bool
differs peer id seq m =
    not (m.row.id == id) || not (m.row.recipient == peer) || not (nat_eq m.row.seq seq)

unfoldable pub check_message : String → String → ℕ → Message → Result (Option Bool)
unfolding needs_work
check_message peer id seq m = do
  refuse_if (differs peer id seq m) "Mailbox check differs from the watched message or recipient"
  refuse_if (unrelated id m.row m.reply) "Mailbox check returned an unrelated reply"
  ok (some (needs_work m))

unfoldable pub check_envelope : String → String → ℕ → Bool → Envelope → Result (Option Bool)
unfolding check_message
check_envelope peer id seq is_error envelope = do
  refuse_if (is_error || not (elim envelope.exit_code [ none ↦ false | some n ↦ nat_eq n 0 ]))
      "Mailbox rejected the message check; inspect the fixed endpoint"
  refuse_if
      (not (
        envelope.result.has_in_reply_to && envelope.result.has_ack_at && envelope.result.has_reply))
      "Mailbox check omitted message state"
  m ← parsed envelope.result.message
  check_message peer id seq m

abbrev no_content : Bool → Result (Option Bool)
no_content true = ok none
no_content false = err (code "Mailbox check returned no structured result")

-- `needs_notification`; no answer means that the read failed, and the stream reconnects.
unfoldable pub needs_notification : String → String → ℕ → Response → Result (Option Bool)
unfolding check_envelope
needs_notification peer id seq response = elim response.structured_content [
  | none ↦ no_content response.is_error
  | some envelope ↦ check_envelope peer id seq response.is_error envelope
]
