-- ===== src/Store/Messages.antt =====
-- `Store::save`, `get` and `ack` of src/store.rs.
use harness_talk.Prelude.{
  ℕ, String, String_eq, Bool, true, false, Option, none, some, List, ◌==◌, nat_eq, if◌then◌else◌,
}
use harness_talk.Error.{ok, err, code, Result, refuse_if, fixed_code}
use harness_talk.Model.{Peer, Delivery, pull, Message, Cleanup, cleanup_detail, unknown}
use harness_talk.Validate.{text, uuid}
use harness_talk.Db.Save.{save_txn}
use harness_talk.Db.Update.{set_ack}
use harness_talk.Proc.{Proc, write, write_at, now, lift, pure, raise, try, new_id, ◌>>=◌, ◌>>◌}
use harness_talk.Store.{peer, load, fixed, Client, foreign}

-- The ID that was given, in its canonical form, or a new one.
unfoldable pub draft_id : (List ℕ → Option String) → Option String → Proc String
draft_id parse_str none = new_id
draft_id parse_str (some id) = lift (uuid parse_str id)

-- A message that the transaction found is answered as it is. One that it inserted is loaded.
unfoldable pub answer_saved : String → Option Message → Proc (Message × Bool)
answer_saved id (some found) = pure (found, false)
answer_saved id none = do message ← load id none; pure (message, true)

abbrev is_pull : Delivery → Bool
is_pull pull = true
is_pull _ = false

-- `Store::save`: the message and whether this call created it. `parse_str` is of the uuid crate.
unfoldable pub save :
    (List ℕ → Option String)
    → String
    → String
    → String
    → Option String
    → Option String
    → Proc (Message × Bool)
unfolding draft_id answer_saved
save parse_str sender recipient body id in_reply_to = do
  lift (text body)
  peer sender
  to ← peer recipient
  lift (refuse_if (sender == recipient) "sender_and_recipient_must_differ")
  id' ← draft_id parse_str id
  found ← write_at (
      save_txn (record {
        id = id';
        sender = sender;
        recipient = recipient;
        in_reply_to = in_reply_to;
        body = body;
        pull_only = is_pull to.delivery;
      }))
  answer_saved id' found

unfoldable pub cleanup_by : (Peer → Message → Client Cleanup) → Message → Result Peer → Proc Cleanup
cleanup_by dismiss message (ok p) = foreign (dismiss p message)
cleanup_by dismiss message (err e) = pure (cleanup_detail unknown (fixed_code (fixed e)))

unfoldable pub dismiss_since : (Peer → Message → Client Cleanup) → Message → Option ℕ → Proc Message
unfolding cleanup_by
dismiss_since dismiss message none = pure message
dismiss_since dismiss message (some acked) = do
  to ← try (peer message.row.recipient)
  cleanup ← cleanup_by dismiss message to
  pure (record message { notification_cleanup = some cleanup })

unfoldable pub dismiss_acknowledged : (Peer → Message → Client Cleanup) → Message → Proc Message
unfolding dismiss_since
dismiss_acknowledged dismiss message = dismiss_since dismiss message message.row.ack_at

unfoldable pub ack : String → String → (Peer → Message → Client Cleanup) → Proc Message
unfolding dismiss_acknowledged
ack id actor dismiss = do
  time ← now
  changed ← write (set_ack id actor time)
  if nat_eq changed 0
      then raise (code "only_recipient_can_ack")
      else do message ← load id (some actor); dismiss_acknowledged dismiss message
