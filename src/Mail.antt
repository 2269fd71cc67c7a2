-- ===== src/Mail.antt =====
-- src/commands/mail.rs: `send` and `reply` save a message, notify its recipient once and wait for
-- the answer.
use harness_talk.Prelude.{
  ℕ, String, String_eq, Bool, true, false, not, ◌&&◌, Option, none, some, List, nat_eq,
  if◌then◌else◌,
}
use harness_talk.Error.{Result}
use harness_talk.Model.{Peer, Submission, submitted, Message, Outcome, Cleanup}
use harness_talk.Model.Words.{parse_skip_reason}
use harness_talk.Validate.{Seconds, ms}
use harness_talk.Validate
use harness_talk.Db.{is_some}
use harness_talk.Proc.{Proc, lift, pure, check_interrupted, ◌>>=◌, ◌>>◌}
use harness_talk.Store.{load, Client}
use harness_talk.Store.Messages.{save}
use harness_talk.Store.Notify.{notify_once}
use harness_talk.Store.Wait.{wait}

-- Where a message goes: to a peer as a new request, or back as the answer to a request.
pub data To : Type 0 where
  peer : String → Option String → To
  request : String → To

pub record Route : Type 0 where
  pub recipient : String
  pub reply_to : Option String
  pub id : Option String

unfoldable pub route : String → To → Proc Route
route actor (peer recipient id) = pure (record { recipient = recipient; reply_to = none; id = id })
route actor (request request_id) = do
  asked ← load request_id (some actor)
  pure (record { recipient = asked.row.sender; reply_to = some request_id; id = none })

-- What the command answers: the message, whether it was created, and the exit code.
pub record Answer : Type 0 where
  pub message : Message
  pub created : Bool
  pub exit_code : ℕ

abbrev is_submitted : Submission → Bool
is_submitted submitted = true
is_submitted _ = false

abbrev is_reason : Option String → Bool
is_reason none = false
is_reason (some detail) = is_some (parse_skip_reason detail)

-- A notification that was tried and that nothing confirms.
unfoldable pub unconfirmed : Bool → Message → Bool
unconfirmed notifies message =
    notifies
    && not (is_some message.reply)
    && not (is_submitted message.row.submission)
    && not (is_some message.row.ack_at)
    && not (is_reason message.row.notification_detail)

abbrev is_zero : Seconds → Bool
is_zero (ms t) = nat_eq t 0
is_zero _ = false

module _ (parse_str : List ℕ → Option String) (notify : Peer → Message → Client Outcome)
    (dismiss : Peer → Message → Client Cleanup) where
  -- `attempt`, for a session of the actor. `text` is the body as it was given or read.
  unfoldable pub attempt : String → To → Result String → Bool → Seconds → Proc Answer
  unfolding route
  attempt actor to text no_notify seconds = do
    lift (Validate.wait seconds)
    body ← lift text
    way ← route actor to
    (message, created) ← save parse_str actor way.recipient body way.id way.reply_to
    check_interrupted
    let notifies = created && not no_notify
    noticed ← if notifies then notify_once message.row.id notify dismiss else pure message
    check_interrupted
    last ← if is_zero seconds then pure noticed else wait noticed.row.id actor seconds
    pure (record {
      message = last;
      created = created;
      exit_code = if unconfirmed notifies last then 2 else 0;
    })
