-- ===== src/Model.antt =====
-- src/model.rs: the values that the mailbox keeps and answers.
--
-- Times are `f64` seconds in the source; they are only stored, compared and shifted by constants,
-- and are natural numbers of milliseconds here.
pub mod Words
use harness_talk.Prelude.{ℕ, String, Bool, true, false, Option, none, some, List}

pub data Submission : Type 0 where
  not_submitted submission_unknown submitted : Submission

pub data SkipReason : Type 0 where
  pull_only acknowledged_before_notification returned_by_recipient_wait recipient_retired :
      SkipReason

pub data MessageState : Type 0 where
  saved reply_received : MessageState

pub data CleanupStatus : Type 0 where
  skipped unsupported pending removed absent unknown unavailable : CleanupStatus

pub data Delivery : Type 0 where
  native pull : Delivery

unfoldable pub is_native : Delivery → Bool
is_native native = true
is_native pull = false

pub record Peer : Type 0 where
  pub name : String
  pub harness : String
  pub session_id : Option String
  pub workspace : Option String
  pub socket : Option String
  pub url : Option String
  pub retired_at : Option ℕ
  pub delivery : Delivery

-- `Peer::pull`
unfoldable pub pull_peer : String → String → Peer
pull_peer name harness = record {
  name = name;
  harness = harness;
  session_id = none;
  workspace = none;
  socket = none;
  url = none;
  retired_at = none;
  delivery = pull;
}

-- The validated address that is passed to an adapter.
pub record NativePeer : Type 0 where
  pub name : String
  pub session_id : String
  pub workspace : String
  pub socket : Option String
  pub url : Option String
  pub retired_at : Option ℕ

pub record Row : Type 0 where
  pub seq : ℕ
  pub id : String
  pub sender : String
  pub recipient : String
  pub in_reply_to : Option String
  pub body : String
  pub created_at : ℕ
  pub ack_at : Option ℕ
  pub submission : Submission
  pub notification_started_at : Option ℕ
  pub notification_finished_at : Option ℕ
  pub notification_detail : Option String
  pub wait_returned_at : Option ℕ

pub record Cleanup : Type 0 where
  pub status : CleanupStatus
  pub detail : Option String
  pub queue_id : Option String

-- `Cleanup::new(status).detail(detail)`
unfoldable pub cleanup_detail : CleanupStatus → String → Cleanup
cleanup_detail status detail = record { status = status; detail = some detail; queue_id = none }

pub record Message : Type 0 where
  pub row : Row
  pub reply : Option Row
  pub state : MessageState
  pub notification_cleanup : Option Cleanup
  pub wait_ended : Option String

abbrev state_of : Option Row → MessageState
state_of none = saved
state_of (some reply) = reply_received

-- `Message::from_row`
unfoldable pub from_row : Row → Option Row → Message
from_row row reply = record {
  row = row;
  reply = reply;
  state = state_of reply;
  notification_cleanup = none;
  wait_ended = none;
}

pub record Outcome : Type 0 where
  pub submission : Submission
  pub detail : String

pub record Page : Type 0 where
  pub messages : List Message
  pub total : ℕ
  pub omitted : ℕ
