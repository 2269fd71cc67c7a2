-- ===== src/Codex/Notify.antt =====
-- `notify_socket` of src/adapters/codex/mod.rs: a notice over an app server's socket.
use harness_talk.Prelude.{String, String_eq, Bool, not, Option, none, some, List, [], ℤ}
use harness_talk.Error.{Result, Checked, ok, err, fixed_code, ◌>>=◌, ◌>>◌, refuse_if}
use harness_talk.Model.{
  NativePeer, SkipReason, Outcome, submitted, not_submitted, submission_unknown,
}
use harness_talk.Model.Words.{skip_reason_as_str}
use harness_talk.Db.{ok_or}
use harness_talk.Codex.Json.{
  Json, text, object, array, item, no_items, Fields, no_fields, field, get, as_str, concat,
}
use harness_talk.Codex.Rpc.{Rpc, Request, call}
use harness_talk.Codex.Identity.{check_live, is_text}

abbrev pub Skip : Type 0
Skip = Result (Option SkipReason)

abbrev pub not_sent : String → Outcome
not_sent detail = record { submission = not_submitted; detail = detail }

abbrev pub unsure : String → Outcome
unsure detail = record { submission = submission_unknown; detail = detail }

abbrev pub sent_as : String → Outcome
sent_as detail = record { submission = submitted; detail = detail }

abbrev text_input : String → Json
text_input body = object (field "type" (text "text") (field "text" (text body) no_fields))

abbrev pub queue_add : NativePeer → String → String → Fields
queue_add peer id body = field "threadId" (text peer.session_id) (
    field "clientUserMessageId" (text id)
      (field "input" (array (item (text_input body) no_items)) no_fields))

-- What the receipt of `thread/queue/add` must say: the message that was sent, and an ID.
unfoldable pub queued_receipt : String → Json → Result Outcome
queued_receipt id receipt = do
  queued ← ok_or (get "queuedSubmission" receipt) "invalid_client_data"
  client_id ← ok_or (get "clientUserMessageId" queued) "invalid_client_data"
  refuse_if (not (is_text (as_str (some client_id)) id)) "codex_queue_receipt_mismatch"
  queue_id ← ok_or (as_str (get "id" queued)) "invalid_client_data"
  ok (sent_as (concat "codex_queued:" queue_id))

-- An outcome, with all requests that were written for it.
pub record Notified : Type 0 where
  pub outcome : Outcome
  pub sent : List Request

abbrev pub outcome_of : Result Outcome → Outcome
outcome_of (err e) = unsure (fixed_code e)
outcome_of (ok o) = o

module _ (show : ℤ → String) (same_workspace : Option Json → String → Bool) where
  -- From the request on: a failure leaves the outcome unknown.
  unfoldable pub submit : NativePeer → String → String → Rpc → Notified
  unfolding call queued_receipt
  submit peer id body rpc =
      let r = call show "thread/queue/add" (queue_add peer id body) rpc in
      record { outcome = outcome_of (do receipt ← r.0; queued_receipt id receipt); sent = r.1.sent }

  unfoldable pub unless_skipped : NativePeer → String → String → Skip → Rpc → Notified
  unfolding submit skip_reason_as_str
  unless_skipped peer id body (err e) rpc = record {
    outcome = not_sent (fixed_code e);
    sent = rpc.sent;
  }
  unless_skipped peer id body (ok (some reason)) rpc = record {
    outcome = not_sent (skip_reason_as_str reason);
    sent = rpc.sent;
  }
  unless_skipped peer id body (ok none) rpc = submit peer id body rpc

  unfoldable pub when_live : NativePeer → String → String → Skip → Checked × Rpc → Notified
  unfolding unless_skipped
  when_live peer id body skip (err e, rpc) = record {
    outcome = not_sent (fixed_code e);
    sent = rpc.sent;
  }
  when_live peer id body skip (ok _, rpc) = unless_skipped peer id body skip rpc

  -- `notify_socket`, on what the connection to the socket gave.
  unfoldable pub notify_socket : NativePeer → String → String → Skip → Result Rpc → Notified
  unfolding when_live check_live
  notify_socket peer id body skip (err e) = record { outcome = not_sent (fixed_code e); sent = [] }
  notify_socket peer id body skip (ok rpc) =
      when_live peer id body skip (check_live show same_workspace peer rpc)
