-- ===== src/Codex/Dismiss.antt =====
-- `dismiss` of src/adapters/codex/mod.rs: the removal of a notice that is still in the queue.
use harness_talk.Prelude.{
  ℕ, String, String_eq, Bool, true, false, not, ◌&&◌, Option, none, some, List, [], ℤ, ◌==◌,
  if◌then◌else◌,
}
use harness_talk.Error.{Result, Checked, ok, err, code, fixed_code, map_err, ◌>>=◌, ◌>>◌}
use harness_talk.Model.{
  NativePeer, Row, Message, Submission, submitted, Cleanup, cleanup_detail, CleanupStatus, pending,
  skipped, removed, absent, unknown, unavailable,
}
use harness_talk.Validate
use harness_talk.Db.{is_some}
use harness_talk.Codex.Json.{Json, text, boolean, Fields, no_fields, field, get, strip_prefix}
use harness_talk.Codex.Rpc.{Rpc, Request, call}
use harness_talk.Codex.Identity.{check_live}

-- `socket`
abbrev pub socket : NativePeer → Option String
socket peer = elim peer.socket [ none ↦ none | some s ↦ if s == "" then none else some s ]

abbrev pub prefix : Option String → String
prefix none = "codex_cli_queued:"
prefix (some path) = "codex_queued:"

abbrev pub or_empty : Option String → String
or_empty none = ""
or_empty (some s) = s

abbrev pub is_submitted : Submission → Bool
is_submitted submitted = true
is_submitted _ = false

-- The queue's ID in the receipt of a notice that was submitted.
unfoldable pub queued_in : Option String → Row → Option String
queued_in path row =
    let queued = strip_prefix (prefix path) (or_empty row.notification_detail) in
    if is_submitted row.submission then queued else none

abbrev pub submitting : Row → Bool
submitting row = is_some row.notification_started_at && not (is_some row.notification_finished_at)

unfoldable pub queue_id_of : (List ℕ → Option String) → Option String → String → Result String
unfolding Validate.uuid
queue_id_of parse_str (some path) queued = ok queued
queue_id_of parse_str none queued =
    map_err (λ _. code "codex_cli_invalid_queue_id") (Validate.uuid parse_str queued)

abbrev pub queue_delete : NativePeer → String → Fields
queue_delete peer id =
    field "threadId" (text peer.session_id) (field "queuedSubmissionId" (text id) no_fields)

abbrev pub deleted : Option Json → Result Bool
deleted (some (boolean b)) = ok b
deleted _ = err (code "codex_queue_delete_receipt_invalid")

unfoldable pub cleanup_of : String → Result Bool → Cleanup
unfolding cleanup_detail
cleanup_of id (ok b) = record {
  status = (if b then removed else absent);
  detail = none;
  queue_id = some id;
}
cleanup_of id (err e) = cleanup_detail unknown (fixed_code e)

-- A removal, with all requests that were written for it.
pub record Dismissed : Type 0 where
  pub cleanup : Cleanup
  pub sent : List Request

unfoldable pub unasked : CleanupStatus → String → List Request → Dismissed
unfolding cleanup_detail
unasked status detail sent = record { cleanup = cleanup_detail status detail; sent = sent }

module _ (show : ℤ → String) (same_workspace : Option Json → String → Bool)
    (parse_str : List ℕ → Option String) where
  -- From the request on: a failure leaves the removal unknown.
  unfoldable pub delete_queued : NativePeer → String → Rpc → Dismissed
  unfolding call cleanup_of
  delete_queued peer id rpc =
      let r = call show "thread/queue/delete" (queue_delete peer id) rpc in
      record {
        cleanup = cleanup_of id (do answer ← r.0; deleted (get "deleted" answer));
        sent = r.1.sent;
      }

  -- The connection that the removal goes over: to the socket, where the address is checked on it,
  -- or to the client that is started once the saved address was checked.
  unfoldable pub reach :
      Option String → NativePeer → Result Rpc → Checked → Result Rpc × List Request
  unfolding check_live
  reach (some path) peer (err e) identity = (err e, [])
  reach none peer (err e) identity = (identity >> err e, [])
  reach (some path) peer (ok rpc) identity =
      let r = check_live show same_workspace peer rpc in (r.0 >> ok r.1, r.1.sent)
  reach none peer (ok rpc) identity = (identity >> ok rpc, rpc.sent)

  unfoldable pub delete_over : NativePeer → String → Result Rpc × List Request → Dismissed
  unfolding unasked delete_queued
  delete_over peer id (err e, sent) = unasked unavailable (fixed_code e) sent
  delete_over peer id (ok rpc, sent) = delete_queued peer id rpc

  unfoldable pub dismiss_id :
      Option String → NativePeer → Result Rpc → Checked → Result String → Dismissed
  unfolding unasked reach delete_over
  dismiss_id path peer connected identity (err e) = unasked unavailable (fixed_code e) []
  dismiss_id path peer connected identity (ok id) =
      delete_over peer id (reach path peer connected identity)

  unfoldable pub dismiss_queued :
      Option String → NativePeer → Result Rpc → Checked → String → Dismissed
  unfolding queue_id_of dismiss_id
  dismiss_queued path peer connected identity queued =
      dismiss_id path peer connected identity (queue_id_of parse_str path queued)

  unfoldable pub dismiss_receipt :
      Option String → NativePeer → Result Rpc → Checked → Option String → Dismissed
  unfolding unasked dismiss_queued
  dismiss_receipt path peer connected identity none =
      unasked skipped "no_confirmed_queue_receipt" []
  dismiss_receipt path peer connected identity (some queued) =
      dismiss_queued path peer connected identity queued

  -- `dismiss`. `connected` is the connection to the socket, or to the client that is started.
  unfoldable pub dismiss : NativePeer → Message → Result Rpc → Checked → Dismissed
  unfolding unasked queued_in dismiss_receipt
  dismiss peer message connected identity =
      if submitting message.row
      then unasked pending "notification_submission_has_no_completion_receipt" []
      else dismiss_receipt (socket peer) peer connected identity
          (queued_in (socket peer) message.row)
