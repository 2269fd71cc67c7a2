-- ===== src/Codex/Removed.antt =====
-- The requests that a removal writes (src/adapters/codex/mod.rs).
use harness_talk.Prelude.{
  ℕ, ◌+◌, ◌≡◌, refl, sym, ap, ◌∙◌, String, String_eq, Bool, true, false, Option, none, some, List,
  [], ◌∷◌, ◌++◌, ℤ, arith, count, if◌then◌else◌,
}
use harness_talk.Prelude.Find.{count-append}
use harness_talk.Error.{Result, Checked, ok, err, ◌>>=◌, ◌>>◌}
use harness_talk.Model.{
  NativePeer, Message, CleanupStatus, removed, absent, unknown, pending, cleanup_detail,
}
use harness_talk.Codex.Json.{Json, get}
use harness_talk.Codex.Rpc.{Rpc, Request, call, request_of}
use harness_talk.Codex.Identity.{check_live, thread_read}
use harness_talk.Codex.Sent.{method_is, call-sent, live-sent, live-closing}
use harness_talk.Codex.Dismiss.{
  dismiss, dismiss_queued, dismiss_receipt, dismiss_id, delete_over, delete_queued, reach, socket,
  queue_delete, Dismissed, deleted, cleanup_of, unasked, queue_id_of, queued_in, submitting,
}

-- How many requests the status of a removal says were written.
abbrev pub deletes : CleanupStatus → ℕ
deletes removed = 1
deletes absent = 1
deletes unknown = 1
deletes _ = 0

abbrev delete_count : List Request → ℕ
delete_count = count (method_is "thread/queue/delete")

-- Whether a removal wrote as many requests as its status says.
abbrev Tells : Dismissed → Type 0
Tells d = delete_count d.sent ≡ deletes d.cleanup.status

abbrev deletion_of : Result Json → Result Bool
deletion_of r = do answer ← r; deleted (get "deleted" answer)

pending-Tells : Tells (unasked pending "notification_submission_has_no_completion_receipt" [])
unfolding unasked cleanup_detail
pending-Tells = refl

cleanup-deletes : (id : String) (r : Result Bool) → deletes (cleanup_of id r).status ≡ 1
unfolding cleanup_of cleanup_detail
cleanup-deletes id (ok true) = refl
cleanup-deletes id (ok false) = refl
cleanup-deletes id (err e) = refl

no_delete :
    (xs : List Request) (r : Request)
    → delete_count xs ≡ 0
    → method_is "thread/queue/delete" r ≡ false
    → delete_count (xs ++ r ∷ []) ≡ 0
no_delete xs r h k = ground (arith, count-append (method_is "thread/queue/delete") xs (r ∷ []))

-- A connection that is open, and on which nothing was written; or none.
abbrev pub Fresh : Result Rpc → Type 0
Fresh (ok rpc) = (rpc.closing ≡ false) × (rpc.sent ≡ [])
Fresh (err e) = Unit

module _ (show : ℤ → String) (same_workspace : Option Json → String → Bool)
    (parse_str : List ℕ → Option String) (peer : NativePeer) where
  -- A connection that is open, and over which no removal was asked for; or no connection.
  abbrev Unasked : Result Rpc × List Request → Type 0
  Unasked (ok rpc, sent) = (rpc.closing ≡ false) × (delete_count rpc.sent ≡ 0)
  Unasked (err e, sent) = delete_count sent ≡ 0

  delete_queued-Tells :
      (id : String) (rpc : Rpc)
      → rpc.closing ≡ false
      → delete_count rpc.sent ≡ 0
      → Tells (delete_queued show same_workspace parse_str peer id rpc)
  unfolding delete_queued
  delete_queued-Tells id rpc h k =
      ap delete_count (call-sent show "thread/queue/delete" (queue_delete peer id) rpc h)
      ∙ count-append (method_is "thread/queue/delete") rpc.sent _
      ∙ ap (λ n. n + 1) k
      ∙ sym (
          cleanup-deletes id
            (deletion_of (call show "thread/queue/delete" (queue_delete peer id) rpc).0))

  after_live :
      (c : Checked) (rpc : Rpc)
      → rpc.closing ≡ false
      → delete_count rpc.sent ≡ 0
      → Unasked (c >> ok rpc, rpc.sent)
  after_live (ok _) rpc h k = (h, k)
  after_live (err e) rpc h k = k

  nothing_sent : (rpc : Rpc) → rpc.sent ≡ [] → delete_count rpc.sent ≡ 0
  nothing_sent rpc h = ap delete_count h

  reach-Unasked :
      (path : Option String) (connected : Result Rpc) (identity : Checked)
      → Fresh connected
      → Unasked (reach show same_workspace parse_str path peer connected identity)
  unfolding reach
  reach-Unasked (some path) (err e) identity h = refl
  reach-Unasked none (err e) (ok _) h = refl
  reach-Unasked none (err e) (err x) h = refl
  reach-Unasked none (ok rpc) identity h = after_live identity rpc h.0 (nothing_sent rpc h.1)
  reach-Unasked (some path) (ok rpc) identity h =
      let r = check_live show same_workspace peer rpc in
      after_live r.0 r.1 (live-closing show same_workspace peer rpc h.0) (
        ap delete_count (live-sent show same_workspace peer rpc h.0)
        ∙ no_delete rpc.sent (request_of "thread/read" (thread_read peer) rpc)
            (nothing_sent rpc h.1) refl)

  delete_over-Tells :
      (id : String) (r : Result Rpc × List Request)
      → Unasked r
      → Tells (delete_over show same_workspace parse_str peer id r)
  unfolding delete_over unasked cleanup_detail
  delete_over-Tells id (err e, sent) h = h
  delete_over-Tells id (ok rpc, sent) h = delete_queued-Tells id rpc h.0 h.1

  dismiss_id-Tells :
      (path : Option String) (connected : Result Rpc) (identity : Checked) (id : Result String)
      → Fresh connected
      → Tells (dismiss_id show same_workspace parse_str path peer connected identity id)
  unfolding dismiss_id unasked cleanup_detail
  dismiss_id-Tells path connected identity (err e) h = refl
  dismiss_id-Tells path connected identity (ok id) h =
      delete_over-Tells id (reach show same_workspace parse_str path peer connected identity)
        (reach-Unasked path connected identity h)

  queued-Tells :
      (path : Option String) (connected : Result Rpc) (identity : Checked) (o : Option String)
      → Fresh connected
      → Tells (dismiss_receipt show same_workspace parse_str path peer connected identity o)
  unfolding dismiss_receipt dismiss_queued unasked cleanup_detail
  queued-Tells path connected identity none h = refl
  queued-Tells path connected identity (some queued) h =
      dismiss_id-Tells path connected identity (queue_id_of parse_str path queued) h

  if-Tells : (b : Bool) (x y : Dismissed) → Tells x → Tells y → Tells (if b then x else y)
  if-Tells true x y h k = h
  if-Tells false x y h k = k

-- A removal, over a connection that is open and on which nothing was written, or over none: exactly
-- one request to delete a queued notice was written where the status is removed, absent or unknown,
-- and none where it is any other, whatever the client answers.
pub dismiss-deletes :
    (show : ℤ → String) (same_workspace : Option Json → String → Bool)
    (parse_str : List ℕ → Option String) (peer : NativePeer) (message : Message)
    (connected : Result Rpc) (identity : Checked)
    → Fresh connected
    → count
        (method_is "thread/queue/delete")
        (dismiss show same_workspace parse_str peer message connected identity).sent
      ≡ deletes
          (dismiss show same_workspace parse_str peer message connected identity).cleanup.status
unfolding dismiss
dismiss-deletes show same_workspace parse_str peer message connected identity h =
    if-Tells show same_workspace parse_str peer (submitting message.row) _ _ pending-Tells (
      queued-Tells show same_workspace parse_str peer (socket peer) connected identity
        (queued_in (socket peer) message.row) h)
