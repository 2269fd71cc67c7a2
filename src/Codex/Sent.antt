-- ===== src/Codex/Sent.antt =====
-- The requests that a notice and its removal write (src/adapters/codex/mod.rs).
use harness_talk.Prelude.{
  ℕ, ◌+◌, ◌≡◌, refl, sym, ap, ◌∙◌, String, String_eq, Bool, false, Option, none, some, List, [],
  ◌∷◌, ◌++◌, ℤ, arith, count, inl, inr, ◌==◌,
}
use harness_talk.Prelude.Find.{count-append}
use harness_talk.Error.{Result, Checked, ok, err, ◌>>=◌, Result-cases}
use harness_talk.Model.{NativePeer, Submission, not_submitted}
use harness_talk.Codex.Json.{Json, Fields}
use harness_talk.Codex.Rpc.{Rpc, Request, call, call_after, request_of, next_write}
use harness_talk.Codex.Identity.{check_live, thread_read}
use harness_talk.Codex.Notify.{
  Skip, notify_socket, when_live, unless_skipped, submit, queue_add, queued_receipt, outcome_of,
}
use harness_talk.Codex.Receipts.{queued_receipt-Accepted}

abbrev pub method_is : String → Request → Bool
method_is m r = r.method == m

-- A call over an open connection writes its request, whatever is answered.
module _ (show : ℤ → String) (method : String) (params : Fields) where
  call_after-sent :
      (rpc : Rpc) (w : Checked)
      → (call_after show method params rpc w).1.sent ≡ rpc.sent ++ request_of method params rpc ∷ []
  unfolding call_after
  call_after-sent rpc (ok _) = refl
  call_after-sent rpc (err e) = refl

  call_after-closing :
      (rpc : Rpc) (w : Checked) → (call_after show method params rpc w).1.closing ≡ rpc.closing
  unfolding call_after
  call_after-closing rpc (ok _) = refl
  call_after-closing rpc (err e) = refl

  call_open :
      (rpc : Rpc)
      → rpc.closing ≡ false
      → call show method params rpc ≡ call_after show method params rpc (next_write rpc.writes)
  unfolding call
  call_open rpc h = ground (arith, h)

  pub call-sent :
      (rpc : Rpc)
      → rpc.closing ≡ false
      → (call show method params rpc).1.sent ≡ rpc.sent ++ request_of method params rpc ∷ []
  call-sent rpc h =
      ap (λ r. r.1.sent) (call_open rpc h) ∙ call_after-sent rpc (next_write rpc.writes)

  pub call-closing :
      (rpc : Rpc) → rpc.closing ≡ false → (call show method params rpc).1.closing ≡ false
  call-closing rpc h =
      ap (λ r. r.1.closing) (call_open rpc h) ∙ call_after-closing rpc (next_write rpc.writes) ∙ h

zero_add : (n : ℕ) → 0 + n ≡ n
zero_add n = omega arith

-- How many requests an outcome says were written.
abbrev pub adds : Submission → ℕ
adds not_submitted = 0
adds _ = 1

module _ (show : ℤ → String) (same_workspace : Option Json → String → Bool)
    (peer : NativePeer) where
  pub live-sent :
      (rpc : Rpc)
      → rpc.closing ≡ false
      → (check_live show same_workspace peer rpc).1.sent
        ≡ rpc.sent ++ request_of "thread/read" (thread_read peer) rpc ∷ []
  unfolding check_live
  live-sent rpc h = call-sent show "thread/read" (thread_read peer) rpc h

  pub live-closing :
      (rpc : Rpc)
      → rpc.closing ≡ false
      → (check_live show same_workspace peer rpc).1.closing ≡ false
  unfolding check_live
  live-closing rpc h = call-closing show "thread/read" (thread_read peer) rpc h

  -- Neither a failure nor a receipt says that nothing was submitted.
  outcome-adds :
      (id : String) (r : Result Json) → adds (outcome_of (r >>= queued_receipt id)).submission ≡ 1
  outcome-adds id (err e) = refl
  outcome-adds id (ok receipt) = elim (Result-cases (queued_receipt id receipt)) [
    | inl (o, e) ↦
        let a = queued_receipt-Accepted id receipt o e in
        ap (λ r. adds (outcome_of r).submission) e ∙ ap (λ x. adds x.submission) a.outcome
    | inr (x, e) ↦ ap (λ r. adds (outcome_of r).submission) e
  ]

  abbrev add_count : List Request → ℕ
  add_count = count (method_is "thread/queue/add")

  submit-adds :
      (id body : String) (rpc : Rpc)
      → rpc.closing ≡ false
      → add_count (submit show same_workspace peer id body rpc).sent
        ≡ add_count rpc.sent + adds (submit show same_workspace peer id body rpc).outcome.submission
  unfolding submit
  submit-adds id body rpc h =
      ap add_count (call-sent show "thread/queue/add" (queue_add peer id body) rpc h)
      ∙ count-append (method_is "thread/queue/add") rpc.sent _
      ∙ ap (λ k. add_count rpc.sent + k)
          (sym (outcome-adds id (call show "thread/queue/add" (queue_add peer id body) rpc).0))

  unless_skipped-adds :
      (id body : String) (skip : Skip) (rpc : Rpc)
      → rpc.closing ≡ false
      → add_count (unless_skipped show same_workspace peer id body skip rpc).sent
        ≡ add_count rpc.sent
          + adds (unless_skipped show same_workspace peer id body skip rpc).outcome.submission
  unfolding unless_skipped
  unless_skipped-adds id body (err e) rpc h = omega arith
  unless_skipped-adds id body (ok (some reason)) rpc h = omega arith
  unless_skipped-adds id body (ok none) rpc h = submit-adds id body rpc h

  when_live-adds :
      (id body : String) (skip : Skip) (r : Checked × Rpc)
      → r.1.closing ≡ false
      → add_count (when_live show same_workspace peer id body skip r).sent
        ≡ add_count r.1.sent
          + adds (when_live show same_workspace peer id body skip r).outcome.submission
  unfolding when_live
  when_live-adds id body skip (err e, rpc) h = omega arith
  when_live-adds id body skip (ok _, rpc) h = unless_skipped-adds id body skip rpc h

-- A notice over a connection that is open and on which nothing was written yet: exactly one request
-- to queue it was written where the outcome is submitted or unknown, and none where it is not
-- submitted, whatever the client answers and the checks say.
pub notify_socket-adds :
    (show : ℤ → String) (same_workspace : Option Json → String → Bool) (peer : NativePeer)
    (id body : String) (skip : Skip) (rpc : Rpc)
    → rpc.closing ≡ false
    → rpc.sent ≡ []
    → count
        (method_is "thread/queue/add")
        (notify_socket show same_workspace peer id body skip (ok rpc)).sent
      ≡ adds (notify_socket show same_workspace peer id body skip (ok rpc)).outcome.submission
unfolding notify_socket
notify_socket-adds show same_workspace peer id body skip rpc h nothing =
    when_live-adds show same_workspace peer id body skip (check_live show same_workspace peer rpc)
      (live-closing show same_workspace peer rpc h)
    ∙ ap
        (λ k.
          k
          + adds (notify_socket show same_workspace peer id body skip (ok rpc)).outcome.submission)
        (ap (count (method_is "thread/queue/add")) (live-sent show same_workspace peer rpc h)
          ∙ ap
              (λ xs.
                count (method_is "thread/queue/add")
                  (xs ++ request_of "thread/read" (thread_read peer) rpc ∷ []))
              nothing)
    ∙ zero_add _
