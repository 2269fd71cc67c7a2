-- ===== src/Codex/Receipts.antt =====
-- The receipt that the client gives for a notice, and the removal that reads it later
-- (src/adapters/codex/mod.rs).
use harness_talk.Prelude.{
  ◌≡◌, refl, sym, ap, ◌∙◌, String, String_eq, not, Option, none, some, arith, eq_iff, nat_eq_iff,
}
use Prim.Native.Char.{code as char_code}
use harness_talk.Error.{ok, refuse_if}
use harness_talk.Error.Steps.{both, ok_step, ok_same}
use harness_talk.Model.{Row, Outcome, submitted}
use harness_talk.Db.{ok_or}
use harness_talk.Codex.Json.{Json, get, as_str, concat, strip_prefix}
use harness_talk.Codex.Identity.{is_text}
use harness_talk.Codex.Notify.{queued_receipt, sent_as}
use harness_talk.Codex.Dismiss.{queued_in}

ok_or-some : {A : Type 0} (o : Option A) (a : A) (c : String) → ok_or o c ≡ ok a → o ≡ some a
ok_or-some none a c h = absurd (ground arith)
ok_or-some (some b) a c h = ap some (ok_same h)

text_is : (o : Option String) (s c : String) → refuse_if (not (is_text o s)) c ≡ ok tt → o ≡ some s
text_is none s c h = absurd (ground arith)
text_is (some t) s c h = ground (arith, eq_iff t s)

-- What a receipt that was accepted says.
pub record Accepted (id : String) (receipt : Json) (o : Outcome) : Type 0 where
  pub queued : Json
  pub queue_id : String
  pub holds_queued : get "queuedSubmission" receipt ≡ some queued
  pub names_message : as_str (get "clientUserMessageId" queued) ≡ some id
  pub names_queue_id : as_str (get "id" queued) ≡ some queue_id
  pub outcome : o ≡ sent_as (concat "codex_queued:" queue_id)

of_member : (o : Option Json) (c : Json) → o ≡ some c → as_str o ≡ as_str (some c)
of_member o c h = ap as_str h

pub queued_receipt-Accepted :
    (id : String) (receipt : Json) (o : Outcome)
    → queued_receipt id receipt ≡ ok o
    → Accepted id receipt o
unfolding queued_receipt
queued_receipt-Accepted id receipt o h =
    let (queued, e, h) = ok_step (ok_or (get "queuedSubmission" receipt) _) _ o h in
    let (client_id, f, h) = ok_step (ok_or (get "clientUserMessageId" queued) _) _ o h in
    let (g, h) = both (refuse_if (not (is_text (as_str (some client_id)) id)) _) _ o h in
    let (queue_id, k, h) = ok_step (ok_or (as_str (get "id" queued)) _) _ o h in
    record {
      queued = queued;
      queue_id = queue_id;
      holds_queued = ok_or-some _ queued _ e;
      names_message = of_member _ client_id (ok_or-some _ client_id _ f) ∙ text_is _ id _ g;
      names_queue_id = ok_or-some _ queue_id _ k;
      outcome = sym (ok_same h);
    }

some_same : {A : Type 0} {a b : A} → some a ≡ some b → a ≡ b
some_same h = cc

pub strip_prefix-concat : (p s : String) → strip_prefix p (concat p s) ≡ some s
strip_prefix-concat String.[] s = refl
strip_prefix-concat (String.◌∷◌ c p) s =
    ground (arith, strip_prefix-concat p s, (nat_eq_iff (char_code c) (char_code c)).1 refl)

-- For a receipt of a notice that was accepted, and a saved message with that outcome: the removal
-- over the socket takes from the message exactly the queue's ID that the receipt named.
pub queued_in-receipt :
    (id path : String) (receipt queued : Json) (o : Outcome) (row : Row)
    → queued_receipt id receipt ≡ ok o
    → get "queuedSubmission" receipt ≡ some queued
    → row.submission ≡ o.submission
    → row.notification_detail ≡ some o.detail
    → queued_in (some path) row ≡ as_str (get "id" queued)
unfolding queued_in
queued_in-receipt id path receipt queued o row h there s d =
    let a = queued_receipt-Accepted id receipt o h in
    let is_submitted : row.submission ≡ submitted = s ∙ ap (λ x. x.submission) a.outcome in
    let detail : row.notification_detail ≡ some (concat "codex_queued:" a.queue_id) =
      d ∙ ap (λ x. some x.detail) a.outcome in
    rw (is_submitted, detail)
      (strip_prefix-concat "codex_queued:" a.queue_id
        ∙ sym a.names_queue_id
        ∙ ap (λ j. as_str (get "id" j)) (some_same (sym a.holds_queued ∙ there)))
