-- ===== src/Model/Words.antt =====
-- The words that `Submission`, `SkipReason` and `Delivery` of src/model.rs are stored as, and
-- what is read back from them.
use harness_talk.Prelude.{
  String, String_eq, Option, none, some, ◌≡◌, refl, ◌↔◌, ap, ◌∙◌, ◌==◌, if◌then◌else◌, arith,
  eq_iff,
}
use harness_talk.Error.{Result, ok, err, code}
use harness_talk.Model.{
  Submission, not_submitted, submission_unknown, submitted, SkipReason, pull_only,
  acknowledged_before_notification, returned_by_recipient_wait, recipient_retired, Delivery, native,
  pull,
}

-- `Submission::as_str`
unfoldable pub submission_as_str : Submission → String
submission_as_str not_submitted = "not_submitted"
submission_as_str submission_unknown = "submission_unknown"
submission_as_str submitted = "submitted"

-- `Submission::from_str`
unfoldable pub submission_from_str : String → Result Submission
submission_from_str s =
    if s == "not_submitted"
    then ok not_submitted
    else if s == "submission_unknown"
    then ok submission_unknown
    else if s == "submitted"
    then ok submitted
    else err (code "invalid_notification_result")

-- `SkipReason::as_str`
unfoldable pub skip_reason_as_str : SkipReason → String
skip_reason_as_str pull_only = "pull_only"
skip_reason_as_str acknowledged_before_notification = "acknowledged_before_notification"
skip_reason_as_str returned_by_recipient_wait = "returned_by_recipient_wait"
skip_reason_as_str recipient_retired = "recipient_retired"

-- `SkipReason::parse`
unfoldable pub parse_skip_reason : String → Option SkipReason
parse_skip_reason s =
    if s == "pull_only"
    then some pull_only
    else if s == "acknowledged_before_notification"
    then some acknowledged_before_notification
    else if s == "returned_by_recipient_wait"
    then some returned_by_recipient_wait
    else if s == "recipient_retired"
    then some recipient_retired
    else none

-- `Delivery::as_str`
unfoldable pub delivery_as_str : Delivery → String
delivery_as_str native = "native"
delivery_as_str pull = "pull"

-- `Delivery::from_str`
unfoldable pub delivery_from_str : String → Result Delivery
delivery_from_str s =
    if s == "native"
    then ok native
    else if s == "pull"
    then ok pull
    else err (code "unsupported_delivery")

submission_from_str-as_str : (s : Submission) → submission_from_str (submission_as_str s) ≡ ok s
unfolding submission_from_str submission_as_str
submission_from_str-as_str not_submitted = refl
submission_from_str-as_str submission_unknown = refl
submission_from_str-as_str submitted = refl

parse_skip_reason-as_str : (r : SkipReason) → parse_skip_reason (skip_reason_as_str r) ≡ some r
unfolding parse_skip_reason skip_reason_as_str
parse_skip_reason-as_str pull_only = refl
parse_skip_reason-as_str acknowledged_before_notification = refl
parse_skip_reason-as_str returned_by_recipient_wait = refl
parse_skip_reason-as_str recipient_retired = refl

delivery_from_str-as_str : (d : Delivery) → delivery_from_str (delivery_as_str d) ≡ ok d
unfolding delivery_from_str delivery_as_str
delivery_from_str-as_str native = refl
delivery_from_str-as_str pull = refl

submission_as_str-from_str :
    (s : String) (r : Submission) → submission_from_str s ≡ ok r → s ≡ submission_as_str r
unfolding submission_from_str submission_as_str
submission_as_str-from_str s r h =
    ground (arith, eq_iff s "not_submitted", eq_iff s "submission_unknown", eq_iff s "submitted")

as_str-parse_skip_reason :
    (s : String) (r : SkipReason) → parse_skip_reason s ≡ some r → s ≡ skip_reason_as_str r
unfolding parse_skip_reason skip_reason_as_str
as_str-parse_skip_reason s r h = ground (
  arith,
  eq_iff s "pull_only",
  eq_iff s "acknowledged_before_notification",
  eq_iff s "returned_by_recipient_wait",
  eq_iff s "recipient_retired",
)

delivery_as_str-from_str :
    (s : String) (d : Delivery) → delivery_from_str s ≡ ok d → s ≡ delivery_as_str d
unfolding delivery_from_str delivery_as_str
delivery_as_str-from_str s d h = ground (arith, eq_iff s "native", eq_iff s "pull")

-- A text is read as a state of submission exactly where it is the word of that state.
pub submission_words :
    (s : String) (r : Submission) → (submission_from_str s ≡ ok r) ↔ (s ≡ submission_as_str r)
submission_words s r =
    (submission_as_str-from_str s r, λ e. ap submission_from_str e ∙ submission_from_str-as_str r)

-- A text is read as a reason to skip exactly where it is the word of that reason.
pub skip_reason_words :
    (s : String) (r : SkipReason) → (parse_skip_reason s ≡ some r) ↔ (s ≡ skip_reason_as_str r)
skip_reason_words s r =
    (as_str-parse_skip_reason s r, λ e. ap parse_skip_reason e ∙ parse_skip_reason-as_str r)

-- A text is read as a delivery exactly where it is the word of that delivery.
pub delivery_words :
    (s : String) (d : Delivery) → (delivery_from_str s ≡ ok d) ↔ (s ≡ delivery_as_str d)
delivery_words s d =
    (delivery_as_str-from_str s d, λ e. ap delivery_from_str e ∙ delivery_from_str-as_str d)
