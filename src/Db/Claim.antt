-- ===== src/Db/Claim.antt =====
-- The claim of a notification (`notify_once` in src/store.rs), and whether one was started.
use harness_talk.Prelude.{
  ℕ, ◌≤◌, String, String_eq, true, ◌≡◌, ◌≢◌, refl, ◌∙◌, ap, inl, inr, Option, none, some, List, [],
  ◌∷◌, arith, ◌==◌, eq_iff, find?, count, Bool-cases, Option-cases,
}
use mathlib.Core.Path.{subst}
use harness_talk.Prelude.Find.{map_found}
use harness_talk.Error.{ok}
use harness_talk.Model.{Row}
use harness_talk.Db.{Db, find_message}
use harness_talk.Db.History.{Kept, Extends, find_message-updated, claimed-Grows}
use harness_talk.Db.Valid.{Apart, same_id, IsValid}
use harness_talk.Db.Update.{claim, claimable, claimed}

-- 1 once the notification of the message has been claimed.
abbrev pub mark_count : Option ℕ → ℕ
mark_count none = 0
mark_count (some t) = 1

abbrev pub row_started : Option Row → ℕ
row_started none = 0
row_started (some m) = mark_count m.notification_started_at

unfoldable pub started : String → Db → ℕ
started id d = row_started (find_message id d)

Kept-mark_count : (a b : Option ℕ) → Kept a b → mark_count a ≤ mark_count b
Kept-mark_count none b h = omega arith
Kept-mark_count (some t) b h = rw (h t refl) (omega arith)

pub started-Extends : {d e : Db} (id : String) → Extends d e → started id d ≤ started id e
unfolding started
started-Extends {d} id x = elim (Option-cases (find_message id d)) [
  | inl e ↦ rw e (omega arith)
  | inr (m, e) ↦ let (m', e', g) = x.messages id m e in rw (e, e') (Kept-mark_count _ _ g.started)
]

claimable-id : (id : String) (d : Db) (m : Row) → claimable id d m ≡ true → (m.id == id) ≡ true
unfolding claimable
claimable-id id d m h = ground arith

claimable-unstarted :
    (id : String) (d : Db) (m : Row) → claimable id d m ≡ true → m.notification_started_at ≡ none
unfolding claimable
claimable-unstarted id d m h = ground arith

none-claimable :
    (id : String) (d : Db) (ms : List Row)
    → find? (λ m. m.id == id) ms ≡ none
    → count (claimable id d) ms ≡ 0
none-claimable id d [] h = refl
none-claimable id d (m ∷ ms) h = ground (arith, claimable-id id d m, none-claimable id d ms)

-- With unique IDs, the row that a claim changes is the one that the ID finds.
claimable_found :
    (id : String) (d : Db) (ms : List Row)
    → Apart same_id ms
    → count (claimable id d) ms ≢ 0
    → (m : Row) × (find? (λ m. m.id == id) ms ≡ some m) × (claimable id d m ≡ true)
claimable_found id d [] a h = absurd (h refl)
claimable_found id d (m ∷ ms) a h = elim (Bool-cases (m.id == id)) [
  | inl e ↦ elim (Bool-cases (claimable id d m)) [
    | inl c ↦ (m, ground arith, c)
    | inr c ↦ absurd (
        h (
          rw c (
            none-claimable id d ms
              (subst (λ i. find? (λ n. n.id == i) ms ≡ none) ((eq_iff m.id id).0 e) a.0))))
  ]
  | inr e ↦
      let (n, found, c) =
        claimable_found id d ms a.1 (λ z. h (ground (arith, claimable-id id d m))) in
      (n, ground arith, c)
]

-- A claim that changes a row is the first, and starts the notification.
pub claim_starts :
    (id : String) (now : ℕ) (d : Db)
    → IsValid d
    → (claim id now d).0 ≢ ok 0
    → (started id d ≡ 0) × (started id (claim id now d).1 ≡ 1)
unfolding started claim find_message
claim_starts id now d v h =
    let (m, found, c) = claimable_found id d d.messages v.unique_ids (λ e. h (ap ok e)) in
    (
      rw found (rw (claimable-unstarted id d m c) refl),
      rw
          (find_message-updated (claimable id d) (claimed now) (claimed-Grows id now d) id d
            ∙ ap (map_found _) found)
          (rw c refl),
    )
