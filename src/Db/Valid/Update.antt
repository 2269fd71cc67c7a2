-- ===== src/Db/Valid/Update.antt =====
-- An update that lets messages grow keeps the tables valid.
use harness_talk.Prelude.{
  String, String_eq, Bool, true, ◌≡◌, refl, sym, ◌∙◌, ap, inl, inr, some, arith, ◌==◌, Option-cases,
}
use mathlib.Core.Path.{subst}
use harness_talk.Model.{Row}
use harness_talk.Db.{Db, is_some, find_peer, find_message}
use harness_talk.Db.History.{Grows, Extends, updated, find_message-updated, Extends-updated}
use harness_talk.Db.Valid.{
  same_id, request_eq, same_request, Ordered-update_where, Apart-update_where, RepliesTo, IsValid,
}

-- A peer that is known stays known.
pub known_later :
    {d e : Db} (x : Extends d e) (name : String)
    → is_some (find_peer name d) ≡ true
    → is_some (find_peer name e) ≡ true
known_later {d} x name h = elim (Option-cases (find_peer name d)) [
  | inl e ↦ absurd (ground arith)
  | inr (p, e) ↦ rw (x.peers name p e) refl
]

-- A reply to a request stays one.
pub RepliesTo-later :
    {d e : Db} (x : Extends d e) (m m' : Row) (q : String)
    → Grows m m'
    → RepliesTo d m q
    → RepliesTo e m' q
RepliesTo-later x m m' q g r =
    let (parent, found, grown) = x.messages q r.parent r.found in
    record {
      parent = parent;
      found = found;
      is_request = grown.in_reply_to ∙ r.is_request;
      from_recipient = g.sender ∙ r.from_recipient ∙ sym grown.recipient;
      to_sender = g.recipient ∙ r.to_sender ∙ sym grown.sender;
    }

module _ (p : Row → Bool) (f : Row → Row) (grow : (m : Row) → p m ≡ true → Grows m (f m)) where
  -- What an update finds has grown from what was there.
  grown_from :
      (d : Db) (id : String) (m' : Row)
      → find_message id (updated p f d) ≡ some m'
      → (m : Row) × (find_message id d ≡ some m) × Grows m m'
  grown_from d id m' h = elim (Option-cases (find_message id d)) [
    | inl e ↦ absurd (cc (find_message-updated p f grow id d, e, h))
    | inr (m, e) ↦
        let (n, found, g) = (Extends-updated p f grow d).messages id m e in
        let same : n ≡ m' = cc (found, h) in (m, e, subst (Grows m) same g)
  ]

  pub updated-IsValid : (d : Db) → IsValid d → IsValid (updated p f d)
  updated-IsValid d v = record {
    ordered = Ordered-update_where p f (λ m e. (grow m e).seq) 0 d.messages d.last_seq v.ordered;
    unique_ids =
        Apart-update_where same_id p f (λ m n e. ap (λ i. n.id == i) (grow m e).id)
          (λ m n e. ap (λ i. i == m.id) (grow n e).id) d.messages v.unique_ids;
    one_answer =
        Apart-update_where same_request p f
          (λ m n e. ap (λ r. request_eq r n.in_reply_to) (grow m e).in_reply_to)
          (λ m n e. ap (request_eq m.in_reply_to) (grow n e).in_reply_to) d.messages v.one_answer;
    known = λ id m' h.
        let (m, found, g) = grown_from d id m' h in
        let (a, b) = v.known id m found in
        let x = Extends-updated p f grow d in
        (rw g.sender (known_later x m.sender a), rw g.recipient (known_later x m.recipient b));
    replies = λ id m' q h r ne.
        let (m, found, g) = grown_from d id m' h in
        RepliesTo-later (Extends-updated p f grow d) m m' q g
          (v.replies id m q found (sym g.in_reply_to ∙ r) ne);
  }
