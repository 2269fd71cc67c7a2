-- ===== src/Db/History.antt =====
-- How a later state of the tables relates to an earlier one: texts, addresses, marks, peers.
use harness_talk.Prelude.{
  ℕ, String, String_eq, Bool, true, ◌≡◌, refl, ◌∙◌, ap, inl, inr, Option, none, some, List, [], ◌∷◌,
  ◌++◌, arith, ◌==◌, find?, update_where, if◌then◌else◌, Bool-cases,
}
use harness_talk.Prelude.Find.{map_found, find?-append, find?-update_where}
use harness_talk.Model.{Submission, Row, Outcome}
use harness_talk.Db.{PeerRow, Db, find_peer, find_message}
use harness_talk.Db.Peers.{retire_row, restore_row}
use harness_talk.Db.Peers.Effect.{with_peer, register_txn_cases}
use harness_talk.Db.Save.{Draft}
use harness_talk.Db.Save.Effect.{with_new, save_txn_cases}
use harness_talk.Db.Update.{
  claim, claimable, claimed, finish, finished, set_ack, set_returned, acked, returned, coalesce,
  addressed, add_wait, drop_wait,
}
use harness_talk.Db.Txn.{
  Txn, apply, register, retire, restore, save, start_notification, end_notification, ack,
  mark_returned, register_wait, remove_wait,
}

-- A mark that is set stays as it is.
abbrev pub Kept : Option ℕ → Option ℕ → Type 0
Kept a b = (t : ℕ) → a ≡ some t → b ≡ some t

pub record Grows (m m' : Row) : Type 0 where
  pub seq : m'.seq ≡ m.seq
  pub id : m'.id ≡ m.id
  pub sender : m'.sender ≡ m.sender
  pub recipient : m'.recipient ≡ m.recipient
  pub in_reply_to : m'.in_reply_to ≡ m.in_reply_to
  pub body : m'.body ≡ m.body
  pub created_at : m'.created_at ≡ m.created_at
  pub ack_at : Kept m.ack_at m'.ack_at
  pub started : Kept m.notification_started_at m'.notification_started_at
  pub returned : Kept m.wait_returned_at m'.wait_returned_at

pub Grows-refl : (m : Row) → Grows m m
Grows-refl m = record {
  seq = refl;
  id = refl;
  sender = refl;
  recipient = refl;
  in_reply_to = refl;
  body = refl;
  created_at = refl;
  ack_at = λ t h. h;
  started = λ t h. h;
  returned = λ t h. h;
}

-- A row that differs in its marks alone.
abbrev pub with_marks :
    Row → Submission → Option String → Option ℕ → Option ℕ → Option ℕ → Option ℕ → Row
with_marks m submission detail finished_at started ack_at returned = record m {
  submission = submission;
  notification_detail = detail;
  notification_finished_at = finished_at;
  notification_started_at = started;
  ack_at = ack_at;
  wait_returned_at = returned;
}

Grows-marks :
    (m : Row) {sub : Submission} {detail : Option String} {fin started ack returned : Option ℕ}
    → Kept m.notification_started_at started
    → Kept m.ack_at ack
    → Kept m.wait_returned_at returned
    → Grows m (with_marks m sub detail fin started ack returned)
Grows-marks m s a r = record {
  seq = refl;
  id = refl;
  sender = refl;
  recipient = refl;
  in_reply_to = refl;
  body = refl;
  created_at = refl;
  ack_at = a;
  started = s;
  returned = r;
}

pub Grows-trans : {a b c : Row} → Grows a b → Grows b c → Grows a c
Grows-trans g h = record {
  seq = h.seq ∙ g.seq;
  id = h.id ∙ g.id;
  sender = h.sender ∙ g.sender;
  recipient = h.recipient ∙ g.recipient;
  in_reply_to = h.in_reply_to ∙ g.in_reply_to;
  body = h.body ∙ g.body;
  created_at = h.created_at ∙ g.created_at;
  ack_at = λ t e. h.ack_at t (g.ack_at t e);
  started = λ t e. h.started t (g.started t e);
  returned = λ t e. h.returned t (g.returned t e);
}

pub record Extends (d d' : Db) : Type 0 where
  pub messages :
      (id : String) (m : Row)
      → find_message id d ≡ some m
      → (m' : Row) × (find_message id d' ≡ some m') × Grows m m'
  pub peers : (name : String) (p : PeerRow) → find_peer name d ≡ some p → find_peer name d' ≡ some p

pub Extends-refl : (d : Db) → Extends d d
Extends-refl d = record { messages = λ id m h. (m, h, Grows-refl m); peers = λ name p h. h }

pub Extends-trans : {d e f : Db} → Extends d e → Extends e f → Extends d f
Extends-trans a b = record {
  messages = λ id m h.
      let (m', h', g) = a.messages id m h in
      let (m'', h'', g') = b.messages id m' h' in (m'', h'', Grows-trans g g');
  peers = λ name p h. b.peers name p (a.peers name p h);
}

-- An update of messages, each of which grows by it.
module _ (p : Row → Bool) (f : Row → Row) where
  abbrev pub updated : Db → Db
  updated d = record d { messages = update_where p f d.messages }

  module _ (grow : (m : Row) → p m ≡ true → Grows m (f m)) where
    where-Grows : (m : Row) → Grows m (if p m then f m else m)
    where-Grows m = elim (Bool-cases (p m)) [
      | inl e ↦ rw e (grow m e)
      | inr e ↦ rw e (Grows-refl m)
    ]

module _ (p : Row → Bool) (f : Row → Row) (grow : (m : Row) → p m ≡ true → Grows m (f m)) where
  -- An update that lets its messages grow keeps every ID, so that a search finds the same row.
  pub find_message-updated :
      (id : String) (d : Db)
      → find_message id (updated p f d)
        ≡ map_found (λ m. if p m then f m else m) (find_message id d)
  unfolding find_message
  find_message-updated id d =
      find?-update_where (λ m. m.id == id) p f (λ m e. ap (λ i. i == id) (grow m e).id) d.messages

  pub Extends-updated : (d : Db) → Extends d (updated p f d)
  Extends-updated d = record {
    messages = λ id m h. (
      if p m then f m else m,
      find_message-updated id d ∙ ap (map_found _) h,
      where-Grows p f grow m,
    );
    peers = λ name q h. unfold find_peer in h;
  }

coalesce-Kept : (now : ℕ) (a : Option ℕ) → Kept a (coalesce a now)
coalesce-Kept now none = λ t h. cc
coalesce-Kept now (some t) = λ u h. h

same_mark : {a : Option ℕ} → Kept a a
same_mark = λ t h. h

claimed-Kept :
    (id : String) (now : ℕ) (d : Db) (m : Row)
    → claimable id d m ≡ true
    → Kept m.notification_started_at (some now)
unfolding claimable
claimed-Kept id now d m h = λ t e. absurd (ground arith)

-- Each update of a message lets it grow.
pub claimed-Grows :
    (id : String) (now : ℕ) (d : Db) (m : Row) → claimable id d m ≡ true → Grows m (claimed now m)
claimed-Grows id now d m h = Grows-marks m (claimed-Kept id now d m h) same_mark same_mark

pub finished-Grows : (o : Outcome) (now : ℕ) (m : Row) → Grows m (finished o now m)
finished-Grows o now m = Grows-marks m same_mark same_mark same_mark

pub acked-Grows : (now : ℕ) (m : Row) → Grows m (acked now m)
acked-Grows now m = Grows-marks m same_mark (coalesce-Kept now m.ack_at) same_mark

pub returned-Grows : (now : ℕ) (m : Row) → Grows m (returned now m)
returned-Grows now m = Grows-marks m same_mark same_mark (coalesce-Kept now m.wait_returned_at)

claim-Extends : (id : String) (now : ℕ) (d : Db) → Extends d (claim id now d).1
unfolding claim
claim-Extends id now d = Extends-updated (claimable id d) (claimed now) (claimed-Grows id now d) d

finish-Extends : (id : String) (o : Outcome) (now : ℕ) (d : Db) → Extends d (finish id o now d).1
unfolding finish
finish-Extends id o now d =
    Extends-updated (λ m. m.id == id) (finished o now) (λ m _. finished-Grows o now m) d

set_ack-Extends : (id actor : String) (now : ℕ) (d : Db) → Extends d (set_ack id actor now d).1
unfolding set_ack
set_ack-Extends id actor now d =
    Extends-updated (addressed id actor) (acked now) (λ m _. acked-Grows now m) d

set_returned-Extends :
    (id actor : String) (now : ℕ) (d : Db) → Extends d (set_returned id actor now d).1
unfolding set_returned
set_returned-Extends id actor now d =
    Extends-updated (addressed id actor) (returned now) (λ m _. returned-Grows now m) d

-- A row that is added at the end hides none that was there.
found_before {ℓ} :
    {A : Type ℓ} (q : A → Bool) (xs : List A) (y x : A)
    → find? q xs ≡ some x
    → find? q (xs ++ y ∷ []) ≡ some x
found_before q xs y x h = rw (find?-append q xs (y ∷ [])) (ground arith)

pub with_new-Extends : (draft : Draft) (now : ℕ) (d : Db) → Extends d (with_new draft now d)
unfolding find_message find_peer
with_new-Extends draft now d = record {
  messages = λ id m h. (m, found_before _ d.messages _ m h, Grows-refl m);
  peers = λ name p h. h;
}

pub with_peer-Extends : (row : PeerRow) (d : Db) → Extends d (with_peer row d)
unfolding find_message find_peer
with_peer-Extends row d = record {
  messages = λ id m h. (m, h, Grows-refl m);
  peers = λ name p h. found_before _ d.peers row p h;
}

-- A change of neither table.
same_tables : (d d' : Db) → d'.messages ≡ d.messages → d'.peers ≡ d.peers → Extends d d'
unfolding find_message find_peer
same_tables d d' m p = record {
  messages = λ id r h. (r, rw m h, Grows-refl r);
  peers = λ name r h. rw p h;
}

-- Every transaction extends the tables.
pub apply-Extends : (t : Txn) (d : Db) → Extends d (apply t d)
unfolding apply
apply-Extends (register row) d = elim (register_txn_cases row d) [
  | inl e ↦ rw e (Extends-refl d)
  | inr (e, _) ↦ rw e (with_peer-Extends row d)
]
apply-Extends (retire name now) d =
    same_tables d _ (unfold retire_row in ground arith) (unfold retire_row in ground arith)
apply-Extends (restore name) d = unfold restore_row in same_tables d _ refl refl
apply-Extends (save draft now) d = elim (save_txn_cases draft now d) [
  | inl e ↦ rw e (Extends-refl d)
  | inr (e, _) ↦ rw e (with_new-Extends draft now d)
]
apply-Extends (start_notification id now) d = claim-Extends id now d
apply-Extends (end_notification id o now) d = finish-Extends id o now d
apply-Extends (ack id actor now) d = set_ack-Extends id actor now d
apply-Extends (mark_returned id actor now) d = set_returned-Extends id actor now d
apply-Extends (register_wait w now) d =
    same_tables d _ (unfold add_wait in ground arith) (unfold add_wait in ground arith)
apply-Extends (remove_wait token) d = unfold drop_wait in same_tables d _ refl refl
