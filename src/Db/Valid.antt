-- ===== src/Db/Valid.antt =====
-- The order and the uniqueness that src/schema.rs asks of `messages`, and how the transactions
-- keep them.
pub mod Update
pub mod Insert
pub mod Steps
use harness_talk.Prelude.{
  ℕ, zero, ◌+◌, ◌≤◌, ◌<◌, String, String_eq, Bool, true, false, ◌≡◌, ◌≢◌, refl, sym, ◌∙◌, ap,
  fun_ext, ◌⊎◌, inl, inr, Option, none, some, List, [], ◌∷◌, ◌++◌, arith, ◌==◌, eq_iff, find?,
  update_where, if◌then◌else◌, Bool-cases,
}
use harness_talk.Prelude.Find.{map_found, or_found, find?-append, find?-update_where}
use harness_talk.Model.{Row}
use harness_talk.Db.{Db, column_eq, is_some, find_peer, find_message}

-- No row after another is its double.
abbrev pub Apart : (Row → Row → Bool) → List Row → Type 0
Apart q [] = Unit
Apart q (m ∷ ms) = (find? (q m) ms ≡ none) × Apart q ms

-- The rows stand in the order of `seq`, above `low` and up to `high`.
abbrev pub Ordered : ℕ → List Row → ℕ → Type 0
Ordered low [] high = low ≤ high
Ordered low (m ∷ ms) high = (low < m.seq) × Ordered m.seq ms high

abbrev pub same_id : Row → Row → Bool
same_id m n = n.id == m.id

abbrev pub request_eq : Option String → Option String → Bool
request_eq none r = false
request_eq (some q) r = column_eq q r

abbrev pub same_request : Row → Row → Bool
same_request m n = request_eq m.in_reply_to n.in_reply_to

Ordered-append :
    (low : ℕ) (ms : List Row) (m : Row) (high : ℕ)
    → Ordered low ms high
    → high < m.seq
    → Ordered low (ms ++ m ∷ []) m.seq
Ordered-append low [] m high h k = (omega arith, omega arith)
Ordered-append low (n ∷ ms) m high h k = (h.0, Ordered-append n.seq ms m high h.1 k)

module _ (p : Row → Bool) (f : Row → Row) (same : (m : Row) → p m ≡ true → (f m).seq ≡ m.seq) where
  seq_same : (m : Row) → (if p m then f m else m).seq ≡ m.seq
  seq_same m = elim (Bool-cases (p m)) [ inl e ↦ rw e (same m e) | inr e ↦ rw e ]

  pub Ordered-update_where :
      (low : ℕ) (ms : List Row) (high : ℕ)
      → Ordered low ms high
      → Ordered low (update_where p f ms) high
  Ordered-update_where low [] high h = h
  Ordered-update_where low (m ∷ ms) high h =
      rw (seq_same m) (h.0, Ordered-update_where m.seq ms high h.1)

module _ (q : Row → Row → Bool) where
  pub Apart-append :
      (ms : List Row) (m : Row) → Apart q ms → find? (λ x. q x m) ms ≡ none → Apart q (ms ++ m ∷ [])
  Apart-append [] m h k = (refl, tt)
  Apart-append (n ∷ ms) m h k =
      (find?-append (q n) ms (m ∷ []) ∙ ground arith, Apart-append ms m h.1 (ground arith))

module _ (q : Row → Row → Bool) (p : Row → Bool) (f : Row → Row)
    (left : (m n : Row) → p m ≡ true → q (f m) n ≡ q m n)
    (right : (m n : Row) → p n ≡ true → q m (f n) ≡ q m n) where
  left_same : (m n : Row) → q (if p m then f m else m) n ≡ q m n
  left_same m n = elim (Bool-cases (p m)) [ inl e ↦ rw e (left m n e) | inr e ↦ rw e ]

  pub Apart-update_where : (ms : List Row) → Apart q ms → Apart q (update_where p f ms)
  Apart-update_where [] h = tt
  Apart-update_where (m ∷ ms) h = (
    rw (fun_ext (left_same m))
        (find?-update_where (q m) p f (λ n e. right m n e) ms ∙ ap (map_found _) h.0),
    Apart-update_where ms h.1,
  )

-- A reply answers a request that is there, between the same two peers.
pub record RepliesTo (d : Db) (m : Row) (request : String) : Type 0 where
  pub parent : Row
  pub found : find_message request d ≡ some parent
  pub is_request : parent.in_reply_to ≡ none
  pub from_recipient : m.sender ≡ parent.recipient
  pub to_sender : m.recipient ≡ parent.sender

-- `known` and `replies` are the references of the table, and what `save` asks beyond them.
pub record IsValid (d : Db) : Type 0 where
  pub ordered : Ordered 0 d.messages d.last_seq
  pub unique_ids : Apart same_id d.messages
  pub one_answer : Apart same_request d.messages
  pub known :
      (id : String) (m : Row)
      → find_message id d ≡ some m
      → (is_some (find_peer m.sender d) ≡ true) × (is_some (find_peer m.recipient d) ≡ true)
  pub replies :
      (id : String) (m : Row) (q : String)
      → find_message id d ≡ some m
      → m.in_reply_to ≡ some q
      → q ≢ ""
      → RepliesTo d m q

abbrev pub empty : Db
empty = record { peers = []; retired = []; messages = []; last_seq = 0; waits = [] }

pub empty-IsValid : IsValid empty
unfolding find_message
empty-IsValid = record {
  ordered = omega arith;
  unique_ids = tt;
  one_answer = tt;
  known = λ id m h. cc;
  replies = λ id m q h. cc;
}
