-- ===== src/Db/Peers/Effect.antt =====
-- What `register` does to the tables: nothing, or one peer whose name and session are new.
use harness_talk.Prelude.{
  true, false, ◌≡◌, ◌⊎◌, inl, inr, none, [], ◌∷◌, ◌++◌, arith, any, Bool-cases, Option-cases, All,
  List, String, String_eq, some, ◌≢◌, eq_iff,
}
use harness_talk.Db.{PeerRow, Db, find_peer}
use harness_talk.Db.Write.{commit}
use harness_talk.Db.Peers.{
  has_session, fits_delivery, insert_peer, register_new, register_again, register_txn,
}

abbrev pub with_peer : PeerRow → Db → Db
with_peer row d = record d { peers = d.peers ++ row ∷ [] }

-- Not a peer of the same harness with the same session.
abbrev pub HasOtherSession : PeerRow → PeerRow → Type 0
HasOtherSession row p =
    p.harness ≡ row.harness → (s : String) → row.session_id ≡ some s → p.session_id ≢ some s

has_session_of :
    (row p : PeerRow) (s : String)
    → p.harness ≡ row.harness
    → row.session_id ≡ some s
    → p.session_id ≡ some s
    → has_session row p ≡ true
unfolding has_session
has_session_of row p s h e f = rw (e, f) (ground (arith, eq_iff p.harness row.harness, eq_iff s s))

no_double_of :
    (row : PeerRow) (ps : List PeerRow)
    → any (has_session row) ps ≡ false
    → All (HasOtherSession row) ps
no_double_of row [] h = tt
no_double_of row (p ∷ ps) h = (
  λ same s e f. absurd (ground (arith, has_session_of row p s same e f)),
  no_double_of row ps (ground arith),
)

pub record Registers (row : PeerRow) (d : Db) : Type 0 where
  pub fresh : find_peer row.name d ≡ none
  pub new_session : any (has_session row) d.peers ≡ false
  pub no_double : All (HasOtherSession row) d.peers
  pub fits : fits_delivery row ≡ true

register_new_cases :
    (row : PeerRow) (d : Db)
    → find_peer row.name d ≡ none
    → ((commit d (register_new row d)).1 ≡ d)
      ⊎ (((commit d (register_new row d)).1 ≡ with_peer row d) × Registers row d)
unfolding register_new insert_peer
register_new_cases row d h = elim (Bool-cases (any (has_session row) d.peers)) [
  | inl e ↦ inl (ground arith)
  | inr e ↦ elim (Bool-cases (fits_delivery row)) [
    | inl f ↦ inr (
      ground arith,
      record { fresh = h; new_session = e; no_double = no_double_of row d.peers e; fits = f },
    )
    | inr f ↦ inl (ground arith)
  ]
]

register_again_keeps :
    (row : PeerRow) (d : Db) (p : PeerRow) → (commit d (register_again row d p)).1 ≡ d
unfolding register_again
register_again_keeps row d p = ground arith

-- The transaction of register leaves the tables as they were, or adds the peer that was given. It
-- adds it only where no peer has its name, no peer of its harness has its session, and its address
-- fits its delivery.
pub register_txn_cases :
    (row : PeerRow) (d : Db)
    → ((register_txn row d).1 ≡ d) ⊎ (((register_txn row d).1 ≡ with_peer row d) × Registers row d)
unfolding register_txn
register_txn_cases row d = elim (Option-cases (find_peer row.name d)) [
  | inl e ↦ rw e (register_new_cases row d e)
  | inr (p, e) ↦ inl (rw e (register_again_keeps row d p))
]
