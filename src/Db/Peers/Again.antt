-- ===== src/Db/Peers/Again.antt =====
-- A peer that is registered again, with the same address or another.
use harness_talk.Prelude.{
  String_eq, Option_eq, true, ◌≡◌, refl, ◌∙◌, ap, none, some, arith, ◌==◌, beq_refl, if◌then◌else◌,
  inl, inr, Option-cases,
}
use harness_talk.Prelude.Find.{find?-append}
use harness_talk.Error.{ok, err, code}
use harness_talk.Db.{PeerRow, Db, find_peer}
use harness_talk.Db.History.{Extends}
use harness_talk.Db.Peers.{same_address, insert_peer, register_new, register_again, register_txn}
use harness_talk.Db.Peers.Effect.{with_peer}

same_address_refl : (p : PeerRow) → same_address p p ≡ true
unfolding same_address
same_address_refl p =
    rw
      (
        beq_refl p.name,
        beq_refl p.harness,
        beq_refl p.session_id,
        beq_refl p.workspace,
        beq_refl p.socket,
        beq_refl p.url,
      )
      (ground arith)

find_peer-with_peer :
    (row : PeerRow) (d : Db)
    → find_peer row.name d ≡ none
    → find_peer row.name (with_peer row d) ≡ some row
unfolding find_peer
find_peer-with_peer row d h =
    find?-append (λ p. p.name == row.name) d.peers _ ∙ ground (arith, beq_refl row.name)

register_txn-known :
    (row : PeerRow) (d : Db) (p : PeerRow)
    → find_peer row.name d ≡ some p
    → register_txn row d ≡ (
        if same_address p row
        then (ok tt, d)
        else (err (code "peer_already_has_a_different_address"), d))
unfolding register_txn register_again
register_txn-known row d p h = ground arith

register_txn-new :
    (row : PeerRow) (d : Db)
    → find_peer row.name d ≡ none
    → (register_txn row d).0 ≡ ok tt
    → (register_txn row d).1 ≡ with_peer row d
unfolding register_txn register_new insert_peer
register_txn-new row d e h = ground arith

register_txn-same_address :
    (row : PeerRow) (d : Db) (p : PeerRow)
    → find_peer row.name d ≡ some p
    → (register_txn row d).0 ≡ ok tt
    → ((register_txn row d).1 ≡ d) × (same_address p row ≡ true)
unfolding register_txn register_again
register_txn-same_address row d p e h = (ground arith, ground arith)

-- A registration that succeeds leaves the peer with this very address.
registered :
    (row : PeerRow) (d : Db)
    → (register_txn row d).0 ≡ ok tt
    → (p : PeerRow) × (find_peer row.name (register_txn row d).1 ≡ some p)
      × (same_address p row ≡ true)
registered row d h = elim (Option-cases (find_peer row.name d)) [
  | inl e ↦ (
    row,
    ap (find_peer row.name) (register_txn-new row d e h) ∙ find_peer-with_peer row d e,
    same_address_refl row,
  )
  | inr (p, e) ↦
      let (step, same) = register_txn-same_address row d p e h in
      (p, ap (find_peer row.name) step ∙ e, same)
]

-- Once a peer has been registered, to register it again with the same address succeeds and changes
-- nothing, in every later state of the tables.
pub register_again_keeps :
    (row : PeerRow) (d e : Db)
    → (register_txn row d).0 ≡ ok tt
    → Extends (register_txn row d).1 e
    → register_txn row e ≡ (ok tt, e)
register_again_keeps row d e h x =
    let (p, found, same) = registered row d h in
    rw (register_txn-known row e p (x.peers row.name p found), same) refl
