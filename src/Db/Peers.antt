-- ===== src/Db/Peers.antt =====
-- The statements that write `peers` and `retired_peers`: of `register`, `retire` and `restore` in
-- src/store.rs, with the constraints of the tables in src/schema.rs.
pub mod Effect
pub mod Again
use harness_talk.Prelude.{
  ℕ, String, String_eq, Option_eq, Bool, true, false, not, ◌&&◌, ◌||◌, none, some, [], ◌∷◌, ◌++◌,
  ◌==◌, any, select, if◌then◌else◌,
}
use harness_talk.Error.{Result, ok, err, db, constraint_violation, ◌>>=◌, ◌>>◌, refuse_if}
use harness_talk.Model.{Delivery, native, pull, is_native}
use harness_talk.Db.{PeerRow, Db, column_eq, is_some, find_peer, find_retired}
use harness_talk.Db.Write.{Write, commit}

abbrev pub same_delivery : Delivery → Delivery → Bool
same_delivery native native = true
same_delivery pull pull = true
same_delivery _ _ = false

-- The columns that `register` compares are all the columns of `peers`.
unfoldable pub same_address : PeerRow → PeerRow → Bool
same_address a b =
    a.name == b.name
    && a.harness == b.harness
    && a.session_id == b.session_id
    && a.workspace == b.workspace
    && a.socket == b.socket
    && a.url == b.url
    && same_delivery a.delivery b.delivery

-- `harness=? AND session_id=?`; a session that is null equals none.
unfoldable pub has_session : PeerRow → PeerRow → Bool
has_session row p =
    p.harness == row.harness
    && elim row.session_id [ none ↦ false | some s ↦ column_eq s p.session_id ]

-- The CHECK of `peers`: a native peer has a session and a workspace, a pull peer no address.
unfoldable pub fits_delivery : PeerRow → Bool
fits_delivery p =
    if is_native p.delivery
    then is_some p.session_id && is_some p.workspace
    else not (is_some p.session_id || is_some p.workspace || is_some p.socket || is_some p.url)

-- INSERT INTO peers, with the table's constraints: the key, the session, the CHECK.
unfoldable pub insert_peer : PeerRow → Db → Result Db
unfolding find_peer has_session fits_delivery
insert_peer row d =
    if is_some (find_peer row.name d) || any (has_session row) d.peers || not (fits_delivery row)
    then err (db constraint_violation)
    else ok (record d { peers = d.peers ++ row ∷ [] })

unfoldable pub register_new : PeerRow → Db → Result (Unit {0} × Db)
register_new row d = do
  refuse_if (any (has_session row) d.peers) "session_already_has_a_peer_name"
  d' ← insert_peer row d
  ok (tt, d')

unfoldable pub register_again : PeerRow → Db → PeerRow → Result (Unit {0} × Db)
register_again row d existing = do
  refuse_if (not (same_address existing row)) "peer_already_has_a_different_address"
  ok (tt, d)

-- The transaction of `Store::register`.
unfoldable pub register_txn : PeerRow → Write (Unit {0})
register_txn row d = commit d (elim (find_peer row.name d) [
  | none ↦ register_new row d
  | some existing ↦ register_again row d existing
])

-- INSERT OR IGNORE INTO retired_peers. A foreign key is not ignored.
unfoldable pub retire_row : String → ℕ → Write (Unit {0})
retire_row name now d =
    if is_some (find_retired name d)
    then (ok tt, d)
    else if is_some (find_peer name d)
    then (ok tt, record d { retired = d.retired ++ record { name = name; retired_at = now } ∷ [] })
    else (err (db constraint_violation), d)

-- DELETE FROM retired_peers WHERE name=?
unfoldable pub restore_row : String → Write (Unit {0})
restore_row name d = (ok tt, record d { retired = select (λ r. not (r.name == name)) d.retired })
