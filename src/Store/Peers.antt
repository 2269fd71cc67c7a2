-- ===== src/Store/Peers.antt =====
-- The registry of src/store.rs: `register`, `retire`, `restore`, `session_peer`.
use harness_talk.Prelude.{String, String_eq, Option, none, some, ◌&&◌, ◌==◌, find?}
use harness_talk.Error.{ok, code, map_err}
use harness_talk.Model.{Peer, is_native}
use harness_talk.Validate.{peer_name}
use harness_talk.Db.{PeerRow, Db, column_eq, joined}
use harness_talk.Db.Peers.{register_txn, retire_row, restore_row}
use harness_talk.Proc.{Proc, read, write, now, lift, ◌>>=◌, ◌>>◌}
use harness_talk.Store.{peer}

-- The values that `register` writes. A registration says nothing of a retirement.
unfoldable pub row_of : Peer → PeerRow
row_of p = record {
  name = p.name;
  harness = p.harness;
  session_id = p.session_id;
  workspace = p.workspace;
  socket = p.socket;
  url = p.url;
  delivery = p.delivery;
}

unfoldable pub register : Peer → Proc Peer
unfolding row_of
register p = do
  lift (peer_name p.name)
  lift (map_err (λ _. code "invalid_harness_id") (peer_name p.harness))
  write (register_txn (row_of p))
  peer p.name

unfoldable pub retire : String → Proc Peer
retire name = do peer name; time ← now; write (retire_row name time); peer name

unfoldable pub restore : String → Proc Peer
restore name = do peer name; write (restore_row name); peer name

abbrev pub join_found : Db → Option PeerRow → Option Peer
join_found d none = none
join_found d (some p) = some (joined d p)

-- The query of `session_peer`.
unfoldable pub session_peer_on : String → String → Db → Option Peer
session_peer_on harness session d = join_found d (
    find? (λ p. is_native p.delivery && p.harness == harness && column_eq session p.session_id)
      d.peers)

unfoldable pub session_peer : String → String → Proc (Option Peer)
unfolding session_peer_on
session_peer harness session = read (λ d. ok (session_peer_on harness session d))
