-- ===== src/Db/Txn.antt =====
-- Every transaction by which a process can change the mailbox.
use harness_talk.Prelude.{ℕ, String}
use harness_talk.Model.{Outcome}
use harness_talk.Db.{PeerRow, Wait, Db}
use harness_talk.Db.Peers.{register_txn, retire_row, restore_row}
use harness_talk.Db.Save.{Draft, save_txn}
use harness_talk.Db.Update.{claim, finish, set_ack, set_returned, add_wait, drop_wait}

pub data Txn : Type 0 where
  register : PeerRow → Txn
  retire : String → ℕ → Txn
  restore : String → Txn
  save : Draft → ℕ → Txn
  start_notification : String → ℕ → Txn
  end_notification : String → Outcome → ℕ → Txn
  ack : String → String → ℕ → Txn
  mark_returned : String → String → ℕ → Txn
  register_wait : Wait → ℕ → Txn
  remove_wait : String → Txn

unfoldable pub apply : Txn → Db → Db
apply (register row) d = (register_txn row d).1
apply (retire name now) d = (retire_row name now d).1
apply (restore name) d = (restore_row name d).1
apply (save draft now) d = (save_txn draft now d).1
apply (start_notification id now) d = (claim id now d).1
apply (end_notification id outcome now) d = (finish id outcome now d).1
apply (ack id actor now) d = (set_ack id actor now d).1
apply (mark_returned id actor now) d = (set_returned id actor now d).1
apply (register_wait w now) d = (add_wait w now d).1
apply (remove_wait token) d = (drop_wait token d).1
