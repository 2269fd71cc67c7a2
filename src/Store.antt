-- ===== src/Store.antt =====
-- src/store.rs: what the operations on the mailbox share. Each is a process of Proc.antt, whose
-- every statement is a step that others may come before.
pub mod Peers
pub mod Messages
pub mod Notify
pub mod Wait
pub mod Listing
pub mod Steps
pub mod Moves
pub mod Session
pub mod Ends
use harness_talk.Prelude.{String, Option, none, some}
use harness_talk.Error.{Error, Result, ok, err, code, map_err}
use harness_talk.Model.{SkipReason, Peer, Row, Message, from_row}
use harness_talk.Db.{
  Db, find_reply, peer_on, load_row, skip_by_message, skip_by_peer, skip_reason_of,
}
use harness_talk.Proc.{World, Proc, read, pure, ◌>>=◌}

-- `Store::peer`
unfoldable pub peer : String → Proc Peer
peer name = read (peer_on name)

-- `load`, outside a transaction: the message, then its answer.
unfoldable pub load : String → Option String → Proc Message
load id actor = do
  row ← read (load_row id actor)
  reply ← read (λ d. ok (find_reply row.id d))
  pure (from_row row reply)

skip_unless_found : String → Option SkipReason → Proc (Option SkipReason)
skip_unless_found recipient (some reason) = pure (some reason)
skip_unless_found recipient none = read (λ d. ok (skip_by_peer recipient d))

-- `skip_reason`: why the notification of a message is no longer needed.
unfoldable pub skip_reason : String → String → Proc (Option SkipReason)
unfolding skip_unless_found
skip_reason id recipient = do
  reason ← read (skip_by_message id recipient)
  skip_unless_found recipient reason

-- `fixed`: only fixed codes leave the store with a notification.
unfoldable pub fixed : Error → Error
fixed (code c) = code c
fixed _ = code "notification_state_unavailable"

-- A client's answer to a call. It takes its time, in which the world may move, and cannot fail.
abbrev pub Client : Type 0 → Type 0
Client A = World → A × World

unfoldable pub foreign : {A : Type 0} → Client A → Proc A
foreign f w = let (a, w') = f w in (ok a, w')

abbrev reason_in : String → String → Result Db → Result (Option SkipReason)
reason_in id recipient (ok db) = skip_reason_of id recipient db
reason_in id recipient (err e) = err e

-- `skip_reason_readonly`: the check that an adapter repeats before it writes, on a connection of its
-- own. `opened` is the mailbox as that connection finds it, or why it could not be opened.
unfoldable pub skip_reason_readonly : Result Db → String → String → Result (Option SkipReason)
unfolding skip_reason_of fixed
skip_reason_readonly opened id recipient = map_err fixed (reason_in id recipient opened)
