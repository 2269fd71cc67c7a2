-- ===== src/Receiver.antt =====
-- src/adapters/codex/receive.rs: a receiver, which hands a remote watch stream to one Codex session.
--
-- The state directory's `state.json` is the state that was saved last. An error of this file is a
-- text, which `code` carries without the names that it quotes. `BoundSocket` is of codex/rpc.rs.
pub mod Check
pub mod Stream
pub mod Start
pub mod Lives
pub mod Kept
pub mod Round
pub mod Runs
pub mod Starts
pub mod Once
pub mod Final
pub mod Agrees
use harness_talk.Prelude.{
  int_eq, ◌≡◌, refl, ℕ, ℤ, String, String_eq, Bool, true, false, ◌&&◌, Option, none, some, List, [],
  ◌∷◌, ◌==◌, nat_eq, any, option_eq, if◌then◌else◌,
}
use harness_talk.Error.{Error, Result, Checked, ok, err, code, ◌>>=◌, ◌>>◌, refuse_if}
use harness_talk.Model.{Submission, NativePeer}

pub record BoundSocket : Type 0 where
  pub path : String
  pub device : ℕ
  pub inode : ℕ
  pub changed_seconds : ℤ
  pub changed_nanos : ℤ

-- `BoundSocket`'s `PartialEq`
unfoldable pub same_socket : BoundSocket → BoundSocket → Bool
same_socket a b =
    a.path == b.path
    && nat_eq a.device b.device
    && nat_eq a.inode b.inode
    && int_eq a.changed_seconds b.changed_seconds
    && int_eq a.changed_nanos b.changed_nanos

-- `BoundSocket::check`, on what is captured at its path now.
unfoldable pub check_socket : BoundSocket → Result BoundSocket → Checked
unfolding same_socket
check_socket bound captured = do
  now ← captured
  refuse_if (if same_socket now bound then false else true) "codex_server_socket_changed"

pub record Binding : Type 0 where
  pub peer : String
  pub session : String
  pub workspace : String
  pub command : List String
  pub mcp_command : Option String
  pub codex_socket : Option BoundSocket

abbrev strings_eq : List String → List String → Bool
strings_eq [] [] = true
strings_eq (a ∷ rest) (b ∷ others) = a == b && strings_eq rest others
strings_eq _ _ = false

-- `Binding`'s `PartialEq`
unfoldable pub same_binding : Binding → Binding → Bool
unfolding same_socket
same_binding a b =
    a.peer == b.peer
    && a.session == b.session
    && a.workspace == b.workspace
    && strings_eq a.command b.command
    && option_eq (λ s t. s == t) a.mcp_command b.mcp_command
    && option_eq same_socket a.codex_socket b.codex_socket

abbrev socket_path : Option BoundSocket → Option String
socket_path none = none
socket_path (some s) = some s.path

-- `Binding::target`
unfoldable pub target : Binding → NativePeer
target b = record {
  name = b.peer;
  session_id = b.session;
  workspace = b.workspace;
  socket = socket_path b.codex_socket;
  url = none;
  retired_at = none;
}

pub record Receipt : Type 0 where
  pub id : String
  pub detail : String

pub record State : Type 0 where
  pub version : ℕ
  pub binding : Binding
  pub pending : Option String
  pub receipts : List Receipt

-- `receipts.contains_key(id)`
abbrev pub contains_key : String → List Receipt → Bool
contains_key id receipts = any (λ r. r.id == id) receipts

-- `receipts.insert(id, detail)`
abbrev pub insert : Receipt → List Receipt → List Receipt
insert new [] = new ∷ []
insert new (r ∷ rs) = if r.id == new.id then new ∷ rs else r ∷ insert new rs

-- The lines that `emit` writes.
pub data Printed : Type 0 where
  ready_line : String → Printed
  skipped_line : String → Printed
  check_unavailable : String → Printed
  notified_line : String → Submission → String → Printed
  disconnected : ℕ → Printed
  rebound : Bool → Printed

-- What a run does to the world in turn: `save`, the call of `notify_in_store`, and `emit`.
pub data Action : Type 0 where
  wrote : State → Action
  submitted_to : String → Submission → Action
  emitted : Printed → Action

-- `state.json` after the actions.
unfoldable pub disk_after : Option State → List Action → Option State
disk_after d [] = d
disk_after d (wrote s ∷ actions) = disk_after (some s) actions
disk_after d (submitted_to _ _ ∷ actions) = disk_after d actions
disk_after d (emitted _ ∷ actions) = disk_after d actions
