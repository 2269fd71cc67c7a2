-- ===== src/Receiver/Start.antt =====
-- `run` and `maintain` of src/adapters/codex/receive.rs: how a receiver starts, and the rebinding.
--
-- The directories, the locks and the sockets are the host's; a lock that is not had is an error
-- before anything is read.
use harness_talk.Prelude.{
  ℕ, String, Bool, not, ◌&&◌, ◌||◌, Option, none, some, List, [], ◌∷◌, ◌++◌, length, nat_eq,
  if◌then◌else◌,
}
use harness_talk.Error.{Result, Checked, ok, err, code, ◌>>=◌, ◌>>◌, refuse_if, map_err}
use harness_talk.Validate
use harness_talk.Db.{is_some}
use harness_talk.Receiver.{
  BoundSocket, Binding, State, Action, wrote, emitted, rebound, same_socket, same_binding,
  check_socket,
}

-- The arguments of `receive`.
pub record Watch : Type 0 where
  pub peer : String
  pub session : String
  pub workspace : String
  pub connector : List String
  pub mcp_command : Option String
  pub codex_socket : Option String

-- The calls of the operating system. `capture` is `BoundSocket::capture`.
pub record Host : Type 0 where
  pub is_absolute : String → Bool
  pub resolve : String → String
  pub resolve_strict : String → Result String
  pub is_dir : String → Bool
  pub capture : String → Result BoundSocket

unfoldable pub capture_socket : Host → String → Result BoundSocket
capture_socket host path =
    map_err (λ e. code "Cannot inspect Codex server socket. No notification was attempted.")
      (host.capture path)

abbrev transpose {ℓ} : {A : Type ℓ} → (String → Result A) → Option String → Result (Option A)
transpose f none = ok none
transpose f (some s) = do a ← f s; ok (some a)

abbrev checker_of : Host → String → Result String
checker_of host path = do
  refuse_if (not (host.is_absolute path)) "--mcp-command needs an absolute executable path"
  host.resolve_strict path

abbrev socket_of : Host → String → Result BoundSocket
unfolding capture_socket
socket_of host path = do
  refuse_if (not (host.is_absolute path)) "--codex-socket needs an absolute Unix socket path"
  capture_socket host (host.resolve path)

-- The binding that the arguments name, and the checks on it.
unfoldable pub binding_of : Host → (List ℕ → Option String) → Watch → Result Binding
unfolding capture_socket Validate.uuid Validate.peer_name
binding_of host parse_str watch = do
  mcp_command ← transpose (checker_of host) watch.mcp_command
  session ← Validate.uuid parse_str watch.session
  workspace ← host.resolve_strict watch.workspace
  codex_socket ← transpose (socket_of host) watch.codex_socket
  Validate.peer_name watch.peer
  refuse_if (not (host.is_dir workspace)) "Workspace must be a directory"
  ok (record {
    peer = watch.peer;
    session = session;
    workspace = workspace;
    command = watch.connector;
    mcp_command = mcp_command;
    codex_socket = codex_socket;
  })

-- Whether an argument gives what the saved binding does not have.
abbrev adding {ℓ} : {A : Type ℓ} → Option A → Option A → Bool
adding old new = not (is_some old) && is_some new

abbrev added {ℓ} : {A : Type ℓ} → Option A → Option A → Option A
added none new = new
added (some a) new = some a

abbrev pub additions : Binding → State → Bool
additions b s =
    adding s.binding.mcp_command b.mcp_command || adding s.binding.codex_socket b.codex_socket

unfoldable pub with_additions : Binding → State → State
with_additions b s = record {
  version = s.version;
  binding = record {
    peer = s.binding.peer;
    session = s.binding.session;
    workspace = s.binding.workspace;
    command = s.binding.command;
    mcp_command = added s.binding.mcp_command b.mcp_command;
    codex_socket = added s.binding.codex_socket b.codex_socket;
  };
  pending = s.pending;
  receipts = s.receipts;
}

pub record Started : Type 0 where
  pub actions : List Action
  pub state : State

abbrev fresh : Binding → State
fresh b = record { version = 1; binding = b; pending = none; receipts = [] }

-- A start without a saved state; `others` says that the directory holds more than the lock.
unfoldable pub start_fresh : Bool → Binding → Result Started
start_fresh others b = do
  refuse_if others "Use a new state directory; preserve unfinished state for inspection"
  ok (record { actions = wrote (fresh b) ∷ []; state = fresh b })

abbrev pub other_binding : Binding → State → Bool
other_binding b t = not (nat_eq t.version 1) || not (same_binding t.binding b)

-- A start from a saved state.
unfoldable pub start_saved : Binding → State → Result Started
unfolding with_additions same_binding
start_saved b s = do
  let t = with_additions b s
  refuse_if (other_binding b t)
      "Receiver binding changed; use receive status --state DIR, then receive rebind"
  refuse_if (is_some t.pending) "Notification outcome unknown"
  ok (record { actions = (if additions b s then wrote t ∷ [] else []); state = t })

-- The part of `run` under the state lock, before `operate`.
unfoldable pub start_from : Bool → Binding → Option State → Result Started
unfolding start_fresh start_saved
start_from others b none = start_fresh others b
start_from others b (some s) = start_saved b s

abbrev pub saved_socket : Option BoundSocket → Result BoundSocket
saved_socket none = err (code "No saved socket binding")
saved_socket (some s) = ok s

abbrev pub with_socket : BoundSocket → State → State
with_socket bound s = record {
  version = s.version;
  binding = record {
    peer = s.binding.peer;
    session = s.binding.session;
    workspace = s.binding.workspace;
    command = s.binding.command;
    mcp_command = s.binding.mcp_command;
    codex_socket = some bound;
  };
  pending = s.pending;
  receipts = s.receipts;
}

abbrev pub rebound_to : Bool → State → Started
rebound_to changed t = record {
  actions = (if changed then wrote t ∷ [] else []) ++ emitted (rebound changed) ∷ [];
  state = t;
}

-- `receive rebind`. `probe` is `probe_bound` on the socket that is there now, and `later` captures
-- its path once more after that.
unfoldable pub rebind :
    Host → (BoundSocket → Checked) → (String → Result BoundSocket) → State → Result Started
unfolding capture_socket same_socket check_socket
rebind host probe later s = do
  refuse_if (not (nat_eq s.version 1)) "Unsupported receiver state version"
  refuse_if (is_some s.pending) "Notification outcome unknown. Rebind cannot clear it."
  previous ← saved_socket s.binding.codex_socket
  bound ← capture_socket host previous.path
  probe bound
  check_socket bound (later bound.path)
  let changed = not (same_socket previous bound)
  let t = with_socket bound s
  ok (rebound_to changed t)

-- What `receive status` prints, with the target's answer or the text of its failure.
pub record Status {ℓ} (A : Type ℓ) : Type ℓ where
  pub state_lock_held : Bool
  pub pending : Option String
  pub pending_status : Option String
  pub receipt_count : ℕ
  pub target : Result A

abbrev pending_word : Bool → Option String → Option String
pending_word available none = none
pending_word available (some id) = some (if available then "unknown" else "in_flight")

-- `receive status`, where `available` says that no receiver holds the lock.
unfoldable pub status {ℓ} : {A : Type ℓ} → Bool → Result A → State → Result (Status A)
status available probe s = do
  refuse_if (not (nat_eq s.version 1)) "Unsupported receiver state version"
  ok (record {
    state_lock_held = not available;
    pending = s.pending;
    pending_status = pending_word available s.pending;
    receipt_count = length s.receipts;
    target = probe;
  })
