-- ===== src/Identity.antt =====
-- src/identity.rs: the Claude Code session whose command runs the program.
--
-- The environment, the process table and the files are the host's. A PID and a start time are as
-- `/proc` gives them.
pub mod Lineage
pub mod Sound
use harness_talk.Prelude.{
  ℕ, zero, suc, String, String_eq, Bool, true, false, not, ◌&&◌, ◌||◌, Option, none, some, List, [],
  ◌∷◌, ◌++◌, ℤ, pos, negsuc, ◌==◌, int_eq, any, all, nat_eq, if◌then◌else◌,
}
use harness_talk.Prelude.Text.{codes, starts_with, is_digit}
use harness_talk.Error.{Result, ok, err}
use harness_talk.Validate
use harness_talk.Db.{is_some}

pub data NativeSession : Type 0 where
  recognized : String → Option String → NativeSession
  unrecognized : String → NativeSession

pub record Process : Type 0 where
  pub comm : String
  pub parent : ℤ
  pub started : String

-- `exe` is the name of a process's executable.
pub record ProcTable : Type 0 where
  pub process : ℤ → Option Process
  pub exe : ℤ → Option String

pub record Between : Type 0 where
  pub pid : ℤ
  pub comm : String

abbrev pub clients : List String
clients = "claude" ∷ "codex" ∷ "opencode" ∷ []

abbrev pub named_as_client : String → String → Bool
named_as_client comm name =
    any
      (λ client. starts_with (codes client) (codes comm) || starts_with (codes client) (codes name))
      clients

-- `looks_like_client`; no answer is `Unreadable`.
unfoldable pub looks_like_client : ProcTable → Between → Option Bool
unfolding starts_with
looks_like_client t p = elim (t.exe p.pid) [
  | none ↦ none
  | some name ↦ some (named_as_client p.comm name)
]

abbrev pub inspected : Option Bool → Option (Option String) → Option (Option String)
inspected none rest = none
inspected (some true) rest = some (some "nested_client_process")
inspected (some false) rest = rest

-- The executables below Claude, in turn.
unfoldable pub inspect : ProcTable → List Between → Option (Option String)
unfolding looks_like_client
inspect t [] = some none
inspect t (p ∷ ps) = inspected (looks_like_client t p) (inspect t ps)

abbrev pub is_positive : ℤ → Bool
is_positive (pos n) = not (nat_eq n 0)
is_positive (negsuc n) = false

abbrev pub max_depth : ℕ
max_depth = 64

-- The loop of `ancestry`, where `left` more processes may stand between.
unfoldable pub climb : ProcTable → ℤ → ℕ → ℤ → List Between → Option (Option String)
unfolding inspect
climb t claude zero parent between =
    if int_eq parent claude then inspect t between else some (some "claude_pid_not_an_ancestor")
climb t claude (suc left) parent between =
    if int_eq parent claude
    then inspect t between
    else if not (is_positive parent)
    then some (some "claude_pid_not_an_ancestor")
    else elim (t.process parent) [
      | none ↦ none
      | some p ↦
          climb t claude left p.parent (between ++ record { pid = parent; comm = p.comm } ∷ [])
    ]

-- `ancestry`: a reason, none where there is nothing against the session, or no answer.
unfoldable pub ancestry : ProcTable → ℤ → ℤ → Option (Option String)
unfolding climb
ancestry t claude pid = elim (t.process pid) [
  | none ↦ none
  | some p ↦ climb t claude max_depth p.parent []
]

-- The session file of a process: its fields, where they have the right type. `proc_start` is a text
-- or an integer that is printed.
pub record Metadata : Type 0 where
  pub session_id : Option String
  pub pid : Option ℤ
  pub proc_start : Option String
  pub cwd : Option String

pub data SessionFile : Type 0 where
  unreadable : SessionFile
  not_an_object : SessionFile
  object : Metadata → SessionFile

-- What the host answers. `parse_pid` is `str::parse` of an `i64`.
pub record Host : Type 0 where
  pub env : String → Option String
  pub table : ProcTable
  pub session_file : ℤ → SessionFile
  pub parse_pid : String → Option ℤ
  pub parse_uuid : List ℕ → Option String

abbrev nonempty : Option String → Option String
nonempty none = none
nonempty (some s) = if s == "" then none else some s

abbrev pub present : Host → String → Option String
present host name = nonempty (host.env name)

abbrev is_canonical : String → Result String → Bool
is_canonical s (ok t) = t == s
is_canonical s (err e) = false

unfoldable pub valid_variables : Host → String → String → Bool
unfolding Validate.uuid is_digit
valid_variables host session claude_pid =
    is_canonical session (Validate.uuid host.parse_uuid session) && all is_digit (codes claude_pid)

abbrev pub is_text : Option String → String → Bool
is_text none s = false
is_text (some t) s = t == s

abbrev pub is_pid : Option ℤ → ℤ → Bool
is_pid none pid = false
is_pid (some p) pid = int_eq p pid

unfoldable pub metadata_matches : Metadata → String → ℤ → String → Bool
metadata_matches m session claude started =
    is_text m.session_id session && is_pid m.pid claude && is_text m.proc_start started

unfoldable pub by_ancestry : String → Option String → Option (Option String) → NativeSession
by_ancestry session workspace none = unrecognized "process_ancestry_unavailable"
by_ancestry session workspace (some (some reason)) = unrecognized reason
by_ancestry session workspace (some none) = recognized session workspace

unfoldable pub by_file : Host → String → ℤ → String → ℤ → SessionFile → NativeSession
unfolding ancestry metadata_matches by_ancestry
by_file host session claude started pid unreadable =
    unrecognized "claude_session_metadata_unavailable"
by_file host session claude started pid not_an_object =
    unrecognized "claude_session_metadata_mismatch"
by_file host session claude started pid (object m) =
    if not (metadata_matches m session claude started)
    then unrecognized "claude_session_metadata_mismatch"
    else by_ancestry session m.cwd (ancestry host.table claude pid)

unfoldable pub by_process : Host → String → ℤ → ℤ → Option Process → NativeSession
unfolding by_file
by_process host session claude pid none = unrecognized "claude_process_unavailable"
by_process host session claude pid (some p) =
    by_file host session claude p.started pid (host.session_file claude)

unfoldable pub by_pid : Host → String → ℤ → Option ℤ → NativeSession
unfolding by_process
by_pid host session pid none = unrecognized "claude_process_unavailable"
by_pid host session pid (some claude) =
    by_process host session claude pid (host.table.process claude)

unfoldable pub by_variables : Host → ℤ → Option String → Option String → NativeSession
unfolding valid_variables by_pid
by_variables host pid (some session) (some claude_pid) =
    if not (valid_variables host session claude_pid)
    then unrecognized "claude_session_variables_invalid"
    else if is_some (present host "CODEX_THREAD_ID")
    then unrecognized "codex_thread_id_present"
    else by_pid host session pid (host.parse_pid claude_pid)
by_variables host pid _ _ = unrecognized "claude_session_variables_absent"

-- `claude_session`, asked by the process `pid`.
unfoldable pub claude_session : Host → ℤ → NativeSession
unfolding by_variables
claude_session host pid =
    by_variables host pid (present host "CLAUDE_CODE_SESSION_ID") (present host "CLAUDE_PID")
