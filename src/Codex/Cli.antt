-- ===== src/Codex/Cli.antt =====
-- `notify_cli` and `notify_in_store` of src/adapters/codex/mod.rs: a notice through the installed
-- client's command.
--
-- `run` is `os::run_command` for the command's arguments; its output is text where it is UTF-8.
use harness_talk.Prelude.{
  ℕ, zero, suc, String, String_eq, Bool, true, false, not, ◌&&◌, ◌||◌, Option, none, some, List, [],
  ◌∷◌, ◌++◌, ◌==◌, if◌then◌else◌, nat_eq, leb,
}
use Prim.Native.Char.{code as char_code}
use harness_talk.Prelude.Text.{is_digit}
use harness_talk.Error.{Result, Checked, ok, err, fixed_code, ◌>>=◌, ◌>>◌, refuse_if}
use harness_talk.Model.{NativePeer, Outcome}
use harness_talk.Model.Words.{skip_reason_as_str}
use harness_talk.Validate.{is_space}
use harness_talk.Validate
use harness_talk.Codex.Json.{concat, strip_prefix}
use harness_talk.Codex.Notify.{Skip, not_sent, unsure, sent_as}

pub record Output : Type 0 where
  pub status : Option ℕ
  pub stdout : Option String

-- `[0-9a-f-]`
unfoldable pub id_char : ℕ → Bool
unfolding is_digit
id_char c = is_digit c || (leb b'a' c && leb c b'f') || nat_eq c b'-'

-- `[0-9a-f-]{n}` at the front of a text.
unfoldable pub id_chars : ℕ → String → Option (String × String)
unfolding id_char
id_chars zero s = some (String.[], s)
id_chars (suc n) String.[] = none
id_chars (suc n) (String.◌∷◌ c s) = elim (if id_char (char_code c) then id_chars n s else none) [
  | none ↦ none
  | some (id, rest) ↦ some (String.◌∷◌ c id, rest)
]

-- `[\\s\\x1c-\\x1f]*` up to the end of the text.
unfoldable pub only_space : String → Bool
unfolding is_space
only_space String.[] = true
only_space (String.◌∷◌ c s) = is_space (char_code c) && only_space s

pub record Receipt : Type 0 where
  pub message : String
  pub thread : String

infixl 10 ◌>>=?◌
abbrev ◌>>=?◌ : {A B : Type 0} → Option A → (A → Option B) → Option B
none >>=? f = none
some a >>=? f = f a

-- The pattern `RECEIPT`.
unfoldable pub receipt_of : String → Option Receipt
unfolding id_chars only_space
receipt_of s = strip_prefix "Queued message " s >>=? λ s. id_chars 36 s >>=? λ m.
    strip_prefix " for thread " m.1 >>=? λ s. id_chars 36 s >>=? λ t. strip_prefix "." t.1 >>=? λ s.
    if only_space s then some (record { message = m.0; thread = t.0 }) else none

abbrev status_is_zero : Option ℕ → Bool
status_is_zero none = false
status_is_zero (some n) = nat_eq n 0

abbrev receipt_id : Result String → Outcome
receipt_id (ok id) = sent_as (concat "codex_cli_queued:" id)
receipt_id (err e) = unsure "codex_cli_invalid_queue_id"

unfoldable pub with_receipt :
    (List ℕ → Option String) → NativePeer → Option ℕ → Option Receipt → Outcome
unfolding Validate.uuid
with_receipt parse_str peer status none = unsure "codex_cli_unconfirmed_receipt"
with_receipt parse_str peer status (some r) =
    if status_is_zero status && r.thread == peer.session_id
    then receipt_id (Validate.uuid parse_str r.message)
    else unsure "codex_cli_unconfirmed_receipt"

-- What the end of the command says. A command that could not be started submitted nothing.
unfoldable pub command_outcome : (List ℕ → Option String) → NativePeer → Result Output → Outcome
unfolding receipt_of with_receipt fixed_code
command_outcome parse_str peer (err e) =
    if fixed_code e == "file_not_found" || fixed_code e == "permission_denied"
    then not_sent (fixed_code e)
    else unsure (fixed_code e)
command_outcome parse_str peer (ok output) = elim output.stdout [
  | none ↦ unsure "invalid_utf8"
  | some stdout ↦ with_receipt parse_str peer output.status (receipt_of stdout)
]

-- An outcome, with the arguments of all commands that were run for it.
pub record Queued : Type 0 where
  pub outcome : Outcome
  pub ran : List (List String)

abbrev config_of : Option String → List String
config_of none = []
config_of (some parent) = "--config" ∷ concat "sqlite_home=" parent ∷ []

abbrev pub queue_args : Option String → NativePeer → String → List String
queue_args pinned peer body =
    "queue" ∷ config_of pinned ++ "--thread" ∷ peer.session_id ∷ "--message" ∷ body ∷ []

-- The directory that a store is pinned by: none is asked for, or it is no UTF-8, or its TOML text.
pub data Pinned : Type 0 where
  any_store : Pinned
  not_utf8 : Pinned
  store : String → Pinned

module _ (parse_str : List ℕ → Option String) (run : List String → Result Output) where
  unfoldable pub run_queue : NativePeer → String → Option String → Queued
  unfolding command_outcome
  run_queue peer body pinned =
      let args = queue_args pinned peer body in
      record { outcome = command_outcome parse_str peer (run args); ran = args ∷ [] }

  unfoldable pub queue_in : NativePeer → String → Pinned → Queued
  unfolding run_queue
  queue_in peer body not_utf8 = record { outcome = not_sent "codex_store_path_not_utf8"; ran = [] }
  queue_in peer body any_store = run_queue peer body none
  queue_in peer body (store parent) = run_queue peer body (some parent)

  -- `notify_cli`, where `identity` is what the client's saved address says.
  unfoldable pub notify_cli : NativePeer → String → Checked → Skip → Pinned → Queued
  unfolding queue_in skip_reason_as_str
  notify_cli peer body (err e) skip pinned = record { outcome = not_sent (fixed_code e); ran = [] }
  notify_cli peer body (ok _) (err e) pinned = record {
    outcome = not_sent (fixed_code e);
    ran = [];
  }
  notify_cli peer body (ok _) (ok (some reason)) pinned = record {
    outcome = not_sent (skip_reason_as_str reason);
    ran = [];
  }
  notify_cli peer body (ok _) (ok none) pinned = queue_in peer body pinned

-- The check of `notify_in_store`, on the store's path now and the address saved there.
unfoldable pub store_check : Result String → String → Checked → Skip
store_check current database identity = do
  now ← current
  refuse_if (not (now == database)) "codex_store_changed"
  identity
  ok none
