-- ===== src/Harness.antt =====
-- src/adapters/mod.rs: the harnesses, and what the program asks of the adapter of one.
use harness_talk.Prelude.{
  String, String_eq, Bool, true, false, Option, none, some, List, ◌==◌, ◌∷◌, [], find?, ◌&&◌, not,
}
use harness_talk.Error.{Result, Checked, ok, err, code, refuse_if, ◌>>◌}
use harness_talk.Model.{
  Message, NativePeer, SkipReason, not_submitted, Outcome, Cleanup, cleanup_detail, unsupported,
}
use harness_talk.Store.{Client}

pub data Harness : Type 0 where
  codex claude opencode : Harness

-- `Harness::as_str`
unfoldable pub as_str : Harness → String
as_str codex = "codex"
as_str claude = "claude"
as_str opencode = "opencode"

-- `Harness::ALL`
abbrev pub all_harnesses : List Harness
all_harnesses = claude ∷ codex ∷ opencode ∷ []

abbrev found_harness : Option Harness → Result Harness
found_harness none = err (code "unsupported_harness")
found_harness (some h) = ok h

-- `Harness::from_str`
unfoldable pub from_str : String → Result Harness
unfolding as_str
from_str s = found_harness (find? (λ h. as_str h == s) all_harnesses)

pub record Address : Type 0 where
  pub session_id : String
  pub workspace : String
  pub socket : Option String
  pub url : Option String

-- `Skip`: why no notice is needed any more, as an adapter asks for it at the last moment.
abbrev pub Skip : Type 0
Skip = Client (Result (Option SkipReason))

-- The part of the contract that the mailbox uses. An adapter runs its client, which takes time.
pub record Adapter : Type 0 where
  pub address : String → String → Option String → Option String → Result Address
  pub notify : NativePeer → Message → String → Skip → Client Outcome
  pub dismiss : NativePeer → Message → Client Cleanup

-- What `peer discover` was asked.
pub record Query : Type 0 where
  pub workspace : Option String
  pub codex_sockets : Option (List String)
  pub opencode_urls : Option (List String)

abbrev same_harness : Harness → Harness → Bool
same_harness codex codex = true
same_harness claude claude = true
same_harness opencode opencode = true
same_harness _ _ = false

abbrev other_than : Harness → Option Harness → Bool
other_than own none = false
other_than own (some h) = not (same_harness h own)

abbrev given : Option (List String) → Bool
given none = false
given (some xs) = true

-- `Query::check`: an endpoint option of one harness is refused when another is searched.
unfoldable pub check : Query → Option Harness → Checked
check query harness = do
  refuse_if (given query.codex_sockets && other_than codex harness)
      "codex_socket_requires_codex_discovery"
  refuse_if (given query.opencode_urls && other_than opencode harness)
      "opencode_url_requires_opencode_discovery"

-- `Error::not_ported`
abbrev not_ported_code : String
not_ported_code = "unsupported_on_this_platform"

-- `NotPorted`: an adapter on a system that it is not ported to. No client is asked.
unfoldable pub not_ported : Adapter
unfolding cleanup_detail
not_ported = record {
  address = λ session workspace socket url. err (code not_ported_code);
  notify = λ peer message body skip w.
      (record { submission = not_submitted; detail = not_ported_code }, w);
  dismiss = λ peer message w. (cleanup_detail unsupported not_ported_code, w);
}
