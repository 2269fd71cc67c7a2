-- ===== src/Commands/Registry.antt =====
-- src/commands/peer.rs: what `peer add` registers and `peer list` shows.
use harness_talk.Prelude.{
  ℕ, ◌-◌, String, String_eq, Bool, not, ◌||◌, Option, none, some, List, ◌==◌, length, select,
  if◌then◌else◌,
}
use harness_talk.Error.{Result, ok, code, ◌>>=◌, ◌>>◌, refuse_if, map_err}
use harness_talk.Model.{Peer, pull_peer}
use harness_talk.Validate.{peer_name}
use harness_talk.Db.{is_some}
use harness_talk.Harness.{Harness, Adapter, from_str}
use harness_talk.Notice.{native_peer}

-- The arguments of `peer add`.
pub record PeerAdd : Type 0 where
  pub name : String
  pub harness : String
  pub delivery : String
  pub session : Option String
  pub workspace : Option String
  pub socket : Option String
  pub url : Option String

abbrev pub has_address : PeerAdd → Bool
has_address add =
    is_some add.session || is_some add.workspace || is_some add.socket || is_some add.url

abbrev or_empty : Option String → String
or_empty none = ""
or_empty (some s) = s

unfoldable pub pull_registration : PeerAdd → Result Peer
unfolding pull_peer
pull_registration add = do
  refuse_if (has_address add) "pull_peer_has_no_native_address"
  peer_name add.name
  map_err (λ e. code "invalid_harness_id") (peer_name add.harness)
  ok (pull_peer add.name add.harness)

module _ (adapter : Harness → Adapter) where
  unfoldable pub native_registration : PeerAdd → Result Peer
  native_registration add = do
    harness ← from_str add.harness
    native_peer adapter add.name harness (or_empty add.session) (or_empty add.workspace) add.socket
        add.url

  -- `registration`
  unfoldable pub registration : PeerAdd → Result Peer
  unfolding pull_registration native_registration
  registration add =
      if add.delivery == "pull" then pull_registration add else native_registration add

-- What `peer list` answers.
pub record Listed : Type 0 where
  pub peers : List Peer
  pub retired_hidden : Option ℕ

abbrev pub is_visible : Bool → Peer → Bool
is_visible all p = all || not (is_some p.retired_at)

unfoldable pub list : Bool → List Peer → Listed
list all peers =
    let visible = select (is_visible all) peers in
    record {
      peers = visible;
      retired_hidden = (if all then none else some (length peers - length visible));
    }
