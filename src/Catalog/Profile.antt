-- ===== src/Catalog/Profile.antt =====
-- src/catalog/profile.rs: the catalog file, what it publishes and what is exported of it.
--
-- Parameters: the reader of the uuid crate; what the system says of a database file (`stamp`) and
-- of a path (`is_absolute`); how long the file is once it is written (`size`). The file itself is
-- read and written by the caller: an operation is given the catalog and gives the one to save.
use harness_talk.Prelude.{
  select, leb, nat_eq, ◌++◌, false, none, some, ℕ, String, String_eq, Option_eq, Nat_eq, Bool, not,
  ◌&&◌, ◌||◌, Option, List, [], ◌∷◌, ◌==◌, ltb, length, any, map, if◌then◌else◌,
}
use harness_talk.Error.{err, code, Result, Checked, ok, refuse_if, ◌>>=◌, ◌>>◌}
use harness_talk.Model.{Peer}
use harness_talk.Model.Words.{delivery_as_str}
use harness_talk.Validate.{peer_name}
use harness_talk.Db.{Db, is_some, ok_or}
use harness_talk.Db.Peers.{same_delivery}
use harness_talk.Catalog.{uuid, text}
use harness_talk.Catalog.Mailbox.{peers}

pub record DbStamp : Type 0 where
  pub device : ℕ
  pub inode : ℕ

pub record Published : Type 0 where
  pub profile_id : String
  pub display_name : String
  pub role : String
  pub binding_id : String
  pub peer : Peer

pub record Catalog : Type 0 where
  pub schema_version : ℕ
  pub device_id : String
  pub device_name : String
  pub ssh_port : ℕ
  pub mailbox_id : String
  pub generation : String
  pub database : String
  pub database_stamp : DbStamp
  pub sender : Peer
  pub profiles : List Published

pub record Profile : Type 0 where
  pub profile_id : String
  pub display_name : String
  pub role : String
  pub binding_id : String
  pub peer_name : String
  pub harness : String
  pub delivery : String
  pub binding_state : String
  pub runtime_status : String

pub record Directory : Type 0 where
  pub schema_version : ℕ
  pub device_id : String
  pub device_name : String
  pub mailbox_id : String
  pub generation : String
  pub sender : String
  pub profiles : List Profile

unfoldable pub same_stamp : DbStamp → DbStamp → Bool
same_stamp a b = a.device == b.device && a.inode == b.inode

unfoldable pub same_peer : Peer → Peer → Bool
same_peer a b =
    a.name == b.name
    && a.harness == b.harness
    && a.session_id == b.session_id
    && a.workspace == b.workspace
    && a.socket == b.socket
    && a.url == b.url
    && a.retired_at == b.retired_at
    && same_delivery a.delivery b.delivery

-- One turn of the loop in `load`.
unfoldable pub check_published : (List ℕ → Option String) → List String → Published → Checked
check_published parse_str seen p = do
  uuid parse_str p.profile_id
  uuid parse_str p.binding_id
  text p.display_name 128
  text p.role 1024
  peer_name p.peer.name
  refuse_if (any (λ id. id == p.profile_id) seen) "catalog_duplicate_profile"

unfoldable pub check_all_published :
    (List ℕ → Option String) → List String → List Published → Checked
unfolding check_published
check_all_published parse_str seen [] = ok tt
check_all_published parse_str seen (p ∷ ps) =
    check_published parse_str seen p >> check_all_published parse_str (p.profile_id ∷ seen) ps

abbrev pub bad_config : (String → Bool) → Catalog → Bool
bad_config is_absolute c =
    not (c.schema_version == 1)
    || c.ssh_port == 0
    || ltb 64 (length c.profiles)
    || not (is_absolute c.database)

-- `load`, of what the file holds.
unfoldable pub load :
    (List ℕ → Option String)
    → (String → Bool)
    → (String → Result DbStamp)
    → Catalog
    → Result Catalog
unfolding check_all_published same_stamp
load parse_str is_absolute stamp c = do
  refuse_if (bad_config is_absolute c) "catalog_invalid_config"
  uuid parse_str c.device_id
  uuid parse_str c.mailbox_id
  uuid parse_str c.generation
  text c.device_name 128
  found ← stamp c.database
  refuse_if (not (same_stamp found c.database_stamp)) "catalog_mailbox_replaced"
  peer_name c.sender.name
  check_all_published parse_str [] c.profiles
  ok c

abbrev rows_after : Catalog → List Peer → Result (List Peer)
rows_after c [] = ok []
rows_after c (row ∷ rows) = do
  refuse_if (not (same_peer row c.sender) || is_some row.retired_at)
      "catalog_sender_binding_changed"
  ok rows

-- `current`: the published peers as the mailbox has them now.
unfoldable pub current : Result Db → Catalog → Result (List Peer)
unfolding same_peer peers
current opened c = do
  rows ← peers opened (c.sender.name ∷ map (λ p. p.peer.name) c.profiles)
  rows_after c rows

unfoldable pub binding_state : Published → Peer → String
unfolding same_peer
binding_state p row =
    if is_some row.retired_at
    then "retired"
    else if not (same_peer row p.peer)
    then "changed"
    else "current"

unfoldable pub exported : Published → Peer → Profile
unfolding binding_state
exported p row = record {
  profile_id = p.profile_id;
  display_name = p.display_name;
  role = p.role;
  binding_id = p.binding_id;
  peer_name = p.peer.name;
  harness = p.peer.harness;
  delivery = delivery_as_str p.peer.delivery;
  binding_state = binding_state p row;
  runtime_status = "unknown";
}

-- `zip` and `map`, as far as both lists go.
unfoldable pub export_all : List Published → List Peer → List Profile
unfolding exported
export_all (p ∷ ps) (row ∷ rows) = exported p row ∷ export_all ps rows
export_all [] rows = []
export_all (p ∷ ps) [] = []

abbrev pub directory_of : Catalog → List Peer → Directory
directory_of c rows = record {
  schema_version = 1;
  device_id = c.device_id;
  device_name = c.device_name;
  mailbox_id = c.mailbox_id;
  generation = c.generation;
  sender = c.sender.name;
  profiles = export_all c.profiles rows;
}

-- `directory`
unfoldable pub directory :
    (List ℕ → Option String)
    → (String → Bool)
    → (String → Result DbStamp)
    → Result Db
    → Catalog
    → Result Directory
unfolding export_all
directory parse_str is_absolute stamp opened read = do
  c ← load parse_str is_absolute stamp read
  rows ← current opened c
  ok (directory_of c rows)

-- What `publish` is asked, and the IDs that it draws.
pub record Publish : Type 0 where
  pub peer : String
  pub device_name : String
  pub ssh_port : ℕ
  pub profile_id : Option String
  pub name : String
  pub role : String

pub record Drawn : Type 0 where
  pub device_id : String
  pub mailbox_id : String
  pub generation : String
  pub profile_id : String
  pub binding_id : String

-- rows[0], of a read of one name that succeeded: there is one row.
abbrev first_row : List Peer → Result Peer
first_row [] = err (code "unknown_peer")
first_row (row ∷ rows) = ok row

unfoldable pub peer_row : Result Db → String → Result Peer
unfolding peers
peer_row opened name = do rows ← peers opened (name ∷ []); first_row rows

abbrev differs : Option String → String → Bool
differs none s = false
differs (some t) s = not (t == s)

abbrev or_drawn : Option String → String → String
or_drawn none drawn = drawn
or_drawn (some id) drawn = id

module _ (parse_str : List ℕ → Option String) (is_absolute : String → Bool)
    (stamp : String → Result DbStamp) (size : Catalog → ℕ) (open_db : String → Result Db) where
  -- The catalog of a file that is not there, with no profile.
  unfoldable pub new_catalog : Publish → Drawn → Option String → Option String → Result Catalog
  unfolding peer_row
  new_catalog options drawn db actor = do
    database ← ok_or db "catalog_publish_requires_db_and_as"
    sender ← ok_or actor "catalog_publish_requires_db_and_as"
    row ← peer_row (open_db database) sender
    refuse_if (is_some row.retired_at) "peer_retired"
    database_stamp ← stamp database
    ok (record {
      schema_version = 1;
      device_id = drawn.device_id;
      device_name = options.device_name;
      ssh_port = options.ssh_port;
      mailbox_id = drawn.mailbox_id;
      generation = drawn.generation;
      database = database;
      database_stamp = database_stamp;
      sender = row;
      profiles = [];
    })

  -- `save`: the file is written, unless it would be too long to be read again.
  unfoldable pub save : Catalog → Result Catalog
  save c = do refuse_if (ltb 262144 (size c)) "catalog_config_too_large"; ok c

  -- `publish`, under its lock. `file` is what the catalog's file holds, or none where there is no
  -- file; `db` is resolved. The catalog that it answers is the one that it has saved.
  unfoldable pub publish :
      Publish → Drawn → Option String → Option String → Option Catalog → Result Catalog
  unfolding load new_catalog save current
  publish options drawn db actor file = do
    peer_name options.peer
    c ← elim file [
      | none ↦ new_catalog options drawn db actor
      | some read ↦ load parse_str is_absolute stamp read
    ]
    refuse_if (differs db c.database || differs actor c.sender.name)
        "catalog_endpoint_binding_mismatch"
    row ← peer_row (open_db c.database) options.peer
    refuse_if (is_some row.retired_at) "peer_retired"
    let id = or_drawn options.profile_id drawn.profile_id
    uuid parse_str id
    text options.name 128
    text options.role 1024
    text c.device_name 128
    let kept = select (λ p. not (p.profile_id == id)) c.profiles
    refuse_if (leb 64 (length kept)) "catalog_too_many_profiles"
    let published : Published = record {
      profile_id = id;
      display_name = options.name;
      role = options.role;
      binding_id = drawn.binding_id;
      peer = row;
    }
    let c' : Catalog = record c { profiles = kept ++ published ∷ [] }
    current (open_db c.database) c'
    save c'

  -- `unpublish`, under its lock.
  unfoldable pub unpublish : String → Catalog → Result Catalog
  unfolding load save
  unpublish profile_id read = do
    c ← load parse_str is_absolute stamp read
    uuid parse_str profile_id
    let kept = select (λ p. not (p.profile_id == profile_id)) c.profiles
    refuse_if (nat_eq (length c.profiles) (length kept)) "catalog_unknown_profile"
    save (record c { profiles = kept })
