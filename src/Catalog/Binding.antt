-- ===== src/Catalog/Binding.antt =====
-- src/catalog/binding.rs: what a remote endpoint is held to, one mailbox and the profiles it published.
--
-- Parameters: the reader of the uuid crate, `str::parse` of an `i64`, and what the system says of
-- the catalog's files, as in src/catalog/profile.rs.
pub mod Between
pub mod Scope
pub mod Local
use harness_talk.Prelude.{
  ℕ, ℤ, String, String_eq, Bool, true, false, not, ◌&&◌, ◌||◌, Option, none, some, List, [], ◌∷◌,
  ◌==◌, ltb, nat_eq, length, any, all, map, select, get_last?, if◌then◌else◌, Option_eq, Nat_eq,
}
use harness_talk.Error.{Error, Result, Checked, ok, err, code, ◌>>=◌, ◌>>◌, refuse_if, map_err}
use harness_talk.Model.{Row, Message, Page}
use harness_talk.Validate.{peer_name}
use harness_talk.Db.{Db, is_some}
use harness_talk.Db.Page.Walk.{next_page}
use harness_talk.Catalog.{uuid}
use harness_talk.Catalog.Mailbox
use harness_talk.Catalog.Profile.{Catalog, Profile, Directory, DbStamp, load, directory}

pub record ProfileBinding : Type 0 where
  pub profile_id : String
  pub binding_id : String
  pub peer_name : String

pub record Binding : Type 0 where
  pub schema_version : ℕ
  pub device_id : String
  pub mailbox_id : String
  pub generation : String
  pub sender : String
  pub profiles : List ProfileBinding

-- One turn of the loop of `validate`.
unfoldable pub validate_profile : (List ℕ → Option String) → List String → ProfileBinding → Checked
validate_profile parse_str seen p = do
  uuid parse_str p.profile_id
  uuid parse_str p.binding_id
  peer_name p.peer_name
  refuse_if (any (λ id. id == p.profile_id) seen) "catalog_duplicate_profile"

unfoldable pub validate_profiles :
    (List ℕ → Option String) → List String → List ProfileBinding → Checked
unfolding validate_profile
validate_profiles parse_str seen [] = ok tt
validate_profiles parse_str seen (p ∷ ps) =
    validate_profile parse_str seen p >> validate_profiles parse_str (p.profile_id ∷ seen) ps

abbrev pub bad_binding : Binding → Bool
bad_binding b = not (nat_eq b.schema_version 1) || ltb 64 (length b.profiles)

-- `Binding::validate`
unfoldable pub validate : (List ℕ → Option String) → Binding → Checked
unfolding validate_profiles
validate parse_str b = do
  refuse_if (bad_binding b) "catalog_invalid_binding"
  uuid parse_str b.device_id
  uuid parse_str b.mailbox_id
  uuid parse_str b.generation
  peer_name b.sender
  validate_profiles parse_str [] b.profiles

-- `Binding::profile_names`
abbrev pub profile_names : Binding → List String
profile_names b = map (λ p. p.peer_name) b.profiles

abbrev pub allowed : Binding → String → Bool
allowed b name = any (λ p. p.peer_name == name) b.profiles

-- The mailbox commands, by what the scope reads of them.
pub data OnMessage : Type 0 where
  show ack reply wait : OnMessage

pub data Command : Type 0 where
  send : String → Command
  on_message : OnMessage → String → Command
  check_peer : String → Command
  list_peers : Command
  inbox : String → Option String → Command
  sent : String → Option String → Bool → Command
  other_peer migrate watch : Command

-- What the scope answers: that the command may run, or its whole answer.
pub data Scoped : Type 0 where
  may_run : Scoped
  shown : Message → Scoped
  listed : List ProfileBinding → Scoped
  paged : Page → Option ℤ → Scoped

abbrev pub other_end : String → Row → String
other_end sender m = if m.sender == sender then m.recipient else m.sender

abbrev pub answer_message : OnMessage → Message → Scoped
answer_message show m = shown m
answer_message _ m = may_run

abbrev pub parsed : Option ℤ → String → Result ℤ
parsed none c = err (code c)
parsed (some n) c = ok n

abbrev pub parsed_cursor : (String → Option ℤ) → Option String → Result (Option ℤ)
parsed_cursor parse_i64 none = ok none
parsed_cursor parse_i64 (some s) = do
  n ← parsed (parse_i64 s) "seq_cursor_must_be_a_positive_integer"
  ok (some n)

module _ (parse_str : List ℕ → Option String) (parse_i64 : String → Option ℤ) where
  -- `Binding::page`
  unfoldable pub page : Binding → Result Db → Bool → String → Option String → Result Scoped
  unfolding Mailbox.page next_page
  page b opened is_sent limit cursor = do
    limit ← parsed (parse_i64 limit) "limit_must_be_between_1_and_500"
    cursor ← parsed_cursor parse_i64 cursor
    p ← Mailbox.page opened b.sender (profile_names b) is_sent limit cursor
    ok (paged p (next_page p))

  abbrev pub conversation : Binding → Result Db → String → Result Message
  conversation b opened id =
      map_err (λ _. code "catalog_conversation_unavailable")
        (Mailbox.message parse_str opened id b.sender)

  -- `Binding::command_scope`
  unfoldable pub command_scope : Binding → Result Db → Command → Result Scoped
  unfolding Mailbox.message page
  command_scope b opened (send recipient) = do
    refuse_if (not (allowed b recipient)) "catalog_profile_not_published"
    ok may_run
  command_scope b opened (on_message kind id) = do
    m ← conversation b opened id
    refuse_if (not (allowed b (other_end b.sender m.row))) "catalog_conversation_unavailable"
    ok (answer_message kind m)
  command_scope b opened (check_peer name) = do
    refuse_if (not (allowed b name)) "catalog_profile_not_published"
    ok may_run
  command_scope b opened list_peers = ok (listed b.profiles)
  command_scope b opened (inbox limit after_seq) = page b opened false limit after_seq
  command_scope b opened (sent limit before_seq bodies) = page b opened true limit before_seq
  command_scope b opened other_peer = ok may_run
  command_scope b opened migrate = ok may_run
  command_scope b opened watch = ok may_run

unfoldable pub same_profile : ProfileBinding → ProfileBinding → Bool
same_profile a b =
    a.profile_id == b.profile_id && a.binding_id == b.binding_id && a.peer_name == b.peer_name

abbrev is_ok : Checked → Bool
is_ok (ok _) = true
is_ok (err e) = false

-- `Binding::matches`; none where the value has not the shape of a binding.
unfoldable pub matches : (List ℕ → Option String) → Binding → Option Binding → Bool
unfolding validate same_profile
matches parse_str b none = false
matches parse_str b (some actual) =
    is_ok (validate parse_str actual)
    && nat_eq b.schema_version actual.schema_version
    && b.device_id == actual.device_id
    && b.mailbox_id == actual.mailbox_id
    && b.generation == actual.generation
    && b.sender == actual.sender
    && all (λ p. any (λ q. same_profile q p) actual.profiles) b.profiles

abbrev pub bound_profile : Profile → ProfileBinding
bound_profile p = record {
  profile_id = p.profile_id;
  binding_id = p.binding_id;
  peer_name = p.peer_name;
}

abbrev pub is_current : Profile → Bool
is_current p = p.binding_state == "current"

abbrev pub binding_of : Directory → Binding
binding_of d = record {
  schema_version = 1;
  device_id = d.device_id;
  mailbox_id = d.mailbox_id;
  generation = d.generation;
  sender = d.sender;
  profiles = map bound_profile (select is_current d.profiles);
}

-- `local_binding`, for what the file holds when it is checked and when it is read again, and the
-- resolved path of the database.
unfoldable pub local_binding :
    (List ℕ → Option String)
    → (String → Bool)
    → (String → Result DbStamp)
    → Result Db
    → Catalog
    → Catalog
    → String
    → String
    → Result Binding
unfolding load directory
local_binding parse_str is_absolute stamp opened file later db sender = do
  c ← load parse_str is_absolute stamp file
  refuse_if (not (c.database == db) || not (c.sender.name == sender))
      "catalog_endpoint_binding_mismatch"
  d ← directory parse_str is_absolute stamp opened later
  ok (binding_of d)

abbrev has_none : List ProfileBinding → Bool
has_none [] = true
has_none (p ∷ ps) = false

-- `read_binding`, of what the file holds.
unfoldable pub read_binding : (List ℕ → Option String) → Binding → Result Binding
unfolding validate
read_binding parse_str b = do
  validate parse_str b
  refuse_if (has_none b.profiles) "catalog_invalid_binding"
  ok b
