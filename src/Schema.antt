-- ===== src/Schema.antt =====
-- src/schema.rs: the upgrade of a mailbox from an earlier version.
--
-- The tables of the file are `rows`; a column that an earlier table lacks is null in its rows, and
-- `delivery` is native where there was none. `objects` is what `sqlite_schema` lists. Parameters:
-- the backup, of the version that it copies, and whether an interrupt has come.
pub mod Upgrade
use harness_talk.Prelude.{
  ℕ, ◌+◌, String, String_eq, Bool, true, false, not, ◌&&◌, ◌||◌, Option, none, some, List, [], ◌∷◌,
  ◌++◌, ◌==◌, ℤ, pos, negsuc, nat_eq, leb, any, all, map, take, length, if◌then◌else◌,
}
use harness_talk.Prelude.Text.{codes}
use harness_talk.Error.{
  Error, Result, Checked, ok, err, code, interrupted, refuse_if, map_err, ◌>>=◌, ◌>>◌,
}
use harness_talk.Model.{native}
use harness_talk.Db.{PeerRow, Db}
use harness_talk.Db.Peers.{insert_peer}

-- An object of the database: a table with its columns, or something else with that name.
pub record Object : Type 0 where
  pub name : String
  pub is_table : Bool
  pub columns : List String

pub record File : Type 0 where
  pub version : ℤ
  pub objects : List Object
  pub references_hold : Bool
  pub is_whole : Bool
  pub rows : Db

abbrev lower : ℕ → ℕ
lower c = if leb b'A' c && leb c b'Z' then c + 32 else c

unfoldable pub same_codes : List ℕ → List ℕ → Bool
same_codes [] [] = true
same_codes (c ∷ s) (d ∷ t) = nat_eq (lower c) (lower d) && same_codes s t
same_codes _ _ = false

-- COLLATE NOCASE
unfoldable pub same_word : String → String → Bool
unfolding same_codes
same_word a b = same_codes (codes a) (codes b)

-- `has_column`
unfoldable pub has_column : List Object → String → String → Bool
unfolding same_word
has_column objects table name =
    any (λ o. same_word o.name table && any (λ c. c == name) o.columns) objects

unfoldable pub has_table : List Object → String → Bool
has_table objects name = any (λ o. o.name == name && o.is_table) objects

-- `legacy_table`: the inputs that the upgrade reads.
unfoldable pub legacy_table : List Object → String → List String → Bool → Checked
unfolding same_word
legacy_table objects table columns required =
    if not (any (λ o. same_word o.name table) objects) && not required
    then ok tt
    else refuse_if
        (not (any (λ o. same_word o.name table && o.is_table) objects)
          || not (
              all
                (λ name.
                  any (λ o. same_word o.name table && any (λ c. same_word c name) o.columns)
                    objects)
                columns))
        "invalid_database_schema"

-- `legacy_structure`
unfoldable pub legacy_structure : List Object → Checked
unfolding legacy_table
legacy_structure objects = do
  legacy_table objects "peers" ("name" ∷ "harness" ∷ "session_id" ∷ "workspace" ∷ "socket" ∷ [])
      true
  legacy_table objects "messages"
      ("seq" ∷ "id" ∷ "sender" ∷ "recipient" ∷ "in_reply_to" ∷ "body" ∷ "created_at" ∷ "ack_at"
        ∷ "submission" ∷ "notification_started_at" ∷ "notification_finished_at"
        ∷ "notification_detail" ∷ [])
      true
  legacy_table objects "waits" ("token" ∷ "message_id" ∷ "actor" ∷ "until" ∷ []) false
  legacy_table objects "retired_peers" ("name" ∷ "retired_at" ∷ []) false

-- `check_version`
unfoldable pub check_version : ℤ → Checked
check_version (pos n) = refuse_if (not (leb n 3)) "unsupported_database_version"
check_version (negsuc n) = err (code "unsupported_database_version")

abbrev pub is_version : ℕ → ℤ → Bool
is_version n (pos m) = nat_eq m n
is_version n (negsuc m) = false

abbrev pub foreign_keys : Bool → Checked
foreign_keys hold = refuse_if (not hold) "database_foreign_key_violation"

-- The rows of `peers`, in order, into the table that takes its place.
unfoldable pub rebuild : List PeerRow → Db → Result Db
unfolding insert_peer
rebuild [] d = ok d
rebuild (p ∷ ps) d = insert_peer (record p { delivery = native }) d >>= λ d'. rebuild ps d'

abbrev table : String → List String → Object
table name columns = record { name = name; is_table = true; columns = columns }

abbrev pub peers_object : Object
peers_object =
    table "peers"
      ("name" ∷ "harness" ∷ "session_id" ∷ "workspace" ∷ "socket" ∷ "url" ∷ "delivery" ∷ [])

-- The tables of a new file.
abbrev pub new_tables : List Object
new_tables =
    peers_object
    ∷ table "messages" (
        "seq" ∷ "id" ∷ "sender" ∷ "recipient" ∷ "in_reply_to" ∷ "body" ∷ "created_at" ∷ "ack_at"
        ∷ "submission" ∷ "notification_started_at" ∷ "notification_finished_at"
        ∷ "notification_detail" ∷ "wait_returned_at" ∷ [])
    ∷ []

abbrev waits_object : Object
waits_object = table "waits" ("token" ∷ "message_id" ∷ "actor" ∷ "until" ∷ [])

abbrev retired_object : Object
retired_object = table "retired_peers" ("name" ∷ "retired_at" ∷ [])

-- A backup that fails is told by one code, unless an interrupt ended it.
abbrev backup_error : Error → Error
backup_error interrupted = interrupted
backup_error _ = code "database_backup_failed"

-- ALTER TABLE ... ADD COLUMN
abbrev pub add_column : String → String → Object → Object
add_column table column o =
    if same_word o.name table then record o { columns = o.columns ++ column ∷ [] } else o

unfoldable pub with_column : String → String → List Object → List Object
unfolding has_column
with_column table column objects =
    if has_column objects table column then objects else map (add_column table column) objects

-- CREATE TABLE IF NOT EXISTS: a table or a view that has the name, in any case, is left.
unfoldable pub with_table : Object → List Object → List Object
unfolding same_word
with_table o objects =
    if any (λ p. same_word p.name o.name) objects then objects else objects ++ o ∷ []

-- The new `peers` in the place of the old one.
unfoldable pub replace_peers : List Object → List Object
replace_peers objects = map (λ o. if same_word o.name "peers" then peers_object else o) objects

-- What the upgrade of a file that holds an earlier version makes of it.
unfoldable pub upgrade : Checked → File → Result File
unfolding legacy_structure rebuild with_column replace_peers
upgrade backup f = do
  legacy_structure f.objects
  foreign_keys f.references_hold
  refuse_if (not f.is_whole) "database_integrity_check_failed"
  map_err backup_error backup
  rows' ← rebuild f.rows.peers (record f.rows { peers = [] })
  ok (record f {
    objects = with_column "messages" "wait_returned_at" (replace_peers f.objects);
    rows = rows';
  })

-- name LIKE 'sqlite_%', in which `_` is any one character.
abbrev is_internal : List ℕ → Bool
is_internal name = same_codes (take 6 name) (codes "sqlite") && leb 7 (length name)

-- A new file; one that has any object of its own is not taken over.
unfoldable pub create : File → Result File
create f = do
  refuse_if (any (λ o. not (is_internal (codes o.name))) f.objects)
      "unsupported_unversioned_database"
  ok (record f { objects = f.objects ++ new_tables })

-- The end of `change`, which brings every file to the version.
unfoldable pub finish_change : Bool → File → Result File
unfolding with_table
finish_change stopped f = do
  foreign_keys f.references_hold
  if stopped
      then err interrupted
      else ok (record f {
        version = pos 3;
        objects = with_table retired_object (with_table waits_object f.objects);
      })

-- `change`. Where it fails, its transaction is undone and the file is as it was.
unfoldable pub change : (ℤ → Checked) → Bool → File → Result File
unfolding check_version upgrade create finish_change
change backup stopped f = do
  check_version f.version
  if is_version 3 f.version then ok f else do
    f' ← if is_version 0 f.version then create f else upgrade (backup f.version) f
    finish_change stopped f'

-- Whether a file of the version has what the version adds.
unfoldable pub is_ready : List Object → Bool
unfolding has_table has_column
is_ready objects =
    has_table objects "waits"
    && has_table objects "retired_peers"
    && has_column objects "peers" "delivery"
    && has_column objects "messages" "wait_returned_at"

-- `ensure`
unfoldable pub ensure : (ℤ → Checked) → Bool → File → Result File
unfolding check_version is_ready
ensure backup stopped f = do
  check_version f.version
  if is_version 3 f.version
      then (do refuse_if (not (is_ready f.objects)) "invalid_database_schema"; ok f)
      else change backup stopped f
