-- ===== src/Error.antt =====
-- src/error.rs: why a command failed, and the fixed code it is written as.
--
-- `rusqlite::Error` and `io::ErrorKind` are of other packages: of the first the code reads only the
-- SQLite error code, of the second only the kinds that `io_code` names.
pub mod Steps
use harness_talk.Prelude.{
  ◌≡◌, refl, ◌⊎◌, inl, inr, String, String_eq, Bool, true, false, ◌==◌, if◌then◌else◌,
}

-- What `sqlite_error_code` answers, as far as the program tells the codes apart.
pub data SqliteCode : Type 0 where
  database_corrupt not_a_database database_busy constraint_violation other_code : SqliteCode

pub data IoKind : Type 0 where
  not_found permission_denied connection_refused connection_reset connection_aborted : IoKind
  broken_pipe timed_out would_block interrupted_call already_exists other_kind : IoKind

pub data Error : Type 0 where
  code : String → Error
  system : String → Error
  io : IoKind → Error
  db : SqliteCode → Error
  interrupted : Error

pub data Result {ℓ} (A : Type ℓ) : Type ℓ where
  ok : A → Result A
  err : Error → Result A

pub Result-cases {ℓ} :
    {A : Type ℓ} (r : Result A) → ((a : A) × (r ≡ ok a)) ⊎ ((e : Error) × (r ≡ err e))
Result-cases (ok a) = inl (a, refl)
Result-cases (err e) = inr (e, refl)

-- The answer of a check, which has nothing to say where it passes.
abbrev pub Checked : Type 0
Checked = Result (Unit {0})

infixl 10 ◌>>=◌ ◌>>◌
abbrev pub ◌>>=◌ {ℓ κ} : {A : Type ℓ} {B : Type κ} → Result A → (A → Result B) → Result B
ok a >>= f = f a
err e >>= f = err e

abbrev pub ◌>>◌ {ℓ κ} : {A : Type ℓ} {B : Type κ} → Result A → Result B → Result B
m >> k = m >>= λ _. k

-- An early `return Err(code(c))` where the test holds.
abbrev pub refuse_if : Bool → String → Checked
refuse_if true c = err (code c)
refuse_if false c = ok tt

-- `ok_or_else`, for a lookup.
abbrev pub map_err {ℓ} : {A : Type ℓ} → (Error → Error) → Result A → Result A
map_err f (ok a) = ok a
map_err f (err e) = err (f e)

-- The fixed code of an operating system failure.
unfoldable pub io_code : IoKind → String
io_code not_found = "file_not_found"
io_code permission_denied = "permission_denied"
io_code connection_refused = "connection_refused"
io_code connection_reset = "connection_closed"
io_code connection_aborted = "connection_closed"
io_code broken_pipe = "connection_closed"
io_code timed_out = "timed_out"
io_code would_block = "timed_out"
io_code _ = "os_error"

-- `Error::fixed`
unfoldable pub fixed_code : Error → String
unfolding io_code
fixed_code (code c) = c
fixed_code (system c) = c
fixed_code (io kind) = io_code kind
fixed_code (db database_corrupt) = "database_corrupt"
fixed_code (db not_a_database) = "database_corrupt"
fixed_code (db _) = "database_unavailable"
fixed_code interrupted = "interrupted"

-- `Error::client`
unfoldable pub client : Error → Error
unfolding fixed_code
client e =
    if fixed_code e == "database_corrupt"
    then system "client_database_corrupt"
    else if fixed_code e == "database_unavailable"
    then system "client_database_unavailable"
    else e

-- `Error::system`: whether the system failed.
unfoldable pub is_system : Error → Bool
is_system (code c) = false
is_system _ = true
