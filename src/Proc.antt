-- ===== src/Proc.antt =====
-- A command of the program as it runs beside others on one mailbox.
--
-- A process goes from statement to statement, each a transaction of its own. Before each of its
-- statements the world may have moved: time passes, an interrupt arrives, and other processes run
-- their transactions. SQLite may also refuse the statement. `future` says what happens before each
-- one, so a run is a function of its world, and a theorem about all worlds is one about all
-- interleavings.
pub mod Leads
pub mod Calls
pub mod Runs
pub mod Ends
use harness_talk.Prelude.{
  ℕ, suc, ◌+◌, String, Bool, true, false, ◌≡◌, refl, Option, none, some, List, [], ◌∷◌, ◌++◌,
  if◌then◌else◌,
}
use harness_talk.Error.{SqliteCode, Error, Result, Checked, ok, err, db, interrupted}
use harness_talk.Db.{Db}
use harness_talk.Db.Txn.{Txn, apply, start_notification}
use harness_talk.Db.Update.{claim}
use harness_talk.Db.Write.{Write}

pub data Event : Type 0 where
  tick : ℕ → Event
  signal : Event
  other : Txn → Event

-- What precedes a statement, and whether SQLite refuses it.
pub record Turn : Type 0 where
  pub before : List Event
  pub fault : Option SqliteCode

-- `clock` is `os::now()` in milliseconds, `stop` what `os::interrupted()` answers. `fresh` gives
-- the IDs of `Uuid::new_v4`. `calls` lists the messages that a notifier was called for, by this
-- process or by another one. The call of another process is listed as soon as it wins the claim,
-- before which it may not call.
pub record World : Type 0 where
  pub mailbox : Db
  pub clock : ℕ
  pub stop : Bool
  pub turn : ℕ
  pub future : ℕ → Turn
  pub drawn : ℕ
  pub fresh : ℕ → String
  pub calls : List String

abbrev pub Proc : Type 0 → Type 0
Proc A = World → Result A × World

-- What `notify_once` does once its claim has changed as many rows: it may call its notifier once.
abbrev pub calls_after : Result ℕ → String → List String
calls_after (ok (suc n)) id = id ∷ []
calls_after _ id = []

abbrev pub calls_of : Txn → Db → List String
calls_of (start_notification id time) d = calls_after (claim id time d).0 id
calls_of _ d = []

unfoldable pub happen : World → Event → World
happen w (tick t) = record w { clock = w.clock + t }
happen w signal = record w { stop = true }
happen w (other t) = record w {
  mailbox = apply t w.mailbox;
  calls = w.calls ++ calls_of t w.mailbox;
}

unfoldable pub happen_all : World → List Event → World
happen_all w [] = w
happen_all w (e ∷ es) = happen_all (happen w e) es

-- The world as the process's next statement finds it.
unfoldable pub next_turn : World → World
unfolding happen_all happen
next_turn w = let w' = happen_all w (w.future w.turn).before in record w' { turn = w.turn + 1 }

-- What ran, in the world that it leaves.
abbrev pub settle : {A : Type 0} → World → Result A × Db → Result A × World
settle w (r, d) = (r, record w { mailbox = d })

abbrev pub run_statement :
    {A : Type 0} → Option SqliteCode → World → (ℕ → Write A) → Result A × World
run_statement none w f = settle w (f w.clock w.mailbox)
run_statement (some c) w f = (err (db c), w)

-- One statement, or one transaction, on a connection of its own. It is given the time at which it
-- holds the mailbox.
unfoldable pub write_at : {A : Type 0} → (ℕ → Write A) → Proc A
write_at f w = run_statement (w.future w.turn).fault (next_turn w) f

pub write : {A : Type 0} → Write A → Proc A
unfolding write_at
write f = write_at (λ _. f)

-- How a statement runs, for proofs that look at one.
pub write_lem :
    {A : Type 0} (f : Write A) (w : World)
    → write f w ≡ run_statement (w.future w.turn).fault (next_turn w) (λ _. f)
unfolding write
write_lem f w = refl

abbrev pub unchanged : {A : Type 0} → (Db → Result A) → ℕ → Write A
unchanged f now d = (f d, d)

pub read : {A : Type 0} → (Db → Result A) → Proc A
unfolding write_at
read f = write_at (unchanged f)

module _ {A : Type 0} where
  pub pure : A → Proc A
  pure a w = (ok a, w)

  pub raise : Error → Proc A
  raise e w = (err e, w)

  pub lift : Result A → Proc A
  lift r w = (r, w)

  pub gets : (World → A) → Proc A
  gets f w = (ok (f w), w)

  -- What is done with the error, where the source matches on a `Result`.
  pub try : Proc A → Proc (Result A)
  try m w = let (r, w') = m w in (ok r, w')

-- `os::now()`
pub now : Proc ℕ
unfolding gets
now = gets (λ w. w.clock)

abbrev stop_at : Bool → Checked
stop_at true = err interrupted
stop_at false = ok tt

-- if os::interrupted() { return Err(Error::Interrupted); }
pub check_interrupted : Proc (Unit {0})
check_interrupted w = (stop_at w.stop, w)

pub sleep : ℕ → Proc (Unit {0})
sleep t w = (ok tt, record w { clock = w.clock + t })

-- Uuid::new_v4()
pub new_id : Proc String
new_id w = (ok (w.fresh w.drawn), record w { drawn = w.drawn + 1 })

-- The notifier is called for a message. What it does is the caller's argument.
pub record_call : String → Proc (Unit {0})
record_call id w = (ok tt, record w { calls = w.calls ++ id ∷ [] })

module _ {A B : Type 0} where
  abbrev pub continue : Result A → (A → Proc B) → Proc B
  continue (ok a) f w = f a w
  continue (err e) f w = (err e, w)

  infixl 10 ◌>>=◌ ◌>>◌
  -- Opening this opens the actions above it too.
  unfoldable pub ◌>>=◌ : Proc A → (A → Proc B) → Proc B
  unfolding pure raise lift gets now try check_interrupted sleep new_id record_call
  ◌>>=◌ m f w = let (r, w') = m w in continue r f w'

  abbrev pub ◌>>◌ : Proc A → Proc B → Proc B
  m >> n = m >>= λ _. n

pub when : Bool → Proc (Unit {0}) → Proc (Unit {0})
unfolding pure
when b m = if b then m else pure tt
