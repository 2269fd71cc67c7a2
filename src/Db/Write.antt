-- ===== src/Db/Write.antt =====
-- How a statement of src/store.rs writes: as one transaction, which answers and leaves the tables
-- changed, or fails and leaves them as they were.
use harness_talk.Error.{Result, ok, err}
use harness_talk.Db.{Db}

abbrev pub Write : Type 0 → Type 0
Write A = Db → Result A × Db

-- An error rolls the transaction back.
abbrev pub commit : {A : Type 0} → Db → Result (A × Db) → Result A × Db
commit before (ok (a, after)) = (ok a, after)
commit before (err e) = (err e, before)
