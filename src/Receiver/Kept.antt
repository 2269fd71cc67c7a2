-- ===== src/Receiver/Kept.antt =====
-- How the attempts that the actions of src/adapters/codex/receive.rs make stay within what is saved.
use harness_talk.Prelude.{
  ℕ, zero, suc, ◌+◌, ◌≤◌, ◌≡◌, refl, String, String_eq, Bool, ◌&&◌, ◌||◌, Option, none, some, List,
  [], ◌∷◌, ◌++◌, ◌==◌, arith, take, count, eq_iff, if◌then◌else◌,
}
use harness_talk.Model.{Submission}
use harness_talk.Db.{column_eq}
use harness_talk.Receiver.{
  State, Receipt, contains_key, insert, Action, wrote, submitted_to, emitted, disk_after,
}
use harness_talk.Receiver.Lives.{is_attempt, may_submit}

-- Whether the state knows of a submission of the message.
abbrev pub holds : String → State → Bool
holds id s = contains_key id s.receipts || column_eq id s.pending

-- How many attempts what is saved stands for.
abbrev pub known : String → Option State → ℕ
known id none = 0
known id (some s) = if holds id s then 1 else 0

abbrev pub tried : String → String → Submission → ℕ → ℕ
tried id i submission n = if i == id && may_submit submission then suc n else n

-- The attempts for the message after the actions, where `n` were made before.
abbrev pub attempts : String → ℕ → List Action → ℕ
attempts id n [] = n
attempts id n (wrote s ∷ actions) = attempts id n actions
attempts id n (submitted_to i b ∷ actions) = attempts id (tried id i b n) actions
attempts id n (emitted p ∷ actions) = attempts id n actions

-- After each of the actions, at most as many attempts were made as what is saved stands for.
abbrev pub Kept : String → Option State → ℕ → List Action → Type 0
Kept id d n [] = n ≤ known id d
Kept id d n (wrote s ∷ actions) = n ≤ known id d × Kept id (some s) n actions
Kept id d n (submitted_to i b ∷ actions) = n ≤ known id d × Kept id d (tried id i b n) actions
Kept id d n (emitted p ∷ actions) = n ≤ known id d × Kept id d n actions

pub disk_after-append :
    (d : Option State) (xs ys : List Action)
    → disk_after d (xs ++ ys) ≡ disk_after (disk_after d xs) ys
unfolding disk_after
disk_after-append d [] ys = refl
disk_after-append d (wrote s ∷ xs) ys = disk_after-append (some s) xs ys
disk_after-append d (submitted_to i b ∷ xs) ys = disk_after-append d xs ys
disk_after-append d (emitted p ∷ xs) ys = disk_after-append d xs ys

module _ (id : String) where
  pub Kept_here : (d : Option State) (n : ℕ) (xs : List Action) → Kept id d n xs → n ≤ known id d
  Kept_here d n [] h = h
  Kept_here d n (wrote s ∷ xs) h = h.0
  Kept_here d n (submitted_to i b ∷ xs) h = h.0
  Kept_here d n (emitted p ∷ xs) h = h.0

  pub Kept-append :
      (xs ys : List Action) (d : Option State) (n : ℕ)
      → Kept id d n xs
      → Kept id (disk_after d xs) (attempts id n xs) ys
      → Kept id d n (xs ++ ys)
  unfolding disk_after
  Kept-append [] ys d n h k = k
  Kept-append (wrote s ∷ xs) ys d n h k = (h.0, Kept-append xs ys (some s) n h.1 k)
  Kept-append (submitted_to i b ∷ xs) ys d n h k = (h.0, Kept-append xs ys d (tried id i b n) h.1 k)
  Kept-append (emitted p ∷ xs) ys d n h k = (h.0, Kept-append xs ys d n h.1 k)

  pub Kept-take :
      (k : ℕ) (xs : List Action) (d : Option State) (n : ℕ)
      → Kept id d n xs
      → Kept id d n (take k xs)
  Kept-take zero xs d n h = Kept_here d n xs h
  Kept-take (suc k) [] d n h = h
  Kept-take (suc k) (wrote s ∷ xs) d n h = (h.0, Kept-take k xs (some s) n h.1)
  Kept-take (suc k) (submitted_to i b ∷ xs) d n h = (h.0, Kept-take k xs d (tried id i b n) h.1)
  Kept-take (suc k) (emitted p ∷ xs) d n h = (h.0, Kept-take k xs d n h.1)

  pub Kept_end :
      (xs : List Action) (d : Option State) (n : ℕ)
      → Kept id d n xs
      → attempts id n xs ≤ known id (disk_after d xs)
  unfolding disk_after
  Kept_end [] d n h = h
  Kept_end (wrote s ∷ xs) d n h = Kept_end xs (some s) n h.1
  Kept_end (submitted_to i b ∷ xs) d n h = Kept_end xs d (tried id i b n) h.1
  Kept_end (emitted p ∷ xs) d n h = Kept_end xs d n h.1

  pub attempts-append :
      (n : ℕ) (xs ys : List Action) → attempts id n (xs ++ ys) ≡ attempts id (attempts id n xs) ys
  attempts-append n [] ys = refl
  attempts-append n (wrote s ∷ xs) ys = attempts-append n xs ys
  attempts-append n (submitted_to i b ∷ xs) ys = attempts-append (tried id i b n) xs ys
  attempts-append n (emitted p ∷ xs) ys = attempts-append n xs ys

  pub attempts-eq-count :
      (n : ℕ) (xs : List Action) → attempts id n xs ≡ n + count (is_attempt id) xs
  unfolding is_attempt
  attempts-eq-count n [] = omega arith
  attempts-eq-count n (wrote s ∷ xs) = attempts-eq-count n xs
  attempts-eq-count n (submitted_to i b ∷ xs) =
      ground (arith, attempts-eq-count n xs, attempts-eq-count (suc n) xs)
  attempts-eq-count n (emitted p ∷ xs) = attempts-eq-count n xs

  pub insert-holds :
      (r : Receipt) (rs : List Receipt)
      → contains_key id (insert r rs) ≡ ((r.id == id) || contains_key id rs)
  insert-holds r [] = refl
  insert-holds r (x ∷ xs) = ground (arith, insert-holds r xs, eq_iff x.id r.id)
