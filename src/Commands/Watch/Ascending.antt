-- ===== src/Commands/Watch/Ascending.antt =====
-- The order of what `watch` prints (src/commands/read.rs).
use harness_talk.Prelude.{
  ℕ, zero, suc, ◌<◌, ◌≡◌, refl, ℤ, pos, String, true, false, Option, none, some, List, [], ◌∷◌,
  ◌++◌, All, map, take, ltb→lt,
}
use mathlib.Core.Path.{subst}
use harness_talk.Prelude.Select.{All-take}
use harness_talk.Error.{Result, ok, err}
use harness_talk.Error.Steps.{both, ok_step, ok_same}
use harness_talk.Model.{Row, Message, Page}
use harness_talk.Validate
use harness_talk.Db.{Db, with_reply, peer_on}
use harness_talk.Db.Page.{in_inbox, page_of, page_rows, beyond, start}
use harness_talk.Db.Page.Chain.{Chain}
use harness_talk.Db.Page.Rest.{left_at, left-Chain, left_fit}
use harness_talk.Db.Valid.{IsValid}
use harness_talk.Commands.Watch.{Poll, busy, broken, tables, poll_inbox, advance, watch}

-- Each message has a higher number than the one before it, and the first one than `low`.
abbrev pub Ascends : ℕ → List Message → Type 0
Ascends low [] = Unit
Ascends low (m ∷ ms) = (low < m.row.seq) × Ascends m.row.seq ms

abbrev pub AreValid : List Poll → Type 0
AreValid [] = Unit
AreValid (tables db ∷ polls) = IsValid db × AreValid polls
AreValid (_ ∷ polls) = AreValid polls

Chain-take : (k : ℕ) (ms : List Row) → Chain false ms → Chain false (take k ms)
Chain-take zero ms h = tt
Chain-take (suc k) [] h = tt
Chain-take (suc k) (m ∷ ms) h = (All-take _ k ms h.0, Chain-take k ms h.1)

Ascends-rows :
    (db : Db) (low : ℕ) (ms : List Row)
    → All (λ m. beyond false low m ≡ true) ms
    → Chain false ms
    → Ascends low (map (with_reply db) ms)
unfolding with_reply
Ascends-rows db low [] h k = tt
Ascends-rows db low (m ∷ ms) h k = (ltb→lt low m.seq h.0, Ascends-rows db m.seq ms k.0 k.1)

Ascends-append :
    (cursor : Option ℤ) (xs ys : List Message)
    → Ascends (start false cursor) xs
    → Ascends (start false (advance cursor xs)) ys
    → Ascends (start false cursor) (xs ++ ys)
Ascends-append cursor [] ys h k = k
Ascends-append cursor (m ∷ ms) ys h k = (h.0, Ascends-append (some (pos m.row.seq)) ms ys h.1 k)

page-Ascends :
    (own : String) (cursor : Option ℤ) (db : Db)
    → IsValid db
    → Ascends (start false cursor) (page_of (in_inbox own db) false (pos 100) cursor db).messages
unfolding page_of page_rows
page-Ascends own cursor db valid =
    let c = start false cursor in
    let left = left_at (in_inbox own db) false db valid c in
    Ascends-rows db c (take 100 left)
      (All-take _ 100 left (left_fit (in_inbox own db) false db valid c))
      (Chain-take 100 left (left-Chain (in_inbox own db) false db valid c))

poll-Ascends :
    (own : String) (cursor : Option ℤ) (db : Db) (p : Page)
    → IsValid db
    → poll_inbox own cursor db ≡ ok p
    → Ascends (start false cursor) p.messages
unfolding poll_inbox
poll-Ascends own cursor db p valid h =
    let (_, h) = both (Validate.page (pos 100) cursor) _ p h in
    let (_, _, h) = ok_step (peer_on own db) _ p h in
    subst (λ x. Ascends (start false cursor) x.messages) (ok_same h)
      (page-Ascends own cursor db valid)

answered :
    (cursor : Option ℤ) (r : Result Page) (rest : Page → List Message)
    → ((p : Page) → r ≡ ok p → Ascends (start false cursor) (p.messages ++ rest p))
    → Ascends (start false cursor) (elim r [ ok p ↦ p.messages ++ rest p | err e ↦ [] ])
answered cursor (ok p) rest h = h p refl
answered cursor (err e) rest h = tt

watch_from :
    (own : String) (cursor : Option ℤ) (polls : List Poll)
    → AreValid polls
    → Ascends (start false cursor) (watch own cursor polls)
unfolding watch
watch_from own cursor [] h = tt
watch_from own cursor (busy ∷ polls) h = watch_from own cursor polls h
watch_from own cursor (broken e ∷ polls) h = tt
watch_from own cursor (tables db ∷ polls) h = answered cursor (poll_inbox own cursor db) _ (λ p e.
    Ascends-append cursor p.messages _ (poll-Ascends own cursor db p h.0 e)
      (watch_from own (advance cursor p.messages) polls h.1))

-- Whatever happens between the polls, where the tables that they meet are valid: a watch that
-- starts at the beginning prints messages in the order of their numbers, and none twice.
pub watch-Ascends :
    (own : String) (polls : List Poll) → AreValid polls → Ascends 0 (watch own none polls)
watch-Ascends own polls h = watch_from own none polls h
