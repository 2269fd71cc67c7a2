-- ===== src/Db/Page.antt =====
-- `Store::page` of src/store.rs, with its conditions INBOX and SENT: one page from one snapshot.
pub mod Chain
pub mod Walk
pub mod Rest
pub mod Visits
use harness_talk.Prelude.{
  ℕ, String, String_eq, Bool, not, ◌&&◌, ◌||◌, Option, none, some, List, ◌==◌, ◌^◌, ◌-◌, ℤ,
  pos_part, ltb, any, select, count, take, get_last?, map, reverse, if◌then◌else◌,
}
use harness_talk.Model.{Row, Page}
use harness_talk.Db.{Db, column_eq, is_some, with_reply}

-- `INBOX`: requests to the actor that have no reply, and answers to it that it has not acked.
unfoldable pub in_inbox : String → Db → Row → Bool
in_inbox actor db m =
    m.recipient == actor
    && ((not (is_some m.in_reply_to) && not (any (λ r. column_eq m.id r.in_reply_to) db.messages))
        || (is_some m.in_reply_to && not (is_some m.ack_at)))

-- `SENT`
unfoldable pub is_sent : String → Db → Row → Bool
is_sent actor db m = m.sender == actor

abbrev pub i64_max : ℕ
i64_max = 2 ^ 63 - 1

abbrev pub start : Bool → Option ℤ → ℕ
start newest_first (some c) = pos_part c
start newest_first none = if newest_first then i64_max else 0

-- `m.seq {beyond} ?`
abbrev pub beyond : Bool → ℕ → Row → Bool
beyond newest_first seq m = if newest_first then ltb m.seq seq else ltb seq m.seq

abbrev pub in_order {ℓ} : {A : Type ℓ} → Bool → List A → List A
in_order newest_first rows = if newest_first then reverse rows else rows

abbrev pub omitted_after : (Row → Bool) → Bool → List Row → Option Row → ℕ
omitted_after condition newest_first messages none = 0
omitted_after condition newest_first messages (some last) =
    count (λ m. condition m && beyond newest_first last.seq m) messages

-- SELECT * ... WHERE {condition} AND m.seq {beyond} ? ORDER BY m.seq {order} LIMIT ?
unfoldable pub page_rows : (Row → Bool) → Bool → ℕ → ℕ → List Row → List Row
page_rows condition newest_first limit seq messages =
    take limit
      (in_order newest_first (select (λ m. condition m && beyond newest_first seq m) messages))

-- The body of `page`'s transaction. A limit is positive here: `validate::page` ran before.
unfoldable pub page_of : (Row → Bool) → Bool → ℤ → Option ℤ → Db → Page
unfolding page_rows with_reply
page_of condition newest_first limit cursor db =
    let rows =
      page_rows condition newest_first (pos_part limit) (start newest_first cursor) db.messages in
    record {
      messages = map (with_reply db) rows;
      total = count condition db.messages;
      omitted = omitted_after condition newest_first db.messages (get_last? rows);
    }
