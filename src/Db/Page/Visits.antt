-- ===== src/Db/Page/Visits.antt =====
-- What a caller sees who goes from page to page (src/store.rs, src/guidance.rs).
use harness_talk.Prelude.{
  ℕ, zero, suc, ◌+◌, ◌≤◌, ◌<◌, ◌≡◌, refl, sym, ap, ◌∙◌, Bool, true, false, ◌&&◌, Option, none, some,
  List, [], ◌∷◌, ◌++◌, ℤ, pos, pos_part, arith, select, count, length, All, get_last?, map, take,
  drop, take-append-drop, count-eq-length-select, length-append, length-take, if◌then◌else◌, nat_eq,
}
use harness_talk.Prelude.Select.{select-All, All-reverse, All-select, get_last?-map}
use mathlib.Core.List.{map-append}
use harness_talk.Model.{Row, Message}
use harness_talk.Db.{Db, with_reply}
use harness_talk.Db.Page.{beyond, in_order, start, page_rows, page_of, omitted_after, i64_max}
use harness_talk.Db.Page.Chain.{starts_before}
use harness_talk.Db.Page.Walk.{walk, next_page, cursor_of}
use harness_talk.Db.Valid.{IsValid}
use harness_talk.Db.Page.Rest.{
  left-select, left_after, left_at, length-in_order, length-map, matches, none_shown, nothing_left,
  omitted_rest, one_shown, take_nothing,
}

module _ (condition : Row → Bool) (newest_first : Bool) (db : Db) (valid : IsValid db) where
  module _ (limit : ℤ) (some_rows : 0 < pos_part limit) where
    abbrev rows_at : ℕ → List Row
    rows_at c = take (pos_part limit) (left_at condition newest_first db valid c)

    page_messages :
        (cursor : Option ℤ)
        → (page_of condition newest_first limit cursor db).messages
          ≡ map (with_reply db) (rows_at (start newest_first cursor))
    unfolding page_of page_rows
    page_messages cursor = refl

    page_omitted :
        (cursor : Option ℤ)
        → (page_of condition newest_first limit cursor db).omitted
          ≡ omitted_after condition newest_first db.messages
              (get_last? (rows_at (start newest_first cursor)))
    unfolding page_of page_rows
    page_omitted cursor = refl

    abbrev cursor_at : Option Row → Option ℤ
    cursor_at none = none
    cursor_at (some m) = some (pos m.seq)

    cursor_of_row :
        (o : Option Row)
        → cursor_of (elim o [ none ↦ none | some m ↦ some (with_reply db m) ]) ≡ cursor_at o
    unfolding with_reply
    cursor_of_row none = refl
    cursor_of_row (some m) = refl

    last_cursor :
        (cursor : Option ℤ)
        → cursor_of (get_last? (page_of condition newest_first limit cursor db).messages)
          ≡ cursor_at (get_last? (rows_at (start newest_first cursor)))
    last_cursor cursor =
        ap (λ ms. cursor_of (get_last? ms)) (page_messages cursor)
        ∙ ap cursor_of (get_last?-map (with_reply db) (rows_at (start newest_first cursor)))
        ∙ cursor_of_row (get_last? (rows_at (start newest_first cursor)))

    abbrev cursor_unless : ℕ → Option ℤ → Option ℤ
    cursor_unless omitted next = if nat_eq omitted 0 then none else next

    next_page_of :
        (cursor : Option ℤ)
        → next_page (page_of condition newest_first limit cursor db)
          ≡ cursor_unless
              (omitted_after condition newest_first db.messages
                (get_last? (rows_at (start newest_first cursor))))
              (cursor_at (get_last? (rows_at (start newest_first cursor))))
    unfolding next_page
    next_page_of cursor =
        ap
          (λ k.
            cursor_unless k
              (cursor_of (get_last? (page_of condition newest_first limit cursor db).messages)))
          (page_omitted cursor)
        ∙ ap (cursor_unless _) (last_cursor cursor)

    abbrev walked : ℕ → Option ℤ → List Message
    walked fuel none = []
    walked fuel (some next) = walk condition newest_first limit fuel (some next) db

    walk_step :
        (fuel : ℕ) (cursor : Option ℤ)
        → walk condition newest_first limit (suc fuel) cursor db
          ≡ map (with_reply db) (rows_at (start newest_first cursor))
            ++ walked fuel (
                cursor_unless
                  (omitted_after condition newest_first db.messages
                    (get_last? (rows_at (start newest_first cursor))))
                  (cursor_at (get_last? (rows_at (start newest_first cursor)))))
    unfolding walk next_page
    walk_step fuel cursor =
        ap (λ ms. ms ++ walked fuel (next_page (page_of condition newest_first limit cursor db)))
          (page_messages cursor)
        ∙ ap (λ next. map (with_reply db) (rows_at (start newest_first cursor)) ++ walked fuel next)
            (next_page_of cursor)

    shown_with_rest :
        (c : ℕ)
        → map (with_reply db) (rows_at c)
            ++ map
                (with_reply db)
                (drop (pos_part limit) (left_at condition newest_first db valid c))
          ≡ map (with_reply db) (left_at condition newest_first db valid c)
    shown_with_rest c =
        sym (
          map-append (with_reply db) (rows_at c)
            (drop (pos_part limit) (left_at condition newest_first db valid c)))
        ∙ ap (map (with_reply db))
            (take-append-drop (pos_part limit) (left_at condition newest_first db valid c))

    rest_length :
        (c fuel : ℕ) (p : Row)
        → get_last? (rows_at c) ≡ some p
        → length (left_at condition newest_first db valid c) ≤ suc fuel
        → length (drop (pos_part limit) (left_at condition newest_first db valid c)) ≤ fuel
    rest_length c fuel p e h = omega (
      arith,
      h,
      one_shown (rows_at c) p e,
      length-append (rows_at c) (drop (pos_part limit) (left_at condition newest_first db valid c)),
      ap length (take-append-drop (pos_part limit) (left_at condition newest_first db valid c)),
    )

    abbrev Reads : ℕ → Option ℤ → Type 0
    Reads fuel cursor =
        length (left_at condition newest_first db valid (start newest_first cursor)) ≤ fuel
        → walk condition newest_first limit fuel cursor db
          ≡ map (with_reply db)
              (left_at condition newest_first db valid (start newest_first cursor))

    unless_none : (k : ℕ) (next : ℤ) → cursor_unless (suc k) (some next) ≡ some next
    unless_none k next = ground arith

    walked_rest :
        (fuel c : ℕ) (p : Row) (k : ℕ)
        → get_last? (rows_at c) ≡ some p
        → length (drop (pos_part limit) (left_at condition newest_first db valid c)) ≡ k
        → length (left_at condition newest_first db valid c) ≤ suc fuel
        → Reads fuel (some (pos p.seq))
        → walked fuel (cursor_unless k (some (pos p.seq)))
          ≡ map (with_reply db) (drop (pos_part limit) (left_at condition newest_first db valid c))
    walked_rest fuel c p zero e k h ih =
        sym (ap (map (with_reply db)) (nothing_left _ (omega (arith, k))))
    walked_rest fuel c p (suc k') e k h ih =
        let same = left_after condition newest_first db valid (pos_part limit) c p e in
        ap (walked fuel) (unless_none k' (pos p.seq))
        ∙ ih (rw same (rest_length c fuel p e h))
        ∙ ap (map (with_reply db)) same

    walk_rest :
        (fuel : ℕ) (c : ℕ) (o : Option Row)
        → length (left_at condition newest_first db valid c) ≤ suc fuel
        → ((next : Option ℤ) → Reads fuel next)
        → get_last? (rows_at c) ≡ o
        → map (with_reply db) (rows_at c)
            ++ walked fuel
                (cursor_unless (omitted_after condition newest_first db.messages o) (cursor_at o))
          ≡ map (with_reply db) (left_at condition newest_first db valid c)
    walk_rest fuel c none h ih e =
        let none_left =
          none_shown (pos_part limit) (left_at condition newest_first db valid c) some_rows e in
        rw (none_left, take_nothing (pos_part limit)) refl
    walk_rest fuel c (some p) h ih e =
        ap
          (λ k. map (with_reply db) (rows_at c) ++ walked fuel (cursor_unless k (some (pos p.seq))))
          (omitted_rest condition newest_first db valid (pos_part limit) c p e)
        ∙ ap (λ ms. map (with_reply db) (rows_at c) ++ ms)
            (walked_rest fuel c p _ e refl h (ih (some (pos p.seq))))
        ∙ shown_with_rest c

    counted :
        (c : ℕ) (o : Option Row)
        → get_last? (rows_at c) ≡ o
        → length (rows_at c) + omitted_after condition newest_first db.messages o
          ≡ length (left_at condition newest_first db valid c)
    counted c none e =
        let none_left =
          none_shown (pos_part limit) (left_at condition newest_first db valid c) some_rows e in
        rw (none_left, take_nothing (pos_part limit)) (omega arith)
    counted c (some p) e = omega (
      arith,
      omitted_rest condition newest_first db valid (pos_part limit) c p e,
      length-append (rows_at c) (drop (pos_part limit) (left_at condition newest_first db valid c)),
      ap length (take-append-drop (pos_part limit) (left_at condition newest_first db valid c)),
    )

    shown_count :
        (cursor : Option ℤ)
        → length (page_of condition newest_first limit cursor db).messages
          ≡ length (rows_at (start newest_first cursor))
    shown_count cursor = ap length (page_messages cursor) ∙ length-map (with_reply db) _

    page_sum :
        (cursor : Option ℤ)
        → length (page_of condition newest_first limit cursor db).messages
            + (page_of condition newest_first limit cursor db).omitted
          ≡ length (left_at condition newest_first db valid (start newest_first cursor))
    page_sum cursor =
        let c = start newest_first cursor in
        omega (arith, shown_count cursor, page_omitted cursor, counted c _ refl)

    page_short :
        (cursor : Option ℤ)
        → length (page_of condition newest_first limit cursor db).messages ≤ pos_part limit
    page_short cursor = omega (
      arith,
      shown_count cursor,
      length-take (pos_part limit)
          (left_at condition newest_first db valid (start newest_first cursor)),
    )

    -- The rows that are left, in pages: the last one that is shown is where the next page starts.
    walk_left : (fuel : ℕ) (cursor : Option ℤ) → Reads fuel cursor
    unfolding walk
    walk_left zero cursor h = sym (ap (map (with_reply db)) (nothing_left _ h))
    walk_left (suc fuel) cursor h =
        walk_step fuel cursor ∙ walk_rest fuel (start newest_first cursor) _ h (walk_left fuel) refl

in_order-All :
    (P : Row → Type 0) (newest_first : Bool) (ms : List Row)
    → All P ms
    → All P (in_order newest_first ms)
in_order-All P true ms h = All-reverse P ms h
in_order-All P false ms h = h

all_left_at-start :
    (condition : Row → Bool) (newest_first : Bool) (db : Db) (valid : IsValid db)
    → db.last_seq < i64_max
    → left_at condition newest_first db valid (start newest_first none)
      ≡ matches condition newest_first db valid
all_left_at-start condition newest_first db valid room =
    left-select condition newest_first db valid (start newest_first none)
    ∙ select-All (beyond newest_first (start newest_first none))
        (matches condition newest_first db valid)
        (in_order-All _ newest_first (select condition db.messages) (
          All-select _ condition db.messages
            (starts_before newest_first db.messages db.last_seq room valid.ordered)))

select-le : (q : Row → Bool) (ms : List Row) → length (select q ms) ≤ length ms
select-le q [] = omega arith
select-le q (m ∷ ms) = ground (arith, select-le q ms)

matches-le :
    (condition : Row → Bool) (newest_first : Bool) (db : Db) (valid : IsValid db)
    → length (matches condition newest_first db valid) ≤ length db.messages
matches-le condition newest_first db valid = omega (
  arith,
  length-in_order newest_first (select condition db.messages),
  select-le condition db.messages,
)

-- For valid tables with room for another sequence number, a positive limit, and fuel for as many
-- pages as there are messages: a caller who starts at the first page and runs each command for a
-- next page that is written is shown exactly the messages of the condition, each once, in the order
-- of the pages.
pub walk_shows_all :
    (condition : Row → Bool) (newest_first : Bool) (db : Db) (limit : ℤ) (fuel : ℕ)
    → IsValid db
    → db.last_seq < i64_max
    → 0 < pos_part limit
    → length db.messages ≤ fuel
    → walk condition newest_first limit fuel none db
      ≡ map (with_reply db) (in_order newest_first (select condition db.messages))
walk_shows_all condition newest_first db limit fuel valid room some_rows enough =
    let all_left = all_left_at-start condition newest_first db valid room in
    walk_left condition newest_first db valid limit some_rows fuel none
      (rw all_left (omega (arith, enough, matches-le condition newest_first db valid)))
    ∙ ap (map (with_reply db)) all_left

-- A page of valid tables, for any condition, order and cursor and a positive limit, shows at most
-- as many messages as the limit says, and what it shows and what it omits are together the rows
-- that the condition selects beyond the cursor.
pub page_counts :
    (condition : Row → Bool) (newest_first : Bool) (db : Db) (limit : ℤ) (cursor : Option ℤ)
    → IsValid db
    → 0 < pos_part limit
    → (length (page_of condition newest_first limit cursor db).messages ≤ pos_part limit)
      × (length (page_of condition newest_first limit cursor db).messages
            + (page_of condition newest_first limit cursor db).omitted
          ≡ count
              (λ m. condition m && beyond newest_first (start newest_first cursor) m)
              db.messages)
page_counts condition newest_first db limit cursor valid some_rows = (
  page_short condition newest_first db valid limit some_rows cursor,
  page_sum condition newest_first db valid limit some_rows cursor
      ∙ length-in_order newest_first _
      ∙ sym (count-eq-length-select _ db.messages),
)
