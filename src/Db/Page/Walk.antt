-- ===== src/Db/Page/Walk.antt =====
-- How a caller goes from page to page: `guidance::next_page` of src/guidance.rs, whose command asks
-- for the page beyond the last row that was shown.
use harness_talk.Prelude.{
  ℕ, zero, suc, Bool, Option, none, some, List, [], ◌++◌, ℤ, pos, get_last?, nat_eq, if◌then◌else◌,
}
use harness_talk.Model.{Row, Message, Page}
use harness_talk.Db.{Db}
use harness_talk.Db.Page.{page_of}

abbrev pub cursor_of : Option Message → Option ℤ
cursor_of none = none
cursor_of (some m) = some (pos m.row.seq)

-- The cursor of the command that `next_page` writes, where it writes one.
unfoldable pub next_page : Page → Option ℤ
next_page page = if nat_eq page.omitted 0 then none else cursor_of (get_last? page.messages)

-- The messages of the pages that a caller reads who runs each command that it is given, on tables
-- that nobody changes. `fuel` bounds the pages.
unfoldable pub walk : (Row → Bool) → Bool → ℤ → ℕ → Option ℤ → Db → List Message
unfolding next_page
walk condition newest_first limit zero cursor db = []
walk condition newest_first limit (suc fuel) cursor db =
    let page = page_of condition newest_first limit cursor db in
    page.messages ++ elim (next_page page) [
      | none ↦ []
      | some next ↦ walk condition newest_first limit fuel (some next) db
    ]
