-- ===== src/Store/Listing.antt =====
-- `Store::page`, `inbox` and `sent` of src/store.rs.
use harness_talk.Prelude.{String, Bool, true, false, Option, ℤ}
use harness_talk.Error.{ok}
use harness_talk.Model.{Row, Page}
use harness_talk.Validate
use harness_talk.Db.{Db}
use harness_talk.Db.Page.{in_inbox, is_sent, page_of}
use harness_talk.Proc.{Proc, read, lift, ◌>>◌}
use harness_talk.Store.{peer}

unfoldable pub page : (String → Db → Row → Bool) → Bool → String → ℤ → Option ℤ → Proc Page
page condition newest_first actor limit cursor = do
  lift (Validate.page limit cursor)
  peer actor
  read (λ d. ok (page_of (condition actor d) newest_first limit cursor d))

unfoldable pub inbox : String → ℤ → Option ℤ → Proc Page
unfolding page
inbox actor limit after_seq = page in_inbox false actor limit after_seq

-- With the bodies; `summarize` shortens what is printed.
unfoldable pub sent : String → ℤ → Option ℤ → Proc Page
unfolding page
sent actor limit before_seq = page is_sent true actor limit before_seq
