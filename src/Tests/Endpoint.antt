-- ===== src/Tests/Endpoint.antt =====
-- The binding of a mailbox that publishes one peer, and the commands that it lets through.
use harness_talk.Prelude.{
  ◌≡◌, refl, ℤ, pos, String, String_eq, true, false, Option, none, some, [], ◌∷◌,
}
use harness_talk.Prelude.Text.{
  remove, remove_from, starts_with, trim, trim_start, byte_len, utf8_width, is_lowercase, is_digit,
}
use harness_talk.Error.{ok}
use harness_talk.Validate
use harness_talk.Validate.{peer_name, bad_name, name_start, name_char}
use harness_talk.Db.{joined, find_peer, find_retired, peer_on}
use harness_talk.Db.Page.{page_of, page_rows}
use harness_talk.Db.Page.Walk.{next_page}
use harness_talk.Catalog.{uuid, text, is_control}
use harness_talk.Catalog.Mailbox
use harness_talk.Catalog.Mailbox.{peers, peers_on}
use harness_talk.Catalog.Profile.{
  export_all, load, directory, directory_of, current, same_stamp, same_peer, check_all_published,
  check_published,
}
use harness_talk.Catalog.Binding.{
  Binding, validate, matches, local_binding, binding_of, command_scope, sent, paged, Scoped, page,
}
use harness_talk.Catalog.Binding.Scope.{command_scope_confines, Confined}
use harness_talk.Catalog.Binding.Local.{local_binding-matches}
use harness_talk.Tests.Tables.{two_peers, asked, question}
use harness_talk.Model.{Row, from_row}
use harness_talk.Db.{find_message, find_reply, with_reply}
use harness_talk.Db.Save.{save_txn, saved_answer, saved_message, save_new, insert_message, new_row}
use harness_talk.Db.Page.{is_sent}
use harness_talk.Tests.Catalog.{parse_str, is_absolute, stamp, catalog, bob}

abbrev bound : Binding
bound = binding_of (directory_of catalog (bob ∷ []))

is_bound :
    local_binding parse_str is_absolute stamp (ok two_peers) catalog catalog "/work/mail.db" "alice"
    ≡ ok bound
unfolding local_binding directory load uuid Validate.uuid remove remove_from starts_with trim
    trim_start text is_control byte_len utf8_width same_stamp peer_name bad_name name_start
    name_char is_lowercase is_digit check_all_published check_published current peers peers_on
    peer_on find_peer joined find_retired same_peer
is_bound = refl

local_binding-matches_example :
    (validate parse_str bound ≡ ok tt) × (matches parse_str bound (some bound) ≡ true)
local_binding-matches_example =
    local_binding-matches parse_str is_absolute stamp (ok two_peers) catalog catalog "/work/mail.db"
      "alice" bound is_bound

abbrev number : String → Option ℤ
number s = some (pos 5)

abbrev sent_row : Row
sent_row = new_row question 1 5

abbrev sent_page : Scoped
sent_page =
    paged (record { messages = with_reply asked sent_row ∷ []; total = 1; omitted = 0 }) none

sent_let_through :
    command_scope parse_str number bound (ok asked) (sent "5" none false) ≡ ok sent_page
unfolding command_scope page Mailbox.page Validate.page next_page page_of page_rows peer_on
    find_peer find_retired joined is_sent save_txn saved_answer saved_message save_new
    insert_message find_message with_reply find_reply from_row export_all
sent_let_through = refl

command_scope_confines_example :
    Confined parse_str number bound (ok asked) (sent "5" none false) sent_page
command_scope_confines_example =
    command_scope_confines parse_str number bound (ok asked) (sent "5" none false) sent_page
      sent_let_through
