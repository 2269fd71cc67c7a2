-- ===== src/Catalog/Binding/Scope.antt =====
-- What the commands of an endpoint may reach (src/catalog/binding.rs).
use harness_talk.Prelude.{
  ℕ, ℤ, ◌≡◌, refl, sym, String, String_eq, Bool, true, false, not, Option, List, ◌==◌, arith, All,
  inl, inr, ◌||◌, eq_iff, some, if◌then◌else◌, Bool-cases,
}
use mathlib.Core.Path.{subst}
use harness_talk.Error.{Result, ok, err, code, map_err, refuse_if}
use harness_talk.Error.Steps.{both, ok_step, ok_same}
use harness_talk.Model.{Row, Message, Page, from_row}
use harness_talk.Validate
use harness_talk.Db.{Db, with_reply, peer_on, load_row, find_message, stranger, ok_or}
use harness_talk.Db.Page.{is_sent, in_inbox}
use harness_talk.Catalog.Mailbox
use harness_talk.Catalog.Mailbox.{between}
use harness_talk.Catalog.Binding.{
  Binding, Command, send, on_message, check_peer, list_peers, inbox, sent, other_peer, migrate,
  watch, Scoped, may_run, shown, listed, paged, command_scope, conversation, allowed, other_end,
  answer_message, page, profile_names, OnMessage, parsed, parsed_cursor,
}
use harness_talk.Catalog.Binding.Between.{IsPublished, WithPublished, IsBetween-of, page_fit}

-- The answer is a page of messages between the sender and profiles.
abbrev pub IsPublishedPage : Binding → Scoped → Type 0
IsPublishedPage b r =
    (p : Page) × (next : Option ℤ) × (r ≡ paged p next) × All (WithPublished b) p.messages

-- What is let through, and what is answered in the place of the command.
abbrev pub Confined :
    (List ℕ → Option String) → (String → Option ℤ) → Binding → Result Db → Command → Scoped → Type 0
Confined parse_str parse_i64 b opened (send recipient) r = IsPublished b recipient × (r ≡ may_run)
Confined parse_str parse_i64 b opened (check_peer name) r = IsPublished b name × (r ≡ may_run)
Confined parse_str parse_i64 b opened (on_message OnMessage.show id) r =
    (m : Message) × (conversation parse_str parse_i64 b opened id ≡ ok m)
    × WithPublished b m
    × (r ≡ shown m)
Confined parse_str parse_i64 b opened (on_message kind id) r =
    (m : Message) × (conversation parse_str parse_i64 b opened id ≡ ok m)
    × WithPublished b m
    × (r ≡ may_run)
Confined parse_str parse_i64 b opened list_peers r = r ≡ listed b.profiles
Confined parse_str parse_i64 b opened (inbox limit after_seq) r = IsPublishedPage b r
Confined parse_str parse_i64 b opened (sent limit before_seq bodies) r = IsPublishedPage b r
Confined parse_str parse_i64 b opened other_peer r = r ≡ may_run
Confined parse_str parse_i64 b opened migrate r = r ≡ may_run
Confined parse_str parse_i64 b opened watch r = r ≡ may_run

not_refused : (b : Bool) (c : String) → refuse_if (not b) c ≡ ok tt → b ≡ true
not_refused true c h = refl
not_refused false c h = absurd (ground arith)

abbrev HasEnd : String → Row → Type 0
HasEnd actor m = (m.sender == actor || m.recipient == actor) ≡ true

end_of :
    (actor : String) (m : Row) (c : String)
    → refuse_if (stranger (some actor) m) c ≡ ok tt
    → HasEnd actor m
end_of actor m c h = elim (Bool-cases (stranger (some actor) m)) [
  | inl e ↦ absurd (ground arith)
  | inr e ↦ ground (
    arith,
    eq_iff actor m.sender,
    eq_iff m.sender actor,
    eq_iff actor m.recipient,
    eq_iff m.recipient actor,
  )
]

without_err :
    {A : Type 0} (r : Result A) (a : A)
    → map_err (λ _. code "catalog_conversation_unavailable") r ≡ ok a
    → r ≡ ok a
without_err (ok x) a h = ground arith
without_err (err e) a h = absurd (ground arith)

module _ (parse_str : List ℕ → Option String) (parse_i64 : String → Option ℤ) (b : Binding)
    (opened : Result Db) where
  own_page :
      (sent_page : Bool) (db : Db) (m : Row)
      → (if sent_page then is_sent b.sender db m else in_inbox b.sender db m) ≡ true
      → (m.sender == b.sender || m.recipient == b.sender) ≡ true
  unfolding is_sent in_inbox
  own_page true db m h = ground arith
  own_page false db m h = ground arith

  mailbox_page-All :
      (sent_page : Bool) (limit : ℤ) (cursor : Option ℤ) (p : Page)
      → Mailbox.page opened b.sender (profile_names b) sent_page limit cursor ≡ ok p
      → All (WithPublished b) p.messages
  unfolding Mailbox.page
  mailbox_page-All sent_page limit cursor p h =
      let (_, h) = both (Validate.page limit cursor) _ p h in
      let (db, _, h) = ok_step opened _ p h in
      let (_, _, h) = ok_step (peer_on b.sender db) _ p h in
      rw (sym (ok_same h)) (page_fit b _ (own_page sent_page db) sent_page limit cursor db)

  page-IsPublishedPage :
      (sent_page : Bool) (limit : String) (cursor : Option String) (r : Scoped)
      → page parse_str parse_i64 b opened sent_page limit cursor ≡ ok r
      → IsPublishedPage b r
  unfolding page
  page-IsPublishedPage sent_page limit cursor r h =
      let (limit, _, h) = ok_step (parsed (parse_i64 limit) _) _ r h in
      let (cursor, _, h) = ok_step (parsed_cursor parse_i64 cursor) _ r h in
      let (p, e, h) =
        ok_step (Mailbox.page opened b.sender (profile_names b) sent_page limit cursor) _ r h in
      (p, _, sym (ok_same h), mailbox_page-All sent_page limit cursor p e)

  message_own :
      (id : String) (m : Message)
      → Mailbox.message parse_str opened id b.sender ≡ ok m
      → (m.row.sender == b.sender || m.row.recipient == b.sender) ≡ true
  unfolding Mailbox.message load_row with_reply from_row
  message_own id m h =
      let (db, _, h) = ok_step opened _ m h in
      let (canonical, _, h) = ok_step (Validate.uuid parse_str id) _ m h in
      let (row, e, h) = ok_step (load_row canonical (some b.sender) db) _ m h in
      let (found, _, e) = ok_step (ok_or (find_message canonical db) _) _ row e in
      let (t, e) = both (refuse_if (stranger (some b.sender) found) _) _ row e in
      subst (λ x. HasEnd b.sender x.row) (ok_same h)
        (subst (HasEnd b.sender) (ok_same e) (end_of b.sender found _ t))

  conversation-IsBetween :
      (id : String) (m : Message)
      → conversation parse_str parse_i64 b opened id ≡ ok m
      → IsPublished b (other_end b.sender m.row)
      → WithPublished b m
  conversation-IsBetween id m h o =
      IsBetween-of b m.row
        (message_own id m (without_err (Mailbox.message parse_str opened id b.sender) m h)) o

  conversation_let :
      (id : String) (kind : OnMessage) (r : Scoped)
      → command_scope parse_str parse_i64 b opened (on_message kind id) ≡ ok r
      → (m : Message) × (conversation parse_str parse_i64 b opened id ≡ ok m)
        × WithPublished b m
        × (r ≡ answer_message kind m)
  unfolding command_scope
  conversation_let id kind r h =
      let (m, e, h) = ok_step (conversation parse_str parse_i64 b opened id) _ r h in
      let (f, h) = both (refuse_if (not (allowed b (other_end b.sender m.row))) _) _ r h in
      let published = not_refused (allowed b (other_end b.sender m.row)) _ f in
      (m, e, conversation-IsBetween id m e published, sym (ok_same h))

  -- A command to send or to check a peer is let through only for the name of a profile, and one on
  -- a message only where the message is between the sender of the binding and a profile; show,
  -- inbox and sent are answered with such messages only, and list with the profiles of the binding.
  -- The other peer commands, migrate and watch are let through unasked.
  pub command_scope_confines :
      (command : Command) (r : Scoped)
      → command_scope parse_str parse_i64 b opened command ≡ ok r
      → Confined parse_str parse_i64 b opened command r
  unfolding command_scope
  command_scope_confines (send recipient) r h =
      let (e, h) = both (refuse_if (not (allowed b recipient)) _) _ r h in
      (not_refused _ _ e, sym (ok_same h))
  command_scope_confines (on_message OnMessage.show id) r h = conversation_let id OnMessage.show r h
  command_scope_confines (on_message OnMessage.ack id) r h = conversation_let id OnMessage.ack r h
  command_scope_confines (on_message OnMessage.reply id) r h =
      conversation_let id OnMessage.reply r h
  command_scope_confines (on_message OnMessage.wait id) r h = conversation_let id OnMessage.wait r h
  command_scope_confines (check_peer name) r h =
      let (e, h) = both (refuse_if (not (allowed b name)) _) _ r h in
      (not_refused _ _ e, sym (ok_same h))
  command_scope_confines list_peers r h = sym (ok_same h)
  command_scope_confines (inbox limit after_seq) r h =
      page-IsPublishedPage false limit after_seq r h
  command_scope_confines (sent limit before_seq bodies) r h =
      page-IsPublishedPage true limit before_seq r h
  command_scope_confines other_peer r h = sym (ok_same h)
  command_scope_confines migrate r h = sym (ok_same h)
  command_scope_confines watch r h = sym (ok_same h)
