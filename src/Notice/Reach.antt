-- ===== src/Notice/Reach.antt =====
-- Which peers a notice can reach, and which client it calls.
use harness_talk.Prelude.{
  String, String_eq, true, ◌≡◌, ◌↔◌, refl, ap, ◌∙◌, none, some, arith, eq_iff, Option-cases, inl,
  inr,
}
use harness_talk.Error.{ok}
use harness_talk.Model.{Peer, native, is_native, NativePeer}
use harness_talk.Db.{PeerRow, Db, joined}
use harness_talk.Db.Peers.{fits_delivery}
use harness_talk.Harness.{Harness, codex, claude, opencode, from_str, as_str, Address}
use harness_talk.Notice.{native_address}

from_str-as_str : (h : Harness) → from_str (as_str h) ≡ ok h
unfolding from_str as_str
from_str-as_str codex = refl
from_str-as_str claude = refl
from_str-as_str opencode = refl

as_str-from_str : (s : String) (h : Harness) → from_str s ≡ ok h → s ≡ as_str h
unfolding from_str as_str
as_str-from_str s h e = ground (arith, eq_iff "claude" s, eq_iff "codex" s, eq_iff "opencode" s)

-- A text is read as a harness exactly where it is the name of the harness.
pub harness_words : (s : String) (h : Harness) → (from_str s ≡ ok h) ↔ (s ≡ as_str h)
harness_words s h = (as_str-from_str s h, λ e. ap from_str e ∙ from_str-as_str h)

abbrev address_of : Peer → String → String → NativePeer
address_of p session_id workspace = record {
  name = p.name;
  session_id = session_id;
  workspace = workspace;
  socket = p.socket;
  url = p.url;
  retired_at = p.retired_at;
}

native_address-native :
    (p : Peer) (h : Harness) (session_id workspace : String)
    → p.delivery ≡ native
    → from_str p.harness ≡ ok h
    → p.session_id ≡ some session_id
    → p.workspace ≡ some workspace
    → native_address p ≡ ok (h, address_of p session_id workspace)
unfolding native_address is_native
native_address-native p h session_id workspace n e s w = rw (n, e, s, w) refl

fits_native :
    (p : PeerRow)
    → fits_delivery p ≡ true
    → p.delivery ≡ native
    → ((s : String) × (p.session_id ≡ some s)) × ((w : String) × (p.workspace ≡ some w))
unfolding fits_delivery is_native
fits_native p fits n = elim (Option-cases p.session_id) [
  | inl e ↦ absurd (ground arith)
  | inr s ↦ elim (Option-cases p.workspace) [ inl e ↦ absurd (ground arith) | inr w ↦ (s, w) ]
]

-- A native row that passes the check of peers, of a harness that is known, has an address for the
-- adapter of that harness: its name, its session and its workspace.
pub native_address_found :
    (d : Db) (p : PeerRow) (h : Harness)
    → fits_delivery p ≡ true
    → p.delivery ≡ native
    → from_str p.harness ≡ ok h
    → (a : NativePeer) × (native_address (joined d p) ≡ ok (h, a))
      × (a.name ≡ p.name)
      × (p.session_id ≡ some a.session_id)
      × (p.workspace ≡ some a.workspace)
unfolding joined
native_address_found d p h fits n e =
    let ((s, es), (w, ew)) = fits_native p fits n in
    (address_of (joined d p) s w, native_address-native (joined d p) h s w n e es ew, refl, es, ew)

-- The address as its adapter checked it, under the name.
abbrev pub as_given : String → Address → NativePeer
as_given name a = record {
  name = name;
  session_id = a.session_id;
  workspace = a.workspace;
  socket = a.socket;
  url = a.url;
  retired_at = none;
}

-- The peer that `native_peer` makes of an address.
abbrev peer_of : String → Harness → Address → Peer
peer_of name h a = record {
  name = name;
  harness = as_str h;
  session_id = some a.session_id;
  workspace = some a.workspace;
  socket = a.socket;
  url = a.url;
  retired_at = none;
  delivery = native;
}
