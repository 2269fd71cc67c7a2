-- ===== src/Catalog/Browse.antt =====
-- `browse` of src/catalog/discover/mdns.rs: the devices that advertise themselves on a network.
--
-- The events are what the mdns-sd crate gives before the time is over; an address is an IPv4 address
-- of the searched interface, as a number. `fetch` is the check of the link and the fetch of a
-- directory over it, within the time that is left. An interrupt, which ends the search with an
-- error, is left out, as are the words around the devices in the answer and the link in a `Found`.
pub mod Trusted
use Prim.Native.Nat.{Ordering}
use Prim.Native.String.{compare}
use harness_talk.Prelude.{
  ℕ, suc, ◌+◌, ◌/◌, ◌<◌, String, String_eq, Bool, true, false, not, ◌&&◌, ◌||◌, Option, none, some,
  List, [], ◌∷◌, ◌++◌, ◌==◌, ltb, leb, nat_eq, any, find?, select, length, min, if◌then◌else◌,
}
use harness_talk.Error.{Error, Result, Checked, ok, err, code, fixed_code, ◌>>=◌, ◌>>◌}
use harness_talk.Db.{is_some, ok_or}
use harness_talk.Catalog.{uuid}
use harness_talk.Catalog.Profile.{Directory}
use harness_talk.Catalog.Trust.{TrustedDevice, accept}

pub record Service : Type 0 where
  pub fullname : String
  pub device : Option String
  pub version : Option String
  pub port : ℕ
  pub addresses : List ℕ

pub data Event : Type 0 where
  resolved : Service → Event
  removed : String → Event
  other_event : Event
  disconnected : Event

-- `BTreeMap::insert`, in the order of the names.
abbrev pub insert : Service → List Service → List Service
insert s [] = s ∷ []
insert s (t ∷ ts) =
    let rest = insert s ts in
    elim (compare s.fullname t.fullname) [
      | Ordering.lt ↦ s ∷ t ∷ ts
      | Ordering.eq ↦ s ∷ ts
      | Ordering.gt ↦ t ∷ rest
    ]

abbrev pub contains : String → List Service → Bool
contains name services = any (λ s. s.fullname == name) services

pub record Heard : Type 0 where
  pub services : List Service
  pub truncated : Bool
  pub lost : Bool

abbrev pub resolve : Service → Heard → Heard
resolve s h =
    if ltb (length h.services) 64 || contains s.fullname h.services
    then record { services = insert s h.services; truncated = h.truncated; lost = h.lost }
    else record { services = h.services; truncated = true; lost = h.lost }

-- The loop over the events.
unfoldable pub listen : List Event → Heard → Heard
listen [] h = h
listen (resolved s ∷ events) h = listen events (resolve s h)
listen (removed name ∷ events) h = listen events (record {
  services = select (λ s. not (s.fullname == name)) h.services;
  truncated = h.truncated;
  lost = h.lost;
})
listen (other_event ∷ events) h = listen events h
listen (disconnected ∷ events) h = record {
  services = h.services;
  truncated = h.truncated;
  lost = true;
}

pub data DirectoryState : Type 0 where
  not_checked : DirectoryState
  unavailable : String → DirectoryState
  reachable : Directory → DirectoryState

pub record Device : Type 0 where
  pub device_id : String
  pub known : Bool
  pub state : DirectoryState

pub record Found : Type 0 where
  pub directory : Directory
  pub device : TrustedDevice

pub record Listing : Type 0 where
  pub devices : List Device
  pub found : List Found
  pub seen : List String
  pub rejected : ℕ

-- Neither unspecified, nor multicast, nor loopback.
unfoldable pub is_usable : ℕ → Bool
is_usable ip =
    not (nat_eq ip 0)
    && not (leb 224 (ip / 0x100_0000) && leb (ip / 0x100_0000) 239)
    && not (nat_eq (ip / 0x100_0000) 127)

-- The first address once they are sorted.
unfoldable pub first_address : List ℕ → Option ℕ
unfolding is_usable
first_address [] = none
first_address (ip ∷ ips) =
    let rest = first_address ips in
    if is_usable ip then elim rest [ none ↦ some ip | some other ↦ some (min ip other) ] else rest

abbrev pub has_version : Option String → Bool
has_version none = false
has_version (some v) = v == "1"

abbrev pub is_err : Checked → Bool
is_err (ok _) = false
is_err (err e) = true

abbrev pub rejecting : Listing → Listing
rejecting l = record {
  devices = l.devices;
  found = l.found;
  seen = l.seen;
  rejected = suc l.rejected;
}

abbrev showing : String → Bool → DirectoryState → Listing → Listing
showing id known state l = record {
  devices = l.devices ++ record { device_id = id; known = known; state = state } ∷ [];
  found = l.found;
  seen = l.seen;
  rejected = l.rejected;
}

abbrev noting : String → Listing → Listing
noting id l = record {
  devices = l.devices;
  found = l.found;
  seen = id ∷ l.seen;
  rejected = l.rejected;
}

abbrev finding : Found → Listing → Listing
finding f l = record {
  devices = l.devices;
  found = l.found ++ f ∷ [];
  seen = l.seen;
  rejected = l.rejected;
}

abbrev pub nothing_heard : Heard
nothing_heard = record { services = []; truncated = false; lost = false }

abbrev pub nothing_listed : Listing
nothing_listed = record { devices = []; found = []; seen = []; rejected = 0 }

module _ (parse_str : List ℕ → Option String) (fetch : TrustedDevice → ℕ → Result Directory) where
  -- The directory of a known device, once it is accepted.
  unfoldable pub reached : TrustedDevice → Service → Result Directory
  unfolding first_address
  reached device s = do
    ip ← ok_or (first_address s.addresses) "catalog_ipv4_unavailable"
    directory ← fetch device ip
    accept parse_str device directory
    ok directory

  unfoldable pub list_reached : String → TrustedDevice → Result Directory → Listing → Listing
  list_reached id device (ok directory) l =
      finding (record { directory = directory; device = device })
        (showing id true (reachable directory) (noting id l))
  list_reached id device (err e) l = showing id true (unavailable (fixed_code e)) l

  unfoldable pub list_known : String → TrustedDevice → Service → Listing → Listing
  unfolding list_reached reached
  list_known id device s l =
      if not (nat_eq s.port device.ssh_port)
      then showing id true (unavailable "catalog_ssh_port_mismatch") l
      else list_reached id device (reached device s) l

  unfoldable pub list_device : String → Option TrustedDevice → Service → Listing → Listing
  unfolding list_known
  list_device id none s l = showing id false not_checked (noting id l)
  list_device id (some device) s l = list_known id device s l

  unfoldable pub list_named : List TrustedDevice → Option String → Service → Listing → Listing
  unfolding list_device
  list_named trusted none s l = rejecting l
  list_named trusted (some id) s l =
      if is_err (uuid parse_str id) || not (has_version s.version) || nat_eq s.port 0
      then rejecting l
      else if any (λ i. i == id) l.seen
      then l
      else list_device id (find? (λ d. d.device_id == id) trusted) s l

  -- The loop over the services.
  unfoldable pub list_services : List TrustedDevice → List Service → Listing → Listing
  unfolding list_named
  list_services trusted [] l = l
  list_services trusted (s ∷ services) l =
      list_services trusted services (list_named trusted s.device s l)

  -- `browse`, where `daemon_failed` says that the search itself reported an error.
  unfoldable pub browse : List TrustedDevice → Bool → List Event → Result Listing
  unfolding listen list_services
  browse trusted daemon_failed events =
      let heard = listen events nothing_heard in
      if heard.lost || daemon_failed
      then err (code "catalog_mdns_unavailable")
      else ok (list_services trusted heard.services nothing_listed)
