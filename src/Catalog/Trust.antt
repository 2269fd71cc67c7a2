-- ===== src/Catalog/Trust.antt =====
-- src/catalog/trust.rs: what a known device is pinned to, and the directory that it may answer.
use harness_talk.Prelude.{
  ℕ, String, String_eq, Nat_eq, Bool, not, ◌&&◌, ◌||◌, Option, List, [], ◌∷◌, ◌==◌, ltb, leb,
  length, any, nat_eq, all,
}
use harness_talk.Prelude.Text.{codes, byte_len, is_lowercase, is_digit}
use harness_talk.Error.{Checked, ok, refuse_if, ◌>>◌}
use harness_talk.Validate.{peer_name}
use harness_talk.Catalog.{uuid, text}
use harness_talk.Catalog.Profile.{Profile, Directory}

pub record TrustedDevice : Type 0 where
  pub device_id : String
  pub mailbox_id : String
  pub generation : String
  pub sender : String
  pub ssh_user : String
  pub ssh_port : ℕ
  pub identity_file : String
  pub known_hosts_file : String
  pub tailscale_peer_id : Option String
  pub ssh_address : Option String

unfoldable pub id_char : ℕ → Bool
unfolding is_lowercase is_digit
id_char c =
    is_lowercase c || (leb b'A' c && leb c b'Z') || is_digit c || nat_eq c b'_' || nat_eq c b'-'

-- `peer_id`: of Tailscale.
unfoldable pub peer_id : String → Bool
unfolding byte_len id_char
peer_id id = leb 1 (byte_len (codes id)) && leb (byte_len (codes id)) 128 && all id_char (codes id)

-- One turn of the loop in `accept`.
unfoldable pub accept_profile : (List ℕ → Option String) → List String → Profile → Checked
accept_profile parse_str seen p = do
  uuid parse_str p.profile_id
  uuid parse_str p.binding_id
  peer_name p.peer_name
  text p.display_name 128
  text p.role 1024
  peer_name p.harness
  refuse_if
      (any (λ id. id == p.profile_id) seen
        || not (any (λ w. w == p.delivery) ("native" ∷ "pull" ∷ []))
        || not (any (λ w. w == p.binding_state) ("current" ∷ "retired" ∷ "changed" ∷ []))
        || not (p.runtime_status == "unknown"))
      "catalog_invalid_profile"

unfoldable pub accept_all : (List ℕ → Option String) → List String → List Profile → Checked
unfolding accept_profile
accept_all parse_str seen [] = ok tt
accept_all parse_str seen (p ∷ ps) =
    accept_profile parse_str seen p >> accept_all parse_str (p.profile_id ∷ seen) ps

abbrev pub mismatches : TrustedDevice → Directory → Bool
mismatches d directory =
    not (directory.schema_version == 1)
    || not (directory.device_id == d.device_id)
    || not (directory.mailbox_id == d.mailbox_id)
    || not (directory.generation == d.generation)
    || not (directory.sender == d.sender)
    || ltb 64 (length directory.profiles)

-- `accept`: a device is held to what the trust file says of it.
unfoldable pub accept : (List ℕ → Option String) → TrustedDevice → Directory → Checked
unfolding accept_all
accept parse_str d directory = do
  refuse_if (mismatches d directory) "catalog_endpoint_binding_mismatch"
  text directory.device_name 128
  accept_all parse_str [] directory.profiles
