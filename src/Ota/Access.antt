-- ===== src/Ota/Access.antt =====
-- matter-prototype/controller-node/main/led_orchestra_ota_provider.cpp: the access-control entry that lets a node
-- call the OTA provider. The access control of the SDK is a parameter, with what it documents as laws.
pub mod Entry
pub mod Grants
use led_orchestra.Base.{
  ℕ, zero, suc, ◌<◌, ◌≡◌, Bool, true, false, not, ◌&&◌, ◌||◌, Option, none, some, List, ◌==◌,
  if◌then◌else◌,
}
use led_orchestra.Platform.{EspErr, esp_ok, esp_fail, esp_err_invalid_state, esp_err_no_mem}

-- `chip::Access::AuthMode` and `chip::Access::Privilege`.
pub data AuthMode : Type 0 where
  no_auth pase_mode case_mode group_mode : AuthMode

pub data Privilege : Type 0 where
  view proxy_view operate manage administer : Privilege

-- `AccessControl::Entry::Target`, its flags apart.
pub record Target : Type 0 where
  pub has_device_type : Bool
  pub has_endpoint : Bool
  pub has_cluster : Bool
  pub cluster : ℕ
  pub endpoint : ℕ

-- What the getters of an `AccessControl::Entry` answer; an error is `none`.
pub record AclEntry : Type 0 where
  pub auth_mode : Option AuthMode
  pub privilege : Option Privilege
  pub subject_count : Option ℕ
  pub subject : ℕ → Option ℕ
  pub target_count : Option ℕ
  pub target : ℕ → Option Target

-- What the setters put into a new entry.
pub record Grant : Type 0 where
  pub auth_mode : AuthMode
  pub fabric_index : ℕ
  pub privilege : Privilege
  pub subject : ℕ
  pub target : Target

pub data ChipError : Type 0 where
  no_error buffer_too_small other_failure : ChipError

-- `chip::Access::AccessControl`.
pub record AccessControl : Type 1 where
  pub Entries : Type 0
  pub entry_count : Entries → ℕ → Option ℕ
  pub read_entry : Entries → ℕ → ℕ → Option AclEntry
  pub add_entry : Entries → ℕ → Grant → ChipError × Entries

abbrev only : {A : Type 0} → A → ℕ → Option A
only a zero = some a
only a (suc i) = none

-- How an entry reads that was filled so.
abbrev pub entry_of : Grant → AclEntry
entry_of g = record {
  auth_mode = some g.auth_mode;
  privilege = some g.privilege;
  subject_count = some 1;
  subject = only g.subject;
  target_count = some 1;
  target = only g.target;
}

-- An entry that was created can be read back.
pub record AccessLaws (acl : AccessControl) : Type 0 where
  pub created :
      (before after : acl.Entries) (fabric : ℕ) (g : Grant)
      → acl.add_entry before fabric g ≡ (no_error, after)
      → (count : ℕ) × (index : ℕ) × (acl.entry_count after fabric ≡ some count)
        × (index < count)
        × (acl.read_entry after fabric index ≡ some (entry_of g))

unfoldable pub privilege_allows_operate : Privilege → Bool
privilege_allows_operate view = false
privilege_allows_operate proxy_view = false
privilege_allows_operate operate = true
privilege_allows_operate manage = true
privilege_allows_operate administer = true

-- The endpoint is `g_provider_endpoint_id`, the cluster `OtaSoftwareUpdateProvider::Id`.
unfoldable pub target_matches_ota_provider : ℕ → ℕ → Target → Bool
target_matches_ota_provider endpoint cluster t =
    if t.has_device_type
    then false
    else (not t.has_endpoint || (t.endpoint == endpoint))
      && (not t.has_cluster || (t.cluster == cluster))

-- A loop over so many indices from `index` on, which ends at the first that passes the test.
unfoldable pub any_from : ℕ → ℕ → (ℕ → Bool) → Bool
any_from index zero test = false
any_from index (suc n) test = test index || any_from (suc index) n test

abbrev pub is_node : ℕ → Option ℕ → Bool
is_node node none = false
is_node node (some subject) = subject == node

abbrev pub is_case : Option AuthMode → Bool
is_case (some case_mode) = true
is_case (some no_auth) = false
is_case (some pase_mode) = false
is_case (some group_mode) = false
is_case none = false

abbrev pub may_operate : Option Privilege → Bool
may_operate none = false
may_operate (some p) = privilege_allows_operate p

abbrev pub has_subject : ℕ → AclEntry → Option ℕ → Bool
has_subject node e none = false
has_subject node e (some count) = any_from 0 count (λ i. is_node node (e.subject i))

abbrev pub matches_target : ℕ → ℕ → Option Target → Bool
matches_target endpoint cluster none = false
matches_target endpoint cluster (some t) = target_matches_ota_provider endpoint cluster t

abbrev pub has_target : ℕ → ℕ → AclEntry → Option ℕ → Bool
has_target endpoint cluster e none = false
has_target endpoint cluster e (some count) =
    if count == 0
    then true
    else any_from 0 count (λ i. matches_target endpoint cluster (e.target i))

unfoldable pub ota_acl_entry_allows_node : ℕ → ℕ → AclEntry → ℕ → Bool
ota_acl_entry_allows_node endpoint cluster e node =
    if not (is_case e.auth_mode) || not (may_operate e.privilege)
    then false
    else if not (has_subject node e e.subject_count)
    then false
    else has_target endpoint cluster e e.target_count

abbrev pub fallback_fabric_index : ℕ
fallback_fabric_index = 1

-- `configured` is what the controller answers, `undefined` is `kUndefinedFabricIndex`.
unfoldable pub current_fabric_index : ℕ → ℕ → ℕ
current_fabric_index undefined configured =
    if not (configured == undefined) then configured else fallback_fabric_index

abbrev pub unset_endpoint : ℕ
unset_endpoint = 0xFFFF

unfoldable pub node_grant : ℕ → ℕ → ℕ → ℕ → Grant
node_grant endpoint cluster fabric node = record {
  auth_mode = case_mode;
  fabric_index = fabric;
  privilege = operate;
  subject = node;
  target = record {
    has_device_type = false;
    has_endpoint = true;
    has_cluster = true;
    cluster = cluster;
    endpoint = endpoint;
  };
}

abbrev pub grant_error : ChipError → EspErr
grant_error no_error = esp_ok
grant_error buffer_too_small = esp_err_no_mem
grant_error other_failure = esp_fail

module _ (acl : AccessControl) where
  abbrev pub allows_at : ℕ → ℕ → ℕ → Option AclEntry → Bool
  allows_at endpoint cluster node none = false
  allows_at endpoint cluster node (some e) = ota_acl_entry_allows_node endpoint cluster e node

  -- The loop over the entries of the fabric.
  unfoldable pub already_allowed : ℕ → ℕ → ℕ → ℕ → ℕ → acl.Entries → Bool
  already_allowed endpoint cluster fabric node count entries =
      any_from 0 count (λ i. allows_at endpoint cluster node (acl.read_entry entries fabric i))

  abbrev pub after_create : ChipError × acl.Entries → EspErr × acl.Entries
  after_create (err, entries) = (grant_error err, entries)

  -- `filled` is the first error of the setters.
  abbrev pub add_grant : ChipError → ℕ → Grant → acl.Entries → EspErr × acl.Entries
  add_grant no_error fabric g entries = after_create (acl.add_entry entries fabric g)
  add_grant buffer_too_small fabric g entries = (esp_err_no_mem, entries)
  add_grant other_failure fabric g entries = (esp_fail, entries)

  abbrev pub grant_unless_allowed :
      ChipError → ℕ → ℕ → ℕ → ℕ → Option ℕ → acl.Entries → EspErr × acl.Entries
  grant_unless_allowed filled endpoint cluster fabric node none entries = (esp_fail, entries)
  grant_unless_allowed filled endpoint cluster fabric node (some count) entries =
      if already_allowed endpoint cluster fabric node count entries
      then (esp_ok, entries)
      else add_grant filled fabric (node_grant endpoint cluster fabric node) entries

  unfoldable pub ensure_ota_acl_for_node :
      ChipError → ℕ → ℕ → ℕ → ℕ → ℕ → acl.Entries → EspErr × acl.Entries
  ensure_ota_acl_for_node filled endpoint cluster undefined fabric node entries =
      if endpoint == unset_endpoint
      then (esp_err_invalid_state, entries)
      else if fabric == undefined
      then (esp_err_invalid_state, entries)
      else grant_unless_allowed filled endpoint cluster fabric node (acl.entry_count entries fabric)
          entries
