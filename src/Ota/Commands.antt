-- ===== src/Ota/Commands.antt =====
-- matter-prototype/controller-node/main/led_orchestra_ota_provider.cpp: the commands of the operator. The
-- arguments are those after the name of the command.
pub mod Images
use led_orchestra.Base.{
  ℕ, zero, suc, ◌-◌, ◌^◌, Bool, true, false, not, ◌&&◌, ◌||◌, Option, none, some, List, [], ◌∷◌,
  ltb, leb, ◌==◌, if◌then◌else◌, length, take,
}
use led_orchestra.Base.Words.{u16}
use led_orchestra.Libc.{Parsed, strtoull}
use led_orchestra.Platform.{EspErr, esp_ok, esp_err_invalid_arg, is_ok}
use led_orchestra.Ota.Candidates.{
  Cache, register_local_candidate, ota_url_max_len, software_version_str_max_len,
}
use led_orchestra.Ota.Provider.{
  Provider, ScopedNodeId, Undefined, enable_ota_for_node, disable_ota_for_node,
}
use led_orchestra.Ota.Provider.Handlers.{data_equal}
use led_orchestra.Ota.Access.{
  ChipError, AccessControl, ensure_ota_acl_for_node, fallback_fabric_index,
}

abbrev pub is_empty : List ℕ → Bool
is_empty [] = true
is_empty (c ∷ text) = false

unfoldable pub parse_u64 : List ℕ → Option ℕ
parse_u64 value =
    let p = strtoull 0 value in
    if p.failed || not p.consumed || not (is_empty p.rest) then none else some p.value

unfoldable pub parse_u32 : List ℕ → Option ℕ
parse_u32 value =
    let p = strtoull 0 value in
    if p.failed || not p.consumed || not (is_empty p.rest) || ltb (2 ^ 32 - 1) p.value
    then none
    else some p.value

-- `LocalOtaCandidate`, its member `set` as `is_set`.
pub record LocalOtaCandidate : Type 0 where
  pub is_set : Bool
  pub uri : List ℕ
  pub software_version : ℕ
  pub version_string : List ℕ
  pub size : ℕ
  pub vendor_id : ℕ
  pub product_id : ℕ

abbrev pub paired : {A B : Type 0} → Option A → Option B → Option (A × B)
paired none b = none
paired (some a) none = none
paired (some a) (some b) = some (a, b)

-- What is kept of an image after its registration.
abbrev pub registered_image :
    List ℕ → List ℕ → ℕ → ℕ → ℕ → ℕ → EspErr × Cache → EspErr × (LocalOtaCandidate × Cache)
registered_image uri version_str version size vendor product (err, cache) = (
  err,
  (
    record {
      is_set = is_ok err;
      uri = uri;
      software_version = version;
      version_string = version_str;
      size = size;
      vendor_id = vendor;
      product_id = product;
    },
    cache,
  ),
)

-- The image that is recorded is registered; its texts are cut by `strncpy`.
abbrev pub register_image :
    Bool → List ℕ → List ℕ → ℕ → ℕ → ℕ → ℕ → Cache → EspErr × (LocalOtaCandidate × Cache)
register_image allocated uri version_str version size vendor product cache =
    registered_image uri version_str version size vendor product (
      register_local_candidate allocated vendor product version (some version_str) (some uri) size 0
        (2 ^ 32 - 1) cache)

-- The end of `ota_set_image_handler`, with the version and the size, and the two ids, where they could be read.
abbrev pub stage_image :
    Bool
    → List ℕ
    → List ℕ
    → Option ((ℕ × ℕ) × (ℕ × ℕ))
    → LocalOtaCandidate
    → Cache
    → EspErr × (LocalOtaCandidate × Cache)
stage_image allocated uri version_str none staged cache = (esp_err_invalid_arg, (staged, cache))
stage_image allocated uri version_str (some ((version, size), (vendor, product))) staged cache =
    if ltb 0xFFFF vendor || ltb 0xFFFF product
    then (esp_err_invalid_arg, (staged, cache))
    else register_image allocated (take (ota_url_max_len - 1) uri)
        (take (software_version_str_max_len - 1) version_str) version size (u16 vendor)
        (u16 product) cache

-- The arguments as they came.
unfoldable pub ota_set_image_handler :
    Bool → List (List ℕ) → LocalOtaCandidate → Cache → EspErr × (LocalOtaCandidate × Cache)
unfolding parse_u32
ota_set_image_handler allocated
      (uri ∷ (version ∷ (version_str ∷ (size ∷ (vendor ∷ (product ∷ [])))))) staged cache =
    if leb ota_url_max_len (length uri) || leb software_version_str_max_len (length version_str)
    then (esp_err_invalid_arg, (staged, cache))
    else stage_image allocated uri version_str
        (paired (paired (parse_u32 version) (parse_u32 size))
          (paired (parse_u32 vendor) (parse_u32 product)))
        staged cache
ota_set_image_handler allocated arguments staged cache = (esp_err_invalid_arg, (staged, cache))

abbrev pub on_fabric : ℕ → ScopedNodeId
on_fabric node = record { node = node; fabric = fallback_fabric_index }

-- "once".
abbrev pub once_word : List ℕ
once_word = 111 ∷ (110 ∷ (99 ∷ (101 ∷ [])))

abbrev pub enable_parsed : Undefined → Bool → Option ℕ → Bool → Provider → EspErr × Provider
enable_parsed u allocated none once p = (esp_err_invalid_arg, p)
enable_parsed u allocated (some node) once p =
    enable_ota_for_node u allocated (on_fabric node) once p

unfoldable pub ota_enable_handler : Undefined → Bool → List (List ℕ) → Provider → EspErr × Provider
unfolding parse_u64
ota_enable_handler u allocated (node ∷ []) p = enable_parsed u allocated (parse_u64 node) false p
ota_enable_handler u allocated (node ∷ (word ∷ [])) p =
    enable_parsed u allocated (parse_u64 node) (data_equal word once_word) p
ota_enable_handler u allocated arguments p = (esp_err_invalid_arg, p)

abbrev pub disable_parsed : Undefined → Option ℕ → Provider → EspErr × Provider
disable_parsed u none p = (esp_err_invalid_arg, p)
disable_parsed u (some node) p = disable_ota_for_node u (on_fabric node) p

unfoldable pub ota_disable_handler : Undefined → List (List ℕ) → Provider → EspErr × Provider
unfolding parse_u64
ota_disable_handler u (node ∷ []) p = disable_parsed u (parse_u64 node) p
ota_disable_handler u arguments p = (esp_err_invalid_arg, p)

-- `is_operational` is `chip::IsOperationalNodeId`.
module _ (acl : AccessControl) (is_operational : ℕ → Bool) where
  abbrev pub grant_parsed :
      ChipError → ℕ → ℕ → ℕ → ℕ → Option ℕ → acl.Entries → EspErr × acl.Entries
  grant_parsed filled endpoint cluster undefined fabric none entries =
      (esp_err_invalid_arg, entries)
  grant_parsed filled endpoint cluster undefined fabric (some node) entries =
      if not (is_operational node)
      then (esp_err_invalid_arg, entries)
      else ensure_ota_acl_for_node acl filled endpoint cluster undefined fabric node entries

  unfoldable pub ota_grant_access_handler :
      ChipError → ℕ → ℕ → ℕ → ℕ → List (List ℕ) → acl.Entries → EspErr × acl.Entries
  unfolding parse_u64
  ota_grant_access_handler filled endpoint cluster undefined fabric (node ∷ []) entries =
      grant_parsed filled endpoint cluster undefined fabric (parse_u64 node) entries
  ota_grant_access_handler filled endpoint cluster undefined fabric arguments entries =
      (esp_err_invalid_arg, entries)
