-- ===== src/Ota/Candidates.antt =====
-- matter-prototype/controller-node/components/lo_ota_provider/src/esp_matter_ota_candidates.cpp: the cache
-- of the images that the controller offers, and the queue of the searches. What the allocator and
-- FreeRTOS answer (`true` for success) is an argument.
pub mod Slots
pub mod Offers
use led_orchestra.Base.{
  ℕ, zero, suc, ◌-◌, Bool, true, false, not, ◌&&◌, ◌||◌, Option, none, some, List, [], ◌∷◌, ◌++◌,
  map, ltb, leb, ◌==◌, if◌then◌else◌, length, take, set, replicate, get_elem?,
}
use led_orchestra.Platform.{
  EspErr, esp_ok, esp_err_invalid_arg, esp_err_invalid_size, esp_err_invalid_state, esp_err_no_mem,
  esp_err_not_found,
}

abbrev pub ota_url_max_len : ℕ
ota_url_max_len = 256

abbrev pub software_version_str_max_len : ℕ
software_version_str_max_len = 64

abbrev pub max_ota_candidate_count : ℕ
max_ota_candidate_count = 8

-- `model_version_t`.
pub record Candidate : Type 0 where
  pub vendor_id : ℕ
  pub product_id : ℕ
  pub software_version : ℕ
  pub software_version_str : List ℕ
  pub cd_version_number : ℕ
  pub min_applicable : ℕ
  pub max_applicable : ℕ
  pub ota_url : List ℕ
  pub ota_file_size : ℕ
  pub lifetime : ℕ

-- `ota_candidate_fetch_action_t`, without the callback.
pub record FetchAction : Type 0 where
  pub vendor_id : ℕ
  pub product_id : ℕ
  pub software_version : ℕ

-- The statics: the slots, whether the mutex exists, and the queue once it is created.
pub record Cache : Type 0 where
  pub slots : List (Option Candidate)
  pub has_mutex : Bool
  pub queue : Option (List FetchAction)

unfoldable pub is_ota_candidate_valid : Candidate → ℕ → Bool
is_ota_candidate_valid m current =
    ltb current m.software_version && leb current m.max_applicable && leb m.min_applicable current

-- `cur && cur->vendor_id == vendor_id && cur->product_id == product_id`.
unfoldable pub holds : ℕ → ℕ → Option Candidate → Bool
holds vendor product none = false
holds vendor product (some m) = (m.vendor_id == vendor) && (m.product_id == product)

abbrev pub valid_at : ℕ → ℕ → Option Candidate → Option ℕ
valid_at version index none = none
valid_at version index (some m) = if is_ota_candidate_valid m version then some index else none

-- The loop of `_search_ota_candidate` from `index` on; -1 is `none`.
unfoldable pub search_from : ℕ → ℕ → ℕ → ℕ → List (Option Candidate) → Option ℕ
search_from index vendor product version [] = none
search_from index vendor product version (slot ∷ slots) =
    if holds vendor product slot
    then valid_at version index slot
    else search_from (suc index) vendor product version slots

unfoldable pub search_ota_candidate : ℕ → ℕ → ℕ → List (Option Candidate) → Option ℕ
search_ota_candidate vendor product version slots = search_from 0 vendor product version slots

abbrev pub note_empty : ℕ → Option ℕ → Option Candidate → Option ℕ
note_empty index none none = some index
note_empty index none (some m) = none
note_empty index (some e) slot = some e

-- The loop of `_find_candidate_slot` from `index` on, `empty` being the first free slot so far.
unfoldable pub find_slot_from : ℕ → Option ℕ → ℕ → ℕ → List (Option Candidate) → Option ℕ
find_slot_from index empty vendor product [] = empty
find_slot_from index empty vendor product (slot ∷ slots) =
    if holds vendor product slot
    then some index
    else find_slot_from (suc index) (note_empty index empty slot) vendor product slots

unfoldable pub find_candidate_slot : ℕ → ℕ → List (Option Candidate) → Option ℕ
find_candidate_slot vendor product slots = find_slot_from 0 none vendor product slots

-- A slot that was found but is free wants an allocation.
abbrev pub has_room : Bool → Option (Option Candidate) → Bool
has_room allocated none = false
has_room allocated (some none) = allocated
has_room allocated (some (some m)) = true

-- The part of `register_local_candidate` that holds the mutex; `allocated` is the answer of calloc.
unfoldable pub store_candidate :
    Bool → Candidate → List (Option Candidate) → EspErr × List (Option Candidate)
store_candidate allocated m slots = elim (find_candidate_slot m.vendor_id m.product_id slots) [
  | none ↦ (esp_err_no_mem, slots)
  | some index ↦
      if has_room allocated (get_elem? slots index)
      then (esp_ok, set slots index (some m))
      else (esp_err_no_mem, slots)
]

-- The model that is written, its texts cut by `strncpy`.
abbrev pub local_candidate : ℕ → ℕ → ℕ → List ℕ → List ℕ → ℕ → ℕ → ℕ → Candidate
local_candidate vendor product version version_str url size min_applicable max_applicable = record {
  vendor_id = vendor;
  product_id = product;
  software_version = version;
  software_version_str = take (software_version_str_max_len - 1) version_str;
  cd_version_number = 0;
  min_applicable = min_applicable;
  max_applicable = max_applicable;
  ota_url = take (ota_url_max_len - 1) url;
  ota_file_size = size;
  lifetime = 0;
}

-- A null pointer is `none`.
unfoldable pub register_local_candidate :
    Bool → ℕ → ℕ → ℕ → Option (List ℕ) → Option (List ℕ) → ℕ → ℕ → ℕ → Cache → EspErr × Cache
register_local_candidate allocated vendor product version (some version_str) (some url) size lo hi
      c =
    if leb ota_url_max_len (length url) || leb software_version_str_max_len (length version_str)
    then (esp_err_invalid_size, c)
    else if not c.has_mutex
    then (esp_err_invalid_state, c)
    else let (err, slots) =
        store_candidate allocated
          (local_candidate vendor product version version_str url size lo hi) c.slots in
      (err, record c { slots = slots })
register_local_candidate allocated vendor product version none url size lo hi c =
    (esp_err_invalid_arg, c)
register_local_candidate allocated vendor product version (some version_str) none size lo hi c =
    (esp_err_invalid_arg, c)

unfoldable pub clear_local_candidates : Cache → EspErr × Cache
clear_local_candidates c =
    if not c.has_mutex
    then (esp_err_invalid_state, c)
    else (esp_ok, record c { slots = map (λ slot. none) c.slots })

-- What the callback of a search is given.
pub data FetchResult : Type 0 where
  not_available : FetchResult
  available : (url : List ℕ) (size version : ℕ) (version_str : List ℕ) → FetchResult

unfoldable pub offer : Option (Option Candidate) → FetchResult
offer none = not_available
offer (some none) = not_available
offer (some (some m)) =
    available (take (ota_url_max_len - 1) m.ota_url) m.ota_file_size m.software_version
      (take (software_version_str_max_len - 1) m.software_version_str)

-- The slot that the search found.
abbrev pub found_slot : List (Option Candidate) → Option ℕ → Option (Option Candidate)
found_slot slots none = none
found_slot slots (some index) = get_elem? slots index

unfoldable pub fetch_handler : FetchAction → List (Option Candidate) → FetchResult
unfolding offer
fetch_handler a slots =
    offer
      (found_slot slots (search_ota_candidate a.vendor_id a.product_id a.software_version slots))

-- `sent` is the answer of xQueueSend, and `callback` says whether the callback is set.
unfoldable pub fetch_ota_candidate : Bool → Bool → FetchAction → Cache → EspErr × Cache
fetch_ota_candidate sent callback a c = elim c.queue [
  | none ↦ (esp_err_not_found, c)
  | some q ↦
      if not callback
      then (esp_err_invalid_arg, c)
      else if not sent
      then (esp_err_not_found, c)
      else (esp_ok, record c { queue = some (q ++ (a ∷ [])) })
]

-- One round of `ota_candidate_task`: the first action of the queue, if there is one.
unfoldable pub candidate_task : Cache → Option FetchResult × Cache
candidate_task c = elim c.queue [
  | none ↦ (none, c)
  | some [] ↦ (none, c)
  | some (a ∷ q) ↦ (some (fetch_handler a c.slots), record c { queue = some q })
]

abbrev create_queue : Bool → Bool → Cache → EspErr × Cache
create_queue queue_made task_made c =
    if not queue_made
    then (esp_err_no_mem, c)
    else if not task_made
    then (esp_err_no_mem, record c { queue = some [] })
    else (esp_ok, record c { queue = some [] })

abbrev create_mutex : Bool → Cache → Bool × Cache
create_mutex made c = if c.has_mutex then (true, c) else (made, record c { has_mutex = made })

-- The three flags answer for the mutex, the queue and the task.
unfoldable pub init_ota_candidates : Bool → Bool → Bool → Cache → EspErr × Cache
init_ota_candidates mutex_made queue_made task_made c =
    let (locked, d) =
      create_mutex mutex_made (record c { slots = replicate max_ota_candidate_count none }) in
    if not locked then (esp_err_no_mem, d) else elim d.queue [
      | none ↦ create_queue queue_made task_made d
      | some q ↦ (esp_err_invalid_state, d)
    ]
