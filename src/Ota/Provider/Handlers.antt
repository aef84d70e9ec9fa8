-- ===== src/Ota/Provider/Handlers.antt =====
-- matter-prototype/controller-node/components/lo_ota_provider/src/esp_matter_ota_provider.cpp: the
-- handlers of the commands of the OTA provider cluster, and the answer to a query.
use led_orchestra.Base.{
  ℕ, ◌+◌, ◌-◌, ◌*◌, ◌/◌, ◌^◌, Bool, true, false, not, ◌&&◌, Option, none, some, List, [], ◌∷◌, ltb,
  leb, ◌==◌, if◌then◌else◌, length, take,
}
use led_orchestra.Base.Words.{u32}
use led_orchestra.Platform.{is_ok}
use led_orchestra.Ota.Candidates.{
  Cache, FetchAction, FetchResult, not_available, available, fetch_ota_candidate, ota_url_max_len,
  software_version_str_max_len,
}
use led_orchestra.Ota.Sender.{initialize_transfer, set_ota_image_url}
use led_orchestra.Ota.Provider.{
  Provider, RequestorEntry, ScopedNodeId, same_node, Command, QueryStatus, update_available, busy,
  ApplyUpdateAction, proceed, find_entry, put_entry, create_entry,
}

-- `kUpdateTokenStrLen`.
abbrev pub update_token_str_len : ℕ
update_token_str_len = 65

-- How many bytes the loop of `GetUpdateTokenString` prints for a token of that size; the subtraction
-- is one of a `size_t` of 32 bits.
unfoldable pub printed_bytes : ℕ → ℕ
printed_bytes size =
    u32 ((if ltb update_token_str_len size then update_token_str_len else size) / 2 + (2 ^ 32 - 1))

-- The print writes two digits and a zero for each byte.
unfoldable pub print_overruns : ℕ → Bool
unfolding printed_bytes
print_overruns size = ltb update_token_str_len (2 * printed_bytes size + 1)

-- The answers of the SDK: the provider's node id on a fabric, `chip::bdx::MakeURI` (given what the
-- buffer held).
pub record Sdk : Type 0 where
  pub provider_node : ℕ → Option ℕ
  pub make_uri : ℕ → List ℕ → List ℕ → Option (List ℕ)

-- The answers during one handler: whether the handle is still valid, PrepareForTransfer succeeds and
-- the random bytes of the token.
pub record Answers : Type 0 where
  pub handle_valid : Bool
  pub prepared : Bool
  pub random_token : List ℕ

pub data Status : Type 0 where
  success failure invalid_command resource_exhausted : Status

-- The fields that a response has where an update is available.
pub record ImageFields : Type 0 where
  pub image_uri : List ℕ
  pub software_version : ℕ
  pub software_version_string : List ℕ
  pub update_token : List ℕ

-- What the requestor is answered. `crash` is an access outside a buffer or through a null pointer.
pub data Answer : Type 0 where
  silent crash : Answer
  status : Status → Answer
  query_image_response : QueryStatus → Option ImageFields → Option ℕ → Answer
  apply_update_response : ApplyUpdateAction → ℕ → Answer

abbrev pub may_update : RequestorEntry → Bool
may_update e = not (not e.ota_allowed && not e.ota_allowed_once)

unfoldable pub busy_delay : Provider → Provider
busy_delay p =
    if p.delayed_apply_action_time == 0 then record p { delayed_query_action_time = 120 } else p

-- The end of `SendQueryImageResponse`, where the response is filled and sent.
abbrev pub respond : QueryStatus → Option ImageFields → Provider → Answer × Provider
respond QueryStatus.busy image p =
    (query_image_response busy image (some (busy_delay p).delayed_query_action_time), busy_delay p)
respond QueryStatus.update_available image p = (query_image_response update_available image none, p)
respond QueryStatus.not_available image p =
    (query_image_response QueryStatus.not_available image none, p)

-- The text after the last `/` (47).
abbrev pub after_slash : Option (List ℕ) → ℕ → List ℕ → Option (List ℕ)
after_slash (some name) c rest = some name
after_slash none c rest = if c == 47 then some rest else none

unfoldable pub file_name : List ℕ → Option (List ℕ)
file_name [] = none
file_name (c ∷ url) = after_slash (file_name url) c url

abbrev pub file_name_capacity : ℕ
file_name_capacity = 128

abbrev pub write_entry : RequestorEntry → Provider → Provider
write_entry e p = record p { requestors = put_entry e p.requestors }

abbrev pub image_fields : RequestorEntry → ImageFields
image_fields e = record {
  image_uri = e.image_uri;
  software_version = e.software_version;
  software_version_string = e.software_version_string;
  update_token = e.update_token;
}

-- What a reset of the sender asks of its session is left out here.
unfoldable pub start_transfer : Answers → RequestorEntry → Provider → Answer × Provider
start_transfer a e p =
    let (err, effects, sender) =
      initialize_transfer p.subject.fabric_index p.subject.subject p.bdx_sender in
    let q = record p {
      bdx_sender = if is_ok err then set_ota_image_url e.ota_image_url sender else sender;
    } in
    if not (is_ok err)
    then respond busy none q
    else if not a.prepared
    then (status failure, q)
    else let d = record e { update_token = a.random_token } in
      respond update_available (some (image_fields d)) (write_entry d q)

abbrev pub uri_or_empty : Option (List ℕ) → List ℕ
uri_or_empty none = []
uri_or_empty (some uri) = uri

-- The name is copied without its terminating zero, and read as a text: it fits where a zero is left.
abbrev pub offer_named :
    Sdk → Answers → RequestorEntry → ℕ → Option (List ℕ) → Provider → Answer × Provider
offer_named sdk a e node none p = (crash, p)
offer_named sdk a e node (some name) p =
    if leb file_name_capacity (length name)
    then (crash, p)
    else let d = record e { image_uri = uri_or_empty (sdk.make_uri node name e.image_uri) } in
      start_transfer a d (write_entry d p)

abbrev pub offer_from : Sdk → Answers → RequestorEntry → Option ℕ → Provider → Answer × Provider
offer_from sdk a e none p = (crash, p)
offer_from sdk a e (some node) p = offer_named sdk a e node (file_name e.ota_image_url) p

unfoldable pub offer_image : Sdk → Answers → RequestorEntry → Provider → Answer × Provider
offer_image sdk a e p = offer_from sdk a e (sdk.provider_node p.subject.fabric_index) p

abbrev pub is_update_available : QueryStatus → Bool
is_update_available QueryStatus.update_available = true
is_update_available QueryStatus.busy = false
is_update_available QueryStatus.not_available = false

-- The part for the requestor's entry.
unfoldable pub answer_entry :
    Sdk → Answers → QueryStatus → Option RequestorEntry → Provider → Answer × Provider
answer_entry sdk a s none p = respond QueryStatus.not_available none p
answer_entry sdk a s (some e) p =
    if not (may_update e)
    then respond QueryStatus.not_available none
        (if is_update_available s then write_entry (record e { has_new_version = true }) p else p)
    else if is_update_available s
    then offer_image sdk a e p
    else respond s none p

abbrev pub valid_command : Bool → Option Command → ScopedNodeId → Bool
valid_command handle_valid none peer = false
valid_command handle_valid (some c) peer = handle_valid && same_node c.peer peer

-- The handle is moved out first.
unfoldable pub send_query_image_response :
    Sdk → Answers → QueryStatus → Provider → Answer × Provider
send_query_image_response sdk a s p =
    let q = record p { async_command = none } in
    if not (valid_command a.handle_valid p.async_command p.peer)
    then (silent, q)
    else answer_entry sdk a s (find_entry p.peer p.requestors) q

abbrev pub fetched : List ℕ → ℕ → ℕ → List ℕ → RequestorEntry → RequestorEntry
fetched url size version version_str e = record e {
  ota_image_url = take (ota_url_max_len - 1) url;
  ota_image_size = size;
  software_version = version;
  software_version_string = take (software_version_str_max_len - 1) version_str;
}

abbrev pub write_fetched : FetchResult → Option RequestorEntry → Provider → Provider
write_fetched r none p = p
write_fetched not_available (some e) p = p
write_fetched (available url size version version_str) (some e) p =
    write_entry (fetched url size version version_str e) p

abbrev pub query_status : FetchResult → QueryStatus
query_status not_available = QueryStatus.not_available
query_status (available url size version version_str) = update_available

unfoldable pub fetch_image_done : Sdk → Answers → FetchResult → Provider → Answer × Provider
fetch_image_done sdk a r p =
    send_query_image_response sdk a (query_status r)
      (write_fetched r (find_entry p.peer p.requestors) p)

abbrev pub is_pending : Bool → Option Command → Bool
is_pending pending_valid none = false
is_pending pending_valid (some c) = pending_valid

abbrev pub accept_query : Command → Provider → Provider
accept_query c p = record p { subject = c.subject; peer = c.peer; async_command = some c }

-- `sent` is the answer of the queue, and `pending_valid` says whether an earlier handle is still valid.
unfoldable pub handle_query_image :
    Sdk
    → Answers
    → Bool
    → Bool
    → Bool
    → Command
    → FetchAction
    → Provider
    → Cache
    → Answer × Provider × Cache
handle_query_image sdk a allocated pending_valid sent c action p cache =
    let (err, q) = create_entry allocated c.peer p in
    if not (is_ok err)
    then (status resource_exhausted, q, cache)
    else if is_pending pending_valid q.async_command
    then (let (answer, r) = respond busy none q in (answer, r, cache))
    else let (queued, cache1) = fetch_ota_candidate sent true action cache in
      if is_ok queued
      then (silent, accept_query c q, cache1)
      else let (answer, r) =
          send_query_image_response sdk a QueryStatus.not_available (accept_query c q) in
        (answer, r, cache1)

-- `data_equal` of two byte spans.
unfoldable pub data_equal : List ℕ → List ℕ → Bool
data_equal [] [] = true
data_equal [] (y ∷ ys) = false
data_equal (x ∷ xs) [] = false
data_equal (x ∷ xs) (y ∷ ys) = (x == y) && data_equal xs ys

abbrev pub token_matches : List ℕ → ℕ → RequestorEntry → Bool
token_matches token version e = data_equal token e.update_token && (version == e.software_version)

abbrev pub apply_matched : Bool → Provider → Answer × Provider
apply_matched true p = (
  apply_update_response p.update_action p.delayed_apply_action_time,
  record p { delayed_apply_action_time = 0; update_action = proceed },
)
apply_matched false p = (status invalid_command, p)

abbrev pub matches_entry : List ℕ → ℕ → Option RequestorEntry → Bool
matches_entry token version none = false
matches_entry token version (some e) = token_matches token version e

-- A null command handler is `none`.
unfoldable pub handle_apply_update_request :
    Option Command → List ℕ → ℕ → Provider → Answer × Provider
handle_apply_update_request none token version p = (silent, p)
handle_apply_update_request (some c) token version p =
    if print_overruns (length token)
    then (crash, p)
    else apply_matched (matches_entry token version (find_entry c.peer p.requestors)) p

abbrev pub finish_update : List ℕ → ℕ → Option RequestorEntry → Provider → Answer × Provider
finish_update token version none p = (status invalid_command, p)
finish_update token version (some e) p =
    if token_matches token version e
    then (status success, write_entry (record e { ota_allowed_once = false }) p)
    else (status invalid_command, p)

unfoldable pub handle_notify_update_applied :
    Option Command → List ℕ → ℕ → Provider → Answer × Provider
handle_notify_update_applied none token version p = (silent, p)
handle_notify_update_applied (some c) token version p =
    if print_overruns (length token)
    then (crash, p)
    else finish_update token version (find_entry c.peer p.requestors) p
