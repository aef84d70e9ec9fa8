-- ===== src/Ota/Provider.antt =====
-- matter-prototype/controller-node/components/lo_ota_provider/include/esp_matter_ota_provider.h and
-- src/esp_matter_ota_provider.cpp: the state of the OTA provider, its requestors, and what the operator
-- may set. The list of the requestors is kept in the order of its links.
pub mod Handlers
pub mod Entries
pub mod Steps
pub mod Consent
pub mod Denial
pub mod Runs
pub mod Once
pub mod Apply
pub mod Offering
pub mod Nodes
pub mod Keys
use led_orchestra.Base.{
  ℕ, zero, suc, Bool, true, false, not, ◌&&◌, ◌||◌, Option, none, some, List, [], ◌∷◌, ◌==◌,
  if◌then◌else◌, map, replicate,
}
use led_orchestra.Platform.{EspErr, esp_ok, esp_err_no_mem, esp_err_not_found, is_ok}
use led_orchestra.Ota.Sender.{Sender, initial_sender}

-- `chip::ScopedNodeId`.
pub record ScopedNodeId : Type 0 where
  pub node : ℕ
  pub fabric : ℕ

abbrev pub same_node : ScopedNodeId → ScopedNodeId → Bool
same_node a b = (a.node == b.node) && (a.fabric == b.fabric)

-- `EspOtaRequestorEntry`.
pub record RequestorEntry : Type 0 where
  pub node_id : ScopedNodeId
  pub ota_allowed : Bool
  pub ota_allowed_once : Bool
  pub has_new_version : Bool
  pub update_token : List ℕ
  pub image_uri : List ℕ
  pub ota_image_url : List ℕ
  pub ota_image_size : ℕ
  pub software_version : ℕ
  pub software_version_string : List ℕ

-- `OTAApplyUpdateAction` and `OTAQueryStatus` of the cluster.
pub data ApplyUpdateAction : Type 0 where
  proceed await_next_action discontinue : ApplyUpdateAction

pub data QueryStatus : Type 0 where
  update_available busy not_available : QueryStatus

-- `chip::Access::SubjectDescriptor`.
pub record SubjectDescriptor : Type 0 where
  pub fabric_index : ℕ
  pub subject : ℕ

-- What a command handler says of the requestor: the peer of its session and its subject descriptor.
pub record Command : Type 0 where
  pub peer : ScopedNodeId
  pub subject : SubjectDescriptor

-- `EspOtaProvider`; `async_command` is what the handle was made from, the path of the command is left out.
pub record Provider : Type 0 where
  pub bdx_sender : Sender
  pub delayed_query_action_time : ℕ
  pub update_action : ApplyUpdateAction
  pub delayed_apply_action_time : ℕ
  pub poll_interval : ℕ
  pub ota_allowed_default : Bool
  pub requestors : List RequestorEntry
  pub async_command : Option Command
  pub subject : SubjectDescriptor
  pub peer : ScopedNodeId

abbrev pub bdx_server_poll_interval : ℕ
bdx_server_poll_interval = 50

abbrev pub update_token_len : ℕ
update_token_len = 32

unfoldable pub init : Bool → Provider → Provider
init allowed p = record p {
  delayed_query_action_time = 0;
  update_action = proceed;
  delayed_apply_action_time = 0;
  poll_interval = bdx_server_poll_interval;
  requestors = [];
  ota_allowed_default = allowed;
}

unfoldable pub set_apply_update_action : ApplyUpdateAction → Provider → Provider
set_apply_update_action action p = record p { update_action = action }

unfoldable pub set_delayed_query_action_time : ℕ → Provider → Provider
set_delayed_query_action_time time p = record p { delayed_query_action_time = time }

unfoldable pub set_delayed_apply_action_time : ℕ → Provider → Provider
set_delayed_apply_action_time time p = record p { delayed_apply_action_time = time }

unfoldable pub set_poll_interval : ℕ → Provider → Provider
set_poll_interval interval p = record p {
  poll_interval = if not (interval == 0) then interval else p.poll_interval;
}

unfoldable pub set_ota_allowed_default : Bool → Provider → Provider
set_ota_allowed_default allowed p = record p { ota_allowed_default = allowed }

unfoldable pub find_entry : ScopedNodeId → List RequestorEntry → Option RequestorEntry
find_entry n [] = none
find_entry n (e ∷ es) = if same_node e.node_id n then some e else find_entry n es

-- Writing through the pointer that `find_entry` returned.
unfoldable pub put_entry : RequestorEntry → List RequestorEntry → List RequestorEntry
put_entry new [] = []
put_entry new (e ∷ es) = if same_node e.node_id new.node_id then new ∷ es else e ∷ put_entry new es

abbrev pub new_entry : ScopedNodeId → Bool → RequestorEntry
new_entry n allowed = record {
  node_id = n;
  ota_allowed = allowed;
  ota_allowed_once = false;
  has_new_version = false;
  update_token = replicate update_token_len 0;
  image_uri = [];
  ota_image_url = [];
  ota_image_size = 0;
  software_version = 0;
  software_version_string = [];
}

-- `allocated` is the answer of the allocator.
unfoldable pub create_entry : Bool → ScopedNodeId → Provider → EspErr × Provider
create_entry allocated n p = elim (find_entry n p.requestors) [
  | some e ↦ (esp_ok, p)
  | none ↦
      if allocated
      then (esp_ok, record p { requestors = new_entry n p.ota_allowed_default ∷ p.requestors })
      else (esp_err_no_mem, p)
]

unfoldable pub remove_first : ScopedNodeId → List RequestorEntry → List RequestorEntry
remove_first n [] = []
remove_first n (e ∷ es) = if same_node e.node_id n then es else e ∷ remove_first n es

unfoldable pub remove_entry : ScopedNodeId → Provider → EspErr × Provider
remove_entry n p = elim (find_entry n p.requestors) [
  | none ↦ (esp_err_not_found, p)
  | some e ↦ (esp_ok, record p { requestors = remove_first n p.requestors })
]

-- `kUndefinedNodeId` and `kUndefinedFabricIndex`.
pub record Undefined : Type 0 where
  pub node : ℕ
  pub fabric : ℕ

-- The test of the loops of `EnableOtaForNode` and `DisableOtaForNode`.
unfoldable pub selects : Undefined → ScopedNodeId → ScopedNodeId → Bool
selects u n entry =
    same_node entry n
    || ((n.node == u.node) && ((n.fabric == entry.fabric) || (n.fabric == u.fabric)))

abbrev pub allow : Bool → RequestorEntry → RequestorEntry
allow only_once e =
    if not only_once then record e { ota_allowed = true } else record e { ota_allowed_once = true }

abbrev pub forbid : RequestorEntry → RequestorEntry
forbid e = record e { ota_allowed = false; ota_allowed_once = false }

abbrev pub selected : Undefined → ScopedNodeId → List RequestorEntry → Bool
selected u n [] = false
selected u n (e ∷ es) = selects u n e.node_id || selected u n es

abbrev pub update_selected :
    Undefined → ScopedNodeId → (RequestorEntry → RequestorEntry) → Provider → EspErr × Provider
update_selected u n f p = (
  if selected u n p.requestors then esp_ok else esp_err_not_found,
  record p { requestors = map (λ e. if selects u n e.node_id then f e else e) p.requestors },
)

unfoldable pub enable_ota_for_node :
    Undefined → Bool → ScopedNodeId → Bool → Provider → EspErr × Provider
enable_ota_for_node u allocated n only_once p =
    if n.node == u.node
    then update_selected u n (allow only_once) p
    else let (err, q) = create_entry allocated n p in
      if is_ok err then update_selected u n (allow only_once) q else (esp_err_no_mem, q)

unfoldable pub disable_ota_for_node : Undefined → ScopedNodeId → Provider → EspErr × Provider
disable_ota_for_node u n p = update_selected u n forbid p
