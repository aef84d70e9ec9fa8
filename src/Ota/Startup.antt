-- ===== src/Ota/Startup.antt =====
-- The start of the OTA provider: the setup functions of matter-prototype/controller-node/main/led_orchestra_ota_provider.cpp and
-- the registration of the BDX handler in src/esp_matter_ota_provider.cpp of the component.
use Prim.Native.String.{String}
use led_orchestra.Base.{
  ℕ, ◌≡◌, refl, sym, Bool, true, false, not, ◌||◌, ◌&&◌, Option, none, some, List, [], ◌∷◌, ◌==◌,
  if◌then◌else◌,
}
use mathlib.Core.Path.{subst}
use led_orchestra.Platform.{EspErr, esp_ok, esp_fail, esp_err_invalid_state, is_ok}
use led_orchestra.Ota.Access.{ChipError, no_error, unset_endpoint}
use led_orchestra.Ota.Provider.{Provider, ScopedNodeId, Undefined, init}
use led_orchestra.Ota.Provider.Handlers.{Sdk}
use led_orchestra.Ota.Provider.Consent.{Denied}
use led_orchestra.Ota.Provider.Entries.{denies}
use led_orchestra.Ota.Provider.Steps.{System, Event, run, offered_to, ever_enables}
use led_orchestra.Ota.Provider.Runs.{consent_comes_first}

-- `g_provider_endpoint_id`, the provider, and what the SDK has of it: the delegate of the cluster's server,
-- and the handler of ReceiveInit on the exchange managers of the server and of the controller.
pub record Glue : Type 0 where
  pub provider_endpoint_id : ℕ
  pub provider : Provider
  pub has_delegate : Bool
  pub on_server_exchange : Bool
  pub on_controller_exchange : Bool

-- `RegisterBdxHandler`, from the answer of the exchange manager and whether the handler stands there.
unfoldable pub register_bdx_handler : ChipError → Bool → EspErr × Bool
register_bdx_handler no_error registered = (esp_ok, true)
register_bdx_handler err registered = (esp_fail, registered)

-- `EspOtaProvider::Init`: the error of the registration is dropped.
unfoldable pub init_provider : Bool → ChipError → Glue → Glue
unfolding init register_bdx_handler
init_provider allowed answer glue = record glue {
  provider = init allowed glue.provider;
  on_server_exchange = (register_bdx_handler answer glue.on_server_exchange).1;
}

-- What `endpoint::ota_provider::create` gives: the id of the endpoint, if there is one.
abbrev pub take_endpoint : Option ℕ → Glue → EspErr × Glue
take_endpoint none glue = (esp_fail, glue)
take_endpoint (some id) glue = (esp_ok, record glue { provider_endpoint_id = id })

-- Whether the node can be created, the answer of the exchange manager, and the endpoint.
unfoldable pub led_orchestra_ota_provider_init : Bool → ChipError → Option ℕ → Glue → EspErr × Glue
unfolding init_provider
led_orchestra_ota_provider_init node_created answer endpoint glue =
    if not node_created
    then (esp_fail, glue)
    else take_endpoint endpoint (init_provider false answer glue)

abbrev pub server_registered : EspErr × Bool → Glue → EspErr × Glue
server_registered (err, registered) glue = (err, record glue { on_server_exchange = registered })

-- Whether the registry has the server of the cluster, before and after the callback that may add it.
unfoldable pub led_orchestra_ota_provider_bind_delegate :
    Bool → Bool → ChipError → Glue → EspErr × Glue
unfolding register_bdx_handler
led_orchestra_ota_provider_bind_delegate found found_after answer glue =
    if glue.provider_endpoint_id == unset_endpoint
    then (esp_err_invalid_state, glue)
    else if not (found || found_after)
    then (esp_fail, glue)
    else server_registered (register_bdx_handler answer glue.on_server_exchange)
        (record glue { has_delegate = true })

abbrev pub controller_registered : EspErr × Bool → Glue → EspErr × Glue
controller_registered (err, registered) glue =
    (err, record glue { on_controller_exchange = registered })

-- Whether the controller has an exchange manager.
unfoldable pub led_orchestra_ota_provider_bind_controller_exchange :
    Bool → ChipError → Glue → EspErr × Glue
unfolding register_bdx_handler
led_orchestra_ota_provider_bind_controller_exchange ready answer glue =
    if not ready
    then (esp_err_invalid_state, glue)
    else controller_registered (register_bdx_handler answer glue.on_controller_exchange) glue

-- The names of the commands in the order of their registration.
abbrev pub ota_command_names : List String
ota_command_names =
    "lo-ota-status" ∷ "lo-ota-grant-access" ∷ "lo-ota-enable" ∷ "lo-ota-disable"
    ∷ "lo-ota-set-image" ∷ []

-- `esp_console_cmd_register`, over what is registered.
module _ {Registry : Type 0} (cmd_register : String → Registry → EspErr × Registry) where
  -- Every command is tried; the errors are joined.
  unfoldable pub register_each : List String → Bool × Registry → Bool × Registry
  register_each [] (all_ok, registry) = (all_ok, registry)
  register_each (name ∷ names) (all_ok, registry) =
      let r = cmd_register name registry in register_each names (all_ok && is_ok r.0, r.1)

  abbrev pub joined : Bool × Registry → EspErr × Registry
  joined (all_ok, registry) = (if all_ok then esp_ok else esp_fail, registry)

  unfoldable pub led_orchestra_ota_provider_register_commands : Registry → EspErr × Registry
  unfolding register_each
  led_orchestra_ota_provider_register_commands registry =
      joined (register_each ota_command_names (true, registry))

init-Denied : (n : ScopedNodeId) (p : Provider) → Denied n (init false p)
unfolding init denies
init-Denied n p = record { entries = refl; by_default = refl }

take_endpoint-provider :
    (endpoint : Option ℕ) (glue : Glue) → (take_endpoint endpoint glue).1.provider ≡ glue.provider
take_endpoint-provider none glue = refl
take_endpoint-provider (some id) glue = refl

provider_init-Denied :
    (n : ScopedNodeId) (answer : ChipError) (endpoint : Option ℕ) (glue : Glue)
    → Denied n (led_orchestra_ota_provider_init true answer endpoint glue).1.provider
unfolding led_orchestra_ota_provider_init init_provider
provider_init-Denied n answer endpoint glue =
    subst (Denied n) (sym (take_endpoint-provider endpoint (init_provider false answer glue)))
      (init-Denied n glue.provider)

-- From the start of the controller on, whatever the SDK answered at its start, a node is offered no image until the
-- operator enables it or allows updates by default.
pub default_deny :
    (sdk : Sdk) (u : Undefined) (n : ScopedNodeId) (events : List Event) (s : System)
    (answer : ChipError) (endpoint : Option ℕ) (glue : Glue)
    → (led_orchestra_ota_provider_init true answer endpoint glue).1.provider ≡ s.provider
    → ever_enables u n events ≡ false
    → offered_to n (run sdk u events s).0 ≡ false
default_deny sdk u n events s answer endpoint glue started h =
    consent_comes_first sdk u n events s
      (subst (Denied n) started (provider_init-Denied n answer endpoint glue)) h
