-- ===== src/Console.antt =====
-- matter-prototype/controller-node/main/led_orchestra_console.cpp: the commands that the operator types on the
-- controller to drive the nodes. The arguments of a command are those behind its name, as texts.
pub mod Json
pub mod Unicast
pub mod Groups
pub mod Calibration
pub mod Commands
pub mod Reading
pub mod Widths
pub mod Objects
pub mod Fitting
pub mod Tunings
pub mod Decoding
pub mod Delivery
pub mod Arguments
pub mod Room
pub mod Attributes
use led_orchestra.Base.{
  ℕ, ◌+◌, ◌-◌, ◌*◌, ◌%◌, ◌^◌, Bool, true, false, not, ◌&&◌, ◌||◌, Option, none, some, List, [], ◌∷◌,
  ltb, leb, ◌==◌, if◌then◌else◌, ◌>>=◌, get_or,
}
use led_orchestra.Base.Words.{u8, u32}
use led_orchestra.Libc.{Parsed, strtoull, strtoll, strtoul}
use led_orchestra.Platform.{EspErr, esp_err_invalid_arg, esp_err_no_mem}

abbrev pub is_empty : List ℕ → Bool
is_empty [] = true
is_empty (c ∷ text) = false

-- A number and no more.
abbrev pub whole_number : Parsed → Option ℕ
whole_number p = if p.failed || not p.consumed || not (is_empty p.rest) then none else some p.value

abbrev pub at_most : ℕ → Option ℕ → Option ℕ
at_most most none = none
at_most most (some parsed) = if ltb most parsed then none else some parsed

unfoldable pub parse_u64 : List ℕ → Option ℕ
parse_u64 value = whole_number (strtoull 0 value)

unfoldable pub parse_u32 : List ℕ → Option ℕ
parse_u32 value = at_most (2 ^ 32 - 1) (parse_u64 value)

unfoldable pub parse_u16 : List ℕ → Option ℕ
parse_u16 value = at_most (2 ^ 16 - 1) (parse_u64 value)

unfoldable pub parse_u8 : List ℕ → Option ℕ
parse_u8 value = at_most (2 ^ 8 - 1) (parse_u64 value)

-- A signed number is its bit pattern: below INT32_MIN or above INT32_MAX are those in the middle.
abbrev pub whole_i32 : Parsed → Option ℕ
whole_i32 p =
    if p.failed
      || not p.consumed
      || not (is_empty p.rest)
      || (leb (2 ^ 31) p.value && ltb p.value (2 ^ 64 - 2 ^ 31))
    then none
    else some (u32 p.value)

unfoldable pub parse_i32_bits : List ℕ → Option ℕ
parse_i32_bits text = whole_i32 (strtoll 0 text)

unfoldable pub arg_is_keep : List ℕ → Bool
arg_is_keep (c ∷ []) = c == b'-'
arg_is_keep text = false

-- One of the three steps of `parse_rgb`: two characters in base 16; only the end is checked.
unfoldable pub parse_byte : ℕ → ℕ → Option ℕ
parse_byte high low =
    let p = strtoul 16 (high ∷ (low ∷ [])) in if is_empty p.rest then some (u8 p.value) else none

unfoldable pub parse_rgb : List ℕ → Option (ℕ × ℕ × ℕ)
unfolding parse_byte
parse_rgb (a ∷ (b ∷ (c ∷ (d ∷ (e ∷ (f ∷ [])))))) = do
  red ← parse_byte a b
  green ← parse_byte c d
  blue ← parse_byte e f
  some (red, green, blue)
parse_rgb hex = none

-- The three bytes side by side, so `|` is a sum.
unfoldable pub parse_rgb_packed : List ℕ → Option ℕ
unfolding parse_rgb
parse_rgb_packed hex = do rgb ← parse_rgb hex; some (rgb.0 * 2 ^ 16 + rgb.1 * 2 ^ 8 + rgb.2)

abbrev pub argv : List (List ℕ) → ℕ → List ℕ
argv arguments i = get_or arguments i []

-- An argument that may be left out: what it is parsed as if it is given, else the default.
abbrev pub optional : {A : Type 0} → Bool → Option A → A → Option A
optional given parsed default = if given then parsed else some default

-- A call of the SDK's `send_invoke_cluster_command`.
pub record Invocation : Type 0 where
  pub destination : ℕ
  pub endpoint : ℕ
  pub cluster : ℕ
  pub command : ℕ
  pub json : List ℕ

-- A call of the SDK's `send_read_attr_command`: the endpoints, clusters and attributes of its paths.
pub record ReadRequest : Type 0 where
  pub node : ℕ
  pub endpoints : List ℕ
  pub clusters : List ℕ
  pub attributes : List ℕ

-- What a handler comes to: an error of its own, or the call whose answer it returns.
pub data Outcome : Type 0 where
  returned : EspErr → Outcome
  invoked : Invocation → Outcome
  reads : ReadRequest → Outcome

abbrev pub k_cluster_id : ℕ
k_cluster_id = 0xFFF1FC00

abbrev pub k_endpoint_id_hint : ℕ
k_endpoint_id_hint = 1

abbrev pub k_group_all_nodes : ℕ
k_group_all_nodes = 1

-- `send_invoke` to any cluster.
abbrev pub send_invoke_to : ℕ → ℕ → ℕ → ℕ → List ℕ → Outcome
send_invoke_to destination endpoint cluster command json = invoked (record {
  destination = destination;
  endpoint = endpoint;
  cluster = cluster;
  command = command;
  json = json;
})

-- `send_invoke` to the cluster of the orchestra.
abbrev pub send_invoke : ℕ → ℕ → ℕ → List ℕ → Outcome
send_invoke destination endpoint command json =
    send_invoke_to destination endpoint k_cluster_id command json

-- The rest of a handler behind the parsing of its arguments.
abbrev pub or_invalid_arg : {A : Type 0} → (A → Outcome) → Option A → Outcome
or_invalid_arg send none = returned esp_err_invalid_arg
or_invalid_arg send (some a) = send a

-- The rest of a handler behind the building of its JSON.
abbrev pub or_no_mem : (List ℕ → Outcome) → Option (List ℕ) → Outcome
or_no_mem send none = returned esp_err_no_mem
or_no_mem send (some json) = send json
