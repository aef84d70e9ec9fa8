-- ===== src/Console/Room.antt =====
-- What the commands of led_orchestra_console.cpp send: objects of numbers within their types, which fit
-- the buffers of the handlers.
use led_orchestra.Base.{
  ℕ, ◌^◌, ◌≤◌, ◌<◌, ◌≡◌, refl, sym, ◌⊎◌, inl, inr, Bool, true, false, Option, none, some, List,
  ◌++◌, arith, ◌==◌, if◌then◌else◌, length, length-append,
}
use mathlib.Core.Path.{subst}
use led_orchestra.Platform.{EspErr, esp_err_no_mem, esp_err_invalid_arg}
use led_orchestra.Libc.{codes, decimal}
use led_orchestra.Libc.Decimals.{length-digits}
use led_orchestra.Console.{Outcome, returned, invoked, reads, or_invalid_arg, or_no_mem}
use led_orchestra.Scene.{Scene, NodeConfig}
use led_orchestra.Console.Json.{Tuning, group_json}
use led_orchestra.Console.Unicast.{
  send_scene, set_scene_handler, set_node_config_arguments, send_node_config,
  set_node_config_handler, send_clock, sync_clock_handler, send_group, add_group_handler,
  read_config_handler, send_read, show_group_help_handler,
}
use led_orchestra.Console.Groups.{
  set_scene_group_handler, sync_clock_group_handler, scheduled_scene_group_handler,
}
use led_orchestra.Console.Calibration.{
  send_calibration, set_calibration_handler, set_calibration_group_handler,
}
use led_orchestra.Console.Widths.{AllOf}
use led_orchestra.Console.Objects.{
  Field, Fit, json_object, scene_fields, config_fields, clock_fields, formatted-fits,
}
use led_orchestra.Console.Fitting.{
  build_set_scene_json-json_object, node_config_json-json_object, clock_json-json_object,
}
use led_orchestra.Console.Tunings.{tuning_fields}
use led_orchestra.Console.Tunings.Fits.{Fit-tuning, build_set_calibration_json-json_object}
use led_orchestra.Console.Arguments.{
  SceneFits, ConfigFits, TimeFits, set_scene_arguments-Fit, set_scene_group_arguments-Fit,
  scheduled_scene_group_arguments-Fit, set_node_config_arguments-Fit, sync_clock_arguments-Fit,
  sync_clock_group_arguments-Fit,
}
use led_orchestra.Console.Arguments.Tunings.{
  SomeChange, GroupFits, set_calibration_arguments-Changes, set_calibration_group_arguments-Changes,
  add_group_arguments-Fit,
}
use led_orchestra.Console.Commands.{
  Command, set_scene, set_node_config, sync_clock, set_calibration, add_group, set_scene_group,
  sync_clock_group, scheduled_scene_group, set_calibration_group, show_group_help, read_config,
  Surroundings, run_command,
}

if-both : {A : Type 0} (P : A → Type 0) (b : Bool) (x y : A) → P x → P y → P (if b then x else y)
if-both P true x y hx hy = hx
if-both P false x y hx hy = hy

abbrev pub is_no_mem : EspErr → Bool
is_no_mem esp_err_no_mem = true
is_no_mem err = false

-- No lack of memory, and a payload of the orchestra's commands is an object of numbers within their types.
abbrev pub IsWellFormed : Outcome → Type 0
IsWellFormed (returned err) = is_no_mem err ≡ false
IsWellFormed (invoked i) =
    (i.cluster ≡ 4)
    ⊎ ((i.cluster ≡ 0xFFF1FC00) × ((fs : List Field) × Fit fs × (i.json ≡ json_object fs)))
IsWellFormed (reads request) = Unit

or_invalid_arg-IsWellFormed :
    {A : Type 0} (P : A → Type 0) (send : A → Outcome) (parsed : Option A)
    → AllOf P parsed
    → ((a : A) → P a → IsWellFormed (send a))
    → IsWellFormed (or_invalid_arg send parsed)
or_invalid_arg-IsWellFormed P send none all sent = refl
or_invalid_arg-IsWellFormed P send (some a) all sent = sent a all

sent_object :
    (send : List ℕ → Outcome) (built : Option (List ℕ)) (json : List ℕ)
    → built ≡ some json
    → IsWellFormed (send json)
    → IsWellFormed (or_no_mem send built)
sent_object send built json eq h =
    subst (λ (o : Option (List ℕ)). IsWellFormed (or_no_mem send o)) (sym eq) h

send_scene-IsWellFormed : (r : ℕ × ℕ × Scene) → SceneFits r → IsWellFormed (send_scene r)
send_scene-IsWellFormed (destination, endpoint, s) fits =
    sent_object _ _ _ (build_set_scene_json-json_object s fits)
      (inr (refl, (scene_fields s, fits, refl)))

send_node_config-IsWellFormed :
    (r : ℕ × ℕ × NodeConfig) → ConfigFits r → IsWellFormed (send_node_config r)
send_node_config-IsWellFormed (destination, endpoint, c) fits =
    sent_object _ _ _ (node_config_json-json_object c fits)
      (inr (refl, (config_fields c, fits, refl)))

send_clock-IsWellFormed : (r : ℕ × ℕ × ℕ) → TimeFits r → IsWellFormed (send_clock r)
send_clock-IsWellFormed (destination, endpoint, time) fits =
    sent_object _ _ _ (clock_json-json_object time fits)
      (inr (refl, (clock_fields time, (fits, tt), refl)))

send_calibration-IsWellFormed :
    (r : ℕ × ℕ × Tuning) → SomeChange r → IsWellFormed (send_calibration r)
send_calibration-IsWellFormed (destination, endpoint, t) (fits, changes) =
    sent_object _ _ _ (build_set_calibration_json-json_object t fits changes)
      (inr (refl, (tuning_fields t, Fit-tuning t fits, refl)))

group_json-room :
    (group_id : ℕ) (name : List ℕ)
    → group_id < 2 ^ 16
    → length name ≤ 16
    → (json : List ℕ) × (group_json group_id name ≡ some json)
unfolding group_json
group_json-room group_id name small short =
    let tail = codes ",\"1:STR\":\"" ++ (name ++ codes "\"}") in
    let text = codes "{\"0:U16\":" ++ (decimal group_id ++ tail) in
    let long : length text < 64 =
      rw (length-append (decimal group_id) tail, length-append name (codes "\"}"))
        (omega (arith, length-digits 5 20 group_id (omega arith) (omega arith))) in
    (text, formatted-fits 64 text (omega arith) long)

send_group-IsWellFormed : (r : ℕ × ℕ × ℕ × List ℕ) → GroupFits r → IsWellFormed (send_group r)
send_group-IsWellFormed (node_id, endpoint, group_id, name) (small, short) =
    let (json, eq) = group_json-room group_id name small short in sent_object _ _ json eq (inl refl)

send_read-IsWellFormed :
    (allocated : Bool)
    → allocated ≡ true
    → (r : ℕ × ℕ) → Unit {0}
    → IsWellFormed (send_read allocated r)
send_read-IsWellFormed true memory (node_id, endpoint) u = tt
send_read-IsWellFormed false memory (node_id, endpoint) u = absurd (ground arith)

AllOf-Unit : {A : Type 0} (o : Option A) → AllOf (λ a. Unit) o
AllOf-Unit none = tt
AllOf-Unit (some a) = tt

-- The guard on the count of the arguments, and the rest of a handler.
guarded :
    {A : Type 0} (P : A → Type 0) (send : A → Outcome) (bad : Bool) (err : EspErr)
    (parsed : Option A)
    → is_no_mem err ≡ false
    → AllOf P parsed
    → ((a : A) → P a → IsWellFormed (send a))
    → IsWellFormed (if bad then returned err else or_invalid_arg send parsed)
guarded P send bad err parsed mild all sent =
    if-both IsWellFormed bad (returned err) (or_invalid_arg send parsed) mild
      (or_invalid_arg-IsWellFormed P send parsed all sent)

guarded_scene :
    (bad : Bool) (sequence next : ℕ) (parsed : Option (ℕ × ℕ × Scene))
    → AllOf SceneFits parsed
    → let r : Outcome × ℕ =
        if bad
        then (returned esp_err_invalid_arg, sequence)
        else (or_invalid_arg send_scene parsed, next) in
      IsWellFormed r.0
guarded_scene bad sequence next parsed all =
    if-both (λ (r : Outcome × ℕ). IsWellFormed r.0) bad (returned esp_err_invalid_arg, sequence)
      (or_invalid_arg send_scene parsed, next) refl
      (or_invalid_arg-IsWellFormed SceneFits send_scene parsed all send_scene-IsWellFormed)

-- Whatever the operator types, no command fails for lack of room in its buffers, and what it sends to the cluster
-- of the orchestra is a JSON object of numbers that fit their types. Memory can be allocated,
-- the next sequence number is a `uint32_t` and the time a `uint64_t`.
pub run_command-IsWellFormed :
    (w : Surroundings) (command : Command) (arguments : List (List ℕ)) (sequence : ℕ)
    → w.allocated ≡ true
    → w.now_ms < 2 ^ 64
    → sequence < 2 ^ 32
    → IsWellFormed (run_command w command arguments sequence).0
unfolding run_command set_scene_handler set_node_config_handler sync_clock_handler add_group_handler
    read_config_handler show_group_help_handler set_scene_group_handler sync_clock_group_handler
    scheduled_scene_group_handler set_calibration_handler set_calibration_group_handler
run_command-IsWellFormed w set_scene arguments sequence memory clock small =
    guarded_scene _ sequence _ _ (set_scene_arguments-Fit arguments sequence small)
run_command-IsWellFormed w set_scene_group arguments sequence memory clock small =
    guarded_scene _ sequence _ _
      (set_scene_group_arguments-Fit w.group_node arguments sequence small)
run_command-IsWellFormed w scheduled_scene_group arguments sequence memory clock small =
    guarded_scene _ sequence _ _
      (scheduled_scene_group_arguments-Fit w.group_node w.now_ms arguments sequence small)
run_command-IsWellFormed w set_node_config arguments sequence memory clock small =
    if-both IsWellFormed (length arguments == 7)
      (or_invalid_arg send_node_config (set_node_config_arguments arguments))
      (returned esp_err_invalid_arg)
      (or_invalid_arg-IsWellFormed ConfigFits send_node_config _
        (set_node_config_arguments-Fit arguments) send_node_config-IsWellFormed)
      refl
run_command-IsWellFormed w sync_clock arguments sequence memory clock small =
    guarded TimeFits send_clock _ _ _ refl (sync_clock_arguments-Fit w.now_ms arguments clock)
      send_clock-IsWellFormed
run_command-IsWellFormed w sync_clock_group arguments sequence memory clock small =
    guarded TimeFits send_clock _ _ _ refl
      (sync_clock_group_arguments-Fit w.group_node w.now_ms arguments clock) send_clock-IsWellFormed
run_command-IsWellFormed w set_calibration arguments sequence memory clock small =
    guarded SomeChange send_calibration _ _ _ refl (set_calibration_arguments-Changes arguments)
      send_calibration-IsWellFormed
run_command-IsWellFormed w set_calibration_group arguments sequence memory clock small =
    guarded SomeChange send_calibration _ _ _ refl
      (set_calibration_group_arguments-Changes w.group_node arguments) send_calibration-IsWellFormed
run_command-IsWellFormed w add_group arguments sequence memory clock small =
    guarded GroupFits send_group _ _ _ refl (add_group_arguments-Fit arguments)
      send_group-IsWellFormed
run_command-IsWellFormed w show_group_help arguments sequence memory clock small = refl
run_command-IsWellFormed w read_config arguments sequence memory clock small =
    if-both IsWellFormed (length arguments == 2) _ (returned esp_err_invalid_arg)
      (or_invalid_arg-IsWellFormed (λ r. Unit) (send_read w.allocated) _ (AllOf-Unit _)
        (send_read-IsWellFormed w.allocated memory))
      refl
