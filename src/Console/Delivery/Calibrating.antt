-- ===== src/Console/Delivery/Calibrating.antt =====
-- From the console of the controller to a node, for the commands that change its clock and its calibration.
use led_orchestra.Base.{
  ℕ, ◌^◌, ◌≤◌, ◌<◌, ◌≡◌, refl, ap, ◌∙◌, Bool, true, arith, Option, some, List, [], ◌∷◌, ==_refl,
  if◌then◌else◌, length,
}
use led_orchestra.Platform.{EspErr, esp_ok, esp_err_invalid_arg, Kconfig, Nvs}
use led_orchestra.Scene.{Calibration}
use led_orchestra.Store.{unknown_override}
use led_orchestra.Renderer.{Renderer, set_calibration, sync_clock}
use led_orchestra.Cluster.{
  Payload, Update, applied, command_callback, handle_sync_clock, handle_set_calibration,
  expect_target, decode_payload, clock_field, calibration_field,
}
use led_orchestra.Console.{Outcome, returned, parse_u64, parse_u16, or_invalid_arg}
use led_orchestra.Console.Json.{Tuning}
use led_orchestra.Console.Unicast.{sync_clock_arguments, send_clock, sync_clock_handler}
use led_orchestra.Console.Calibration.{
  changes_something, set_calibration_arguments, send_calibration, set_calibration_handler,
}
use led_orchestra.Console.Objects.{json_object, payload_of, clock_fields}
use led_orchestra.Console.Fitting.{clock_json-json_object}
use led_orchestra.Console.Tunings.{tuning_fields}
use led_orchestra.Console.Tunings.Fits.{build_set_calibration_json-json_object}
use led_orchestra.Console.Decoding.{decode_payload-clock, decode_payload-tuning, tuned}
use led_orchestra.Console.Widths.{AllOf-some}
use led_orchestra.Console.Arguments.{TimeFits, sync_clock_arguments-Fit}
use led_orchestra.Console.Arguments.Tunings.{SomeChange, set_calibration_arguments-Changes}
use led_orchestra.Console.Arguments.Typed.{
  TypedRest, TypedTuning, set_calibration_arguments-TypedTuning,
}
use led_orchestra.Console.Delivery.{in_count, delivered, delivered-json, path}

module _ (nvs : Nvs) (k : Kconfig) (now light : ℕ) (to_payload : List ℕ → Payload) (g : Renderer)
    (f : nvs.Flash) where
  -- Where a call goes, and what the node there makes of it.
  abbrev pub arrived : Outcome → Option (ℕ × (EspErr × (Renderer × nvs.Flash) × List Update))
  arrived = delivered nvs k now light to_payload g f

  callback-clock :
      (p : Payload) (time : ℕ)
      → decode_payload clock_field p 0 ≡ some time
      → command_callback nvs k now light (path nvs k now light to_payload g f 2) p (g, f)
        ≡ (esp_ok, (sync_clock time now g, f), [])
  unfolding command_callback handle_sync_clock expect_target
  callback-clock p time h = rw (==_refl light, h) refl

  -- A `lo-sync-clock` whose arguments are read as a destination, the endpoint of the node and a time sets the clock of
  -- the node there to this time, if the SDK reads the object of the time as this field.
  -- The controller's time is a `uint64_t`.
  pub sync_clock_handler-delivered :
      (now_ms : ℕ) (arguments : List (List ℕ)) (destination time : ℕ)
      → 2 ≤ length arguments
      → length arguments ≤ 3
      → now_ms < 2 ^ 64
      → sync_clock_arguments now_ms arguments ≡ some (destination, light, time)
      → to_payload (json_object (clock_fields time)) ≡ payload_of (clock_fields time)
      → arrived (sync_clock_handler now_ms arguments)
        ≡ some (destination, (esp_ok, (sync_clock time now g, f), []))
  unfolding sync_clock_handler
  sync_clock_handler-delivered now_ms arguments destination time low high clock eq sdk =
      let fits = AllOf-some TimeFits _ _ (sync_clock_arguments-Fit now_ms arguments clock) eq in
      let sent = or_invalid_arg send_clock (sync_clock_arguments now_ms arguments) in
      ap (λ (b : Bool). arrived (if b then returned esp_err_invalid_arg else sent))
        (in_count 2 3 (length arguments) low high)
      ∙ ap (λ (o : Option (ℕ × ℕ × ℕ)). arrived (or_invalid_arg send_clock o)) eq
      ∙ delivered-json nvs k now light to_payload g f destination 2 _ _ _
          (clock_json-json_object time fits) sdk
      ∙ ap (λ (o : EspErr × (Renderer × nvs.Flash) × List Update). some (destination, o))
          (callback-clock (payload_of (clock_fields time)) time (decode_payload-clock time 0 fits))

  -- What a node does with a calibration.
  abbrev pub calibrated : Calibration → EspErr × (Renderer × nvs.Flash) × List Update
  calibrated c =
      if unknown_override c.palette_override
      then (esp_err_invalid_arg, (g, f), [])
      else applied nvs (set_calibration nvs c (g, f)) (
          record { attribute = 7; value = c.brightness_cap }
          ∷ record { attribute = 8; value = c.palette_override }
          ∷ record { attribute = 9; value = c.time_offset_ms }
          ∷ [])

  callback-calibration :
      (p : Payload) (c : Calibration)
      → decode_payload calibration_field p g.calibration ≡ some c
      → command_callback nvs k now light (path nvs k now light to_payload g f 3) p (g, f)
        ≡ calibrated c
  unfolding command_callback handle_set_calibration expect_target
  callback-calibration p c h = rw (==_refl light, h) refl

  -- A line whose arguments are read so sends the node the tuning.
  calibration-sent :
      (arguments : List (List ℕ)) (destination : ℕ) (t : Tuning)
      → 5 ≤ length arguments
      → length arguments ≤ 7
      → set_calibration_arguments arguments ≡ some (destination, light, t)
      → to_payload (json_object (tuning_fields t)) ≡ payload_of (tuning_fields t)
      → arrived (set_calibration_handler arguments)
        ≡ some (destination, calibrated (tuned t g.calibration))
  unfolding set_calibration_handler
  calibration-sent arguments destination t low high eq sdk =
      let (fits, changes) =
        AllOf-some SomeChange _ _ (set_calibration_arguments-Changes arguments) eq in
      let sent = or_invalid_arg send_calibration (set_calibration_arguments arguments) in
      ap (λ (b : Bool). arrived (if b then returned esp_err_invalid_arg else sent))
        (in_count 5 7 (length arguments) low high)
      ∙ ap (λ (o : Option (ℕ × ℕ × Tuning)). arrived (or_invalid_arg send_calibration o)) eq
      ∙ delivered-json nvs k now light to_payload g f destination 3 _ _ _
          (build_set_calibration_json-json_object t fits changes) sdk
      ∙ ap (λ (o : EspErr × (Renderer × nvs.Flash) × List Update). some (destination, o))
          (callback-calibration (payload_of (tuning_fields t)) (tuned t g.calibration)
            (decode_payload-tuning t g.calibration fits))

  rest_length :
      (rest : List (List ℕ)) (correction temperature : Option ℕ)
      → TypedRest rest correction temperature
      → length rest ≤ 2
  rest_length [] correction temperature h = omega arith
  rest_length (first ∷ []) correction temperature h = omega arith
  rest_length (first ∷ (second ∷ [])) correction temperature h = omega arith
  rest_length (first ∷ (second ∷ (third ∷ more))) correction temperature h = absurd h

  -- A `lo-set-calibration` that names a node and the endpoint of the light there makes that node set its calibration with
  -- the values that are typed, keeping its own for each of the time offset, the brightness cap, the palette
  -- override, the colour correction and the colour temperature that the operator typed `-` for, and for
  -- those of the last two that the line ends before; an unknown palette override is refused. Some value is
  -- typed, and the SDK reads the object of the values as these fields.
  pub set_calibration_handler-delivered :
      (node endpoint offset brightness palette : List ℕ) (rest : List (List ℕ)) (destination : ℕ)
      (t : Tuning)
      → parse_u64 node ≡ some destination
      → parse_u16 endpoint ≡ some light
      → TypedTuning offset brightness palette rest t
      → changes_something t ≡ true
      → to_payload (json_object (tuning_fields t)) ≡ payload_of (tuning_fields t)
      → arrived
          (set_calibration_handler (node ∷ (endpoint ∷ (offset ∷ (brightness ∷ (palette ∷ rest))))))
        ≡ some (destination, calibrated (tuned t g.calibration))
  set_calibration_handler-delivered node endpoint offset brightness palette rest destination t
        to_node to_light typed changes sdk =
      let line = node ∷ (endpoint ∷ (offset ∷ (brightness ∷ (palette ∷ rest)))) in
      let short = rest_length rest t.color_correction t.color_temperature typed.3 in
      calibration-sent line destination t (omega arith) (omega arith)
        (set_calibration_arguments-TypedTuning node endpoint offset brightness palette rest
          destination light t to_node to_light typed changes)
        sdk
