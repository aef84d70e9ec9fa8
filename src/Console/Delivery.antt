-- ===== src/Console/Delivery.antt =====
-- From the console of the controller to the renderer of a node: led_orchestra_console.cpp, what the SDK does to the
-- JSON, and led_orchestra_cluster.cpp.
pub mod Calibrating
use led_orchestra.Base.{
  ℕ, ◌+◌, ◌^◌, ◌≤◌, ◌<◌, ◌≡◌, refl, ap, ◌∙◌, Bool, false, ◌||◌, Option, none, some, List, [], ◌∷◌,
  arith, ltb, ◌==◌, ==_refl, if◌then◌else◌, length,
}
use led_orchestra.Base.Words.{u32}
use led_orchestra.Platform.{EspErr, esp_err_invalid_arg, Kconfig, Nvs}
use led_orchestra.Scene.{Scene, NodeConfig}
use led_orchestra.Renderer.{Renderer, set_scene, set_node_config}
use led_orchestra.Cluster.{
  Payload, CommandPath, Update, applied, command_callback, handle_set_scene, handle_set_node_config,
  expect_target, decode_payload, scene_field, config_field,
}
use led_orchestra.Console.{
  Outcome, returned, invoked, reads, or_invalid_arg, or_no_mem, send_invoke,
}
use led_orchestra.Console.Unicast.{
  set_scene_arguments, send_scene, set_scene_handler, set_node_config_arguments, send_node_config,
  set_node_config_handler,
}
use led_orchestra.Console.Objects.{json_object, payload_of, scene_fields, config_fields}
use led_orchestra.Console.Fitting.{build_set_scene_json-json_object, node_config_json-json_object}
use led_orchestra.Console.Decoding.{decode_payload-scene, decode_payload-config}
use led_orchestra.Console.Widths.{AllOf-some}
use led_orchestra.Console.Arguments.{
  SceneFits, ConfigFits, set_scene_arguments-Fit, set_node_config_arguments-Fit,
}

-- The count of the arguments is right.
pub in_count : (least most n : ℕ) → least ≤ n → n ≤ most → (ltb n least || ltb most n) ≡ false
in_count least most n low high = ground arith

-- `to_payload` is the JSON-to-TLV conversion of the SDK; the node has the endpoint `light`.
module _ (nvs : Nvs) (k : Kconfig) (now light : ℕ) (to_payload : List ℕ → Payload) (g : Renderer)
    (f : nvs.Flash) where
  -- Where a call goes, and what the node there makes of it.
  abbrev pub delivered : Outcome → Option (ℕ × (EspErr × (Renderer × nvs.Flash) × List Update))
  delivered (returned err) = none
  delivered (reads request) = none
  delivered (invoked i) = some (
    i.destination,
    command_callback nvs k now light
        (record { endpoint_id = i.endpoint; cluster_id = i.cluster; command_id = i.command })
        (to_payload i.json) (g, f),
  )

  pub delivered-json :
      (destination command : ℕ) (built : Option (List ℕ)) (json : List ℕ) (p : Payload)
      → built ≡ some json
      → to_payload json ≡ p
      → delivered (or_no_mem (send_invoke destination light command) built)
        ≡ some (
          destination,
          command_callback nvs k now light
              (record { endpoint_id = light; cluster_id = 0xFFF1FC00; command_id = command })
              p
              (g, f),
        )
  delivered-json destination command built json p eq h =
      ap (λ (o : Option (List ℕ)). delivered (or_no_mem (send_invoke destination light command) o))
        eq
      ∙ ap
          (λ q. some (
            destination,
            command_callback nvs k now light
                (record { endpoint_id = light; cluster_id = 0xFFF1FC00; command_id = command }) q
                (g, f),
          ))
          h

  abbrev pub path : ℕ → CommandPath
  path command = record { endpoint_id = light; cluster_id = 0xFFF1FC00; command_id = command }

  callback-scene :
      (p : Payload) (s : Scene)
      → decode_payload scene_field p g.scene ≡ some s
      → command_callback nvs k now light (path 0) p (g, f)
        ≡ applied nvs (set_scene nvs s (g, f)) (
            record { attribute = 0; value = s.effect }
            ∷ record { attribute = 6; value = s.sequence }
            ∷ [])
  unfolding command_callback handle_set_scene expect_target
  callback-scene p s h = rw (==_refl light, h) refl

  -- A `lo-set-scene` whose arguments are read as a destination, the endpoint of the node and a scene makes the node there
  -- set exactly this scene, and takes a sequence number. The count of the arguments is right, the next
  -- sequence number is a `uint32_t`, and the SDK reads the object of the scene's fields as these fields.
  pub set_scene_handler-delivered :
      (arguments : List (List ℕ)) (sequence destination : ℕ) (s : Scene)
      → 6 ≤ length arguments
      → length arguments ≤ 8
      → sequence < 2 ^ 32
      → set_scene_arguments arguments sequence ≡ some (destination, light, s)
      → to_payload (json_object (scene_fields s)) ≡ payload_of (scene_fields s)
      → let r = set_scene_handler arguments sequence in
        (delivered r.0
          ≡ some (
            destination,
            applied nvs (set_scene nvs s (g, f)) (
                record { attribute = 0; value = s.effect }
                ∷ record { attribute = 6; value = s.sequence }
                ∷ []),
          ))
        × (r.1 ≡ u32 (sequence + 1))
  unfolding set_scene_handler
  set_scene_handler-delivered arguments sequence destination s low high small eq sdk =
      let fits = AllOf-some SceneFits _ _ (set_scene_arguments-Fit arguments sequence small) eq in
      let bad = returned esp_err_invalid_arg in
      let sent : Outcome × ℕ =
        (or_invalid_arg send_scene (set_scene_arguments arguments sequence), u32 (sequence + 1)) in
      let counted =
        ap (λ (b : Bool). if b then (bad, sequence) else sent)
          (in_count 6 8 (length arguments) low high) in
      (
        ap (λ (r : Outcome × ℕ). delivered r.0) counted
            ∙ ap (λ (o : Option (ℕ × ℕ × Scene)). delivered (or_invalid_arg send_scene o)) eq
            ∙ delivered-json destination 0 _ _ _ (build_set_scene_json-json_object s fits) sdk
            ∙ ap (λ (o : EspErr × (Renderer × nvs.Flash) × List Update). some (destination, o))
                (callback-scene (payload_of (scene_fields s)) s
                  (decode_payload-scene s g.scene fits)),
        ap (λ (r : Outcome × ℕ). r.1) counted,
      )

  callback-config :
      (p : Payload) (c : NodeConfig)
      → decode_payload config_field p g.node ≡ some c
      → command_callback nvs k now light (path 1) p (g, f)
        ≡ applied nvs (set_node_config nvs k c (g, f)) (
            record { attribute = 1; value = c.segment_start }
            ∷ record { attribute = 2; value = c.segment_len }
            ∷ record { attribute = 3; value = c.total_leds }
            ∷ record { attribute = 4; value = c.led_gpio }
            ∷ [])
  unfolding command_callback handle_set_node_config expect_target
  callback-config p c h = rw (==_refl light, h) refl

  -- A `lo-set-node-config` whose arguments are read as a destination, the endpoint of the node and a configuration makes
  -- the node there set exactly this configuration, if the SDK reads the object of its fields as these fields.
  pub set_node_config_handler-delivered :
      (arguments : List (List ℕ)) (destination : ℕ) (c : NodeConfig)
      → length arguments ≡ 7
      → set_node_config_arguments arguments ≡ some (destination, light, c)
      → to_payload (json_object (config_fields c)) ≡ payload_of (config_fields c)
      → delivered (set_node_config_handler arguments)
        ≡ some (
          destination,
          applied nvs (set_node_config nvs k c (g, f)) (
              record { attribute = 1; value = c.segment_start }
              ∷ record { attribute = 2; value = c.segment_len }
              ∷ record { attribute = 3; value = c.total_leds }
              ∷ record { attribute = 4; value = c.led_gpio }
              ∷ []),
        )
  unfolding set_node_config_handler
  set_node_config_handler-delivered arguments destination c count eq sdk =
      let fits = AllOf-some ConfigFits _ _ (set_node_config_arguments-Fit arguments) eq in
      let sent = or_invalid_arg send_node_config (set_node_config_arguments arguments) in
      ap (λ (n : ℕ). delivered (if n == 7 then sent else returned esp_err_invalid_arg)) count
      ∙ ap (λ (o : Option (ℕ × ℕ × NodeConfig)). delivered (or_invalid_arg send_node_config o)) eq
      ∙ delivered-json destination 1 _ _ _ (node_config_json-json_object c fits) sdk
      ∙ ap (λ (o : EspErr × (Renderer × nvs.Flash) × List Update). some (destination, o))
          (callback-config (payload_of (config_fields c)) c (decode_payload-config c g.node fits))
