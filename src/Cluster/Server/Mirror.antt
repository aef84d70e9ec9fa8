-- ===== src/Cluster/Server/Mirror.antt =====
-- The attributes of the cluster and the state of the renderer: led_orchestra_cluster.cpp with the promotion of
-- led_orchestra_renderer.cpp.
use led_orchestra.Base.{
  ℕ, ◌≡◌, refl, sym, ap, ◌∙◌, arith, inl, inr, Bool, true, false, not, ◌||◌, ◌&&◌, Option, none,
  some, List, [], ◌∷◌, ◌==◌, if◌then◌else◌, Bool-cases,
}
use led_orchestra.Scene.{Scene, NodeConfig, Calibration}
use led_orchestra.Platform.{EspErr, esp_fail, esp_err_invalid_arg, Kconfig, Nvs}
use led_orchestra.Store.{unknown_override}
use led_orchestra.Renderer.{
  Renderer, set_scene, set_node_config, set_calibration, apply_calibration_locked, sync_clock,
  is_known,
}
use led_orchestra.Renderer.Task.{Snapshot, promote}
use led_orchestra.Cluster.{
  CommandPath, Payload, Update, Outcome, applied, expect_target, decode_payload, scene_field,
  config_field, clock_field, calibration_field, handle_set_scene, handle_set_node_config,
  handle_sync_clock, handle_set_calibration, command_callback,
}
use led_orchestra.Cluster.Server.{Server, led_orchestra_cluster_create}

-- The values of the attributes after the calls that set them, the latest of each counting.
abbrev pub Values : Type 0
Values = ℕ → Option ℕ

abbrev pub told : List Update → Values → Values
told [] m = m
told (update ∷ updates) m =
    told updates
      (λ attribute. if update.attribute == attribute then some update.value else m attribute)

-- The scene that was accepted last: the pending one, if there is one, though it is not shown yet.
abbrev pub last_accepted : Renderer → Scene
last_accepted g = if g.has_pending then g.pending else g.scene

-- The attributes hold what the renderer was told: the effect and the sequence number are not those of the
-- active scene while another is pending.
abbrev pub Mirrors : Values → Renderer → Type 0
Mirrors m g =
    (m 0 ≡ some (last_accepted g).effect)
    × (m 1 ≡ some g.node.segment_start)
    × (m 2 ≡ some g.node.segment_len)
    × (m 3 ≡ some g.node.total_leds)
    × (m 4 ≡ some g.node.led_gpio)
    × (m 6 ≡ some (last_accepted g).sequence)
    × (m 7 ≡ some g.calibration.brightness_cap)
    × (m 8 ≡ some g.calibration.palette_override)
    × (m 9 ≡ some g.calibration.time_offset_ms)

-- What happens on a node: a command at a time, or the promotion of the pending scene.
pub data NodeEvent : Type 0 where
  commanded : ℕ → CommandPath → Payload → NodeEvent
  promoted : Snapshot → NodeEvent

abbrev pub created_values : EspErr × Option Server → Values
created_values (err, none) = λ attribute. none
created_values (err, some server) = told server.attributes (λ attribute. none)

module _ (nvs : Nvs) (k : Kconfig) (light : ℕ) where
  abbrev pub State : Type 0
  State = Values × (Renderer × nvs.Flash)

  abbrev pub answered : Values → Outcome nvs → State
  answered m (err, state, updates) = (told updates m, state)

  abbrev pub node_event : NodeEvent → State → State
  node_event (commanded now path p) (m, (g, f)) =
      answered m (command_callback nvs k now light path p (g, f))
  node_event (promoted s) (m, (g, f)) = (m, ((promote s g).0, f))

  abbrev pub run_node : List NodeEvent → State → State
  run_node [] state = state
  run_node (event ∷ events) state = run_node events (node_event event state)

  abbrev Kept : Values → Outcome nvs → Type 0
  Kept m r = Mirrors (told r.2 m) r.1.0

  module _ (m : Values) (g : Renderer) (f : nvs.Flash) (h : Mirrors m g) where
    set_scene-Kept :
        (s : Scene)
        → Kept m (
            applied nvs (set_scene nvs s (g, f)) (
              record { attribute = 0; value = s.effect }
              ∷ record { attribute = 6; value = s.sequence }
              ∷ []))
    unfolding applied set_scene
    set_scene-Kept s = elim (Bool-cases (is_known s.effect)) [
      | inl e ↦ elim (Bool-cases (s.scheduled_start_ms == 0)) [
        | inl d ↦ rw (e, d) (refl, h.1, h.2, h.3, h.4, refl, h.6, h.7, h.8)
        | inr d ↦ rw (e, d) (refl, h.1, h.2, h.3, h.4, refl, h.6, h.7, h.8)
      ]
      | inr e ↦ rw e h
    ]

    set_node_config-Kept :
        (c : NodeConfig)
        → Kept m (
            applied nvs (set_node_config nvs k c (g, f)) (
              record { attribute = 1; value = c.segment_start }
              ∷ record { attribute = 2; value = c.segment_len }
              ∷ record { attribute = 3; value = c.total_leds }
              ∷ record { attribute = 4; value = c.led_gpio }
              ∷ []))
    unfolding applied set_node_config
    set_node_config-Kept c =
        elim (Bool-cases
          ((c.segment_len == 0) || (c.total_leds == 0) || not (c.led_gpio == k.led_gpio))) [
            | inl e ↦ rw e h
            | inr e ↦ rw e (h.0, refl, refl, refl, refl, h.5, h.6, h.7, h.8)
          ]

    checked-Kept :
        (c : Calibration) (unknown : Bool)
        → Kept m (
            if unknown
            then (esp_err_invalid_arg, (g, f), [])
            else applied nvs (set_calibration nvs c (g, f)) (
                record { attribute = 7; value = c.brightness_cap }
                ∷ record { attribute = 8; value = c.palette_override }
                ∷ record { attribute = 9; value = c.time_offset_ms }
                ∷ []))
    unfolding applied set_calibration apply_calibration_locked
    checked-Kept c true = h
    checked-Kept c false = (h.0, h.1, h.2, h.3, h.4, h.5, refl, refl, refl)

    decoded-Kept {ℓ} :
        {A : Type ℓ} (target : Bool) (o : Option A) (after : A → Outcome nvs)
        → ((a : A) → Kept m (after a))
        → Kept m (
            if not target
            then (esp_fail, (g, f), [])
            else elim o [ none ↦ (esp_fail, (g, f), []) | some a ↦ after a ])
    decoded-Kept false o after kept = h
    decoded-Kept true none after kept = h
    decoded-Kept true (some a) after kept = kept a

    if-Kept :
        (test : Bool) (x y : Outcome nvs) → Kept m x → Kept m y → Kept m (if test then x else y)
    if-Kept true x y hx hy = hx
    if-Kept false x y hx hy = hy

    command_callback-Kept :
        (now : ℕ) (path : CommandPath) (p : Payload)
        → Kept m (command_callback nvs k now light path p (g, f))
    unfolding command_callback handle_set_scene handle_set_node_config handle_sync_clock
        handle_set_calibration sync_clock
    command_callback-Kept now path p =
        let pick = λ (id : ℕ). if-Kept (path.command_id == id) in
        let target = expect_target light path in
        pick 0 _ _ (decoded-Kept (target 0) (decode_payload scene_field p g.scene) _ set_scene-Kept)
          (pick 1 _ _
            (decoded-Kept (target 1) (decode_payload config_field p g.node) _ set_node_config-Kept)
            (pick 2 _ _ (decoded-Kept (target 2) (decode_payload clock_field p 0) _ (λ time. h)) (
              pick 3 _ _
                (decoded-Kept (target 3) (decode_payload calibration_field p g.calibration) _
                  (λ c. checked-Kept c (unknown_override c.palette_override)))
                h)))

    last_accepted-pending : g.has_pending ≡ true → last_accepted g ≡ g.pending
    last_accepted-pending e = rw e refl

    if-Mirrors :
        (test : Bool) (x : Renderer)
        → (test ≡ true → Mirrors m x)
        → Mirrors m (if test then x else g)
    if-Mirrors true x taken = taken refl
    if-Mirrors false x taken = h

    first_holds : (a b : Bool) → (a && b) ≡ true → a ≡ true
    first_holds a b both = ground arith

    promote-Mirrors : (s : Snapshot) → Mirrors m (promote s g).0
    unfolding promote
    promote-Mirrors s =
        if-Mirrors (g.has_pending && (g.pending.sequence == s.pending.sequence))
          (record g { scene = g.pending; has_pending = false })
          λ both.
            let same = last_accepted-pending (first_holds _ _ both) in
            (
              h.0 ∙ ap (λ (r : Scene). some r.effect) same,
              h.1,
              h.2,
              h.3,
              h.4,
              h.5 ∙ ap (λ (r : Scene). some r.sequence) same,
              h.6,
              h.7,
              h.8,
            )

  run_node-Mirrors :
      (events : List NodeEvent) (m : Values) (g : Renderer) (f : nvs.Flash)
      → Mirrors m g
      → let after = run_node events (m, (g, f)) in Mirrors after.0 after.1.0
  run_node-Mirrors [] m g f h = h
  run_node-Mirrors (commanded now path p ∷ events) m g f h =
      let r = command_callback nvs k now light path p (g, f) in
      run_node-Mirrors events (told r.2 m) r.1.0 r.1.1 (command_callback-Kept m g f h now path p)
  run_node-Mirrors (promoted s ∷ events) m g f h =
      run_node-Mirrors events m (promote s g).0 f (promote-Mirrors m g f h s)

  -- What `lo-read-config` reads: after the creation of the cluster and any commands, accepted or not, with
  -- promotions of the pending scene between them, the attributes hold the node's segment, strip and pin, the
  -- brightness cap, palette override and offset of its calibration, and the effect and the sequence number of the
  -- scene that it accepted last, also while that scene only waits as the pending one and another is
  -- shown. The SDK makes the cluster, nothing is pending at its creation, and an
  -- attribute holds the value that it was last given.
  pub attributes_mirror :
      (events : List NodeEvent) (g : Renderer) (f : nvs.Flash)
      → g.has_pending ≡ false
      → let server = led_orchestra_cluster_create true true g.scene g.node g.calibration in
        let after = run_node events (created_values server, (g, f)) in Mirrors after.0 after.1.0
  unfolding led_orchestra_cluster_create
  attributes_mirror events g f idle =
      let server = led_orchestra_cluster_create true true g.scene g.node g.calibration in
      let active : last_accepted g ≡ g.scene = rw idle refl in
      run_node-Mirrors events (created_values server) g f (
        ap (λ (r : Scene). some r.effect) (sym active),
        refl,
        refl,
        refl,
        refl,
        ap (λ (r : Scene). some r.sequence) (sym active),
        refl,
        refl,
        refl,
      )
