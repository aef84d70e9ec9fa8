-- ===== src/Console/Attributes.antt =====
-- `read_config_handler` of led_orchestra_console.cpp and the updates of the attributes of led_orchestra_cluster.cpp.
use led_orchestra.Base.{
  ℕ, ◌≡◌, refl, ap, ◌∙◌, inl, inr, Bool, true, false, not, ◌&&◌, ◌||◌, Option, none, some, List, [],
  ◌∷◌, ◌==◌, if◌then◌else◌, length, replicate, ==_refl, Bool-cases,
}
use led_orchestra.Platform.{EspErr, esp_fail, is_ok, Kconfig, Nvs}
use led_orchestra.Store.{unknown_override}
use led_orchestra.Renderer.{Renderer}
use led_orchestra.Cluster.{
  CommandPath, Payload, Update, Outcome, applied, expect_target, decode_payload, scene_field,
  config_field, clock_field, calibration_field, handle_set_scene, handle_set_node_config,
  handle_sync_clock, handle_set_calibration, command_callback,
}
use led_orchestra.Console
use led_orchestra.Console.{
  ReadRequest, returned, invoked, reads, k_cluster_id, parse_u64, parse_u16, or_invalid_arg,
}
use led_orchestra.Console.Unicast.{read_config_handler, read_attributes}

abbrev pub contains : ℕ → List ℕ → Bool
contains attribute [] = false
contains attribute (a ∷ attributes) = (a == attribute) || contains attribute attributes

-- Each update is of one of the attributes.
abbrev pub AllAmong : List ℕ → List Update → Type 0
AllAmong attributes [] = Unit
AllAmong attributes (update ∷ updates) =
    (contains update.attribute attributes ≡ true) × AllAmong attributes updates

-- One of the paths that three lists make together, of endpoints, clusters and attributes, is this one.
abbrev pub asks : ℕ → ℕ → ℕ → List ℕ → List ℕ → List ℕ → Bool
asks endpoint cluster attribute (e ∷ es) (c ∷ cs) (a ∷ attributes) =
    ((e == endpoint) && (c == cluster) && (a == attribute))
    || asks endpoint cluster attribute es cs attributes
asks endpoint cluster attribute [] cs attributes = false
asks endpoint cluster attribute (e ∷ es) [] attributes = false
asks endpoint cluster attribute (e ∷ es) (c ∷ cs) [] = false

-- The cluster of LED Orchestra.
abbrev pub orchestra_cluster : ℕ
orchestra_cluster = 0xFFF1FC00

-- Each update is of an attribute that the request asks for, on this endpoint and in the cluster of LED Orchestra.
abbrev pub AllAsked : ℕ → ReadRequest → List Update → Type 0
AllAsked endpoint request [] = Unit
AllAsked endpoint request (update ∷ updates) =
    (asks endpoint orchestra_cluster update.attribute request.endpoints request.clusters
        request.attributes
      ≡ true)
    × AllAsked endpoint request updates

-- The outcome is a request to the node whose paths have those of the updates, on this endpoint, among them.
abbrev pub Requests : ℕ → ℕ → List Update → Console.Outcome → Type 0
Requests node endpoint updates (returned err) = ⊥
Requests node endpoint updates (invoked i) = ⊥
Requests node endpoint updates (reads request) =
    (request.node ≡ node) × AllAsked endpoint request updates

-- Of lists that repeat one endpoint and one cluster, the attributes alone count.
asks-replicate :
    (endpoint cluster attribute : ℕ) (attributes : List ℕ)
    → asks endpoint cluster attribute
        (replicate (length attributes) endpoint)
        (replicate (length attributes) cluster)
        attributes
      ≡ contains attribute attributes
asks-replicate endpoint cluster attribute [] = refl
asks-replicate endpoint cluster attribute (a ∷ attributes) =
    rw (==_refl endpoint, ==_refl cluster)
      (ap (λ b. (a == attribute) || b) (asks-replicate endpoint cluster attribute attributes))

-- What `lo-read-config` requests.
abbrev request_to : ℕ → ℕ → ReadRequest
request_to node endpoint = record {
  node = node;
  endpoints = replicate 10 endpoint;
  clusters = replicate 10 k_cluster_id;
  attributes = read_attributes;
}

among-AllAsked :
    (node endpoint : ℕ) (updates : List Update)
    → AllAmong read_attributes updates
    → AllAsked endpoint (request_to node endpoint) updates
among-AllAsked node endpoint [] among = tt
among-AllAsked node endpoint (update ∷ updates) (one, among) = (
  asks-replicate endpoint orchestra_cluster update.attribute read_attributes ∙ one,
  among-AllAsked node endpoint updates among,
)

read_config_handler-Requests :
    (node endpoint : List ℕ) (destination light : ℕ) (updates : List Update)
    → parse_u64 node ≡ some destination
    → parse_u16 endpoint ≡ some light
    → AllAmong read_attributes updates
    → Requests destination light updates (read_config_handler true (node ∷ (endpoint ∷ [])))
unfolding read_config_handler
read_config_handler-Requests node endpoint destination light updates to_node to_endpoint among =
    rw (to_node, to_endpoint) (refl, among-AllAsked destination light updates among)

module _ (nvs : Nvs) where
  decoded-AllAmong {ℓ} :
      {A : Type ℓ} (state : Renderer × nvs.Flash) (target : Bool) (o : Option A)
      (after : A → Outcome nvs)
      → ((a : A) → AllAmong read_attributes (after a).2)
      → let r : Outcome nvs =
          if not target
          then (esp_fail, state, [])
          else elim o [ none ↦ (esp_fail, state, []) | some a ↦ after a ] in
        AllAmong read_attributes r.2
  decoded-AllAmong state false o after h = tt
  decoded-AllAmong state true none after h = tt
  decoded-AllAmong state true (some a) after h = h a

  applied-AllAmong :
      (r : EspErr × Renderer × nvs.Flash) (us : List Update)
      → AllAmong read_attributes us
      → AllAmong read_attributes (applied nvs r us).2
  unfolding applied
  applied-AllAmong (err, g, f) us h = elim (Bool-cases (is_ok err)) [
    | inl e ↦ rw e h
    | inr e ↦ rw e tt
  ]

  abbrev Reads : Outcome nvs → Type 0
  Reads r = AllAmong read_attributes r.2

  if-Reads : (test : Bool) (x y : Outcome nvs) → Reads x → Reads y → Reads (if test then x else y)
  if-Reads true x y hx hy = hx
  if-Reads false x y hx hy = hy

  set_scene-Reads :
      (light : ℕ) (path : CommandPath) (p : Payload) (g : Renderer) (f : nvs.Flash)
      → Reads (handle_set_scene nvs light path p (g, f))
  unfolding handle_set_scene
  set_scene-Reads light path p g f =
      decoded-AllAmong (g, f) (expect_target light path 0) (decode_payload scene_field p g.scene) _
        (λ s. applied-AllAmong _ _ (refl, (refl, tt)))

  set_node_config-Reads :
      (k : Kconfig) (light : ℕ) (path : CommandPath) (p : Payload) (g : Renderer) (f : nvs.Flash)
      → Reads (handle_set_node_config nvs k light path p (g, f))
  unfolding handle_set_node_config
  set_node_config-Reads k light path p g f =
      decoded-AllAmong (g, f) (expect_target light path 1) (decode_payload config_field p g.node) _
        (λ c. applied-AllAmong _ _ (refl, (refl, (refl, (refl, tt)))))

  sync_clock-Reads :
      (now light : ℕ) (path : CommandPath) (p : Payload) (g : Renderer) (f : nvs.Flash)
      → Reads (handle_sync_clock nvs now light path p (g, f))
  unfolding handle_sync_clock
  sync_clock-Reads now light path p g f =
      decoded-AllAmong (g, f) (expect_target light path 2) (decode_payload clock_field p 0) _
        (λ time. tt)

  set_calibration-Reads :
      (light : ℕ) (path : CommandPath) (p : Payload) (g : Renderer) (f : nvs.Flash)
      → Reads (handle_set_calibration nvs light path p (g, f))
  unfolding handle_set_calibration
  set_calibration-Reads light path p g f =
      decoded-AllAmong (g, f) (expect_target light path 3)
        (decode_payload calibration_field p g.calibration) _
        (λ c.
          if-Reads (unknown_override c.palette_override) _ _ tt
            (applied-AllAmong _ _ (refl, (refl, (refl, tt)))))

  -- A `lo-read-config` that names a node and the endpoint of the light there asks that node, if the buffers can be
  -- allocated, for the path of every attribute that a command, whatever its path and payload, may have
  -- updated on it: this endpoint, the cluster of LED Orchestra and the attribute.
  pub read_config_handler-AllAmong :
      (k : Kconfig) (now light : ℕ) (path : CommandPath) (p : Payload) (g : Renderer)
      (f : nvs.Flash) (node endpoint : List ℕ) (destination : ℕ)
      → parse_u64 node ≡ some destination
      → parse_u16 endpoint ≡ some light
      → Requests destination light
          (command_callback nvs k now light path p (g, f)).2
          (read_config_handler true (node ∷ (endpoint ∷ [])))
  unfolding command_callback
  read_config_handler-AllAmong k now light path p g f node endpoint destination to_node
        to_endpoint =
      let pick = λ (id : ℕ). if-Reads (path.command_id == id) in
      read_config_handler-Requests node endpoint destination light _ to_node to_endpoint (
        pick 0 _ _ (set_scene-Reads light path p g f) (
          pick 1 _ _ (set_node_config-Reads k light path p g f) (
            pick 2 _ _ (sync_clock-Reads now light path p g f)
              (pick 3 _ _ (set_calibration-Reads light path p g f) tt))))
