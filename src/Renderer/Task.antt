-- ===== src/Renderer/Task.antt =====
-- `render_task` of led_orchestra_renderer.cpp, cut where it takes and leaves `g_lock`: a pass copies the
-- globals, promotes a scheduled scene that is due, and draws. Commands of the Matter task may come
-- between any two of these steps.
use led_orchestra.Base.{ℕ, ◌+◌, Bool, true, false, ◌&&◌, List, [], ◌==◌, leb, if◌then◌else◌}
use led_orchestra.Base.Words.{u64}
use led_orchestra.Color.Policy.{identity_policy}
use led_orchestra.Scene.{Scene, NodeConfig, Calibration}
use led_orchestra.Platform.{Kconfig, Nvs, EspErr}
use led_orchestra.Renderer.{
  Renderer, initial_renderer, empty_scene, renderer_start, set_scene, set_node_config,
  set_calibration, sync_clock,
}
use led_orchestra.Renderer.Frame.{View, Pixel, frame, render_needed}

-- What the first critical section copies; `now_ms` is the synchronized time computed after it.
pub record Snapshot : Type 0 where
  pub view : View
  pub has_pending : Bool
  pub pending : Scene
  pub now_ms : ℕ

-- `static_cast<uint64_t>(static_cast<int64_t>(monotonic_ms()) + offset)`.
unfoldable pub synchronized_ms : ℕ → Renderer → ℕ
synchronized_ms monotonic_ms g = u64 (monotonic_ms + g.clock_offset_ms)

unfoldable pub take_snapshot : ℕ → Renderer → Snapshot
take_snapshot monotonic_ms g = record {
  view = record { scene = g.scene; node = g.node; policy = g.output_policy; calib = g.calibration };
  has_pending = g.has_pending;
  pending = g.pending;
  now_ms = synchronized_ms monotonic_ms g;
}

unfoldable pub is_due : Snapshot → Bool
is_due s = s.has_pending && leb s.pending.scheduled_start_ms s.now_ms

-- The second critical section: the re-check under the lock, and the scene that the pass goes on with.
unfoldable pub promote : Snapshot → Renderer → Renderer × Scene
promote s g =
    let promoted =
      if g.has_pending && (g.pending.sequence == s.pending.sequence)
      then record g { scene = g.pending; has_pending = false }
      else g in
    (promoted, promoted.scene)

-- Where the task stands between two critical sections.
pub data Phase : Type 0 where
  waiting : Phase
  promoting : Snapshot → Phase
  drawing : View → ℕ → Phase

-- The locals that outlive a pass, and the pixels that the last refresh put on the wire.
pub record Task : Type 0 where
  pub phase : Phase
  pub have_rendered_frame : Bool
  pub last : View
  pub shown : List Pixel

abbrev empty_view : View
empty_view = record {
  scene = empty_scene;
  node = record { node_id = 0; segment_start = 0; segment_len = 0; total_leds = 0; led_gpio = 0 };
  policy = identity_policy;
  calib = record {
    time_offset_ms = 0;
    brightness_cap = 0;
    palette_override = 0;
    color_correction = 0;
    color_temperature = 0;
  };
}

abbrev pub initial_task : Task
initial_task = record {
  phase = waiting;
  have_rendered_frame = false;
  last = empty_view;
  shown = [];
}

unfoldable pub draw : Kconfig → View → ℕ → Task → Task
draw k v now_ms t =
    if render_needed v t.have_rendered_frame t.last
    then record { phase = waiting; have_rendered_frame = true; last = v; shown = frame k v now_ms }
    else record t { phase = waiting }

-- One step of the task, at the monotonic time `now`.
unfoldable pub task_step : Kconfig → ℕ → Phase → Task → Renderer → Task × Renderer
task_step k now waiting t g =
    let s = take_snapshot now g in
    if is_due s
    then (record t { phase = promoting s }, g)
    else (record t { phase = drawing s.view s.now_ms }, g)
task_step k now (promoting s) t g =
    let (promoted, scene) = promote s g in
    (record t { phase = drawing (record s.view { scene = scene }) s.now_ms }, promoted)
task_step k now (drawing v now_ms) t g = (draw k v now_ms t, g)

-- What may happen next: a command, or the next step of the task.
pub data Event : Type 0 where
  scene_command : Scene → Event
  node_command : NodeConfig → Event
  calibration_command : Calibration → Event
  clock_command : ℕ → ℕ → Event
  task_event : ℕ → Event

module _ (nvs : Nvs) where
  pub record System : Type 0 where
    pub renderer : Renderer
    pub flash : nvs.Flash
    pub task : Task

  abbrev commanded : System → EspErr × Renderer × nvs.Flash → System
  commanded s (err, g, f) = record s { renderer = g; flash = f }

  unfoldable pub step : Kconfig → Event → System → System
  step k (scene_command scene) s = commanded s (set_scene nvs scene (s.renderer, s.flash))
  step k (node_command config) s = commanded s (set_node_config nvs k config (s.renderer, s.flash))
  step k (calibration_command calib) s =
      commanded s (set_calibration nvs calib (s.renderer, s.flash))
  step k (clock_command controller_time_ms now) s = record s {
    renderer = sync_clock controller_time_ms now s.renderer;
  }
  step k (task_event now) s =
      let (t, g) = task_step k now s.task.phase s.task s.renderer in
      record s { renderer = g; task = t }

  -- The system after `led_orchestra_renderer_start`.
  unfoldable pub booted : Kconfig → nvs.Flash → System
  booted k f = record {
    renderer = renderer_start nvs k f (initial_renderer k);
    flash = f;
    task = initial_task;
  }

  -- The systems that a boot and any interleaving of events lead to, if the events satisfy `Sent`.
  pub data Reachable (k : Kconfig) (Sent : Event → Type 0) : System → Type 0 where
    start : (f : nvs.Flash) → Reachable k Sent (booted k f)
    next : (e : Event) (s : System) → Sent e → Reachable k Sent s → Reachable k Sent (step k e s)
