-- ===== src/Renderer/Clock.antt =====
-- The clock that the nodes share: `led_orchestra_sync_clock` and the time of the render task.
use led_orchestra.Base.{ℕ, ◌+◌, ◌-◌, ◌%◌, ◌^◌, ◌<◌, ◌≤◌, ◌≡◌, arith}
use led_orchestra.Renderer.{Renderer, sync_clock}
use led_orchestra.Renderer.Task.{synchronized_ms}

-- A node that was told the controller's time `t` when its own clock read `then_ms` (below 2^64) computes,
-- at a later `now_ms`, the controller's time advanced by what elapsed, modulo 2^64.
pub synchronized_ms-sync_clock :
    (g : Renderer) (t then_ms now_ms : ℕ)
    → then_ms < 2 ^ 64
    → then_ms ≤ now_ms
    → synchronized_ms now_ms (sync_clock t then_ms g) ≡ (t + (now_ms - then_ms)) % 2 ^ 64
unfolding synchronized_ms sync_clock
synchronized_ms-sync_clock g t then_ms now_ms h later = omega arith

-- Two nodes told the controller's time `t` at the same instant agree on the time ever after, however
-- far apart their own clocks (below 2^64) are: `a` and `b` are the clocks at that instant, `elapsed` the time since.
pub clocks_agree :
    (g h : Renderer) (t a b elapsed : ℕ)
    → a < 2 ^ 64
    → b < 2 ^ 64
    → synchronized_ms (a + elapsed) (sync_clock t a g)
      ≡ synchronized_ms (b + elapsed) (sync_clock t b h)
unfolding synchronized_ms sync_clock
clocks_agree g h t a b elapsed ha hb = omega arith
