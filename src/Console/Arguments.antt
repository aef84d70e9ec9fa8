-- ===== src/Console/Arguments.antt =====
-- The values that the commands of led_orchestra_console.cpp read from their arguments fit their widths.
pub mod Tunings
pub mod Typed
use led_orchestra.Base.{
  ℕ, ◌+◌, ◌^◌, ◌≤◌, ◌<◌, ◌≡◌, Bool, true, false, ◌||◌, Option, some, List, [], arith, leb, ◌==◌,
  if◌then◌else◌, ◌>>=◌, length,
}
use led_orchestra.Base.Words.{u64}
use led_orchestra.Console.{parse_u64, parse_u32, parse_u16, parse_u8, parse_rgb, argv, optional}
use led_orchestra.Scene.{Scene, NodeConfig}
use led_orchestra.Console.Unicast.{
  scene_arguments, set_scene_arguments, set_node_config_arguments, sync_clock_arguments,
}
use led_orchestra.Console.Groups.{
  set_scene_group_arguments, sync_clock_group_arguments, scheduled_scene_group_arguments,
}
use led_orchestra.Console.Widths.{
  AllOf, AllOf-bind, AllOf-some, parse_u64-fits, parse_u32-fits, parse_u16-fits, parse_u8-fits,
  parse_rgb-fits,
}
use led_orchestra.Console.Objects.{Fit, scene_fields, config_fields}

pub optional-bind :
    {A B : Type 0} (Q : A → Type 0) (P : B → Type 0) (given : Bool) (parsed : Option A)
    (default : A) (f : A → Option B)
    → ((a : A) → parsed ≡ some a → Q a)
    → Q default
    → ((a : A) → Q a → AllOf P (f a))
    → AllOf P (optional given parsed default >>= f)
optional-bind Q P true parsed default f read d h = AllOf-bind P parsed f λ a eq. h a (read a eq)
optional-bind Q P false parsed default f read d h = h default d

abbrev pub SceneFits : ℕ × ℕ × Scene → Type 0
SceneFits (destination, endpoint, s) = Fit (scene_fields s)

scene_arguments-Fit :
    (effect rgb speed brightness : List ℕ) (has_sequence : Bool) (number : List ℕ) (default : ℕ)
    (has_start : Bool) (start : List ℕ)
    → default < 2 ^ 32
    → AllOf
        (λ s. Fit (scene_fields s))
        (scene_arguments effect rgb speed brightness has_sequence number default has_start start)
unfolding scene_arguments
scene_arguments-Fit effect rgb speed brightness has_sequence number default has_start start small =
    let P : Scene → Type 0 = λ s. Fit (scene_fields s) in
    AllOf-bind P (parse_u8 effect) _ λ e he. AllOf-bind P (parse_rgb rgb) _ λ c hc.
      AllOf-bind P (parse_u8 speed) _ λ s hs. AllOf-bind P (parse_u8 brightness) _ λ b hb.
        optional-bind (λ q. q < 2 ^ 32) P has_sequence (parse_u32 number) default _
          (parse_u32-fits number) small
          λ q hq.
            optional-bind (λ t. t < 2 ^ 64) P has_start (parse_u64 start) 0 _ (parse_u64-fits start)
              (omega arith)
              λ t ht.
                let (red, green, blue) = parse_rgb-fits rgb c hc in
                (
                  parse_u8-fits effect e he,
                  (
                    red,
                    (
                      green,
                      (
                        blue,
                        (parse_u8-fits speed s hs, (parse_u8-fits brightness b hb, (hq, (ht, tt)))),
                      ),
                    ),
                  ),
                )

-- The fields that the commands read fit their widths.
pub set_scene_arguments-Fit :
    (arguments : List (List ℕ)) (sequence : ℕ)
    → sequence < 2 ^ 32
    → AllOf SceneFits (set_scene_arguments arguments sequence)
unfolding set_scene_arguments
set_scene_arguments-Fit arguments sequence small =
    let arg = argv arguments in
    AllOf-bind SceneFits (parse_u64 (arg 0)) _ λ destination hd.
      AllOf-bind SceneFits (parse_u16 (arg 1)) _ λ endpoint hp. AllOf-bind SceneFits _ _ λ s hs.
        AllOf-some (λ r. Fit (scene_fields r)) _ s
          (scene_arguments-Fit (arg 2) (arg 3) (arg 4) (arg 5) (leb 7 (length arguments)) (arg 6)
            sequence (leb 8 (length arguments)) (arg 7) small)
          hs

pub set_scene_group_arguments-Fit :
    (group_node : ℕ → ℕ) (arguments : List (List ℕ)) (sequence : ℕ)
    → sequence < 2 ^ 32
    → AllOf SceneFits (set_scene_group_arguments group_node arguments sequence)
unfolding set_scene_group_arguments
set_scene_group_arguments-Fit group_node arguments sequence small =
    let arg = argv arguments in
    AllOf-bind SceneFits (parse_u16 (arg 0)) _ λ group hg. AllOf-bind SceneFits _ _ λ s hs.
      AllOf-some (λ r. Fit (scene_fields r)) _ s
        (scene_arguments-Fit (arg 1) (arg 2) (arg 3) (arg 4) (leb 6 (length arguments)) (arg 5)
          sequence (leb 7 (length arguments)) (arg 6) small)
        hs

restarted :
    (s : Scene) (start : ℕ)
    → start < 2 ^ 64
    → Fit (scene_fields s)
    → Fit (scene_fields (record s { scheduled_start_ms = start }))
restarted s start h (e, (r, (g, (b, (sp, (br, (q, last))))))) =
    (e, (r, (g, (b, (sp, (br, (q, (h, tt))))))))

pub scheduled_scene_group_arguments-Fit :
    (group_node : ℕ → ℕ) (now_ms : ℕ) (arguments : List (List ℕ)) (sequence : ℕ)
    → sequence < 2 ^ 32
    → AllOf SceneFits (scheduled_scene_group_arguments group_node now_ms arguments sequence)
unfolding scheduled_scene_group_arguments
scheduled_scene_group_arguments-Fit group_node now_ms arguments sequence small =
    let arg = argv arguments in
    AllOf-bind SceneFits (parse_u16 (arg 0)) _ λ group hg.
      AllOf-bind SceneFits (parse_u64 (arg 1)) _ λ delay hd. AllOf-bind SceneFits _ _ λ s hs.
        restarted s (u64 (now_ms + delay)) (omega arith) (
          AllOf-some (λ r. Fit (scene_fields r)) _ s
            (scene_arguments-Fit (arg 2) (arg 3) (arg 4) (arg 5) (leb 7 (length arguments)) (arg 6)
              sequence false [] small)
            hs)

abbrev pub ConfigFits : ℕ × ℕ × NodeConfig → Type 0
ConfigFits (destination, endpoint, c) = Fit (config_fields c)

pub set_node_config_arguments-Fit :
    (arguments : List (List ℕ)) → AllOf ConfigFits (set_node_config_arguments arguments)
unfolding set_node_config_arguments
set_node_config_arguments-Fit arguments =
    let arg = argv arguments in
    let P = ConfigFits in
    AllOf-bind P (parse_u64 (arg 0)) _ λ destination hd.
      AllOf-bind P (parse_u16 (arg 1)) _ λ endpoint hp. AllOf-bind P (parse_u16 (arg 2)) _ λ id hi.
        AllOf-bind P (parse_u16 (arg 3)) _ λ start hs. AllOf-bind P (parse_u16 (arg 4)) _ λ len hl.
          AllOf-bind P (parse_u16 (arg 5)) _ λ total ht.
            AllOf-bind P (parse_u8 (arg 6)) _ λ gpio hg. (
              parse_u16-fits (arg 2) id hi,
              (
                parse_u16-fits (arg 3) start hs,
                (
                  parse_u16-fits (arg 4) len hl,
                  (parse_u16-fits (arg 5) total ht, (parse_u8-fits (arg 6) gpio hg, tt)),
                ),
              ),
            )

abbrev pub TimeFits : ℕ × ℕ × ℕ → Type 0
TimeFits (destination, endpoint, time) = time < 2 ^ 64

pub sync_clock_arguments-Fit :
    (now_ms : ℕ) (arguments : List (List ℕ))
    → now_ms < 2 ^ 64
    → AllOf TimeFits (sync_clock_arguments now_ms arguments)
unfolding sync_clock_arguments
sync_clock_arguments-Fit now_ms arguments small =
    let arg = argv arguments in
    AllOf-bind TimeFits (parse_u64 (arg 0)) _ λ destination hd.
      AllOf-bind TimeFits (parse_u16 (arg 1)) _ λ endpoint hp.
        optional-bind (λ t. t < 2 ^ 64) TimeFits (length arguments == 3) (parse_u64 (arg 2)) now_ms
          _ (parse_u64-fits (arg 2)) small λ time ht. ht

pub sync_clock_group_arguments-Fit :
    (group_node : ℕ → ℕ) (now_ms : ℕ) (arguments : List (List ℕ))
    → now_ms < 2 ^ 64
    → AllOf TimeFits (sync_clock_group_arguments group_node now_ms arguments)
unfolding sync_clock_group_arguments
sync_clock_group_arguments-Fit group_node now_ms arguments small =
    let arg = argv arguments in
    AllOf-bind TimeFits (parse_u16 (arg 0)) _ λ group hg.
      optional-bind (λ t. t < 2 ^ 64) TimeFits (length arguments == 2) (parse_u64 (arg 1)) now_ms _
        (parse_u64-fits (arg 1)) small λ time ht. ht
