-- ===== src/Lib.antt =====
-- The firmware of an LED node of LED Orchestra, as far as it decides what a strip shows: every node
-- drives one segment of a virtual strip, and draws its pixels as a pure function of the active scene,
-- its place in the strip and the time that the controller shares. And the part of the controller that
-- drives the nodes: the commands of its console, and the OTA provider that offers them a new firmware,
-- with its candidates, its sender and its download.
--
-- The parts and their files:
-- * matter-prototype/led-node/main/led_color.h is `Color`: the 8-bit colour arithmetic, HSV conversion, blending and palettes of the
--   built-in backend; `Color.Policy` is the output policy. The other children are proofs.
-- * matter-prototype/led-node/main/led_orchestra_renderer.h is `Scene`: the scene, the node configuration and the calibration.
-- * matter-prototype/led-node/main/led_orchestra_effects.cpp and .h, with the effect ids of
--   matter-prototype/common/led_orchestra_matter.h, is
--   `Effects`: `Effects.Registry` and `Effects.Palettes` are the two tables and their lookups,
--   `Effects.Field` the helpers, `Effects.Classic`, `Effects.Ambient` and `Effects.Party` the effects,
--   and `Effects` itself the dispatch of led_orchestra_render_effect. The other children are proofs.
-- * matter-prototype/led-node/main/led_orchestra_config_store.cpp is `Store`: the three records that survive a power cycle.
--   `Store.Layout` has their packed bytes, `Store` the checks, the loaders and the savers.
-- * matter-prototype/led-node/main/led_orchestra_renderer.cpp is `Renderer`: the globals behind the lock and the commands that change
--   them; `Renderer.Frame` has the pixels of one frame, and `Renderer.Task` the render task.
-- * matter-prototype/led-node/main/led_orchestra_cluster.cpp is `Cluster`: the handlers of the commands, from what the TLV reader of the
--   Matter SDK answers to the calls of the renderer and the updates of the attributes. `Cluster.Server`
--   is the creation of the cluster.
-- * matter-prototype/controller-node/main/led_orchestra_console.cpp is `Console`: the parsers and what a handler
--   comes to. `Console.Json` builds the payloads, `Console.Unicast`, `Console.Groups` and
--   `Console.Calibration` are the handlers, and `Console.Commands` the table of the commands. The
--   other children are proofs; `Console.Delivery` follows a command into the handlers of `Cluster`.
-- * `Libc` is what that code uses of the C library: strtoull and its kin, and the decimals of snprintf.
-- * matter-prototype/controller-node/components/lo_ota_provider is `Ota`. src/esp_matter_ota_candidates.cpp is
--   `Ota.Candidates`: the images that the operator registered, and their searches.
--   src/esp_matter_ota_http_downloader.cpp is `Ota.Download`, src/esp_matter_ota_bdx_sender.cpp is `Ota.Sender`: the
--   events of a BDX session over the answers of the SDK, with what is asked of it as a list of effects.
--   src/esp_matter_ota_provider.cpp is `Ota.Provider`, with its command handlers in
--   `Ota.Provider.Handlers`; `Ota.Provider.Steps` runs the provider and the candidates on the commands of
--   the nodes and of the operator. matter-prototype/controller-node/main/led_orchestra_ota_provider.cpp is `Ota.Access`, the
--   access-control entries, `Ota.Commands`, the commands of the operator's console, and `Ota.Startup`, the start. The other
--   children are proofs.
-- * `Platform` is what comes from outside the repository: the error codes, the non-volatile storage
--   and the checksum of ESP-IDF as a parameter `Nvs` with the laws that the stores rely on, and the
--   settings of the build. `Base` has the names that all share, `Examples` runs at concrete inputs.
--
-- How they interact: a handler decodes a command over the values that the node has and hands it to the
-- renderer. It changes the globals and, if it is durable, calls a saver; at start the
-- loaders fill the globals. A pass of the render task copies the globals, promotes a scheduled scene
-- that is due, asks the effects for each pixel of the segment, sends it through the output policy and
-- hands it to the driver. A frame is the sequence of the calls of led_strip_set_pixel. On the
-- controller a line of the console is parsed, printed as JSON and sent to a node or to a group of nodes,
-- where the SDK makes it the payload that the cluster's handler decodes; the conversion is a
-- parameter of the theorems that cross it. A QueryImage makes an entry for the node and queues a search; the search task
-- finds a candidate and calls the provider back, which answers if the operator consented, and hands the
-- URL to the sender. The sender starts the download when the session opens, and answers each query of the
-- node with a block of it.
--
-- Numbers: the unsigned integers of the source are natural numbers with every cast and every
-- wrap-around that can occur written out (`u8`, `u16`, `u32`, `u64` of `Base.Words`); a signed integer
-- is its bit pattern. Loops are structural recursion over their count, or over the list of the answers
-- that a library gives them, and then the call is `waiting` when the list ends. Only the printing of a
-- decimal has fuel: 20 digits, which are enough for a word of 64 bits. A text is a list of bytes.
--
-- Interleaving: the task takes the lock twice in a pass, to copy the globals and to promote. `Phase`
-- says where a pass stands, an event is a command or the next step of the task, and
-- `Reachable` holds of what a boot and any events lead to.
--
-- Not modelled: the Wi-Fi ingress of the controller and the start-up of the applications, which are mostly
-- calls of the SDK, and what the status commands print; the random numbers, the locks and the memory of the SDK; the FastLED backend, which
-- only forwards to a library; creating the strip device and the tasks; delays and log output.
pub mod Base
pub mod Platform
pub mod Libc
pub mod Console
pub mod Color
pub mod Scene
pub mod Effects
pub mod Store
pub mod Renderer
pub mod Cluster
pub mod Ota
pub mod Examples
