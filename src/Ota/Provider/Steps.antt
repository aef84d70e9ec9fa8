-- ===== src/Ota/Provider/Steps.antt =====
-- The OTA provider as the controller runs it: the provider of esp_matter_ota_provider.cpp and the cache of
-- esp_matter_ota_candidates.cpp, with the commands of the nodes and of the operator as events.
use led_orchestra.Base.{ℕ, Bool, false, ◌&&◌, ◌||◌, Option, none, some, List, [], ◌∷◌}
use led_orchestra.Ota.Candidates.{
  Cache, FetchAction, FetchResult, register_local_candidate, clear_local_candidates, candidate_task,
}
use led_orchestra.Ota.Sender.{OutputEvent, handle_transfer_session_output}
use led_orchestra.Ota.Provider.{
  Provider, ScopedNodeId, same_node, Command, ApplyUpdateAction, Undefined, selects,
  set_apply_update_action, set_delayed_query_action_time, set_delayed_apply_action_time,
  set_poll_interval, set_ota_allowed_default, remove_entry, enable_ota_for_node,
  disable_ota_for_node,
}
use led_orchestra.Ota.Provider.Handlers.{
  Sdk, Answers, Answer, silent, crash, status, query_image_response, apply_update_response,
  is_update_available, handle_query_image, fetch_image_done, handle_apply_update_request,
  handle_notify_update_applied,
}

pub record System : Type 0 where
  pub provider : Provider
  pub cache : Cache

-- An event, with what the SDK answers during it.
pub data Event : Type 0 where
  query_image :
      (answers : Answers) (allocated pending_valid sent : Bool) (command : Command)
      (action : FetchAction)
      → Event
  candidates_fetched : (answers : Answers) → Event
  apply_update : (command : Command) (token : List ℕ) (version : ℕ) → Event
  update_applied : (command : Command) (token : List ℕ) (version : ℕ) → Event
  session_output : (output : OutputEvent) → Event
  enable : (allocated : Bool) (node : ScopedNodeId) (only_once : Bool) → Event
  disable remove : (node : ScopedNodeId) → Event
  allow_by_default : (allowed : Bool) → Event
  choose_action : (action : ApplyUpdateAction) → Event
  delay_queries delay_applies poll : (time : ℕ) → Event
  register :
      (allocated : Bool) (vendor product version : ℕ) (version_str url : Option (List ℕ))
      (size min_applicable max_applicable : ℕ)
      → Event
  clear : Event

-- An answer, and the node that it goes to.
pub record Reply : Type 0 where
  pub to : ScopedNodeId
  pub answer : Answer

-- The callback runs in the candidate task, with what the search found.
abbrev pub after_search : Sdk → Answers → Provider → Option FetchResult → Answer × Provider
after_search sdk a p none = (silent, p)
after_search sdk a p (some r) = fetch_image_done sdk a r p

abbrev pub replied : ScopedNodeId → Cache → Answer × Provider → Option Reply × System
replied to cache (answer, p) =
    (some (record { to = to; answer = answer }), record { provider = p; cache = cache })

abbrev pub quiet : Cache → Provider → Option Reply × System
quiet cache p = (none, record { provider = p; cache = cache })

-- One event. The commands that come have a command handler, and what the sender asks of its session is left
-- out here.
unfoldable pub step : Sdk → Undefined → Event → System → Option Reply × System
step sdk u (query_image answers allocated pending_valid sent command action) s =
    let (answer, p, cache) =
      handle_query_image sdk answers allocated pending_valid sent command action s.provider
        s.cache in
    replied command.peer cache (answer, p)
step sdk u (candidates_fetched answers) s =
    replied s.provider.peer (candidate_task s.cache).1
      (after_search sdk answers s.provider (candidate_task s.cache).0)
step sdk u (apply_update command token version) s =
    replied command.peer s.cache
      (handle_apply_update_request (some command) token version s.provider)
step sdk u (update_applied command token version) s =
    replied command.peer s.cache
      (handle_notify_update_applied (some command) token version s.provider)
step sdk u (session_output output) s = quiet s.cache (record s.provider {
  bdx_sender = (handle_transfer_session_output output s.provider.bdx_sender).1;
})
step sdk u (enable allocated node only_once) s =
    quiet s.cache (enable_ota_for_node u allocated node only_once s.provider).1
step sdk u (disable node) s = quiet s.cache (disable_ota_for_node u node s.provider).1
step sdk u (remove node) s = quiet s.cache (remove_entry node s.provider).1
step sdk u (allow_by_default allowed) s = quiet s.cache (set_ota_allowed_default allowed s.provider)
step sdk u (choose_action action) s = quiet s.cache (set_apply_update_action action s.provider)
step sdk u (delay_queries time) s = quiet s.cache (set_delayed_query_action_time time s.provider)
step sdk u (delay_applies time) s = quiet s.cache (set_delayed_apply_action_time time s.provider)
step sdk u (poll time) s = quiet s.cache (set_poll_interval time s.provider)
step sdk u (register allocated vendor product version version_str url size lo hi) s =
    quiet
      (register_local_candidate allocated vendor product version version_str url size lo hi
        s.cache).1
      s.provider
step sdk u clear s = quiet (clear_local_candidates s.cache).1 s.provider

abbrev pub keep_reply : Option Reply → List Reply → List Reply
keep_reply none replies = replies
keep_reply (some r) replies = r ∷ replies

-- The replies of a run, and the system after it.
unfoldable pub run : Sdk → Undefined → List Event → System → List Reply × System
run sdk u [] s = ([], s)
run sdk u (event ∷ events) s =
    let (reply, t) = step sdk u event s in
    let (replies, end) = run sdk u events t in (keep_reply reply replies, end)

-- An answer that makes the node download an image.
abbrev pub is_offer : Answer → Bool
is_offer silent = false
is_offer crash = false
is_offer (status s) = false
is_offer (query_image_response s image delay) = is_update_available s
is_offer (apply_update_response action delay) = false

unfoldable pub offered_to : ScopedNodeId → List Reply → Bool
offered_to n [] = false
offered_to n (r ∷ replies) = (same_node r.to n && is_offer r.answer) || offered_to n replies

-- The events by which the operator lets a node update.
unfoldable pub enables : Undefined → ScopedNodeId → Event → Bool
enables u n (enable allocated node only_once) = selects u node n
enables u n (allow_by_default allowed) = allowed
enables u n other = false

unfoldable pub ever_enables : Undefined → ScopedNodeId → List Event → Bool
unfolding enables
ever_enables u n [] = false
ever_enables u n (event ∷ events) = enables u n event || ever_enables u n events
