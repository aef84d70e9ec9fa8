-- ===== src/Ota/Provider/Keys.antt =====
-- One entry a node, over the runs of the provider of esp_matter_ota_provider.cpp.
use led_orchestra.Base.{
  ◌≡◌, inl, inr, refl, ap, ap₂, ◌∙◌, Bool, true, false, not, ◌&&◌, Option, none, some, List, [],
  ◌∷◌, map, arith, ◌==◌, if◌then◌else◌, Bool-cases, Option-cases,
}
use led_orchestra.Platform.{EspErr, is_ok}
use led_orchestra.Ota.Candidates.{FetchResult, candidate_task}
use led_orchestra.Ota.Provider.{
  ScopedNodeId, same_node, RequestorEntry, Provider, find_entry, create_entry, remove_entry,
  remove_first, Undefined, selects, allow, forbid, update_selected, enable_ota_for_node,
  disable_ota_for_node, set_apply_update_action, set_delayed_query_action_time,
  set_delayed_apply_action_time, set_poll_interval, set_ota_allowed_default,
}
use led_orchestra.Ota.Provider.Handlers.{Sdk, Answers}
use led_orchestra.Ota.Provider.Entries.{Distinct}
use led_orchestra.Ota.Provider.Nodes.{
  nodes, Keeps, fetch_image_done-Keeps, handle_apply_update_request-Keeps,
  handle_notify_update_applied-Keeps, handle_query_image-nodes,
}
use led_orchestra.Ota.Provider.Steps.{
  System, Event, query_image, candidates_fetched, apply_update, update_applied, session_output,
  enable, disable, remove, allow_by_default, choose_action, delay_queries, delay_applies, poll,
  register, clear, after_search, step, run,
}

unfoldable absent : ScopedNodeId → List ScopedNodeId → Bool
absent n [] = true
absent n (m ∷ ms) = not (same_node m n) && absent n ms

unfoldable all_different : List ScopedNodeId → Bool
all_different [] = true
all_different (m ∷ ms) = absent m ms && all_different ms

find_entry-absent :
    (n : ScopedNodeId) (es : List RequestorEntry)
    → find_entry n es ≡ none
    → absent n (nodes es) ≡ true
unfolding find_entry absent
find_entry-absent n [] h = refl
find_entry-absent n (e ∷ es) h = ground (arith, find_entry-absent n es)

absent-find_entry :
    (n : ScopedNodeId) (es : List RequestorEntry)
    → absent n (nodes es) ≡ true
    → find_entry n es ≡ none
unfolding find_entry absent
absent-find_entry n [] h = refl
absent-find_entry n (e ∷ es) h = ground (arith, absent-find_entry n es)

all_different-Distinct : (es : List RequestorEntry) → all_different (nodes es) ≡ true → Distinct es
unfolding all_different Distinct
all_different-Distinct [] h = tt
all_different-Distinct (e ∷ es) h =
    (absent-find_entry e.node_id es (ground arith), all_different-Distinct es (ground arith))

abbrev Keyed : Provider → Type 0
Keyed p = all_different (nodes p.requestors) ≡ true

same-Keyed : (p q : Provider) → nodes q.requestors ≡ nodes p.requestors → Keyed p → Keyed q
same-Keyed p q h k = ap all_different h ∙ k

create_entry-Keyed :
    (allocated : Bool) (n : ScopedNodeId) (p : Provider)
    → Keyed p
    → Keyed (create_entry allocated n p).1
unfolding create_entry all_different
create_entry-Keyed allocated n p k = elim (Option-cases (find_entry n p.requestors)) [
  | inl h ↦
      let missing = find_entry-absent n p.requestors h in
      elim (Bool-cases allocated) [
        | inl t ↦ rw (h, create_entry, t, missing) k
        | inr f ↦ rw (h, create_entry, f) k
      ]
  | inr (e, h) ↦ rw (h, create_entry) k
]

absent-remove_first :
    (n m : ScopedNodeId) (es : List RequestorEntry)
    → absent n (nodes es) ≡ true
    → absent n (nodes (remove_first m es)) ≡ true
unfolding absent remove_first
absent-remove_first n m [] h = refl
absent-remove_first n m (e ∷ es) h = ground (arith, absent-remove_first n m es)

all_different-remove_first :
    (m : ScopedNodeId) (es : List RequestorEntry)
    → all_different (nodes es) ≡ true
    → all_different (nodes (remove_first m es)) ≡ true
unfolding all_different remove_first
all_different-remove_first m [] h = refl
all_different-remove_first m (e ∷ es) h =
    ground (arith, all_different-remove_first m es, absent-remove_first e.node_id m es)

remove_entry-Keyed : (n : ScopedNodeId) (p : Provider) → Keyed p → Keyed (remove_entry n p).1
unfolding remove_entry
remove_entry-Keyed n p k = elim (Option-cases (find_entry n p.requestors)) [
  | inl h ↦ rw (h, remove_entry) k
  | inr (e, h) ↦ rw (h, remove_entry) (all_different-remove_first n p.requestors k)
]

update_one :
    (b : Bool) (only_once : Bool) (e : RequestorEntry)
    → (if b then allow only_once e else e).node_id ≡ e.node_id
update_one true true e = refl
update_one true false e = refl
update_one false only_once e = refl

forbid_one : (b : Bool) (e : RequestorEntry) → (if b then forbid e else e).node_id ≡ e.node_id
forbid_one true e = refl
forbid_one false e = refl

nodes-map :
    (f : RequestorEntry → RequestorEntry) (es : List RequestorEntry)
    → ((e : RequestorEntry) → (f e).node_id ≡ e.node_id)
    → nodes (map f es) ≡ nodes es
nodes-map f [] h = refl
nodes-map f (e ∷ es) h = ap₂ (λ n ns. n ∷ ns) (h e) (nodes-map f es h)

allow_selected-Keyed :
    (u : Undefined) (n : ScopedNodeId) (only_once : Bool) (p : Provider)
    → Keyed p
    → Keyed (update_selected u n (allow only_once) p).1
allow_selected-Keyed u n only_once p k =
    ap all_different (
      nodes-map (λ e. if selects u n e.node_id then allow only_once e else e) p.requestors
        (λ e. update_one (selects u n e.node_id) only_once e))
    ∙ k

if-Keyed :
    (b : Bool) (x y : EspErr × Provider) → Keyed x.1 → Keyed y.1 → Keyed (if b then x else y).1
if-Keyed true x y kx ky = kx
if-Keyed false x y kx ky = ky

enable_ota_for_node-Keyed :
    (u : Undefined) (allocated : Bool) (n : ScopedNodeId) (only_once : Bool) (p : Provider)
    → Keyed p
    → Keyed (enable_ota_for_node u allocated n only_once p).1
unfolding enable_ota_for_node
enable_ota_for_node-Keyed u allocated n only_once p k =
    let kq = create_entry-Keyed allocated n p k in
    if-Keyed (n.node == u.node) _ _ (allow_selected-Keyed u n only_once p k) (
      if-Keyed (is_ok (create_entry allocated n p).0) _ _
        (allow_selected-Keyed u n only_once (create_entry allocated n p).1 kq) kq)

disable_ota_for_node-Keyed :
    (u : Undefined) (n : ScopedNodeId) (p : Provider)
    → Keyed p
    → Keyed (disable_ota_for_node u n p).1
unfolding disable_ota_for_node
disable_ota_for_node-Keyed u n p k =
    ap all_different (
      nodes-map (λ e. if selects u n e.node_id then forbid e else e) p.requestors
        (λ e. forbid_one (selects u n e.node_id) e))
    ∙ k

after_search-Keeps :
    (sdk : Sdk) (a : Answers) (p : Provider) (found : Option FetchResult)
    → Keeps p (after_search sdk a p found)
after_search-Keeps sdk a p none = refl
after_search-Keeps sdk a p (some r) = fetch_image_done-Keeps sdk a r p

step-Keyed :
    (sdk : Sdk) (u : Undefined) (event : Event) (s : System)
    → Keyed s.provider
    → Keyed (step sdk u event s).1.provider
unfolding step set_apply_update_action set_delayed_query_action_time set_delayed_apply_action_time
    set_poll_interval set_ota_allowed_default
step-Keyed sdk u (query_image answers allocated pending_valid sent command action) s k =
    ap all_different (
      handle_query_image-nodes sdk answers allocated pending_valid sent command action s.provider
        s.cache)
    ∙ create_entry-Keyed allocated command.peer s.provider k
step-Keyed sdk u (candidates_fetched answers) s k =
    ap all_different (after_search-Keeps sdk answers s.provider (candidate_task s.cache).0) ∙ k
step-Keyed sdk u (apply_update command token version) s k =
    ap all_different (handle_apply_update_request-Keeps command token version s.provider) ∙ k
step-Keyed sdk u (update_applied command token version) s k =
    ap all_different (handle_notify_update_applied-Keeps command token version s.provider) ∙ k
step-Keyed sdk u (session_output output) s k = k
step-Keyed sdk u (enable allocated node only_once) s k =
    enable_ota_for_node-Keyed u allocated node only_once s.provider k
step-Keyed sdk u (disable node) s k = disable_ota_for_node-Keyed u node s.provider k
step-Keyed sdk u (remove node) s k = remove_entry-Keyed node s.provider k
step-Keyed sdk u (allow_by_default allowed) s k = k
step-Keyed sdk u (choose_action action) s k = k
step-Keyed sdk u (delay_queries time) s k = k
step-Keyed sdk u (delay_applies time) s k = k
step-Keyed sdk u (poll time) s k = k
step-Keyed sdk u (register allocated vendor product version version_str url size lo hi) s k = k
step-Keyed sdk u clear s k = k

run-Keyed :
    (sdk : Sdk) (u : Undefined) (events : List Event) (s : System)
    → Keyed s.provider
    → Keyed (run sdk u events s).1.provider
unfolding run
run-Keyed sdk u [] s k = k
run-Keyed sdk u (event ∷ events) s k =
    run-Keyed sdk u events (step sdk u event s).1 (step-Keyed sdk u event s k)

-- From a provider without entries, whatever the nodes, the session and the operator do, no node ever has
-- two entries.
pub run-Distinct :
    (sdk : Sdk) (u : Undefined) (events : List Event) (s : System)
    → s.provider.requestors ≡ []
    → Distinct (run sdk u events s).1.provider.requestors
unfolding all_different
run-Distinct sdk u events s h =
    all_different-Distinct _ (run-Keyed sdk u events s (ap (λ es. all_different (nodes es)) h))
