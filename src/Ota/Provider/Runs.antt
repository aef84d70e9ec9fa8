-- ===== src/Ota/Provider/Runs.antt =====
-- The consent of the operator over the runs of the provider of esp_matter_ota_provider.cpp.
use led_orchestra.Base.{
  ◌≡◌, inl, inr, refl, sym, ◌∙◌, Bool, true, false, ◌&&◌, ◌||◌, Option, none, some, List, [], ◌∷◌,
  arith, ◌==◌, if◌then◌else◌, Option-cases,
}
use mathlib.Core.Path.{subst}
use mathlib.Core.Bool.{false≢true}
use led_orchestra.Platform.{EspErr, is_ok}
use led_orchestra.Ota.Candidates.{Cache, FetchResult, candidate_task}
use led_orchestra.Ota.Provider.{
  ScopedNodeId, same_node, RequestorEntry, Provider, find_entry, create_entry, remove_entry,
  Undefined, selects, allow, forbid, update_selected, enable_ota_for_node, disable_ota_for_node,
  set_apply_update_action, set_delayed_query_action_time, set_delayed_apply_action_time,
  set_poll_interval, set_ota_allowed_default,
}
use led_orchestra.Ota.Provider.Handlers.{may_update, Sdk, Answers, Answer}
use led_orchestra.Ota.Provider.Entries.{remove_first-denies, map-denies}
use led_orchestra.Ota.Provider.Consent.{Denied, Refused, no_offer}
use led_orchestra.Ota.Provider.Steps.{
  System, Event, query_image, candidates_fetched, apply_update, update_applied, session_output,
  enable, disable, remove, allow_by_default, choose_action, delay_queries, delay_applies, poll,
  register, clear, Reply, after_search, replied, step, keep_reply, run, is_offer, offered_to,
  enables, ever_enables,
}
use led_orchestra.Ota.Provider.Denial.{
  create_entry-Denied, handle_query_image-Refused, fetch_image_done-Refused,
  handle_apply_update_request-Refused, handle_notify_update_applied-Refused,
}
use led_orchestra.Ota.Provider.Consent.{with_sender-Denied}

if_second-Denied :
    (n : ScopedNodeId) (b : Bool) (x y : EspErr × Provider)
    → Denied n x.1
    → Denied n y.1
    → Denied n (if b then x else y).1
if_second-Denied n true x y dx dy = dx
if_second-Denied n false x y dx dy = dy

neither : (a b : Bool) → (a || b) ≡ false → (a ≡ false) × (b ≡ false)
neither true b h = absurd (false≢true (sym h))
neither false b h = (refl, h)

selects-same :
    (u : Undefined) (n m k : ScopedNodeId)
    → same_node m n ≡ true
    → selects u k n ≡ false
    → selects u k m ≡ false
unfolding selects
selects-same u n m k h t = ground arith

keeps_node :
    (n : ScopedNodeId) (b : Bool) (e d : RequestorEntry)
    → d.node_id ≡ e.node_id
    → same_node (if b then d else e).node_id n ≡ true
    → same_node e.node_id n ≡ true
keeps_node n true e d k h = subst (λ m. same_node m n ≡ true) k h
keeps_node n false e d k h = h

keeps_denied :
    (b : Bool) (e d : RequestorEntry)
    → may_update e ≡ false
    → (b ≡ true → may_update d ≡ false)
    → may_update (if b then d else e) ≡ false
keeps_denied true e d h k = k refl
keeps_denied false e d h k = h

update_selected-Denied :
    (u : Undefined) (n k : ScopedNodeId) (f : RequestorEntry → RequestorEntry) (p : Provider)
    → ((e : RequestorEntry) → (f e).node_id ≡ e.node_id)
    → ((e : RequestorEntry)
        → same_node e.node_id n ≡ true
        → selects u k e.node_id ≡ true
        → may_update e ≡ false
        → may_update (f e) ≡ false)
    → Denied n p
    → Denied n (update_selected u k f p).1
update_selected-Denied u n k f p keeps safe d = record {
  entries =
      map-denies n (λ e. if selects u k e.node_id then f e else e) p.requestors
        (λ e. keeps_node n (selects u k e.node_id) e (f e) (keeps e))
        (λ e same h. keeps_denied (selects u k e.node_id) e (f e) h (λ t. safe e same t h))
        d.entries;
  by_default = d.by_default;
}

allow-node : (only_once : Bool) (e : RequestorEntry) → (allow only_once e).node_id ≡ e.node_id
allow-node true e = refl
allow-node false e = refl

allow_selected-Denied :
    (u : Undefined) (n k : ScopedNodeId) (only_once : Bool) (p : Provider)
    → selects u k n ≡ false
    → Denied n p
    → Denied n (update_selected u k (allow only_once) p).1
allow_selected-Denied u n k only_once p other d =
    update_selected-Denied u n k (allow only_once) p (allow-node only_once)
      (λ e same t h. absurd (false≢true (sym (selects-same u n e.node_id k same other) ∙ t))) d

enable_ota_for_node-Denied :
    (u : Undefined) (n : ScopedNodeId) (allocated : Bool) (k : ScopedNodeId) (only_once : Bool)
    (p : Provider)
    → selects u k n ≡ false
    → Denied n p
    → Denied n (enable_ota_for_node u allocated k only_once p).1
unfolding enable_ota_for_node
enable_ota_for_node-Denied u n allocated k only_once p other d =
    let dq = create_entry-Denied n allocated k p d in
    if_second-Denied n (k.node == u.node) _ _ (allow_selected-Denied u n k only_once p other d) (
      if_second-Denied n (is_ok (create_entry allocated k p).0) _ _
        (allow_selected-Denied u n k only_once _ other dq) dq)

disable_ota_for_node-Denied :
    (u : Undefined) (n k : ScopedNodeId) (p : Provider)
    → Denied n p
    → Denied n (disable_ota_for_node u k p).1
unfolding disable_ota_for_node
disable_ota_for_node-Denied u n k p d =
    update_selected-Denied u n k forbid p (λ e. refl) (λ e same t h. refl) d

remove_entry-Denied :
    (n k : ScopedNodeId) (p : Provider) → Denied n p → Denied n (remove_entry k p).1
unfolding remove_entry
remove_entry-Denied n k p d = record {
  entries = elim (Option-cases (find_entry k p.requestors)) [
    | inl h ↦ rw (h, remove_entry) d.entries
    | inr (e, h) ↦ rw (h, remove_entry) (remove_first-denies n k p.requestors d.entries)
  ];
  by_default = elim (Option-cases (find_entry k p.requestors)) [
    | inl h ↦ rw (h, remove_entry) d.by_default
    | inr (e, h) ↦ rw (h, remove_entry) d.by_default
  ];
}

set_ota_allowed_default-Denied :
    (n : ScopedNodeId) (allowed : Bool) (p : Provider)
    → allowed ≡ false
    → Denied n p
    → Denied n (set_ota_allowed_default allowed p)
unfolding set_ota_allowed_default
set_ota_allowed_default-Denied n allowed p h d = record { entries = d.entries; by_default = h }

-- What is asked of a step.
abbrev offers : ScopedNodeId → Option Reply → Bool
offers n none = false
offers n (some r) = same_node r.to n && is_offer r.answer

abbrev StepRefused : ScopedNodeId → Option Reply × System → Type 0
StepRefused n r = Denied n r.1.provider × (offers n r.0 ≡ false)

same_node-swap : (a b : ScopedNodeId) → same_node a b ≡ same_node b a
same_node-swap a b = ground arith

replied-StepRefused :
    (n to : ScopedNodeId) (cache : Cache) (r : Answer × Provider)
    → Refused n to r
    → StepRefused n (replied to cache r)
replied-StepRefused n to cache (answer, p) (d, h) = (d, h)

after_search-Refused :
    (n : ScopedNodeId) (sdk : Sdk) (a : Answers) (p : Provider) (found : Option FetchResult)
    → Denied n p
    → Refused n p.peer (after_search sdk a p found)
after_search-Refused n sdk a p none d = (d, no_offer _)
after_search-Refused n sdk a p (some r) d = fetch_image_done-Refused n sdk a r p d

step-StepRefused :
    (sdk : Sdk) (u : Undefined) (n : ScopedNodeId) (event : Event) (s : System)
    → enables u n event ≡ false
    → Denied n s.provider
    → StepRefused n (step sdk u event s)
unfolding step enables set_apply_update_action set_delayed_query_action_time
    set_delayed_apply_action_time set_poll_interval
step-StepRefused sdk u n (query_image answers allocated pending_valid sent command action) s h d =
    let (dq, o) =
      handle_query_image-Refused n sdk answers allocated pending_valid sent command action
        s.provider s.cache d in
    (dq, o)
step-StepRefused sdk u n (candidates_fetched answers) s h d =
    replied-StepRefused n s.provider.peer (candidate_task s.cache).1 _
      (after_search-Refused n sdk answers s.provider (candidate_task s.cache).0 d)
step-StepRefused sdk u n (apply_update command token version) s h d =
    replied-StepRefused n command.peer s.cache _
      (handle_apply_update_request-Refused n command token version s.provider d)
step-StepRefused sdk u n (update_applied command token version) s h d =
    replied-StepRefused n command.peer s.cache _
      (handle_notify_update_applied-Refused n command token version s.provider d)
step-StepRefused sdk u n (session_output output) s h d = (with_sender-Denied n _ s.provider d, refl)
step-StepRefused sdk u n (enable allocated node only_once) s h d =
    (enable_ota_for_node-Denied u n allocated node only_once s.provider h d, refl)
step-StepRefused sdk u n (disable node) s h d =
    (disable_ota_for_node-Denied u n node s.provider d, refl)
step-StepRefused sdk u n (remove node) s h d = (remove_entry-Denied n node s.provider d, refl)
step-StepRefused sdk u n (allow_by_default allowed) s h d =
    (set_ota_allowed_default-Denied n allowed s.provider h d, refl)
step-StepRefused sdk u n (choose_action action) s h d =
    (record { entries = d.entries; by_default = d.by_default }, refl)
step-StepRefused sdk u n (delay_queries time) s h d =
    (record { entries = d.entries; by_default = d.by_default }, refl)
step-StepRefused sdk u n (delay_applies time) s h d =
    (record { entries = d.entries; by_default = d.by_default }, refl)
step-StepRefused sdk u n (poll time) s h d =
    (record { entries = d.entries; by_default = d.by_default }, refl)
step-StepRefused sdk u n (register allocated vendor product version version_str url size lo hi) s h
      d =
    (d, refl)
step-StepRefused sdk u n clear s h d = (d, refl)

kept :
    (n : ScopedNodeId) (reply : Option Reply) (replies : List Reply)
    → offers n reply ≡ false
    → offered_to n replies ≡ false
    → offered_to n (keep_reply reply replies) ≡ false
unfolding offered_to
kept n none replies h k = k
kept n (some r) replies h k = ground arith

-- A node that no entry and no default allows is offered no image, whatever the nodes and the session do,
-- until the operator enables it or allows updates by default.
pub consent_comes_first :
    (sdk : Sdk) (u : Undefined) (n : ScopedNodeId) (events : List Event) (s : System)
    → Denied n s.provider
    → ever_enables u n events ≡ false
    → offered_to n (run sdk u events s).0 ≡ false
unfolding run ever_enables offered_to
consent_comes_first sdk u n [] s d h = refl
consent_comes_first sdk u n (event ∷ events) s d h =
    let (here, later) = neither (enables u n event) (ever_enables u n events) h in
    let (dt, o) = step-StepRefused sdk u n event s here d in
    kept n _ _ o (consent_comes_first sdk u n events (step sdk u event s).1 dt later)
