-- ===== src/Ota/Provider/Nodes.antt =====
-- The nodes of the entries of esp_matter_ota_provider.cpp, under the handlers.
use led_orchestra.Base.{
  ℕ, ◌≡◌, inl, inr, refl, sym, ap, ap₂, ◌∙◌, Bool, true, false, not, Option, none, some, List, [],
  ◌∷◌, arith, ◌==◌, ==→eq, leb, length, if◌then◌else◌, Bool-cases,
}
use led_orchestra.Platform.{is_ok}
use led_orchestra.Ota.Candidates.{
  Cache, FetchAction, FetchResult, not_available, available, fetch_ota_candidate,
}
use led_orchestra.Ota.Sender.{initialize_transfer, set_ota_image_url}
use led_orchestra.Ota.Provider.{
  ScopedNodeId, same_node, RequestorEntry, Provider, find_entry, put_entry, create_entry,
  QueryStatus, busy, Command,
}
use led_orchestra.Ota.Provider.Handlers.{
  may_update, Sdk, Answers, Answer, respond, busy_delay, write_entry, start_transfer, offer_image,
  offer_named, offer_from, uri_or_empty, file_name, file_name_capacity, answer_entry,
  is_update_available, send_query_image_response, valid_command, write_fetched, query_status,
  fetched, ImageFields, fetch_image_done, is_pending, accept_query, handle_query_image,
  print_overruns, apply_matched, token_matches, finish_update, handle_apply_update_request,
  handle_notify_update_applied,
}

abbrev pub nodes : List RequestorEntry → List ScopedNodeId
nodes [] = []
nodes (e ∷ es) = e.node_id ∷ nodes es

same_node→eq : (a b : ScopedNodeId) → same_node a b ≡ true → a ≡ b
same_node→eq a b h =
    ap₂ (λ n f. record { node = n; fabric = f }) (==→eq a.node b.node (ground arith))
      (==→eq a.fabric b.fabric (ground arith))

pub nodes-put_entry :
    (d : RequestorEntry) (es : List RequestorEntry) → nodes (put_entry d es) ≡ nodes es
unfolding put_entry
nodes-put_entry d [] = refl
nodes-put_entry d (x ∷ es) = elim (Bool-cases (same_node x.node_id d.node_id)) [
  | inl t ↦ rw t (ap (λ n. n ∷ nodes es) (sym (same_node→eq x.node_id d.node_id t)))
  | inr f ↦ rw f (ap (λ ns. x.node_id ∷ ns) (nodes-put_entry d es))
]

-- The same nodes as before.
abbrev pub Keeps : Provider → Answer × Provider → Type 0
Keeps p r = nodes r.1.requestors ≡ nodes p.requestors

if-Keeps :
    (p : Provider) (b : Bool) (x y : Answer × Provider)
    → Keeps p x
    → Keeps p y
    → Keeps p (if b then x else y)
if-Keeps p true x y kx ky = kx
if-Keeps p false x y kx ky = ky

pub respond-Keeps :
    (s : QueryStatus) (image : Option ImageFields) (p : Provider) → Keeps p (respond s image p)
unfolding busy_delay
respond-Keeps QueryStatus.busy image p = elim (Bool-cases (p.delayed_apply_action_time == 0)) [
  | inl t ↦ rw t refl
  | inr f ↦ rw f refl
]
respond-Keeps QueryStatus.update_available image p = refl
respond-Keeps QueryStatus.not_available image p = refl

start_transfer-Keeps :
    (a : Answers) (e : RequestorEntry) (p : Provider) → Keeps p (start_transfer a e p)
unfolding start_transfer
start_transfer-Keeps a e p =
    let (err, effects, sender) =
      initialize_transfer p.subject.fabric_index p.subject.subject p.bdx_sender in
    let q = record p {
      bdx_sender = if is_ok err then set_ota_image_url e.ota_image_url sender else sender;
    } in
    if-Keeps p (not (is_ok err)) _ _ (respond-Keeps busy none q) (
      if-Keeps p (not a.prepared) _ _ refl
        (nodes-put_entry (record e { update_token = a.random_token }) p.requestors))

offer_named-Keeps :
    (sdk : Sdk) (a : Answers) (e : RequestorEntry) (node : ℕ) (name : Option (List ℕ))
    (p : Provider)
    → Keeps p (offer_named sdk a e node name p)
offer_named-Keeps sdk a e node none p = refl
offer_named-Keeps sdk a e node (some name) p =
    let d = record e { image_uri = uri_or_empty (sdk.make_uri node name e.image_uri) } in
    if-Keeps p (leb file_name_capacity (length name)) _ _ refl
      (start_transfer-Keeps a d (write_entry d p) ∙ nodes-put_entry d p.requestors)

offer_from-Keeps :
    (sdk : Sdk) (a : Answers) (e : RequestorEntry) (node : Option ℕ) (p : Provider)
    → Keeps p (offer_from sdk a e node p)
offer_from-Keeps sdk a e none p = refl
offer_from-Keeps sdk a e (some node) p =
    offer_named-Keeps sdk a e node (file_name e.ota_image_url) p

noted :
    (b : Bool) (e : RequestorEntry) (p : Provider)
    → nodes (if b then write_entry e p else p).requestors ≡ nodes p.requestors
noted true e p = nodes-put_entry e p.requestors
noted false e p = refl

answer_entry-Keeps :
    (sdk : Sdk) (a : Answers) (s : QueryStatus) (found : Option RequestorEntry) (p : Provider)
    → Keeps p (answer_entry sdk a s found p)
unfolding answer_entry offer_image
answer_entry-Keeps sdk a s none p = refl
answer_entry-Keeps sdk a s (some e) p =
    if-Keeps p (not (may_update e)) _ _
      (noted (is_update_available s) (record e { has_new_version = true }) p)
      (if-Keeps p (is_update_available s) _ _ (offer_from-Keeps sdk a e _ p)
        (respond-Keeps s none p))

send_query_image_response-Keeps :
    (sdk : Sdk) (a : Answers) (s : QueryStatus) (p : Provider)
    → Keeps p (send_query_image_response sdk a s p)
unfolding send_query_image_response
send_query_image_response-Keeps sdk a s p =
    if-Keeps p (not (valid_command a.handle_valid p.async_command p.peer)) _ _ refl
      (answer_entry-Keeps sdk a s _ (record p { async_command = none }))

written :
    (r : FetchResult) (found : Option RequestorEntry) (p : Provider)
    → nodes (write_fetched r found p).requestors ≡ nodes p.requestors
written r none p = refl
written not_available (some e) p = refl
written (available url size version version_str) (some e) p =
    nodes-put_entry (fetched url size version version_str e) p.requestors

pub fetch_image_done-Keeps :
    (sdk : Sdk) (a : Answers) (r : FetchResult) (p : Provider)
    → Keeps p (fetch_image_done sdk a r p)
unfolding fetch_image_done
fetch_image_done-Keeps sdk a r p =
    send_query_image_response-Keeps sdk a (query_status r)
      (write_fetched r (find_entry p.peer p.requestors) p)
    ∙ written r (find_entry p.peer p.requestors) p

pub apply_matched-Keeps : (b : Bool) (p : Provider) → Keeps p (apply_matched b p)
apply_matched-Keeps true p = refl
apply_matched-Keeps false p = refl

pub handle_apply_update_request-Keeps :
    (c : Command) (token : List ℕ) (version : ℕ) (p : Provider)
    → Keeps p (handle_apply_update_request (some c) token version p)
unfolding handle_apply_update_request
handle_apply_update_request-Keeps c token version p =
    if-Keeps p (print_overruns (length token)) _ _ refl (apply_matched-Keeps _ p)

finish_update-Keeps :
    (token : List ℕ) (version : ℕ) (found : Option RequestorEntry) (p : Provider)
    → Keeps p (finish_update token version found p)
finish_update-Keeps token version none p = refl
finish_update-Keeps token version (some e) p =
    if-Keeps p (token_matches token version e) _ _
      (nodes-put_entry (record e { ota_allowed_once = false }) p.requestors) refl

pub handle_notify_update_applied-Keeps :
    (c : Command) (token : List ℕ) (version : ℕ) (p : Provider)
    → Keeps p (handle_notify_update_applied (some c) token version p)
unfolding handle_notify_update_applied
handle_notify_update_applied-Keeps c token version p =
    if-Keeps p (print_overruns (length token)) _ _ refl (finish_update-Keeps token version _ p)

if-nodes :
    (q : Provider) (b : Bool) (x y : Answer × Provider × Cache)
    → nodes x.1.requestors ≡ nodes q.requestors
    → nodes y.1.requestors ≡ nodes q.requestors
    → nodes (if b then x else y).1.requestors ≡ nodes q.requestors
if-nodes q true x y kx ky = kx
if-nodes q false x y kx ky = ky

-- A query adds at most the entry of its node.
pub handle_query_image-nodes :
    (sdk : Sdk) (a : Answers) (allocated pending_valid sent : Bool) (c : Command)
    (action : FetchAction) (p : Provider) (cache : Cache)
    → nodes (handle_query_image sdk a allocated pending_valid sent c action p cache).1.requestors
      ≡ nodes (create_entry allocated c.peer p).1.requestors
unfolding handle_query_image
handle_query_image-nodes sdk a allocated pending_valid sent c action p cache =
    let q = (create_entry allocated c.peer p).1 in
    if-nodes q (not (is_ok (create_entry allocated c.peer p).0)) _ _ refl (
      if-nodes q (is_pending pending_valid q.async_command) _ _ (respond-Keeps busy none q) (
        if-nodes q (is_ok (fetch_ota_candidate sent true action cache).0) _ _ refl
          (send_query_image_response-Keeps sdk a QueryStatus.not_available (accept_query c q))))
