-- ===== src/Ota/Provider/Denial.antt =====
-- The consent of the operator over the events of the provider of esp_matter_ota_provider.cpp.
use led_orchestra.Base.{
  ℕ, ◌≡◌, refl, Bool, true, false, not, Option, none, some, List, arith, if◌then◌else◌, length,
}
use mathlib.Core.Path.{subst}
use led_orchestra.Platform.{is_ok}
use led_orchestra.Ota.Candidates.{
  Cache, FetchAction, FetchResult, not_available, available, fetch_ota_candidate,
}
use led_orchestra.Ota.Provider.{
  ScopedNodeId, RequestorEntry, Provider, find_entry, create_entry, QueryStatus, busy, Command,
}
use led_orchestra.Ota.Provider.Handlers.{
  may_update, Sdk, Answers, Answer, send_query_image_response, valid_command, write_fetched,
  query_status, fetched, fetch_image_done, is_pending, accept_query, handle_query_image,
  print_overruns, apply_matched, token_matches, finish_update, handle_apply_update_request,
  handle_notify_update_applied,
}
use led_orchestra.Ota.Provider.Entries.{denies, find_entry-denies}
use led_orchestra.Ota.Provider.Consent.{
  Denied, Refused, if-Refused, no_offer, respond-Refused, answer_entry-Refused, write_entry-Denied,
}

pub no_command-Denied :
    (n : ScopedNodeId) (p : Provider) → Denied n p → Denied n (record p { async_command = none })
no_command-Denied n p d = record { entries = d.entries; by_default = d.by_default }

pub send_query_image_response-Refused :
    (n : ScopedNodeId) (sdk : Sdk) (a : Answers) (s : QueryStatus) (p : Provider)
    → Denied n p
    → Refused n p.peer (send_query_image_response sdk a s p)
unfolding send_query_image_response
send_query_image_response-Refused n sdk a s p d =
    let q = record p { async_command = none } in
    if-Refused n p.peer (not (valid_command a.handle_valid p.async_command p.peer)) _ _
      (λ h. (no_command-Denied n p d, no_offer _))
      (λ h. answer_entry-Refused n p.peer sdk a s _ q (no_command-Denied n p d) refl)

pub write_fetched-Denied :
    (n to : ScopedNodeId) (r : FetchResult) (found : Option RequestorEntry) (p : Provider)
    → find_entry to p.requestors ≡ found
    → Denied n p
    → Denied n (write_fetched r found p)
write_fetched-Denied n to r none p h d = d
write_fetched-Denied n to not_available (some e) p h d = d
write_fetched-Denied n to (available url size version version_str) (some e) p h d =
    write_entry-Denied n (fetched url size version version_str e) p d
      (find_entry-denies n to p.requestors e d.entries h)

write_fetched-peer :
    (r : FetchResult) (found : Option RequestorEntry) (p : Provider)
    → (write_fetched r found p).peer ≡ p.peer
write_fetched-peer r none p = refl
write_fetched-peer not_available (some e) p = refl
write_fetched-peer (available url size version version_str) (some e) p = refl

pub fetch_image_done-Refused :
    (n : ScopedNodeId) (sdk : Sdk) (a : Answers) (r : FetchResult) (p : Provider)
    → Denied n p
    → Refused n p.peer (fetch_image_done sdk a r p)
unfolding fetch_image_done
fetch_image_done-Refused n sdk a r p d =
    let found = find_entry p.peer p.requestors in
    subst (λ to. Refused n to (fetch_image_done sdk a r p)) (write_fetched-peer r found p)
      (send_query_image_response-Refused n sdk a (query_status r) (write_fetched r found p)
        (write_fetched-Denied n p.peer r found p refl d))

pub create_entry-Denied :
    (n : ScopedNodeId) (allocated : Bool) (m : ScopedNodeId) (p : Provider)
    → Denied n p
    → Denied n (create_entry allocated m p).1
unfolding create_entry denies
create_entry-Denied n allocated m p d =
    let entries = d.entries in
    let by_default = d.by_default in record { entries = ground arith; by_default = ground arith }

pub accept_query-Denied :
    (n : ScopedNodeId) (c : Command) (p : Provider) → Denied n p → Denied n (accept_query c p)
accept_query-Denied n c p d = record { entries = d.entries; by_default = d.by_default }

-- The answer and the provider of a handler that has the cache as well.
abbrev pub without_cache : Answer × Provider × Cache → Answer × Provider
without_cache (answer, p, cache) = (answer, p)

if-without_cache :
    (n to : ScopedNodeId) (b : Bool) (x y : Answer × Provider × Cache)
    → Refused n to (without_cache x)
    → Refused n to (without_cache y)
    → Refused n to (without_cache (if b then x else y))
if-without_cache n to true x y rx ry = rx
if-without_cache n to false x y rx ry = ry

pub handle_query_image-Refused :
    (n : ScopedNodeId) (sdk : Sdk) (a : Answers) (allocated pending_valid sent : Bool) (c : Command)
    (action : FetchAction) (p : Provider) (cache : Cache)
    → Denied n p
    → Refused n c.peer
        (without_cache (handle_query_image sdk a allocated pending_valid sent c action p cache))
unfolding handle_query_image
handle_query_image-Refused n sdk a allocated pending_valid sent c action p cache d =
    let (err, q) = create_entry allocated c.peer p in
    let dq : Denied n (create_entry allocated c.peer p).1 =
      create_entry-Denied n allocated c.peer p d in
    if-without_cache n c.peer (not (is_ok (create_entry allocated c.peer p).0)) _ _ (dq, no_offer _)
      (if-without_cache n c.peer
        (is_pending pending_valid (create_entry allocated c.peer p).1.async_command) _ _
        (respond-Refused n c.peer busy none _ dq refl)
        (if-without_cache n c.peer (is_ok (fetch_ota_candidate sent true action cache).0) _ _
          (accept_query-Denied n c _ dq, no_offer _)
          (send_query_image_response-Refused n sdk a QueryStatus.not_available
            (accept_query c (create_entry allocated c.peer p).1) (accept_query-Denied n c _ dq))))

pub apply_matched-Refused :
    (n to : ScopedNodeId) (b : Bool) (p : Provider) → Denied n p → Refused n to (apply_matched b p)
apply_matched-Refused n to true p d =
    (record { entries = d.entries; by_default = d.by_default }, no_offer _)
apply_matched-Refused n to false p d = (d, no_offer _)

pub handle_apply_update_request-Refused :
    (n : ScopedNodeId) (c : Command) (token : List ℕ) (version : ℕ) (p : Provider)
    → Denied n p
    → Refused n c.peer (handle_apply_update_request (some c) token version p)
unfolding handle_apply_update_request
handle_apply_update_request-Refused n c token version p d =
    if-Refused n c.peer (print_overruns (length token)) _ _ (λ h. (d, no_offer _))
      (λ h. apply_matched-Refused n c.peer _ p d)

spent :
    (e : RequestorEntry)
    → may_update e ≡ false
    → may_update (record e { ota_allowed_once = false }) ≡ false
spent e h = ground arith

pub finish_update-Refused :
    (n to : ScopedNodeId) (token : List ℕ) (version : ℕ) (found : Option RequestorEntry)
    (p : Provider)
    → find_entry to p.requestors ≡ found
    → Denied n p
    → Refused n to (finish_update token version found p)
finish_update-Refused n to token version none p h d = (d, no_offer _)
finish_update-Refused n to token version (some e) p h d =
    if-Refused n to (token_matches token version e) _ _
      (λ t. (
        write_entry-Denied n (record e { ota_allowed_once = false }) p d
            (λ same. spent e (find_entry-denies n to p.requestors e d.entries h same)),
        no_offer _,
      ))
      (λ t. (d, no_offer _))

pub handle_notify_update_applied-Refused :
    (n : ScopedNodeId) (c : Command) (token : List ℕ) (version : ℕ) (p : Provider)
    → Denied n p
    → Refused n c.peer (handle_notify_update_applied (some c) token version p)
unfolding handle_notify_update_applied
handle_notify_update_applied-Refused n c token version p d =
    if-Refused n c.peer (print_overruns (length token)) _ _ (λ h. (d, no_offer _))
      (λ h. finish_update-Refused n c.peer token version _ p refl d)
