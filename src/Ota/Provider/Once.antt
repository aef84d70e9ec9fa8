-- ===== src/Ota/Provider/Once.antt =====
-- `mOtaAllowedOnce`, and the answers to the commands that end an update, in esp_matter_ota_provider.cpp.
use led_orchestra.Base.{
  ℕ, ◌≡◌, refl, sym, ap, ◌∙◌, Bool, true, false, Option, none, some, List, arith, if◌then◌else◌,
  length,
}
use mathlib.Core.Path.{subst}
use mathlib.Core.Bool.{false≢true}
use led_orchestra.Ota.Candidates.{Cache}
use led_orchestra.Ota.Provider.{
  ScopedNodeId, RequestorEntry, Provider, find_entry, Undefined, Command,
}
use led_orchestra.Ota.Provider.Handlers.{
  may_update, Sdk, Answer, crash, status, success, failure, invalid_command, resource_exhausted,
  write_entry, token_matches, finish_update, print_overruns, handle_notify_update_applied,
}
use led_orchestra.Ota.Provider.Entries.{Distinct, find_entry-node, put_entry_denied}
use led_orchestra.Ota.Provider.Consent.{Denied}
use led_orchestra.Ota.Provider.Steps.{Event, run, ever_enables, offered_to}
use led_orchestra.Ota.Provider.Runs.{consent_comes_first}

-- Tells the answers apart.
abbrev pub is_success : Answer → Bool
is_success (status success) = true
is_success (status failure) = false
is_success (status invalid_command) = false
is_success (status resource_exhausted) = false
is_success other = false

abbrev allowed_of : Option RequestorEntry → Bool
allowed_of none = false
allowed_of (some e) = e.ota_allowed

may_update-off :
    (e : RequestorEntry)
    → e.ota_allowed ≡ false
    → may_update (record e { ota_allowed_once = false }) ≡ false
may_update-off e h = ground arith

if_success :
    (b : Bool) (x y : Answer × Provider)
    → (is_success x.0 ≡ false)
    → is_success (if b then x else y).0 ≡ true
    → (if b then x else y) ≡ y
if_success true x y f t = absurd (false≢true (sym f ∙ t))
if_success false x y f t = refl

matched :
    (b : Bool) (x y : Answer × Provider)
    → (is_success y.0 ≡ false)
    → is_success (if b then x else y).0 ≡ true
    → (if b then x else y) ≡ x
matched true x y f t = refl
matched false x y f t = absurd (false≢true (sym f ∙ t))

finish_update-Denied :
    (n : ScopedNodeId) (token : List ℕ) (version : ℕ) (found : Option RequestorEntry)
    (e : RequestorEntry) (p : Provider)
    → found ≡ some e
    → Distinct p.requestors
    → p.ota_allowed_default ≡ false
    → find_entry n p.requestors ≡ some e
    → e.ota_allowed ≡ false
    → is_success (finish_update token version found p).0 ≡ true
    → Denied n (finish_update token version found p).1
finish_update-Denied n token version none e p f dist default h off s = cc
finish_update-Denied n token version (some x) e p f dist default h off s =
    let d = record x { ota_allowed_once = false } in
    let found : find_entry n p.requestors ≡ some x = h ∙ sym f in
    subst (λ (r : Answer × Provider). Denied n r.1)
      (sym (
        matched (token_matches token version x) (status success, write_entry d p)
          (status invalid_command, p) refl s))
      (record {
        entries =
            put_entry_denied n x d p.requestors dist found (find_entry-node n p.requestors x found)
              (may_update-off x (ap allowed_of f ∙ off));
        by_default = default;
      })

handle_notify_update_applied-Denied :
    (c : Command) (token : List ℕ) (version : ℕ) (e : RequestorEntry) (p : Provider)
    → Distinct p.requestors
    → p.ota_allowed_default ≡ false
    → find_entry c.peer p.requestors ≡ some e
    → e.ota_allowed ≡ false
    → is_success (handle_notify_update_applied (some c) token version p).0 ≡ true
    → Denied c.peer (handle_notify_update_applied (some c) token version p).1
unfolding handle_notify_update_applied
handle_notify_update_applied-Denied c token version e p dist default h off s =
    let finished = finish_update token version (find_entry c.peer p.requestors) p in
    let same = if_success (print_overruns (length token)) (crash, p) finished refl s in
    subst (λ (r : Answer × Provider). Denied c.peer r.1) (sym same)
      (finish_update-Denied c.peer token version (find_entry c.peer p.requestors) e p h dist default
        h off (subst (λ (r : Answer × Provider). is_success r.0 ≡ true) same s))

-- A node that is allowed one update only: once its NotifyUpdateApplied is answered with success, it is offered
-- no image any more, until the operator enables it again or allows updates by default. The entries have
-- different nodes, and updates are not allowed by default.
pub allowed_once_spent :
    (sdk : Sdk) (u : Undefined) (c : Command) (token : List ℕ) (version : ℕ) (e : RequestorEntry)
    (p : Provider) (cache : Cache) (events : List Event)
    → Distinct p.requestors
    → p.ota_allowed_default ≡ false
    → find_entry c.peer p.requestors ≡ some e
    → e.ota_allowed ≡ false
    → is_success (handle_notify_update_applied (some c) token version p).0 ≡ true
    → ever_enables u c.peer events ≡ false
    → offered_to c.peer
        (run sdk u events (record {
          provider = (handle_notify_update_applied (some c) token version p).1;
          cache = cache;
        })).0
      ≡ false
allowed_once_spent sdk u c token version e p cache events dist default h off s quiet =
    consent_comes_first sdk u c.peer events _
      (handle_notify_update_applied-Denied c token version e p dist default h off s) quiet
