-- ===== src/Ota/Provider/Consent.antt =====
-- The consent of the operator: `mOtaAllowed`, `mOtaAllowedOnce` and `mOtaAllowedDefault` over runs of
-- the provider of esp_matter_ota_provider.cpp.
use led_orchestra.Base.{
  ℕ, ◌≡◌, refl, sym, Bool, true, false, not, ◌&&◌, Option, none, some, List, arith, if◌then◌else◌,
  length, leb,
}
use mathlib.Core.Bool.{false≢true}
use led_orchestra.Platform.{is_ok}
use led_orchestra.Ota.Sender.{Sender, initialize_transfer, set_ota_image_url}
use led_orchestra.Ota.Provider.{
  ScopedNodeId, same_node, RequestorEntry, Provider, find_entry, QueryStatus, busy,
}
use led_orchestra.Ota.Provider.Handlers.{
  may_update, Sdk, Answers, Answer, busy_delay, respond, write_entry, start_transfer, offer_image,
  offer_named, offer_from, uri_or_empty, file_name_capacity, answer_entry, is_update_available,
  file_name, ImageFields,
}
use led_orchestra.Ota.Provider.Entries.{
  denies, find_entry-node, find_entry-denies, put_entry-denies,
}
use led_orchestra.Ota.Provider.Steps.{is_offer}

-- Neither an entry nor the default lets the node update.
pub record Denied (n : ScopedNodeId) (p : Provider) : Type 0 where
  pub entries : denies n p.requestors ≡ true
  pub by_default : p.ota_allowed_default ≡ false

pub write_entry-Denied :
    (n : ScopedNodeId) (e : RequestorEntry) (p : Provider)
    → Denied n p
    → (same_node e.node_id n ≡ true → may_update e ≡ false)
    → Denied n (write_entry e p)
write_entry-Denied n e p d safe = record {
  entries = put_entry-denies n e p.requestors d.entries safe;
  by_default = d.by_default;
}

busy_delay-Denied : (n : ScopedNodeId) (p : Provider) → Denied n p → Denied n (busy_delay p)
unfolding busy_delay
busy_delay-Denied n p d = record {
  entries = ground (arith, d.entries);
  by_default = ground (arith, d.by_default);
}

respond-Denied :
    (n : ScopedNodeId) (s : QueryStatus) (image : Option ImageFields) (p : Provider)
    → Denied n p
    → Denied n (respond s image p).1
respond-Denied n QueryStatus.busy image p d = busy_delay-Denied n p d
respond-Denied n QueryStatus.update_available image p d = d
respond-Denied n QueryStatus.not_available image p d = d

if-Denied :
    (n : ScopedNodeId) (b : Bool) (x y : Answer × Provider)
    → Denied n x.1
    → Denied n y.1
    → Denied n (if b then x else y).1
if-Denied n true x y dx dy = dx
if-Denied n false x y dx dy = dy

pub pick-Denied :
    (n : ScopedNodeId) (b : Bool) (p q : Provider)
    → Denied n p
    → Denied n q
    → Denied n (if b then p else q)
pick-Denied n true p q dp dq = dp
pick-Denied n false p q dp dq = dq

pub with_sender-Denied :
    (n : ScopedNodeId) (s : Sender) (p : Provider)
    → Denied n p
    → Denied n (record p { bdx_sender = s })
with_sender-Denied n s p d = record { entries = d.entries; by_default = d.by_default }

other_node :
    (n : ScopedNodeId) (e : RequestorEntry)
    → same_node e.node_id n ≡ false
    → same_node e.node_id n ≡ true
    → may_update e ≡ false
other_node n e h t = cc

start_transfer-Denied :
    (n : ScopedNodeId) (a : Answers) (e : RequestorEntry) (p : Provider)
    → same_node e.node_id n ≡ false
    → Denied n p
    → Denied n (start_transfer a e p).1
unfolding start_transfer
start_transfer-Denied n a e p other d =
    let (err, effects, sender) =
      initialize_transfer p.subject.fabric_index p.subject.subject p.bdx_sender in
    let s = if is_ok err then set_ota_image_url e.ota_image_url sender else sender in
    let q = record p { bdx_sender = s } in
    let dq = with_sender-Denied n s p d in
    let t = record e { update_token = a.random_token } in
    if-Denied n (not (is_ok err)) _ _ (respond-Denied n busy none q dq)
      (if-Denied n (not a.prepared) _ _ dq (write_entry-Denied n t q dq (other_node n t other)))

offer_named-Denied :
    (n : ScopedNodeId) (sdk : Sdk) (a : Answers) (e : RequestorEntry) (node : ℕ)
    (name : Option (List ℕ)) (p : Provider)
    → same_node e.node_id n ≡ false
    → Denied n p
    → Denied n (offer_named sdk a e node name p).1
offer_named-Denied n sdk a e node none p other d = d
offer_named-Denied n sdk a e node (some name) p other d =
    let t = record e { image_uri = uri_or_empty (sdk.make_uri node name e.image_uri) } in
    if-Denied n (leb file_name_capacity (length name)) _ _ d (
      start_transfer-Denied n a t (write_entry t p) other
        (write_entry-Denied n t p d (other_node n t other)))

offer_from-Denied :
    (n : ScopedNodeId) (sdk : Sdk) (a : Answers) (e : RequestorEntry) (node : Option ℕ)
    (p : Provider)
    → same_node e.node_id n ≡ false
    → Denied n p
    → Denied n (offer_from sdk a e node p).1
offer_from-Denied n sdk a e none p other d = d
offer_from-Denied n sdk a e (some node) p other d =
    offer_named-Denied n sdk a e node (file_name e.ota_image_url) p other d

-- A node stays denied, and an answer to it is no offer.
abbrev pub Refused : ScopedNodeId → ScopedNodeId → Answer × Provider → Type 0
Refused n to r = Denied n r.1 × ((same_node to n && is_offer r.0) ≡ false)

pub if-Refused :
    (n to : ScopedNodeId) (b : Bool) (x y : Answer × Provider)
    → (b ≡ true → Refused n to x)
    → (b ≡ false → Refused n to y)
    → Refused n to (if b then x else y)
if-Refused n to true x y rx ry = rx refl
if-Refused n to false x y rx ry = ry refl

pub no_offer : (b : Bool) → (b && false) ≡ false
no_offer true = refl
no_offer false = refl

pub respond-Refused :
    (n to : ScopedNodeId) (s : QueryStatus) (image : Option ImageFields) (p : Provider)
    → Denied n p
    → is_update_available s ≡ false
    → Refused n to (respond s image p)
respond-Refused n to QueryStatus.busy image p d h =
    (respond-Denied n QueryStatus.busy image p d, no_offer _)
respond-Refused n to QueryStatus.update_available image p d h = absurd (false≢true (sym h))
respond-Refused n to QueryStatus.not_available image p d h = (d, no_offer _)

pub answer_entry-Refused :
    (n to : ScopedNodeId) (sdk : Sdk) (a : Answers) (s : QueryStatus)
    (found : Option RequestorEntry) (p : Provider)
    → Denied n p
    → find_entry to p.requestors ≡ found
    → Refused n to (answer_entry sdk a s found p)
unfolding answer_entry offer_image
answer_entry-Refused n to sdk a s none p d h =
    respond-Refused n to QueryStatus.not_available none p d refl
answer_entry-Refused n to sdk a s (some e) p d h =
    let at = find_entry-node to p.requestors e h in
    let forbidden = find_entry-denies n to p.requestors e d.entries h in
    if-Refused n to (not (may_update e)) _ _
      (λ f.
        respond-Refused n to QueryStatus.not_available none _
          (pick-Denied n (is_update_available s) _ _
            (write_entry-Denied n (record e { has_new_version = true }) p d forbidden) d)
          refl)
      (λ f.
        if-Refused n to (is_update_available s) _ _
          (λ t.
            let other : same_node e.node_id n ≡ false = ground arith in
            (offer_from-Denied n sdk a e _ p other d, ground arith))
          (λ t. respond-Refused n to s none p d t))
