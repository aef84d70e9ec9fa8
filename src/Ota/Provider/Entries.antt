-- ===== src/Ota/Provider/Entries.antt =====
-- The list of the requestors of esp_matter_ota_provider.cpp: what a search finds and who may not update.
use led_orchestra.Base.{
  ◌≡◌, refl, Bool, true, false, not, ◌&&◌, none, some, List, [], ◌∷◌, arith, map,
}
use led_orchestra.Ota.Provider.{
  ScopedNodeId, same_node, RequestorEntry, find_entry, put_entry, remove_first,
}
use led_orchestra.Ota.Provider.Handlers.{may_update}

-- No entry of that node allows an update.
unfoldable pub denies : ScopedNodeId → List RequestorEntry → Bool
denies n [] = true
denies n (e ∷ es) = not (same_node e.node_id n && may_update e) && denies n es

pub same_node_refl : (n : ScopedNodeId) → same_node n n ≡ true
same_node_refl n = ground arith

pub find_entry-node :
    (n : ScopedNodeId) (es : List RequestorEntry) (e : RequestorEntry)
    → find_entry n es ≡ some e
    → same_node e.node_id n ≡ true
unfolding find_entry
find_entry-node n [] e h = cc
find_entry-node n (x ∷ es) e h = ground (arith, find_entry-node n es e)

pub find_entry-denies :
    (n m : ScopedNodeId) (es : List RequestorEntry) (e : RequestorEntry)
    → denies n es ≡ true
    → find_entry m es ≡ some e
    → same_node e.node_id n ≡ true
    → may_update e ≡ false
unfolding find_entry denies
find_entry-denies n m [] e d h same = cc
find_entry-denies n m (x ∷ es) e d h same = ground (arith, find_entry-denies n m es e)

pub put_entry-denies :
    (n : ScopedNodeId) (e : RequestorEntry) (es : List RequestorEntry)
    → denies n es ≡ true
    → (same_node e.node_id n ≡ true → may_update e ≡ false)
    → denies n (put_entry e es) ≡ true
unfolding put_entry denies
put_entry-denies n e [] d h = refl
put_entry-denies n e (x ∷ es) d h = ground (arith, put_entry-denies n e es)

pub remove_first-denies :
    (n m : ScopedNodeId) (es : List RequestorEntry)
    → denies n es ≡ true
    → denies n (remove_first m es) ≡ true
unfolding remove_first denies
remove_first-denies n m [] d = refl
remove_first-denies n m (x ∷ es) d = ground (arith, remove_first-denies n m es)

-- What the operator's loops do to the entries keeps a node denied, if it does so to each entry of it.
pub map-denies :
    (n : ScopedNodeId) (f : RequestorEntry → RequestorEntry) (es : List RequestorEntry)
    → ((e : RequestorEntry) → same_node (f e).node_id n ≡ true → same_node e.node_id n ≡ true)
    → ((e : RequestorEntry)
        → same_node e.node_id n ≡ true
        → may_update e ≡ false
        → may_update (f e) ≡ false)
    → denies n es ≡ true
    → denies n (map f es) ≡ true
unfolding denies
map-denies n f [] keeps safe d = refl
map-denies n f (x ∷ es) keeps safe d = ground (arith, map-denies n f es keeps safe, keeps x, safe x)

-- The entries have different nodes.
unfoldable pub Distinct : List RequestorEntry → Type 0
Distinct [] = Unit
Distinct (e ∷ es) = (find_entry e.node_id es ≡ none) × Distinct es

pub missing-denies :
    (n : ScopedNodeId) (es : List RequestorEntry) → find_entry n es ≡ none → denies n es ≡ true
unfolding find_entry denies
missing-denies n [] h = refl
missing-denies n (x ∷ es) h = ground (arith, missing-denies n es)

find_entry-same :
    (n m : ScopedNodeId) (es : List RequestorEntry)
    → same_node n m ≡ true
    → find_entry n es ≡ find_entry m es
unfolding find_entry
find_entry-same n m [] h = refl
find_entry-same n m (x ∷ es) h = ground (arith, find_entry-same n m es)

-- Where the only entry of a node is replaced by one that allows nothing, the node is denied.
pub put_entry_denied :
    (n : ScopedNodeId) (e d : RequestorEntry) (es : List RequestorEntry)
    → Distinct es
    → find_entry n es ≡ some e
    → same_node d.node_id n ≡ true
    → may_update d ≡ false
    → denies n (put_entry d es) ≡ true
unfolding find_entry put_entry denies Distinct
put_entry_denied n e d [] dist h same f = refl
put_entry_denied n e d (x ∷ es) (a, dist) h same f =
    ground
      (arith, put_entry_denied n e d es dist, missing-denies n es, find_entry-same x.node_id n es)
