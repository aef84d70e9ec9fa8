-- ===== src/Ota/Access/Grants.antt =====
-- What an access-control entry of led_orchestra_ota_provider.cpp grants.
use led_orchestra.Base.{
  ℕ, zero, suc, ◌+◌, ◌≤◌, ◌<◌, ◌≡◌, inl, inr, refl, sym, ap, ◌∙◌, Bool, true, false, ◌||◌, Option,
  none, some, arith, ◌==◌, ==_refl, ==→eq, if◌then◌else◌, Bool-cases,
}
use mathlib.Core.Bool.{false≢true}
use mathlib.Core.Path.{subst}
use led_orchestra.Platform.{EspErr, esp_ok, esp_err_invalid_state, is_ok}
use led_orchestra.Ota.Results.{past_guard}
use led_orchestra.Ota.Access.Entry.{any_from-some, Lets, entry_Lets}
use led_orchestra.Ota.Access.{
  AclEntry, ChipError, no_error, buffer_too_small, other_failure, AccessControl, AccessLaws,
  entry_of, privilege_allows_operate, target_matches_ota_provider, any_from,
  ota_acl_entry_allows_node, node_grant, allows_at, already_allowed, add_grant, after_create,
  grant_unless_allowed, ensure_ota_acl_for_node, unset_endpoint,
}

-- The entry that is made for a node lets that node call the OTA provider cluster on its endpoint, and no
-- other node.
pub ota_acl_entry_allows_node-node_grant :
    (endpoint cluster fabric node other : ℕ)
    → ota_acl_entry_allows_node endpoint cluster
        (entry_of (node_grant endpoint cluster fabric node))
        other
      ≡ (node == other)
unfolding ota_acl_entry_allows_node node_grant privilege_allows_operate target_matches_ota_provider
    any_from
ota_acl_entry_allows_node-node_grant endpoint cluster fabric node other = ground arith

or_right : (a b : Bool) → b ≡ true → (a || b) ≡ true
or_right true b h = refl
or_right false b h = h

any_from-found :
    (test : ℕ → Bool) (n index found : ℕ)
    → index ≤ found
    → found < index + n
    → test found ≡ true
    → any_from index n test ≡ true
unfolding any_from
any_from-found test zero index found lo hi h = absurd (omega arith)
any_from-found test (suc n) index found lo hi h = elim (Bool-cases (index == found)) [
  | inl t ↦ rw (ap test (==→eq index found t) ∙ h) refl
  | inr f ↦
      or_right (test index) (any_from (suc index) n test)
        (any_from-found test n (suc index) found (ground arith) (omega arith) h)
]

module _ (acl : AccessControl) where
  -- Some entry of the fabric lets the node call the provider.
  abbrev Granted : ℕ → ℕ → ℕ → ℕ → acl.Entries → Type 0
  Granted endpoint cluster fabric node entries =
      (count : ℕ) × (acl.entry_count entries fabric ≡ some count)
      × (already_allowed acl endpoint cluster fabric node count entries ≡ true)

  -- An entry of the fabric, at an index below the number of them, lets the node call the cluster.
  abbrev pub MayCall : ℕ → ℕ → ℕ → ℕ → acl.Entries → Type 0
  MayCall endpoint cluster fabric node entries =
      (count : ℕ) × (i : ℕ) × (e : AclEntry) × (acl.entry_count entries fabric ≡ some count)
      × (i < count)
      × (acl.read_entry entries fabric i ≡ some e)
      × Lets endpoint cluster node e

  allows_at-some :
      (endpoint cluster node : ℕ) (o : Option AclEntry)
      → allows_at acl endpoint cluster node o ≡ true
      → (e : AclEntry) × (o ≡ some e) × Lets endpoint cluster node e
  allows_at-some endpoint cluster node none h = absurd (false≢true h)
  allows_at-some endpoint cluster node (some e) h = (e, refl, entry_Lets endpoint cluster e node h)

  Granted-MayCall :
      (endpoint cluster fabric node : ℕ) (entries : acl.Entries)
      → Granted endpoint cluster fabric node entries
      → MayCall endpoint cluster fabric node entries
  unfolding already_allowed
  Granted-MayCall endpoint cluster fabric node entries (count, counted, h) =
      let (i, below, at) =
        any_from-some (λ j. allows_at acl endpoint cluster node (acl.read_entry entries fabric j))
          count 0 h in
      let (e, read, lets) =
        allows_at-some endpoint cluster node (acl.read_entry entries fabric i) at in
      (count, i, e, counted, omega arith, read, lets)

  created_Granted :
      (laws : AccessLaws acl) (endpoint cluster fabric node : ℕ) (entries : acl.Entries)
      (r : ChipError × acl.Entries)
      → acl.add_entry entries fabric (node_grant endpoint cluster fabric node) ≡ r
      → is_ok (after_create acl r).0 ≡ true
      → Granted endpoint cluster fabric node (after_create acl r).1
  unfolding already_allowed
  created_Granted laws endpoint cluster fabric node entries (buffer_too_small, after) h ok =
      absurd (false≢true ok)
  created_Granted laws endpoint cluster fabric node entries (other_failure, after) h ok =
      absurd (false≢true ok)
  created_Granted laws endpoint cluster fabric node entries (no_error, after) h ok =
      let g = node_grant endpoint cluster fabric node in
      let (count, index, counted, below, at) = laws.created entries after fabric g h in
      (
        count,
        counted,
        any_from-found (λ i. allows_at acl endpoint cluster node (acl.read_entry after fabric i))
            count 0 index (omega arith) (omega arith)
            (ap (allows_at acl endpoint cluster node) at
              ∙ ota_acl_entry_allows_node-node_grant endpoint cluster fabric node node
              ∙ ==_refl node),
      )

  add_grant-Granted :
      (laws : AccessLaws acl) (filled : ChipError) (endpoint cluster fabric node : ℕ)
      (entries : acl.Entries)
      → is_ok (add_grant acl filled fabric (node_grant endpoint cluster fabric node) entries).0
        ≡ true
      → Granted endpoint cluster fabric node
          (add_grant acl filled fabric (node_grant endpoint cluster fabric node) entries).1
  add_grant-Granted laws no_error endpoint cluster fabric node entries ok =
      created_Granted laws endpoint cluster fabric node entries
        (acl.add_entry entries fabric (node_grant endpoint cluster fabric node)) refl ok
  add_grant-Granted laws buffer_too_small endpoint cluster fabric node entries ok =
      absurd (false≢true ok)
  add_grant-Granted laws other_failure endpoint cluster fabric node entries ok =
      absurd (false≢true ok)

  either_Granted :
      (endpoint cluster fabric node count : ℕ) (entries : acl.Entries) (b : Bool)
      (added : EspErr × acl.Entries)
      → acl.entry_count entries fabric ≡ some count
      → already_allowed acl endpoint cluster fabric node count entries ≡ b
      → (is_ok added.0 ≡ true → Granted endpoint cluster fabric node added.1)
      → is_ok (if b then (esp_ok, entries) else added).0 ≡ true
      → Granted endpoint cluster fabric node (if b then (esp_ok, entries) else added).1
  either_Granted endpoint cluster fabric node count entries true added counted h k ok =
      (count, counted, h)
  either_Granted endpoint cluster fabric node count entries false added counted h k ok = k ok

  grant_unless_allowed-Granted :
      (laws : AccessLaws acl) (filled : ChipError) (endpoint cluster fabric node : ℕ)
      (counted : Option ℕ) (entries : acl.Entries)
      → acl.entry_count entries fabric ≡ counted
      → is_ok (grant_unless_allowed acl filled endpoint cluster fabric node counted entries).0
        ≡ true
      → Granted endpoint cluster fabric node
          (grant_unless_allowed acl filled endpoint cluster fabric node counted entries).1
  grant_unless_allowed-Granted laws filled endpoint cluster fabric node none entries h ok =
      absurd (false≢true ok)
  grant_unless_allowed-Granted laws filled endpoint cluster fabric node (some count) entries h ok =
      either_Granted endpoint cluster fabric node count entries _
        (add_grant acl filled fabric (node_grant endpoint cluster fabric node) entries) h refl
        (add_grant-Granted laws filled endpoint cluster fabric node entries) ok

  -- Where a node is granted, the next call changes nothing.
  again :
      (filled : ChipError) (endpoint cluster undefined fabric node : ℕ) (entries : acl.Entries)
      → (endpoint == unset_endpoint) ≡ false
      → (fabric == undefined) ≡ false
      → Granted endpoint cluster fabric node entries
      → ensure_ota_acl_for_node acl filled endpoint cluster undefined fabric node entries
        ≡ (esp_ok, entries)
  unfolding ensure_ota_acl_for_node
  again filled endpoint cluster undefined fabric node entries e f (count, counted, h) =
      rw (e, f)
        (ap (λ o. grant_unless_allowed acl filled endpoint cluster fabric node o entries) counted
          ∙ rw h refl)

  -- Granting a node access that succeeds leaves an entry on the fabric, at an index that the loop reads, that
  -- is for CASE sessions, of the privilege operate, manage or administer, has the node among its subjects, and
  -- has no target at all or one that takes in the provider's cluster on its endpoint; granting it
  -- once more succeeds without a change, whatever the setters answer. An entry that the access control
  -- created can be read back.
  pub ensure_ota_acl_for_node-Granted :
      (laws : AccessLaws acl) (filled next : ChipError) (endpoint cluster undefined fabric node : ℕ)
      (entries : acl.Entries)
      → is_ok (ensure_ota_acl_for_node acl filled endpoint cluster undefined fabric node entries).0
        ≡ true
      → let after =
          (ensure_ota_acl_for_node acl filled endpoint cluster undefined fabric node entries).1 in
        MayCall endpoint cluster fabric node after
        × (ensure_ota_acl_for_node acl next endpoint cluster undefined fabric node after
            ≡ (esp_ok, after))
  unfolding ensure_ota_acl_for_node
  ensure_ota_acl_for_node-Granted laws filled next endpoint cluster undefined fabric node entries
        ok =
      let last =
        grant_unless_allowed acl filled endpoint cluster fabric node
          (acl.entry_count entries fabric) entries in
      let second = if fabric == undefined then (esp_err_invalid_state, entries) else last in
      let (e, first_is, ok1) =
        past_guard (endpoint == unset_endpoint) (esp_err_invalid_state, entries) second refl ok in
      let (f, second_is, ok2) =
        past_guard (fabric == undefined) (esp_err_invalid_state, entries) last refl ok1 in
      let granted =
        grant_unless_allowed-Granted laws filled endpoint cluster fabric node _ entries refl ok2 in
      subst
        (λ (r : EspErr × acl.Entries).
          MayCall endpoint cluster fabric node r.1
          × (ensure_ota_acl_for_node acl next endpoint cluster undefined fabric node r.1
              ≡ (esp_ok, r.1)))
        (sym (first_is ∙ second_is))
        (
          Granted-MayCall endpoint cluster fabric node last.1 granted,
          again next endpoint cluster undefined fabric node last.1 e f granted,
        )
