-- ===== src/Ota/Access/Entry.antt =====
-- When an access-control entry that led_orchestra_ota_provider.cpp accepts lets a node call a cluster.
use led_orchestra.Base.{
  ℕ, zero, suc, ◌+◌, ◌<◌, ◌≡◌, ◌⊎◌, inl, inr, refl, ap, Bool, true, false, Option, none, some,
  arith, ◌==◌, ==→eq, Bool-cases,
}
use mathlib.Core.Bool.{false≢true}
use led_orchestra.Ota.Access.{
  AuthMode, no_auth, pase_mode, case_mode, group_mode, Privilege, view, proxy_view, operate, manage,
  administer, Target, AclEntry, is_case, may_operate, is_node, has_subject, matches_target,
  has_target, privilege_allows_operate, target_matches_ota_provider, any_from,
  ota_acl_entry_allows_node,
}

pub any_from-some :
    (test : ℕ → Bool) (n index : ℕ)
    → any_from index n test ≡ true
    → (found : ℕ) × (found < index + n) × (test found ≡ true)
unfolding any_from
any_from-some test zero index h = absurd (false≢true h)
any_from-some test (suc n) index h = elim (Bool-cases (test index)) [
  | inl t ↦ (index, omega arith, t)
  | inr f ↦
      let (found, below, e) = any_from-some test n (suc index) (ground arith) in
      (found, omega arith, e)
]

-- Privileges that include `operate`.
abbrev pub Operates : Privilege → Type 0
Operates p = (p ≡ operate) ⊎ ((p ≡ manage) ⊎ (p ≡ administer))

-- A target that takes in a cluster on an endpoint: it names no device type, and no other endpoint or cluster.
abbrev pub Covers : ℕ → ℕ → Target → Type 0
Covers endpoint cluster t =
    (t.has_device_type ≡ false)
    × ((t.has_endpoint ≡ false) ⊎ (t.endpoint ≡ endpoint))
    × ((t.has_cluster ≡ false) ⊎ (t.cluster ≡ cluster))

-- An entry that lets a node call a cluster on an endpoint: for CASE sessions, of a privilege that includes
-- `operate`, with the node among its subjects, and without targets or with one that takes in the cluster.
abbrev pub Lets : ℕ → ℕ → ℕ → AclEntry → Type 0
Lets endpoint cluster node e =
    (e.auth_mode ≡ some case_mode)
    × ((p : Privilege) × (e.privilege ≡ some p) × Operates p)
    × ((count : ℕ) × (i : ℕ) × (e.subject_count ≡ some count)
        × (i < count)
        × (e.subject i ≡ some node))
    × ((e.target_count ≡ some 0)
        ⊎ ((count : ℕ) × (i : ℕ) × (t : Target) × (e.target_count ≡ some count)
            × (i < count)
            × (e.target i ≡ some t)
            × Covers endpoint cluster t))

is_case-case_mode : (o : Option AuthMode) → is_case o ≡ true → o ≡ some case_mode
is_case-case_mode (some case_mode) h = refl
is_case-case_mode (some no_auth) h = absurd (false≢true h)
is_case-case_mode (some pase_mode) h = absurd (false≢true h)
is_case-case_mode (some group_mode) h = absurd (false≢true h)
is_case-case_mode none h = absurd (false≢true h)

privilege_Operates : (p : Privilege) → privilege_allows_operate p ≡ true → Operates p
unfolding privilege_allows_operate
privilege_Operates view h = absurd (false≢true h)
privilege_Operates proxy_view h = absurd (false≢true h)
privilege_Operates operate h = inl refl
privilege_Operates manage h = inr (inl refl)
privilege_Operates administer h = inr (inr refl)

may_operate-some :
    (o : Option Privilege) → may_operate o ≡ true → (p : Privilege) × (o ≡ some p) × Operates p
may_operate-some none h = absurd (false≢true h)
may_operate-some (some p) h = (p, refl, privilege_Operates p h)

is_node-some : (node : ℕ) (o : Option ℕ) → is_node node o ≡ true → o ≡ some node
is_node-some node none h = absurd (false≢true h)
is_node-some node (some subject) h = ap some (==→eq subject node h)

has_subject-some :
    (node : ℕ) (e : AclEntry) (o : Option ℕ)
    → has_subject node e o ≡ true
    → (count : ℕ) × (i : ℕ) × (o ≡ some count) × (i < count) × (e.subject i ≡ some node)
has_subject-some node e none h = absurd (false≢true h)
has_subject-some node e (some count) h =
    let (i, below, at) = any_from-some (λ j. is_node node (e.subject j)) count 0 h in
    (count, i, refl, omega arith, is_node-some node (e.subject i) at)

target_Covers :
    (endpoint cluster : ℕ) (t : Target)
    → target_matches_ota_provider endpoint cluster t ≡ true
    → Covers endpoint cluster t
unfolding target_matches_ota_provider
target_Covers endpoint cluster t h = ground arith

matches_target-some :
    (endpoint cluster : ℕ) (o : Option Target)
    → matches_target endpoint cluster o ≡ true
    → (t : Target) × (o ≡ some t) × Covers endpoint cluster t
matches_target-some endpoint cluster none h = absurd (false≢true h)
matches_target-some endpoint cluster (some t) h = (t, refl, target_Covers endpoint cluster t h)

has_target-some :
    (endpoint cluster : ℕ) (e : AclEntry) (o : Option ℕ)
    → has_target endpoint cluster e o ≡ true
    → (o ≡ some 0)
      ⊎ ((count : ℕ) × (i : ℕ) × (t : Target) × (o ≡ some count)
          × (i < count)
          × (e.target i ≡ some t)
          × Covers endpoint cluster t)
has_target-some endpoint cluster e none h = absurd (false≢true h)
has_target-some endpoint cluster e (some count) h = elim (Bool-cases (count == 0)) [
  | inl none_at_all ↦ inl (ap some (==→eq count 0 none_at_all))
  | inr others ↦
      let (i, below, at) =
        any_from-some (λ j. matches_target endpoint cluster (e.target j)) count 0 (ground arith) in
      let (t, target, covers) = matches_target-some endpoint cluster (e.target i) at in
      inr (count, i, t, refl, omega arith, target, covers)
]

pub entry_Lets :
    (endpoint cluster : ℕ) (e : AclEntry) (node : ℕ)
    → ota_acl_entry_allows_node endpoint cluster e node ≡ true
    → Lets endpoint cluster node e
unfolding ota_acl_entry_allows_node
entry_Lets endpoint cluster e node h = (
  is_case-case_mode e.auth_mode (ground arith),
  may_operate-some e.privilege (ground arith),
  has_subject-some node e e.subject_count (ground arith),
  has_target-some endpoint cluster e e.target_count (ground arith),
)
