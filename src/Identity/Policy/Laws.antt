-- ===== src/Identity/Policy/Laws.antt =====
-- The capabilities of a subject, stated without the sets and loops that compute them.
use mathlib.Core.Path.{subst}
use bnpi_pats_api.Base.{
  String, List, [], ◌∷◌, ◌++◌, Bool, true, false, ◌&&◌, ◌||◌, str_eq, eq_iff, includes, any, ◌≡◌,
  refl, All, arith, if◌then◌else◌,
}
use bnpi_pats_api.Identity.Policy.{
  Assignment, capability, role_bundle, is_active, role_bundle_capabilities, known_capabilities,
  encode_implies_read, admin_capabilities, qi_capabilities, operator_capabilities,
  standalone_capabilities, add, add_all, grant, grant_all, imply_all, insert_sorted, sort,
  effective_capabilities, has_capability,
}

includes-append :
    (xs ys : List String) (d : String) → includes (xs ++ ys) d ≡ (includes xs d || includes ys d)
includes-append [] ys d = refl
includes-append (x ∷ xs) ys d = ground (arith, includes-append xs ys d)

includes-add :
    (c : String) (s : List String) (d : String)
    → includes (add c s) d ≡ (includes s d || str_eq c d)
unfolding add
includes-add c s d = ground (arith, includes-append s (c ∷ []) d, eq_iff c d)

includes-add_all :
    (cs s : List String) (d : String) → includes (add_all cs s) d ≡ (includes s d || includes cs d)
unfolding add_all
includes-add_all [] s d = ground arith
includes-add_all (c ∷ cs) s d = ground (arith, includes-add_all cs (add c s) d, includes-add c s d)

-- What one assignment grants by itself: nothing unless it is active; a capability grants itself if
-- it is a known one, a role bundle grants what its role has, and an unknown bundle nothing.
abbrev pub grants : String → Assignment → Bool
grants d a = is_active a.status && elim a.kind [
  | capability ↦ includes known_capabilities a.key && str_eq a.key d
  | role_bundle ↦ includes (role_bundle_capabilities a.key) d
]

includes-grant :
    (a : Assignment) (s : List String) (d : String)
    → includes (grant a s) d ≡ (includes s d || grants d a)
unfolding grant
includes-grant a s d =
    ground (arith, includes-add a.key s d, includes-add_all (role_bundle_capabilities a.key) s d)

-- What a list of assignments grants, each by itself.
abbrev pub granted : List Assignment → String → Bool
granted assignments d = any (grants d) assignments

includes-grant_all :
    (assignments : List Assignment) (s : List String) (d : String)
    → includes (grant_all assignments s) d ≡ (includes s d || granted assignments d)
unfolding grant_all
includes-grant_all [] s d = ground arith
includes-grant_all (a ∷ rest) s d =
    ground (arith, includes-grant_all rest (grant a s) d, includes-grant a s d)

includes-imply_all :
    (cs s : List String) (d : String)
    → includes (imply_all cs s) d
      ≡ (includes s d || any (λ c. includes (encode_implies_read c) d) cs)
unfolding imply_all
includes-imply_all [] s d = ground arith
includes-imply_all (c ∷ cs) s d = ground (
  arith,
  includes-imply_all cs (add_all (encode_implies_read c) s) d,
  includes-add_all (encode_implies_read c) s d,
)

-- Only `monitoring.read` is implied, by either right to encode.
any-implied :
    (cs : List String) (d : String)
    → any (λ c. includes (encode_implies_read c) d) cs ≡ (
        str_eq "monitoring.read" d
        && (includes cs "daily-metrics.encode" || includes cs "monitoring.station.encode"))
any-implied [] d = ground arith
any-implied (c ∷ cs) d = ground (arith, any-implied cs d)

includes-insert_sorted :
    (c : String) (cs : List String) (d : String)
    → includes (insert_sorted c cs) d ≡ (str_eq c d || includes cs d)
unfolding insert_sorted
includes-insert_sorted c [] d = refl
includes-insert_sorted c (x ∷ cs) d = ground (arith, includes-insert_sorted c cs d)

includes-sort : (cs : List String) (d : String) → includes (sort cs) d ≡ includes cs d
unfolding sort
includes-sort [] d = refl
includes-sort (c ∷ cs) d = ground (arith, includes-insert_sorted c (sort cs) d, includes-sort cs d)

-- A subject has a capability exactly when an active assignment grants it, or it is
-- `monitoring.read` and an active assignment grants one of the two rights to encode.
pub has_capability_lem :
    (assignments : List Assignment) (d : String)
    → has_capability assignments d ≡ (
        granted assignments d
        || (str_eq "monitoring.read" d
            && (granted assignments "daily-metrics.encode"
                || granted assignments "monitoring.station.encode")))
unfolding has_capability effective_capabilities
has_capability_lem assignments d = ground (
  arith,
  includes-sort (imply_all (grant_all assignments []) (grant_all assignments [])) d,
  includes-imply_all (grant_all assignments []) (grant_all assignments []) d,
  any-implied (grant_all assignments []) d,
  includes-grant_all assignments [] d,
  includes-grant_all assignments [] "daily-metrics.encode",
  includes-grant_all assignments [] "monitoring.station.encode",
)

includes-choice :
    (k1 k2 k3 : Bool) (a q o s : List String) (d : String)
    → includes (if k1 then a else if k2 then q else if k3 then o else []) d ≡ true
    → includes (a ++ q ++ o ++ s) d ≡ true
includes-choice k1 k2 k3 a q o s d h =
    rw (includes-append (a ++ q ++ o) s d, includes-append (a ++ q) o d, includes-append a q d)
      (ground arith)

bundle-known :
    (key d : String)
    → includes (role_bundle_capabilities key) d ≡ true
    → includes known_capabilities d ≡ true
unfolding role_bundle_capabilities known_capabilities
bundle-known key d h =
    includes-choice (str_eq key "admin") (str_eq key "qi") (str_eq key "operator")
      admin_capabilities qi_capabilities operator_capabilities standalone_capabilities d h

known-monitoring_read :
    (d : String) → str_eq "monitoring.read" d ≡ true → includes known_capabilities d ≡ true
known-monitoring_read d h =
    subst (λ c. includes known_capabilities c ≡ true) ((eq_iff "monitoring.read" d).0 h)
      (unfold known_capabilities in refl)

granted-known :
    (assignments : List Assignment) (d : String)
    → granted assignments d ≡ true
    → includes known_capabilities d ≡ true
granted-known [] d h = cc
granted-known (a ∷ rest) d h =
    ground (arith, granted-known rest d, bundle-known a.key d, eq_iff a.key d)

-- Every capability that a subject has is a known one: an unknown key, of a capability or of a role
-- bundle, grants nothing.
pub has_capability-known :
    (assignments : List Assignment) (d : String)
    → has_capability assignments d ≡ true
    → includes known_capabilities d ≡ true
has_capability-known assignments d h =
    let by_cases = (has_capability_lem assignments d) in
    ground (arith, by_cases, granted-known assignments d, known-monitoring_read d)

granted-inactive :
    (assignments : List Assignment) (d : String)
    → All (λ a. is_active a.status ≡ false) assignments
    → granted assignments d ≡ false
granted-inactive [] d h = refl
granted-inactive (a ∷ rest) d h = ground (arith, granted-inactive rest d h.1)

-- A subject without an active assignment has no capability.
pub has_capability-inactive :
    (assignments : List Assignment) (d : String)
    → All (λ a. is_active a.status ≡ false) assignments
    → has_capability assignments d ≡ false
has_capability-inactive assignments d h = ground (
  arith,
  has_capability_lem assignments d,
  granted-inactive assignments d h,
  granted-inactive assignments "daily-metrics.encode" h,
  granted-inactive assignments "monitoring.station.encode" h,
)
