-- ===== src/Identity/Policy.antt =====
-- From a subject's assignments to its capabilities: app/identity/policy.ts. A `Set` is the list of
-- its members in the order of their insertion.
pub mod Laws
mod Tests
use Prim.Native.Nat.{Ordering}
use Prim.Native.String.{compare}
use bnpi_pats_api.Base.{
  String, List, [], ◌∷◌, ◌++◌, Bool, true, false, ◌&&◌, ◌||◌, not, str_eq, includes, any, Option,
  none, some, if◌then◌else◌, get_or,
}

pub data AssignmentKind : Type 0 where
  capability role_bundle : AssignmentKind

pub data AssignmentStatus : Type 0 where
  active suspended revoked : AssignmentStatus

-- `SubjectAssignmentRecord` of app/identity/types.ts.
pub record Assignment : Type 0 where
  pub kind : AssignmentKind
  pub key : String
  pub status : AssignmentStatus

abbrev pub admin_capabilities : List String
admin_capabilities =
    "catalog.read" ∷ "catalog.manage" ∷ "source-revision.approve" ∷ "planning.read"
    ∷ "planning.manage" ∷ "material-requirement.manage" ∷ "execution.read" ∷ "execution.write"
    ∷ "inventory.read" ∷ "inventory.receive" ∷ "inventory.issue" ∷ "reconciliation.read"
    ∷ "monitoring.read" ∷ "monitoring.station.encode" ∷ "daily-metrics.encode" ∷ "dashboard.read"
    ∷ "quality.read" ∷ "quality.resolve" ∷ "reconciliation.resolve" ∷ "identity.read"
    ∷ "capabilities.read" ∷ "operations.manage" ∷ []

abbrev pub qi_capabilities : List String
qi_capabilities =
    "quality.read" ∷ "quality.resolve" ∷ "reconciliation.resolve" ∷ "monitoring.read" ∷ []

abbrev pub operator_capabilities : List String
operator_capabilities =
    "execution.read" ∷ "execution.write" ∷ "inventory.read" ∷ "inventory.receive"
    ∷ "inventory.issue" ∷ "monitoring.read" ∷ "monitoring.station.encode" ∷ "dashboard.read" ∷ []

-- `ROLE_BUNDLE_CAPABILITIES[key] ?? []`, for a key that is no member of `Object.prototype`.
unfoldable pub role_bundle_capabilities : String → List String
role_bundle_capabilities key =
    if str_eq key "admin"
    then admin_capabilities
    else if str_eq key "qi"
    then qi_capabilities
    else if str_eq key "operator"
    then operator_capabilities
    else []

abbrev pub standalone_capabilities : List String
standalone_capabilities =
    "monitoring.read" ∷ "monitoring.station.encode" ∷ "daily-metrics.encode" ∷ "quality.read" ∷ []

unfoldable pub known_capabilities : List String
known_capabilities =
    admin_capabilities ++ qi_capabilities ++ operator_capabilities ++ standalone_capabilities

-- `ENCODE_IMPLIES_READ[capability] ?? []`
abbrev pub encode_implies_read : String → List String
encode_implies_read c =
    if str_eq c "daily-metrics.encode"
    then "monitoring.read" ∷ []
    else if str_eq c "monitoring.station.encode"
    then "monitoring.read" ∷ []
    else []

-- `set.add(c)`
unfoldable pub add : String → List String → List String
add c set = if includes set c then set else set ++ c ∷ []

unfoldable pub add_all : List String → List String → List String
add_all [] set = set
add_all (c ∷ cs) set = add_all cs (add c set)

abbrev pub is_active : AssignmentStatus → Bool
is_active active = true
is_active _ = false

-- The body of the loop over the assignments.
unfoldable pub grant : Assignment → List String → List String
grant a set = if not (is_active a.status) then set else elim a.kind [
  | capability ↦ if includes known_capabilities a.key then add a.key set else set
  | role_bundle ↦ add_all (role_bundle_capabilities a.key) set
]

unfoldable pub grant_all : List Assignment → List String → List String
grant_all [] set = set
grant_all (a ∷ rest) set = grant_all rest (grant a set)

-- The loop over the snapshot `[...capabilities]`.
unfoldable pub imply_all : List String → List String → List String
imply_all [] set = set
imply_all (c ∷ cs) set = imply_all cs (add_all (encode_implies_read c) set)

-- `.sort()`: the members are ASCII, where the order of the code units is that of the texts.
unfoldable pub insert_sorted : String → List String → List String
insert_sorted c [] = c ∷ []
insert_sorted c (d ∷ ds) =
    let rest = insert_sorted c ds in elim (compare c d) [ Ordering.gt ↦ d ∷ rest | _ ↦ c ∷ d ∷ ds ]

unfoldable pub sort : List String → List String
sort [] = []
sort (c ∷ cs) = insert_sorted c (sort cs)

unfoldable pub effective_capabilities : List Assignment → List String
effective_capabilities assignments =
    let granted = grant_all assignments [] in sort (imply_all granted granted)

unfoldable pub has_capability : List Assignment → String → Bool
has_capability assignments wanted = includes (effective_capabilities assignments) wanted

unfoldable pub has_any_capability : List Assignment → List String → Bool
has_any_capability assignments wanted = any (includes (effective_capabilities assignments)) wanted
