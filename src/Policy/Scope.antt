-- ===== src/Policy/Scope.antt =====
-- What the user-selected scopes of `_resource_scope_allowed` cover.
use desk_pilot_agent.Base.{
  String, ◌≡◌, refl, ◌≢◌, ◌⊎◌, inl, inr, true, false, Option, none, some, List, [], ◌∷◌, arith,
  Bool-cases, any_of, All, ap,
}
use mathlib.Core.List.{Mem, mem-cons_self, mem-cons_of_mem}
use desk_pilot_agent.Base.Text.{eq_iff, mem}
use desk_pilot_agent.Base.Text.Sets.{eq_of_str_eq, eq_of_texts_eq}
use desk_pilot_agent.Policy.Risk.{r0, r1}
use desk_pilot_agent.Policy.Resource.{PolicyResource, scope_key, same_scope_key}
use desk_pilot_agent.Policy.Request.{ToolAuthorizationRequest}
use desk_pilot_agent.Policy.Engine.{
  Engine, no_texts, metadata_read, move_source, move_destination, scopes_configured, one_path,
  disk_usage_selected, by_operation, is_two, file_move_shape, move_endpoints,
  resource_scope_allowed,
}

-- A user-selected disk query: the facts of the known contract, no effect, no network, no egress, and
-- one resource, a path whose metadata is read.
pub record IsDiskQuery (e : Engine) (r : ToolAuthorizationRequest) : Type 0 where
  pub actor : r.actor ≡ "local_user"
  pub tool : r.tool_name ≡ "computer.disk_usage"
  pub version : r.tool_version ≡ "1.0.0"
  pub contract : r.contract_digest ≡ e.disk_usage_digest
  pub level : r.risk_level ≡ r0
  pub capabilities : r.capabilities ≡ metadata_read ∷ []
  pub no_effects : r.side_effects ≡ []
  pub final : r.reversible ≡ false
  pub offline : r.network_access ≡ false
  pub inside : r.data_egress ≡ false
  pub path : PolicyResource
  pub only : r.resources ≡ path ∷ []
  pub kind : path.kind ≡ "filesystem_path"
  pub operations : path.operations ≡ metadata_read ∷ []

-- A user-selected move: the facts of the known contract, the one effect on the file system, no
-- network, no egress, one interactive call, and two resources, in either order: a source path of
-- known version, and another path as the destination, of which no version is expected.
pub record IsFileMove (e : Engine) (r : ToolAuthorizationRequest) : Type 0 where
  pub actor : r.actor ≡ "local_user"
  pub tool : r.tool_name ≡ "file.move"
  pub version : r.tool_version ≡ "1.0.0"
  pub contract : r.contract_digest ≡ e.file_move_digest
  pub level : r.risk_level ≡ r1
  pub effects : r.side_effects ≡ "filesystem_write" ∷ []
  pub undoable : r.reversible ≡ true
  pub offline : r.network_access ≡ false
  pub inside : r.data_egress ≡ false
  pub asked : r.interactive ≡ true
  pub single : r.batch_count ≡ 1
  pub capabilities : r.capabilities ≡ move_destination ∷ move_source ∷ []
  pub source : PolicyResource
  pub destination : PolicyResource
  pub both : (r.resources ≡ source ∷ destination ∷ []) ⊎ (r.resources ≡ destination ∷ source ∷ [])
  pub source_kind : source.kind ≡ "filesystem_path"
  pub destination_kind : destination.kind ≡ "filesystem_path"
  pub reads : source.operations ≡ move_source ∷ []
  pub writes : destination.operations ≡ move_destination ∷ []
  pub distinct : source.identifier ≢ destination.identifier
  pub versioned : source.version_digest ≢ none
  pub fresh : destination.version_digest ≡ none

one_path_cases :
    (rs : List PolicyResource)
    → one_path rs ≡ true
    → (p : PolicyResource) × (rs ≡ p ∷ [])
      × (p.kind ≡ "filesystem_path")
      × (p.operations ≡ metadata_read ∷ [])
unfolding one_path
one_path_cases [] h = cc
one_path_cases (p ∷ []) h =
    (p, refl, ground (arith, eq_iff p.kind "filesystem_path"), eq_of_texts_eq _ _ (ground arith))
one_path_cases (p ∷ q ∷ rs) h = cc

no_texts_nil : (xs : List String) → no_texts xs ≡ true → xs ≡ []
unfolding no_texts
no_texts_nil [] h = refl
no_texts_nil (x ∷ xs) h = cc

IsDiskQuery-of_selected :
    (e : Engine) (r : ToolAuthorizationRequest) → disk_usage_selected e r ≡ true → IsDiskQuery e r
unfolding disk_usage_selected
IsDiskQuery-of_selected e r h =
    let (p, only, kind, operations) = one_path_cases r.resources (ground arith) in
    record {
      actor = eq_of_str_eq _ _ (ground arith);
      tool = eq_of_str_eq _ _ (ground arith);
      version = eq_of_str_eq _ _ (ground arith);
      contract = eq_of_str_eq _ _ (ground arith);
      level = ground arith;
      capabilities = eq_of_texts_eq _ _ (ground arith);
      final = ground arith;
      offline = ground arith;
      inside = ground arith;
      no_effects = no_texts_nil _ (ground arith);
      path = p;
      only = only;
      kind = kind;
      operations = operations;
    }

-- The lookup among two resources.
by_operation_two :
    (op : String) (a b : PolicyResource) {p : PolicyResource}
    → by_operation op (a ∷ b ∷ []) ≡ some p
    → ((p ≡ b) × (mem op b.operations ≡ true)) ⊎ ((p ≡ a) × (mem op a.operations ≡ true))
unfolding by_operation
by_operation_two op a b h = ground arith

is_two_cases :
    (rs : List PolicyResource)
    → is_two rs ≡ true
    → (a : PolicyResource) × (b : PolicyResource) × (rs ≡ a ∷ b ∷ [])
unfolding is_two
is_two_cases [] h = cc
is_two_cases (a ∷ []) h = cc
is_two_cases (a ∷ b ∷ []) h = (a, b, refl)
is_two_cases (a ∷ b ∷ c ∷ rs) h = cc

same_scope_key_eq : (a b : String × String) → same_scope_key a b ≡ true → a ≡ b
unfolding same_scope_key
same_scope_key_eq (k, i) (l, j) h = ground (arith, eq_iff k l, eq_iff i j)

scope_among :
    (k : String × String) (scopes : List (String × String))
    → any_of (λ s. same_scope_key k s) scopes ≡ true
    → Mem k scopes
unfolding any_of
scope_among k [] h = cc
scope_among k (s ∷ ss) h = elim (Bool-cases (same_scope_key k s)) [
  | inl here ↦ rw (same_scope_key_eq k s here) mem-cons_self
  | inr there ↦ mem-cons_of_mem s (scope_among k ss (ground arith))
]

configured :
    (e : Engine) (rs : List PolicyResource)
    → scopes_configured e rs ≡ true
    → All (λ p. Mem (scope_key p) e.allowed_resource_scopes) rs
unfolding scopes_configured
configured e [] h = tt
configured e (p ∷ rs) h = (
  scope_among (scope_key p) e.allowed_resource_scopes (ground arith),
  configured e rs (ground arith),
)

-- The endpoints that pass the final `return`.
record Endpoints (source destination : PolicyResource) : Type 0 where
  source_kind : source.kind ≡ "filesystem_path"
  destination_kind : destination.kind ≡ "filesystem_path"
  reads : source.operations ≡ move_source ∷ []
  writes : destination.operations ≡ move_destination ∷ []
  distinct : source.identifier ≢ destination.identifier
  versioned : source.version_digest ≢ none
  fresh : destination.version_digest ≡ none

move_endpoints_cases :
    (s d : Option PolicyResource)
    → move_endpoints s d ≡ true
    → (source : PolicyResource) × (destination : PolicyResource) × (s ≡ some source)
      × (d ≡ some destination)
      × Endpoints source destination
unfolding move_endpoints
move_endpoints_cases none d h = cc
move_endpoints_cases (some s) none h = cc
move_endpoints_cases (some s) (some d) h = (
  s,
  d,
  refl,
  refl,
  record {
    source_kind = eq_of_str_eq _ _ (ground arith);
    destination_kind = eq_of_str_eq _ _ (ground arith);
    reads = eq_of_texts_eq _ _ (ground arith);
    writes = eq_of_texts_eq _ _ (ground arith);
    distinct = λ same. ground (arith, eq_iff s.identifier d.identifier);
    versioned = λ none_given. ground arith;
    fresh = ground arith;
  },
)

two_sides :
    (rs : List PolicyResource) (a b s d : PolicyResource)
    → rs ≡ a ∷ b ∷ []
    → by_operation move_source rs ≡ some s
    → by_operation move_destination rs ≡ some d
    → s ≢ d
    → (rs ≡ s ∷ d ∷ []) ⊎ (rs ≡ d ∷ s ∷ [])
two_sides rs a b s d two found target distinct = ground (
  arith,
  by_operation_two move_source a b {p = s} (rw two at found),
  by_operation_two move_destination a b {p = d} (rw two at target),
)

IsFileMove-of_shape :
    (e : Engine) (r : ToolAuthorizationRequest)
    → file_move_shape e r ≡ true
    → move_endpoints
        (by_operation move_source r.resources)
        (by_operation move_destination r.resources)
      ≡ true
    → IsFileMove e r
unfolding file_move_shape
IsFileMove-of_shape e r h m =
    let (a, b, two) = is_two_cases r.resources (ground arith) in
    let (source, destination, found, target, ends) = move_endpoints_cases _ _ m in
    record {
      actor = eq_of_str_eq _ _ (ground arith);
      tool = eq_of_str_eq _ _ (ground arith);
      version = eq_of_str_eq _ _ (ground arith);
      contract = eq_of_str_eq _ _ (ground arith);
      level = ground arith;
      effects = eq_of_texts_eq _ _ (ground arith);
      undoable = ground arith;
      offline = ground arith;
      inside = ground arith;
      asked = ground arith;
      single = ground arith;
      capabilities = eq_of_texts_eq _ _ (ground arith);
      source_kind = ends.source_kind;
      destination_kind = ends.destination_kind;
      source = source;
      destination = destination;
      both =
          two_sides r.resources a b source destination two found target
            (λ same. ends.distinct (ap (λ (p : PolicyResource). p.identifier) same));
      reads = ends.reads;
      writes = ends.writes;
      distinct = ends.distinct;
      versioned = ends.versioned;
      fresh = ends.fresh;
    }

disk_allowed :
    (e : Engine) (r : ToolAuthorizationRequest)
    → disk_usage_selected e r ≡ true
    → e.allow_user_selected_disk_usage ≡ true
unfolding disk_usage_selected
disk_allowed e r h = ground arith

-- A scope that is allowed is one of three: every resource is in the configured scopes; or disk
-- queries are selectable and the request is one of the local user, under the known contract, of one
-- path whose metadata it reads, with no effects, network or egress; or moves are selectable and the
-- request is one of the local user, under the known contract, one interactive reversible call
-- without network or egress, from a path of known version to another path with none.
pub resource_scope_cases :
    (e : Engine) (r : ToolAuthorizationRequest)
    → resource_scope_allowed e r ≡ true
    → All (λ p. Mem (scope_key p) e.allowed_resource_scopes) r.resources
      ⊎ ((e.allow_user_selected_disk_usage ≡ true) × IsDiskQuery e r)
      ⊎ ((e.allow_user_selected_file_move ≡ true) × IsFileMove e r)
unfolding resource_scope_allowed
resource_scope_cases e r h = elim (Bool-cases (scopes_configured e r.resources)) [
  | inl listed ↦ inl (configured e r.resources listed)
  | inr unlisted ↦ inr (elim (Bool-cases (disk_usage_selected e r)) [
    | inl disk ↦ inl (disk_allowed e r disk, IsDiskQuery-of_selected e r disk)
    | inr other ↦ inr (ground arith, IsFileMove-of_shape e r (ground arith) (ground arith))
  ])
]
