-- ===== src/Policy/Resource.antt =====
-- backend/src/deskpilot/domain/policy.py: `PolicyResource`, its validators, its JSON form and digest.
use desk_pilot_agent.Base.{
  ℕ, String, Bool, true, false, not, ◌&&◌, ◌||◌, Option, none, some, List, [], ◌∷◌, leb, ltb, ◌==◌,
  if◌then◌else◌, length, any_of, all_of,
}
use desk_pilot_agent.Base.Text.{str_eq, str_lt, texts_eq, opt_eq, sorted_set}
use desk_pilot_agent.Base.Json.{
  Json, Items, str, arr, obj, nil, cons, end, field, texts, opt_text, codes, is_digit, is_lower,
  is_sha256, Hashing,
}
use desk_pilot_agent.Base.Result.{Result, ok, err, ◌>>=◌, ◌>>◌, raise_if}

-- What a validator refuses.
pub data ValidationError : Type 0 where
  bad_kind bad_identifier bad_operation bad_digest bad_display_name : ValidationError
  bad_fact no_resources duplicate_resource bad_batch_count : ValidationError
  bad_policy_revision bad_rule_id bad_reason_code bad_decision_id bad_approval_ttl
        approval_ttl_presence :
      ValidationError
  partial_approval approval_after_expiry scope_mismatch id_mismatch : ValidationError

pub record PolicyResource : Type 0 where
  pub kind : String
  pub identifier : String
  pub operations : List String
  pub version_digest : Option String
  pub display_name : Option String

-- `^[a-z][a-z0-9_]{0,63}$`
is_kind_text : List ℕ → Bool
unfolding is_digit is_lower all_of
is_kind_text [] = false
is_kind_text (c ∷ cs) =
    is_lower c && leb (length cs) 63 && all_of (λ d. is_lower d || is_digit d || d == b'_') cs

-- `not item or len(item) > 200`
unfoldable pub bad_text : String → Bool
unfolding codes
bad_text item = length (codes item) == 0 || ltb 200 (length (codes item))

opt_sha256 : Option String → Bool
unfolding is_sha256
opt_sha256 none = true
opt_sha256 (some d) = is_sha256 d

opt_display_name : Option String → Bool
unfolding codes
opt_display_name none = true
opt_display_name (some d) = leb 1 (length (codes d)) && leb (length (codes d)) 500

-- `normalize_operations`
unfoldable pub normalize_operations : List String → Result ValidationError (List String)
unfolding bad_text sorted_set any_of
normalize_operations value = do
  raise_if (any_of bad_text value) bad_operation
  ok (sorted_set value)

-- `normalize_fact_sets`
unfoldable pub normalize_fact_sets : List String → Result ValidationError (List String)
unfolding bad_text sorted_set any_of
normalize_fact_sets value = do raise_if (any_of bad_text value) bad_fact; ok (sorted_set value)

-- Construction of a `PolicyResource`: the field checks, and the operations in normal form.
unfoldable pub create_resource :
    String
    → String
    → List String
    → Option String
    → Option String
    → Result ValidationError PolicyResource
unfolding is_kind_text normalize_operations opt_sha256 opt_display_name codes
create_resource kind identifier operations version_digest display_name = do
  raise_if (not (is_kind_text (codes kind))) bad_kind
  raise_if (ltb (length (codes identifier)) 1 || ltb 32767 (length (codes identifier)))
      bad_identifier
  normal ← normalize_operations operations
  raise_if (not (opt_sha256 version_digest)) bad_digest
  raise_if (not (opt_display_name display_name)) bad_display_name
  ok (record {
    kind = kind;
    identifier = identifier;
    operations = normal;
    version_digest = version_digest;
    display_name = display_name;
  })

-- `scope_key` of two resources is the same pair.
unfoldable pub same_scope_key : String × String → String × String → Bool
same_scope_key (k, i) (l, j) = str_eq k l && str_eq i j

abbrev pub scope_key : PolicyResource → String × String
scope_key r = (r.kind, r.identifier)

-- No two resources have the same scope key.
unfoldable pub unique_keys : List PolicyResource → Bool
unfolding same_scope_key any_of
unique_keys [] = true
unique_keys (r ∷ rs) =
    not (any_of (λ q. same_scope_key (scope_key r) (scope_key q)) rs) && unique_keys rs

-- The sort key of two resources with distinct scope keys: the kind, then the identifier.
unfoldable pub key_lt : PolicyResource → PolicyResource → Bool
unfolding str_lt
key_lt a b = if str_eq a.kind b.kind then str_lt a.identifier b.identifier else str_lt a.kind b.kind

unfoldable pub insert_resource : PolicyResource → List PolicyResource → List PolicyResource
unfolding key_lt
insert_resource r [] = r ∷ []
insert_resource r (q ∷ qs) =
    let rest = insert_resource r qs in if key_lt r q then r ∷ q ∷ qs else q ∷ rest

unfoldable pub sort_resources : List PolicyResource → List PolicyResource
unfolding insert_resource
sort_resources [] = []
sort_resources (r ∷ rs) = insert_resource r (sort_resources rs)

-- `normalize_resources`, and the `min_length=1` of the field.
unfoldable pub normalize_resources :
    List PolicyResource → Result ValidationError (List PolicyResource)
unfolding unique_keys sort_resources
normalize_resources [] = err no_resources
normalize_resources (r ∷ rs) = do
  raise_if (not (unique_keys (r ∷ rs))) duplicate_resource
  ok (sort_resources (r ∷ rs))

-- `model_dump(mode="json")` of a resource and of the tuple of them.
unfoldable pub resource_json : PolicyResource → Json
unfolding texts opt_text
resource_json r = obj (
    field "kind" (str r.kind) (
      field "identifier" (str r.identifier) (
        field "operations" (arr (texts r.operations)) (
          field "version_digest" (opt_text r.version_digest)
            (field "display_name" (opt_text r.display_name) end)))))

unfoldable pub resources_json : List PolicyResource → Items
unfolding resource_json
resources_json [] = nil
resources_json (r ∷ rs) = cons (resource_json r) (resources_json rs)

unfoldable pub policy_resource_scope_digest : Hashing → List PolicyResource → String
unfolding resources_json
policy_resource_scope_digest h rs =
    h.sha256_digest (obj (field "resources" (arr (resources_json rs)) end))

-- `a == b` for resources and for tuples of them.
unfoldable pub resource_eq : PolicyResource → PolicyResource → Bool
unfolding texts_eq opt_eq
resource_eq a b =
    str_eq a.kind b.kind
    && str_eq a.identifier b.identifier
    && texts_eq a.operations b.operations
    && opt_eq a.version_digest b.version_digest
    && opt_eq a.display_name b.display_name

unfoldable pub resources_eq : List PolicyResource → List PolicyResource → Bool
unfolding resource_eq
resources_eq [] [] = true
resources_eq (a ∷ as_) (b ∷ bs) = resource_eq a b && resources_eq as_ bs
resources_eq _ _ = false
