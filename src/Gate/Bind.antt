-- ===== src/Gate/Bind.antt =====
-- `bindScopeParameters` of packages/utilize/src/gate.ts with the code it calls. A regular expression over
-- a query's text, `toLowerCase` on one letter and an array's index keys are the JavaScript engine's.
use gqlize.Common.{
  ℕ, suc, String, Bool, false, not, ◌||◌, Option, none, some, List, [], ◌∷◌, ◌++◌, Dict, keys,
  lookup, put, remove, keep, any, contains, Result, ok, err, if◌then◌else◌, ◌==◌,
}
use gqlize.Js.Value.{
  Value, undefined, null, arr, obj, Items, nil, cons, Fields, end, field, strict_eq, entries,
}
use gqlize.Gate.Allow.{Error, scope_configuration}
use gqlize.Gate.Resolve.{ResolvedScope, unscoped, denied, scoped}

-- What the engine computes: the `:scope` names in a query, whether a name is one, `toLowerCase` of the
-- first letter with the rest kept, the key of an index, and the text of a list of operator names.
pub record Scan : Type 0 where
  pub match_all : String → List String
  pub is_scope_name : String → Bool
  pub lowercase : String → String
  pub index_key : ℕ → String
  pub operators : String → List String → String

pub record Collected : Type 0 where
  pub into : Dict (List Value)
  pub unbindable : List String

abbrev pub values_at : String → Dict (List Value) → List Value
values_at name d = elim (lookup name d) [ some vs ↦ vs | none ↦ [] ]

abbrev pub pin : String → Value → Collected → Collected
pin name v c = record c { into = put name (values_at name c.into ++ v ∷ []) c.into }

abbrev pub unbind : String → Collected → Collected
unbind what c = record c { unbindable = c.unbindable ++ what ∷ [] }

module _ (s : Scan) where
  -- The text without its first five letters, "scope".
  unfoldable pub scope_field_of : String → String
  scope_field_of (String.◌∷◌ a (String.◌∷◌ b (String.◌∷◌ c (String.◌∷◌ d (String.◌∷◌ e rest))))) =
      s.lowercase rest
  scope_field_of short = s.lowercase ""

  -- a `Set` of the names in the text, then of those in the arguments
  abbrev pub include_all : List String → List String → List String
  include_all [] found = found
  include_all (x ∷ xs) found = include_all xs (if contains found x then found else found ++ x ∷ [])

  unfoldable pub scope_parameters_in : Option String → List String → List String
  scope_parameters_in none args = include_all (keep s.is_scope_name args) []
  scope_parameters_in (some query) args =
      include_all (keep s.is_scope_name args) (include_all (s.match_all query) [])

  abbrev pub collect_operators : String → Fields → Collected → Collected
  collect_operators key (field op v end) c =
      if op == "eq" then pin key v c else unbind (s.operators key (op ∷ [])) c
  collect_operators key ops c = unbind (s.operators key (keys (entries ops))) c

  abbrev pub collect_condition : String → Value → Collected → Collected
  collect_condition key (obj ops) c = collect_operators key ops c
  collect_condition key v c = pin key v c

  unfoldable mutual
    pub collect_scope_equalities : Value → Collected → Collected
    collect_scope_equalities (obj fs) c = collect_fields fs c
    collect_scope_equalities (arr vs) c = collect_indices 0 vs c
    collect_scope_equalities v c = c

    pub collect_fields : Fields → Collected → Collected
    collect_fields end c = c
    collect_fields (field key v fs) c =
        let below = collect_branches v c in
        collect_fields fs (
          if key == "and"
          then below
          else if key == "or" || key == "not"
          then unbind key c
          else collect_condition key v c)

    -- an array in the place of a filter: its indices are the keys
    pub collect_indices : ℕ → Items → Collected → Collected
    collect_indices i nil c = c
    collect_indices i (cons v vs) c =
        collect_indices (suc i) vs (collect_condition (s.index_key i) v c)

    pub collect_branches : Value → Collected → Collected
    collect_branches (arr vs) c = collect_items vs c
    collect_branches (obj fs) c = collect_fields fs c
    collect_branches v c = c

    pub collect_items : Items → Collected → Collected
    collect_items nil c = c
    collect_items (cons v vs) c = collect_items vs (collect_scope_equalities v c)

  -- `values.length > 1 && values.some((value) => value !== values[0])`
  abbrev pub clash : List Value → Bool
  clash [] = false
  clash (v ∷ vs) = any (λ w. not (strict_eq w v)) vs

  abbrev pub first_or_null : List Value → Value
  first_or_null [] = null
  first_or_null (v ∷ vs) = v

  -- The loop over the parameters: what is bound and what is left, or nothing where it denies.
  unfoldable pub bind_each :
      List String → Dict (List Value) → Dict Value → Option (Dict Value × Dict (List Value))
  unfolding scope_field_of
  bind_each [] left bound = some (bound, left)
  bind_each (p ∷ ps) left bound =
      let name = scope_field_of p in
      let values = values_at name left in
      let rest = bind_each ps (remove name left) (put p (first_or_null values) bound) in
      if clash values then none else rest

  -- the check for what no parameter carries; a `none` is the deny
  abbrev pub checked : List String → Dict Value → Result Error (Option (Dict Value))
  checked [] bound = ok (some bound)
  checked (name ∷ names) bound = err (scope_configuration (name ∷ names))

  abbrev pub settle_binding :
      Option (Dict Value × Dict (List Value)) → List String → Result Error (Option (Dict Value))
  settle_binding none unbindable = ok none
  settle_binding (some (bound, left)) unbindable = checked (keys left ++ unbindable) bound

  abbrev pub bind_where : Option String → List String → Value → Result Error (Option (Dict Value))
  bind_where query args w =
      let c = collect_scope_equalities w (record { into = []; unbindable = [] }) in
      settle_binding (bind_each (scope_parameters_in query args) c.into []) c.unbindable

  unfoldable pub bind_scope_parameters :
      Option String → List String → ResolvedScope → Result Error (Option (Dict Value))
  bind_scope_parameters query args denied = ok none
  bind_scope_parameters query args unscoped = bind_where query args undefined
  bind_scope_parameters query args (scoped e) = bind_where query args e.where_part
