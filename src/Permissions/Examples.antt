-- ===== src/Permissions/Examples.antt =====
-- The theorems about packages/utilize/src/permissions.ts at concrete inputs.
use gqlize.Common.{Bool, String, true, false, none, some, [], ◌∷◌, ok, ◌≡◌, refl, lookup}
use gqlize.Js.Value.{Value, str, arr, obj, nil, cons, end, field}
use gqlize.Gate.Allow.{is_allowed, member}
use gqlize.Gate.Where.{logical}
use gqlize.Valkey.Match.{Engine, Row}
use gqlize.Permissions.Gates.{
  decide_first, decide_both, decide_two, decide_key, first_opinion, settled, prop,
  unknown_rule_keys,
}
use gqlize.Permissions.Scope.{
  compare_leaf, ScopeSugarLeaf, short, own, group, any_of, leaf_of, no_leaves, nothing, part,
  compile_leaf, ref_of,
}
use gqlize.Permissions.Sugar.{permits}
use gqlize.Permissions.Bag.{RoleRuleTree, bag_of, default_principal}
use gqlize.Permissions.Decisions.{one_arg_gate-answers}
use gqlize.Permissions.Verdicts.{Verdict, said, silent, places, two_arg_gate-verdict}
use gqlize.Permissions.Meaning.{compile_leaf-means, lets_through, forced, is_plain}
use gqlize.Permissions.Creates.{any_of-create}

abbrev key_of : Value → String
key_of (str s) = s
key_of v = "undefined"

-- A role that may query anything but extensions, and sees no password.
abbrev role : RoleRuleTree
role = record {
  gates = obj (
      field "query" (str "allow") (
        field "extensions" (str "deny")
          (field "field" (obj (field "User" (obj (field "password" (str "deny") end)) end)) end)));
  scope = none;
}

one_arg_gate-answers_test :
    is_allowed false
      (member (some (bag_of key_of role true default_principal)) "queryExtension")
      (str "stats" ∷ [])
    ≡ ok (
        settled
          (first_opinion role.gates
            (decide_first key_of)
            (str "stats" ∷ [])
            ("queryExtension" ∷ "extensions" ∷ []))
          true)
unfolding lookup
one_arg_gate-answers_test =
    one_arg_gate-answers key_of role true default_principal "queryExtension"
      ("queryExtension" ∷ "extensions" ∷ []) false (str "stats" ∷ []) refl

two_arg_gate-verdict_example :
    (b : Bool) × ((is_allowed false
          (member (some (bag_of key_of role false default_principal)) "mutationCreateInput")
          (str "User" ∷ str "password" ∷ [])
        ≡ ok b)
      × Verdict role.gates false
          (places ("mutationCreateInput" ∷ "field" ∷ []) "User" "password")
          b)
unfolding lookup
two_arg_gate-verdict_example =
    two_arg_gate-verdict key_of role false default_principal "mutationCreateInput"
      ("mutationCreateInput" ∷ "field" ∷ []) false (str "User") (str "password") refl

-- a blanket word comes before the one for a name
blanket_test :
    Verdict
      (obj (field "field" (obj (field "User" (str "allow") end)) end))
      true
      (places ("field" ∷ []) "User" "password")
      true
unfolding prop lookup
blanket_test =
    silent ("field" ∷ []) refl refl
      (said true ("field" ∷ "User" ∷ []) (("field" ∷ "User" ∷ "password" ∷ []) ∷ []) refl)

-- the fallback on the rules key "field" denies
password_test :
    settled
      (first_opinion role.gates
        (decide_both key_of)
        (str "User" ∷ str "password" ∷ [])
        ("mutationCreateInput" ∷ "field" ∷ []))
      false
    ≡ false
unfolding first_opinion decide_both decide_two decide_key prop lookup
password_test = refl

unknown_rule_test :
    unknown_rule_keys (obj (field "feild" (str "deny") (field "extensions" (str "deny") end)))
    ≡ "feild" ∷ []
unfolding unknown_rule_keys
unknown_rule_test = refl

abbrev engine : Engine
engine = record {
  greater = λ a b. false;
  greater_eq = λ a b. false;
  less = λ a b. false;
  less_eq = λ a b. false;
  text = λ v. "";
  regexp_test = λ s f t. false;
  ends_with = λ s t. false;
  index_key = λ i. "0";
}

abbrev user : Value
user = obj (field "id" (str "u1") (field "groupIds" (arr (cons (str "g1") nil)) end))

abbrev mine_or_ours : ScopeSugarLeaf
mine_or_ours =
    any_of (leaf_of (own (short "ownerId")) (leaf_of (group (short "groupId")) no_leaves))

abbrev row : Row
row = ("ownerId", str "u2") ∷ ("groupId", str "g1") ∷ []

compile_leaf-means_example :
    (lets_through engine row (compile_leaf user "read" mine_or_ours)
      ≡ some (permits engine row user mine_or_ours))
    × (forced engine row (compile_leaf user "read" mine_or_ours) ≡ none)
unfolding is_plain logical ref_of
compile_leaf-means_example = compile_leaf-means engine row user "read" mine_or_ours refl refl

any_of-create_example :
    compile_leaf user "create" (any_of (leaf_of (own (short "ownerId")) no_leaves)) ≡ nothing
unfolding prop ref_of lookup
any_of-create_example = any_of-create user (leaf_of (own (short "ownerId")) no_leaves) refl

-- though the same leaf alone forces the owner
own_create_test :
    compile_leaf user "create" (own (short "ownerId"))
    ≡ part none (some (("ownerId", str "u1") ∷ []))
unfolding compile_leaf compare_leaf prop ref_of lookup
own_create_test = refl
