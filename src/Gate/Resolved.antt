-- ===== src/Gate/Resolved.antt =====
-- `resolveScope` of packages/utilize/src/gate.ts fails closed.
use gqlize.Common.{true, Option, some, List, ok, ◌≡◌}
use gqlize.Js.Value.{Value, is_nullish}
use gqlize.Gate.Allow.{Member, predicate}

-- The predicate answered `undefined` or `null`.
abbrev pub HasNoOpinion : Option Member → List Value → Type 0
HasNoOpinion (some (predicate f)) args = (v : Value) × (f args ≡ ok v) × (is_nullish v ≡ true)
HasNoOpinion m args = ⊥
