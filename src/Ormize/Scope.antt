-- ===== src/Ormize/Scope.antt =====
-- packages/ormize/src/scope.ts: the memo of a request's resolved scopes. A context is known by a
-- number, and so is a memo, which two contexts can share. A promise is the result it settles with.
use gqlize.Common.{
  ℕ, suc, String, Bool, true, false, not, ◌&&◌, ◌||◌, Option, none, some, [], Dict, lookup, put,
  Result, ok, err, if◌then◌else◌, ◌==◌, nat_eq,
}
use Prim.Native.String
use gqlize.Js.Value.{Value, undefined, null, str, num}
use gqlize.Gate.Allow.{Error, Permission, Member, predicate, member}
use gqlize.Gate.Where.{merge_scope_where}
use gqlize.Gate.Resolve.{
  ScopeOperation, read, operation_name, ResolvedScope, unscoped, denied, scoped, resolve_scope,
}
use gqlize.Permissions.Gates.{prop}
use gqlize.Permissions.Bag.{or_value}

-- A context: whether it is an object, and what it carries.
pub record Context : Type 0 where
  pub ident : ℕ
  pub is_object : Bool
  pub bag : Value

abbrev pub ScopeMemo : Type 0
ScopeMemo = Dict (Result Error ResolvedScope)

-- The memo that hangs on each context, the memos, whether a predicate is running, how often one was
-- started, and the counter of the opaque keys.
pub record State : Type 0 where
  pub memo_of : ℕ → Option ℕ
  pub memos : ℕ → ScopeMemo
  pub fresh : ℕ
  pub resolving : Bool
  pub runs : ℕ
  pub next_opaque_key : ℕ

abbrev pub update {ℓ} : {A : Type ℓ} → (ℕ → A) → ℕ → A → ℕ → A
update f i a j = if nat_eq i j then a else f j

abbrev pub join : String → String → String
join a b = String.◌++◌ a b

-- `String(n)`, and `JSON.stringify`, which can throw.
pub record Text : Type 0 where
  pub decimal : ℕ → String
  pub json : Value → Option String

abbrev pub principal_id : Value → Value
principal_id bag =
    prop
      (or_value (prop bag "user") (
        or_value (prop bag "principal")
          (or_value (prop (prop bag "req") "user") (prop (prop bag "request") "user"))))
      "id"

module _ (t : Text) where
  abbrev pub json_key : Option String → State → String × State
  json_key (some s) st = (join "\0json:" s, st)
  json_key none st = (
    join "\0opaque:" (t.decimal st.next_opaque_key),
    record st { next_opaque_key = suc st.next_opaque_key },
  )

  abbrev pub id_key : Value → State → String × State
  id_key (str s) st = (s, st)
  id_key (num n) st = (t.decimal n, st)
  id_key undefined st = ("\0anonymous", st)
  id_key null st = ("\0anonymous", st)
  id_key id st = json_key (t.json id) st

  unfoldable pub principal_key : Context → State → String × State
  principal_key c st = id_key (principal_id c.bag) st

-- the memo of a context, a new one where it has none
abbrev pub memo_at : Context → Option ℕ → State → ℕ × State
memo_at c (some i) st = (i, st)
memo_at c none st = (
  st.fresh,
  record st {
    memo_of = update st.memo_of c.ident (some st.fresh);
    memos = update st.memos st.fresh [];
    fresh = suc st.fresh;
  },
)

unfoldable pub memo_for : Context → State → Option ℕ × State
memo_for c st =
    if c.is_object
    then (let (i, st') = memo_at c (st.memo_of c.ident) st in (some i, st'))
    else (none, st)

-- `derived` gets the memo of `source` itself, unless it has one.
abbrev pub share : Option ℕ → Option ℕ → ℕ → State → State
share (some i) none target st = record st { memo_of = update st.memo_of target (some i) }
share m n target st = st

unfoldable pub inherit_scope_memo : Context → Context → State → State
inherit_scope_memo source derived st =
    if source.is_object && derived.is_object
    then share (st.memo_of source.ident) (st.memo_of derived.ident) derived.ident st
    else st

abbrev pub is_function : Option Member → Bool
is_function (some (predicate f)) = true
is_function m = false

-- A permission bag may answer differently each time its scope predicate runs: `permission n` is the
-- bag as its run number `n` finds it.
module _ (t : Text) (permission : ℕ → Option Permission) (def_name : String)
    (operation : ScopeOperation) where
  abbrev pub run : Context → State → Result Error ResolvedScope × State
  run c st = (
    resolve_scope (permission st.runs) def_name operation c.bag,
    record st { runs = suc st.runs },
  )

  abbrev pub memo_key : Context → State → String × State
  memo_key c st =
      let (principal, st') = principal_key t c st in
      (join principal (join "\0" (join def_name (join "\0" (operation_name operation)))), st')

  abbrev pub remembered :
      Option (Result Error ResolvedScope)
      → ℕ
      → String
      → Context
      → State
      → Result Error ResolvedScope × State
  remembered (some cached) i key c st = (cached, st)
  remembered none i key c st =
      let (pending, st') = run c st in
      (pending, record st' { memos = update st'.memos i (put key pending (st'.memos i)) })

  abbrev pub through_memo : Option ℕ → Context → State → Result Error ResolvedScope × State
  through_memo none c st = run c st
  through_memo (some i) c st =
      let (key, st') = memo_key c st in remembered (lookup key (st'.memos i)) i key c st'

  unfoldable pub scope_for : Context → State → Result Error ResolvedScope × State
  scope_for c st =
      if not (is_function (member (permission st.runs) "scope")) || st.resolving
      then (ok unscoped, st)
      else (let (memo, st') = memo_for c st in through_memo memo c st')

-- `applyScopeWhere`; a denied scope never reaches it, and is falsy where it would
unfoldable pub apply_scope_where : Value → ResolvedScope → Value
apply_scope_where user unscoped = user
apply_scope_where user denied = user
apply_scope_where user (scoped e) = merge_scope_where user e.where_part

-- What is thrown: the model and the operation.
abbrev pub ScopeDeniedError : Type 0
ScopeDeniedError = String × ScopeOperation

-- What a denied scope does: whether `ScopeDeniedError` is thrown; `behaviour` is `onScopeMiss`.
unfoldable pub scope_miss :
    String → ScopeOperation → Option String → Result {0, 0} ScopeDeniedError Unit
scope_miss def_name read behaviour = ok tt
scope_miss def_name operation (some behaviour) =
    if behaviour == "throw" then err (def_name, operation) else ok tt
scope_miss def_name operation none = ok tt
