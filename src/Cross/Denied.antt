-- ===== src/Cross/Denied.antt =====
-- packages/ormize/src/cross-adapter.ts: writes that a scope does not let through.
use gqlize.Common.{
  String, Bool, true, false, Option, none, List, [], ◌∷◌, Result, ok, err, ◌≡◌, ◌≢◌, refl, ap, ◌∙◌,
  sym, subst, arith, ◌⊎◌, inl, inr, Bool-cases,
}
use gqlize.Js.Value.{Value}
use gqlize.Gate.Resolve.{ScopeOperation, read, update}
use gqlize.Cross.Host.{Association, Scoped, Options, Act, pure, after, for_each, Host}
use gqlize.Cross.Keys.{request_from, missed, settle_writable, narrow_scope, writable}
use gqlize.Cross.Accessors.{listed, repoint, relink_one, relink}
use gqlize.Cross.Store.{Rows, Store, IsScoped}

module _ {Request Row Where World Fault : Type 0} (h : Host Request Row Where World Fault)
    (s : Store h) (laws : IsScoped h s) where
  -- A call that, whether it returns or throws, leaves every row as it was.
  abbrev Keeps : {A : Type 0} → Act World Fault A → World → Type 0
  Keeps m w = s.rows (m w).0 ≡ s.rows w

  Keeps-after :
      {A B : Type 0} (x : World × Result Fault A) (f : A → Act World Fault B) (all : Rows Row)
      → s.rows x.0 ≡ all
      → ((a : A) (v : World) → x ≡ (v, ok a) → s.rows (f a v).0 ≡ s.rows v)
      → s.rows (after x f).0 ≡ all
  Keeps-after (w, ok a) f all e k = k a w refl ∙ e
  Keeps-after (w, err i) f all e k = e

  -- The answer of the check when a scope denies is not that the row may be written.
  missed-Keeps : (m : String) (op : ScopeOperation) (w : World) → Keeps (missed h m op false) w
  missed-Keeps m op w =
      Keeps-after (h.scope_miss m op w) (λ _. pure false) (s.rows w) (laws.misses m op w)
        (λ a v e. refl)

  pub missed_never :
      (m : String) (op : ScopeOperation) (w v : World) → missed h m op false w ≢ (v, ok true)
  missed_never m op w v = never (h.scope_miss m op w)
    where
      never : (x : World × Result Fault Unit) → after x (λ _. pure false) ≢ (v, ok true)
      never (u, ok a) e = ground (arith, ap (λ (x : World × Result Fault Bool). x.1) e)
      never (u, err i) e = ground (arith, ap (λ (x : World × Result Fault Bool). x.1) e)

  -- A scope on reading the rows of a model, or on an operation on them, denies.
  abbrev pub IsDenied : String → ScopeOperation → Request → Type 0
  IsDenied m op req = (s.denies m read req ≡ true) ⊎ (s.denies m op req ≡ true)

  pub writable_denied :
      (m : String) (row : Row) (op : ScopeOperation) (o : Options Request Where) (deleted : Bool)
      (w : World)
      → IsDenied m op (request_from h o)
      → (v : World) × ((writable h m row op o deleted w ≡ missed h m op false v)
          × (s.rows v ≡ s.rows w))
  unfolding writable settle_writable
  writable_denied m row op o deleted w d = elim (Bool-cases (s.denies m read (request_from h o))) [
    | inl denies ↦
        let (v, (asked, e)) = laws.scoped_denied m read (request_from h o) none o w denies in
        (v, (ap (λ x. after (after x (narrow_scope h m op o)) settle) asked, e))
    | inr allows ↦
        let (p, ((v, (asked, e)), picks)) = laws.scoped m read (request_from h o) none o w allows in
        let (u, (refused, f)) = laws.scoped_denied m op (request_from h o) p o v (second allows) in
        (
          u,
          (
            ap (λ x. after (after x (narrow_scope h m op o)) settle) asked
                ∙ ap (λ x. after x settle) refused,
            f ∙ e,
          ),
        )
  ]
    where
      settle : Scoped Where → Act World Fault Bool
      settle = settle_writable h m row op o deleted

      second : s.denies m read (request_from h o) ≡ false → s.denies m op (request_from h o) ≡ true
      second e = ground (arith, d, e)

  relink_one_denied :
      (a : Association) (value : Value) (o : Options Request Where) (target : Row) (w : World)
      → IsDenied a.target update (request_from h o)
      → Keeps (relink_one h a value o target) w
  unfolding relink_one
  relink_one_denied a value o target w d =
      let (v, (asked, e)) = writable_denied a.target target update o false w d in
      Keeps-after (writable h a.target target update o false w)
        (repoint h a.target target a.foreign_key value o) (s.rows w)
        (ap (λ (x : World × Result Fault Bool). s.rows x.0) asked
          ∙ missed-Keeps a.target update v
          ∙ e)
        (λ b u k. settled b v u (sym asked ∙ k))
    where
      settled :
          (b : Bool) (v u : World)
          → missed h a.target update false v ≡ (u, ok b)
          → Keeps (repoint h a.target target a.foreign_key value o b) u
      settled true v u k = absurd (missed_never a.target update v u k)
      settled false v u k = refl

  for_each-Keeps :
      {A : Type 0} (f : A → Act World Fault Unit) (xs : List A) (w : World)
      → ((x : A) (v : World) → Keeps (f x) v)
      → Keeps (for_each f xs) w
  unfolding for_each
  for_each-Keeps f [] w k = refl
  for_each-Keeps f (x ∷ xs) w k =
      Keeps-after (f x w) (λ _. for_each f xs) (s.rows w) (k x w) (λ _ v e. for_each-Keeps f xs v k)

  -- Where the host scopes as it promises and reading the targets or updating them is denied, linking or
  -- unlinking any of them by their foreign key changes no row, whether it returns or throws.
  pub relink-denied :
      (a : Association) (value : Value) (targets : List (Option Row)) (o : Options Request Where)
      (w : World)
      → IsDenied a.target update (request_from h o)
      → s.rows (relink h a value targets o w).0 ≡ s.rows w
  unfolding relink
  relink-denied a value targets o w d =
      let (opts, ((v, (adapted, e)), same)) = laws.adapts a.source a.target o w in
      Keeps-after (h.options_for_adapter a.source a.target o w) each (s.rows w)
        (ap (λ (x : World × Result Fault (Options Request Where)). s.rows x.0) adapted ∙ e)
        (λ b u k. for_each-Keeps (relink_one h a value b) (listed targets) u (λ t z.
          relink_one_denied a value b t z
            (subst (IsDenied a.target update) (sym same ∙ ap request_of (sym adapted ∙ k)) d)))
    where
      each : Options Request Where → Act World Fault Unit
      each opts = for_each (relink_one h a value opts) (listed targets)

      request_of : World × Result Fault (Options Request Where) → Request
      request_of (v, ok b) = request_from h b
      request_of (v, err i) = request_from h o
