-- ===== src/Cross/Store.antt =====
-- What the accessors of packages/ormize/src/cross-adapter.ts rely on in the host and its adapters, for
-- the calls that the accessors make and in a run in which none of these calls fails: they find, make,
-- change and delete rows as an `OrmAdapter` promises, and a scope answers alike throughout the run.
-- Rows come in any order, and a new row has whatever key and defaults its adapter gives it.
use gqlize.Common.{
  ℕ, String, Bool, true, false, not, ◌&&◌, ◌||◌, any, Option, none, some, List, map, Dict, lookup,
  keep, ok, ◌≡◌, refl, ap, ◌∙◌, if◌then◌else◌, ◌==◌,
}
use gqlize.Js.Value.{Value, undefined, strict_eq}
use gqlize.Gate.Resolve.{ScopeOperation}
use gqlize.Cross.Host.{Wanted, one, any_of, denied, filter, Options, Act, pure, after, ◌>>>◌, Host}
use gqlize.Cross.Keys.{among, request_from, lookup_query, plain_query}

-- A value as a filter compares it.
abbrev pub wants : Wanted → Value → Bool
wants (one v) u = strict_eq v u
wants (any_of vs) u = among vs u

-- The rows of all models.
abbrev pub Rows : Type 0 → Type 0
Rows Row = String → List Row

module _ {Row : Type 0} where
  abbrev pub put_rows : String → List Row → Rows Row → Rows Row
  put_rows m rs all j = if m == j then rs else all j

module _ {World Fault Row : Type 0} (rows : World → Rows Row) where
  -- A call that returns a value in a world of given rows.
  abbrev pub Leads : {A : Type 0} → Act World Fault A → World → A → Rows Row → Type 0
  Leads m w a all = (v : World) × ((m w ≡ (v, ok a)) × (rows v ≡ all))

  pub Leads-bind :
      {A B : Type 0} (m : Act World Fault A) (f : A → Act World Fault B) {w : World} {a : A} {b : B}
      {all more : Rows Row}
      → Leads m w a all
      → ((v : World) → rows v ≡ all → Leads (f a) v b more)
      → Leads (m >>> f) w b more
  Leads-bind m f (v, (p, q)) k = let (u, (r, s)) = k v q in (u, (ap (λ x. after x f) p ∙ r, s))

  pub Leads-pure : {A : Type 0} (w : World) (a : A) → Leads (pure a) w a (rows w)
  Leads-pure w a = (w, (refl, refl))

  -- A call that is the same as one that leads somewhere.
  pub Leads-same :
      {A : Type 0} (m n : Act World Fault A) {w : World} {a : A} {all : Rows Row}
      → n w ≡ m w
      → Leads m w a all
      → Leads n w a all
  Leads-same m n e (v, (p, q)) = (v, (e ∙ p, q))

module _ {Request Row Where World Fault : Type 0} (h : Host Request Row Where World Fault) where
  -- `accepts` says which values a model takes for a row, and `stores` which of its fields have what was
  -- given: an adapter may set others itself, such as a time stamp.
  pub record Store : Type 0 where
    pub rows : World → Rows Row
    pub matches : Where → Row → Bool
    pub in_scope : String → ScopeOperation → Request → Row → Bool
    pub denies : String → ScopeOperation → Request → Bool
    pub accepts : String → Dict Value → Bool
    pub stores : String → String → Bool

  -- A filter that may be undefined.
  abbrev pub selects : Store → Option Where → Row → Bool
  selects s none r = true
  selects s (some w) r = s.matches w r

  -- Filters are merged.
  pub record IsFiltered (s : Store) : Type 0 where
    pub merges : (m : String) → h.can_merge m ≡ true
    pub merged :
        (m f : String) (v : Wanted) (w : Option Where) (r : Row)
        → s.matches (h.merge_filter_statement m f v w) r
          ≡ (selects s w r && wants v (h.value_of m r f))

  -- Scopes deny, or narrow a filter, and change no row.
  pub record IsScoped (s : Store) : Type 0 where
    pub adapts :
        (m n : String) (o : Options Request Where) (w : World)
        → (p : Options Request Where) × (Leads s.rows (h.options_for_adapter m n o) w p (s.rows w)
            × (request_from h p ≡ request_from h o))
    pub denial :
        (m : String) (op : ScopeOperation) (req : Request) (w : World)
        → Leads s.rows (h.scope_denies m op req) w (s.denies m op req) (s.rows w)
    pub scoped_denied :
        (m : String) (op : ScopeOperation) (req : Request) (q : Option Where)
        (o : Options Request Where) (w : World)
        → s.denies m op req ≡ true
        → Leads s.rows (h.scoped_where m op req q o) w denied (s.rows w)
    pub scoped :
        (m : String) (op : ScopeOperation) (req : Request) (q : Option Where)
        (o : Options Request Where) (w : World)
        → s.denies m op req ≡ false
        → (p : Option Where) × (Leads s.rows (h.scoped_where m op req q o) w (filter p) (s.rows w)
            × ((r : Row) → selects s p r ≡ (selects s q r && s.in_scope m op req r)))
    pub misses :
        (m : String) (op : ScopeOperation) (w : World) → s.rows (h.scope_miss m op w).0 ≡ s.rows w

  -- A lookup of one row, which sees the deleted ones or does not, finds one where there is one. The
  -- rows of the store are those that it sees.
  pub record IsChecked (deleted : Bool) (s : Store) : Type 0 where
    pub filters : IsFiltered s
    pub scopes : IsScoped s
    pub looks_up :
        (m : String) (q : Where) (tx : Option ℕ) (w : World)
        → (found : List Row) × (Leads s.rows
              (h.find_all m (lookup_query h tx q deleted))
              w
              found
              (s.rows w)
            × (any (λ r. true) found ≡ any (s.matches q) (s.rows w m)))

  -- A query without limit or order finds, in some order, the rows that its filter selects.
  pub record IsReadable (s : Store) : Type 0 where
    pub filters : IsFiltered s
    pub scopes : IsScoped s
    pub finds :
        (m : String) (q : Option Where) (tx : Option ℕ) (w : World)
        → (found : List Row) × (Leads s.rows
              (h.find_all m (plain_query h q tx undefined))
              w
              found
              (s.rows w)
            × ((p : Row → Bool) → any p found ≡ any (λ r. selects s q r && p r) (s.rows w m)))

  -- A call makes a row with the values given, changes rows outside the fields not named, or deletes the
  -- rows that a filter selects.
  pub record IsStore (s : Store) : Type 0 where
    pub reads : IsReadable s
    pub creates :
        (m : String) (d : Dict Value) (tx : Option ℕ) (w : World)
        → s.accepts m d ≡ true
        → (new : Row) × ((made : List Row) × (Leads s.rows
                (h.create m d tx)
                w
                tt
                (put_rows m made (s.rows w))
              × (((p : Row → Bool) → any p made ≡ (any p (s.rows w m) || p new))
                  × ((f : String) (v : Value)
                      → s.stores m f ≡ true
                      → lookup f d ≡ some v
                      → h.value_of m new f ≡ v))))
    pub updates :
        (m : String) (r : Row) (d : Dict Value) (o : Options Request Where) (w : World)
        → s.accepts m d ≡ true
        → (change : Row → Row) × (Leads s.rows
              (h.update m r d o)
              w
              tt
              (put_rows m (map change (s.rows w m)) (s.rows w))
            × ((f : String) (x : Row)
                → s.stores m f ≡ true
                → lookup f d ≡ none
                → h.value_of m (change x) f ≡ h.value_of m x f))
    pub deletes :
        (m : String) (q : Option Where) (tx : Option ℕ) (w : World)
        → Leads s.rows
            (h.delete m q tx)
            w
            tt
            (put_rows m (keep (λ r. not (selects s q r)) (s.rows w m)) (s.rows w))
