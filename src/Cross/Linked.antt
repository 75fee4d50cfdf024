-- ===== src/Cross/Linked.antt =====
-- packages/ormize/src/cross-adapter.ts: the keys that a join model links a row to.
use gqlize.Common.{
  String, Bool, false, not, ◌&&◌, ◌||◌, Option, none, some, List, [], ◌∷◌, ok, err, any, keep, ◌≡◌,
  refl, ap, ◌∙◌, sym, subst, fun_ext, arith, if◌then◌else◌, Bool-cases, inl, inr,
}
use gqlize.Js.Value.{Value, undefined, is_nullish, strict_eq, strict_eq_sound}
use gqlize.Gate.Resolve.{read}
use gqlize.Cross.Host.{Association, one, filter, Options, Act, pure, after, ◌>>>◌, Host}
use gqlize.Cross.Keys.{among, keys_of, merge_filter, request_from, btm_keys, plain_query, edges_in}
use gqlize.Cross.Store.{Rows, Leads, Leads-bind, Leads-same, Store, IsReadable, selects}

-- No value stands twice.
abbrev pub IsDistinct : List Value → Type 0
IsDistinct [] = Unit
IsDistinct (v ∷ vs) = (among vs v ≡ false) × IsDistinct vs

pub any-keep :
    {A : Type 0} (p f : A → Bool) (xs : List A) → any f (keep p xs) ≡ any (λ x. p x && f x) xs
any-keep p f [] = refl
any-keep p f (x ∷ xs) = ground (arith, any-keep p f xs)

module _ {Request Row Where World Fault : Type 0} (h : Host Request Row Where World Fault)
    (a : Association) where
  abbrev key_of : Row → Value
  key_of edge = h.value_of a.through edge a.other_key

  among-keys_of :
      (seen : List Value) (edges : List Row) (k : Value)
      → among (keys_of h a seen edges) k
        ≡ (not (is_nullish k) && (not (among seen k) && any (λ e. strict_eq (key_of e) k) edges))
  unfolding keys_of
  among-keys_of seen [] k = ground arith
  among-keys_of seen (edge ∷ edges) k = elim (Bool-cases (strict_eq (key_of edge) k)) [
    | inl c ↦ ground (
      arith,
      c,
      ap is_nullish (strict_eq_sound (key_of edge) k c),
      ap (among seen) (strict_eq_sound (key_of edge) k c),
      among-keys_of seen edges k,
      among-keys_of (key_of edge ∷ seen) edges k,
    )
    | inr c ↦
        ground (arith, c, among-keys_of seen edges k, among-keys_of (key_of edge ∷ seen) edges k)
  ]

  -- Nothing is the same as a value that is not the same as itself.
  never_same :
      (v : Value) (edges : List Row)
      → strict_eq v v ≡ false
      → any (λ e. strict_eq (key_of e) v) edges ≡ false
  never_same v [] h = refl
  never_same v (e ∷ edges) k = elim (Bool-cases (strict_eq (key_of e) v)) [
    | inl c ↦ ground (arith, c, k, ap (λ x. strict_eq x v) (strict_eq_sound (key_of e) v c))
    | inr c ↦ ground (arith, c, never_same v edges k)
  ]

  seen_once :
      (seen : List Value) (edges : List Row) (v : Value)
      → among (keys_of h a (v ∷ seen) edges) v ≡ false
  seen_once seen edges v = elim (Bool-cases (strict_eq v v)) [
    | inl c ↦ among-keys_of (v ∷ seen) edges v ∙ ground (arith, c)
    | inr c ↦ among-keys_of (v ∷ seen) edges v ∙ ground (arith, c, never_same v edges c)
  ]

  keys_of-IsDistinct : (seen : List Value) (edges : List Row) → IsDistinct (keys_of h a seen edges)
  unfolding keys_of
  keys_of-IsDistinct seen [] = tt
  keys_of-IsDistinct seen (edge ∷ edges) =
      elim (Bool-cases (is_nullish (key_of edge) || among seen (key_of edge))) [
        | inl c ↦
            subst (λ b. IsDistinct (if b then skipped else kept)) (sym c)
              (keys_of-IsDistinct seen edges)
        | inr c ↦
            subst (λ b. IsDistinct (if b then skipped else kept)) (sym c)
              (seen_once seen edges (key_of edge), keys_of-IsDistinct (key_of edge ∷ seen) edges)
      ]
    where
      skipped : List Value
      skipped = keys_of h a seen edges

      kept : List Value
      kept = key_of edge ∷ keys_of h a (key_of edge ∷ seen) edges

  module _ (s : Store h) (laws : IsReadable h s) where
    -- A filter for one field, as a filter of its own.
    merge_filter-Leads :
        (m f : String) (v : Value) (w : World)
        → Leads s.rows
            (merge_filter h m f (one v) none)
            w
            (h.merge_filter_statement m f (one v) none)
            (s.rows w)
    unfolding merge_filter
    merge_filter-Leads m f v w = (
      w,
      (
        ap
            (λ b.
              if b
              then (w, ok (h.merge_filter_statement m f (one v) none))
              else (w, err (h.cannot_merge m)))
            (laws.filters.merges m),
        refl,
      ),
    )

    -- The edges of a source that a request may see.
    abbrev pub seen_edge : Options Request Where → Value → Row → Bool
    seen_edge o v e =
        strict_eq v (h.value_of a.through e a.foreign_key)
        && s.in_scope a.through read (request_from h o) e

    -- What is read of the edges that a test picks of some rows.
    abbrev IsPicked : List Row → (Row → Bool) → List Row → Type 0
    IsPicked found pick rs = (p : Row → Bool) → any p found ≡ any (λ r. pick r && p r) rs

    edges_in-Leads :
        (opts : Options Request Where) (p : Option Where) (w : World)
        → (found : List Row) × (Leads s.rows
              (edges_in h a opts (filter p))
              w
              (keys_of h a [] found)
              (s.rows w)
            × IsPicked found (selects h s p) (s.rows w a.through))
    edges_in-Leads opts p w =
        let (found, (read_, picks)) = laws.finds a.through p opts.transaction w in
        (
          found,
          (
            Leads-bind s.rows (h.find_all a.through (plain_query h p opts.transaction undefined))
                (λ edges. pure (keys_of h a [] edges)) read_ (λ v e. (v, (refl, e))),
            picks,
          ),
        )

    -- The lookup of the edges, in any world with the rows of this one.
    scoped_edges-Leads :
        (o opts : Options Request Where) (value : Value) (all : Rows Row) (v : World)
        → s.denies a.through read (request_from h o) ≡ false
        → s.rows v ≡ all
        → (found : List Row) × (Leads s.rows
              (h.scoped_where a.through read
                  (request_from h o)
                  (some (h.merge_filter_statement a.through a.foreign_key (one value) none))
                  opts
                >>> edges_in h a opts)
              v
              (keys_of h a [] found)
              all
            × IsPicked found (seen_edge o value) (all a.through))
    scoped_edges-Leads o opts value all v d e =
        let (p, ((u, (narrowed, f)), picks)) =
          laws.scopes.scoped a.through read (request_from h o) (some q) opts v d in
        let (found, ((z, (ran, g)), picked)) = edges_in-Leads opts p u in
        (
          found,
          (
            (z, (ap (λ x. after x (edges_in h a opts)) narrowed ∙ ran, g ∙ f ∙ e)),
            λ t.
                picked t
                ∙ ap (λ pick. any (λ r. pick r && t r) (s.rows u a.through))
                    (fun_ext (λ r. picks_seen p r (picks r)))
                ∙ ap (λ (rs : Rows Row). any (λ r. seen_edge o value r && t r) (rs a.through))
                    (f ∙ e),
          ),
        )
      where
        q : Where
        q = h.merge_filter_statement a.through a.foreign_key (one value) none

        picks_seen :
            (p : Option Where) (r : Row)
            → selects h s p r ≡ (s.matches q r && s.in_scope a.through read (request_from h o) r)
            → selects h s p r ≡ seen_edge o value r
        picks_seen p r k =
            ground (arith, k, laws.filters.merged a.through a.foreign_key (one value) none r)

    btm_keys-Leads :
        (row : Row) (o : Options Request Where) (w : World)
        → is_nullish (h.value_of a.source row a.source_key) ≡ false
        → s.denies a.through read (request_from h o) ≡ false
        → (found : List Row) × (Leads s.rows
              (btm_keys h a row o)
              w
              (keys_of h a [] found)
              (s.rows w)
            × IsPicked found
                (seen_edge o (h.value_of a.source row a.source_key))
                (s.rows w a.through))
    unfolding btm_keys
    btm_keys-Leads row o w k d =
        let (opts, ((v, (adapted, e)), same)) = laws.scopes.adapts a.source a.through o w in
        let (u, (merged, f)) = merge_filter-Leads a.through a.foreign_key value v in
        let (found, ((z, (ran, g)), picked)) =
          scoped_edges-Leads o opts value (s.rows w) u d (f ∙ e) in
        (
          found,
          (
            Leads-same s.rows reads (btm_keys h a row o)
                (ap (λ b. (if b then pure [] else reads) w) k)
                (
                  z,
                  (
                    ap (λ x. after x (λ p. merge >>> search p)) adapted
                        ∙ ap (λ x. after x (search opts)) merged
                        ∙ ran,
                    g,
                  ),
                ),
            picked,
          ),
        )
      where
        value : Value
        value = h.value_of a.source row a.source_key

        merge : Act World Fault Where
        merge = merge_filter h a.through a.foreign_key (one value) none

        search : Options Request Where → Where → Act World Fault (List Value)
        search opts q =
            h.scoped_where a.through read (request_from h o) (some q) opts >>> edges_in h a opts

        reads : Act World Fault (List Value)
        reads = h.options_for_adapter a.source a.through o >>> λ opts. merge >>> search opts

    -- Where no call fails and the host filters, scopes and finds as it promises, a row has a key and the
    -- read scope of the join model does not deny, the keys are read without a change to any row. None stands twice, and a value is among them exactly when it is
    -- not null and an edge of the row, within the scope, has it.
    pub btm_keys-linked :
        (row : Row) (o : Options Request Where) (w : World)
        → is_nullish (h.value_of a.source row a.source_key) ≡ false
        → s.denies a.through read (request_from h o) ≡ false
        → (ks : List Value) × (Leads s.rows (btm_keys h a row o) w ks (s.rows w)
            × (IsDistinct ks
                × ((k : Value)
                    → among ks k ≡ (
                        not (is_nullish k)
                        && any
                            (λ e.
                              seen_edge o (h.value_of a.source row a.source_key) e
                              && strict_eq (key_of e) k)
                            (s.rows w a.through)))))
    btm_keys-linked row o w k d =
        let (found, (ran, picked)) = btm_keys-Leads row o w k d in
        (
          keys_of h a [] found,
          (
            ran,
            (
              keys_of-IsDistinct [] found,
              λ v. among-keys_of [] found v ∙ ground (arith, picked (λ e. strict_eq (key_of e) v)),
            ),
          ),
        )
