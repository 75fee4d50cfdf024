-- ===== src/Cross/Reached.antt =====
-- packages/ormize/src/cross-adapter.ts: the rows that the check of a write lets through.
use gqlize.Common.{
  String, Bool, true, false, ◌&&◌, Option, none, some, List, [], ◌∷◌, any, Result, ok, err, ◌≡◌,
  refl, ap, ◌∙◌, sym, subst, fun_ext, arith, ◌⊎◌, inl, inr, if◌then◌else◌,
}
use gqlize.Js.Value.{strict_eq}
use gqlize.Gate.Resolve.{ScopeOperation, read}
use gqlize.Cross.Host.{one, Scoped, filter, Options, Act, after, ◌>>>◌, Host}
use gqlize.Cross.Keys.{
  merge_filter, request_from, lookup_query, found_or_missed, settle_writable, narrow_scope,
  writable,
}
use gqlize.Cross.Store.{Store, IsChecked, selects}
use gqlize.Cross.Denied.{missed_never, writable_denied, IsDenied}

module _ {Request Row Where World Fault : Type 0} (h : Host Request Row Where World Fault)
    (s : Store h) (deleted : Bool) (laws : IsChecked h deleted s) where
  -- The rows that both scopes let be reached.
  abbrev pub reachable : String → ScopeOperation → Request → Row → Bool
  reachable m op req r = s.in_scope m read req r && s.in_scope m op req r

  abbrev pub is_held : String → Row → Row → Bool
  is_held m row r =
      strict_eq (h.value_of m row (h.primary_key m)) (h.value_of m r (h.primary_key m))

  -- A row was reached, or no filter had to be passed.
  abbrev pub IsReached : String → Row → ScopeOperation → Request → List Row → Type 0
  IsReached m row op req rs =
      ((r : Row) → reachable m op req r ≡ true)
      ⊎ (any (λ r. is_held m row r && reachable m op req r) rs ≡ true)

  found_only :
      (m : String) (op : ScopeOperation) (found : List Row) (w v : World)
      → found_or_missed h m op found w ≡ (v, ok true)
      → any (λ r. true) found ≡ true
  found_only m op [] w v e = absurd (missed_never h s laws.scopes m op w v e)
  found_only m op (r ∷ rs) w v e = refl

  settle-IsReached :
      (m : String) (row : Row) (op : ScopeOperation) (req : Request) (o : Options Request Where)
      (q : Option Where) (w v : World)
      → ((r : Row) → selects h s q r ≡ reachable m op req r)
      → settle_writable h m row op o deleted (filter q) w ≡ (v, ok true)
      → IsReached m row op req (s.rows w m)
  unfolding settle_writable merge_filter
  settle-IsReached m row op req o none w v k e = inl (λ r. sym (k r))
  settle-IsReached m row op req o (some q) w v k e =
      let (found, ((z, (ran, f)), there)) = laws.looks_up m both o.transaction w in
      let step : settle_writable h m row op o deleted (filter (some q)) w
          ≡ found_or_missed h m op found z =
        ap (λ b. after (merged b) (λ i. look i >>> found_or_missed h m op)) (laws.filters.merges m)
        ∙ ap (λ x. after x (found_or_missed h m op)) ran in
      inr (
        ap (λ pick. any pick (s.rows w m)) (sym (fun_ext (λ r. picked r (k r))))
        ∙ sym there
        ∙ found_only m op found z v (sym step ∙ e))
    where
      both : Where
      both =
          h.merge_filter_statement m (h.primary_key m) (one (h.value_of m row (h.primary_key m)))
            (some q)

      merged : Bool → World × Result Fault Where
      merged b = if b then (w, ok both) else (w, err (h.cannot_merge m))

      look : Where → Act World Fault (List Row)
      look i = h.find_all m (lookup_query h o.transaction i deleted)

      picked :
          (r : Row)
          → selects h s (some q) r ≡ reachable m op req r
          → s.matches both r ≡ (is_held m row r && reachable m op req r)
      picked r e = ground (
        arith,
        e,
        laws.filters.merged m (h.primary_key m) (one (h.value_of m row (h.primary_key m))) (some q)
            r,
      )

  -- Where no call fails and the host filters, scopes and looks up as it promises, and the check says that
  -- a row may be written, neither scope denies, and a row with its key was there, within both scopes and
  -- among the rows that the lookup sees, or both let every row be reached.
  pub writable-IsReached :
      (m : String) (row : Row) (op : ScopeOperation) (o : Options Request Where) (w v : World)
      → writable h m row op o deleted w ≡ (v, ok true)
      → (s.denies m read (request_from h o) ≡ false)
        × ((s.denies m op (request_from h o) ≡ false)
            × IsReached m row op (request_from h o) (s.rows w m))
  unfolding writable
  writable-IsReached m row op o w v e =
      let (p, ((x, (asked, f)), picks)) = laws.scopes.scoped m read req none o w readable in
      let (q, ((y, (with_filter, g)), fits)) = laws.scopes.scoped m op req p o x permitted in
      let step : writable h m row op o deleted w ≡ settle (filter q) y =
        ap (λ t. after (after t (narrow_scope h m op o)) settle) asked
        ∙ ap (λ t. after t settle) with_filter in
      (
        readable,
        (
          permitted,
          subst (IsReached m row op req) (ap (λ all. all m) (g ∙ f)) (
              settle-IsReached m row op req o q y v (λ r. fits r ∙ picked p r (picks r))
                (sym step ∙ e)),
        ),
      )
    where
      req : Request
      req = request_from h o

      settle : Scoped Where → Act World Fault Bool
      settle = settle_writable h m row op o deleted

      refuted : IsDenied h s laws.scopes m op req → ⊥
      refuted d =
          let (z, (missing, f)) = writable_denied h s laws.scopes m row op o deleted w d in
          missed_never h s laws.scopes m op z v (sym missing ∙ e)

      open_scope : (b : Bool) → (b ≡ true → ⊥) → b ≡ false
      open_scope true k = absurd (k refl)
      open_scope false k = refl

      readable : s.denies m read req ≡ false
      readable = open_scope _ (λ d. refuted (inl d))

      permitted : s.denies m op req ≡ false
      permitted = open_scope _ (λ d. refuted (inr d))

      picked :
          (p : Option Where) (r : Row)
          → selects h s p r ≡ (true && s.in_scope m read req r)
          → (selects h s p r && s.in_scope m op req r) ≡ reachable m op req r
      picked p r k = ground (arith, k)
