-- ===== src/Valkey/Kinds.antt =====
-- The two kinds of index keys of packages/ormize-adapter-valkey/src/keys.ts are never the same text.
use Prim.Native.Char.{code}
use Prim.Native.String
use text.Mathlib.TextLemmas.{nil-append, cons-append}
use gqlize.Common.{
  String, Bool, true, false, Option, none, some, List, [], ◌∷◌, Dict, keys, lookup, contains, ◌==◌,
  ◌≡◌, refl, ap, ◌∙◌, arith, eq_iff, nat_eq, Bool-cases, inl, inr, subst,
}
use gqlize.Js.Value.{Value}
use gqlize.Valkey.Match.{Row}
use gqlize.Valkey.Indexes.{
  join, Keys, ValkeyModel, equality_keys, unique_entries, index_key, unique_key,
}

-- What is left of a text without as many letters as another has, and which kind of key a text is.
tail_after : String → String → String
tail_after String.[] s = s
tail_after (String.◌∷◌ c p) String.[] = String.[]
tail_after (String.◌∷◌ c p) (String.◌∷◌ d s) = tail_after p s

tail_after-append : (p s : String) → tail_after p (String.◌++◌ p s) ≡ s
unfolding tail_after
tail_after-append String.[] s = nil-append s
tail_after-append (String.◌∷◌ c p) s =
    ap (tail_after (String.◌∷◌ c p)) (cons-append c p s) ∙ tail_after-append p s

names_index : String → Bool
names_index (String.◌∷◌ a (String.◌∷◌ b s)) = nat_eq (code b) b'i'
names_index s = false

is_long : String → Bool
is_long (String.◌∷◌ a (String.◌∷◌ b s)) = true
is_long s = false

names_index-append :
    (s t : String) → is_long s ≡ true → names_index (String.◌++◌ s t) ≡ names_index s
unfolding names_index is_long
names_index-append (String.◌∷◌ a (String.◌∷◌ b s)) t h =
    ap names_index (cons-append a (String.◌∷◌ b s) t ∙ ap (String.◌∷◌ a) (cons-append b s t))
names_index-append (String.◌∷◌ a String.[]) t h = ground arith
names_index-append String.[] t h = ground arith

pub is_index : Keys → String → String → Bool
is_index ks model s = names_index (tail_after model (tail_after ":" (tail_after ks.prefix s)))

tail_after-under :
    (ks : Keys) (model rest : String)
    → tail_after model
        (tail_after ":" (tail_after ks.prefix (join ks.prefix (join ":" (join model rest)))))
      ≡ rest
tail_after-under ks model rest =
    ap (λ s. tail_after model (tail_after ":" s))
      (tail_after-append ks.prefix (join ":" (join model rest)))
    ∙ (ap (tail_after model) (tail_after-append ":" (join model rest))
        ∙ tail_after-append model rest)

is_index-index_key :
    (ks : Keys) (model f : String) (v : Value) → is_index ks model (index_key ks model f v) ≡ true
unfolding is_index index_key names_index is_long
is_index-index_key ks model f v =
    ap names_index (tail_after-under ks model _)
    ∙ names_index-append ":i:" (join f (join ":" (ks.encode_value v))) refl

is_index-unique_key :
    (ks : Keys) (model f : String) (v : Value) → is_index ks model (unique_key ks model f v) ≡ false
unfolding is_index unique_key names_index is_long
is_index-unique_key ks model f v =
    ap names_index (tail_after-under ks model _)
    ∙ names_index-append ":u:" (join f (join ":" (ks.encode_value v))) refl

-- A key that is in a list of keys of one kind is of the kind.
contains-kind :
    (p : String → Bool) (b : Bool) (x m : String) (xs : List String)
    → p x ≡ b
    → (contains xs m ≡ true → p m ≡ b)
    → contains (x ∷ xs) m ≡ true
    → p m ≡ b
contains-kind p b x m xs px rest h = elim (Bool-cases (x == m)) [
  | inl e ↦ subst (λ k. p k ≡ b) ((eq_iff x m).0 e) px
  | inr e ↦ rest (ground arith)
]

module _ (ks : Keys) (model : ValkeyModel) (row : Row) (m : String) where
  with_key : String → Option Value → List String → List String
  with_key f o rest = elim o [ some v ↦ index_key ks model.name f v ∷ rest | none ↦ rest ]

  with_key-index :
      (f : String) (o : Option Value) (rest : List String)
      → (contains rest m ≡ true → is_index ks model.name m ≡ true)
      → contains (with_key f o rest) m ≡ true
      → is_index ks model.name m ≡ true
  unfolding with_key
  with_key-index f none rest r h = r h
  with_key-index f (some v) rest r h =
      contains-kind (is_index ks model.name) true _ m rest (is_index-index_key ks model.name f v) r
        h

  pub equality_keys-index :
      (fs : List String)
      → contains (equality_keys ks model fs row) m ≡ true
      → is_index ks model.name m ≡ true
  unfolding equality_keys with_key
  equality_keys-index [] h = ground arith
  equality_keys-index (f ∷ fs) h =
      with_key-index f (lookup f row) (equality_keys ks model fs row) (equality_keys-index fs) h

  with_entry : String → Option Value → Dict (String × Value) → Dict (String × Value)
  with_entry f o rest = elim o [
    | some v ↦ (unique_key ks model.name f v, (f, v)) ∷ rest
    | none ↦ rest
  ]

  with_entry-index :
      (f : String) (o : Option Value) (rest : Dict (String × Value))
      → (contains (keys rest) m ≡ true → is_index ks model.name m ≡ false)
      → contains (keys (with_entry f o rest)) m ≡ true
      → is_index ks model.name m ≡ false
  unfolding with_entry
  with_entry-index f none rest r h = r h
  with_entry-index f (some v) rest r h =
      contains-kind (is_index ks model.name) false _ m (keys rest)
        (is_index-unique_key ks model.name f v) r h

  pub unique_entries-index :
      (fs : List String)
      → contains (keys (unique_entries ks model fs row)) m ≡ true
      → is_index ks model.name m ≡ false
  unfolding unique_entries with_entry
  unique_entries-index [] h = ground arith
  unique_entries-index (f ∷ fs) h =
      with_entry-index f (lookup f row) (unique_entries ks model fs row) (unique_entries-index fs) h
