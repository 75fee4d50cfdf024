-- ===== src/Codec/RoundTrip.antt =====
-- The proofs about packages/ormize/src/read-cache/codec.ts: what a cached result comes back as.
use gqlize.Common.{
  chain_step, String, true, false, Bool-cases, inl, inr, Option, none, some, ok, ◌>>=◌, ◌==◌, ◌≡◌,
  ◌≢◌, refl, ◌∙◌, ap, arith,
}
use gqlize.Codec.Datum.{
  Datum, Data, Members, undefined, null, bool, num, str, bigint, date, buffer, with_to_json, arr,
  obj, nil, cons, end, member, find_member, keep_member, element, is_undefined, carried,
  carried_elements, carried_members, IsPlain, ArePlain, HasPlain, Engine, IsStandard,
}
use gqlize.Codec.Tags.{
  tag_key, tag, tag_date, tag_elements, tag_members, revive, revive_date, untag, untag_elements,
  untag_members, encode, decode,
}

-- What a datum settles to: an object that answers `toJSON` is what it answers, an undefined member is
-- gone and an undefined element is null. Dates, buffers and bigints stay.
unfoldable mutual
  pub settled : Datum → Datum
  settled (with_to_json v) = settled v
  settled (arr vs) = arr (settled_elements vs)
  settled (obj ms) = obj (settled_members ms)
  settled v = v

  pub settled_elements : Data → Data
  settled_elements nil = nil
  settled_elements (cons v vs) = cons (element (settled v)) (settled_elements vs)

  pub settled_members : Members → Members
  settled_members end = end
  settled_members (member k v ms) = keep_member k (settled v) (settled_members ms)

-- No object in it has a member of the tag's name.
unfoldable mutual
  pub IsUntagged : Datum → Type 0
  IsUntagged (with_to_json v) = IsUntagged v
  IsUntagged (arr vs) = AreUntagged vs
  IsUntagged (obj ms) = HasUntagged ms
  IsUntagged v = Unit

  pub AreUntagged : Data → Type 0
  AreUntagged nil = Unit
  AreUntagged (cons v vs) = IsUntagged v × AreUntagged vs

  pub HasUntagged : Members → Type 0
  HasUntagged end = Unit
  HasUntagged (member k v ms) = ((k == tag_key) ≡ false) × (IsUntagged v × HasUntagged ms)

module _ {Json : Type 0} (e : Engine Json) where
  tag_date-IsPlain : (t : Option _) → IsPlain (tag_date e t)
  unfolding IsPlain HasPlain tag_date
  tag_date-IsPlain none = (tt, (tt, tt))
  tag_date-IsPlain (some t) = (tt, (tt, tt))

  mutual
    unfolding tag tag_elements tag_members IsPlain ArePlain HasPlain

    jsonable : (v : Datum) → IsPlain (tag e v)
    jsonable undefined = tt
    jsonable null = tt
    jsonable (bool b) = tt
    jsonable (num n) = tt
    jsonable (str s) = tt
    jsonable (bigint n) = (tt, (tt, tt))
    jsonable (date t) = tag_date-IsPlain t
    jsonable (buffer bs) = (tt, (tt, tt))
    jsonable (with_to_json v) = jsonable v
    jsonable (arr vs) = tag_elements-ArePlain vs
    jsonable (obj ms) = tag_members-HasPlain ms

    tag_elements-ArePlain : (vs : Data) → ArePlain (tag_elements e vs)
    tag_elements-ArePlain nil = tt
    tag_elements-ArePlain (cons v vs) = (jsonable v, tag_elements-ArePlain vs)

    tag_members-HasPlain : (ms : Members) → HasPlain (tag_members e ms)
    tag_members-HasPlain end = tt
    tag_members-HasPlain (member k v ms) = (jsonable v, tag_members-HasPlain ms)

  -- What is handed to `JSON.stringify` has no date, buffer or bigint left at any depth, and no object
  -- with a `toJSON` of its own.
  pub tag-IsPlain : (v : Datum) → IsPlain (tag e v)
  tag-IsPlain v = jsonable v

  tag_date-is_undefined : (t : Option _) → is_undefined (carried (tag_date e t)) ≡ false
  unfolding carried carried_members tag_date
  tag_date-is_undefined none = refl
  tag_date-is_undefined (some t) = refl

  -- JSON sees an undefined value exactly where there is one.
  carried-tag-is_undefined :
      (v : Datum) → is_undefined (carried (tag e v)) ≡ is_undefined (settled v)
  unfolding carried carried_members tag settled
  carried-tag-is_undefined undefined = refl
  carried-tag-is_undefined null = refl
  carried-tag-is_undefined (bool b) = refl
  carried-tag-is_undefined (num n) = refl
  carried-tag-is_undefined (str s) = refl
  carried-tag-is_undefined (bigint n) = refl
  carried-tag-is_undefined (date t) = tag_date-is_undefined t
  carried-tag-is_undefined (buffer bs) = refl
  carried-tag-is_undefined (with_to_json v) = carried-tag-is_undefined v
  carried-tag-is_undefined (arr vs) = refl
  carried-tag-is_undefined (obj ms) = refl

  -- The tag's key is not there to be misread.
  untagged-find_member :
      (ms : Members)
      → HasUntagged ms
      → find_member tag_key (carried_members (tag_members e ms)) ≡ none
  unfolding carried tag HasUntagged
  untagged-find_member end h = refl
  untagged-find_member (member k v ms) (h, (_, hs)) =
      elim (Bool-cases (is_undefined (carried (tag e v)))) [
        | inl i ↦ rw (i, untagged-find_member ms hs)
        | inr i ↦ rw (i, h, untagged-find_member ms hs)
      ]

  module _ (std : IsStandard e) where
    untag-date : (t : Option _) → untag e (carried (tag_date e t)) ≡ ok (date t)
    unfolding carried carried_members tag_date untag untag_members revive revive_date
    untag-date none = refl
    untag-date (some t) = rw (std.reads_iso t)

    untag-member :
        (k : String) (w v : Datum) (ms ns : Members)
        → untag e w ≡ ok v
        → untag_members e ms ≡ ok ns
        → is_undefined w ≡ is_undefined v
        → untag_members e (keep_member k w ms) ≡ ok (keep_member k v ns)
    unfolding untag_members
    untag-member k w v ms ns h hs i = elim (Bool-cases (is_undefined v)) [
      | inl u ↦ rw (i, u, hs)
      | inr u ↦ rw (i, u, h, hs)
    ]

    untag-element :
        (w v : Datum)
        → untag e w ≡ ok v
        → is_undefined w ≡ is_undefined v
        → untag e (element w) ≡ ok (element v)
    unfolding untag
    untag-element w v h i = elim (Bool-cases (is_undefined v)) [
      | inl u ↦ rw (i, u)
      | inr u ↦ rw (i, u, h)
    ]

    mutual
      unfolding carried tag settled IsUntagged untag revive

      pub untag-carried-tag :
          (v : Datum) → IsUntagged v → untag e (carried (tag e v)) ≡ ok (settled v)
      untag-carried-tag undefined h = refl
      untag-carried-tag null h = refl
      untag-carried-tag (bool b) h = refl
      untag-carried-tag (num n) h = refl
      untag-carried-tag (str s) h = refl
      untag-carried-tag (bigint n) h = rw (std.reads_integer n)
      untag-carried-tag (date t) h = untag-date t
      untag-carried-tag (buffer bs) h = rw (std.reads_base64 bs)
      untag-carried-tag (with_to_json v) h = untag-carried-tag v h
      untag-carried-tag (arr vs) h = rw (untag-carried_elements vs h)
      untag-carried-tag (obj ms) h = rw (untagged-find_member ms h, untag-carried_members ms h)

      untag-carried_elements :
          (vs : Data)
          → AreUntagged vs
          → untag_elements e (carried_elements (tag_elements e vs)) ≡ ok (settled_elements vs)
      untag-carried_elements nil h = refl
      untag-carried_elements (cons v vs) (h, hs) = rw (
        untag-element (carried (tag e v)) (settled v) (untag-carried-tag v h)
            (carried-tag-is_undefined v),
        untag-carried_elements vs hs,
      )

      untag-carried_members :
          (ms : Members)
          → HasUntagged ms
          → untag_members e (carried_members (tag_members e ms)) ≡ ok (settled_members ms)
      untag-carried_members end h = refl
      untag-carried_members (member k v ms) (_, (h, hs)) =
          untag-member k (carried (tag e v)) (settled v) _ _ (untag-carried-tag v h)
            (untag-carried_members ms hs) (carried-tag-is_undefined v)

    tag_defined : (v : Datum) → is_undefined (settled v) ≡ false → tag e v ≢ undefined
    unfolding carried
    tag_defined v d u =
        let shown : is_undefined (carried (tag e v)) ≡ true =
          ap (λ w. is_undefined (carried w)) u in
        let hidden : is_undefined (carried (tag e v)) ≡ false = carried-tag-is_undefined v ∙ d in
        ground arith

    -- A cached result with no member named `$ormize` that does not settle to undefined is encoded,
    -- and decoding the text gives what it settles to: every date, also an invalid one, every buffer
    -- and every bigint is back, at every depth.
    pub decode-encode :
        (v : Datum)
        → IsUntagged v
        → is_undefined (settled v) ≡ false
        → (do t ← encode e v; decode e t) ≡ ok (settled v)
    unfolding encode decode
    decode-encode v h d =
        chain_step (e.stringify (tag e v)) e.parse (untag e) (carried (tag e v))
          (std.reads_json (tag e v) (tag-IsPlain v) (tag_defined v d))
        ∙ untag-carried-tag v h
