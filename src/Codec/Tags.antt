-- ===== src/Codec/Tags.antt =====
-- packages/ormize/src/read-cache/codec.ts: JSON that keeps dates, buffers and bigints under a tag.
use gqlize.Common.{ℕ, String, Option, none, some, Result, ok, ◌>>=◌, ◌==◌, if◌then◌else◌}
use gqlize.Codec.Datum.{
  Datum, Data, Members, undefined, null, str, bigint, date, buffer, with_to_json, arr, obj, nil,
  cons, end, member, find_member, Engine, Thrown,
}

abbrev pub tag_key : String
tag_key = "$ormize"

abbrev pub tagged : String → Datum → Datum
tagged type v = obj (member tag_key (str type) (member "v" v end))

-- What is read for a member that may be missing.
abbrev pub or_undefined : Option Datum → Datum
or_undefined none = undefined
or_undefined (some v) = v

module _ {Json : Type 0} (e : Engine Json) where
  -- An invalid date has a null for its time.
  unfoldable pub tag_date : Option ℕ → Datum
  tag_date none = tagged "date" null
  tag_date (some t) = tagged "date" (str (e.iso t))

  unfoldable mutual
    pub tag : Datum → Datum
    tag (bigint n) = tagged "bigint" (str (e.integer_text n))
    tag (date t) = tag_date t
    tag (buffer bs) = tagged "buffer" (str (e.base64 bs))
    tag (arr vs) = arr (tag_elements vs)
    tag (with_to_json v) = tag v
    tag (obj ms) = obj (tag_members ms)
    tag v = v

    pub tag_elements : Data → Data
    tag_elements nil = nil
    tag_elements (cons v vs) = cons (tag v) (tag_elements vs)

    pub tag_members : Members → Members
    tag_members end = end
    tag_members (member k v ms) = member k (tag v) (tag_members ms)

  unfoldable pub revive_date : Datum → Datum
  revive_date null = date none
  revive_date v = date (e.new_date v)

  -- The cases of the `switch`; `none` falls through to the walk of the members.
  unfoldable pub revive : Option Datum → Datum → Option (Result Thrown Datum)
  revive (some (str t)) v =
      if t == "date"
      then some (ok (revive_date v))
      else if t == "buffer"
      then some (do bs ← e.from_base64 v; ok (buffer bs))
      else if t == "bigint"
      then some (do n ← e.big_int v; ok (bigint n))
      else none
  revive _ v = none

  abbrev pub or_walk : Option (Result Thrown Datum) → Result Thrown Members → Result Thrown Datum
  or_walk (some r) walk = r
  or_walk none walk = do ms ← walk; ok (obj ms)

  unfoldable mutual
    pub untag : Datum → Result Thrown Datum
    untag (arr vs) = do ws ← untag_elements vs; ok (arr ws)
    untag (obj ms) =
        or_walk (revive (find_member tag_key ms) (or_undefined (find_member "v" ms)))
          (untag_members ms)
    untag v = ok v

    pub untag_elements : Data → Result Thrown Data
    untag_elements nil = ok nil
    untag_elements (cons v vs) = do w ← untag v; ws ← untag_elements vs; ok (cons w ws)

    pub untag_members : Members → Result Thrown Members
    untag_members end = ok end
    untag_members (member k v ms) = do w ← untag v; rest ← untag_members ms; ok (member k w rest)

  unfoldable pub encode : Datum → Result Thrown Json
  encode v = e.stringify (tag v)

  unfoldable pub decode : Json → Result Thrown Datum
  decode t = do v ← e.parse t; untag v
