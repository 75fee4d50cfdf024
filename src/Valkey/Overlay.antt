-- ===== src/Valkey/Overlay.antt =====
-- Reading your own writes in packages/ormize-adapter-valkey/src/transaction.ts: every read of a
-- transaction against the writes made in it, replayed in order over what the store answered.
use gqlize.Common.{
  ℕ, String, Bool, false, not, ◌&&◌, ◌||◌, Option, none, some, List, [], ◌∷◌, put, contains,
  if◌then◌else◌, ◌==◌, ◌≡◌, refl, arith, eq_iff, lookup-put, ◌∙◌, ap,
}
use gqlize.Valkey.Transaction.{
  Score, Client, ValkeyTransaction, set_at, get_obj, overlaid, s_members, set_add, drop_from,
}
use gqlize.Valkey.Sets.{
  contains-add, contains-add_each, contains-delete_each, set_at-put, set_at-drop,
}
use gqlize.Valkey.Buffer.{
  put_obj, del_obj, put_str, del_str, zadd, zrem, sadd, srem, sadd_each, srem_each, pexpire,
  persist,
}

-- A call of one of the writing methods.
pub data Write : Type 0 where
  object_put string_put : String → String → Option ℕ → Write
  object_deleted string_deleted : String → Write
  scored : String → Score → String → Write
  unscored : String → String → Write
  members_added members_removed : String → List String → Write
  expiring : String → ℕ → Write
  lasting : String → Write

module _ (c : Client) where
  unfoldable pub write : Write → ValkeyTransaction → ValkeyTransaction
  write (object_put k v ttl) = put_obj k v ttl
  write (string_put k v ttl) = put_str k v ttl
  write (object_deleted k) = del_obj k
  write (string_deleted k) = del_str k
  write (scored k s m) = zadd c k s m
  write (unscored k m) = zrem k m
  write (members_added k ms) = sadd k ms
  write (members_removed k ms) = srem k ms
  write (expiring k n) = pexpire k n
  write (lasting k) = persist k

  unfoldable pub write_all : List Write → ValkeyTransaction → ValkeyTransaction
  write_all [] t = t
  write_all (w ∷ ws) t = write_all ws (write w t)

-- What a write does to the object, the string or the member of a set that one reads.
unfoldable pub object_after : String → Write → Option String → Option String
object_after k (object_put j v ttl) o = if j == k then some v else o
object_after k (object_deleted j) o = if j == k then none else o
object_after k (string_put j v ttl) o = o
object_after k (string_deleted j) o = o
object_after k (scored j s m) o = o
object_after k (unscored j m) o = o
object_after k (members_added j ms) o = o
object_after k (members_removed j ms) o = o
object_after k (expiring j n) o = o
object_after k (lasting j) o = o

unfoldable pub member_after : String → String → Write → Bool → Bool
member_after k m (members_added j ms) b = if j == k then contains ms m || b else b
member_after k m (members_removed j ms) b = if j == k then not (contains ms m) && b else b
member_after k m (object_put j v ttl) b = b
member_after k m (object_deleted j) b = b
member_after k m (string_put j v ttl) b = b
member_after k m (string_deleted j) b = b
member_after k m (scored j s x) b = b
member_after k m (unscored j x) b = b
member_after k m (expiring j n) b = b
member_after k m (lasting j) b = b

unfoldable pub replay {ℓ} : {A : Type ℓ} → (Write → A → A) → List Write → A → A
replay f [] a = a
replay f (w ∷ ws) a = replay f ws (f w a)

objects-sadd_each :
    (k : String) (ms : List String) (t : ValkeyTransaction) → (sadd_each k ms t).objects ≡ t.objects
unfolding sadd_each
objects-sadd_each k [] t = refl
objects-sadd_each k (m ∷ ms) t = objects-sadd_each k ms _

objects-srem_each :
    (k : String) (ms : List String) (t : ValkeyTransaction) → (srem_each k ms t).objects ≡ t.objects
unfolding srem_each
objects-srem_each k [] t = refl
objects-srem_each k (m ∷ ms) t = objects-srem_each k ms _

get_obj-write :
    (c : Client) (key : String) (w : Write) (t : ValkeyTransaction)
    → get_obj c (write c w t) key ≡ object_after key w (get_obj c t key)
unfolding write object_after get_obj overlaid
get_obj-write c key (object_put j v ttl) t = ground (arith, lookup-put j key (some v) t.objects)
get_obj-write c key (object_deleted j) t = ground (arith, lookup-put j key none t.objects)
get_obj-write c key (string_put j v ttl) t = refl
get_obj-write c key (string_deleted j) t = refl
get_obj-write c key (scored j s m) t = refl
get_obj-write c key (unscored j m) t = refl
get_obj-write c key (members_added j []) t = refl
get_obj-write c key (members_added j (m ∷ ms)) t = rw (objects-sadd_each j (m ∷ ms) t) refl
get_obj-write c key (members_removed j []) t = refl
get_obj-write c key (members_removed j (m ∷ ms)) t = rw (objects-srem_each j (m ∷ ms) t) refl
get_obj-write c key (expiring j n) t = refl
get_obj-write c key (lasting j) t = refl

-- Reading an object in a transaction gives what replaying the transaction's writes to that object,
-- in their order, makes of what it read before.
pub get_obj-write_all :
    (c : Client) (key : String) (ws : List Write) (t : ValkeyTransaction)
    → get_obj c (write_all c ws t) key ≡ replay (object_after key) ws (get_obj c t key)
unfolding write_all replay
get_obj-write_all c key [] t = refl
get_obj-write_all c key (w ∷ ws) t =
    get_obj-write_all c key ws (write c w t)
    ∙ ap (replay (object_after key) ws) (get_obj-write c key w t)

-- Membership as `sMembers` computes it.
is_member : Client → ValkeyTransaction → String → String → Bool
is_member c t key m =
    not (contains (set_at key t.s_rems) m)
    && (contains (set_at key t.s_adds) m || (contains (c.smembers key) m || false))

contains-s_members :
    (c : Client) (t : ValkeyTransaction) (key m : String)
    → contains (s_members c t key) m ≡ is_member c t key m
unfolding s_members is_member
contains-s_members c t key m =
    rw
      (
        contains-delete_each m (set_at key t.s_rems) _,
        contains-add_each m (set_at key t.s_adds) _,
        contains-add_each m (c.smembers key) [],
      )
      refl

abbrev add_one : String → String → ValkeyTransaction → ValkeyTransaction
add_one j x t = record t {
  s_adds = put j (set_add x (set_at j t.s_adds)) t.s_adds;
  s_rems = drop_from j x t.s_rems;
}

abbrev remove_one : String → String → ValkeyTransaction → ValkeyTransaction
remove_one j x t = record t {
  s_rems = put j (set_add x (set_at j t.s_rems)) t.s_rems;
  s_adds = drop_from j x t.s_adds;
}

is_member-add_one :
    (c : Client) (j key m x : String) (t : ValkeyTransaction)
    → is_member c (add_one j x t) key m
      ≡ (if j == key then x == m || is_member c t key m else is_member c t key m)
unfolding is_member
is_member-add_one c j key m x t =
    rw (set_at-put j key (set_add x (set_at j t.s_adds)) t.s_adds, set_at-drop j key x m t.s_rems)
      (ground (arith, eq_iff j key, contains-add x m (set_at j t.s_adds)))

is_member-remove_one :
    (c : Client) (j key m x : String) (t : ValkeyTransaction)
    → is_member c (remove_one j x t) key m
      ≡ (if j == key then not (x == m) && is_member c t key m else is_member c t key m)
unfolding is_member
is_member-remove_one c j key m x t =
    rw (set_at-put j key (set_add x (set_at j t.s_rems)) t.s_rems, set_at-drop j key x m t.s_adds)
      (ground (arith, eq_iff j key, contains-add x m (set_at j t.s_rems)))

is_member-sadd :
    (c : Client) (j key m : String) (ms : List String) (t : ValkeyTransaction)
    → is_member c (sadd_each j ms t) key m
      ≡ (if j == key then contains ms m || is_member c t key m else is_member c t key m)
unfolding sadd_each
is_member-sadd c j key m [] t = ground arith
is_member-sadd c j key m (x ∷ ms) t =
    rw (is_member-sadd c j key m ms (add_one j x t))
      (ground (arith, is_member-add_one c j key m x t))

is_member-srem :
    (c : Client) (j key m : String) (ms : List String) (t : ValkeyTransaction)
    → is_member c (srem_each j ms t) key m
      ≡ (if j == key then not (contains ms m) && is_member c t key m else is_member c t key m)
unfolding srem_each
is_member-srem c j key m [] t = ground arith
is_member-srem c j key m (x ∷ ms) t =
    rw (is_member-srem c j key m ms (remove_one j x t))
      (ground (arith, is_member-remove_one c j key m x t))

is_member-write :
    (c : Client) (key m : String) (w : Write) (t : ValkeyTransaction)
    → is_member c (write c w t) key m ≡ member_after key m w (is_member c t key m)
unfolding write member_after is_member
is_member-write c key m (members_added j []) t = ground arith
is_member-write c key m (members_added j (x ∷ ms)) t = is_member-sadd c j key m (x ∷ ms) t
is_member-write c key m (members_removed j []) t = ground arith
is_member-write c key m (members_removed j (x ∷ ms)) t = is_member-srem c j key m (x ∷ ms) t
is_member-write c key m (object_put j v ttl) t = refl
is_member-write c key m (object_deleted j) t = refl
is_member-write c key m (string_put j v ttl) t = refl
is_member-write c key m (string_deleted j) t = refl
is_member-write c key m (scored j s x) t = refl
is_member-write c key m (unscored j x) t = refl
is_member-write c key m (expiring j n) t = refl
is_member-write c key m (lasting j) t = refl

is_member-write_all :
    (c : Client) (key m : String) (ws : List Write) (t : ValkeyTransaction)
    → is_member c (write_all c ws t) key m ≡ replay (member_after key m) ws (is_member c t key m)
unfolding write_all replay
is_member-write_all c key m [] t = refl
is_member-write_all c key m (w ∷ ws) t =
    is_member-write_all c key m ws (write c w t)
    ∙ ap (replay (member_after key m) ws) (is_member-write c key m w t)

-- Reading the members of a set in a transaction gives exactly the members that replaying the
-- transaction's additions to it and removals from it, in their order, makes of those read before. A
-- deletion of the whole key changes nothing.
pub s_members-write_all :
    (c : Client) (key m : String) (ws : List Write) (t : ValkeyTransaction)
    → contains (s_members c (write_all c ws t) key) m
      ≡ replay (member_after key m) ws (contains (s_members c t key) m)
s_members-write_all c key m ws t =
    rw (contains-s_members c (write_all c ws t) key m, contains-s_members c t key m)
      (is_member-write_all c key m ws t)
