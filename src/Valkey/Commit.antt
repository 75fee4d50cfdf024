-- ===== src/Valkey/Commit.antt =====
-- The end of a transaction and its reads of many keys
-- (packages/ormize-adapter-valkey/src/transaction.ts).
use gqlize.Common.{
  String, Bool, true, false, not, ◌&&◌, Option, none, some, List, [], ◌∷◌, ◌++◌, map, Dict, lookup,
  put, contains, keep, is_some, ok, err, if◌then◌else◌, ◌≡◌, refl, arith, eq_iff, lookup-put, ◌∙◌,
  append_assoc, append-nil, sym, ap, Option-cases, inl, inr, Bool-cases, and-eq-true_iff,
}
use gqlize.Valkey.Transaction.{
  text, number, Command, Client, ValkeyTransaction, set_args, score_arg, get_obj, overlaid,
  new_transaction, mget_obj, by_key, fetch,
}
use gqlize.Valkey.Buffer.{sadd_each, srem_each, commit, commit_commands, queue_all}
use gqlize.Valkey.Overlay.{
  Write, object_put, string_put, object_deleted, string_deleted, scored, unscored, members_added,
  members_removed, expiring, lasting, write, write_all,
}

contains-keep :
    (p : String → Bool) (k : String) (ks : List String)
    → contains (keep p ks) k ≡ (p k && contains ks k)
contains-keep p k [] = ground arith
contains-keep p k (x ∷ ks) = ground (arith, contains-keep p k ks, eq_iff x k)

lookup-by_key :
    (c : Client) (k : String) (ks : List String) (d : Dict (Option String))
    → lookup k (by_key c ks (map c.get ks) d)
      ≡ (if contains ks k then some (c.get k) else lookup k d)
unfolding by_key
lookup-by_key c k [] d = refl
lookup-by_key c k (x ∷ ks) d =
    ground (arith, lookup-by_key c k ks (put x (c.get x) d), lookup-put x k (c.get x) d, eq_iff x k)

map_ext :
    {A : Type 0} (f g : String → A) (ks : List String)
    → ((k : String) → contains ks k ≡ true → f k ≡ g k)
    → map f ks ≡ map g ks
map_ext f g [] h = refl
map_ext f g (k ∷ ks) h =
    rw (h k (ground (arith, eq_iff k k)))
      (ap (λ xs. g k ∷ xs) (map_ext f g ks (λ j q. h j (ground arith))))

fetch_lem :
    (c : Client) (ks : List String)
    → ((js : List String) → c.mget js ≡ map c.get js)
    → fetch c ks ≡ map c.get ks
fetch_lem c [] h = refl
fetch_lem c (k ∷ ks) h = h (k ∷ ks)

is_missing : ValkeyTransaction → String → Bool
is_missing t k = not (is_some (lookup k t.objects))

found-missing :
    (c : Client) (t : ValkeyTransaction) (k : String) (ks : List String)
    → ((js : List String) → c.mget js ≡ map c.get js)
    → contains ks k ≡ true
    → lookup k t.objects ≡ none
    → lookup k (by_key c (keep (is_missing t) ks) (fetch c (keep (is_missing t) ks)) [])
      ≡ some (c.get k)
unfolding is_missing lookup
found-missing c t k ks h q n =
    rw
      (
        fetch_lem c (keep (is_missing t) ks) h,
        lookup-by_key c k (keep (is_missing t) ks) [],
        contains-keep (is_missing t) k ks,
        q,
        n,
      )
      refl

mget_one : ValkeyTransaction → Dict (Option String) → String → Option String
mget_one t found k = elim (lookup k t.objects) [
  | some v ↦ v
  | none ↦ elim (lookup k found) [ some v ↦ v | none ↦ none ]
]

mget_one_lem :
    (c : Client) (t : ValkeyTransaction) (d : Dict (Option String)) (k : String)
    → (lookup k t.objects ≡ none → lookup k d ≡ some (c.get k))
    → mget_one t d k ≡ get_obj c t k
unfolding mget_one get_obj overlaid
mget_one_lem c t d k h = elim (Option-cases (lookup k t.objects)) [
  | inl n ↦ rw (mget_one, get_obj, overlaid, n, h n) refl
  | inr (v, n) ↦ rw (mget_one, get_obj, overlaid, n) refl
]

-- Where the store's many-key read is its one-key read of each key, reading many objects in a
-- transaction is reading each: keys written in it, keys fetched and repeated keys alike.
pub mget_obj-each :
    (c : Client) (t : ValkeyTransaction) (ks : List String)
    → ((js : List String) → c.mget js ≡ map c.get js)
    → mget_obj c t ks ≡ map (get_obj c t) ks
unfolding mget_obj mget_one is_missing
mget_obj-each c t ks h =
    map_ext (mget_one t (by_key c (keep (is_missing t) ks) (fetch c (keep (is_missing t) ks)) []))
      (get_obj c t) ks (λ k q. mget_one_lem c t _ k (found-missing c t k ks h q))

-- The commands that a write stands for.
unfoldable pub commands_of : Client → Write → List Command
commands_of c (object_put k v ttl) = ("set", set_args k v ttl) ∷ []
commands_of c (string_put k v ttl) = ("set", set_args k v ttl) ∷ []
commands_of c (object_deleted k) = ("del", text k ∷ []) ∷ []
commands_of c (string_deleted k) = ("del", text k ∷ []) ∷ []
commands_of c (scored k s m) = ("zadd", text k ∷ text (score_arg c s) ∷ text m ∷ []) ∷ []
commands_of c (unscored k m) = ("zrem", text k ∷ text m ∷ []) ∷ []
commands_of c (members_added k []) = []
commands_of c (members_added k (m ∷ ms)) = ("sadd", text k ∷ map text (m ∷ ms)) ∷ []
commands_of c (members_removed k []) = []
commands_of c (members_removed k (m ∷ ms)) = ("srem", text k ∷ map text (m ∷ ms)) ∷ []
commands_of c (expiring k n) = ("pexpire", text k ∷ number n ∷ []) ∷ []
commands_of c (lasting k) = ("persist", text k ∷ []) ∷ []

unfoldable pub all_commands : Client → List Write → List Command
all_commands c [] = []
all_commands c (w ∷ ws) = commands_of c w ++ all_commands c ws

commands-sadd_each :
    (k : String) (ms : List String) (t : ValkeyTransaction)
    → (sadd_each k ms t).commands ≡ t.commands
unfolding sadd_each
commands-sadd_each k [] t = refl
commands-sadd_each k (m ∷ ms) t = commands-sadd_each k ms _

commands-srem_each :
    (k : String) (ms : List String) (t : ValkeyTransaction)
    → (srem_each k ms t).commands ≡ t.commands
unfolding srem_each
commands-srem_each k [] t = refl
commands-srem_each k (m ∷ ms) t = commands-srem_each k ms _

pub commands-write :
    (c : Client) (w : Write) (t : ValkeyTransaction)
    → (write c w t).commands ≡ t.commands ++ commands_of c w
unfolding write commands_of
commands-write c (members_added j []) t = sym (append-nil _)
commands-write c (members_added j (x ∷ ms)) t = rw (commands-sadd_each j (x ∷ ms) t) refl
commands-write c (members_removed j []) t = sym (append-nil _)
commands-write c (members_removed j (x ∷ ms)) t = rw (commands-srem_each j (x ∷ ms) t) refl
commands-write c (object_put j v ttl) t = refl
commands-write c (object_deleted j) t = refl
commands-write c (string_put j v ttl) t = refl
commands-write c (string_deleted j) t = refl
commands-write c (scored j s x) t = refl
commands-write c (unscored j x) t = refl
commands-write c (expiring j n) t = refl
commands-write c (lasting j) t = refl

commands-write_all :
    (c : Client) (ws : List Write) (t : ValkeyTransaction)
    → (write_all c ws t).commands ≡ t.commands ++ all_commands c ws
unfolding write_all all_commands
commands-write_all c [] t = sym (append-nil _)
commands-write_all c (w ∷ ws) t =
    rw (commands-write_all c ws (write c w t), commands-write c w t)
      (append_assoc t.commands (commands_of c w) _)

abbrev pub available : Client → List Command → Bool
available c [] = true
available c ((name, args) ∷ more) = c.has_command name && available c more

-- one batch, unless it is empty
unfoldable pub batches : List Command → List (List Command)
batches [] = []
batches (x ∷ xs) = (x ∷ xs) ∷ []

queue_all-all : (c : Client) (xs : List Command) → available c xs ≡ true → queue_all c xs ≡ ok xs
unfolding queue_all
queue_all-all c [] h = refl
queue_all-all c ((name, args) ∷ xs) h =
    let both = (and-eq-true_iff (c.has_command name) (available c xs)).0 h in
    rw (both.0, queue_all-all c xs (both.1)) refl

queue_all-some :
    (c : Client) (xs : List Command)
    → available c xs ≡ false
    → (name : String) × ((queue_all c xs ≡ err name) × (c.has_command name ≡ false))
unfolding queue_all
queue_all-some c [] h = ground arith
queue_all-some c ((name, args) ∷ xs) h = elim (Bool-cases (c.has_command name)) [
  | inr e ↦ (name, (rw (e) refl, e))
  | inl e ↦ let r = queue_all-some c xs (ground arith) in (r.0, (rw (e, r.1.0) refl, r.1.1))
]

-- The fault, if any, that sending batches ends in.
abbrev pub answered : Client → List (List Command) → Option String
answered c [] = none
answered c (batch ∷ more) = c.exec_fault batch

commit_commands_lem :
    (c : Client) (xs : List Command) (t : ValkeyTransaction)
    → available c xs ≡ true
    → t.commands ≡ xs
    → ((commit_commands c xs t).0 ≡ (batches xs, answered c (batches xs)))
      × ((commit_commands c xs t).1.commands ≡ [])
unfolding batches
commit_commands_lem c [] t h e = (refl, e)
commit_commands_lem c (x ∷ xs) t h e = rw (queue_all-all c (x ∷ xs) h) (refl, refl)

commit-none : (c : Client) (t : ValkeyTransaction) → t.commands ≡ [] → (commit c t).0 ≡ ([], none)
unfolding commit
commit-none c t e = rw (commit, e) refl

commit_commands-refuses :
    (c : Client) (xs : List Command) (t : ValkeyTransaction)
    → available c xs ≡ false
    → (name : String) × ((commit_commands c xs t ≡ (([], some name), t))
        × (c.has_command name ≡ false))
commit_commands-refuses c [] t h = ground arith
commit_commands-refuses c (x ∷ xs) t h =
    let r = queue_all-some c (x ∷ xs) h in (r.0, (rw (r.1.0) refl, r.1.1))

-- Committing a new transaction after any writes, where the pipeline has every command of theirs, sends
-- one batch with the commands of the writes in the order they were made, or nothing where there are
-- none, and ends as the store answers the batch; however it does, a second commit sends nothing.
pub commit-sends :
    (c : Client) (ws : List Write)
    → available c (all_commands c ws) ≡ true
    → ((commit c (write_all c ws new_transaction)).0
        ≡ (batches (all_commands c ws), answered c (batches (all_commands c ws))))
      × ((commit c (commit c (write_all c ws new_transaction)).1).0 ≡ ([], none))
unfolding commit
commit-sends c ws h =
    let e = commands-write_all c ws new_transaction in
    let r = commit_commands_lem c (all_commands c ws) (write_all c ws new_transaction) h e in
    let same = ap (λ xs. commit_commands c xs (write_all c ws new_transaction)) e in
    (ap (λ p. p.0) same ∙ r.0, commit-none c _ (ap (λ p. p.1.commands) same ∙ r.1))

-- Where the pipeline lacks a command that was buffered, commit throws the name of one it lacks, sends
-- nothing, and leaves the transaction as it was.
pub commit-refuses :
    (c : Client) (t : ValkeyTransaction)
    → available c t.commands ≡ false
    → (name : String) × ((commit c t ≡ (([], some name), t)) × (c.has_command name ≡ false))
unfolding commit
commit-refuses c t h = commit_commands-refuses c t.commands t h
