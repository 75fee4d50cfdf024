-- ===== src/Valkey/Examples.antt =====
-- The theorems about packages/ormize-adapter-valkey/src at concrete inputs.
use gqlize.Common.{
  lookup, true, false, String, Option, none, some, List, [], ◌∷◌, map, contains, ◌≡◌, refl, ◌||◌,
  if◌then◌else◌, ◌==◌,
}
use gqlize.Valkey.Transaction.{
  finite, infinite, text, Client, ValkeyTransaction, get_obj, s_members, mget_obj, new_transaction,
}
use gqlize.Valkey.Buffer.{commit}
use gqlize.Valkey.Overlay.{
  Write, object_put, object_deleted, scored, members_added, members_removed, write_all,
  object_after, member_after, replay, get_obj-write_all, s_members-write_all,
}
use gqlize.Js.Value.{Value, str}
use gqlize.Valkey.Match.{Row}
use gqlize.Valkey.Indexes.{
  Keys, ValkeyModel, membership_key, reindex, add_to_indexes, plan_indexes, equality_keys,
  unique_entries, index_key, unique_key,
}
use gqlize.Valkey.Membership.{planned, reindex-membership, add_to_indexes-membership}
use gqlize.Valkey.Direct.{write_all_now, write_all_now-commands}
use gqlize.Valkey.Commit.{
  mget_obj-each, commit-sends, commit-refuses, all_commands, batches, answered, commands_of,
}

-- A store with one object and one set of two, whose pipeline has no "persist".
abbrev get : String → Option String
get key = if key == "user:1" then some "{}" else none

abbrev client : Client
client = record {
  get = get;
  mget = map get;
  zrange = λ key. [];
  smembers = λ key. if key == "keys:1" then "a" ∷ "b" ∷ [] else [];
  has_command =
      λ name. name == "set" || name == "del" || name == "sadd" || name == "srem" || name == "zadd";
  decimal = λ n. "1";
  parse_float = λ s. some 1;
  exec_fault = λ batch. some "EXECABORT";
}

abbrev writes : List Write
writes =
    object_deleted "user:1"
    ∷ members_removed "keys:1" ("a" ∷ "b" ∷ [])
    ∷ object_put "user:1" "{x}" (some 5)
    ∷ members_added "keys:1" ("b" ∷ "c" ∷ [])
    ∷ scored "index" (finite 1) "user:1"
    ∷ []

get_obj-write_all_example :
    get_obj client (write_all client writes new_transaction) "user:1"
    ≡ replay (object_after "user:1") writes (get_obj client new_transaction "user:1")
get_obj-write_all_example = get_obj-write_all client "user:1" writes new_transaction

s_members-write_all_example :
    contains (s_members client (write_all client writes new_transaction) "keys:1") "b"
    ≡ replay
        (member_after "keys:1" "b")
        writes
        (contains (s_members client new_transaction "keys:1") "b")
s_members-write_all_example = s_members-write_all client "keys:1" "b" writes new_transaction

mget_obj-each_test :
    mget_obj client (write_all client writes new_transaction) ("user:1" ∷ "user:2" ∷ "user:1" ∷ [])
    ≡ map
        (get_obj client (write_all client writes new_transaction))
        ("user:1" ∷ "user:2" ∷ "user:1" ∷ [])
mget_obj-each_test =
    mget_obj-each client (write_all client writes new_transaction)
      ("user:1" ∷ "user:2" ∷ "user:1" ∷ []) (λ js. refl)

commit-sends_example :
    ((commit client (write_all client writes new_transaction)).0 ≡ (
      batches (all_commands client writes),
      answered client (batches (all_commands client writes)),
    ))
    × ((commit client (commit client (write_all client writes new_transaction)).1).0 ≡ ([], none))
unfolding all_commands commands_of
commit-sends_example = commit-sends client writes refl

abbrev lasting_one : ValkeyTransaction
lasting_one = record new_transaction { commands = ("persist", text "user:1" ∷ []) ∷ [] }

commit-refuses_test :
    (name : String) × ((commit client lasting_one ≡ (([], some name), lasting_one))
      × (client.has_command name ≡ false))
commit-refuses_test = commit-refuses client lasting_one refl

abbrev encode : Value → String
encode (str s) = s
encode v = "null"

abbrev key_space : Keys
key_space = record { prefix = "app"; encode_value = encode }

abbrev users : ValkeyModel
users = record { name = "User"; indexes = "team" ∷ []; uniques = "email" ∷ [] }

abbrev before_row : Row
before_row = ("team", str "a") ∷ ("email", str "x@y") ∷ []

abbrev after_row : Row
after_row = ("team", str "b") ∷ ("email", str "x@y") ∷ []

abbrev old_key : String
old_key = "app:User:i:team:a"

reindex-membership_example :
    replay
      (member_after (membership_key key_space "User" "7") old_key)
      (reindex key_space users "7" before_row after_row infinite none)
      (planned key_space users old_key before_row)
    ≡ planned key_space users old_key after_row
reindex-membership_example =
    reindex-membership key_space users "7" old_key before_row after_row infinite none

reindex_test :
    (planned key_space users old_key before_row ≡ true)
    × (planned key_space users old_key after_row ≡ false)
unfolding planned plan_indexes equality_keys unique_entries index_key unique_key lookup
reindex_test = (refl, refl)

add_to_indexes-membership_test :
    replay
      (member_after (membership_key key_space "User" "7") old_key)
      (add_to_indexes key_space users "7" (plan_indexes key_space users before_row) infinite none)
      false
    ≡ planned key_space users old_key before_row
add_to_indexes-membership_test =
    add_to_indexes-membership key_space users "7" old_key before_row infinite none

write_all_now-commands_test :
    (write_all_now client writes (record { calls = [] })).calls
    ≡ (write_all client writes new_transaction).commands
write_all_now-commands_test = write_all_now-commands client writes
