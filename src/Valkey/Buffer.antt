-- ===== src/Valkey/Buffer.antt =====
-- The writes of `ValkeyTransaction`, and its `commit` and `rollback`
-- (packages/ormize-adapter-valkey/src/transaction.ts).
use gqlize.Common.{
  ℕ, String, Option, none, some, List, [], ◌∷◌, map, put, Result, ok, err, ◌>>=◌, if◌then◌else◌,
}
use gqlize.Valkey.Transaction.{
  Score, text, number, Command, Client, ValkeyTransaction, set_add, set_at, map_at, drop_from,
  drop_score, push_command, set_args, score_arg, new_transaction,
}

abbrev pub put_obj : String → String → Option ℕ → ValkeyTransaction → ValkeyTransaction
put_obj key value ttl t =
    push_command "set" (set_args key value ttl)
      (record t { objects = put key (some value) t.objects })

abbrev pub del_obj : String → ValkeyTransaction → ValkeyTransaction
del_obj key t = push_command "del" (text key ∷ []) (record t { objects = put key none t.objects })

abbrev pub put_str : String → String → Option ℕ → ValkeyTransaction → ValkeyTransaction
put_str key value ttl t =
    push_command "set" (set_args key value ttl) (record t { strs = put key (some value) t.strs })

abbrev pub del_str : String → ValkeyTransaction → ValkeyTransaction
del_str key t = push_command "del" (text key ∷ []) (record t { strs = put key none t.strs })

abbrev pub zadd : Client → String → Score → String → ValkeyTransaction → ValkeyTransaction
zadd c zkey score member t =
    push_command "zadd" (text zkey ∷ text (score_arg c score) ∷ text member ∷ []) (record t {
      z_adds = put zkey (put member score (map_at zkey t.z_adds)) t.z_adds;
      z_rems = drop_from zkey member t.z_rems;
    })

abbrev pub zrem : String → String → ValkeyTransaction → ValkeyTransaction
zrem zkey member t = push_command "zrem" (text zkey ∷ text member ∷ []) (record t {
  z_rems = put zkey (set_add member (set_at zkey t.z_rems)) t.z_rems;
  z_adds = drop_score zkey member t.z_adds;
})

-- the loops of `sadd` and `srem` over their members
unfoldable pub sadd_each : String → List String → ValkeyTransaction → ValkeyTransaction
sadd_each key [] t = t
sadd_each key (m ∷ ms) t = sadd_each key ms (record t {
  s_adds = put key (set_add m (set_at key t.s_adds)) t.s_adds;
  s_rems = drop_from key m t.s_rems;
})

unfoldable pub srem_each : String → List String → ValkeyTransaction → ValkeyTransaction
srem_each key [] t = t
srem_each key (m ∷ ms) t = srem_each key ms (record t {
  s_rems = put key (set_add m (set_at key t.s_rems)) t.s_rems;
  s_adds = drop_from key m t.s_adds;
})

abbrev pub sadd : String → List String → ValkeyTransaction → ValkeyTransaction
sadd key [] t = t
sadd key (m ∷ ms) t = push_command "sadd" (text key ∷ map text (m ∷ ms)) (sadd_each key (m ∷ ms) t)

abbrev pub srem : String → List String → ValkeyTransaction → ValkeyTransaction
srem key [] t = t
srem key (m ∷ ms) t = push_command "srem" (text key ∷ map text (m ∷ ms)) (srem_each key (m ∷ ms) t)

abbrev pub pexpire : String → ℕ → ValkeyTransaction → ValkeyTransaction
pexpire key ttl t = push_command "pexpire" (text key ∷ number ttl ∷ []) t

abbrev pub persist : String → ValkeyTransaction → ValkeyTransaction
persist key t = push_command "persist" (text key ∷ []) t

-- The loop of `commit`: the commands it queues, or the name of one that the pipeline lacks.
unfoldable pub queue_all : Client → List Command → Result String (List Command)
queue_all c [] = ok []
queue_all c ((name, args) ∷ more) =
    if c.has_command name then (do rest ← queue_all c more; ok ((name, args) ∷ rest)) else err name

-- The batches that `exec` was called with, what `commit` threw, if it did, and the transaction
-- afterwards. The commands are gone before `exec` answers.
abbrev pub finish :
    Client
    → Result String (List Command)
    → ValkeyTransaction
    → (List (List Command) × Option String) × ValkeyTransaction
finish c (ok batch) t = ((batch ∷ [], c.exec_fault batch), record t { commands = [] })
finish c (err name) t = (([], some name), t)

abbrev pub commit_commands :
    Client
    → List Command
    → ValkeyTransaction
    → (List (List Command) × Option String) × ValkeyTransaction
commit_commands c [] t = (([], none), t)
commit_commands c (x ∷ xs) t = finish c (queue_all c (x ∷ xs)) t

unfoldable pub commit :
    Client → ValkeyTransaction → (List (List Command) × Option String) × ValkeyTransaction
commit c t = commit_commands c t.commands t

unfoldable pub rollback : ValkeyTransaction → ValkeyTransaction
rollback t = new_transaction
