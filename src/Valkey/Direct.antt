-- ===== src/Valkey/Direct.antt =====
-- The writes of `DirectExecutor` of packages/ormize-adapter-valkey/src/transaction.ts, which go to the
-- client at once, next to the buffered ones.
use gqlize.Common.{
  Dict, Option, String, List, [], ◌∷◌, ◌++◌, map, ◌≡◌, refl, sym, ap, ◌∙◌, append-nil,
}
use gqlize.Valkey.Transaction.{
  Score, parse_with_scores, Arg, text, number, Command, Client, ValkeyTransaction, set_args,
  score_arg, new_transaction,
}
use gqlize.Valkey.Overlay.{
  Write, object_put, string_put, object_deleted, string_deleted, scored, unscored, members_added,
  members_removed, expiring, lasting, write, write_all,
}
use gqlize.Valkey.Commit.{commands_of, commands-write}

-- The calls made of the client, in order.
pub record DirectExecutor : Type 0 where
  pub calls : List Command

-- `track` of one call
abbrev pub track : String → List Arg → DirectExecutor → DirectExecutor
track name args ex = record { calls = ex.calls ++ (name, args) ∷ [] }

-- The reads that do more than call the client.
unfoldable pub mget_now : Client → List String → List (Option String)
mget_now c [] = []
mget_now c (key ∷ more) = c.mget (key ∷ more)

unfoldable pub z_members_now : Client → String → Dict Score
z_members_now c zkey = parse_with_scores c (c.zrange zkey)

module _ (c : Client) where
  unfoldable pub write_now : Write → DirectExecutor → DirectExecutor
  write_now (object_put key value ttl) ex = track "set" (set_args key value ttl) ex
  write_now (object_deleted key) ex = track "del" (text key ∷ []) ex
  write_now (scored zkey score member) ex =
      track "zadd" (text zkey ∷ text (score_arg c score) ∷ text member ∷ []) ex
  write_now (unscored zkey member) ex = track "zrem" (text zkey ∷ text member ∷ []) ex
  write_now (members_added key []) ex = ex
  write_now (members_added key (m ∷ ms)) ex = track "sadd" (text key ∷ map text (m ∷ ms)) ex
  write_now (members_removed key []) ex = ex
  write_now (members_removed key (m ∷ ms)) ex = track "srem" (text key ∷ map text (m ∷ ms)) ex
  write_now (string_put key value ttl) ex = track "set" (set_args key value ttl) ex
  write_now (string_deleted key) ex = track "del" (text key ∷ []) ex
  write_now (expiring key ttl) ex = track "pexpire" (text key ∷ number ttl ∷ []) ex
  write_now (lasting key) ex = track "persist" (text key ∷ []) ex

  unfoldable pub write_all_now : List Write → DirectExecutor → DirectExecutor
  write_all_now [] ex = ex
  write_all_now (w ∷ ws) ex = write_all_now ws (write_now w ex)

  calls-write_now :
      (w : Write) (ex : DirectExecutor) → (write_now w ex).calls ≡ ex.calls ++ commands_of c w
  unfolding write_now commands_of
  calls-write_now (members_added key []) ex = sym (append-nil _)
  calls-write_now (members_added key (m ∷ ms)) ex = refl
  calls-write_now (members_removed key []) ex = sym (append-nil _)
  calls-write_now (members_removed key (m ∷ ms)) ex = refl
  calls-write_now (object_put key value ttl) ex = refl
  calls-write_now (object_deleted key) ex = refl
  calls-write_now (scored zkey score member) ex = refl
  calls-write_now (unscored zkey member) ex = refl
  calls-write_now (string_put key value ttl) ex = refl
  calls-write_now (string_deleted key) ex = refl
  calls-write_now (expiring key ttl) ex = refl
  calls-write_now (lasting key) ex = refl

  -- one write, on an executor and a transaction that agree
  write_now-write :
      (w : Write) (ex : DirectExecutor) (t : ValkeyTransaction)
      → ex.calls ≡ t.commands
      → (write_now w ex).calls ≡ (write c w t).commands
  write_now-write w ex t e =
      calls-write_now w ex ∙ (ap (λ xs. xs ++ commands_of c w) e ∙ sym (commands-write c w t))

  write_all_now-agrees :
      (ws : List Write) (ex : DirectExecutor) (t : ValkeyTransaction)
      → ex.calls ≡ t.commands
      → (write_all_now ws ex).calls ≡ (write_all c ws t).commands
  unfolding write_all_now write_all
  write_all_now-agrees [] ex t e = e
  write_all_now-agrees (w ∷ ws) ex t e =
      write_all_now-agrees ws (write_now w ex) (write c w t) (write_now-write w ex t e)

  -- Any writes make the same calls of the client, in the same order, when they are made directly as
  -- the commands that a new transaction buffers for them.
  pub write_all_now-commands :
      (ws : List Write)
      → (write_all_now ws (record { calls = [] })).calls ≡ (write_all c ws new_transaction).commands
  write_all_now-commands ws = write_all_now-agrees ws (record { calls = [] }) new_transaction refl
