-- ===== src/Main/Feeding.antt =====
-- Any number of `set`s that a master sends, as bytes, to the loop of `HandleReplConn` (app/main.go).
use shitty_redis.Base.{
  ℕ, ◌+◌, ◌^◌, ◌<◌, ◌≡◌, refl, sym, ap, ◌∙◌, Bool, false, List, [], ◌∷◌, ◌++◌, append_assoc, Option,
  none, some, if◌then◌else◌, length, length-append, All, arith,
}
use shitty_redis.Base.Go.{Bytes, Run, ok}
use shitty_redis.Base.Int.{ℤ, pos, negsuc, ◌+ℤ◌}
use shitty_redis.Command.Fields.{◌==s◌}
use shitty_redis.Resp.Wire.{resp_encoder, resp_decoder, list_header, bulk_strings, to_lower}
use shitty_redis.Resp.RoundTrip.{IsText, resp_decoder-resp_encoder}
use shitty_redis.Keyspace.Store.{Structure, var, find}
use shitty_redis.Server.Repl.{ReplicaRepl, Replication, replica_repl}
use shitty_redis.Main.Dispatch.{Node, Outside}
use shitty_redis.Main.Loop.{
  Round, count_bytes, is_replconf, replied, repl_rounds, repl_round, put_repl,
}
use shitty_redis.Main.Conns.{Rounds, repl_conn, repl_conn-repl_round}
use shitty_redis.Main.Setting.{set_base, HasDuration, set_effect, command-set, request-set}
use shitty_redis.Main.Effects.{find-set_effect, is_txn-set_effect}

-- A `set` as a master sends it, in letters of any case, with what its round takes from outside.
pub record Fed : Type 0 where
  pub base : Bytes
  pub key : Bytes
  pub val : Bytes
  pub more : List Bytes
  pub out : Outside
  pub fails : ℕ → Bool

abbrev pub words : Fed → List Bytes
words f = f.base ∷ f.key ∷ f.val ∷ f.more

-- The word `set`, a key and a value, and no expiry type without a duration.
pub record IsFed (f : Fed) : Type 0 where
  pub is_set : to_lower f.base ≡ set_base
  pub texts : All IsText (words f)
  pub count : length (words f) < 2 ^ 63
  pub duration : HasDuration f.more

abbrev pub rounds_of : List Fed → Rounds
rounds_of [] = []
rounds_of (f ∷ fs) = (f.out, f.fails) ∷ rounds_of fs

abbrev pub set_bytes : Fed → Bytes
set_bytes f = list_header (words f) ++ bulk_strings (words f)

abbrev pub bytes_of : List Fed → Bytes
bytes_of [] = []
bytes_of (f ∷ fs) = set_bytes f ++ bytes_of fs

-- What a key holds behind the `set`s, from what it held before.
abbrev pub latest : Bytes → List Fed → Option Structure → Option Structure
latest key [] old = old
latest key (f ∷ fs) old = latest key fs (if key ==s f.key then some (var f.val) else old)

-- All the bytes are taken without an answer and counted, and the keys hold the last values.
pub record Taken (j : ℕ) (fs : List Fed) (rest : Bytes) (r : ReplicaRepl) (replica : Node)
    : Type 0 where
  pub replica' : Node
  pub taken : repl_conn (rounds_of fs) j (bytes_of fs ++ rest) replica ≡ ok ([], rest, replica')
  pub counted :
      replica'.server.repl
      ≡ replica_repl (record r { master_offset = r.master_offset +ℤ pos (length (bytes_of fs)) })
  pub values : (key : Bytes) → find key replica'.db ≡ latest key fs (find key replica.db)

add_zero : (o : ℤ) → o +ℤ pos 0 ≡ o
unfolding ◌+ℤ◌
add_zero (pos n) = ground arith
add_zero (negsuc n) = ground arith

add_twice : (o : ℤ) (a b : ℕ) → (o +ℤ pos a) +ℤ pos b ≡ o +ℤ pos (a + b)
unfolding ◌+ℤ◌
add_twice (pos n) a b = ground arith
add_twice (negsuc n) a b = ground arith

decoded :
    (f : Fed) (rest : Bytes)
    → IsFed f
    → resp_decoder (set_bytes f ++ rest)
      ≡ ok (set_base, f.key ∷ f.val ∷ f.more, length (set_bytes f), rest)
unfolding resp_encoder
decoded f rest h =
    resp_decoder-resp_encoder f.base (f.key ∷ f.val ∷ f.more) rest h.texts h.count
    ∙ ap (λ b. ok (b, f.key ∷ f.val ∷ f.more, length (set_bytes f), rest)) h.is_set

module _ (j : ℕ) (f : Fed) (h : IsFed f) (r : ReplicaRepl) (replica : Node)
    (is_r : replica.server.repl ≡ replica_repl r)
    (plain : (replica.db.txns.states j).is_txn ≡ false) where
  abbrev next : Node
  next =
      put_repl (count_bytes (length (set_bytes f)) (replica_repl r))
        (record replica { db = set_effect f.key f.val f.more replica.db })

  repl_round-set :
      repl_round f.out f.fails j set_base (f.key ∷ f.val ∷ f.more) (length (set_bytes f)) replica
      ≡ ok (record { writes = []; blocked = none; node = next })
  unfolding repl_round
  repl_round-set =
      ap
        (λ repl.
          repl_rounds f.out f.fails j set_base (f.key ∷ f.val ∷ f.more) (length (set_bytes f)) repl
            replica)
        is_r
      ∙ rounds
    where
      finish : Replication → Run Round
      finish repl = ok (record {
        writes = [];
        blocked = none;
        node =
            put_repl (count_bytes (length (set_bytes f)) repl)
              (record replica { db = set_effect f.key f.val f.more replica.db });
      })

      rounds :
          repl_rounds f.out f.fails j set_base
            (f.key ∷ f.val ∷ f.more)
            (length (set_bytes f))
            (replica_repl r)
            replica
          ≡ finish (replica_repl r)
      rounds =
          unfold repl_rounds replied is_replconf in
          rw (request-set f.out j replica f.key f.val f.more h.duration plain)
            (rw command-set (ap finish is_r))

pub repl_conn-Taken :
    (j : ℕ) (fs : List Fed) (rest : Bytes) (r : ReplicaRepl) (replica : Node)
    → All IsFed fs
    → replica.server.repl ≡ replica_repl r
    → (replica.db.txns.states j).is_txn ≡ false
    → Taken j fs rest r replica
repl_conn-Taken j [] rest r replica h is_r plain = record {
  replica' = replica;
  taken = unfold repl_conn in refl;
  counted =
      is_r
      ∙ ap (λ o. replica_repl (record r { master_offset = o })) (sym (add_zero r.master_offset));
  values = λ key. refl;
}
repl_conn-Taken j (f ∷ fs) rest r replica (h, hs) is_r plain =
    let n : ℕ = length (set_bytes f) in
    let r' : ReplicaRepl = record r { master_offset = r.master_offset +ℤ pos n } in
    let after : Node = next j f h r replica is_r plain in
    let more : Taken j fs rest r' after =
      repl_conn-Taken j fs rest r' after hs (unfold put_repl count_bytes in refl)
        (unfold put_repl in is_txn-set_effect f.key f.val f.more replica.db j ∙ plain) in
    record {
      replica' = more.replica';
      taken =
          repl_conn-repl_round f.out f.fails (rounds_of fs) j _ replica set_base
            (f.key ∷ f.val ∷ f.more) n (bytes_of fs ++ rest) [] [] rest after more.replica'
            (ap resp_decoder (append_assoc (set_bytes f) (bytes_of fs) rest)
              ∙ decoded f (bytes_of fs ++ rest) h)
            r is_r (repl_round-set j f h r replica is_r plain) more.taken;
      counted =
          more.counted
          ∙ ap (λ o. replica_repl (record r { master_offset = o }))
              (add_twice r.master_offset n (length (bytes_of fs))
                ∙ ap (λ k. r.master_offset +ℤ pos k)
                    (sym (length-append (set_bytes f) (bytes_of fs))));
      values = λ key.
          more.values key
          ∙ ap (latest key fs)
              (unfold put_repl in find-set_effect key f.key f.val f.more replica.db);
    }
