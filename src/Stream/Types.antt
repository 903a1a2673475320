-- ===== src/Stream/Types.antt =====
-- The data of a stream: `StreamListpack` of app/structures/stream/stream_listpack/stream_listpack.go
-- and `Stream` of app/structures/stream/stream.go. The radix tree holds pointers to listpacks: they
-- are indexes into `packs`, in the order in which they were made.
use shitty_redis.Base.{ℕ, Option, none, List, []}
use shitty_redis.Base.Go.{Bytes}
use shitty_redis.Listpack.Pack.{Listpack}
use shitty_redis.Radix.Tree.{Rax, node, nil}

pub record StreamListpack : Type 0 where
  pub ms : ℕ
  pub seq : ℕ
  pub count : ℕ
  pub deleted : ℕ
  pub fields : List Bytes
  pub lp : Listpack

pub record StreamId : Type 0 where
  pub ms : ℕ
  pub seq : ℕ

pub record Stream : Type 0 where
  pub rax : Rax ℕ
  pub packs : List StreamListpack
  pub length : ℕ
  pub last_id : Option StreamId
  pub max_deleted_entry_id : Option StreamId
  pub entries_added : ℕ

unfoldable pub new : Stream
new = record {
  rax = node [] none nil;
  packs = [];
  length = 0;
  last_id = none;
  max_deleted_entry_id = none;
  entries_added = 0;
}
