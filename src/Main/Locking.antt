-- ===== src/Main/Locking.antt =====
-- The lock of a master (app/server/master.go) in a round of a connection (app/main.go).
use shitty_redis.Base.{ℕ, ◌≡◌, refl, ap, ◌∙◌, inl, inr, Bool, false, List, none}
use shitty_redis.Base.Go.{Bytes, panic}
use shitty_redis.Resp.Wire.{resp_encoder}
use shitty_redis.Server.Config.{Config, master}
use shitty_redis.Server.Repl
use shitty_redis.Server.Repl.{
  MasterRepl, Replication, master_repl, Server, lock, propogate, new_repl, new_master,
}
use shitty_redis.Main.Dispatch.{Node, Outside}
use shitty_redis.Main.Loop.{replicate_set, after_write, answered, client_round}
use shitty_redis.Main.Setting.{set_base, command-set, request-set_any}

after_write_panics :
    (out : Outside) (fails : ℕ → Bool) (i : ℕ) (args : List Bytes) (m : MasterRepl)
    → m.mu ≡ none
    → after_write out fails i set_base args (master_repl m) ≡ panic
unfolding after_write replicate_set propogate lock resp_encoder
after_write_panics out fails i args m e = rw (command-set, e) refl

-- On a master that `New` has just made, a round of a connection with a `set` panics, whatever the
-- arguments are, when its answer can be written.
pub client_round_panics :
    (out : Outside) (fails : ℕ → Bool) (i : ℕ) (args : List Bytes) (cfg : Config) (node : Node)
    → cfg.role ≡ master
    → node.server ≡ Repl.new cfg
    → fails i ≡ false
    → client_round out fails i set_base args node ≡ panic
unfolding client_round answered Repl.new new_repl new_master
client_round_panics out fails i args cfg node r s f = elim (request-set_any out i node args) [
  | inl e ↦ rw e refl
  | inr (b, node', e, same) ↦
      let fresh : node'.server.repl ≡ master_repl new_master =
        ap (λ (v : Server). v.repl) (same ∙ s) ∙ rw r refl in
      rw (e, f) (rw (fresh, after_write_panics out fails i args new_master refl) refl)
]
