-- ===== src/Coordinator/Registry/Invariant.antt =====
-- internal/coordinator/registry.go: a sealed shard stays sealed.
use little_big_files.Common.{ℕ, Bool, Option, List, [], ◌∷◌, Bytes, All, some}
use little_big_files.Coordinator.Repo.{ShardState, ShardInfo}
use little_big_files.Coordinator.Repo.Sealed.{IsSealed}
use little_big_files.Coordinator.Registry.{Registry, seal_shard, ensure_active_shard, register}
use little_big_files.Coordinator.Registry.Keeps.{
  Respects, IsSound, Keeps, bind-Keeps, set_sealed-Keeps,
}
use little_big_files.Coordinator.Registry.Activation.{
  seal_shard_remote-Keeps, ensure_active_shard-Keeps, register-Keeps,
}
use little_big_files.Coordinator.Registry.Rotation.{seal_and_rotate, patch_shard_state}
use little_big_files.Coordinator.Registry.Rotation.Sound.{
  seal_and_rotate-Keeps, patch_shard_state-Keeps,
}

-- The methods of Registry that change a shard's row or its state, but for CheckSeal, which writes the
-- state active after a request.
pub data Operation : Type 0 where
  op_register : Bytes → ShardState → Bytes → Option Bytes → Operation
  op_patch : ℕ → ShardState → Bool → Operation
  op_seal : ShardInfo → Operation
  op_ensure op_rotate : Operation

-- The registry after an operation, whether it succeeds or not.
unfoldable pub run : Operation → Registry → Registry
run (op_register uuid state primary_url replica_url) reg =
    (register uuid state primary_url replica_url reg).1
run (op_patch id state confirm) reg = (patch_shard_state id state confirm reg).1
run (op_seal shard) reg = (seal_shard shard reg).1
run op_ensure reg = (ensure_active_shard reg).1
run op_rotate reg = (seal_and_rotate reg).1

unfoldable pub run_all : List Operation → Registry → Registry
run_all [] reg = reg
run_all (op ∷ ops) reg = run_all ops (run op reg)

seal_shard-Keeps : (shard : ShardInfo) → Keeps (seal_shard shard)
unfolding seal_shard
seal_shard-Keeps shard =
    bind-Keeps _ _ (seal_shard_remote-Keeps shard)
      λ sealing. set_sealed-Keeps shard.shard_id sealing.0 (some sealing.1)

run-IsSound : (op : Operation) (j : ℕ) (reg : Registry) → IsSound j reg → IsSound j (run op reg)
unfolding run
run-IsSound (op_register uuid state primary_url replica_url) =
    (register-Keeps uuid state primary_url replica_url).keeps
run-IsSound (op_patch id state confirm) = (patch_shard_state-Keeps id state confirm).keeps
run-IsSound (op_seal shard) = (seal_shard-Keeps shard).keeps
run-IsSound op_ensure = ensure_active_shard-Keeps.keeps
run-IsSound op_rotate = seal_and_rotate-Keeps.keeps

run_all-IsSound :
    (ops : List Operation) (j : ℕ) (reg : Registry) → IsSound j reg → IsSound j (run_all ops reg)
unfolding run_all
run_all-IsSound [] j reg s = s
run_all-IsSound (op ∷ ops) j reg s = run_all-IsSound ops j (run op reg) (run-IsSound op j reg s)

-- A shard that is sealed stays sealed through any sequence of RegisterShard, PatchShardState, SealShard,
-- EnsureActiveShard and SealAndRotate, whichever of their database calls and requests fail, if other
-- goroutines do not bring it back during a request.
pub run_all-IsSealed :
    (ops : List Operation) (id : ℕ) (reg : Registry)
    → IsSealed id reg.shards
    → All Respects reg.answers
    → IsSealed id (run_all ops reg).shards
run_all-IsSealed ops id reg h k = (run_all-IsSound ops id reg (h, k)).0
