-- ===== src/Coordinator/Registry/Rotation/Sound.antt =====
-- internal/coordinator/registry.go: SealAndRotate and PatchShardState bring no sealed shard back.
use little_big_files.Common.{ℕ, Bool, true, false, not, ◌&&◌, Option, none, some, if◌then◌else◌}
use little_big_files.Common.Result.{Result, ok, err}
use little_big_files.Common.Exec.{pure, ◌>>=◌, ◌>>◌}
use little_big_files.Coordinator.Repo.{
  ShardState, active, sealed, standby, ShardInfo, SealedShardTransition, get_shard, active_shard,
  standby_shard, is_standby, is_active,
}
use little_big_files.Coordinator.Registry.{
  mark_reachable, promote_standby, Method, sql, caught, fetch_stats,
}
use little_big_files.Coordinator.Registry.Keeps.{
  Keeps, raise-Keeps, pure-Keeps, caught-Keeps, select-Keeps, bind-Keeps, mark_reachable-Keeps,
  mark_unreachable-Keeps, request-Keeps, promote_standby-Keeps, set_sealed-Keeps,
}
use little_big_files.Coordinator.Registry.Activation.{seal_shard_remote-Keeps}
use little_big_files.Coordinator.Registry.Rotation.{
  has_state, is_current, reachable_or, rotation_error, transition_of, commit_rotation,
  finish_rotation, rotate, rotate_from, seal_and_rotate, require, patch_sealed, other_than,
  seal_other, answers_or, promotion_error, patch_active, patch_shard_state,
}

stats-Keeps : Keeps (caught fetch_stats)
stats-Keeps = caught-Keeps fetch_stats (request-Keeps "stats")

if-Keeps : {A : Type 0} (b : Bool) (m n : Method A) → Keeps m → Keeps n → Keeps (if b then m else n)
if-Keeps true m n k l = k
if-Keeps false m n k l = l

reachable_or-Keeps : (s : ShardInfo) (r : Result ℕ) → Keeps (reachable_or s r)
unfolding reachable_or
reachable_or-Keeps s (ok _) = pure-Keeps tt
reachable_or-Keeps s (err e) =
    bind-Keeps _ _ (mark_unreachable-Keeps s.shard_id e)
      λ _. raise-Keeps _ "standby shard is unavailable"

rotation_error-Keeps : (r : Result ShardInfo) → Keeps (rotation_error r)
unfolding rotation_error
rotation_error-Keeps (ok s) = pure-Keeps s
rotation_error-Keeps (err e) = raise-Keeps _ _

commit_rotation-Keeps : (a s : ShardInfo) (sealing : ℕ × ℕ) → Keeps (commit_rotation a s sealing)
unfolding commit_rotation
commit_rotation-Keeps a s sealing = bind-Keeps _ _ (mark_reachable-Keeps s.shard_id) λ _.
    bind-Keeps _ _
      (caught-Keeps _ (promote_standby-Keeps s.shard_id (some (transition_of a sealing))))
      λ outcome. bind-Keeps _ _ (rotation_error-Keeps outcome) λ next.
        bind-Keeps _ _ (mark_reachable-Keeps a.shard_id) λ _. mark_reachable-Keeps next.shard_id

finish_rotation-Keeps : (a s : ShardInfo) (sealing : ℕ × ℕ) → Keeps (finish_rotation a s sealing)
unfolding finish_rotation
finish_rotation-Keeps a s sealing = bind-Keeps _ _ (select-Keeps active_shard) λ current.
    if-Keeps (not (is_current a.shard_id current)) _ _ (raise-Keeps _ _) (
      bind-Keeps _ _ (select-Keeps (get_shard s.shard_id)) λ waiting.
        if-Keeps (not (has_state is_standby waiting)) _ _ (raise-Keeps _ _)
          (commit_rotation-Keeps a s sealing))

rotate-Keeps : (a : ShardInfo) (s : Option ShardInfo) → Keeps (rotate a s)
unfolding rotate
rotate-Keeps a none = raise-Keeps _ _
rotate-Keeps a (some s) = bind-Keeps _ _ stats-Keeps λ stats.
    bind-Keeps _ _ (reachable_or-Keeps s stats)
      λ _. bind-Keeps _ _ (seal_shard_remote-Keeps a) λ sealing. finish_rotation-Keeps a s sealing

rotate_from-Keeps : (a : Option ShardInfo) → Keeps (rotate_from a)
unfolding rotate_from
rotate_from-Keeps none = raise-Keeps _ _
rotate_from-Keeps (some a) = bind-Keeps _ _ (select-Keeps standby_shard) λ s. rotate-Keeps a s

-- SealAndRotate brings no sealed shard back, whatever its calls and requests come to and whatever other
-- goroutines do during the requests.
pub seal_and_rotate-Keeps : Keeps seal_and_rotate
unfolding seal_and_rotate
seal_and_rotate-Keeps = bind-Keeps _ _ (select-Keeps active_shard) rotate_from-Keeps

require-Keeps : (p : ShardState → Bool) (s : Option ShardInfo) → Keeps (require p s)
unfolding require
require-Keeps p none = raise-Keeps _ _
require-Keeps p (some s) = if-Keeps (p s.state) _ _ (pure-Keeps s) (raise-Keeps _ _)

patch_sealed-Keeps : (id : ℕ) → Keeps (patch_sealed id)
unfolding patch_sealed
patch_sealed-Keeps id = bind-Keeps _ _ (select-Keeps (get_shard id)) λ target.
    bind-Keeps _ _ (require-Keeps is_active target) λ shard.
      bind-Keeps _ _ (seal_shard_remote-Keeps shard) λ sealing.
        bind-Keeps _ _ (select-Keeps (get_shard id)) λ current.
          bind-Keeps _ _ (require-Keeps is_active current) λ _.
            bind-Keeps _ _ (set_sealed-Keeps id sealing.0 (some sealing.1))
              λ _. select-Keeps (get_shard id)

seal_other-Keeps : (a : Option ShardInfo) → Keeps (seal_other a)
unfolding seal_other
seal_other-Keeps none = pure-Keeps none
seal_other-Keeps (some a) =
    bind-Keeps _ _ (seal_shard_remote-Keeps a)
      λ sealing. pure-Keeps (some (transition_of a sealing))

answers_or-Keeps : (s : ShardInfo) (r : Result ℕ) → Keeps (answers_or s r)
unfolding answers_or
answers_or-Keeps s (ok _) = pure-Keeps tt
answers_or-Keeps s (err e) =
    bind-Keeps _ _ (mark_unreachable-Keeps s.shard_id e)
      λ _. raise-Keeps _ "invalid shard state transition: target standby shard is unavailable"

promotion_error-Keeps :
    (transition : Option SealedShardTransition) (r : Result ShardInfo)
    → Keeps (promotion_error transition r)
unfolding promotion_error
promotion_error-Keeps transition (ok s) = pure-Keeps s
promotion_error-Keeps none (err e) = raise-Keeps _ e
promotion_error-Keeps (some _) (err e) = raise-Keeps _ _

patch_active-Keeps : (id : ℕ) (confirm : Bool) → Keeps (patch_active id confirm)
unfolding patch_active
patch_active-Keeps id confirm = bind-Keeps _ _ (select-Keeps (get_shard id)) λ row.
    bind-Keeps _ _ (require-Keeps (λ state. is_standby state && confirm) row) λ target.
      bind-Keeps _ _ (select-Keeps active_shard) λ a. bind-Keeps _ _ stats-Keeps λ stats.
        bind-Keeps _ _ (answers_or-Keeps target stats) λ _.
          bind-Keeps _ _ (seal_other-Keeps (other_than target.shard_id a)) λ transition.
            bind-Keeps _ _ (select-Keeps (get_shard id)) λ current.
              bind-Keeps _ _ (require-Keeps is_standby current) λ _.
                bind-Keeps _ _ (mark_reachable-Keeps target.shard_id)
                  λ _. promotion-Keeps target transition
  where
    promotion-Keeps :
        (target : ShardInfo) (transition : Option SealedShardTransition)
        → Keeps (do
          outcome ← caught (sql (promote_standby target.shard_id transition))
          updated ← promotion_error transition outcome
          mark_reachable updated.shard_id
          pure (some updated))
    promotion-Keeps target transition =
        bind-Keeps _ _ (caught-Keeps _ (promote_standby-Keeps target.shard_id transition))
          λ outcome. bind-Keeps _ _ (promotion_error-Keeps transition outcome) λ updated.
            bind-Keeps _ _ (mark_reachable-Keeps updated.shard_id) λ _. pure-Keeps (some updated)

-- PatchShardState brings no sealed shard back, whatever state is asked for.
pub patch_shard_state-Keeps :
    (id : ℕ) (state : ShardState) (confirm : Bool) → Keeps (patch_shard_state id state confirm)
unfolding patch_shard_state
patch_shard_state-Keeps id sealed confirm = patch_sealed-Keeps id
patch_shard_state-Keeps id active confirm = patch_active-Keeps id confirm
patch_shard_state-Keeps id standby confirm = raise-Keeps _ _
