-- ===== src/Coordinator/Registry/Rotation.antt =====
-- internal/coordinator/registry.go: SealAndRotate, PatchShardState and CheckSeal.
pub mod Sound
use little_big_files.Common.{
  ℕ, ◌+◌, Bool, true, false, not, ◌&&◌, ◌||◌, Option, none, some, String, ltb, leb, ◌==◌,
  if◌then◌else◌,
}
use little_big_files.Common.Result.{Result, ok, err}
use little_big_files.Common.Exec.{pure, raise, gets, ◌>>=◌, ◌>>◌}
use little_big_files.Coordinator.Repo.{
  ShardState, active, sealed, standby, ShardInfo, Table, SealedShardTransition, is_active,
  is_standby, get_shard, active_shard, standby_shard, set_shard_state, promote_standby,
}
use little_big_files.Coordinator.Registry.{
  Registry, Method, sql, select, executes, caught, ignored, mark_reachable, mark_unreachable,
  fetch_stats, seal_shard_remote, ensure_active_shard, is_error,
}
use Prim.Native.Nat.{Ordering}
use Prim.Native.String as Text

-- A row that is still in the state it has to be in.
has_state : (ShardState → Bool) → Option ShardInfo → Bool
has_state p none = false
has_state p (some s) = p s.state

-- The row of this id, and active.
is_current : ℕ → Option ShardInfo → Bool
is_current id none = false
is_current id (some s) = s.shard_id == id && is_active s.state

reachable_or : ShardInfo → Result ℕ → Method Unit
reachable_or s (ok _) = pure tt
reachable_or s (err e) = do mark_unreachable s.shard_id e; raise "standby shard is unavailable"

rotation_error : Result ShardInfo → Method ShardInfo
rotation_error (ok s) = pure s
rotation_error (err e) = raise "rotation incomplete"

abbrev pub transition_of : ShardInfo → ℕ × ℕ → SealedShardTransition
transition_of a (total, at) = record { shard_id = a.shard_id; total_bytes = total; sealed_at = at }

-- The last section of SealAndRotate under rotationMu: both shards are looked at again.
commit_rotation : ShardInfo → ShardInfo → ℕ × ℕ → Method Unit
unfolding rotation_error
commit_rotation a s sealing = do
  mark_reachable s.shard_id
  outcome ← caught (sql (promote_standby s.shard_id (some (transition_of a sealing))))
  next ← rotation_error outcome
  mark_reachable a.shard_id
  mark_reachable next.shard_id

pub finish_rotation : ShardInfo → ShardInfo → ℕ × ℕ → Method Unit
unfolding is_current has_state commit_rotation
finish_rotation a s sealing = do
  current ← sql (select active_shard)
  (if not (is_current a.shard_id current) then raise "invalid shard state transition" else do
    waiting ← sql (select (get_shard s.shard_id))
    (if not (has_state is_standby waiting)
        then raise "invalid shard state transition"
        else commit_rotation a s sealing))

-- The requests of SealAndRotate, and what follows them.
rotate : ShardInfo → Option ShardInfo → Method Unit
unfolding reachable_or
rotate a none = raise "no standby shard available"
rotate a (some s) = do
  stats ← caught fetch_stats
  reachable_or s stats
  sealing ← seal_shard_remote a
  finish_rotation a s sealing

rotate_from : Option ShardInfo → Method Unit
unfolding rotate
rotate_from none = raise "no active shard"
rotate_from (some a) = do s ← sql (select standby_shard); rotate a s

-- SealAndRotate
pub seal_and_rotate : Method Unit
unfolding rotate_from
seal_and_rotate = do a ← sql (select active_shard); rotate_from a

-- PatchShardState, to sealed.
require : (ShardState → Bool) → Option ShardInfo → Method ShardInfo
require p none = raise "shard not found"
require p (some s) = if p s.state then pure s else raise "invalid shard state transition"

pub patch_sealed : ℕ → Method (Option ShardInfo)
unfolding require
patch_sealed id = do
  target ← sql (select (get_shard id))
  shard ← require is_active target
  (total, at) ← seal_shard_remote shard
  current ← sql (select (get_shard id))
  _ ← require is_active current
  sql (executes (set_shard_state id sealed total (some at)))
  sql (select (get_shard id))

-- PatchShardState, to active: the active shard, if there is another one, is sealed first.
other_than : ℕ → Option ShardInfo → Option ShardInfo
other_than id none = none
other_than id (some a) = if a.shard_id == id then none else some a

seal_other : Option ShardInfo → Method (Option SealedShardTransition)
seal_other none = pure none
seal_other (some a) = do sealing ← seal_shard_remote a; pure (some (transition_of a sealing))

answers_or : ShardInfo → Result ℕ → Method Unit
answers_or s (ok _) = pure tt
answers_or s (err e) = do
  mark_unreachable s.shard_id e
  raise "invalid shard state transition: target standby shard is unavailable"

promotion_error : Option SealedShardTransition → Result ShardInfo → Method ShardInfo
promotion_error transition (ok s) = pure s
promotion_error none (err e) = raise e
promotion_error (some _) (err e) = raise "rotation incomplete"

pub patch_active : ℕ → Bool → Method (Option ShardInfo)
unfolding require other_than seal_other answers_or promotion_error
patch_active id confirm = do
  row ← sql (select (get_shard id))
  target ← require (λ state. is_standby state && confirm) row
  a ← sql (select active_shard)
  stats ← caught fetch_stats
  answers_or target stats
  transition ← seal_other (other_than target.shard_id a)
  current ← sql (select (get_shard id))
  _ ← require is_standby current
  mark_reachable target.shard_id
  outcome ← caught (sql (promote_standby target.shard_id transition))
  updated ← promotion_error transition outcome
  mark_reachable updated.shard_id
  pure (some updated)

-- PatchShardState
pub patch_shard_state : ℕ → ShardState → Bool → Method (Option ShardInfo)
patch_shard_state id sealed confirm = patch_sealed id
patch_shard_state id active confirm = patch_active id confirm
patch_shard_state id standby confirm = raise "invalid shard state transition"

-- CheckSeal. Without a standby shard a full shard is sealed all the same.
rotated : ShardInfo → Result (Unit {0}) → Method Unit
rotated a (ok _) = pure tt
rotated a (err e) =
    if is_error e "no standby shard available"
    then (do _ ← patch_sealed a.shard_id; pure tt)
    else raise e

is_over : ℕ → Registry → Bool
is_over total reg = ltb 0 reg.shard_max_bytes && leb reg.shard_max_bytes total

weigh : ShardInfo → Result ℕ → Method Unit
unfolding rotated is_over
weigh a (err e) = do mark_unreachable a.shard_id e; raise e
weigh a (ok total) = do
  mark_reachable a.shard_id
  ignored (sql (executes (set_shard_state a.shard_id active total none)))
  over ← gets (is_over total)
  (if over then (do r ← caught seal_and_rotate; rotated a r) else pure tt)

check_active : Result ShardInfo → Method Unit
unfolding weigh
check_active (err e) = pure tt
check_active (ok a) = do stats ← caught fetch_stats; weigh a stats

check_from : Option ShardInfo → Method Unit
unfolding check_active
check_from (some a) = check_active (ok a)
check_from none = do a ← caught ensure_active_shard; check_active a

-- CheckSeal
pub check_seal : Method Unit
unfolding check_from
check_seal = do a ← sql (select active_shard); check_from a
