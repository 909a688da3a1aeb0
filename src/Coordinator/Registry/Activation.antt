-- ===== src/Coordinator/Registry/Activation.antt =====
-- internal/coordinator/registry.go: EnsureActiveShard and RegisterShard bring no sealed shard back.
use little_big_files.Common.{
  ℕ, ◌≡◌, refl, subst, Bool, true, false, ltb, if◌then◌else◌, Option, none, some, [], ◌∷◌, Bytes,
  Bool-cases, inl, inr, Option-cases,
}
use little_big_files.Common.Result.{Result, ok, err, ◌>>=◌}
use little_big_files.Coordinator.Repo.{
  ShardState, ShardInfo, Table, checked, next_id, new_shard, renew, register_shard,
  get_shard_by_uuid, active_shard, standby_shards,
}
use little_big_files.Coordinator.Repo.Sealed.{
  IsSealed, update-IsSealed, checked-ok, insert_last-IsSealed,
}
use little_big_files.Coordinator.Registry.{
  Registry, Method, remote_sealed, seal_answered, seal_shard_remote, fetch_stats, promote_first,
  ensure_active_shard, register, is_error, after_conflict, promoted, try_standby, ensure_from,
  ensure_when, total_or_zero, ensured,
}
use little_big_files.Coordinator.Registry.Keeps.{
  Keeps, SqlKeeps, ok-table, raise-Keeps, pure-Keeps, caught-Keeps, select-Keeps, bind-Keeps,
  mark_reachable-Keeps, mark_unreachable-Keeps, request-Keeps, promote_standby-Keeps, gets-Keeps,
  at_now-Keeps,
}

remote_sealed-Keeps : (shard : ShardInfo) → Keeps (remote_sealed shard)
unfolding remote_sealed
remote_sealed-Keeps shard = bind-Keeps _ _ (gets-Keeps (λ (reg : Registry). reg.now)) λ now.
    bind-Keeps _ _ (caught-Keeps fetch_stats (request-Keeps "stats")) λ stats.
      bind-Keeps _ _ (mark_reachable-Keeps shard.shard_id)
        λ _. pure-Keeps (total_or_zero stats, now)

seal_answered-Keeps : (shard : ShardInfo) (answer : Result ℕ) → Keeps (seal_answered shard answer)
unfolding seal_answered
seal_answered-Keeps shard (err e) =
    bind-Keeps _ _ (mark_unreachable-Keeps shard.shard_id e) λ _. raise-Keeps _ e
seal_answered-Keeps shard (ok _) = remote_sealed-Keeps shard

pub seal_shard_remote-Keeps : (shard : ShardInfo) → Keeps (seal_shard_remote shard)
unfolding seal_shard_remote
seal_shard_remote-Keeps shard =
    bind-Keeps _ _ (caught-Keeps _ (request-Keeps "seal")) (seal_answered-Keeps shard)

after_conflict-Keeps :
    (a : Option ShardInfo) (next : Method ShardInfo) → Keeps next → Keeps (after_conflict a next)
unfolding after_conflict
after_conflict-Keeps (some a) next k = pure-Keeps a
after_conflict-Keeps none next k = k

promoted-Keeps :
    (r : Result ShardInfo) (next : Method ShardInfo) → Keeps next → Keeps (promoted r next)
unfolding promoted
promoted-Keeps (ok updated) next k =
    bind-Keeps _ _ (mark_reachable-Keeps updated.shard_id) λ _. pure-Keeps updated
promoted-Keeps (err e) next k = elim (Bool-cases (is_error e "invalid shard state transition")) [
  | inl conflict ↦
      rw conflict (bind-Keeps _ _ (select-Keeps active_shard) λ a. after_conflict-Keeps a next k)
  | inr other ↦ rw other k
]

try_standby-Keeps :
    (s : ShardInfo) (r : Result ℕ) (next : Method ShardInfo)
    → Keeps next
    → Keeps (try_standby s r next)
unfolding try_standby
try_standby-Keeps s (err e) next k = bind-Keeps _ _ (mark_unreachable-Keeps s.shard_id e) λ _. k
try_standby-Keeps s (ok _) next k = bind-Keeps _ _ (mark_reachable-Keeps s.shard_id) λ _.
    bind-Keeps _ _ (caught-Keeps _ (promote_standby-Keeps s.shard_id none))
      λ updated. promoted-Keeps updated next k

promote_first-Keeps : (standbys : Table) → Keeps (promote_first standbys)
unfolding promote_first
promote_first-Keeps [] = raise-Keeps _ _
promote_first-Keeps (s ∷ rest) =
    bind-Keeps _ _ (caught-Keeps fetch_stats (request-Keeps "stats"))
      λ stats. try_standby-Keeps s stats (promote_first rest) (promote_first-Keeps rest)

ensure_from-Keeps : (standbys : Table) → Keeps (ensure_from standbys)
unfolding ensure_from
ensure_from-Keeps [] = raise-Keeps _ _
ensure_from-Keeps (s ∷ rest) = promote_first-Keeps (s ∷ rest)

ensure_when-Keeps : (a : Option ShardInfo) → Keeps (ensure_when a)
unfolding ensure_when
ensure_when-Keeps (some a) = pure-Keeps a
ensure_when-Keeps none = bind-Keeps _ _ (select-Keeps standby_shards) ensure_from-Keeps

-- EnsureActiveShard brings no sealed shard back, whatever its calls and requests come to and whatever
-- other goroutines do meanwhile.
pub ensure_active_shard-Keeps : Keeps ensure_active_shard
unfolding ensure_active_shard
ensure_active_shard-Keeps = bind-Keeps _ _ (select-Keeps active_shard) ensure_when-Keeps

-- The row that was inserted, and the table that passed the checks.
inserted-ok :
    (large : Bool) (t : Table) (b : ShardInfo × Bool) {a : ShardInfo × Bool} {u : Table}
    → ◌≡◌ {A = Result ((ShardInfo × Bool) × Table)}
        (if large then err "smallint out of range" else checked t >>= λ v. ok (b, v))
        (ok (a, u))
    → t ≡ u
inserted-ok true t b h = absurd (cc h)
inserted-ok false t b {a} {u} h = (checked-ok t u (go (checked t) h)).0
  where
    go :
        (r : Result Table)
        → ◌≡◌ {A = Result ((ShardInfo × Bool) × Table)} (r >>= λ v. ok (b, v)) (ok (a, u))
        → r ≡ ok u
    go (err m) k = absurd (cc k)
    go (ok v) k = cc k

register_shard-Keeps :
    (uuid : Bytes) (state : ShardState) (primary_url : Bytes) (replica_url : Option Bytes) (now : ℕ)
    → SqlKeeps (register_shard uuid state primary_url replica_url now)
unfolding register_shard
register_shard-Keeps uuid state primary_url replica_url now j t h a u =
    elim (Option-cases (get_shard_by_uuid uuid t)) [
      | inl new ↦
          rw (new, register_shard)
            λ e.
              subst (IsSealed j) (inserted-ok (ltb 32767 (next_id t)) _ _ e) (
                insert_last-IsSealed j (new_shard (next_id t) uuid primary_url replica_url now) t h)
      | inr (s, found) ↦
          rw (found, register_shard)
            λ e. subst (IsSealed j) (ok-table e) (
              update-IsSealed j s.shard_id (renew primary_url replica_url now) t (λ r. refl)
                (λ r same at is. is) h)
    ]

-- RegisterShard brings no sealed shard back: a row that is there keeps its state.
pub register-Keeps :
    (uuid : Bytes) (state : ShardState) (primary_url : Bytes) (replica_url : Option Bytes)
    → Keeps (register uuid state primary_url replica_url)
unfolding register
register-Keeps uuid state primary_url replica_url =
    bind-Keeps _ _ (at_now-Keeps _ (register_shard-Keeps uuid state primary_url replica_url)) λ row.
      bind-Keeps _ _ (mark_reachable-Keeps row.0.shard_id) λ _.
        bind-Keeps _ _ (caught-Keeps _ ensure_active_shard-Keeps) λ e. pure-Keeps (ensured row e)
