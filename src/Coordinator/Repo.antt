-- ===== src/Coordinator/Repo.antt =====
-- internal/coordinator/repo.go and models.go, over the table shard_registry of migrations/coordinator.
pub mod Table
pub mod Promote
pub mod Sealed
use little_big_files.Common.{
  ℕ, ◌+◌, Bool, true, false, not, ◌&&◌, Option, none, some, String, List, [], ◌∷◌, Bytes, ltb, ◌==◌,
  if◌then◌else◌, max,
}
use little_big_files.Common.Result.{Result, ok, err, ◌>>=◌}
use little_big_files.Common.Dict.{bytes_beq}

pub data ShardState : Type 0 where
  active sealed standby : ShardState

-- A row of shard_registry. Times are seconds; an error is known by the fixed part of its message.
pub record ShardInfo : Type 0 where
  pub shard_id : ℕ
  pub shard_uuid : Option Bytes
  pub state : ShardState
  pub primary_url : Bytes
  pub replica_url : Option Bytes
  pub total_bytes : ℕ
  pub sealed_at : Option ℕ
  pub last_seen_at : Option ℕ
  pub last_error : Option String
  pub created_at : ℕ

-- The rows, in the order of the primary key shard_id.
abbrev pub Table : Type 0
Table = List ShardInfo

-- A statement, or a transaction, which leaves the table as it was if it fails.
abbrev pub Sql : Type 0 → Type 0
Sql A = Table → Result (A × Table)

abbrev pub is_active : ShardState → Bool
is_active active = true
is_active sealed = false
is_active standby = false

abbrev pub is_standby : ShardState → Bool
is_standby active = false
is_standby sealed = false
is_standby standby = true

-- SELECT ... WHERE shard_id = $1
unfoldable pub get_shard : ℕ → Table → Option ShardInfo
get_shard id [] = none
get_shard id (s ∷ t) = if s.shard_id == id then some s else get_shard id t

-- SELECT ... WHERE shard_uuid = $1
is_uuid : Bytes → Option Bytes → Bool
is_uuid uuid none = false
is_uuid uuid (some u) = bytes_beq u uuid

unfoldable pub get_shard_by_uuid : Bytes → Table → Option ShardInfo
unfolding is_uuid
get_shard_by_uuid uuid [] = none
get_shard_by_uuid uuid (s ∷ t) =
    if is_uuid uuid s.shard_uuid then some s else get_shard_by_uuid uuid t

-- SELECT ... WHERE state = 'active' ORDER BY shard_id LIMIT 1
unfoldable pub active_shard : Table → Option ShardInfo
active_shard [] = none
active_shard (s ∷ t) = if is_active s.state then some s else active_shard t

-- SELECT ... WHERE state = 'active' AND shard_id <> $1 ORDER BY shard_id LIMIT 1
unfoldable pub other_active : ℕ → Table → Option ShardInfo
other_active id [] = none
other_active id (s ∷ t) =
    if is_active s.state && not (s.shard_id == id) then some s else other_active id t

-- StandbyShards
unfoldable pub standby_shards : Table → Table
standby_shards [] = []
standby_shards (s ∷ t) =
    let rest = standby_shards t in if is_standby s.state then s ∷ rest else rest

-- StandbyShard
unfoldable pub standby_shard : Table → Option ShardInfo
standby_shard t = elim (standby_shards t) [ [] ↦ none | first ∷ _ ↦ some first ]

-- UPDATE shard_registry SET ... WHERE shard_id = $1
unfoldable pub update : ℕ → (ShardInfo → ShardInfo) → Table → Table
update id f [] = []
update id f (s ∷ t) = (if s.shard_id == id then f s else s) ∷ update id f t

-- The unique index idx_shard_registry_single_active: at most one row is active.
unfoldable pub active_count : Table → ℕ
active_count [] = 0
active_count (s ∷ t) = (if is_active s.state then 1 else 0) + active_count t

unfoldable pub checked : Table → Result Table
checked t = if ltb (active_count t) 2 then ok t else err "unique violation"

-- SetShardState
unfoldable pub set_shard_state : ℕ → ShardState → ℕ → Option ℕ → Table → Result Table
set_shard_state id state total_bytes sealed_at t = checked (
    update id
      (λ (s : ShardInfo). record s {
        state = state;
        total_bytes = total_bytes;
        sealed_at = sealed_at;
      })
      t)

pub record SealedShardTransition : Type 0 where
  pub shard_id : ℕ
  pub total_bytes : ℕ
  pub sealed_at : ℕ

-- The UPDATE of PromoteStandby that seals, and the one that activates.
abbrev pub seal : SealedShardTransition → ShardInfo → ShardInfo
seal transition s = record s {
  state = sealed;
  total_bytes = transition.total_bytes;
  sealed_at = some transition.sealed_at;
  last_error = none;
}

abbrev pub activate : ShardInfo → ShardInfo
activate s = record s { state = active; sealed_at = none; last_error = none }

unfoldable pub seal_current : Option SealedShardTransition → Option ShardInfo → Table → Result Table
seal_current none none t = ok t
seal_current none (some _) t = err "invalid shard state transition"
seal_current (some transition) none t = err "invalid shard state transition"
seal_current (some transition) (some a) t =
    if not (a.shard_id == transition.shard_id)
    then err "invalid shard state transition"
    else checked (update transition.shard_id (seal transition) t)

-- The row that the transaction returns; the UPDATE has touched it, so it is there.
found : ℕ → Table → Result (ShardInfo × Table)
found id t = elim (get_shard id t) [ none ↦ err "no row" | some s ↦ ok (s, t) ]

unfoldable pub promote_target :
    ℕ → Option SealedShardTransition → ShardInfo → Table → Result (ShardInfo × Table)
unfolding found
promote_target id sealed_active target t =
    if not (is_standby target.state)
    then err "invalid shard state transition"
    else seal_current sealed_active (other_active id t) t >>= λ u.
        checked (update id activate u) >>= λ v. (found id v)

-- PromoteStandby
unfoldable pub promote_standby : ℕ → Option SealedShardTransition → Sql ShardInfo
promote_standby id sealed_active t = elim (get_shard id t) [
  | none ↦ err "shard not found"
  | some target ↦ promote_target id sealed_active target t
]

-- COALESCE(MAX(shard_id), -1) + 1
unfoldable pub next_id : Table → ℕ
next_id [] = 0
next_id (s ∷ t) = max (s.shard_id + 1) (next_id t)

-- INSERT of a row with a key that is greater than all: the order of the key puts it last.
unfoldable pub insert_last : ShardInfo → Table → Table
insert_last s [] = s ∷ []
insert_last s (r ∷ t) = r ∷ insert_last s t

-- The UPDATE of RegisterShard: WHERE shard_uuid = $1, which is unique.
abbrev pub renew : Bytes → Option Bytes → ℕ → ShardInfo → ShardInfo
renew primary_url replica_url now s = record s {
  primary_url = primary_url;
  replica_url = replica_url;
  last_seen_at = some now;
  last_error = none;
}

abbrev pub new_shard : ℕ → Bytes → Bytes → Option Bytes → ℕ → ShardInfo
new_shard id uuid primary_url replica_url now = record {
  shard_id = id;
  shard_uuid = some uuid;
  state = standby;
  primary_url = primary_url;
  replica_url = replica_url;
  total_bytes = 0;
  sealed_at = none;
  last_seen_at = some now;
  last_error = none;
  created_at = now;
}

-- RegisterShard: the row and whether it is new. The state asked for is not used.
unfoldable pub register_shard :
    Bytes → ShardState → Bytes → Option Bytes → ℕ → Sql (ShardInfo × Bool)
register_shard uuid state primary_url replica_url now t = elim (get_shard_by_uuid uuid t) [
  | some s ↦
      let s' = renew primary_url replica_url now s in
      ok ((s', false), update s.shard_id (renew primary_url replica_url now) t)
  | none ↦
      let s = new_shard (next_id t) uuid primary_url replica_url now in
      if ltb 32767 (next_id t)
      then err "smallint out of range"
      else checked (insert_last s t) >>= λ u. ok ((s, true), u)
]

-- MarkShardReachable
unfoldable pub mark_shard_reachable : ℕ → ℕ → Table → Table
mark_shard_reachable id now =
    update id (λ (s : ShardInfo). record s { last_seen_at = some now; last_error = none })

-- MarkShardUnreachable
unfoldable pub mark_shard_unreachable : ℕ → String → Table → Table
mark_shard_unreachable id message =
    update id (λ (s : ShardInfo). record s { last_error = some message })
