-- ===== src/Coordinator/Registry.antt =====
-- internal/coordinator/registry.go: sealing and activation of the shards, as calls of the database
-- and requests to the shards.
pub mod Rotation
pub mod Keeps
pub mod Activation
pub mod Invariant
mod Tests
use little_big_files.Common.{
  ℕ, suc, ◌+◌, Bool, true, false, not, ◌&&◌, Option, none, some, String, List, [], ◌∷◌, Bytes, ltb,
  leb, ◌==◌, if◌then◌else◌, length,
}
use little_big_files.Common.Result.{Result, ok, err}
use little_big_files.Common.Exec.{Exec, pure, raise, gets, modify, ◌>>=◌, ◌>>◌}
use little_big_files.Coordinator.Repo.{
  ShardState, active, sealed, standby, ShardInfo, Table, Sql, SealedShardTransition, is_active,
  is_standby, get_shard, active_shard, standby_shards, standby_shard, set_shard_state,
  promote_standby, register_shard, mark_shard_reachable, mark_shard_unreachable,
}
use Prim.Native.Nat.{Ordering}
use Prim.Native.String as Text

-- The answer to a request to a shard: a total of bytes, or a failure. While a request runs
-- rotationMu is free, so other goroutines may leave another table behind meanwhile.
pub record Answer : Type 0 where
  pub total : Option ℕ
  pub meanwhile : Table → Table

-- The registry with what its next database calls and its next requests to shards will come to. When
-- the first list ends, calls succeed; when the second one ends, requests fail.
pub record Registry : Type 0 where
  pub shards : Table
  pub shard_max_bytes : ℕ
  pub now : ℕ
  pub database : List Bool
  pub answers : List Answer

abbrev pub Method : Type 0 → Type 0
Method = Exec Registry

-- A call of the repository.
pub settle : {A : Type 0} → Result (A × Table) → Method A
settle (err e) reg = (err e, reg)
settle (ok (a, t)) reg = (ok a, record reg { shards = t })

pub call : {A : Type 0} → List Bool → Sql A → Method A
call [] f reg = settle (f reg.shards) reg
call (true ∷ rest) f reg = settle (f reg.shards) (record reg { database = rest })
call (false ∷ rest) f reg = (err "database", record reg { database = rest })

unfoldable pub sql : {A : Type 0} → Sql A → Method A
sql f reg = call reg.database f reg

-- A call that takes the time, which is NOW() of the database.
pub at_now : {A : Type 0} → (ℕ → Sql A) → Method A
at_now f reg = sql (f reg.now) reg

abbrev pub select : {A : Type 0} → (Table → A) → Sql A
select f t = ok (f t, t)

abbrev pub execute : (Table → Table) → Sql Unit
execute f t = ok (tt, f t)

-- UPDATE, checked by the unique index.
abbrev pub executes : (Table → Result Table) → Sql Unit
executes f t = elim (f t) [ err e ↦ err e | ok u ↦ ok (tt, u) ]

-- The result as a value, for a caller that handles the error.
abbrev pub caught : {A : Type 0} → Method A → Method (Result A)
caught m reg = let (r, t) = m reg in (ok r, t)

-- `_ = ...`
abbrev pub ignored : {A : Type 0} → Method A → Method Unit
ignored m reg = (ok tt, (m reg).1)

abbrev pub mark_reachable : ℕ → Method Unit
mark_reachable id = ignored (λ reg. sql (execute (mark_shard_reachable id reg.now)) reg)

abbrev pub mark_unreachable : ℕ → String → Method Unit
mark_unreachable id e = ignored (sql (execute (mark_shard_unreachable id e)))

-- An HTTP request to a shard.
pub answered : String → Option ℕ → Method ℕ
answered e none = raise e
answered e (some total) = pure total

pub request_from : List Answer → String → Method ℕ
unfolding answered
request_from [] e reg = (err e, reg)
request_from (answer ∷ rest) e reg =
    answered e answer.total (record reg { shards = answer.meanwhile reg.shards; answers = rest })

unfoldable pub request : String → Method ℕ
request e reg = request_from reg.answers e reg

-- FetchStats
abbrev pub fetch_stats : Method ℕ
fetch_stats = request "stats"

-- The total of the last statistics, 0 when they do not come.
total_or_zero : Result ℕ → ℕ
total_or_zero (ok total) = total
total_or_zero (err _) = 0

-- What sealShardRemote does once the shard has answered that it is sealed.
pub remote_sealed : ShardInfo → Method (ℕ × ℕ)
unfolding total_or_zero
remote_sealed shard = do
  now ← gets (λ (reg : Registry). reg.now)
  stats ← caught fetch_stats
  mark_reachable shard.shard_id
  pure (total_or_zero stats, now)

pub seal_answered : ShardInfo → Result ℕ → Method (ℕ × ℕ)
seal_answered shard (err e) = do mark_unreachable shard.shard_id e; raise e
seal_answered shard (ok _) = remote_sealed shard

-- sealShardRemote: the total of bytes and the time of sealing.
pub seal_shard_remote : ShardInfo → Method (ℕ × ℕ)
seal_shard_remote shard = do answer ← caught (request "seal"); seal_answered shard answer

-- SealShard
pub seal_shard : ShardInfo → Method Unit
seal_shard shard = do
  (total, sealed_at) ← seal_shard_remote shard
  sql (executes (set_shard_state shard.shard_id sealed total (some sealed_at)))

-- errors.Is
is_eq : Ordering → Bool
is_eq Ordering.lt = false
is_eq Ordering.eq = true
is_eq Ordering.gt = false

pub is_error : String → String → Bool
is_error e target = is_eq (Text.compare e target)

-- EnsureActiveShard, from its loop over the standby shards on: a shard that does not answer is
-- marked and passed over, the first one that does is promoted. A promotion that is refused since
-- another shard became active returns that one.
after_conflict : Option ShardInfo → Method ShardInfo → Method ShardInfo
after_conflict (some a) next = pure a
after_conflict none next = next

promoted : Result ShardInfo → Method ShardInfo → Method ShardInfo
unfolding after_conflict
promoted (ok updated) next = do mark_reachable updated.shard_id; pure updated
promoted (err e) next =
    if is_error e "invalid shard state transition"
    then (do a ← sql (select active_shard); after_conflict a next)
    else next

try_standby : ShardInfo → Result ℕ → Method ShardInfo → Method ShardInfo
unfolding promoted
try_standby s (err e) next = do mark_unreachable s.shard_id e; next
try_standby s (ok _) next = do
  mark_reachable s.shard_id
  updated ← caught (sql (promote_standby s.shard_id none))
  promoted updated next

pub promote_first : Table → Method ShardInfo
unfolding try_standby
promote_first [] = raise "no reachable standby shard available"
promote_first (s ∷ rest) = do stats ← caught fetch_stats; try_standby s stats (promote_first rest)

ensure_from : Table → Method ShardInfo
ensure_from [] = raise "no standby shard available"
ensure_from (s ∷ rest) = promote_first (s ∷ rest)

ensure_when : Option ShardInfo → Method ShardInfo
unfolding ensure_from
ensure_when (some a) = pure a
ensure_when none = do standbys ← sql (select standby_shards); ensure_from standbys

-- EnsureActiveShard
pub ensure_active_shard : Method ShardInfo
unfolding ensure_when
ensure_active_shard = do a ← sql (select active_shard); ensure_when a

-- RegisterShard: the row of the shard, and whether it is new.
ensured : ShardInfo × Bool → Result ShardInfo → ShardInfo × Bool
ensured (s, created) (err _) = (s, created)
ensured (s, created) (ok e) = ((if e.shard_id == s.shard_id then e else s), created)

pub register : Bytes → ShardState → Bytes → Option Bytes → Method (ShardInfo × Bool)
unfolding ensured
register uuid state primary_url replica_url = do
  row ← at_now (register_shard uuid state primary_url replica_url)
  mark_reachable row.0.shard_id
  e ← caught ensure_active_shard
  pure (ensured row e)

-- ReadURL
unfoldable pub read_url : ShardInfo → Bytes
read_url s = elim s.state [
  | sealed ↦ elim s.replica_url [
    | none ↦ s.primary_url
    | some url ↦ if ltb 0 (length url) then url else s.primary_url
  ]
  | active ↦ s.primary_url
  | standby ↦ s.primary_url
]
