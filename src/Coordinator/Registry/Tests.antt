-- ===== src/Coordinator/Registry/Tests.antt =====
-- Runs of the registry on concrete inputs, and the theorems at them.
use little_big_files.Common.{◌≡◌, ◌⊎◌, Option, none, some, true, refl, List, [], ◌∷◌, Bytes, arith}
use little_big_files.Common.Result.{ok, err}
use little_big_files.Coordinator.Repo.{
  active, sealed, ShardInfo, Table, new_shard, active_count, get_shard, promote_standby, activate,
  SealedShardTransition,
}
use little_big_files.Coordinator.Repo.Table.{IsTable}
use little_big_files.Coordinator.Repo.Sealed.{IsSealed}
use little_big_files.Coordinator.Repo.Promote.{promote_standby_lem}
use little_big_files.Coordinator.Registry.{Registry, Answer}
use little_big_files.Coordinator.Registry.Invariant.{
  Operation, op_register, op_patch, op_ensure, op_rotate, run_all, run_all-IsSealed,
}

abbrev url : Bytes
url = b'h' ∷ []

abbrev first : ShardInfo
first = record (new_shard 0 url url none 7) { state = active }

abbrev second : ShardInfo
second = new_shard 1 (b'i' ∷ []) url none 8

abbrev pair : Table
pair = first ∷ second ∷ []

pair-IsTable : IsTable pair
unfolding active_count
pair-IsTable = ((omega arith, (omega arith, tt)), omega arith)

abbrev full : Answer
full = record { total = some 90; meanwhile = λ t. t }

abbrev registry : Registry
registry = record {
  shards = pair;
  shard_max_bytes = 80;
  now = 9;
  database = [];
  answers = full ∷ full ∷ full ∷ full ∷ [];
}

-- The first shard was sealed, and a request asks for it to be active again.
abbrev closed_pair : Table
closed_pair = record first { state = sealed; sealed_at = some 8 } ∷ second ∷ []

abbrev operations : List Operation
operations = op_patch 0 active true ∷ op_register url active url none ∷ op_ensure ∷ op_rotate ∷ []

first-IsSealed : IsSealed 0 closed_pair
unfolding get_shard
first-IsSealed = (record first { state = sealed; sealed_at = some 8 }, refl, refl)

run_all-IsSealed_example :
    IsSealed 0 (run_all operations (record registry { shards = closed_pair })).shards
run_all-IsSealed_example =
    run_all-IsSealed operations 0 (record registry { shards = closed_pair }) first-IsSealed
      ((λ j t h. h), ((λ j t h. h), ((λ j t h. h), ((λ j t h. h), tt))))

abbrev sealing : Option SealedShardTransition
sealing = some (record { shard_id = 0; total_bytes = 90; sealed_at = 9 })

promote_standby_lem_example :
    (promote_standby 1 sealing pair ≡ err "shard not found")
    ⊎ (promote_standby 1 sealing pair ≡ err "invalid shard state transition")
    ⊎ ((target : ShardInfo) × (u : Table) × (get_shard 1 pair ≡ some target)
        × (promote_standby 1 sealing pair ≡ ok (activate target, u))
        × IsTable u
        × (get_shard 1 u ≡ some (activate target)))
promote_standby_lem_example = promote_standby_lem 1 sealing pair pair-IsTable
