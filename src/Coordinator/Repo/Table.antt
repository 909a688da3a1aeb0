-- ===== src/Coordinator/Repo/Table.antt =====
-- The registry as a table: rows ordered by their key, one of them active at most.
use little_big_files.Common.{
  ℕ, suc, ◌+◌, ◌<◌, ◌≤◌, ◌≡◌, ◌≢◌, refl, true, none, some, [], ◌∷◌, ◌==◌, ==→eq, if◌then◌else◌,
  arith, inl, inr, Bool-cases,
}
use little_big_files.Coordinator.Repo.{
  ShardState, ShardInfo, Table, is_active, get_shard, other_active, update, active_count,
}

-- The keys ascend, from `lo` on.
abbrev pub Ascends : ℕ → Table → Type 0
Ascends lo [] = Unit {0}
Ascends lo (s ∷ t) = (lo ≤ s.shard_id) × Ascends (suc s.shard_id) t

-- What the primary key and the unique index promise of the table.
abbrev pub IsTable : Table → Type 0
IsTable t = Ascends 0 t × (active_count t < 2)

abbrev pub weight : ShardState → ℕ
weight s = if is_active s then 1 else 0

-- An update that leaves the key alone.
abbrev pub KeepsId : (ShardInfo → ShardInfo) → Type 0
KeepsId f = (s : ShardInfo) → (f s).shard_id ≡ s.shard_id

get_shard-above : (id lo : ℕ) (t : Table) → id < lo → Ascends lo t → get_shard id t ≡ none
unfolding get_shard
get_shard-above id lo [] h a = refl
get_shard-above id lo (s ∷ t) h a =
    ground (arith, get_shard-above id (suc s.shard_id) t (omega arith) a.1)

pub update-absent :
    (id : ℕ) (f : ShardInfo → ShardInfo) (t : Table) → get_shard id t ≡ none → update id f t ≡ t
unfolding get_shard update
update-absent id f [] h = refl
update-absent id f (s ∷ t) h = ground (arith, update-absent id f t)

pub update-Ascends :
    (id lo : ℕ) (f : ShardInfo → ShardInfo) (t : Table)
    → KeepsId f
    → Ascends lo t
    → Ascends lo (update id f t)
unfolding update
update-Ascends id lo f [] k a = tt
update-Ascends id lo f (s ∷ t) k a = elim (Bool-cases (s.shard_id == id)) [
  | inl e ↦ rw (e, k s) (a.0, update-Ascends id (suc s.shard_id) f t k a.1)
  | inr e ↦ rw e (a.0, update-Ascends id (suc s.shard_id) f t k a.1)
]

pub get_shard-update :
    (id j : ℕ) (f : ShardInfo → ShardInfo) (t : Table) (s : ShardInfo)
    → KeepsId f
    → get_shard j t ≡ some s
    → get_shard j (update id f t) ≡ some (if j == id then f s else s)
unfolding get_shard update
get_shard-update id j f [] s k h = cc
get_shard-update id j f (r ∷ t) s k h = ground (arith, k r, get_shard-update id j f t s k)

pub get_shard-id : (id : ℕ) (t : Table) (s : ShardInfo) → get_shard id t ≡ some s → s.shard_id ≡ id
unfolding get_shard
get_shard-id id [] s h = cc
get_shard-id id (r ∷ t) s h = ground (arith, get_shard-id id t s)

-- An update counts as its one row does.
pub active_count-update :
    (id lo : ℕ) (f : ShardInfo → ShardInfo) (t : Table) (s : ShardInfo)
    → Ascends lo t
    → get_shard id t ≡ some s
    → active_count (update id f t) + weight s.state ≡ active_count t + weight (f s).state
unfolding get_shard update active_count
active_count-update id lo f [] s a h = cc
active_count-update id lo f (r ∷ t) s a h = elim (Bool-cases (r.shard_id == id)) [
  | inl e ↦ ground (
    arith,
    update-absent id f t (get_shard-above id (suc r.shard_id) t (omega (arith, ==→eq _ _ e)) a.1),
  )
  | inr e ↦ ground (arith, active_count-update id (suc r.shard_id) f t s a.1)
]

-- The active row that is found is in the table.
pub other_active-get_shard :
    (id lo : ℕ) (t : Table) (s : ShardInfo)
    → Ascends lo t
    → other_active id t ≡ some s
    → (get_shard s.shard_id t ≡ some s)
      × (is_active s.state ≡ true)
      × (s.shard_id ≢ id)
      × (lo ≤ s.shard_id)
unfolding other_active get_shard
other_active-get_shard id lo [] s a h = cc
other_active-get_shard id lo (r ∷ t) s a h =
    ground (arith, other_active-get_shard id (suc r.shard_id) t s a.1)

other_active-absent :
    (id : ℕ) (t : Table) → get_shard id t ≡ none → other_active id t ≡ none → active_count t ≡ 0
unfolding other_active get_shard active_count
other_active-absent id [] h k = refl
other_active-absent id (r ∷ t) h k = ground (arith, other_active-absent id t)

-- No other row is active: the count is that of the row itself.
pub other_active-none :
    (id lo : ℕ) (t : Table) (s : ShardInfo)
    → Ascends lo t
    → get_shard id t ≡ some s
    → other_active id t ≡ none
    → active_count t ≡ weight s.state
unfolding other_active get_shard active_count
other_active-none id lo [] s a h k = cc
other_active-none id lo (r ∷ t) s a h k = elim (Bool-cases (r.shard_id == id)) [
  | inl e ↦ ground (
    arith,
    other_active-absent id t
        (get_shard-above id (suc r.shard_id) t (omega (arith, ==→eq _ _ e)) a.1),
  )
  | inr e ↦ ground (arith, other_active-none id (suc r.shard_id) t s a.1)
]
