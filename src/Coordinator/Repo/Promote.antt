-- ===== src/Coordinator/Repo/Promote.antt =====
-- internal/coordinator/repo.go: PromoteStandby keeps one shard active, and the unique index never stops it.
use little_big_files.Common.{
  ℕ, ◌<◌, ◌≡◌, ◌⊎◌, refl, ap, ◌∙◌, subst, true, false, Option, none, some, lt→ltb, ◌==◌, ==→eq,
  arith, inl, inr, Bool-cases, Option-cases,
}
use little_big_files.Common.Result.{Result, ok, err, ◌>>=◌}
use little_big_files.Coordinator.Repo.{
  ShardInfo, Table, SealedShardTransition, is_standby, get_shard, other_active, update,
  active_count, checked, seal, activate, seal_current, promote_target, promote_standby, found,
}
use little_big_files.Coordinator.Repo.Table.{
  Ascends, IsTable, weight, update-Ascends, get_shard-update, active_count-update,
  other_active-get_shard, other_active-none,
}

checked-ok : (t : Table) → active_count t < 2 → checked t ≡ ok t
unfolding checked
checked-ok t h = rw (lt→ltb _ _ h) refl

found-ok : (id : ℕ) (t : Table) {s : ShardInfo} → get_shard id t ≡ some s → found id t ≡ ok (s, t)
unfolding found
found-ok id t h = rw (h, found) refl

-- No row is active, and the target is the row it was.
abbrev pub Vacant : ℕ → ShardInfo → Table → Type 0
Vacant id target u = Ascends 0 u × (active_count u ≡ 0) × (get_shard id u ≡ some target)

module _ (id : ℕ) (target : ShardInfo) (t : Table) (table : IsTable t)
    (h : get_shard id t ≡ some target) (waits : is_standby target.state ≡ true) where
  not_active : weight target.state ≡ 0
  not_active = ground arith

  sealed_Vacant :
      (transition : SealedShardTransition) (b : ShardInfo)
      → other_active id t ≡ some b
      → (b.shard_id == transition.shard_id) ≡ true
      → Vacant id target (update transition.shard_id (seal transition) t)
  sealed_Vacant transition b o e =
      let (at_b, is_b, differs, _) = other_active-get_shard id 0 t b table.0 o in
      let same = ==→eq b.shard_id transition.shard_id e in
      let at_tr = subst (λ k. get_shard k t ≡ some b) same at_b in
      (
        update-Ascends transition.shard_id 0 (seal transition) t (λ s. refl) table.0,
        ground
            (arith, active_count-update transition.shard_id 0 (seal transition) t b table.0 at_tr),
        ground (
          arith,
          get_shard-update transition.shard_id id (seal transition) t target (λ s. refl) h,
        ),
      )

  -- Sealing the one active shard, or finding none, leaves none active.
  Sealing : Result Table → Type 0
  Sealing r =
      (r ≡ err "invalid shard state transition") ⊎ ((u : Table) × (r ≡ ok u) × Vacant id target u)

  seal_current-cases :
      (transition : Option SealedShardTransition) (o : Option ShardInfo)
      → other_active id t ≡ o
      → Sealing (seal_current transition o t)
  unfolding Sealing seal_current
  seal_current-cases none none e =
      inr (t, refl, (table.0, ground (arith, other_active-none id 0 t target table.0 h e), h))
  seal_current-cases none (some b) e = inl refl
  seal_current-cases (some transition) none e = inl refl
  seal_current-cases (some transition) (some b) e =
      elim (Bool-cases (b.shard_id == transition.shard_id)) [
        | inl same ↦
            let v = sealed_Vacant transition b e same in
            inr (
              update transition.shard_id (seal transition) t,
              rw same (checked-ok _ (omega (arith, v.1))),
              v,
            )
        | inr differs ↦ inl (rw differs refl)
      ]

  activate-IsTable :
      (u : Table)
      → Vacant id target u
      → IsTable (update id activate u)
        × (get_shard id (update id activate u) ≡ some (activate target))
  activate-IsTable u (a, c, g) = (
    (
      update-Ascends id 0 activate u (λ s. refl) a,
      ground (arith, active_count-update id 0 activate u target a g),
    ),
    ground (arith, get_shard-update id id activate u target (λ s. refl) g),
  )

  -- The rest of the transaction.
  rest-ok :
      (u : Table)
      → Vacant id target u
      → (checked (update id activate u) >>= λ v. found id v)
        ≡ ok (activate target, update id activate u)
  rest-ok u vacant =
      let (valid, at) = activate-IsTable u vacant in
      ap (λ r. r >>= λ v. found id v) (checked-ok _ valid.1) ∙ found-ok id _ at

  pub promote_target-cases :
      (transition : Option SealedShardTransition)
      → (promote_target id transition target t ≡ err "invalid shard state transition")
        ⊎ ((u : Table) × (promote_target id transition target t ≡ ok (activate target, u))
            × IsTable u
            × (get_shard id u ≡ some (activate target)))
  unfolding promote_target Sealing
  promote_target-cases transition = elim (seal_current-cases transition (other_active id t) refl) [
    | inl e ↦ inl (rw (waits, e) refl)
    | inr (u, e, vacant) ↦
        let (valid, at) = activate-IsTable u vacant in
        inr (update id activate u, rw (waits, e) (rest-ok u vacant), valid, at)
  ]

promote_target-busy :
    (id : ℕ) (transition : Option SealedShardTransition) (target : ShardInfo) (t : Table)
    → is_standby target.state ≡ false
    → promote_target id transition target t ≡ err "invalid shard state transition"
unfolding promote_target
promote_target-busy id transition target t h = rw h refl

-- On a registry with one active shard at most, PromoteStandby never fails by the unique index: it
-- refuses, or else it returns the target as the active shard, and one shard at most is active.
pub promote_standby_lem :
    (id : ℕ) (transition : Option SealedShardTransition) (t : Table)
    → IsTable t
    → (promote_standby id transition t ≡ err "shard not found")
      ⊎ (promote_standby id transition t ≡ err "invalid shard state transition")
      ⊎ ((target : ShardInfo) × (u : Table) × (get_shard id t ≡ some target)
          × (promote_standby id transition t ≡ ok (activate target, u))
          × IsTable u
          × (get_shard id u ≡ some (activate target)))
unfolding promote_standby
promote_standby_lem id transition t table = elim (Option-cases (get_shard id t)) [
  | inl missing ↦ inl (rw (missing, promote_standby) refl)
  | inr (target, h) ↦ elim (Bool-cases (is_standby target.state)) [
    | inr busy ↦
        inr (inl (rw (h, promote_standby) (promote_target-busy id transition target t busy)))
    | inl waits ↦ elim (promote_target-cases id target t table h waits transition) [
      | inl e ↦ inr (inl (rw (h, promote_standby) e))
      | inr (u, e, valid, at) ↦ inr (inr (target, u, h, rw (h, promote_standby) e, valid, at))
    ]
  ]
]
