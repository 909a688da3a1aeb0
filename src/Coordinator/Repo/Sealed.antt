-- ===== src/Coordinator/Repo/Sealed.antt =====
-- internal/coordinator/repo.go: the statements bring no sealed shard back, but for SetShardState with
-- another state.
use little_big_files.Common.{
  ℕ, ◌<◌, ◌≡◌, refl, ◌∙◌, subst, true, not, Option, none, some, [], ◌∷◌, ltb, ltb→lt, ◌==◌, ==→eq,
  arith, inl, inr, Bool-cases, if-elim, if◌then◌else◌,
}
use little_big_files.Common.Result.{Result, ok, err, ◌>>=◌}
use little_big_files.Coordinator.Repo.{
  sealed, ShardInfo, Table, SealedShardTransition, update, active_count, checked, insert_last,
  is_standby, get_shard, other_active, seal, activate, seal_current, found, promote_target,
}
use little_big_files.Coordinator.Repo.Table.{KeepsId, get_shard-update}

-- The shard has a row, and is sealed.
abbrev pub IsSealed : ℕ → Table → Type 0
IsSealed j t = (s : ShardInfo) × (get_shard j t ≡ some s) × (s.state ≡ sealed)

-- An update that leaves a sealed row sealed, where it changes that one.
pub update-IsSealed :
    (j id : ℕ) (f : ShardInfo → ShardInfo) (t : Table)
    → KeepsId f
    → ((s : ShardInfo)
        → (j == id) ≡ true
        → get_shard j t ≡ some s
        → s.state ≡ sealed
        → (f s).state ≡ sealed)
    → IsSealed j t
    → IsSealed j (update id f t)
update-IsSealed j id f t i k (s, found, is) = (
  if j == id then f s else s,
  get_shard-update id j f t s i found,
  if-elim (λ (r : ShardInfo). r.state ≡ sealed) (j == id) (f s) s (λ e. k s e found is) (λ _. is),
)

pub checked-ok : (t u : Table) → checked t ≡ ok u → (t ≡ u) × (active_count t < 2)
unfolding checked
checked-ok t u h = elim (Bool-cases (ltb (active_count t) 2)) [
  | inl e ↦ (cc (h, e), ltb→lt _ _ e)
  | inr e ↦ cc (h, e)
]

bind-ok :
    {A B : Type 0} (r : Result A) (k : A → Result B) {b : B}
    → (r >>= k) ≡ ok b
    → (a : A) × (r ≡ ok a) × (k a ≡ ok b)
bind-ok (ok a) k h = (a, refl, h)
bind-ok (err e) k h = absurd (cc h)

seal_current-IsSealed :
    (j : ℕ) (transition : Option SealedShardTransition) (a : Option ShardInfo) (t u : Table)
    → seal_current transition a t ≡ ok u
    → IsSealed j t
    → IsSealed j u
unfolding seal_current
seal_current-IsSealed j none none t u e h = subst (IsSealed j) (cc e) h
seal_current-IsSealed j none (some a) t u e h = absurd (cc e)
seal_current-IsSealed j (some transition) none t u e h = absurd (cc e)
seal_current-IsSealed j (some transition) (some a) t u e h =
    elim (Bool-cases (not (a.shard_id == transition.shard_id))) [
      | inl other ↦ absurd (cc (e, other))
      | inr same ↦ subst (IsSealed j) (checked-ok _ u (cc (e, same))).0 (
          update-IsSealed j transition.shard_id (seal transition) t (λ s. refl)
            (λ s e found is. refl) h)
    ]

-- The shard that is promoted was not sealed.
pub promote_target-IsSealed :
    (j id : ℕ) (transition : Option SealedShardTransition) (target a : ShardInfo) (t u : Table)
    → get_shard id t ≡ some target
    → promote_target id transition target t ≡ ok (a, u)
    → IsSealed j t
    → IsSealed j u
unfolding promote_target found
promote_target-IsSealed j id transition target a t u at e h =
    elim (Bool-cases (is_standby target.state)) [
      | inr busy ↦ absurd (cc (e, busy))
      | inl waits ↦ promoted waits (cc (e, waits))
    ]
  where
    other : is_standby target.state ≡ true → (j == id) ≡ true → ⊥
    other waits same = let (s, row, is) = h in cc (waits, at, row, is, ==→eq j id same)

    last :
        (w : Table) (o : Option ShardInfo)
        → ◌≡◌ {A = Result (ShardInfo × Table)}
            (elim o [ none ↦ err "no row" | some s ↦ ok (s, w) ])
            (ok (a, u))
        → w ≡ u
    last w none r = absurd (cc r)
    last w (some s) r = cc r

    promoted :
        is_standby target.state ≡ true
        → (seal_current transition (other_active id t) t >>= λ v.
            checked (update id activate v) >>= λ w. found id w)
          ≡ ok (a, u)
        → IsSealed j u
    promoted waits p =
        let (v, sealing, q) = bind-ok (seal_current transition (other_active id t) t) _ p in
        let (w, activating, r) = bind-ok (checked (update id activate v)) _ q in
        subst (IsSealed j)
          ((checked-ok (update id activate v) w activating).0 ∙ last w (get_shard id w) r)
          (update-IsSealed j id activate v (λ s. refl)
            (λ s same found is. absurd (other waits same))
            (seal_current-IsSealed j transition (other_active id t) t v sealing h))

-- A row that is put at the end leaves those that are there.
pub insert_last-IsSealed :
    (j : ℕ) (s : ShardInfo) (t : Table) → IsSealed j t → IsSealed j (insert_last s t)
unfolding insert_last get_shard
insert_last-IsSealed j s t (r, found, is) = (r, kept t found, is)
  where
    kept : (t : Table) → get_shard j t ≡ some r → get_shard j (insert_last s t) ≡ some r
    kept [] e = absurd (cc e)
    kept (q ∷ t) e = ground (arith, e, kept t)
