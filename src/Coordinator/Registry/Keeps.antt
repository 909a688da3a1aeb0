-- ===== src/Coordinator/Registry/Keeps.antt =====
-- The calls and combinators of the registry's methods bring no sealed shard back.
use little_big_files.Common.{
  ℕ, ◌≡◌, refl, subst, Bool, true, false, Option, none, some, String, List, [], ◌∷◌, All, inl, inr,
  Option-cases,
}
use little_big_files.Common.Result.{Result, ok, err}
use little_big_files.Common.Exec.{Exec, pure, raise, gets, continue, ◌>>=◌}
use little_big_files.Coordinator.Repo.{
  Table, Sql, SealedShardTransition, set_shard_state, promote_standby, mark_shard_reachable,
  mark_shard_unreachable, sealed, get_shard,
}
use little_big_files.Coordinator.Repo.Sealed.{
  IsSealed, update-IsSealed, checked-ok, promote_target-IsSealed,
}
use little_big_files.Coordinator.Registry.{
  Registry, Answer, Method, settle, call, at_now, answered, request_from, sql, select, execute,
  executes, caught, ignored, request, mark_reachable, mark_unreachable,
}

-- The other goroutines do not bring a sealed shard back.
abbrev pub Respects : Answer → Type 0
Respects answer = (j : ℕ) (t : Table) → IsSealed j t → IsSealed j (answer.meanwhile t)

abbrev pub IsSound : ℕ → Registry → Type 0
IsSound j reg = IsSealed j reg.shards × All Respects reg.answers

pub record Keeps {A : Type 0} (m : Exec Registry A) : Type 0 where
  pub keeps : (j : ℕ) (reg : Registry) → IsSound j reg → IsSound j (m reg).1

abbrev pub ResultKeeps : {A : Type 0} → ℕ → Result (A × Table) → Type 0
ResultKeeps {A} j r = (a : A) (u : Table) → r ≡ ok (a, u) → IsSealed j u

abbrev pub SqlKeeps : {A : Type 0} → Sql A → Type 0
SqlKeeps f = (j : ℕ) (t : Table) → IsSealed j t → ResultKeeps j (f t)

pub raise-Keeps : (A : Type 0) (e : String) → Keeps (raise {S = Registry} {A = A} e)
raise-Keeps A e = record { keeps = λ j reg s. s }

module _ {A : Type 0} where
  pub ok-table :
      {a b : A} {t u : Table} → ◌≡◌ {A = Result (A × Table)} (ok (a, t)) (ok (b, u)) → t ≡ u
  ok-table h = cc

  settle-IsSound :
      (j : ℕ) (r : Result (A × Table)) (reg : Registry)
      → ResultKeeps j r
      → IsSound j reg
      → IsSound j (settle r reg).1
  unfolding settle
  settle-IsSound j (err e) reg k s = s
  settle-IsSound j (ok (a, u)) reg k s = (k a u refl, s.1)

  call-IsSound :
      (ds : List Bool) (f : Sql A)
      → SqlKeeps f
      → (j : ℕ) (reg : Registry) → IsSound j reg
      → IsSound j (call ds f reg).1
  unfolding call
  call-IsSound [] f k j reg s = settle-IsSound j (f reg.shards) reg (k j reg.shards s.0) s
  call-IsSound (true ∷ rest) f k j reg s =
      settle-IsSound j (f reg.shards) (record reg { database = rest }) (k j reg.shards s.0) s
  call-IsSound (false ∷ rest) f k j reg s = s

  pub sql-Keeps : (f : Sql A) → SqlKeeps f → Keeps (sql f)
  unfolding sql
  sql-Keeps f k = record { keeps = λ j reg. call-IsSound reg.database f k j reg }

  pub at_now-Keeps : (f : ℕ → Sql A) → ((n : ℕ) → SqlKeeps (f n)) → Keeps (at_now f)
  unfolding at_now
  at_now-Keeps f k = record { keeps = λ j reg. (sql-Keeps (f reg.now) (k reg.now)).keeps j reg }

  pub pure-Keeps : (a : A) → Keeps (pure a)
  pure-Keeps a = record { keeps = λ j reg s. s }

  pub caught-Keeps : (m : Method A) → Keeps m → Keeps (caught m)
  caught-Keeps m k = record { keeps = k.keeps }

  pub ignored-Keeps : (m : Method A) → Keeps m → Keeps (ignored m)
  ignored-Keeps m k = record { keeps = k.keeps }

  pub select-Keeps : (f : Table → A) → Keeps (sql (select f))
  select-Keeps f = sql-Keeps (select f) (λ j t h a u e. subst (IsSealed j) (ok-table e) h)

module _ {A B : Type 0} where
  pub bind-Keeps :
      (m : Method A) (f : A → Method B) → Keeps m → ((a : A) → Keeps (f a)) → Keeps (m >>= f)
  bind-Keeps m f k l = record { keeps = λ j reg s. go j (m reg).0 (m reg).1 (k.keeps j reg s) }
    where
      go : (j : ℕ) (r : Result A) (t : Registry) → IsSound j t → IsSound j (continue r f t).1
      go j (ok a) t s' = (l a).keeps j t s'
      go j (err e) t s' = s'

pub execute-Keeps :
    (f : Table → Table)
    → ((j : ℕ) (t : Table) → IsSealed j t → IsSealed j (f t))
    → Keeps (sql (execute f))
execute-Keeps f k = sql-Keeps (execute f) (λ j t h a u e. subst (IsSealed j) (ok-table e) (k j t h))

pub mark_reachable-Keeps : (id : ℕ) → Keeps (mark_reachable id)
unfolding mark_shard_reachable
mark_reachable-Keeps id = record {
  keeps = λ j reg.
      (execute-Keeps (mark_shard_reachable id reg.now)
          (λ j t. update-IsSealed j id _ t (λ s. refl) (λ s e found is. is))).keeps
        j reg;
}

pub mark_unreachable-Keeps : (id : ℕ) (e : String) → Keeps (mark_unreachable id e)
unfolding mark_shard_unreachable
mark_unreachable-Keeps id e = ignored-Keeps _ (
    execute-Keeps (mark_shard_unreachable id e)
      (λ j t. update-IsSealed j id _ t (λ s. refl) (λ s e found is. is)))

answered-Keeps : (e : String) (total : Option ℕ) → Keeps (answered e total)
unfolding answered
answered-Keeps e none = raise-Keeps ℕ e
answered-Keeps e (some total) = pure-Keeps total

request_from-IsSound :
    (next : List Answer) (e : String) (j : ℕ) (reg : Registry)
    → IsSealed j reg.shards
    → All Respects next
    → IsSound j reg
    → IsSound j (request_from next e reg).1
unfolding request_from
request_from-IsSound [] e j reg h k s = s
request_from-IsSound (answer ∷ rest) e j reg h (k, ks) s =
    (answered-Keeps e answer.total).keeps j
      (record reg { shards = answer.meanwhile reg.shards; answers = rest }) (k j reg.shards h, ks)

pub request-Keeps : (e : String) → Keeps (request e)
unfolding request
request-Keeps e = record { keeps = λ j reg s. request_from-IsSound reg.answers e j reg s.0 s.1 s }

executes-ok :
    {a : Unit {0}} {u : Table} (r : Result Table)
    → ◌≡◌ {A = Result (Unit {0} × Table)} (elim r [ err e ↦ err e | ok v ↦ ok (tt, v) ]) (ok (a, u))
    → r ≡ ok u
executes-ok (ok v) h = cc
executes-ok (err e) h = cc

-- A shard is sealed, whichever it is.
pub set_sealed-Keeps :
    (id total : ℕ) (at : Option ℕ) → Keeps (sql (executes (set_shard_state id sealed total at)))
unfolding set_shard_state
set_sealed-Keeps id total at =
    sql-Keeps (executes (set_shard_state id sealed total at)) λ j t h a u e.
      let (same, _) = checked-ok _ u (executes-ok (set_shard_state id sealed total at t) e) in
      subst (IsSealed j) same (update-IsSealed j id _ t (λ s. refl) (λ s e found is. refl) h)

pub promote_standby-Keeps :
    (id : ℕ) (transition : Option SealedShardTransition)
    → Keeps (sql (promote_standby id transition))
unfolding promote_standby
promote_standby-Keeps id transition = sql-Keeps (promote_standby id transition) λ j t h a u e.
    elim (Option-cases (get_shard id t)) [
      | inl missing ↦ absurd (cc (e, missing))
      | inr (target, at) ↦ promote_target-IsSealed j id transition target a t u at (cc (e, at)) h
    ]

pub gets-Keeps : {A : Type 0} (f : Registry → A) → Keeps (gets f)
gets-Keeps f = record { keeps = λ j reg s. s }
