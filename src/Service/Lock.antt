-- ===== src/Service/Lock.antt =====
-- The global lock of `ProofService`.
use sp1_helios.Prelude.{
  sym, ap, subst, fun_ext, ◌≡◌, Option, some, Bool, true, false, not, Result, ok, is_some, Text,
  arith, text_eq_refl,
}
use sp1_helios.Types.{ProofServiceError}
use sp1_helios.Redis.{Platform, Documented, Reachable}
use sp1_helios.Action.{Action, attempt, ◌>>=◌}
use sp1_helios.Action.Runs.{
  Values, Tasks, erase, Runs, Runs-bind, Runs-attempt, Runs-lift, Runs-result,
}
use sp1_helios.Store.{RedisStore, global_lock_key, acquire_global_lock}
use sp1_helios.Store.Runs.{locked, Runs-acquire_global_lock, Runs-release_global_lock}
use sp1_helios.Service.{with_global_lock}

module _ {p : Platform} (d : Documented p.redis) (a : Reachable p.redis) (r : RedisStore) where
  -- The function runs with whether the lock was free; its result is returned, and what it left is
  -- left with the lock's key deleted: also where the lock was another worker's.
  pub Runs-with_global_lock :
      {A : Type 0} (f : Bool → Action p A) (result : Result ProofServiceError A) (v v' : Values)
      (t t' : Tasks)
      → Runs
          (f (not (is_some (v (global_lock_key p r)))))
          (locked v (global_lock_key p r))
          t
          result
          v'
          t'
      → Runs (with_global_lock p r f) v t result (erase v' (global_lock_key p r)) t'
  unfolding with_global_lock
  Runs-with_global_lock f result v v' t t' h = Runs-bind _ _ (Runs-acquire_global_lock d a r v t) (
      Runs-bind _ _ (Runs-attempt h)
        (Runs-bind _ _ (Runs-release_global_lock d a r v' t') (Runs-lift result _ t')))

  -- On a documented server that answers every command mutual exclusion does not hold: a worker that finds the lock held by another runs its function
  -- without it, and then deletes the holder's lock, so the next worker acquires it.
  pub with_global_lock-steals :
      {A : Type 0} (f : Bool → Action p A) (result : Result ProofServiceError A) (holder : Text)
      (v v' : Values) (t t' : Tasks)
      → v (global_lock_key p r) ≡ some holder
      → Runs (f false) v t result v' t'
      → Runs
          (attempt (with_global_lock p r f) >>= λ _. acquire_global_lock p r)
          v
          t
          (ok true)
          (locked (erase v' (global_lock_key p r)) (global_lock_key p r))
          t'
  with_global_lock-steals f result holder v v' t t' held h =
      Runs-bind _ _
        (Runs-attempt (
          Runs-with_global_lock f result v v' t t' (
            subst (λ (b : Bool). Runs (f (not b)) (locked v (global_lock_key p r)) t result v' t')
              (ap (λ (o : Option Text). is_some o) (sym held))
              (subst (λ u. Runs (f false) u t result v' t') unchanged h))))
        (Runs-result (ap ok free) (Runs-acquire_global_lock d a r _ t'))
    where
      unchanged : v ≡ locked v (global_lock_key p r)
      unchanged = fun_ext λ j. ground (arith, held)

      free : not (is_some (erase v' (global_lock_key p r) (global_lock_key p r))) ≡ true
      free = ground (arith, text_eq_refl (global_lock_key p r))
