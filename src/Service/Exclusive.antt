-- ===== src/Service/Exclusive.antt =====
-- The proof generation locks and the tasks of `ProofService` that run: each task holds its lock.
use sp1_helios.Prelude.{
  ◌≡◌, ap, [], ◌∷◌, ◌++◌, true, false, is_some, Text, text_eq, text_eq_refl, eq_of_text_eq, arith,
  All, All-map, All-append, All-remove, All-both, Pairwise, Pairwise-snoc, Pairwise-remove,
  Bool-cases, inl, inr, if◌then◌else◌,
}
use sp1_helios.Types.{ProofRequest, ProofId}
use sp1_helios.Redis.{Platform}
use sp1_helios.Action.Runs.{Values, Tasks, erase}
use sp1_helios.Store.{RedisStore}
use sp1_helios.Store.Runs.{locked}
use sp1_helios.Store.Keeps.{text_eq_swap}
use sp1_helios.Service.Orphans.{task_lock, Apart}

module _ (p : Platform) (r : RedisStore) where
  abbrev pub Held : Values → ProofRequest × ProofId → Type 0
  Held v task = is_some (v (task_lock p r task)) ≡ true

  -- Every task that runs holds its lock, and no two run for one lock.
  pub record Exclusive (v : Values) (t : Tasks) : Type 0 where
    pub held : All (Held v) t
    pub apart : Pairwise (Apart p r) t

  Held-locked :
      (v : Values) (k : Text) (task : ProofRequest × ProofId) → Held v task → Held (locked v k) task
  Held-locked v k task h = ground arith

  -- A free lock is no task's.
  pub Apart-free :
      (v : Values) (task new : ProofRequest × ProofId)
      → is_some (v (task_lock p r new)) ≡ false
      → Held v task
      → Apart p r task new
  Apart-free v task new free h =
      elim (Bool-cases (text_eq (task_lock p r task) (task_lock p r new))) [
        | inr other ↦ other
        | inl same ↦ absurd (ground (arith, ap v (eq_of_text_eq _ _ same)))
      ]

  pub Exclusive-locked :
      (v : Values) (t : Tasks) (new : ProofRequest × ProofId)
      → Exclusive v t
      → Exclusive
          (locked v (task_lock p r new))
          (if is_some (v (task_lock p r new)) then t else t ++ new ∷ [])
  Exclusive-locked v t new x =
      let old : All (Held (locked v (task_lock p r new))) t =
        All-map (Held v) _ (Held-locked v (task_lock p r new)) t x.held in
      elim (Bool-cases (is_some (v (task_lock p r new)))) [
        | inl taken ↦ record { held = rw taken old; apart = rw taken x.apart }
        | inr free ↦ record {
          held = rw free (
              All-append (Held (locked v (task_lock p r new))) t (new ∷ []) old
                (ground (arith, text_eq_refl (task_lock p r new)), tt));
          apart = rw free (
              Pairwise-snoc (Apart p r) t new x.apart
                (All-map _ _ (λ task. Apart-free v task new free) t x.held));
        }
      ]

  pub Exclusive-erase :
      (v : Values) (before : Tasks) (task : ProofRequest × ProofId) (after : Tasks)
      → Exclusive v (before ++ task ∷ after)
      → Exclusive (erase v (task_lock p r task)) (before ++ after)
  Exclusive-erase v before task after x =
      let (rest, others) =
        Pairwise-remove (Apart p r) before task after (λ s t. text_eq_swap _ _) x.apart in
      record {
        held =
            All-both (Held (erase v (task_lock p r task))) (before ++ after)
              (λ t apart h. ground (arith, apart, h)) others
              (All-remove (Held v) before task after x.held).1;
        apart = rest;
      }

  pub Exclusive-remove :
      (v : Values) (before : Tasks) (task : ProofRequest × ProofId) (after : Tasks)
      → Exclusive v (before ++ task ∷ after)
      → Exclusive v (before ++ after)
  Exclusive-remove v before task after x = record {
    held = (All-remove (Held v) before task after x.held).1;
    apart = (Pairwise-remove (Apart p r) before task after (λ s t. text_eq_swap _ _) x.apart).0;
  }
