-- ===== src/Service/Workers/Calls.antt =====
-- The calls of the workers that start and end no task leave the proof generation locks alone.
use sp1_helios.Prelude.{◌≡◌, refl, sym, subst, false, Text, text_eq}
use sp1_helios.Types.{ProofId}
use sp1_helios.Redis.{Platform}
use sp1_helios.Redis.Local.{Local}
use sp1_helios.Action.{Action, World}
use sp1_helios.Store.{RedisStore, proof_state_key, finalized_header_key, proof_generation_lock_key}
use sp1_helios.Store.Keys.{
  state_ne_generation_lock, header_ne_generation_lock, global_ne_generation_lock,
}
use sp1_helios.Store.Keeps.{
  Keeps, Spares, text_eq_swap, Keeps-get_proof_state, Keeps-read_finalized_header,
  Keeps-find_requests_by_status, Keeps-set_proof_state, Keeps-update, Keeps-acquire_global_lock,
  Keeps-release_global_lock,
}
use sp1_helios.Service.Workers.{
  Call, reads_state, reads_header, finds, saves, publishes, takes_global, releases_global,
}

module _ (p : Platform) (r : RedisStore) where
  abbrev IsLock : Text → Type 0
  IsLock j = (id : ProofId) × (j ≡ proof_generation_lock_key p r id)

  spares :
      (k : Text)
      → ((id : ProofId) → text_eq k (proof_generation_lock_key p r id) ≡ false)
      → Spares IsLock k
  spares k h j (id, e) = subst (λ i. text_eq k i ≡ false) (sym e) (h id)

  other_state : (id : ProofId) → Spares IsLock (proof_state_key p r id)
  other_state id = spares _ λ i. text_eq_swap _ _ (state_ne_generation_lock p r i id)

  other_header : Spares IsLock (finalized_header_key p r)
  other_header = spares _ λ i. text_eq_swap _ _ (header_ne_generation_lock p r i)

  -- What a call keeps: the tasks, and the locks in a view of the server.
  pub record Kept {B : Type 0} (view : p.redis.Server → Text → B) (w u : World p) : Type 0 where
    pub locks :
        (id : ProofId)
        → view u.server (proof_generation_lock_key p r id)
          ≡ view w.server (proof_generation_lock_key p r id)
    pub tasks : u.spawned ≡ w.spawned

  module _ {B : Type 0} {view : p.redis.Server → Text → B} where
    Kept-Keeps :
        {A : Type 0} (m : Action p A) (w : World p) → Keeps view IsLock m → Kept view w (m w).1
    Kept-Keeps m w k = record { locks = λ id. k.keys w _ (id, refl); tasks = k.tasks w }

    pub Call-Kept : Local p.redis view → {w u : World p} → Call p r w u → Kept view w u
    Call-Kept l {w} (reads_state id) = Kept-Keeps _ w (Keeps-get_proof_state l r id)
    Call-Kept l {w} reads_header = Kept-Keeps _ w (Keeps-read_finalized_header l r)
    Call-Kept l {w} (finds status) = Kept-Keeps _ w (Keeps-find_requests_by_status l r status)
    Call-Kept l {w} (saves id state) =
        Kept-Keeps _ w (Keeps-set_proof_state l r id state (other_state id))
    Call-Kept l {w} (publishes header states) =
        Kept-Keeps _ w (Keeps-update l r header states other_header other_state)
    Call-Kept l {w} takes_global =
        Kept-Keeps _ w (Keeps-acquire_global_lock l r (spares _ (global_ne_generation_lock p r)))
    Call-Kept l {w} releases_global =
        Kept-Keeps _ w (Keeps-release_global_lock l r (spares _ (global_ne_generation_lock p r)))
