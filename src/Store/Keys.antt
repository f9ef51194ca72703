-- ===== src/Store/Keys.antt =====
-- The Redis keys of zk-api/src/redis_store.rs do not collide.
use sp1_helios.Prelude.{
  codes, ◌≡◌, refl, ap, [], ◌∷◌, ◌++◌, false, arith, length, Text, text_eq, text_eq_ne,
}
use sp1_helios.Types.{B256, ProofId}
use sp1_helios.Redis.{Platform}
use sp1_helios.Store.{
  RedisStore, proof_state_key, finalized_header_key, global_lock_key, proof_generation_lock_key,
}

text_eq-append : (a s t : Text) → text_eq (a ++ s) (a ++ t) ≡ text_eq s t
unfolding text_eq
text_eq-append [] s t = refl
text_eq-append (c ∷ a) s t = ground (arith, text_eq-append a s t)

append_cancel : (a s t : Text) → a ++ s ≡ a ++ t → s ≡ t
append_cancel [] s t e = e
append_cancel (c ∷ a) s t e = append_cancel a s t (ground arith)

module _ (p : Platform) (r : RedisStore) where
  pub state_ne_generation_lock :
      (i j : ProofId) → text_eq (proof_generation_lock_key p r i) (proof_state_key p r j) ≡ false
  unfolding proof_state_key proof_generation_lock_key text_eq
  state_ne_generation_lock i j = text_eq-append r.key_prefix _ _

  pub header_ne_generation_lock :
      (i : ProofId) → text_eq (proof_generation_lock_key p r i) (finalized_header_key p r) ≡ false
  unfolding finalized_header_key proof_generation_lock_key text_eq
  header_ne_generation_lock i = text_eq-append r.key_prefix _ _

  pub global_ne_generation_lock :
      (i : ProofId) → text_eq (global_lock_key p r) (proof_generation_lock_key p r i) ≡ false
  unfolding global_lock_key proof_generation_lock_key text_eq
  global_ne_generation_lock i = text_eq-append r.key_prefix _ _

  pub state_ne_global_lock :
      (i : ProofId) → text_eq (global_lock_key p r) (proof_state_key p r i) ≡ false
  unfolding global_lock_key proof_state_key text_eq
  state_ne_global_lock i = text_eq-append r.key_prefix _ _

  pub header_ne_global_lock : text_eq (global_lock_key p r) (finalized_header_key p r) ≡ false
  unfolding global_lock_key finalized_header_key text_eq
  header_ne_global_lock = text_eq-append r.key_prefix _ _

  module _ (digits : (b : B256) → length (p.to_hex b) ≡ 64) where
    pub header_ne_state :
        (i : ProofId) → text_eq (finalized_header_key p r) (proof_state_key p r i) ≡ false
    unfolding finalized_header_key proof_state_key
    header_ne_state i = text_eq_ne _ _ λ e.
        let tail : codes ":state:finalized_header" ≡ codes ":state:" ++ p.to_hex i.hash =
          append_cancel r.key_prefix _ _ e in
        omega (arith, digits i.hash, ap length tail)

    pub state_ne_header :
        (i : ProofId) → text_eq (proof_state_key p r i) (finalized_header_key p r) ≡ false
    unfolding finalized_header_key proof_state_key
    state_ne_header i = text_eq_ne _ _ λ e.
        let tail : codes ":state:" ++ p.to_hex i.hash ≡ codes ":state:finalized_header" =
          append_cancel r.key_prefix _ _ e in
        omega (arith, digits i.hash, ap length tail)
