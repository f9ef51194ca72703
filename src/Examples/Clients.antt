-- ===== src/Examples/Clients.antt =====
-- The consensus client and the execution proxy.
use sp1_helios.Prelude.{
  ◌^◌, ◌-◌, ◌<◌, ℕ, ◌+◌, ◌*◌, ◌/◌, ◌-◌, ◌≤◌, ◌<◌, ◌≡◌, ◌↔◌, refl, List, [], ◌∷◌, none, some, true,
  false, Result, ok, err, arith, text_eq,
}
use sp1_helios.Helios.{LightClientStore}
use sp1_helios.Storage
use sp1_helios.Storage.{check_slots, check_slot, build}
use sp1_helios.Client.Time.{duration_until_next_update, is_valid_checkpoint}
use sp1_helios.Client.Clock.{duration_until_next_update_lem, is_valid_checkpoint_iff}
use sp1_helios.Client.Select.{select, better}
use sp1_helios.Client.Advancement.{FirstBest, select-Selects}
use sp1_helios.Client.Updates.{get_updates_single_rpc}
use sp1_helios.Client.Batches.{Fetched, get_updates_single_rpc-Fetched}
use sp1_helios.Execution.{get_proof_and_check, get_proof}
use sp1_helios.Execution.Checked.{Checked, get_proof_and_check_iff, get_proof-Checked}
use sp1_helios.Examples.Chain.{
  SmallUpdate, small_spec, small_core, small_trie, small_config, endpoint, provider, response,
  header_at, store_at,
}

-- A failure, an early answer, and three that differ in the next committee.
abbrev results : List (Result ℕ (LightClientStore small_spec))
results =
    err 0
    ∷ ok (store_at (header_at 32) (some 1))
    ∷ ok (store_at (header_at 64) none)
    ∷ ok (store_at (header_at 64) (some 2))
    ∷ ok (store_at (header_at 64) (some 3))
    ∷ []

select-Selects_example :
    FirstBest small_spec
      (λ (s : LightClientStore small_spec). s)
      results
      (store_at (header_at 64) (some 2))
unfolding select better
select-Selects_example = select-Selects small_spec (λ (s : LightClientStore small_spec). s) results

abbrev update : SmallUpdate
update = record { header = header_at 40; committee = 2 }

-- 200 periods are fetched as 128, 72 and 128.
get_updates_single_rpc-Fetched_example :
    (sizes : List ℕ) × (to : ℕ) × Fetched small_core
      (endpoint false)
      0
      to
      sizes
      (update ∷ update ∷ update ∷ [])
    × (200 < to)
    × (to ≤ 328)
unfolding get_updates_single_rpc
get_updates_single_rpc-Fetched_example =
    get_updates_single_rpc-Fetched small_core (200 * 8192) 0 (endpoint false)
      (update ∷ update ∷ update ∷ []) (omega arith) (omega arith) refl

-- The proof of account 5 answers a question for account 6.
answered : get_proof_and_check small_trie 6 (10 ∷ []) 164 64 (provider false) ≡ ok response
unfolding get_proof_and_check build Storage.verify_storage_slot_proofs check_slots check_slot
    text_eq
answered = refl

get_proof_and_check_iff_example :
    ((provider false).timed_out ≡ false)
    × ((provider false).get_proof 6 (10 ∷ []) 164 ≡ ok response)
    × Checked small_trie (10 ∷ []) 64 response
get_proof_and_check_iff_example =
    (get_proof_and_check_iff small_trie 6 (10 ∷ []) 164 64 (provider false) response).0 answered

passed_on :
    get_proof small_trie 5 (10 ∷ []) 164 64 (provider true ∷ provider false ∷ []) ≡ ok response
unfolding get_proof build Storage.verify_storage_slot_proofs check_slots check_slot text_eq
passed_on = refl

get_proof-Checked_example : Checked small_trie (10 ∷ []) 64 response
get_proof-Checked_example =
    get_proof-Checked small_trie 5 (10 ∷ []) 164 64 (provider true ∷ provider false ∷ []) response
      passed_on

duration_until_next_update_lem_example :
    (847 ≤ 856 → 847 + duration_until_next_update small_core small_config 845 847 ≡ 856)
    × (847 < 852
        → (5 ≤ duration_until_next_update small_core small_config 845 847)
          × (duration_until_next_update small_core small_config 845 847 ≤ 16))
    × (856 < 847
        → duration_until_next_update small_core small_config 845 847 ≡ 2 ^ 64 - (847 - 856))
duration_until_next_update_lem_example =
    duration_until_next_update_lem small_core small_config 845 847 refl (omega arith) (omega arith)
      (omega arith)

is_valid_checkpoint_iff_example :
    (is_valid_checkpoint small_core small_config 845 10 ≡ true) ↔ (845 / 12 * 12 - 10 * 12 < 604800)
is_valid_checkpoint_iff_example =
    is_valid_checkpoint_iff small_core small_config 845 10 refl (omega arith) (omega arith)
      (omega arith)
