-- ===== src/Inputs/Trace.antt =====
-- What the client's sync over all endpoints has checked.
use sp1_helios.Prelude.{
  ℕ, ◌≡◌, ◌<◌, List, Option, none, some, Result, ok, map, arith, Result-cases, Option-cases, inl,
  inr, All, Any-const, All-Any, Any-of_map, subst,
}
use sp1_helios.Types.{B256}
use sp1_helios.Helios.{Core, LightClientStore, ExecutionHeader}
use sp1_helios.Client.Time.{Config}
use sp1_helios.Client.Rpc.{Endpoints, Endpoint, ClientError, timeout}
use sp1_helios.Client.Single.{SyncToChainTrace, sync_to_chain_single_rpc, bootstrap_single_rpc}
use sp1_helios.Client.Select.{select}
use sp1_helios.Client.{Client, ConsensusProofInputs, select_ok, sync_to_chain, get_proof_inputs}
use sp1_helios.Inputs.Traced.{Steady, Traced, selected-Any, select_ok-Any, sync_single-Traced}

module _ (h : Core) (config : Config h.spec) where
  open h use {spec, Update, FinalityUpdate, beacon_slot}

  -- The client at a store, under the section's configuration.
  abbrev pub client_at : LightClientStore spec → Option B256 → Client h
  client_at store checkpoint = record {
    config = config;
    store = store;
    last_checkpoint = checkpoint;
  }

  sync_to_chain-Traced :
      (slot : ℕ) (store : LightClientStore spec) (checkpoint : Option B256) (rpcs : Endpoints spec)
      (trace : SyncToChainTrace h) (client : Client h)
      → All (Steady h config slot) rpcs.each
      → sync_to_chain h (client_at store checkpoint) rpcs ≡ ok (trace, client)
      → Traced h config slot store trace × (client.store ≡ trace.final_store)
  unfolding sync_to_chain
  sync_to_chain-Traced slot store checkpoint rpcs trace client steady eq =
      elim (Option-cases (select spec (λ (t : SyncToChainTrace h). t.final_store) none results)) [
        | inl p ↦ absurd (ground arith)
        | inr (found, p) ↦
            let same : found ≡ trace = ground arith in
            let at : Traced h config slot store found =
              All-Any rpcs.each
                (λ e s (q : attempt e ≡ ok found).
                  sync_single-Traced h config slot store e found s (ground arith))
                steady
                (selected-Any h (λ (t : SyncToChainTrace h). t.final_store) attempt rpcs.each found
                  p) in
            (subst (Traced h config slot store) same at, ground arith)
      ]
    where
      attempt : Endpoint spec → Result ClientError (SyncToChainTrace h)
      attempt e = timeout e (sync_to_chain_single_rpc h store config e)

      results : List (Result ClientError (SyncToChainTrace h))
      results = map attempt rpcs.each

  bootstrap_single-next :
      (store booted : LightClientStore spec) (checkpoint : B256) (e : Endpoint spec)
      → ((s : LightClientStore spec) (b : h.spec.Bootstrap)
          → (h.apply_bootstrap s b).next_sync_committee ≡ none)
      → bootstrap_single_rpc h store config checkpoint e ≡ ok booted
      → booted.next_sync_committee ≡ none
  unfolding bootstrap_single_rpc
  bootstrap_single-next store booted checkpoint e fresh eq =
      elim (Result-cases (e.get_bootstrap checkpoint)) [
        | inl (b, p) ↦ ground (arith, fresh store b)
        | inr (x, p) ↦ absurd (ground arith)
      ]

  -- What `get_proof_inputs` has checked of its result.
  pub record Ready (slot : ℕ) (i : ConsensusProofInputs h) : Type 0 where
    pub trace : SyncToChainTrace h
    pub traced : Traced h config slot i.initial_store trace
    pub updates : i.sync_committee_updates ≡ trace.sync_committee_updates
    pub update : i.finality_update ≡ trace.finality_update
    pub at_slot : i.expected_current_slot ≡ slot
    pub cleared : i.initial_store.next_sync_committee ≡ none
    pub same_config : i.config ≡ config
    pub advanced :
        beacon_slot i.initial_store.finalized_header
        < beacon_slot trace.final_store.finalized_header
    pub payload : ExecutionHeader
    pub has_payload : h.execution trace.final_store.finalized_header ≡ some payload

  pub get_proof_inputs-Ready :
      (slot : ℕ) (from_header : B256) (completions : List (Endpoint spec)) (rpcs : Endpoints spec)
      (i : ConsensusProofInputs h)
      → ((s : LightClientStore spec) (b : h.spec.Bootstrap)
          → (h.apply_bootstrap s b).next_sync_committee ≡ none)
      → All (Steady h config slot) rpcs.each
      → get_proof_inputs h config from_header completions rpcs ≡ ok i
      → Ready slot i
  unfolding get_proof_inputs
  get_proof_inputs-Ready slot from_header completions rpcs i fresh steady eq =
      elim (Result-cases (select_ok h futures)) [
        | inl (booted, b) ↦
            elim (Result-cases (sync_to_chain h (client_at booted (some from_header)) rpcs)) [
              | inl ((trace, client), s) ↦
                  let (traced, end) =
                    sync_to_chain-Traced slot booted (some from_header) rpcs trace client steady
                      s in
                  elim (Option-cases (h.execution client.store.finalized_header)) [
                    | inr (payload, x) ↦
                        let same : booted ≡ i.initial_store = ground arith in
                        let next : booted.next_sync_committee ≡ none =
                          Any-const completions
                            (λ e q.
                              bootstrap_single-next h.default_store booted from_header e fresh q)
                            (Any-of_map (bootstrap_single_rpc h h.default_store config from_header)
                              (λ r. r ≡ ok booted) completions
                              (select_ok-Any h futures booted b)) in
                        record {
                          trace = trace;
                          traced = subst (λ s. Traced h config slot s trace) same traced;
                          updates = ground arith;
                          update = ground arith;
                          at_slot = ground (arith, traced.at_slot);
                          cleared = ground arith;
                          same_config = ground arith;
                          advanced = ground arith;
                          payload = payload;
                          has_payload = ground arith;
                        }
                    | inl x ↦ absurd (ground arith)
                  ]
              | inr (x, s) ↦ absurd (ground arith)
            ]
        | inr (x, b) ↦ absurd (ground arith)
      ]
    where
      futures : List (Result ClientError (LightClientStore spec))
      futures = map (bootstrap_single_rpc h h.default_store config from_header) completions
