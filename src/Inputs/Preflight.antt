-- ===== src/Inputs/Preflight.antt =====
-- The inputs that the service hands to the prover are accepted by the guest program.
use sp1_helios.Prelude.{
  ℕ, suc, [], ◌∷◌, Bool, true, false, ◌≡◌, ◌≤◌, ◌<◌, ◌⊎◌, ◌↔◌, Bool-cases, ◌∙◌, refl, sym, ap, List,
  map, none, some, ok, arith, Result-cases, Option-cases, inl, inr, All, subst,
}
use mathlib.Core.List.{map-map}
use native.Mathlib.Decide.{dec_le}
use sp1_helios.Types.{B256, ProofRequest, StorageSlot, VerifiedStorageSlot, ContractStorage}
use sp1_helios.Helios.{Core, LightClientStore, ExecutionHeader}
use sp1_helios.Storage.{Trie}
use sp1_helios.Storage.Verify.{StorageValid, build-keys, published}
use sp1_helios.Program.{ProofInputs, ProofOutputs, outputs_of, main}
use sp1_helios.Program.Accepts.{Applied, main_iff, last_store, cleared}
use sp1_helios.Client.Time.{Config}
use sp1_helios.Client
use sp1_helios.Client.{ConsensusProofInputs}
use sp1_helios.Execution
use sp1_helios.Execution.Checked.{get_proof-Checked}
use sp1_helios.Inputs.{Attempt, get_proof_inputs_once, add_storage_proof}
use sp1_helios.Inputs.Traced.{Steady}
use sp1_helios.Inputs.Trace.{Ready, get_proof_inputs-Ready}

module _ (h : Core) (t : Trie) where
  open h use {spec, beacon_slot}

  -- What the execution part adds to the consensus part.
  record Gathered (request : ProofRequest) (c : ConsensusProofInputs h) (i : ProofInputs spec)
      : Type 0 where
    header : ExecutionHeader
    has_header : h.execution (h.finalized_header c.finality_update) ≡ some header
    storage_valid : StorageValid t header.state_root i.contract_storage_slots
    keys :
        map (λ (s : StorageSlot). s.key) i.contract_storage_slots.storage_slots
        ≡ request.src_chain_storage_slots
    updates : c.sync_committee_updates ≡ i.sync_committee_updates
    update : c.finality_update ≡ i.finality_update
    at_slot : c.expected_current_slot ≡ i.expected_current_slot
    store : c.initial_store ≡ i.store
    root : c.config.genesis_root ≡ i.genesis_root
    forks : c.config.forks ≡ i.forks

  add_storage_proof-Gathered :
      (request : ProofRequest) (providers : List Execution.Provider) (c : ConsensusProofInputs h)
      (i : ProofInputs spec)
      → add_storage_proof h t request providers c ≡ ok i
      → Gathered request c i
  unfolding add_storage_proof
  add_storage_proof-Gathered request providers c i eq =
      elim (Option-cases (h.execution (h.finalized_header c.finality_update))) [
        | inl p ↦ absurd (ground arith)
        | inr (header, p) ↦
            elim (Result-cases (
              Execution.get_proof t request.src_chain_contract_address
                request.src_chain_storage_slots header.block_number header.state_root providers)) [
                  | inl (r, q) ↦
                      let checked = get_proof-Checked t _ _ _ _ providers r q in
                      let same : checked.storage ≡ i.contract_storage_slots =
                        ground (arith, checked.built) in
                      record {
                        header = header;
                        has_header = p;
                        storage_valid = subst (StorageValid t header.state_root) same checked.valid;
                        keys =
                            subst
                              (λ (c : ContractStorage).
                                map (λ (s : StorageSlot). s.key) c.storage_slots
                                ≡ request.src_chain_storage_slots)
                              same (build-keys _ r _ checked.built);
                        updates = ground (arith, checked.built);
                        update = ground (arith, checked.built);
                        at_slot = ground (arith, checked.built);
                        store = ground (arith, checked.built);
                        root = ground (arith, checked.built);
                        forks = ground (arith, checked.built);
                      }
                  | inr (x, q) ↦ absurd (ground arith)
                ]
      ]

  Applied-cast :
      {slot slot' : ℕ} {root root' : B256} {forks forks' : h.Forks}
      {store store' : LightClientStore spec} {us us' : List h.Update} (last : LightClientStore spec)
      → slot ≡ slot'
      → root ≡ root'
      → forks ≡ forks'
      → store ≡ store'
      → us ≡ us'
      → Applied h slot root forks store us last
      → Applied h slot' root' forks' store' us' last
  Applied-cast {slot'} {root} {root'} {forks} {forks'} {store} {store'} {us} {us'} last p q r s u
        a =
      subst (λ x. Applied h slot' root' forks' store' x last) u
        (subst (λ x. Applied h slot' root' forks' x us last) s
          (subst (λ x. Applied h slot' root' x store us last) r
            (subst (λ x. Applied h slot' x forks store us last) q
              (subst (λ x. Applied h x root forks store us last) p a))))

  -- What helios documents of applying a finality update: the update's header is adopted if enough of
  -- the committee has signed, and the header is later than the finalized one; otherwise the finalized
  -- header stays.
  pub record Adopts (has_majority : h.FinalityUpdate → Bool) : Type 0 where
    pub adopts :
        (s : LightClientStore spec) (u : h.FinalityUpdate)
        → has_majority u ≡ true
        → beacon_slot s.finalized_header < beacon_slot (h.finalized_header u)
        → (h.apply_finality_update s u).0.finalized_header ≡ h.finalized_header u
    pub skips :
        (s : LightClientStore spec) (u : h.FinalityUpdate)
        → (has_majority u ≡ false)
          ⊎ (beacon_slot (h.finalized_header u) ≤ beacon_slot s.finalized_header)
        → (h.apply_finality_update s u).0.finalized_header ≡ s.finalized_header

  -- The inputs' run of the client: the store after the updates and the one after the finality update,
  -- both valid, with a finalized header past the first one; and the slots are the request's, in order,
  -- proved under the state root of the finality update's header.
  pub record Gathers (request : ProofRequest) (i : ProofInputs spec)
      (middle : LightClientStore spec) : Type 0 where
    pub updates_valid :
        Applied h i.expected_current_slot i.genesis_root i.forks
          (cleared h i)
          i.sync_committee_updates
          middle
    pub finality_valid :
        h.verify_finality_update i.finality_update i.expected_current_slot middle i.genesis_root
          i.forks
        ≡ ok tt
    pub advanced :
        beacon_slot i.store.finalized_header < beacon_slot (last_store h i middle).finalized_header
    pub payload : ExecutionHeader
    pub has_payload : h.execution (h.finalized_header i.finality_update) ≡ some payload
    pub proved : StorageValid t payload.state_root i.contract_storage_slots
    pub keys :
        map (λ (s : StorageSlot). s.key) i.contract_storage_slots.storage_slots
        ≡ request.src_chain_storage_slots

  Ready-Gathers :
      (config : Config spec) (slot : ℕ) (request : ProofRequest) (c : ConsensusProofInputs h)
      (i : ProofInputs spec)
      → (r : Ready h config slot c) → Gathered request c i
      → Gathers request i r.traced.middle
  Ready-Gathers config slot request c i r g =
      let middle = r.traced.middle in
      let ends : r.trace.final_store ≡ last_store h i middle = ground arith in
      record {
        updates_valid =
            Applied-cast middle (sym r.at_slot ∙ g.at_slot)
              (sym (ap (λ (c : Config spec). c.genesis_root) r.same_config) ∙ g.root)
              (sym (ap (λ (c : Config spec). c.forks) r.same_config) ∙ g.forks)
              (ap (λ n. record (c.initial_store) { next_sync_committee = n }) r.cleared
                ∙ ap (λ (s : LightClientStore spec). record s { next_sync_committee = none })
                    g.store)
              (sym r.updates ∙ g.updates) r.traced.updates_valid;
        finality_valid = ground arith;
        advanced = ground arith;
        payload = g.header;
        has_payload = ap (λ u. h.execution (h.finalized_header u)) (sym g.update) ∙ g.has_header;
        proved = g.storage_valid;
        keys = g.keys;
      }

  -- The outputs for a request: the head is the finality update's, and the slots are the
  -- request's, in order.
  pub record Answers (request : ProofRequest) (i : ProofInputs spec) (o : ProofOutputs)
      : Type 0 where
    pub head : o.new_head ≡ beacon_slot (h.finalized_header i.finality_update)
    pub advanced : o.prev_head < o.new_head
    pub keys : map (λ (v : VerifiedStorageSlot). v.key) o.slots ≡ request.src_chain_storage_slots

  -- The guest program accepts the inputs and answers the request with them.
  abbrev pub Answered : ProofRequest → ProofInputs spec → Type 0
  Answered request i = (o : ProofOutputs) × (main h t i ≡ ok o) × Answers request i o

  -- What the program commits under a state root.
  abbrev committed_of : ProofInputs spec → LightClientStore spec → B256 → ProofOutputs
  committed_of i middle root =
      outputs_of h (cleared h i) (last_store h i middle) root
        (map (published i.contract_storage_slots.address) i.contract_storage_slots.storage_slots)

  Gathers-main :
      (request : ProofRequest) (i : ProofInputs spec) (middle : LightClientStore spec)
      (payload : ExecutionHeader)
      → Gathers request i middle
      → h.execution (last_store h i middle).finalized_header ≡ some payload
      → StorageValid t payload.state_root i.contract_storage_slots
      → main h t i ≡ ok (committed_of i middle payload.state_root)
  unfolding outputs_of
  Gathers-main request i middle payload g has valid =
      (main_iff h t i (committed_of i middle payload.state_root)).1 (record {
        middle = middle;
        payload = payload;
        updates_valid = g.updates_valid;
        finality_valid = g.finality_valid;
        advanced = g.advanced;
        has_payload = has;
        storage_valid = valid;
        committed = refl;
      })

  Gathers-Answered :
      (request : ProofRequest) (i : ProofInputs spec) (middle : LightClientStore spec)
      → Gathers request i middle
      → (last_store h i middle).finalized_header ≡ h.finalized_header i.finality_update
      → Answered request i
  unfolding outputs_of
  Gathers-Answered request i middle g header = (
    committed_of i middle g.payload.state_root,
    Gathers-main request i middle g.payload g (ap h.execution header ∙ g.has_payload) g.proved,
    record {
      head = ap beacon_slot header;
      advanced = g.advanced;
      keys = map-map _ _ i.contract_storage_slots.storage_slots ∙ g.keys;
    },
  )

  Applied-same :
      (slot : ℕ) (root : B256) (forks : h.Forks) (store last other : LightClientStore spec)
      (us : List h.Update)
      → Applied h slot root forks store us last
      → Applied h slot root forks store us other
      → last ≡ other
  Applied-same slot root forks store last other [] a b = sym a ∙ b
  Applied-same slot root forks store last other (u ∷ us) a b =
      Applied-same slot root forks (h.apply_update store u).0 last other us a.1 b.1

  -- The finality update was valid, but it left the finalized header as the updates had made it. Then
  -- the guest program accepts exactly if the slots are proved under that header too.
  pub record Skipped (has_majority : h.FinalityUpdate → Bool) (request : ProofRequest)
      (i : ProofInputs spec) : Type 0 where
    pub middle : LightClientStore spec
    pub gathers : Gathers request i middle
    pub why :
        (has_majority i.finality_update ≡ false)
        ⊎ (beacon_slot (h.finalized_header i.finality_update) ≤ beacon_slot middle.finalized_header)
    pub stays : (last_store h i middle).finalized_header ≡ middle.finalized_header
    pub accepted_iff : ((o : ProofOutputs) × (main h t i ≡ ok o)) ↔ (
        (payload : ExecutionHeader) × (h.execution middle.finalized_header ≡ some payload)
        × StorageValid t payload.state_root i.contract_storage_slots)

  Gathers-Skipped :
      (has_majority : h.FinalityUpdate → Bool) (request : ProofRequest) (i : ProofInputs spec)
      (middle : LightClientStore spec)
      → Adopts has_majority
      → Gathers request i middle
      → (has_majority i.finality_update ≡ false)
        ⊎ (beacon_slot (h.finalized_header i.finality_update) ≤ beacon_slot middle.finalized_header)
      → Skipped has_majority request i
  Gathers-Skipped has_majority request i middle law g why =
      let stays = law.skips middle i.finality_update why in
      record {
        middle = middle;
        gathers = g;
        why = why;
        stays = stays;
        accepted_iff = (
          λ (o, e).
              let a = (main_iff h t i o).0 e in
              let same : middle ≡ a.middle =
                Applied-same _ _ _ (cleared h i) middle a.middle _ g.updates_valid
                  a.updates_valid in
              (
                a.payload,
                ap h.execution (sym stays)
                    ∙ ap (λ m. h.execution (last_store h i m).finalized_header) same
                    ∙ a.has_payload,
                a.storage_valid,
              ),
          λ (payload, has, valid). (
            committed_of i middle payload.state_root,
            Gathers-main request i middle payload g (ap h.execution stays ∙ has) valid,
          ),
        );
      }

  pub Skipped-outputs :
      (has_majority : h.FinalityUpdate → Bool) (request : ProofRequest) (i : ProofInputs spec)
      (s : Skipped has_majority request i) (o : ProofOutputs)
      → main h t i ≡ ok o
      → (o.new_head ≡ beacon_slot s.middle.finalized_header)
        × (o.prev_head < o.new_head)
        × (map (λ (v : VerifiedStorageSlot). v.key) o.slots ≡ request.src_chain_storage_slots)
  Skipped-outputs has_majority request i s o e =
      let a = (main_iff h t i o).0 e in
      let same : a.middle ≡ s.middle =
        Applied-same _ _ _ (cleared h i) a.middle s.middle _ a.updates_valid
          s.gathers.updates_valid in
      let head : o.new_head ≡ beacon_slot (last_store h i a.middle).finalized_header =
        ap (λ (x : ProofOutputs). x.new_head) a.committed in
      (
        head
            ∙ ap (λ m. beacon_slot (last_store h i m).finalized_header) same
            ∙ ap beacon_slot s.stays,
        subst (λ (x : ProofOutputs). x.prev_head < x.new_head) (sym a.committed) a.advanced,
        ap (λ (x : ProofOutputs). map (λ (v : VerifiedStorageSlot). v.key) x.slots) a.committed
            ∙ map-map _ _ i.contract_storage_slots.storage_slots
            ∙ s.gathers.keys,
      )

  -- `get_proof_inputs_once` gathers inputs that the guest program accepts, and answers the request
  -- with, if helios adopts the finality update. If helios skips it, as it does with one that has too
  -- few votes or is not past the updates, then the finalized header is the updates', and the guest
  -- accepts exactly if the slots are proved under that header too. The conditions: helios applies
  -- updates as documented; the program that helios runs is the one that the guest runs; a bootstrap
  -- leaves no next sync committee; and the clock stays in one slot while the endpoints sync.
  pub get_proof_inputs_once-main :
      (has_majority : h.FinalityUpdate → Bool) (config : Config spec) (slot : ℕ)
      (request : ProofRequest) (a : Attempt h) (i : ProofInputs spec)
      → Adopts has_majority
      → ((s : LightClientStore spec) (b : h.Bootstrap)
          → (h.apply_bootstrap s b).next_sync_committee ≡ none)
      → All (Steady h config slot) a.rpcs.each
      → get_proof_inputs_once h t config request a ≡ ok i
      → Answered request i ⊎ Skipped has_majority request i
  unfolding get_proof_inputs_once
  get_proof_inputs_once-main has_majority config slot request a i law fresh steady eq =
      elim (Result-cases (
        Client.get_proof_inputs h config request.dst_chain_contract_from_header a.bootstraps
          a.rpcs)) [
            | inr (x, p) ↦ absurd (ground arith)
            | inl (c, p) ↦
                let r =
                  get_proof_inputs-Ready h config slot _ a.bootstraps a.rpcs c fresh steady p in
                let g = add_storage_proof-Gathered request a.providers c i (ground arith) in
                sorted (r.traced.middle) (Ready-Gathers config slot request c i r g)
          ]
    where
      sorted :
          (middle : LightClientStore spec)
          → Gathers request i middle
          → Answered request i ⊎ Skipped has_majority request i
      sorted middle g = elim (Bool-cases (has_majority i.finality_update)) [
        | inr few ↦ inr (Gathers-Skipped has_majority request i middle law g (inl few))
        | inl many ↦
            elim (dec_le (suc (beacon_slot middle.finalized_header))
              (beacon_slot (h.finalized_header i.finality_update))) [
                | yes later ↦ inl (
                    Gathers-Answered request i middle g
                      (law.adopts middle i.finality_update many later))
                | no not_later ↦
                    inr (Gathers-Skipped has_majority request i middle law g (inr (omega arith)))
              ]
      ]
