-- ===== src/Program/Accepts.antt =====
-- What the guest program proves: its outputs against a relation that never runs it.
use sp1_helios.Prelude.{
  Option-cases, ℕ, ◌+◌, ◌<◌, ◌≡◌, refl, ◌↔◌, List, [], ◌∷◌, map, none, some, ok, arith,
  Result-cases, inl, inr,
}
use sp1_helios.Types.{B256, ContractStorage}
use sp1_helios.Helios.{Core, LightClientStore, ExecutionHeader}
use sp1_helios.Storage
use sp1_helios.Storage.{Trie}
use sp1_helios.Storage.Verify.{StorageValid, published, verify_storage_slot_proofs_iff}
use sp1_helios.Program.Copies.{verify-eq-copy}
use sp1_helios.Program.{
  ProofInputs, ProofOutputs, verify_storage_slot_proofs, apply_updates, outputs_of, finish, main,
}

module _ (h : Core) where
  open h use {spec, Update, Forks, beacon_slot, beacon_root, execution, committee_root}

  -- Each update is valid for the store that the ones before it lead to, and they lead to `last`.
  abbrev pub Applied :
      ℕ → B256 → Forks → LightClientStore spec → List Update → LightClientStore spec → Type 0
  Applied slot root forks store [] last = store ≡ last
  Applied slot root forks store (u ∷ us) last =
      (h.verify_update u slot store root forks ≡ ok tt)
      × Applied slot root forks (h.apply_update store u).0 us last

  pub apply_updates_complete :
      (index slot : ℕ) (root : B256) (forks : Forks) (store : LightClientStore spec)
      (us : List Update) (last : LightClientStore spec)
      → Applied slot root forks store us last
      → apply_updates h index slot root forks store us ≡ ok last
  unfolding apply_updates
  apply_updates_complete index slot root forks store [] last a = ground (arith, a)
  apply_updates_complete index slot root forks store (u ∷ us) last a =
      ground (arith, a.0, apply_updates_complete (index + 1) slot root forks _ us last a.1)

  pub apply_updates_sound :
      (index slot : ℕ) (root : B256) (forks : Forks) (store : LightClientStore spec)
      (us : List Update) (last : LightClientStore spec)
      → apply_updates h index slot root forks store us ≡ ok last
      → Applied slot root forks store us last
  unfolding apply_updates
  apply_updates_sound index slot root forks store [] last e = ground arith
  apply_updates_sound index slot root forks store (u ∷ us) last e =
      (ground arith, apply_updates_sound (index + 1) slot root forks _ us last (ground arith))

  abbrev pub cleared : ProofInputs spec → LightClientStore spec
  cleared i = record (i.store) { next_sync_committee = none }

  -- The store that the program ends with, from the one that the updates led to.
  abbrev pub last_store : ProofInputs spec → LightClientStore spec → LightClientStore spec
  last_store i middle = (h.apply_finality_update middle i.finality_update).0

  -- The program accepts `i` and commits `o`.
  pub record Accepts (t : Trie) (i : ProofInputs spec) (o : ProofOutputs) : Type 0 where
    pub middle : LightClientStore spec
    pub payload : ExecutionHeader
    -- the updates are valid one after the other, from the input's store with no next committee
    pub updates_valid :
        Applied i.expected_current_slot i.genesis_root i.forks
          (cleared i)
          i.sync_committee_updates
          middle
    pub finality_valid :
        h.verify_finality_update i.finality_update i.expected_current_slot middle i.genesis_root
          i.forks
        ≡ ok tt
    -- the finalized head advances, and its header carries the payload
    pub advanced :
        beacon_slot i.store.finalized_header < beacon_slot (last_store i middle).finalized_header
    pub has_payload : execution (last_store i middle).finalized_header ≡ some payload
    -- the account and all the slots are proved under the payload's state root
    pub storage_valid : StorageValid t payload.state_root i.contract_storage_slots
    -- and the outputs are these
    pub committed : o ≡ record {
      execution_state_root = payload.state_root;
      new_header = beacon_root (last_store i middle).finalized_header;
      next_sync_committee_hash = elim (last_store i middle).next_sync_committee [
        | none ↦ 0
        | some c ↦ committee_root c
      ];
      new_head = beacon_slot (last_store i middle).finalized_header;
      prev_header = beacon_root i.store.finalized_header;
      prev_head = beacon_slot i.store.finalized_header;
      sync_committee_hash = committee_root (last_store i middle).current_sync_committee;
      start_sync_committee_hash = committee_root i.store.current_sync_committee;
      slots =
          map (published i.contract_storage_slots.address) i.contract_storage_slots.storage_slots;
    }

  -- The program's storage check, by the copy that the service runs.
  pub verify_complete :
      (t : Trie) (root : B256) (c : ContractStorage)
      → StorageValid t root c
      → verify_storage_slot_proofs t root c ≡ ok (map (published c.address) c.storage_slots)
  verify_complete t root c v = ground (
    arith,
    verify-eq-copy t root c,
    (verify_storage_slot_proofs_iff t root c (map (published c.address) c.storage_slots)).1
        (v, refl),
  )

  pub main_complete :
      (t : Trie) (i : ProofInputs spec) (o : ProofOutputs) → Accepts t i o → main h t i ≡ ok o
  unfolding main finish outputs_of
  main_complete t i o a = ground (
    arith,
    a.committed,
    apply_updates_complete 0 i.expected_current_slot i.genesis_root i.forks (cleared i)
        i.sync_committee_updates a.middle a.updates_valid,
    verify_complete t a.payload.state_root i.contract_storage_slots a.storage_valid,
  )

  finish_sound :
      (t : Trie) (first last : LightClientStore spec) (c : ContractStorage) (o : ProofOutputs)
      → finish h t first last c ≡ ok o
      → (payload : ExecutionHeader) × (execution last.finalized_header ≡ some payload)
        × (beacon_slot first.finalized_header < beacon_slot last.finalized_header)
        × StorageValid t payload.state_root c
        × (o
            ≡ outputs_of h first last payload.state_root
                (map (published c.address) c.storage_slots))
  unfolding finish
  finish_sound t first last c o e = elim (Option-cases (execution last.finalized_header)) [
    | inl p ↦ ground arith
    | inr (payload, p) ↦
        elim (Result-cases (Storage.verify_storage_slot_proofs t payload.state_root c)) [
          | inl (v, q) ↦
              let valid = (verify_storage_slot_proofs_iff t payload.state_root c v).0 q in
              let run = verify_complete t payload.state_root c valid.0 in
              (payload, p, ground arith, valid.0, ground arith)
          | inr (x, q) ↦ ground (arith, verify-eq-copy t payload.state_root c)
        ]
  ]

  -- The program accepts exactly the inputs, and commits exactly the outputs, of `Accepts`: the
  -- sync-committee updates and then the finality update are valid one after the other from the
  -- input's store with its next sync committee taken out, the finalized head advances, its header
  -- has a payload, the account and every slot are proved under the payload's state root, and the
  -- outputs are those of that last store and of the input's.
  pub main_iff :
      (t : Trie) (i : ProofInputs spec) (o : ProofOutputs) → (main h t i ≡ ok o) ↔ Accepts t i o
  unfolding main outputs_of
  main_iff t i o = (
    (λ e.
        elim (Result-cases (
          apply_updates h 0 i.expected_current_slot i.genesis_root i.forks (cleared i)
            i.sync_committee_updates)) [
              | inl (middle, p) ↦
                  let (payload, has, lt, valid, out) =
                    finish_sound t (cleared i) (last_store i middle) i.contract_storage_slots o
                      (ground arith) in
                  record {
                    middle = middle;
                    payload = payload;
                    updates_valid = apply_updates_sound 0 _ _ _ _ _ middle p;
                    finality_valid = ground arith;
                    advanced = lt;
                    has_payload = has;
                    storage_valid = valid;
                    committed = out;
                  }
              | inr (x, p) ↦ ground arith
            ]),
    main_complete t i o,
  )
