-- ===== src/Genesis/Describes.antt =====
-- What the genesis configuration describes.
use sp1_helios.Prelude.{
  ℕ, ◌≡◌, ◌⊎◌, ◌∙◌, sym, ap, subst, List, [], ◌∷◌, ◌++◌, Option, none, some, true, false, Result,
  ok, Text, text_eq, codes, split, trim, starts_with, starts_with-append, is_empty, map, All,
  map_err, ok_or, arith, bind-eq-ok, map_err-eq-ok, ok_or-eq-ok, ok_inj, Bool-cases, inl, inr,
}
use sp1_helios.Types.{B256, Address}
use sp1_helios.Helios.{Core, ExecutionHeader}
use sp1_helios.Client.{Client, sync}
use sp1_helios.Client.Rpc.{Endpoints, Endpoint}
use sp1_helios.Env.{Env, StartError, Network, from_env, required, client}
use sp1_helios.Genesis.{
  Alloy, GenesisConfig, GenesisError, Directory, start, no_payload, parsed, address_unless_mock,
  updater, updaters_of, config_of, genesis_config,
}

module _ (alloy : Alloy) (env : Env) where
  abbrev pub IsPrefixed : Text → Type 0
  IsPrefixed s = starts_with s (codes "0x") ≡ true

  updater-IsPrefixed : (addr : Text) → IsPrefixed (updater alloy env addr)
  unfolding updater
  updater-IsPrefixed addr = elim (Bool-cases (starts_with (trim addr) (codes "0x"))) [
    | inl has ↦ rw has has
    | inr lacks ↦ rw lacks (starts_with-append (codes "0x") (trim addr))
  ]

  All-updater : (addrs : List Text) → All IsPrefixed (map (updater alloy env) addrs)
  All-updater [] = tt
  All-updater (addr ∷ addrs) = (updater-IsPrefixed addr, All-updater addrs)

  updaters_of-IsPrefixed :
      (updaters : Option Text) (deployer : Address)
      → All IsPrefixed (updaters_of alloy env updaters deployer)
  unfolding updaters_of
  updaters_of-IsPrefixed none deployer = (starts_with-append (codes "0x") _, tt)
  updaters_of-IsPrefixed (some s) deployer = elim (Bool-cases (is_empty s)) [
    | inl empty ↦ rw empty (starts_with-append (codes "0x") _, tt)
    | inr other ↦ rw other (All-updater (split 44 s))
  ]

  module _ (h : Core) (networks : ℕ → Option (Network h.spec))
      (endpoints : List Text → List (Endpoint h.spec) × Endpoints h.spec) where
    -- The configuration is of a client that was synced from the checkpoint.
    pub record Describes (checkpoint : Result StartError B256) (g : GenesisConfig) : Type 0 where
      pub init : B256
      pub paths : List Text
      pub created : Client h
      pub synced : Client h
      pub payload : ExecutionHeader
      pub sp1_prover : Text
      pub verifier : Address
      pub from_checkpoint : checkpoint ≡ ok init
      pub from_environment : from_env h networks env ≡ ok (created, paths)
      pub follows : sync h created init (endpoints paths).0 (endpoints paths).1 ≡ ok synced
      pub genesis_time : g.genesis_time ≡ synced.config.genesis_time
      pub slot_seconds : g.seconds_per_slot ≡ 12
      pub epoch_slots : g.slots_per_epoch ≡ 32
      pub period_slots : g.slots_per_period ≡ 8192
      pub head : g.head ≡ h.beacon_slot synced.store.finalized_header
      pub header :
          g.header ≡ codes "0x" ++ alloy.b256_hex (h.beacon_root synced.store.finalized_header)
      pub has_payload : h.execution synced.store.finalized_header ≡ some payload
      pub state_root : g.execution_state_root ≡ codes "0x" ++ alloy.b256_hex payload.state_root
      pub committee :
          g.sync_committee_hash
          ≡ codes "0x" ++ alloy.b256_hex (h.committee_root synced.store.current_sync_committee)
      pub prover_set : env (codes "SP1_PROVER") ≡ some sp1_prover
      pub verifier_printed : g.verifier ≡ codes "0x" ++ alloy.address_hex verifier
      pub verifier_chosen :
          ((text_eq sp1_prover (codes "mock") ≡ true) × (verifier ≡ 0))
          ⊎ ((text_eq sp1_prover (codes "mock") ≡ false)
              × ((text : Text) × (env (codes "SP1_VERIFIER_ADDRESS") ≡ some text)
                  × (alloy.parse_address text ≡ some verifier)))
      pub prefixed : All IsPrefixed g.updaters

    address_unless_mock-cases :
        (sp1_prover name : Text) (address : Address)
        → address_unless_mock alloy env sp1_prover name ≡ ok address
        → ((text_eq sp1_prover (codes "mock") ≡ true) × (address ≡ 0))
          ⊎ ((text_eq sp1_prover (codes "mock") ≡ false)
              × ((text : Text) × (env name ≡ some text)
                  × (alloy.parse_address text ≡ some address)))
    unfolding address_unless_mock
    address_unless_mock-cases sp1_prover name address e =
        elim (Bool-cases (text_eq sp1_prover (codes "mock"))) [
          | inl mock ↦ inl (mock, ground arith)
          | inr real ↦
              let (text, q, e') = bind-eq-ok _ _ (rw real at e) in
              inr (real, (text, ok_or-eq-ok _ _ (map_err-eq-ok _ _ q), ok_or-eq-ok _ _ e'))
        ]

    -- What the configuration takes from the synced client and the rest.
    record Taken (synced : Client h) (verifier : Address) (updaters : List Text) (g : GenesisConfig)
        : Type 0 where
      payload : ExecutionHeader
      has_payload : h.execution synced.store.finalized_header ≡ some payload
      genesis_time : g.genesis_time ≡ synced.config.genesis_time
      slot_seconds : g.seconds_per_slot ≡ 12
      epoch_slots : g.slots_per_epoch ≡ 32
      period_slots : g.slots_per_period ≡ 8192
      head : g.head ≡ h.beacon_slot synced.store.finalized_header
      header : g.header ≡ codes "0x" ++ alloy.b256_hex (h.beacon_root synced.store.finalized_header)
      state_root : g.execution_state_root ≡ codes "0x" ++ alloy.b256_hex payload.state_root
      committee :
          g.sync_committee_hash
          ≡ codes "0x" ++ alloy.b256_hex (h.committee_root synced.store.current_sync_committee)
      verifier_printed : g.verifier ≡ codes "0x" ++ alloy.address_hex verifier
      updaters_kept : g.updaters ≡ updaters

    config_of-Taken :
        (synced : Client h) (vkey : Text) (verifier vkey_updater : Address) (updaters : List Text)
        (g : GenesisConfig)
        → config_of alloy env h synced vkey verifier vkey_updater updaters ≡ ok g
        → Taken synced verifier updaters g
    unfolding config_of
    config_of-Taken synced vkey verifier vkey_updater updaters g e =
        let (payload, q, e') =
          bind-eq-ok (ok_or (h.execution synced.store.finalized_header) no_payload) _ e in
        let same = ok_inj e' in
        record {
          payload = payload;
          has_payload = ok_or-eq-ok _ _ q;
          genesis_time = sym (ap (λ (c : GenesisConfig). c.genesis_time) same);
          slot_seconds = sym (ap (λ (c : GenesisConfig). c.seconds_per_slot) same);
          epoch_slots = sym (ap (λ (c : GenesisConfig). c.slots_per_epoch) same);
          period_slots = sym (ap (λ (c : GenesisConfig). c.slots_per_period) same);
          head = sym (ap (λ (c : GenesisConfig). c.head) same);
          header = sym (ap (λ (c : GenesisConfig). c.header) same);
          state_root = sym (ap (λ (c : GenesisConfig). c.execution_state_root) same);
          committee = sym (ap (λ (c : GenesisConfig). c.sync_committee_hash) same);
          verifier_printed = sym (ap (λ (c : GenesisConfig). c.verifier) same);
          updaters_kept = sym (ap (λ (c : GenesisConfig). c.updaters) same);
        }

    -- If the tool writes a configuration, then it is of a client of the environment's network that
    -- was synced from the checkpoint: the head, the header, the state root and the committee's hash
    -- are those of its store; the verifier is the zero address for the mock prover, and otherwise the
    -- variable's; and every updater has the prefix 0x. The workspace is cargo's.
    pub genesis_config-Describes :
        (vkey : Text) (checkpoint : Result StartError B256)
        (workspace : Result GenesisError Directory) (root : Directory) (g : GenesisConfig)
        → genesis_config alloy env h networks endpoints vkey checkpoint workspace ≡ ok (root, g)
        → (workspace ≡ ok root) × Describes checkpoint g
    unfolding genesis_config
    genesis_config-Describes vkey checkpoint workspace root g e =
        let (init, q0, e0) = bind-eq-ok (map_err start checkpoint) _ e in
        let (sp1_prover, q1, e1) =
          bind-eq-ok (map_err start (required env (codes "SP1_PROVER"))) _ e0 in
        let (verifier, q2, e2) =
          bind-eq-ok (address_unless_mock alloy env sp1_prover (codes "SP1_VERIFIER_ADDRESS")) _
            e1 in
        let (vkey_updater, q3, e3) =
          bind-eq-ok (address_unless_mock alloy env sp1_prover (codes "VKEY_UPDATER")) _ e2 in
        let ((created, paths), q4, e4) =
          bind-eq-ok (map_err start (from_env h networks env)) _ e3 in
        let (synced, q5, e5) =
          bind-eq-ok
            (map_err (λ x. start (client x))
              (sync h created init (endpoints paths).0 (endpoints paths).1))
            _ e4 in
        let (found, q7, e7) = bind-eq-ok workspace _ e5 in
        let (deployer, q6, e6) =
          bind-eq-ok (parsed alloy env alloy.signer_address (codes "PRIVATE_KEY")) _ e7 in
        let (made, q8, e8) =
          bind-eq-ok
            (config_of alloy env h synced vkey verifier vkey_updater
              (updaters_of alloy env (env (codes "UPDATERS")) deployer))
            _ e6 in
        let last : (found, made) ≡ (root, g) = ok_inj e8 in
        let taken =
          config_of-Taken synced vkey verifier vkey_updater
            (updaters_of alloy env (env (codes "UPDATERS")) deployer) g
            (q8 ∙ ap (λ (c : Directory × GenesisConfig). ok (c.1)) last) in
        (
          q7 ∙ ap (λ (c : Directory × GenesisConfig). ok (c.0)) last,
          record {
            init = init;
            paths = paths;
            created = created;
            synced = synced;
            payload = taken.payload;
            sp1_prover = sp1_prover;
            verifier = verifier;
            from_checkpoint = map_err-eq-ok _ _ q0;
            from_environment = map_err-eq-ok _ _ q4;
            follows = map_err-eq-ok _ _ q5;
            genesis_time = taken.genesis_time;
            slot_seconds = taken.slot_seconds;
            epoch_slots = taken.epoch_slots;
            period_slots = taken.period_slots;
            head = taken.head;
            header = taken.header;
            has_payload = taken.has_payload;
            state_root = taken.state_root;
            committee = taken.committee;
            prover_set = ok_or-eq-ok _ _ (map_err-eq-ok _ _ q1);
            verifier_printed = taken.verifier_printed;
            verifier_chosen = address_unless_mock-cases sp1_prover _ verifier q2;
            prefixed =
                subst (All IsPrefixed) (sym taken.updaters_kept)
                  (updaters_of-IsPrefixed (env (codes "UPDATERS")) deployer);
          },
        )
