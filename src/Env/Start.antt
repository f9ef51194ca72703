-- ===== src/Env/Start.antt =====
-- The checkpoint from which the light client boots when the service starts.
use sp1_helios.Prelude.{
  ◌≡◌, ◌↔◌, ◌⊎◌, refl, ap, Option, none, some, Result, ok, err, Text, codes, arith, Option-cases,
  inl, inr,
}
use sp1_helios.Types.{B256, ProofServiceError}
use sp1_helios.Redis.{Platform, Documented, Reachable}
use sp1_helios.Action.{World}
use sp1_helios.Action.Runs.{Values, Tasks, Shows}
use sp1_helios.Store.{RedisStore, parse_reply, finalized_header_key}
use sp1_helios.Store.Runs.{Runs-read_finalized_header}
use sp1_helios.Env.{Env, env_checkpoint, choose_checkpoint, get_initial_checkpoint}

-- Where a checkpoint comes from: the stored header, or the variable if no header is stored.
abbrev pub Chosen :
    (p : Platform)
    → (Text → Option B256)
    → Env
    → Result ProofServiceError (Option p.spec.Header)
    → B256
    → Type 0
Chosen p parse_b256 env stored checkpoint =
    ((header : p.spec.Header) × (stored ≡ ok (some header))
      × (checkpoint ≡ p.spec.beacon_root header))
    ⊎ ((stored ≡ ok none)
        × ((text : Text) × (env (codes "INIT_CHECKPOINT") ≡ some text)
            × (parse_b256 text ≡ some checkpoint)))

module _ (p : Platform) (r : RedisStore) (parse_b256 : Text → Option B256) (env : Env) where
  env_checkpoint_iff :
      (checkpoint : B256)
      → (env_checkpoint parse_b256 env ≡ ok checkpoint) ↔ (
          (text : Text) × (env (codes "INIT_CHECKPOINT") ≡ some text)
          × (parse_b256 text ≡ some checkpoint))
  unfolding env_checkpoint
  env_checkpoint_iff checkpoint = elim (Option-cases (env (codes "INIT_CHECKPOINT"))) [
    | inl unset ↦ (λ e. absurd (ground arith), λ h. absurd (ground (arith, h.1)))
    | inr (text, set) ↦ elim (Option-cases (parse_b256 text)) [
      | inl bad ↦ (
        λ e. absurd (ground arith),
        λ (text', set', read).
            absurd (let same : text ≡ text' = ground arith in ground (arith, ap parse_b256 same)),
      )
      | inr (c, read) ↦ (
        λ e. (text, set, ground arith),
        λ (text', set', read').
            let same : text ≡ text' = ground arith in ground (arith, ap parse_b256 same),
      )
    ]
  ]

  header_of :
      (header header' : p.spec.Header)
      → ◌≡◌ {A = Result ProofServiceError (Option p.spec.Header)}
          (ok (some header))
          (ok (some header'))
      → p.spec.beacon_root header ≡ p.spec.beacon_root header'
  header_of header header' q =
      ap (λ (x : Result ProofServiceError (Option p.spec.Header)). root_of x) q
    where
      root_of : Result ProofServiceError (Option p.spec.Header) → B256
      root_of (ok (some header)) = p.spec.beacon_root header
      root_of _ = 0

  choose_checkpoint-Chosen :
      (stored : Result ProofServiceError (Option p.spec.Header)) (checkpoint : B256)
      → (choose_checkpoint p r parse_b256 env stored ≡ ok checkpoint)
        ↔ Chosen p parse_b256 env stored checkpoint
  unfolding choose_checkpoint
  choose_checkpoint-Chosen (err e) checkpoint = ground arith
  choose_checkpoint-Chosen (ok (some header)) checkpoint = (
    λ e. inl (header, refl, ground arith),
    λ h. elim h [
      | inl (header', q, c) ↦ ground (arith, c, header_of header header' q)
      | inr (q, g) ↦ absurd (ground arith)
    ],
  )
  choose_checkpoint-Chosen (ok none) checkpoint = (
    λ e. inr (refl, (env_checkpoint_iff checkpoint).0 e),
    λ h. elim h [
      | inl (header, q, c) ↦ absurd (ground arith)
      | inr (q, g) ↦ (env_checkpoint_iff checkpoint).1 g
    ],
  )

module _ {p : Platform} (d : Documented p.redis) (a : Reachable p.redis) (r : RedisStore) where
  -- On a documented server that answers every command and shows these values: there is a checkpoint
  -- exactly where the stored header can be read, and then it is its root, or where none is stored
  -- and the variable spells it; a stored header that can not be read is an error, also if the
  -- variable is set. The server shows the same values afterwards.
  pub get_initial_checkpoint-Chosen :
      (parse_b256 : Text → Option B256) (env : Env) (v : Values) (t : Tasks) (w : World p)
      (checkpoint : B256)
      → Shows w v t
      → (((get_initial_checkpoint p r parse_b256 env w).0 ≡ ok checkpoint)
          ↔ Chosen p parse_b256 env
              (parse_reply p p.header_json (v (finalized_header_key p r)))
              checkpoint)
        × Shows (get_initial_checkpoint p r parse_b256 env w).1 v t
  unfolding get_initial_checkpoint
  get_initial_checkpoint-Chosen parse_b256 env v t w checkpoint s =
      let (read, kept) = (Runs-read_finalized_header d a r v t).run w s in
      (rw read (choose_checkpoint-Chosen p r parse_b256 env _ checkpoint), kept)
