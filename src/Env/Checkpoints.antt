-- ===== src/Env/Checkpoints.antt =====
-- `get_block` of zk-api/src/consensus_client/mod.rs, and `try_get_latest_checkpoint` and
-- `try_get_checkpoint` of zk-api/src/lib.rs. helios' checkpoint services, and what the endpoints
-- answer, are parameters.
use sp1_helios.Prelude.{
  ℕ, ◌≡◌, ◌↔◌, ◌⊎◌, refl, sym, ap, ◌∙◌, List, [], ◌∷◌, ◌++◌, Option, none, some, Bool, true, false,
  Result, ok, err, ok_or, map_err, map, Text, All, arith, Option-cases, Result-cases, Bool-cases,
  inl, inr, if◌then◌else◌, subst, ok_inj, bind-eq-ok,
}
use sp1_helios.Prelude
use sp1_helios.Types.{B256}
use sp1_helios.Helios.{Core}
use sp1_helios.Client.{Client}
use sp1_helios.Env.{
  Env, StartError, Network, source_network, from_env, checkpoint_service, block_not_fetched,
  no_endpoints_panic,
}

-- What an endpoint answers when it is asked for a block, and whether it does within 5 seconds.
pub record Fetched (Block : Type 0) : Type 0 where
  pub answer : Result Text Block
  pub in_time : Bool

module _ {Block : Type 0} where
  -- `res.ok().and_then(Result::ok)` on an answer with a timeout.
  unfoldable pub timely : Fetched Block → Option Block
  timely f = if f.in_time then (elim f.answer [ ok block ↦ some block | err e ↦ none ]) else none

  unfoldable pub first_success : List (Fetched Block) → Option Block
  first_success [] = none
  first_success (f ∷ fs) =
      let rest = first_success fs in elim (timely f) [ some block ↦ some block | none ↦ rest ]

  -- The first endpoint is asked alone and without a timeout; that there is none panics.
  unfoldable pub get_block : ℕ → List (Fetched Block) → Result StartError Block
  unfolding first_success
  get_block slot [] = err no_endpoints_panic
  get_block slot (primary ∷ backups) = elim primary.answer [
    | ok block ↦ ok block
    | err e ↦ ok_or (first_success backups) (block_not_fetched slot)
  ]

-- The latest checkpoint of the network, from the services that helios knows.
unfoldable pub try_get_latest_checkpoint :
    {N : Type 0} {S : Type 0}
    → Result Text S
    → (S → N → Result Text B256)
    → (ℕ → Option N)
    → Env
    → Result StartError B256
unfolding source_network
try_get_latest_checkpoint services fetch_latest_checkpoint from_chain_id env =
    Prelude.◌>>=◌ (map_err checkpoint_service services) λ cf.
      Prelude.◌>>=◌ (source_network from_chain_id env)
        λ network. map_err checkpoint_service (fetch_latest_checkpoint cf network)

-- The root of the block at a slot, from the endpoints of the environment.
unfoldable pub try_get_checkpoint :
    (h : Core) {Block : Type 0}
    → (Block → B256)
    → (ℕ → Option (Network h.spec))
    → (Text → Fetched Block)
    → Env
    → ℕ
    → Result StartError B256
unfolding from_env get_block
try_get_checkpoint h block_root networks fetch env slot =
    Prelude.◌>>=◌ (from_env h networks env) λ created.
      Prelude.◌>>=◌ (get_block slot (map fetch (created.1))) λ block. ok (block_root block)

-- The endpoint answered too late, or with an error.
abbrev pub Missed : {Block : Type 0} → Fetched Block → Type 0
Missed f = (f.in_time ≡ false) ⊎ ((e : Text) × (f.answer ≡ err e))

-- The block is the first that came in time, in the endpoints' order.
pub record Earliest {Block : Type 0} (fs : List (Fetched Block)) (block : Block) : Type 0 where
  pub before : List (Fetched Block)
  pub chosen : Fetched Block
  pub after : List (Fetched Block)
  pub ordered : fs ≡ before ++ chosen ∷ after
  pub missed : All Missed before
  pub in_time : chosen.in_time ≡ true
  pub came : chosen.answer ≡ ok block

timely-none : {Block : Type 0} (f : Fetched Block) → (timely f ≡ none) ↔ Missed f
unfolding timely
timely-none f = elim (Bool-cases f.in_time) [
  | inr late ↦ (λ e. inl late, λ m. ground (arith, late))
  | inl early ↦ elim (Result-cases f.answer) [
    | inl (b, q) ↦ (
      λ e. absurd (ground (arith, e)),
      λ m. elim m [
        | inl late ↦ absurd (ground (arith, late))
        | inr (x, w) ↦ absurd (ground (arith, w))
      ],
    )
    | inr (x, q) ↦ (λ e. inr (x, q), λ m. ground arith)
  ]
]

timely-some :
    {Block : Type 0} (f : Fetched Block) (block : Block)
    → (timely f ≡ some block) ↔ ((f.in_time ≡ true) × (f.answer ≡ ok block))
unfolding timely
timely-some f block = elim (Bool-cases f.in_time) [
  | inr late ↦ (λ e. absurd (ground (arith, e)), λ m. absurd (ground (arith, m.0)))
  | inl early ↦ elim (Result-cases f.answer) [
    | inl (b, q) ↦ (λ e. (early, ground (arith, e)), λ m. ground (arith, m.1))
    | inr (x, q) ↦ (λ e. absurd (ground (arith, e)), λ m. absurd (ground (arith, m.1)))
  ]
]

first_success-Earliest :
    {Block : Type 0} (fs : List (Fetched Block)) (block : Block)
    → first_success fs ≡ some block
    → Earliest fs block
unfolding first_success
first_success-Earliest [] block e = absurd (ground arith)
first_success-Earliest (f ∷ fs) block e = elim (Option-cases (timely f)) [
  | inr (b, q) ↦ record {
    before = [];
    chosen = f;
    after = fs;
    ordered = refl;
    missed = tt;
    in_time = ((timely-some f block).0 (q ∙ (rw (q, first_success) at e))).0;
    came = ((timely-some f block).0 (q ∙ (rw (q, first_success) at e))).1;
  }
  | inl q ↦
      let later = first_success-Earliest fs block (rw (q, first_success) at e) in
      record {
        before = f ∷ later.before;
        chosen = later.chosen;
        after = later.after;
        ordered = ap (λ rest. f ∷ rest) later.ordered;
        missed = ((timely-none f).0 q, later.missed);
        in_time = later.in_time;
        came = later.came;
      }
]

first_success-skips :
    {Block : Type 0} (before : List (Fetched Block)) (chosen : Fetched Block)
    (after : List (Fetched Block)) (block : Block)
    → All Missed before
    → timely chosen ≡ some block
    → first_success (before ++ chosen ∷ after) ≡ some block
unfolding first_success
first_success-skips [] chosen after block missed came = rw (came, first_success) refl
first_success-skips (f ∷ fs) chosen after block missed came =
    rw ((timely-none f).1 missed.0, first_success)
      (first_success-skips fs chosen after block missed.1 came)

first_success_iff :
    {Block : Type 0} (fs : List (Fetched Block)) (block : Block)
    → (first_success fs ≡ some block) ↔ Earliest fs block
first_success_iff fs block = (
  first_success-Earliest fs block,
  λ x.
      ap first_success x.ordered
      ∙ first_success-skips x.before x.chosen x.after block x.missed
          ((timely-some x.chosen block).1 (x.in_time, x.came)),
)

-- Where the block of a slot comes from: the first endpoint, however late it answers, or, if it
-- fails, the earliest of the others.
unfoldable pub Serves : {Block : Type 0} → List (Fetched Block) → Block → Type 0
Serves [] block = ⊥
Serves (primary ∷ backups) block =
    (primary.answer ≡ ok block) ⊎ ((e : Text) × (primary.answer ≡ err e) × Earliest backups block)

get_block_iff :
    {Block : Type 0} (slot : ℕ) (fs : List (Fetched Block)) (block : Block)
    → (get_block slot fs ≡ ok block) ↔ Serves fs block
unfolding get_block Serves
get_block_iff slot [] block = (λ e. absurd (ground arith), λ x. absurd x)
get_block_iff slot (f ∷ fs) block = elim (Result-cases f.answer) [
  | inl (b, q) ↦ rw q (
    λ e. inl (ap ok (ok_inj e)),
    λ x. elim x [ inl e ↦ ap ok (ok_inj e) | inr (x', e, _) ↦ absurd (ground (arith, e)) ],
  )
  | inr (x, q) ↦ rw q (
    λ e. inr (x, refl, (first_success_iff fs block).0 (ground (arith, e))),
    λ y. elim y [
      | inl e ↦ absurd (ground (arith, e))
      | inr (x', e, early) ↦ rw ((first_success_iff fs block).1 early) refl
    ],
  )
]

-- There is a checkpoint exactly where the client can be made from the environment and its endpoints
-- serve the block: the first of the list, however late it answers, or, if it fails, the earliest in
-- the list that answers in time. The checkpoint is the block's root.
pub try_get_checkpoint_iff :
    (h : Core) {Block : Type 0} (block_root : Block → B256) (networks : ℕ → Option (Network h.spec))
    (fetch : Text → Fetched Block) (env : Env) (slot : ℕ) (root : B256)
    → (try_get_checkpoint h block_root networks fetch env slot ≡ ok root) ↔ (
        (client : Client h) × (paths : List Text) × (from_env h networks env ≡ ok (client, paths))
        × (block : Block) × Serves (map fetch paths) block
        × (root ≡ block_root block))
unfolding try_get_checkpoint
try_get_checkpoint_iff h block_root networks fetch env slot root =
    elim (Result-cases (from_env h networks env)) [
      | inr (x, r) ↦ (λ e. absurd (ground arith), λ g. absurd (ground (arith, g.2)))
      | inl ((client, paths), r) ↦ rw r (
        λ e.
            let (block, got, last) = bind-eq-ok (get_block slot (map fetch paths)) _ e in
            (client, paths, refl, block, (get_block_iff slot _ block).0 got, sym (ok_inj last)),
        λ (client', paths', made, block, serves, same).
            let agree : paths ≡ paths' = ap (λ (c : Client h × List Text). c.1) (ok_inj made) in
            let got : get_block slot (map fetch paths) ≡ ok block =
              (get_block_iff slot _ block).1
                (subst (λ ps. Serves (map fetch ps) block) (sym agree) serves) in
            rw got (ap ok (sym same)),
      )
    ]
