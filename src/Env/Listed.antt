-- ===== src/Env/Listed.antt =====
-- The variables that list URLs, and what `from_env` and `try_from_env` take from them.
use sp1_helios.Prelude.{
  ℕ, ◌≡◌, ◌≢◌, ◌↔◌, refl, sym, ap, ◌∙◌, List, [], ◌∷◌, ◌++◌, Option, none, some, Bool, ok_or,
  bind-eq-ok, ok_or-eq-ok, subst, parse_u64, true, false, Result, ok, err, Text, codes, split, trim,
  join, is_empty, Spaces, NoSpaces, Lacks, All, All-append, All-map, split-join, trim-padded, map,
  arith, Bool-cases, Result-cases, inl, inr, if◌then◌else◌, is_space, ◌==◌, leb,
}
use sp1_helios.Prelude
use sp1_helios.Helios.{Core}
use sp1_helios.Client.{Client, new}
use sp1_helios.Env.{
  Env, StartError, Network, no_endpoints_panic, non_empty, url_list, source_network, env_config,
  required, invalid, from_env, valid_urls, providers_of, try_from_env, at_least_one,
}

-- An entry of a list as it is written: a URL, or nothing, with spaces around it.
pub record Entry : Type 0 where
  pub before : Text
  pub url : Text
  pub after : Text

abbrev pub spelled : Entry → Text
spelled e = e.before ++ (e.url ++ e.after)

-- Blanks round a URL that has neither blanks nor commas.
abbrev pub IsPlain : Entry → Type 0
IsPlain e = Spaces e.before × NoSpaces e.url × Lacks 44 e.url × Spaces e.after

-- The URLs of the entries that have one.
abbrev pub urls_of : List Entry → List Text
urls_of [] = []
urls_of (e ∷ es) = if is_empty e.url then urls_of es else e.url ∷ urls_of es

space_lacks : (c : ℕ) → is_space c ≡ true → (c == 44) ≡ false
space_lacks c h = ground arith

spelled-Lacks : (e : Entry) → IsPlain e → Lacks 44 (spelled e)
spelled-Lacks e h =
    All-append _ e.before _ (All-map _ _ space_lacks e.before h.0)
      (All-append _ e.url e.after h.2 (All-map _ _ space_lacks e.after h.3))

non_empty-spelled : (es : List Entry) → All IsPlain es → non_empty (map spelled es) ≡ urls_of es
unfolding non_empty
non_empty-spelled [] h = refl
non_empty-spelled (e ∷ es) h =
    rw (trim-padded e.before e.url e.after h.0.0 h.0.1 h.0.3, non_empty-spelled es h.1) refl

All-spelled : (es : List Entry) → All IsPlain es → All (Lacks 44) (map spelled es)
All-spelled [] h = tt
All-spelled (e ∷ es) h = (spelled-Lacks e h.0, All-spelled es h.1)

url_list-join :
    (e : Entry) (es : List Entry)
    → All IsPlain (e ∷ es)
    → url_list (join 44 (map spelled (e ∷ es))) ≡ urls_of (e ∷ es)
unfolding url_list
url_list-join e es h =
    ap non_empty
      (split-join 44 (spelled e) (map spelled es) (spelled-Lacks e h.0) (All-spelled es h.1))
    ∙ non_empty-spelled (e ∷ es) h

at_least_one_iff :
    {A : Type 0} (e : StartError) (xs ys : List A)
    → (at_least_one e xs ≡ ok ys) ↔ ((ys ≡ xs) × (ys ≢ []))
unfolding at_least_one
at_least_one_iff e [] ys = (λ q. absurd (ground arith), λ h. absurd (h.1 h.0))
at_least_one_iff e (x ∷ xs) ys = (λ q. (ground arith, λ r. ground arith), λ h. ap ok (sym h.0))

-- Where `SOURCE_EXECUTION_RPC_URL` is entries joined by commas, each a URL without blanks and
-- commas, or nothing, with blanks around it: the proxy is made exactly when some URL parses, with
-- one provider for each that does, in their order.
pub try_from_env_iff :
    {Url : Type 0} (parse_url : Text → Option Url) (env : Env) (e : Entry) (es : List Entry)
    (providers : List Url)
    → All IsPlain (e ∷ es)
    → env (codes "SOURCE_EXECUTION_RPC_URL") ≡ some (join 44 (map spelled (e ∷ es)))
    → (try_from_env parse_url env ≡ ok providers)
      ↔ ((providers ≡ valid_urls parse_url (urls_of (e ∷ es))) × (providers ≢ []))
unfolding try_from_env
try_from_env_iff parse_url env e es providers h q =
    rw (q, providers_of, url_list-join e es h) (at_least_one_iff _ _ providers)

-- `SOURCE_CHAIN_ID` is a chain id that helios knows, of this network.
abbrev pub Names : {N : Type 0} → (ℕ → Option N) → Env → N → Type 0
Names networks env network =
    (text : Text) × (id : ℕ) × (env (codes "SOURCE_CHAIN_ID") ≡ some text)
    × (parse_u64 text ≡ some id)
    × (networks id ≡ some network)

source_network_iff :
    {N : Type 0} (networks : ℕ → Option N) (env : Env) (network : N)
    → (source_network networks env ≡ ok network) ↔ Names networks env network
unfolding source_network
source_network_iff networks env network = (
  λ e.
      let (text, set, e1) = bind-eq-ok (required env (codes "SOURCE_CHAIN_ID")) _ e in
      let (id, parsed, e2) =
        bind-eq-ok (ok_or (parse_u64 text) (invalid (codes "SOURCE_CHAIN_ID") text)) _ e1 in
      (text, id, ok_or-eq-ok _ _ set, ok_or-eq-ok _ _ parsed, ok_or-eq-ok _ _ e2),
  λ (text, id, set, parsed, known). rw (set, parsed, known) refl,
)

module _ (h : Core) where
  open h use {spec}

  -- The client has the network's chain and forks, checks the age of no checkpoint, holds the default
  -- store, and has no checkpoint.
  pub record Fresh (network : Network spec) (client : Client h) : Type 0 where
    pub genesis_time : client.config.genesis_time ≡ network.genesis_time
    pub genesis_root : client.config.genesis_root ≡ network.genesis_root
    pub forks : client.config.forks ≡ network.forks
    pub not_strict : client.config.strict_checkpoint_age ≡ false
    pub max_age : client.config.max_checkpoint_age ≡ 604800
    pub store : client.store ≡ h.default_store
    pub unchecked : client.last_checkpoint ≡ none

  Fresh-new :
      (network : Network spec) (client : Client h)
      → (client ≡ new h (env_config h network)) ↔ Fresh network client
  unfolding new
  Fresh-new network client = (
    λ e. subst (Fresh network) (sym e) (record {
      genesis_time = refl;
      genesis_root = refl;
      forks = refl;
      not_strict = refl;
      max_age = refl;
      store = refl;
      unchecked = refl;
    }),
    λ f. ground (
      arith, f.genesis_time, f.genesis_root, f.forks, f.not_strict, f.max_age, f.store, f.unchecked,
    ),
  )

  from_env_made :
      (networks : ℕ → Option (Network spec)) (env : Env) (e : Entry) (es : List Entry)
      (client : Client h) (paths : List Text)
      → All IsPlain (e ∷ es)
      → env (codes "CONSENSUS_RPCS_LIST") ≡ some (join 44 (map spelled (e ∷ es)))
      → (from_env h networks env ≡ ok (client, paths)) ↔ (
          (network : Network spec) × (source_network networks env ≡ ok network)
          × (client ≡ new h (env_config h network))
          × (paths ≡ urls_of (e ∷ es))
          × (paths ≢ []))
  unfolding from_env
  from_env_made networks env e es client paths plain q =
      elim (Result-cases (source_network networks env)) [
        | inr (x, r) ↦ (λ g. absurd (ground arith), λ g. absurd (ground (arith, g.1)))
        | inl (network, r) ↦
            let urls = urls_of (e ∷ es) in
            let checked = at_least_one no_endpoints_panic urls in
            let made : from_env h networks env
                ≡ Prelude.◌>>=◌ checked (λ us. ok (new h (env_config h network), us)) =
              rw (from_env, r, q, url_list-join e es plain) refl in
            (
              λ g. elim (Result-cases checked) [
                | inr (x, w) ↦ absurd (ground (arith, made, w))
                | inl (us, w) ↦
                    let (same, some_url) = (at_least_one_iff no_endpoints_panic urls us).0 w in
                    let fst : client ≡ new h (env_config h network) = ground (arith, g, made, w) in
                    let snd : paths ≡ us = ground (arith, g, made, w) in
                    (network, r, fst, snd ∙ same, λ none_left. some_url (sym snd ∙ none_left))
              ],
              λ (network', r', c, us, some_url).
                  let kept : checked ≡ ok paths =
                    (at_least_one_iff no_endpoints_panic urls paths).1 (us, some_url) in
                  let same : network ≡ network' = ground (arith, r, r') in
                  ground (arith, made, kept, c, same),
            )
      ]

  -- Where `CONSENSUS_RPCS_LIST` is entries joined by commas, each a URL without blanks and commas,
  -- or nothing, with blanks around it: the client is made exactly when `SOURCE_CHAIN_ID` is the
  -- number of a chain that helios knows and the list has a URL; it has that network's genesis time,
  -- genesis root and forks, checks no checkpoint's age strictly, allows 604800 seconds, and has the
  -- default store and no checkpoint; and there is an endpoint for each URL, in their order.
  pub from_env_iff :
      (networks : ℕ → Option (Network spec)) (env : Env) (e : Entry) (es : List Entry)
      (client : Client h) (paths : List Text)
      → All IsPlain (e ∷ es)
      → env (codes "CONSENSUS_RPCS_LIST") ≡ some (join 44 (map spelled (e ∷ es)))
      → (from_env h networks env ≡ ok (client, paths)) ↔ (
          (network : Network spec) × Names networks env network
          × Fresh network client
          × (paths ≡ urls_of (e ∷ es))
          × (paths ≢ []))
  from_env_iff networks env e es client paths plain q =
      let made = from_env_made networks env e es client paths plain q in
      (
        λ g.
            let (network, named, config, listed, some_url) = made.0 g in
            (
              network,
              (source_network_iff networks env network).0 named,
              (Fresh-new network client).0 config,
              listed,
              some_url,
            ),
        λ (network, named, config, listed, some_url). made.1 (
          network,
          (source_network_iff networks env network).1 named,
          (Fresh-new network client).1 config,
          listed,
          some_url,
        ),
      )
