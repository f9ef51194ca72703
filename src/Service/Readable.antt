-- ===== src/Service/Readable.antt =====
-- A stored header that can be read, of some slot or a later one.
use sp1_helios.Prelude.{
  ℕ, ◌≤◌, ◌≡◌, refl, sym, ap, ◌∙◌, subst, Option, some, false, ok, Text, text_eq, length, arith,
}
use sp1_helios.Types.{B256, ProofId}
use sp1_helios.Redis.{Platform}
use sp1_helios.Action.{World}
use sp1_helios.Store.{RedisStore, parse_reply, finalized_header_key, proof_state_key}
use sp1_helios.Store.Keys.{state_ne_header}
use sp1_helios.Store.Keeps.{Spares}

module _ (p : Platform) (r : RedisStore) where
  open p use {spec}

  abbrev pub header_value : World p → Option Text
  header_value w = p.redis.lookup w.server (finalized_header_key p r)

  -- The world has a header that can be read, of this slot or a later one.
  pub record StoredFrom (slot : ℕ) (w : World p) : Type 0 where
    pub header : spec.Header
    pub readable : parse_reply p p.header_json (header_value w) ≡ ok (some header)
    pub as_new : slot ≤ spec.beacon_slot header

  -- From a world where the header's value is the same.
  pub StoredFrom-same :
      {slot : ℕ} {w u : World p}
      → header_value u ≡ header_value w
      → StoredFrom slot w
      → StoredFrom slot u
  StoredFrom-same e s = record {
    header = s.header;
    readable = ap (λ o. parse_reply p p.header_json o) e ∙ s.readable;
    as_new = s.as_new;
  }

  pub StoredFrom-earlier :
      {slot earlier : ℕ} {w : World p} → earlier ≤ slot → StoredFrom slot w → StoredFrom earlier w
  StoredFrom-earlier le s = record {
    header = s.header;
    readable = s.readable;
    as_new = omega (arith, le, s.as_new);
  }

  abbrev pub IsHeaderKey : Text → Type 0
  IsHeaderKey j = j ≡ finalized_header_key p r

  pub read_back :
      (latest : spec.Header) (json : Text) (value : Option Text)
      → p.header_json.from_str json ≡ ok latest
      → value ≡ some json
      → parse_reply p p.header_json value ≡ ok (some latest)
  unfolding parse_reply
  read_back latest json value e v = rw (v, parse_reply, e) refl

  pub other_states :
      ((b : B256) → length (p.to_hex b) ≡ 64)
      → (id : ProofId) → Spares IsHeaderKey (proof_state_key p r id)
  other_states digits id j e =
      subst (λ k. text_eq (proof_state_key p r id) k ≡ false) (sym e)
        (state_ne_header p r digits id)
