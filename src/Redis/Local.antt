-- ===== src/Redis/Local.antt =====
-- Views of a server, key by key, that a command of redis_store.rs changes at most at the keys that
-- it writes.
use sp1_helios.Prelude.{
  ℕ, ◌≡◌, refl, ◌∙◌, List, [], ◌∷◌, Option, some, false, Text, text_eq, arith, All, if◌then◌else◌,
}
use sp1_helios.Redis.{Redis, Documented, Reachable, Write, set, set_ex, written}
use sp1_helios.Action.Runs.{reply_of}

-- The key that a command of a pipeline writes.
abbrev pub target : Write → Text
target (set k v) = k
target (set_ex k v n) = k

-- `j` is not the key `k`.
abbrev pub Other : Text → Text → Type 0
Other j k = text_eq k j ≡ false

pub record Local (r : Redis) {B : Type 0} (view : r.Server → Text → B) : Type 0 where
  pub get_keeps : (k : Text) (s : r.Server) (j : Text) → view (r.get k s).1 j ≡ view s j
  pub mget_keeps : (ks : List Text) (s : r.Server) (j : Text) → view (r.mget ks s).1 j ≡ view s j
  pub scan_keeps :
      (c : ℕ) (pattern : Text) (n : ℕ) (s : r.Server) (j : Text)
      → view (r.scan c pattern n s).1 j ≡ view s j
  pub set_ex_keeps :
      (k v : Text) (n : ℕ) (s : r.Server) (j : Text)
      → Other j k
      → view (r.set_ex_value k v n s).1 j ≡ view s j
  pub set_nx_keeps :
      (k v : Text) (n : ℕ) (s : r.Server) (j : Text)
      → Other j k
      → view (r.set_nx_px k v n s).1 j ≡ view s j
  pub pexpire_keeps :
      (k : Text) (n : ℕ) (s : r.Server) (j : Text)
      → Other j k
      → view (r.pexpire k n s).1 j ≡ view s j
  pub del_keeps : (k : Text) (s : r.Server) (j : Text) → Other j k → view (r.del k s).1 j ≡ view s j
  pub exec_keeps :
      (ws : List Write) (s : r.Server) (j : Text)
      → All (λ c. Other j (target c)) ws
      → view (r.exec ws s).1 j ≡ view s j

pub written-Other :
    (j : Text) (m : Text → Option Text) (ws : List Write)
    → All (λ c. Other j (target c)) ws
    → written m ws j ≡ m j
written-Other j m [] h = refl
written-Other j m (set i v ∷ ws) h =
    ground (arith, written-Other j (λ i'. if text_eq i i' then some v else m i') ws h.1, h.0)
written-Other j m (set_ex i v n ∷ ws) h =
    ground (arith, written-Other j (λ i'. if text_eq i i' then some v else m i') ws h.1, h.0)

-- The values of a documented server that answers every command are such a view.
pub Local-lookup : {r : Redis} → Documented r → Reachable r → Local r r.lookup
Local-lookup {r} d a = record {
  get_keeps =
      λ k s j. let (x, e) = reply_of (r.get k s) (a.get_answers k s) in (d.get_ok k s _ x e).1 j;
  mget_keeps = λ ks s j.
      let (x, e) = reply_of (r.mget ks s) (a.mget_answers ks s) in (d.mget_ok ks s _ x e).1 j;
  scan_keeps = λ c pattern n s j.
      let (x, e) = reply_of (r.scan c pattern n s) (a.scan_answers c pattern n s) in
      d.scan_ok c pattern n s _ x e j;
  set_ex_keeps = λ k v n s j other.
      let (x, e) = reply_of (r.set_ex_value k v n s) (a.set_ex_answers k v n s) in
      ground (arith, d.set_ex_ok k v n s _ e j, other);
  set_nx_keeps = λ k v n s j other.
      let (x, e) = reply_of (r.set_nx_px k v n s) (a.set_nx_answers k v n s) in
      ground (arith, (d.set_nx_ok k v n s _ x e).1 j, other);
  pexpire_keeps = λ k n s j other.
      let (x, e) = reply_of (r.pexpire k n s) (a.pexpire_answers k n s) in
      ground (arith, (d.pexpire_ok k n s _ x e).1 j, other);
  del_keeps = λ k s j other.
      let (x, e) = reply_of (r.del k s) (a.del_answers k s) in
      ground (arith, d.del_ok k s _ e j, other);
  exec_keeps = λ ws s j other.
      let (x, e) = reply_of (r.exec ws s) (a.exec_answers ws s) in
      d.exec_ok ws s _ e j ∙ written-Other j (r.lookup s) ws other;
}
