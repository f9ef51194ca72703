-- ===== src/Redis/Expiring.antt =====
-- A server on which keys expire: what Redis documents of the time that a key has left, in
-- milliseconds, and of the time that passes between the commands.
use sp1_helios.Prelude.{
  ℕ, ◌-◌, ◌<◌, ◌≡◌, ◌⊎◌, ap, ◌∙◌, subst, Option, some, true, false, not, ok, is_some, Text, text_eq,
  eq_of_text_eq, Bool-cases, inl, inr,
}
use sp1_helios.Redis.{Redis, Documented, Reachable}
use sp1_helios.Redis.Local.{Local, Other}
use sp1_helios.Action.Runs.{reply_of}

-- Commands take no time, and keep the time left of the keys that they do not write. Until its time
-- is up, a key keeps its value. Nothing is said of keys without an expiry.
pub record Expiring (r : Redis) : Type 0 where
  -- the reply of PTTL, if the key expires
  pub remaining : r.Server → Text → Option ℕ
  -- that much time passes
  pub pass : ℕ → r.Server → r.Server
  pub elsewhere : Local r remaining
  pub set_nx_grants :
      (k v : Text) (n : ℕ) (s s' : r.Server)
      → r.set_nx_px k v n s ≡ (ok true, s')
      → remaining s' k ≡ some n
  pub set_nx_refuses :
      (k v : Text) (n : ℕ) (s s' : r.Server)
      → r.set_nx_px k v n s ≡ (ok false, s')
      → remaining s' k ≡ remaining s k
  pub pexpire_grants :
      (k : Text) (n : ℕ) (s s' : r.Server)
      → r.pexpire k n s ≡ (ok 1, s')
      → 0 < n
      → remaining s' k ≡ some n
  pub pass_keeps :
      (n m : ℕ) (s : r.Server) (k : Text)
      → remaining s k ≡ some m
      → n < m
      → r.lookup (pass n s) k ≡ r.lookup s k
  pub pass_takes :
      (n m : ℕ) (s : r.Server) (k : Text)
      → remaining s k ≡ some m
      → n < m
      → remaining (pass n s) k ≡ some (m - n)

module _ {r : Redis} (d : Documented r) (a : Reachable r) (e : Expiring r) where
  -- SET NX leaves the time of the keys that it does not set.
  pub set_nx-remaining :
      (k v : Text) (n : ℕ) (s : r.Server) (j : Text)
      → (is_some (r.lookup s k) ≡ true) ⊎ Other j k
      → e.remaining (r.set_nx_px k v n s).1 j ≡ e.remaining s j
  set_nx-remaining k v n s j (inr other) = e.elsewhere.set_nx_keeps k v n s j other
  set_nx-remaining k v n s j (inl taken) =
      let (b, q) = reply_of (r.set_nx_px k v n s) (a.set_nx_answers k v n s) in
      let refused : b ≡ false = (d.set_nx_ok k v n s _ b q).0 ∙ ap not taken in
      elim (Bool-cases (text_eq k j)) [
        | inr other ↦ e.elsewhere.set_nx_keeps k v n s j other
        | inl same ↦
            subst (λ i. e.remaining (r.set_nx_px k v n s).1 i ≡ e.remaining s i)
              (eq_of_text_eq k j same)
              (e.set_nx_refuses k v n s _
                (subst (λ c. r.set_nx_px k v n s ≡ (ok c, (r.set_nx_px k v n s).1)) refused q))
      ]

  pub set_nx-granted :
      (k v : Text) (n : ℕ) (s : r.Server)
      → is_some (r.lookup s k) ≡ false
      → e.remaining (r.set_nx_px k v n s).1 k ≡ some n
  set_nx-granted k v n s free =
      let (b, q) = reply_of (r.set_nx_px k v n s) (a.set_nx_answers k v n s) in
      let acquired : b ≡ true = (d.set_nx_ok k v n s _ b q).0 ∙ ap not free in
      e.set_nx_grants k v n s _
        (subst (λ c. r.set_nx_px k v n s ≡ (ok c, (r.set_nx_px k v n s).1)) acquired q)
