-- ===== src/Redis.antt =====
-- What redis_store.rs uses of a Redis server, of serde_json and of alloy's hashes. They are not
-- part of the source: a server is any state with these commands, and `Documented` says what their
-- replies mean.
pub mod Local
pub mod Expiring
use sp1_helios.Prelude.{
  ℕ, ◌≡◌, List, [], ◌∷◌, Option, none, some, Bool, true, not, ◌&&◌, Result, ok, is_ok, is_some, map,
  ◌==◌, Text, text_eq, if◌then◌else◌,
}
use sp1_helios.Types.{B256, ProofRequest, ProofRequestState}
use sp1_helios.Helios.{Spec}

-- A command of an atomic pipeline.
pub data Write : Type 0 where
  set : Text → Text → Write
  set_ex : Text → Text → ℕ → Write

-- Each command gives its reply, or the client's error, and the server after it. `lookup` is the
-- live value of a key; the source never calls it.
pub record Redis : Type 1 where
  pub Server : Type 0
  pub lookup : Server → Text → Option Text
  pub get : Text → Server → Result Text (Option Text) × Server
  pub mget : List Text → Server → Result Text (List (Option Text)) × Server
  pub set_value : Text → Text → Server → Result Text (Unit {0}) × Server
  pub set_ex_value : Text → Text → ℕ → Server → Result Text (Unit {0}) × Server
  pub set_nx_px : Text → Text → ℕ → Server → Result Text Bool × Server
  pub del : Text → Server → Result Text (Unit {0}) × Server
  pub pexpire : Text → ℕ → Server → Result Text ℕ × Server
  pub scan : ℕ → Text → ℕ → Server → Result Text (ℕ × List Text) × Server
  pub exec : List Write → Server → Result Text (Unit {0}) × Server

abbrev pub written : (Text → Option Text) → List Write → Text → Option Text
written m [] j = m j
written m (set k v ∷ ws) j = written (λ i. if text_eq k i then some v else m i) ws j
written m (set_ex k v n ∷ ws) j = written (λ i. if text_eq k i then some v else m i) ws j

-- The commands as Redis documents them: how each changes the live values. A command is atomic and
-- takes no time; what passes between two of them is not said here. An error reply says nothing of
-- the server.
pub record Documented (r : Redis) : Type 0 where
  pub get_ok :
      (k : Text) (s s' : r.Server) (v : Option Text)
      → r.get k s ≡ (ok v, s')
      → (v ≡ r.lookup s k) × ((j : Text) → r.lookup s' j ≡ r.lookup s j)
  pub set_ex_ok :
      (k v : Text) (n : ℕ) (s s' : r.Server)
      → r.set_ex_value k v n s ≡ (ok tt, s')
      → (j : Text) → r.lookup s' j ≡ (if text_eq k j then some v else r.lookup s j)
  pub set_nx_ok :
      (k v : Text) (n : ℕ) (s s' : r.Server) (b : Bool)
      → r.set_nx_px k v n s ≡ (ok b, s')
      → (b ≡ not (is_some (r.lookup s k)))
        × ((j : Text) → r.lookup s' j ≡ (if b && text_eq k j then some v else r.lookup s j))
  pub del_ok :
      (k : Text) (s s' : r.Server)
      → r.del k s ≡ (ok tt, s')
      → (j : Text) → r.lookup s' j ≡ (if text_eq k j then none else r.lookup s j)
  pub pexpire_ok :
      (k : Text) (n : ℕ) (s s' : r.Server) (c : ℕ)
      → r.pexpire k n s ≡ (ok c, s')
      → (c ≡ (if is_some (r.lookup s k) then 1 else 0))
        × ((j : Text) → r.lookup s' j ≡ (if text_eq k j && (n == 0) then none else r.lookup s j))
  pub mget_ok :
      (ks : List Text) (s s' : r.Server) (vs : List (Option Text))
      → r.mget ks s ≡ (ok vs, s')
      → (vs ≡ map (r.lookup s) ks) × ((j : Text) → r.lookup s' j ≡ r.lookup s j)
  pub scan_ok :
      (c : ℕ) (pattern : Text) (n : ℕ) (s s' : r.Server) (reply : ℕ × List Text)
      → r.scan c pattern n s ≡ (ok reply, s')
      → (j : Text) → r.lookup s' j ≡ r.lookup s j
  pub exec_ok :
      (ws : List Write) (s s' : r.Server)
      → r.exec ws s ≡ (ok tt, s')
      → (j : Text) → r.lookup s' j ≡ written (r.lookup s) ws j

-- The server answers every command, as it does while the connection is up.
pub record Reachable (r : Redis) : Type 0 where
  pub get_answers : (k : Text) (s : r.Server) → is_ok (r.get k s).0 ≡ true
  pub mget_answers : (ks : List Text) (s : r.Server) → is_ok (r.mget ks s).0 ≡ true
  pub set_ex_answers : (k v : Text) (n : ℕ) (s : r.Server) → is_ok (r.set_ex_value k v n s).0 ≡ true
  pub set_nx_answers : (k v : Text) (n : ℕ) (s : r.Server) → is_ok (r.set_nx_px k v n s).0 ≡ true
  pub pexpire_answers : (k : Text) (n : ℕ) (s : r.Server) → is_ok (r.pexpire k n s).0 ≡ true
  pub del_answers : (k : Text) (s : r.Server) → is_ok (r.del k s).0 ≡ true
  pub scan_answers :
      (c : ℕ) (pattern : Text) (n : ℕ) (s : r.Server) → is_ok (r.scan c pattern n s).0 ≡ true
  pub exec_answers : (ws : List Write) (s : r.Server) → is_ok (r.exec ws s).0 ≡ true

-- serde_json's `to_string` and `from_str` at one type.
pub record Json (A : Type 0) : Type 0 where
  pub to_string : A → Result Text Text
  pub from_str : Text → Result Text A

-- The server, the proof output of the backend, and the foreign functions that the store and the
-- service call. `rlp` and `keccak256` make proof ids, `to_hex` prints them.
pub record Platform : Type 1 where
  pub spec : Spec
  pub redis : Redis
  pub ProofOutput : Type 0
  pub header_json : Json spec.Header
  pub state_json : Json (ProofRequestState ProofOutput)
  pub rlp : ProofRequest → Text
  pub keccak256 : Text → B256
  pub to_hex : B256 → Text
  -- how many replies of SCAN are followed: fuel for a loop that the server ends
  pub scan_fuel : ℕ
