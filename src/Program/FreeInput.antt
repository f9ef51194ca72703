-- ===== src/Program/FreeInput.antt =====
-- `next_sync_committee` of the input's store is a free input of the guest program.
use sp1_helios.Prelude.{◌≡◌, refl, Option}
use sp1_helios.Helios.{Core}
use sp1_helios.Storage.{Trie}
use sp1_helios.Program.{ProofInputs, main}

module _ (h : Core) where
  open h use {spec, SyncCommittee}

  abbrev pub with_next : ProofInputs spec → Option SyncCommittee → ProofInputs spec
  with_next i c = record i { store = record (i.store) { next_sync_committee = c } }

  -- The result of the program, outputs and panics alike, does not depend on the next sync
  -- committee that the input's store comes with.
  pub main-with_next :
      (t : Trie) (i : ProofInputs spec) (c : Option SyncCommittee)
      → main h t (with_next i c) ≡ main h t i
  unfolding main
  main-with_next t i c = refl
