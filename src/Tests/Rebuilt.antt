-- ===== src/Tests/Rebuilt.antt =====
-- An index that is brought into line with a directory.
use darcbench.Base.{◌≡◌, refl, ap, sym, ◌⊎◌, true, false, none, some, String, List, [], ◌∷◌, All}
use darcbench.Protocol.Ids.{run_id_from_str, strip_prefix}
use darcbench.Agent.Index.{IndexedRun}
use darcbench.Agent.Index.Reconcile.{Row, Disk, is_there, on_disk, find_row, reconcile}
use darcbench.Agent.Index.Reconcile.Current.{IsFresh, IsPlaced, reconcile-IsFresh}
use darcbench.Protocol.Run.{ResultState}

abbrev run : String → IndexedRun
run id = record {
  run_id = id;
  profile = "quick";
  result_state = ResultState.validated;
  finished_at = 0;
  scoring_model = "dbs/0.2.0";
  agent_version = "0.1.0";
  build_target = "x86_64-unknown-linux-gnu";
  environment_digest = "sha256:11";
}

abbrev first : String
first = "run_00000000000000000000000000000001"

abbrev second : String
second = "run_00000000000000000000000000000002"

abbrev disk : Disk
disk = record {
  entries = (first, true) ∷ ("notes", true) ∷ (second, false) ∷ [];
  identity = λ id. (100, 7);
  read = λ id. some (run id);
  is_file = λ id. false;
}

abbrev rows : List Row
rows =
    record { run = run first; identity = (90, 7) }
    ∷ record { run = run second; identity = (100, 7) }
    ∷ []

-- The rewritten bundle is read again, and the run without a bundle is forgotten.
rebuilt :
    ((reconcile disk rows).0.indexed ≡ first ∷ [])
    × ((reconcile disk rows).0.forgotten ≡ second ∷ [])
unfolding reconcile find_row run_id_from_str on_disk strip_prefix
rebuilt = (refl, refl)

disk-IsPlaced : IsPlaced disk
disk-IsPlaced id r e = let p : run id ≡ r = cc e in sym (ap (λ (x : IndexedRun). x.run_id) p)

reconcile-IsFresh_example :
    All (λ (r : Row). is_there disk r.run.run_id ≡ true) ((reconcile disk rows).1)
    × All
        (λ (id : String). (disk.read id ≡ none) ⊎ IsFresh disk id ((reconcile disk rows).1))
        (on_disk disk.entries)
reconcile-IsFresh_example = reconcile-IsFresh disk rows disk-IsPlaced
