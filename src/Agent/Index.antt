-- ===== src/Agent/Index.antt =====
-- crates/darcbench-agent/src/index.rs: the index of the runs, with the policy by which runs are deleted.
-- SQLite and the file system are outside: the rows are a list, newest first, and what each removal
-- comes to is an argument. Times are milliseconds.
use darcbench.Base.{
  ℕ, zero, suc, ◌+◌, ◌*◌, Bool, true, false, not, ◌&&◌, ◌||◌, Option, none, some, String, List, [],
  ◌∷◌, ◌++◌, keep, if◌then◌else◌, ltb, leb, nat_beq, ◌==◌, nat_eq, string_eq, option_eq, is_some,
}
use darcbench.Base.Result.{Result, ok, err}
use darcbench.Protocol.Run.{ResultState}
pub mod Spared
pub mod Pruned
pub mod Compare
pub mod Reconcile

pub record IndexedRun : Type 0 where
  pub run_id : String
  pub profile : String
  pub result_state : ResultState
  pub finished_at : ℕ
  pub scoring_model : String
  pub agent_version : String
  pub build_target : String
  -- the digest of the inventory that decides how fast the machine is
  pub environment_digest : String

pub record RetentionPolicy : Type 0 where
  pub older_than_days : Option ℕ
  pub keep_last : Option ℕ

unfoldable pub is_empty : RetentionPolicy → Bool
is_empty p = not (is_some p.older_than_days) && not (is_some p.keep_last)

unfoldable pub selects_everything : RetentionPolicy → Bool
selects_everything p = p.keep_last == some 0 || p.older_than_days == some 0

pub record PruneOutcome : Type 0 where
  pub removed : List String
  pub failed : List (String × String)
  pub retained_as_evidence : List String
  pub bytes_freed : ℕ

abbrev pub nothing_pruned : PruneOutcome
nothing_pruned = record { removed = []; failed = []; retained_as_evidence = []; bytes_freed = 0 }

pub data IndexError : Type 0 where
  partial_view : ℕ → IndexError

-- What `remove_dir_all` comes to.
pub data Removal : Type 0 where
  removed not_found : Removal
  error : String → Removal

-- The rows of the index, and the run directories that are there.
pub record Store : Type 0 where
  pub rows : List IndexedRun
  pub dirs : List String

abbrev pub day_ms : ℕ
day_ms = 86_400_000

abbrev pub is_invalid : ResultState → Bool
is_invalid ResultState.invalid = true
is_invalid _ = false

unfoldable pub without : String → List String → List String
without id dirs = keep (λ (d : String). not (d == id)) dirs

unfoldable pub forget : String → List IndexedRun → List IndexedRun
forget id rows = keep (λ (r : IndexedRun). not (r.run_id == id)) rows

-- What is outside of the program: the clock, the file system, and the errors of the database.
pub record World : Type 0 where
  pub now : ℕ
  pub directory_bytes : String → ℕ
  pub remove_dir : String → Removal
  pub forget_error : String → Option String

module _ (w : World) (policy : RetentionPolicy) (dry_run : Bool) where
  abbrev pub too_old : IndexedRun → Bool
  too_old run = elim (policy.older_than_days) [
    | none ↦ false
    | some days ↦ ltb (run.finished_at + days * day_ms) w.now
  ]

  abbrev pub beyond_window : ℕ → Bool
  beyond_window position = elim (policy.keep_last) [ none ↦ false | some k ↦ leb k position ]

  unfoldable pub is_selected : ℕ × IndexedRun → Bool
  is_selected (position, run) = too_old run || beyond_window position

  unfoldable pub note_removed : String → PruneOutcome × Store → PruneOutcome × Store
  note_removed id (out, s) = (
    record out {
      removed = out.removed ++ (id ∷ []);
      bytes_freed = out.bytes_freed + w.directory_bytes id;
    },
    s,
  )

  unfoldable pub note_failed : String → String → PruneOutcome × Store → PruneOutcome × Store
  note_failed id message (out, s) = (record out { failed = out.failed ++ ((id, message) ∷ []) }, s)

  -- The row, once the directory is gone.
  unfoldable pub drop_row : String → Option String → PruneOutcome × Store → PruneOutcome × Store
  unfolding forget note_failed note_removed
  drop_row id (some message) t = note_failed id message t
  drop_row id none (out, s) = note_removed id (out, record s { rows = forget id s.rows })

  unfoldable pub drop_dir : String → Removal → PruneOutcome × Store → PruneOutcome × Store
  unfolding drop_row without
  drop_dir id (error message) t = note_failed id message t
  drop_dir id removed (out, s) =
      drop_row id (w.forget_error id) (out, record s { dirs = without id s.dirs })
  drop_dir id not_found t = drop_row id (w.forget_error id) t

  unfoldable pub prune_one : IndexedRun → PruneOutcome × Store → PruneOutcome × Store
  unfolding drop_dir
  prune_one run (out, s) =
      if is_invalid run.result_state
      then (record out { retained_as_evidence = out.retained_as_evidence ++ (run.run_id ∷ []) }, s)
      else if dry_run
      then note_removed run.run_id (out, s)
      else drop_dir run.run_id (w.remove_dir run.run_id) (out, s)

  unfoldable pub prune_from : ℕ → List IndexedRun → PruneOutcome × Store → PruneOutcome × Store
  unfolding is_selected prune_one
  prune_from position [] t = t
  prune_from position (run ∷ runs) t =
      prune_from (suc position) runs (if is_selected (position, run) then prune_one run t else t)

  -- The rows that could not be read are only counted.
  unfoldable pub prune : ℕ → Store → Result IndexError PruneOutcome × Store
  unfolding is_empty prune_from
  prune unreadable s =
      let (out, s') = prune_from 0 s.rows (nothing_pruned, s) in
      if is_empty policy
      then (ok nothing_pruned, s)
      else if ltb 0 unreadable
      then (err (partial_view unreadable), s)
      else (ok out, s')
