-- ===== src/Agent/Index/Reconcile.antt =====
-- crates/darcbench-agent/src/index.rs: the rows are brought into line with the bundles on disk. The
-- directory and what its files hold are arguments, and the database answers every query.
use darcbench.Base.{
  ℕ, Bool, true, false, not, ◌&&◌, ◌||◌, Option, none, some, String, List, [], ◌∷◌, ◌++◌, map, keep,
  any, is_nil, if◌then◌else◌, ◌==◌, nat_eq, string_eq, pair_eq,
}
use darcbench.Base.Result.{is_ok}
use darcbench.Base.Text.{codes}
use darcbench.Protocol.Ids.{run_id_from_str}
use darcbench.Agent.Index.{IndexedRun}
pub mod Current

-- A row, with the size and the modification time of the file that it was made from.
pub record Row : Type 0 where
  pub run : IndexedRun
  pub identity : ℕ × ℕ

-- The directory of the runs: its entries, by whether they have a bundle, and the bundles.
pub record Disk : Type 0 where
  pub entries : List (String × Bool)
  pub identity : String → ℕ × ℕ
  pub read : String → Option IndexedRun
  -- the second look, at the end
  pub is_file : String → Bool

pub record ReconcileOutcome : Type 0 where
  pub indexed : List String
  pub forgotten : List String
  pub unreadable : List String

unfoldable pub is_noop : ReconcileOutcome → Bool
is_noop o = is_nil o.indexed && is_nil o.forgotten && is_nil o.unreadable

abbrev pub has : String → List String → Bool
has id = any λ (i : String). i == id

unfoldable pub is_listed : String × Bool → Bool
unfolding run_id_from_str
is_listed (name, has_bundle) = is_ok (run_id_from_str (codes name)) && has_bundle

unfoldable pub on_disk : List (String × Bool) → List String
unfolding is_listed
on_disk entries = map (λ (p : String × Bool). p.0) (keep is_listed entries)

unfoldable pub find_row : String → List Row → Option Row
find_row id [] = none
find_row id (r ∷ rows) = let rest = find_row id rows in if r.run.run_id == id then some r else rest

unfoldable pub forget_row : String → List Row → List Row
forget_row id rows = keep (λ (r : Row). not (r.run.run_id == id)) rows

-- `INSERT OR REPLACE`
unfoldable pub record_row : Row → List Row → List Row
unfolding forget_row
record_row r rows = r ∷ forget_row r.run.run_id rows

-- A row without an identity is stale.
unfoldable pub is_same_file : ℕ × ℕ → Option Row → Bool
is_same_file identity none = false
is_same_file identity (some r) = not (r.identity == (0, 0)) && r.identity == identity

unfoldable pub is_current : Disk → String → List Row → Bool
unfolding is_same_file find_row
is_current d id rows = is_same_file (d.identity id) (find_row id rows)

unfoldable pub index_read :
    Disk → String → Option IndexedRun → ReconcileOutcome × List Row → ReconcileOutcome × List Row
unfolding record_row
index_read d id (some run) (out, rows) = (
  record out { indexed = out.indexed ++ (id ∷ []) },
  record_row (record { run = run; identity = d.identity id }) rows,
)
index_read d id none (out, rows) = (record out { unreadable = out.unreadable ++ (id ∷ []) }, rows)

unfoldable pub index_one : Disk → String → ReconcileOutcome × List Row → ReconcileOutcome × List Row
unfolding index_read is_current
index_one d id (out, rows) =
    if is_current d id rows then (out, rows) else index_read d id (d.read id) (out, rows)

unfoldable pub index_all :
    Disk → List String → ReconcileOutcome × List Row → ReconcileOutcome × List Row
unfolding index_one
index_all d [] t = t
index_all d (id ∷ ids) t = index_all d ids (index_one d id t)

-- A run whose bundle is there at the first or at the second look.
abbrev pub is_there : Disk → String → Bool
is_there d id = has id (on_disk d.entries) || d.is_file id

unfoldable pub forget_unless :
    Bool → String → ReconcileOutcome × List Row → ReconcileOutcome × List Row
unfolding forget_row
forget_unless true id t = t
forget_unless false id (out, rows) =
    (record out { forgotten = out.forgotten ++ (id ∷ []) }, forget_row id rows)

unfoldable pub forget_all :
    Disk → List String → ReconcileOutcome × List Row → ReconcileOutcome × List Row
unfolding forget_unless on_disk
forget_all d [] t = t
forget_all d (id ∷ ids) t = forget_all d ids (forget_unless (is_there d id) id t)

unfoldable pub reconcile : Disk → List Row → ReconcileOutcome × List Row
unfolding on_disk index_all forget_all
reconcile d rows =
    let start : ReconcileOutcome = record { indexed = []; forgotten = []; unreadable = [] } in
    let (out, fresh) = index_all d (on_disk d.entries) (start, rows) in
    forget_all d (map (λ (r : Row). r.run.run_id) fresh) (out, fresh)
