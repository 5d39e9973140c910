-- ===== src/Agent/Index/Reconcile/Current.antt =====
-- What the index holds once it is in line with the disk.
use darcbench.Base.{
  ◌≡◌, refl, ap, sym, subst, ◌⊎◌, All, In-All, ◌∙◌, Bool, true, false, not, ◌&&◌, ◌||◌, Option,
  none, some, String, List, [], ◌∷◌, map, keep-In, In, In-any, inl, inr, ◌==◌, nat_eq, string_eq,
  pair_eq, eq_of_beq, beq_of_eq, beq_refl, Bool-cases, Option-cases, arith,
}
use darcbench.Agent.Index.{IndexedRun}
use darcbench.Agent.Index.Reconcile.{
  Row, Disk, ReconcileOutcome, on_disk, find_row, forget_row, record_row, is_same_file, is_current,
  index_read, index_one, index_all, is_there, forget_unless, forget_all, reconcile,
}

abbrev T : Type 0
T = ReconcileOutcome × List Row

abbrev id_of : Row → String
id_of r = r.run.run_id

-- A row for a run, made from the file that is there.
pub record IsFresh (d : Disk) (id : String) (rows : List Row) : Type 0 where
  pub row : Row
  pub found : find_row id rows ≡ some row
  pub identity : row.identity ≡ d.identity id

find_row-forget_row :
    (id j : String) (rows : List Row)
    → (j == id) ≡ false
    → find_row id (forget_row j rows) ≡ find_row id rows
unfolding find_row forget_row
find_row-forget_row id j [] h = refl
find_row-forget_row id j (r ∷ rows) h = elim (Bool-cases (r.run.run_id == j)) [
  | inl e ↦
      let p : r.run.run_id ≡ j = eq_of_beq r.run.run_id j e in
      let q : (r.run.run_id == id) ≡ false = ap (λ i. i == id) p ∙ h in
      rw (e, q) (find_row-forget_row id j rows h)
  | inr e ↦ elim (Bool-cases (r.run.run_id == id)) [
    | inl q ↦ rw (e, q) refl
    | inr q ↦ rw (e, q) (find_row-forget_row id j rows h)
  ]
]

In-forget_unless :
    (b : Bool) (id : String) (t : T) (r : Row) → In r ((forget_unless b id t).1) → In r (t.1)
unfolding forget_unless forget_row
In-forget_unless true id t r h = h
In-forget_unless false id (out, rows) r h =
    ((keep-In (λ (s : Row). not (s.run.run_id == id)) rows r).0 h).0

spared :
    (b : Bool) (id : String) (t : T) (r : Row)
    → id_of r ≡ id
    → In r ((forget_unless b id t).1)
    → b ≡ true
unfolding forget_unless forget_row
spared true id t r e h = refl
spared false id (out, rows) r e h =
    let k = (keep-In (λ (s : Row). not (s.run.run_id == id)) rows r).0 h in
    absurd (cc (k.1, beq_of_eq r.run.run_id id e))

In-forget_all :
    (d : Disk) (ids : List String) (t : T) (r : Row) → In r ((forget_all d ids t).1) → In r (t.1)
unfolding forget_all
In-forget_all d [] t r h = h
In-forget_all d (id ∷ ids) t r h =
    In-forget_unless (is_there d id) id t r
      (In-forget_all d ids (forget_unless (is_there d id) id t) r h)

-- A row that is left after the last pass is of a run whose bundle is there.
there-forget_all :
    (d : Disk) (ids : List String) (t : T) (r : Row)
    → In (id_of r) ids
    → In r ((forget_all d ids t).1)
    → is_there d (id_of r) ≡ true
unfolding forget_all
there-forget_all d [] t r i h = absurd i
there-forget_all d (id ∷ ids) t r (inr i) h =
    there-forget_all d ids (forget_unless (is_there d id) id t) r i h
there-forget_all d (id ∷ ids) t r (inl i) h =
    ap (is_there d) i
    ∙ spared (is_there d id) id t r i (In-forget_all d ids (forget_unless (is_there d id) id t) r h)

IsFresh-forget_unless :
    (d : Disk) (b : Bool) (id j : String) (t : T)
    → ((j == id) && not b) ≡ false
    → IsFresh d id (t.1)
    → IsFresh d id ((forget_unless b j t).1)
unfolding forget_unless
IsFresh-forget_unless d true id j t n h = h
IsFresh-forget_unless d false id j (out, rows) n h = record {
  row = h.row;
  found = find_row-forget_row id j rows (ground arith) ∙ h.found;
  identity = h.identity;
}

other :
    (d : Disk) (id j : String) → is_there d id ≡ true → ((j == id) && not (is_there d j)) ≡ false
other d id j h = elim (Bool-cases (j == id)) [
  | inr e ↦ rw e refl
  | inl e ↦ rw (e, ap (is_there d) (eq_of_beq j id e) ∙ h) refl
]

IsFresh-forget_all :
    (d : Disk) (id : String) (ids : List String) (t : T)
    → is_there d id ≡ true
    → IsFresh d id (t.1)
    → IsFresh d id ((forget_all d ids t).1)
unfolding forget_all
IsFresh-forget_all d id [] t l h = h
IsFresh-forget_all d id (j ∷ ids) t l h =
    IsFresh-forget_all d id ids (forget_unless (is_there d j) j t) l
      (IsFresh-forget_unless d (is_there d j) id j t (other d id j l) h)

IsFresh-record_row :
    (d : Disk) (id j : String) (run : IndexedRun) (rows : List Row)
    → run.run_id ≡ j
    → IsFresh d id rows
    → IsFresh d id (record_row (record { run = run; identity = d.identity j }) rows)
unfolding record_row find_row
IsFresh-record_row d id j run rows p h = elim (Bool-cases (run.run_id == id)) [
  | inl e ↦ record {
    row = record { run = run; identity = d.identity j };
    found = rw e refl;
    identity = ap d.identity (sym p ∙ eq_of_beq run.run_id id e);
  }
  | inr e ↦ record {
    row = h.row;
    found = rw e (find_row-forget_row id run.run_id rows e ∙ h.found);
    identity = h.identity;
  }
]

record_row-IsFresh :
    (d : Disk) (id : String) (run : IndexedRun) (rows : List Row)
    → run.run_id ≡ id
    → IsFresh d id (record_row (record { run = run; identity = d.identity id }) rows)
unfolding record_row find_row
record_row-IsFresh d id run rows p = record {
  row = record { run = run; identity = d.identity id };
  found = rw (beq_of_eq run.run_id id p) refl;
  identity = refl;
}

IsFresh-is_current :
    (d : Disk) (id : String) (rows : List Row) → is_current d id rows ≡ true → IsFresh d id rows
unfolding is_current is_same_file
IsFresh-is_current d id rows h = elim (Option-cases (find_row id rows)) [
  | inl e ↦ absurd (cc (rw e at h))
  | inr (r, e) ↦
      let q : (not (r.identity == (0, 0)) && r.identity == d.identity id) ≡ true = rw e at h in
      record { row = r; found = e; identity = eq_of_beq r.identity (d.identity id) (ground arith) }
]

-- Each bundle that can be read is of the run whose directory it is in.
abbrev pub IsPlaced : Disk → Type 0
IsPlaced d = (id : String) (run : IndexedRun) → d.read id ≡ some run → run.run_id ≡ id

IsFresh-index_read :
    (d : Disk) (id j : String) (o : Option IndexedRun) (t : T)
    → IsPlaced d
    → d.read j ≡ o
    → IsFresh d id (t.1)
    → IsFresh d id ((index_read d j o t).1)
unfolding index_read
IsFresh-index_read d id j (some run) (out, rows) p e h =
    IsFresh-record_row d id j run rows (p j run e) h
IsFresh-index_read d id j none (out, rows) p e h = h

IsFresh-index_one :
    (d : Disk) (id j : String) (t : T)
    → IsPlaced d
    → IsFresh d id (t.1)
    → IsFresh d id ((index_one d j t).1)
unfolding index_one
IsFresh-index_one d id j (out, rows) p h = elim (Bool-cases (is_current d j rows)) [
  | inl e ↦ rw e h
  | inr e ↦ rw e (IsFresh-index_read d id j (d.read j) (out, rows) p refl h)
]

index_one-IsFresh :
    (d : Disk) (id : String) (run : IndexedRun) (t : T)
    → IsPlaced d
    → d.read id ≡ some run
    → IsFresh d id ((index_one d id t).1)
unfolding index_one index_read
index_one-IsFresh d id run (out, rows) p e = elim (Bool-cases (is_current d id rows)) [
  | inl c ↦ rw c (IsFresh-is_current d id rows c)
  | inr c ↦ rw (c, e) (record_row-IsFresh d id run rows (p id run e))
]

IsFresh-index_all :
    (d : Disk) (id : String) (ids : List String) (t : T)
    → IsPlaced d
    → IsFresh d id (t.1)
    → IsFresh d id ((index_all d ids t).1)
unfolding index_all
IsFresh-index_all d id [] t p h = h
IsFresh-index_all d id (j ∷ ids) t p h =
    IsFresh-index_all d id ids (index_one d j t) p (IsFresh-index_one d id j t p h)

index_all-IsFresh :
    (d : Disk) (id : String) (run : IndexedRun) (ids : List String) (t : T)
    → IsPlaced d
    → d.read id ≡ some run
    → In id ids
    → IsFresh d id ((index_all d ids t).1)
unfolding index_all
index_all-IsFresh d id run [] t p e i = absurd i
index_all-IsFresh d id run (j ∷ ids) t p e (inr i) =
    index_all-IsFresh d id run ids (index_one d j t) p e i
index_all-IsFresh d id run (j ∷ ids) t p e (inl i) =
    IsFresh-index_all d id ids (index_one d j t) p
      (subst (λ k. IsFresh d id ((index_one d k t).1)) i (index_one-IsFresh d id run t p e))

In-ids : (rows : List Row) (r : Row) → In r rows → In (id_of r) (map id_of rows)
In-ids (x ∷ rows) r (inl e) = inl (ap id_of e)
In-ids (x ∷ rows) r (inr i) = inr (In-ids rows r i)
In-ids [] r i = absurd i

-- Whatever the index held, once it has been brought into line each of its rows is of a run whose bundle
-- is on disk, at the first look or at the second, and each run that was found on disk either has a
-- bundle that cannot be read or has a row, made from a file of the size and the modification time of
-- the one that is there. Each bundle is taken to be in the directory of its own run.
pub reconcile-IsFresh :
    (d : Disk) (rows : List Row)
    → IsPlaced d
    → All (λ (r : Row). is_there d r.run.run_id ≡ true) ((reconcile d rows).1)
      × All
          (λ (id : String). (d.read id ≡ none) ⊎ IsFresh d id ((reconcile d rows).1))
          (on_disk d.entries)
unfolding reconcile
reconcile-IsFresh d rows p =
    let start : ReconcileOutcome = record { indexed = []; forgotten = []; unreadable = [] } in
    let t = index_all d (on_disk d.entries) (start, rows) in
    let ids = map id_of (t.1) in
    (
      In-All (λ (r : Row). is_there d r.run.run_id ≡ true) _
          (λ r m. there-forget_all d ids t r (In-ids (t.1) r (In-forget_all d ids t r m)) m),
      In-All (λ (id : String). (d.read id ≡ none) ⊎ IsFresh d id ((reconcile d rows).1)) _
          (λ id m. elim (Option-cases (d.read id)) [
            | inl e ↦ inl e
            | inr (run, e) ↦ inr (
                IsFresh-forget_all d id ids t (listed d id m)
                  (index_all-IsFresh d id run (on_disk d.entries) (start, rows) p e m))
          ]),
    )
  where
    listed : (d : Disk) (id : String) → In id (on_disk d.entries) → is_there d id ≡ true
    listed d id m =
        ap (λ b. b || d.is_file id)
          (In-any (λ (i : String). i == id) (on_disk d.entries) id m (beq_refl id))
