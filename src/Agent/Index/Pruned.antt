-- ===== src/Agent/Index/Pruned.antt =====
-- What a pruning deletes, keeps and reports.
use darcbench.Base.{
  ℕ, suc, ◌+◌, ◌≡◌, refl, ap, append_one, append_nil, keep_all, In-All, sym, subst, ◌∙◌, Bool, true,
  false, not, ◌&&◌, ◌||◌, ◌*◌, ltb, leb, Option, none, some, String, List, [], ◌∷◌, ◌++◌, keep, All,
  if◌then◌else◌, string_eq, Bool-cases, inl, inr, arith,
}
use darcbench.Base.Result.{ok, err}
use darcbench.Agent.Index.{
  IndexedRun, RetentionPolicy, is_empty, PruneOutcome, nothing_pruned, partial_view, Removal,
  removed, not_found, error, Store, World, is_invalid, is_selected, without, forget, note_removed,
  note_failed, drop_row, drop_dir, prune_one, prune_from, prune,
}
use darcbench.Agent.Index.Spared.{
  has_id, if_yes, if_no, gone, stuck, gone_snoc, stuck_snoc, bytes_of, bytes_snoc, forget-keep,
  Spared, Spared-more, Spared-without,
}

module _ (w : World) (policy : RetentionPolicy) (dry_run : Bool) where
  -- A run that finished more days ago than the policy keeps, or that stands, newest first, after as
  -- many others as it keeps.
  abbrev pub is_due : ℕ → IndexedRun → Bool
  is_due position run =
      (elim (policy.older_than_days) [
        | none ↦ false
        | some days ↦ ltb (run.finished_at + days * 86_400_000) w.now
      ])
      || (elim (policy.keep_last) [ none ↦ false | some k ↦ leb k position ])

  -- What stands against the removal of a run: the error of its directory, or that of its row.
  abbrev pub fate : String → Option String
  fate id = if dry_run then none else elim (w.remove_dir id) [
    | error m ↦ some m
    | removed ↦ w.forget_error id
    | not_found ↦ w.forget_error id
  ]

  -- The ids that are due from a position on, by whether their result is invalid.
  abbrev pub selected_ids : Bool → ℕ → List IndexedRun → List String
  selected_ids b position [] = []
  selected_ids b position (run ∷ runs) =
      let rest = selected_ids b (suc position) runs in
      if is_due position run
        && (if b then is_invalid run.result_state else not (is_invalid run.result_state))
      then run.run_id ∷ rest
      else rest

  abbrev one : IndexedRun → PruneOutcome × Store → PruneOutcome × Store
  one = prune_one w policy dry_run

  module _ (s0 : Store) where
    -- What holds once the runs of the lists have been selected: those that may go, and the evidence.
    pub record IsState (P E : List String) (t : PruneOutcome × Store) : Type 0 where
      pub retained : t.0.retained_as_evidence ≡ E
      pub rows :
          t.1.rows ≡ (if dry_run then s0.rows else keep (λ r. not (has_id t.0.removed r)) s0.rows)
      pub removed : t.0.removed ≡ gone fate P
      pub failed : t.0.failed ≡ stuck fate P
      pub freed : t.0.bytes_freed ≡ bytes_of w.directory_bytes t.0.removed
      pub dirs : All (Spared P t.1.dirs) s0.dirs

    failed-IsState :
        (P E : List String) (id m : String) (out : PruneOutcome) (s : Store)
        → fate id ≡ some m
        → IsState P E (out, s)
        → IsState (P ++ (id ∷ [])) E (note_failed w policy dry_run id m (out, s))
    unfolding note_failed
    failed-IsState P E id m out s q h = record {
      retained = h.retained;
      rows = h.rows;
      removed = h.removed ∙ sym (gone_snoc fate P id (some m) q ∙ append_nil (gone fate P));
      failed = ap (λ l. l ++ ((id, m) ∷ [])) h.failed ∙ sym (stuck_snoc fate P id (some m) q);
      freed = h.freed;
      dirs = Spared-more P s.dirs s0.dirs id h.dirs;
    }

    dry-IsState :
        (P E : List String) (id : String) (out : PruneOutcome) (s : Store)
        → dry_run ≡ true
        → IsState P E (out, s)
        → IsState (P ++ (id ∷ [])) E (note_removed w policy dry_run id (out, s))
    unfolding note_removed
    dry-IsState P E id out s e h =
        let q : fate id ≡ none = rw e refl in
        record {
          retained = h.retained;
          rows = h.rows ∙ rw e refl;
          removed = ap (λ l. l ++ (id ∷ [])) h.removed ∙ sym (gone_snoc fate P id none q);
          failed = h.failed ∙ sym (stuck_snoc fate P id none q ∙ append_nil (stuck fate P));
          freed =
              ap (λ n. n + w.directory_bytes id) h.freed
              ∙ sym (bytes_snoc w.directory_bytes out.removed id);
          dirs = Spared-more P s.dirs s0.dirs id h.dirs;
        }

    -- With the directory gone, or not there.
    row-IsState :
        (P E : List String) (id : String) (o : Option String) (out : PruneOutcome) (s : Store)
        (ds : List String)
        → dry_run ≡ false
        → fate id ≡ o
        → All (Spared (P ++ (id ∷ [])) ds) s0.dirs
        → IsState P E (out, s)
        → IsState (P ++ (id ∷ [])) E (drop_row w policy dry_run id o (out, record s { dirs = ds }))
    unfolding drop_row note_failed note_removed
    row-IsState P E id (some m) out s ds e q g h = record {
      retained = h.retained;
      rows = h.rows;
      removed = h.removed ∙ sym (gone_snoc fate P id (some m) q ∙ append_nil (gone fate P));
      failed = ap (λ l. l ++ ((id, m) ∷ [])) h.failed ∙ sym (stuck_snoc fate P id (some m) q);
      freed = h.freed;
      dirs = g;
    }
    row-IsState P E id none out s ds e q g h = record {
      retained = h.retained;
      rows = ap (forget id) (h.rows ∙ rw e refl) ∙ forget-keep id out.removed s0.rows ∙ rw e refl;
      removed = ap (λ l. l ++ (id ∷ [])) h.removed ∙ sym (gone_snoc fate P id none q);
      failed = h.failed ∙ sym (stuck_snoc fate P id none q ∙ append_nil (stuck fate P));
      freed =
          ap (λ n. n + w.directory_bytes id) h.freed
          ∙ sym (bytes_snoc w.directory_bytes out.removed id);
      dirs = g;
    }

    dir-IsState :
        (P E : List String) (id : String) (r : Removal) (out : PruneOutcome) (s : Store)
        → dry_run ≡ false
        → w.remove_dir id ≡ r
        → IsState P E (out, s)
        → IsState (P ++ (id ∷ [])) E (drop_dir w policy dry_run id r (out, s))
    unfolding drop_dir
    dir-IsState P E id (error m) out s e q h = failed-IsState P E id m out s (rw (e, q) refl) h
    dir-IsState P E id removed out s e q h =
        row-IsState P E id (w.forget_error id) out s (without id s.dirs) e (rw (e, q) refl)
          (Spared-without P s.dirs s0.dirs id h.dirs) h
    dir-IsState P E id not_found out s e q h =
        row-IsState P E id (w.forget_error id) out s s.dirs e (rw (e, q) refl)
          (Spared-more P s.dirs s0.dirs id h.dirs) h

    evidence-IsState :
        (P E : List String) (run : IndexedRun) (out : PruneOutcome) (s : Store)
        → is_invalid run.result_state ≡ true
        → IsState P E (out, s)
        → IsState P (E ++ (run.run_id ∷ [])) (prune_one w policy dry_run run (out, s))
    unfolding prune_one
    evidence-IsState P E run out s e h = rw e (record {
      retained = ap (λ l. l ++ (run.run_id ∷ [])) h.retained;
      rows = h.rows;
      removed = h.removed;
      failed = h.failed;
      freed = h.freed;
      dirs = h.dirs;
    })

    prune_lem :
        (run : IndexedRun) (out : PruneOutcome) (s : Store)
        → is_invalid run.result_state ≡ false
        → prune_one w policy dry_run run (out, s) ≡ (
            if dry_run
            then note_removed w policy dry_run run.run_id (out, s)
            else drop_dir w policy dry_run run.run_id (w.remove_dir run.run_id) (out, s))
    unfolding prune_one
    prune_lem run out s e = rw e refl

    pruned-IsState :
        (P E : List String) (run : IndexedRun) (out : PruneOutcome) (s : Store)
        → is_invalid run.result_state ≡ false
        → IsState P E (out, s)
        → IsState (P ++ (run.run_id ∷ [])) E (prune_one w policy dry_run run (out, s))
    pruned-IsState P E run out s e h =
        subst (λ t. IsState (P ++ (run.run_id ∷ [])) E t) (sym (prune_lem run out s e))
          (elim (Bool-cases dry_run) [
            | inl d ↦
                subst (λ t. IsState (P ++ (run.run_id ∷ [])) E t) (sym (if_yes _ _ d))
                  (dry-IsState P E run.run_id out s d h)
            | inr d ↦
                subst (λ t. IsState (P ++ (run.run_id ∷ [])) E t) (sym (if_no _ _ d))
                  (dir-IsState P E run.run_id (w.remove_dir run.run_id) out s d refl h)
          ])

    same-IsState :
        (P P' E E' : List String) (t t' : PruneOutcome × Store)
        → P ≡ P'
        → E ≡ E'
        → t ≡ t'
        → IsState P E t
        → IsState P' E' t'
    same-IsState P P' E E' t t' p e q h =
        subst (λ x. IsState P' E' x) q
          (subst (λ x. IsState P' x t) e (subst (λ x. IsState x E t) p h))

    from-IsState :
        (runs : List IndexedRun) (position : ℕ) (P E : List String) (t : PruneOutcome × Store)
        → IsState P E t
        → IsState
            (P ++ selected_ids false position runs)
            (E ++ selected_ids true position runs)
            (prune_from w policy dry_run position runs t)
    unfolding prune_from is_selected
    from-IsState [] position P E t h =
        same-IsState P (P ++ []) E (E ++ []) t t (sym (append_nil P)) (sym (append_nil E)) refl h
    from-IsState (run ∷ runs) position P E (out, s) h =
        let ps = selected_ids false (suc position) runs in
        let es = selected_ids true (suc position) runs in
        elim (Bool-cases (is_selected w policy dry_run (position, run))) [
          | inr n ↦
              same-IsState (P ++ ps) _ (E ++ es) _
                (prune_from w policy dry_run (suc position) runs (out, s)) _
                (ap (λ l. P ++ l) (ground arith)) (ap (λ l. E ++ l) (ground arith))
                (ap (prune_from w policy dry_run (suc position) runs) (sym (if_no _ _ n)))
                (from-IsState runs (suc position) P E (out, s) h)
          | inl y ↦ elim (Bool-cases (is_invalid run.result_state)) [
            | inl i ↦
                same-IsState (P ++ ps) _ ((E ++ (run.run_id ∷ [])) ++ es) _
                  (prune_from w policy dry_run (suc position) runs (one run (out, s))) _
                  (ap (λ l. P ++ l) (ground arith))
                  (append_one E es run.run_id ∙ ap (λ l. E ++ l) (ground arith))
                  (ap (prune_from w policy dry_run (suc position) runs) (sym (if_yes _ _ y)))
                  (from-IsState runs (suc position) P (E ++ (run.run_id ∷ [])) (one run (out, s))
                    (evidence-IsState P E run out s i h))
            | inr i ↦
                same-IsState ((P ++ (run.run_id ∷ [])) ++ ps) _ (E ++ es) _
                  (prune_from w policy dry_run (suc position) runs (one run (out, s))) _
                  (append_one P ps run.run_id ∙ ap (λ l. P ++ l) (ground arith))
                  (ap (λ l. E ++ l) (ground arith))
                  (ap (prune_from w policy dry_run (suc position) runs) (sym (if_yes _ _ y)))
                  (from-IsState runs (suc position) (P ++ (run.run_id ∷ [])) E (one run (out, s))
                    (pruned-IsState P E run out s i h))
          ]
        ]

    -- A pruning with a policy deletes nothing while a row of the index cannot be read. Otherwise it
    -- ends with an outcome. Of the runs that are too old or beyond the number to keep, those with an
    -- invalid result are reported, in order, as evidence; of the others, in order, those whose
    -- directory or row gave an error are reported as failed, with that error, and the rest as removed,
    -- which in a dry run are all of them; the bytes freed are the sum over the removed. The rows that
    -- leave the index are those of the runs reported as removed, none in a dry run; and no directory
    -- goes but that of a run that is too old or beyond the number to keep and is not invalid.
    pub prune-IsState :
        is_empty policy ≡ false
        → (unreadable : ℕ)
        → (prune w policy dry_run (suc unreadable) s0 ≡ (err (partial_view (suc unreadable)), s0))
          × (out : PruneOutcome) × (s : Store) × (prune w policy dry_run 0 s0 ≡ (ok out, s))
          × IsState (selected_ids false 0 s0.rows) (selected_ids true 0 s0.rows) (out, s)
    unfolding prune
    prune-IsState e unreadable =
        let (out, s) = prune_from w policy dry_run 0 s0.rows (nothing_pruned, s0) in
        let start : IsState [] [] (nothing_pruned, s0) = record {
          retained = refl;
          rows = elim (Bool-cases dry_run) [
            | inl d ↦ sym (if_yes _ _ d)
            | inr d ↦ sym (if_no _ _ d ∙ keep_all s0.rows)
          ];
          removed = refl;
          failed = refl;
          freed = refl;
          dirs = In-All (Spared [] s0.dirs) s0.dirs (λ d m. inr m);
        } in
        (
          ground arith,
          out,
          s,
          ground arith,
          from-IsState s0.rows 0 [] [] (nothing_pruned, s0) start,
        )
