-- ===== src/Ingest/Reconciler/MoveDirectory.antt =====
-- moveDirectory keeps the tables consistent: neither the primary key of the observations nor the
-- unique index on documents refuses the two subtree moves.
use hirame.Prelude.{
  ℕ, true, Option, ◌≡◌, refl, Bytes, All-update, All-of, Lacks, Lacks-reject, arith,
}
use hirame.Ingest.Tx.Ensures.{Ensures, Ensures-pure, Ensures-statement, Ensures-bind}
use hirame.Ingest.Rows.{Db, Env, live_under, observed_under}
use hirame.Ingest.Mountpoints.{subtree_prefix}
use hirame.Ingest.Types.{Observation}
use hirame.Ingest.Tables.Observations as O
use hirame.Ingest.Tables.Documents as D
use hirame.Ingest.Tables.Documents.{tombstoned}
use hirame.Ingest.Queries.{
  delete_observation, delete_observation_subtree, tombstone_document_subtree, upsert_observation,
  move_observation_subtree, move_document_subtree,
}
use hirame.Ingest.Reconciler.{Reconciler, StatInfo, move_directory}
use hirame.Ingest.Consistent.{IsConsistent}
use hirame.Ingest.Consistent.Documents.{
  tombstone-IsConsistent, repath-IsConsistent as repath_documents,
}
use hirame.Ingest.Consistent.Observations.{
  reject-IsConsistent, upsert-IsConsistent, repath-IsConsistent as repath_observations,
}
use hirame.Ingest.Keeps.{
  Keeps, Nothing, IgnoresJobs, IsConsistent-IgnoresJobs, Ensures-converted, Keeps-bind,
  Keeps-delete_observation,
}
use hirame.Ingest.Reconciler.Keeps.{Ensures-invalidate_all}

documents-move_observation_subtree :
    (mp : ℕ) (old new : Bytes) (s : Db)
    → (O.move_observation_subtree mp old new s).1.documents ≡ s.documents
unfolding O.move_observation_subtree
documents-move_observation_subtree mp old new s = ground arith

module _ (mp : ℕ) (prefix : Bytes) where
  -- Nothing is observed under the prefix.
  record Unobserved (s : Db) : Type 0 where
    pub consistent : IsConsistent s
    pub none_observed : Lacks (observed_under mp prefix) s.observations

  -- No document is live under the prefix.
  record Vacant (s : Db) : Type 0 where
    pub consistent : IsConsistent s
    pub none_live : Lacks (live_under mp prefix) s.documents

  record Cleared (s : Db) : Type 0 where
    pub consistent : IsConsistent s
    pub none_observed : Lacks (observed_under mp prefix) s.observations
    pub none_live : Lacks (live_under mp prefix) s.documents

  Ensures-delete_subtree :
      Ensures IsConsistent (delete_observation_subtree mp prefix) (λ _. Unobserved) Nothing
  unfolding delete_observation_subtree O.delete_observation_subtree
  Ensures-delete_subtree =
      Ensures-statement _
        (λ s c. (
          tt,
          refl,
          record {
            consistent = reject-IsConsistent (observed_under mp prefix) s c;
            none_observed = Lacks-reject (observed_under mp prefix) s.observations;
          },
        ))
        (λ _ _. tt)

  Ensures-tombstone_subtree :
      Ensures Unobserved (tombstone_document_subtree mp prefix) (λ _. Cleared) Nothing
  unfolding tombstone_document_subtree D.tombstone_subtree
  Ensures-tombstone_subtree =
      Ensures-statement _
        (λ s c. (
          _,
          refl,
          record {
            consistent = tombstone-IsConsistent (live_under mp prefix) s c.consistent;
            none_observed = c.none_observed;
            none_live =
                All-update {0, 0, 0} (λ _. Unit) _ (live_under mp prefix) tombstoned
                  (λ x _ _. ground arith) (λ x e _. e) s.documents (All-of _ (λ _. tt) s.documents);
          },
        ))
        (λ _ _. tt)

  Cleared-IgnoresJobs : IgnoresJobs Cleared
  Cleared-IgnoresJobs s jobs c = record {
    consistent = IsConsistent-IgnoresJobs s jobs c.consistent;
    none_observed = c.none_observed;
    none_live = c.none_live;
  }

  Ensures-move_observations :
      (old : Bytes) → Ensures Cleared (move_observation_subtree mp old prefix) (λ _. Vacant) Nothing
  unfolding move_observation_subtree
  Ensures-move_observations old =
      Ensures-statement _
        (λ s c.
          let (e, c') = repath_observations mp old prefix s c.consistent c.none_observed in
          (
            tt,
            e,
            record {
              consistent = c';
              none_live = rw (documents-move_observation_subtree mp old prefix s) c.none_live;
            },
          ))
        (λ _ _. tt)

  Ensures-delete :
      (path : Bytes) → Ensures Vacant (delete_observation mp path) (λ _. Vacant) Nothing
  unfolding delete_observation O.delete_observation
  Ensures-delete path =
      Ensures-statement _
        (λ s c. (
          tt,
          refl,
          record { consistent = reject-IsConsistent _ s c.consistent; none_live = c.none_live },
        ))
        (λ _ _. tt)

  Ensures-upsert :
      (env : Env) (o : Observation)
      → Ensures Vacant (upsert_observation env o) (λ _. Vacant) Nothing
  unfolding upsert_observation O.upsert_observation
  Ensures-upsert env o =
      Ensures-statement _
        (λ s c. (
          tt,
          refl,
          record { consistent = upsert-IsConsistent env o s c.consistent; none_live = c.none_live },
        ))
        (λ _ _. tt)

  Ensures-move_documents :
      (old : Bytes)
      → Ensures Vacant (move_document_subtree mp old prefix) (λ _. IsConsistent) Nothing
  unfolding move_document_subtree
  Ensures-move_documents old =
      Ensures-converted _ (D.move_subtree mp old prefix) (λ s c.
        let (e, c') = repath_documents mp old prefix s c.consistent c.none_live in (_, e, c'))

module _ (r : Reconciler) (bound : r.env.enqueuer.bound ≡ true) where
  pub Keeps-move_directory :
      (mp : ℕ) (old new : Bytes) (stat : Option StatInfo) → Keeps (move_directory r mp old new stat)
  unfolding move_directory
  Keeps-move_directory mp old new stat =
      let to = subtree_prefix new in
      Keeps-bind (Keeps-delete_observation mp new) (λ _.
        Ensures-bind (λ _. Unobserved mp to) (Ensures-delete_subtree mp to)
          (λ _.
            Ensures-bind (λ _. Cleared mp to) (Ensures-tombstone_subtree mp to)
              (λ replaced.
                Ensures-bind (λ _. Cleared mp to)
                  (Ensures-invalidate_all r bound _ (Cleared-IgnoresJobs mp to) replaced)
                  (λ _.
                    Ensures-bind (λ _. Vacant mp to)
                      (Ensures-move_observations mp to (subtree_prefix old))
                      (λ _.
                        Ensures-bind (λ _. Vacant mp to) (Ensures-delete mp to old)
                          (λ _.
                            Ensures-bind (λ _. Vacant mp to) (Ensures-upsert mp to r.env _)
                              (λ _.
                                Ensures-bind (λ _. IsConsistent)
                                  (Ensures-move_documents mp to (subtree_prefix old))
                                  (λ _. Ensures-pure tt (λ s c. c)))))))))
