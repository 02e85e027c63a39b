-- ===== src/Ingest/Scan/Rescan.antt =====
-- observeScanned on a file that is as the last scan left it.
use hirame.Prelude.{
  ℕ, Bool, true, false, not, List, [], ◌∷◌, ◌++◌, Option, none, some, ◌≡◌, inl, inr, refl, arith,
  ◌==◌, Bytes, bytes_eq_refl, find?, update_where, has, Bool-cases,
}
use hirame.Ingest.Types.{Observation}
use hirame.Ingest.Rows.{Db, Env, observed_at, same_key}
use hirame.Ingest.Tables.Observations as O
use hirame.Ingest.Tables.Observations.{upsert_row, stored}
use hirame.Ingest.Reconciler.{Reconciler, StatInfo, observation_of}
use hirame.Ingest.Scan.{Scanned, changed, same_time, scanned_observation}

find?-append :
    (o : Observation) (rows : List Observation)
    → has (same_key o) rows ≡ false
    → find? (same_key o) (rows ++ o ∷ []) ≡ some o
find?-append o [] h = ground (arith, bytes_eq_refl o.path)
find?-append o (x ∷ rows) h = ground (arith, find?-append o rows)

find?-replaced :
    (o : Observation) (rows : List Observation)
    → has (same_key o) rows ≡ true
    → find? (same_key o) (update_where (same_key o) (λ _. o) rows) ≡ some o
find?-replaced o [] h = absurd (ground arith)
find?-replaced o (x ∷ rows) h = ground (arith, bytes_eq_refl o.path, find?-replaced o rows)

-- An observation that was written is the one that is read.
pub find?-upsert_row :
    (o : Observation) (rows : List Observation)
    → find? (observed_at o.mountpoint_id o.path) (upsert_row o rows) ≡ some o
unfolding upsert_row
find?-upsert_row o rows = elim (Bool-cases (has (same_key o) rows)) [
  | inl e ↦ rw e (find?-replaced o rows e)
  | inr e ↦ rw e (find?-append o rows e)
]

observation_of-key :
    (mp : ℕ) (path : Bytes) (stat : Option StatInfo) (d : Bool) (epoch : ℕ)
    → ((observation_of mp path stat d epoch).mountpoint_id ≡ mp)
      × ((observation_of mp path stat d epoch).path ≡ path)
unfolding observation_of
observation_of-key mp path none d epoch = (refl, refl)
observation_of-key mp path (some stat) d epoch = (refl, refl)

observation_of-size :
    (mp : ℕ) (path : Bytes) (stat : Option StatInfo) (d : Bool) (first second : ℕ)
    → (observation_of mp path stat d first).size ≡ (observation_of mp path stat d second).size
unfolding observation_of
observation_of-size mp path none d first second = refl
observation_of-size mp path (some stat) d first second = refl

scanned_key :
    (env : Env) (r : Reconciler) (mp : ℕ) (obs : Scanned) (epoch : ℕ)
    → observed_at
        (stored env (scanned_observation r mp obs epoch)).mountpoint_id
        (stored env (scanned_observation r mp obs epoch)).path
      ≡ observed_at mp obs.path
unfolding stored scanned_observation
scanned_key env r mp obs epoch =
    let k = observation_of-key mp obs.path obs.stat false epoch in rw (k.0, k.1) refl

scanned_size :
    (env : Env) (r : Reconciler) (mp : ℕ) (obs : Scanned) (first second : ℕ)
    → ((stored env (scanned_observation r mp obs first)).size
        == (scanned_observation r mp obs second).size)
      ≡ true
unfolding stored scanned_observation
scanned_size env r mp obs first second =
    rw (observation_of-size mp obs.path obs.stat false first second) (ground arith)

changed_same_size :
    (prior next : Observation)
    → (prior.size == next.size) ≡ true
    → changed (some prior) next ≡ not (same_time prior.mtime next.mtime)
unfolding changed
changed_same_size prior next h = rw (h, changed) refl

-- A file that was scanned and is scanned again with the same size and mtime counts as changed
-- exactly where the mtime column does not give back the mtime that it was given.
pub changed-upsert :
    (env : Env) (r : Reconciler) (mp : ℕ) (obs : Scanned) (first second : ℕ) (s : Db)
    → changed
        (find?
          (observed_at mp obs.path)
          (O.upsert_observation env (scanned_observation r mp obs first) s).1.observations)
        (scanned_observation r mp obs second)
      ≡ not (
          same_time
            (stored env (scanned_observation r mp obs first)).mtime
            (scanned_observation r mp obs second).mtime)
unfolding O.upsert_observation
changed-upsert env r mp obs first second s =
    let o = stored env (scanned_observation r mp obs first) in
    rw (← scanned_key env r mp obs first, find?-upsert_row o s.observations)
      (changed_same_size o _ (scanned_size env r mp obs first second))
