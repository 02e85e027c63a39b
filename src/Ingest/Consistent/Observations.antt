-- ===== src/Ingest/Consistent/Observations.antt =====
-- The statements on fs_observations, and those on neither table, keep the tables consistent.
use hirame.Prelude.{
  ℕ, ℤ, Bool, true, false, not, List, ◌≡◌, refl, arith, Bytes, bytes_eq_iff, bytes_eq_sym, reject,
  update_where, has, distinct, All, All-of, All-weaken, distinct-map, distinct-select,
  distinct-append, Lacks-of_has, Bool-cases, inl, inr, if◌then◌else◌,
}
use hirame.Jobs.Enqueuer.{Insertion}
use hirame.Ingest.Types.{Observation}
use hirame.Ingest.Tx.{ok}
use hirame.Ingest.Rows.{Db, Env, ExtractionRow, same_key, observed_under}
use hirame.Ingest.Tables.Observations as O
use hirame.Ingest.Tables.Observations.{repath, upsert_row}
use hirame.Ingest.Consistent.{IsConsistent}
use hirame.Ingest.Consistent.Documents.{repath-has_prefix, repath-bytes_eq}

-- The watermark, the scan epoch, the extractions and the jobs are free.
pub others-IsConsistent :
    (s : Db) (watermark : ℤ) (epoch : ℕ) (extractions : List ExtractionRow) (jobs : List Insertion)
    → IsConsistent s
    → IsConsistent (record s {
      watermark = watermark;
      scan_epoch = epoch;
      extractions = extractions;
      jobs = jobs;
    })
others-IsConsistent s w e x j c = record {
  paths = c.paths;
  ids = c.ids;
  fresh = c.fresh;
  current = c.current;
  keys = c.keys;
  version_ids = c.version_ids;
  hashes = c.hashes;
  version_fresh = c.version_fresh;
  next_version = c.next_version;
}

pub with_observations :
    (s : Db) (obs : List Observation)
    → IsConsistent s
    → distinct same_key obs ≡ true
    → IsConsistent (record s { observations = obs })
with_observations s obs c k = record {
  paths = c.paths;
  ids = c.ids;
  fresh = c.fresh;
  current = c.current;
  keys = k;
  version_ids = c.version_ids;
  hashes = c.hashes;
  version_fresh = c.version_fresh;
  next_version = c.next_version;
}

-- Deleting any rows.
pub reject-IsConsistent :
    (p : Observation → Bool) (s : Db)
    → IsConsistent s
    → IsConsistent (record s { observations = reject p s.observations })
reject-IsConsistent p s c =
    with_observations s _ c (distinct-select same_key (λ x. not (p x)) s.observations c.keys)

abbrev Any : Observation → Type 0
Any _ = Unit

replace_reflects :
    (o x y : Observation)
    → same_key (if same_key o x then o else x) (if same_key o y then o else y) ≡ true
    → same_key x y ≡ true
replace_reflects o x y h = ground (
  arith,
  bytes_eq_iff x.path o.path,
  bytes_eq_iff y.path o.path,
  bytes_eq_iff o.path x.path,
  bytes_eq_iff y.path x.path,
)

upsert-keys :
    (o : Observation) (obs : List Observation)
    → distinct same_key obs ≡ true
    → distinct same_key (upsert_row o obs) ≡ true
unfolding upsert_row
upsert-keys o obs k = elim (Bool-cases (has (same_key o) obs)) [
  | inl e ↦ rw e (
      distinct-map Any same_key same_key _ (λ x y _ _ h. replace_reflects o x y h) obs
        (All-of Any (λ _. tt) obs) k)
  | inr e ↦ rw e (
      distinct-append same_key obs o
        (All-weaken _ (λ x. same_key x o ≡ false)
          (λ x h. ground (arith, bytes_eq_sym o.path x.path)) obs (Lacks-of_has (same_key o) obs e))
        k)
]

pub upsert-IsConsistent :
    (env : Env) (o : Observation) (s : Db)
    → IsConsistent s
    → IsConsistent (O.upsert_observation env o s).1
unfolding O.upsert_observation
upsert-IsConsistent env o s c = with_observations s _ c (upsert-keys _ s.observations c.keys)

abbrev repathed : Bytes → Bytes → Observation → Observation
repathed old new o = record o { path = repath old new o.path }

repath_reflects :
    (mountpoint_id : ℕ) (old new : Bytes) (x y : Observation)
    → observed_under mountpoint_id new x ≡ false
    → observed_under mountpoint_id new y ≡ false
    → same_key
        (if observed_under mountpoint_id old x then repathed old new x else x)
        (if observed_under mountpoint_id old y then repathed old new y else y)
      ≡ true
    → same_key x y ≡ true
repath_reflects mountpoint_id old new x y hx hy h = ground (
  arith,
  repath-bytes_eq old new y.path x.path,
  repath-has_prefix old new x.path,
  repath-has_prefix old new y.path,
  bytes_eq_iff y.path (repath old new x.path),
  bytes_eq_iff (repath old new y.path) x.path,
)

-- MoveObservationSubtree where nothing is observed under the new prefix.
pub repath-IsConsistent :
    (mountpoint_id : ℕ) (old new : Bytes) (s : Db)
    → IsConsistent s
    → All (λ o. observed_under mountpoint_id new o ≡ false) s.observations
    → ((O.move_observation_subtree mountpoint_id old new s).0 ≡ ok tt)
      × IsConsistent (O.move_observation_subtree mountpoint_id old new s).1
unfolding O.move_observation_subtree
repath-IsConsistent mountpoint_id old new s c free =
    let k : distinct same_key
          (update_where (observed_under mountpoint_id old) (repathed old new) s.observations)
        ≡ true =
      distinct-map (λ o. observed_under mountpoint_id new o ≡ false) same_key same_key _
        (repath_reflects mountpoint_id old new) s.observations free c.keys in
    rw k (refl, with_observations s _ c k)
