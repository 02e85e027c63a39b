-- ===== src/Ingest/Keeps.antt =====
-- The statements that keep the tables consistent from any consistent state, as rules for code in
-- a transaction. Code that meets a `Keeps` rule returns, unless the environment fails a call.
use hirame.Prelude.{ℕ, Bool, true, List, Option, some, ◌≡◌, refl, arith, Bytes, if◌then◌else◌}
use hirame.Jobs.Enqueuer.{
  Insertion, enqueue_ingest_path, enqueue_extract, enqueue_invalidate_thumbnails,
}
use hirame.Ingest.Types.{Observation, Trigger, trigger_debounced, trigger_settled}
use hirame.Ingest.Tx.{Result, ok, err, pure, ◌>>=◌, statement}
use hirame.Ingest.Tx.Ensures.{Ensures, Ensures-pure, Ensures-statement, Ensures-bind, Ensures-if}
use hirame.Ingest.Rows.{Db, Env}
use hirame.Ingest.Tables.Observations as O
use hirame.Ingest.Tables.Documents as D
use hirame.Ingest.Queries.{
  Action, converted, upsert_observation, delete_observation, delete_observation_subtree,
  tombstone_document_by_path, tombstone_document_subtree, enqueue_ingest, enqueue_extraction,
  enqueue_invalidate, inserted, is_settled,
}
use hirame.Ingest.Consistent.{IsConsistent}
use hirame.Ingest.Consistent.Documents.{tombstone-IsConsistent}
use hirame.Ingest.Consistent.Observations.{
  others-IsConsistent, reject-IsConsistent, upsert-IsConsistent,
}

abbrev pub Nothing : Db → Type 0
Nothing _ = Unit

abbrev pub Keeps : {A : Type 0} → Action A → Type 0
Keeps m = Ensures IsConsistent m (λ _. IsConsistent) Nothing

abbrev unchecked : (s : Db) → IsConsistent s → Nothing s
unchecked s c = tt

pub Keeps-pure : {A : Type 0} (a : A) → Keeps (pure a)
Keeps-pure a = Ensures-pure a (λ s c. c)

pub Keeps-bind :
    {A B : Type 0} {m : Action A} {f : A → Action B}
    → Keeps m
    → ((a : A) → Keeps (f a))
    → Keeps (m >>= f)
Keeps-bind = Ensures-bind (λ _. IsConsistent)

pub Keeps-if :
    {A : Type 0} (b : Bool) {m n : Action A} → Keeps m → Keeps n → Keeps (if b then m else n)
Keeps-if b hm hn = Ensures-if b (λ _. hm) (λ _. hn)

pub Keeps-upsert_observation : (env : Env) (o : Observation) → Keeps (upsert_observation env o)
unfolding upsert_observation O.upsert_observation
Keeps-upsert_observation env o =
    Ensures-statement _ (λ s c. (tt, refl, upsert-IsConsistent env o s c)) unchecked

pub Keeps-delete_observation : (mp : ℕ) (path : Bytes) → Keeps (delete_observation mp path)
unfolding delete_observation O.delete_observation
Keeps-delete_observation mp path =
    Ensures-statement _ (λ s c. (tt, refl, reject-IsConsistent _ s c)) unchecked

pub Keeps-delete_observation_subtree :
    (mp : ℕ) (prefix : Bytes) → Keeps (delete_observation_subtree mp prefix)
unfolding delete_observation_subtree O.delete_observation_subtree
Keeps-delete_observation_subtree mp prefix =
    Ensures-statement _ (λ s c. (tt, refl, reject-IsConsistent _ s c)) unchecked

pub Keeps-tombstone_document_by_path :
    (mp : ℕ) (path : Bytes) → Keeps (tombstone_document_by_path mp path)
unfolding tombstone_document_by_path D.tombstone_by_path
Keeps-tombstone_document_by_path mp path =
    Ensures-statement _ (λ s c. (_, refl, tombstone-IsConsistent _ s c)) unchecked

pub Keeps-tombstone_document_subtree :
    (mp : ℕ) (prefix : Bytes) → Keeps (tombstone_document_subtree mp prefix)
unfolding tombstone_document_subtree D.tombstone_subtree
Keeps-tombstone_document_subtree mp prefix =
    Ensures-statement _ (λ s c. (_, refl, tombstone-IsConsistent _ s c)) unchecked

converted-ok :
    {A B : Type 0} (f : A → B) (r : Result A × Db) (a : A)
    → r.0 ≡ ok a
    → converted f r ≡ (ok (f a), r.1)
converted-ok f (ok b, s) a e = ground arith
converted-ok f (err x, s) a e = cc

-- A statement whose result is converted.
pub Ensures-converted :
    {A B : Type 0} {P : Db → Type 0} {Q : B → Db → Type 0} (f : A → B) (g : Db → Result A × Db)
    → ((s : Db) → P s → (a : A) × ((g s).0 ≡ ok a) × Q (f a) (g s).1)
    → Ensures P (statement (λ s. converted f (g s))) Q Nothing
Ensures-converted f g h =
    Ensures-statement _
      (λ s p. let (a, e, q) = h s p in rw (converted-ok f (g s) a e) (f a, refl, q)) (λ _ _. tt)

-- A claim that does not depend on the jobs.
abbrev pub IgnoresJobs : (Db → Type 0) → Type 0
IgnoresJobs P = (s : Db) (jobs : List Insertion) → P s → P (record s { jobs = jobs })

module _ (env : Env) (bound : env.enqueuer.bound ≡ true) (P : Db → Type 0)
    (free : IgnoresJobs P) where
  Ensures-inserted :
      (o : Option Insertion)
      → ((i : Insertion) × (o ≡ some i))
      → Ensures P (statement (inserted o)) (λ _. P) Nothing
  unfolding inserted
  Ensures-inserted o (i, e) = rw e (Ensures-statement _ (λ s p. (tt, refl, free s _ p)) (λ _ _. tt))

  pub Ensures-enqueue_ingest :
      (mp : ℕ) (path : Bytes) (trigger : Trigger)
      → Ensures P (enqueue_ingest env mp path trigger) (λ _. P) Nothing
  unfolding enqueue_ingest enqueue_ingest_path is_settled
  Ensures-enqueue_ingest mp path trigger_settled = Ensures-inserted _ (rw bound (_, refl))
  Ensures-enqueue_ingest mp path trigger_debounced = Ensures-inserted _ (rw bound (_, refl))

  pub Ensures-enqueue_extraction :
      (version : ℕ) → Ensures P (enqueue_extraction env version) (λ _. P) Nothing
  unfolding enqueue_extraction enqueue_extract
  Ensures-enqueue_extraction version = Ensures-inserted _ (rw bound (_, refl))

  pub Ensures-enqueue_invalidate :
      (id version : ℕ) → Ensures P (enqueue_invalidate env id version) (λ _. P) Nothing
  unfolding enqueue_invalidate enqueue_invalidate_thumbnails
  Ensures-enqueue_invalidate id version = Ensures-inserted _ (rw bound (_, refl))

pub IsConsistent-IgnoresJobs : IgnoresJobs IsConsistent
IsConsistent-IgnoresJobs s jobs c = others-IsConsistent s _ _ _ jobs c
