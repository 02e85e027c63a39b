-- ===== src/Ingest/Processor/Outcome.antt =====
-- ProcessPath as a whole: which paths it brings up to date, and what it leaves of the others.
use hirame.Prelude.{
  ℕ, true, false, ◌||◌, not, Option, none, some, ◌≡◌, inl, inr, refl, sym, subst, arith, Bytes,
  find?, Option-cases, if◌then◌else◌,
}
use hirame.Doctype
use hirame.Ingest.Types.{Observation}
use hirame.Ingest.Tx.{Conn}
use hirame.Ingest.Tx.Ensures.{
  Ensures, Ensures-pure, Ensures-bind, Ensures-if, Ensures-exact, Ensures-ping, Outcome-weaken,
  Settles, Settles-of,
}
use hirame.Ingest.Tx.Rollback.{RolledBack, RolledBack-of_same}
use hirame.Ingest.Rows.{Db, observed_at}
use hirame.Ingest.Consistent.{IsConsistent}
use hirame.Ingest.Processor.{
  Processor, Hashed, not_exist, hashed, same_file, process_hashed, process_observed, process_path,
}
use hirame.Ingest.Processor.Attempts.{Brought, accepted, Ensures-get_observation, Ensures-attempts}

-- The digest that ProcessPath installs, from the observation that it reads.
unfoldable pub offered : Processor → Bytes → Hashed → Option Observation → Option Bytes
offered p path file none = none
offered p path not_exist (some observed) = none
offered p path (hashed digest size head) (some observed) =
    if observed.is_dir || not (Doctype.allow_path p.text p.filter path)
    then none
    else elim (Doctype.content_type p.text p.filter path head) [
      | none ↦ none
      | some _ ↦ some digest
    ]

module _ (p : Processor) (bound : p.env.enqueuer.bound ≡ true) (mp : ℕ) (path : Bytes) where
  offered-skip :
      (file : Hashed) (o : Observation)
      → (o.is_dir || not (Doctype.allow_path p.text p.filter path)) ≡ true
      → offered p path file (some o) ≡ none
  unfolding offered
  offered-skip not_exist o h = refl
  offered-skip (hashed digest size head) o h = rw (h, offered) refl

  accepted_again :
      (o : Observation) (digest : Bytes)
      → o.is_dir ≡ false
      → accepted o digest (some o) ≡ some digest
  unfolding accepted same_file
  accepted_again o digest h = ground arith

  module _ (s : Db) (c : IsConsistent s) where
    Ensures-process_hashed :
        (file : Hashed) (observed : Observation)
        → find? (observed_at mp path) s.observations ≡ some observed
        → (observed.is_dir || not (Doctype.allow_path p.text p.filter path)) ≡ false
        → Ensures
            (λ t. t ≡ s)
            (process_hashed p mp path observed file)
            (λ _ t. Brought mp path s (offered p path file (some observed)) t)
            (RolledBack s)
    unfolding process_hashed offered
    Ensures-process_hashed not_exist observed f ok_path = Ensures-pure tt (λ t e. e)
    Ensures-process_hashed (hashed digest size head) observed f ok_path =
        elim (Option-cases (Doctype.content_type p.text p.filter path head)) [
          | inl n ↦ rw (ok_path, n, process_hashed) (Ensures-pure tt (λ t e. e))
          | inr (t, n) ↦
              rw (ok_path, n, process_hashed)
                (rw (f, accepted_again observed digest (ground arith)) at
                  (Ensures-attempts p bound mp path s c observed digest size 2))
        ]

    Ensures-process_observed :
        (file : Hashed) (o : Option Observation)
        → find? (observed_at mp path) s.observations ≡ o
        → Ensures
            (λ t. t ≡ s)
            (process_observed p mp path file o)
            (λ _ t. Brought mp path s (offered p path file o) t)
            (RolledBack s)
    unfolding process_observed offered
    Ensures-process_observed file none f = Ensures-pure tt (λ t e. e)
    Ensures-process_observed file (some observed) f =
        Ensures-if (observed.is_dir || not (Doctype.allow_path p.text p.filter path))
          (λ skip. rw (offered-skip file observed skip) (Ensures-pure tt (λ t e. e)))
          (λ go.
            Ensures-bind (λ _ t. t ≡ s) (Ensures-ping _ (λ t e. RolledBack-of_same s t e))
              (λ _. Ensures-process_hashed file observed f go))

    Ensures-process_path :
        (file : Hashed)
        → Ensures
            (λ t. t ≡ s)
            (process_path p mp path file)
            (λ _ t.
              Brought mp path s
                (offered p path file (find? (observed_at mp path) s.observations))
                t)
            (RolledBack s)
    unfolding process_path
    Ensures-process_path file =
        Ensures-bind (λ o t. (o ≡ find? (observed_at mp path) s.observations) × (t ≡ s))
          (Ensures-exact (λ t. t ≡ s) _ _ s (Ensures-get_observation mp path s) refl)
          (λ o. record {
            at = λ conn h.
                Outcome-weaken _ _ (RolledBack s) (RolledBack s)
                  (λ _ t b. subst (λ w. Brought mp path s (offered p path file w) t) h.0 b)
                  (λ _ e. e) conn.faults _
                  ((Ensures-process_observed file o (sym h.0)).at conn h.1);
          })

  -- ProcessPath, from consistent tables, with a River client bound. Where the path is observed as a
  -- file, its name is allowed and its content is of an allowed type, it returns, the tables are
  -- consistent, and a live document at the path has a version with the file's digest as its current
  -- one; otherwise it returns and changes nothing; or a call of the environment failed, and the
  -- tables are as they were, the sequences no lower.
  pub process_path_outcome :
      (file : Hashed) (c : Conn Db)
      → IsConsistent c.state
      → Settles
          (λ _ t.
            Brought mp path c.state
              (offered p path file (find? (observed_at mp path) c.state.observations))
              t)
          c
          (process_path p mp path file c)
  process_path_outcome file c k =
      Settles-of _ (process_path p mp path file) c (Ensures-process_path c.state k file)
