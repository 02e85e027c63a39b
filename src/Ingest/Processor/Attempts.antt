-- ===== src/Ingest/Processor/Attempts.antt =====
-- promote, and the attempts that ProcessPath makes of it.
use hirame.Prelude.{
  ℕ, suc, Bool, true, ◌||◌, not, List, Option, none, some, ◌≡◌, refl, sym, subst, ap, arith, Bytes,
  find?, if◌then◌else◌,
}
use hirame.Ingest.Types.{
  Observation, fault, unique_violation, no_rows, not_bound, version_raced, document_changed,
}
use hirame.Ingest.Tx.{Result, ok, err, Conn, in_tx, ◌>>=◌}
use hirame.Ingest.Tx.Ensures.{
  Ensures, Outcome, Ensures-pure, Ensures-statement, Ensures-bind, Ensures-if, Ensures-weaken,
  Ensures-exact, Outcome-weaken,
}
use hirame.Ingest.Tx.Rollback.{RolledBack}
use hirame.Ingest.Rows.{Db, observed_at}
use hirame.Ingest.Tables.Observations as O
use hirame.Ingest.Queries.{get_observation, upsert_content_version}
use hirame.Ingest.Consistent.{IsConsistent}
use hirame.Ingest.Keeps.{Nothing}
use hirame.Ingest.Processor.{
  Processor, same_file, resolve_document, flip, promote_current, settled, promote, promote_attempts,
}
use hirame.Ingest.Processor.Takes.{Resolved}
use hirame.Ingest.Processor.Resolve.{Ensures-resolve_document}
use hirame.Ingest.Processor.Promote.{Serves, Staged, Done, Ensures-upsert, Ensures-flip}

-- What a path is brought up to: nothing is done, or a document serves the digest there.
abbrev pub Brought : ℕ → Bytes → Db → Option Bytes → Db → Type 0
Brought mp path s none t = t ≡ s
Brought mp path s (some digest) t = IsConsistent t × Serves mp path digest t

-- The digest that promote installs, from the observation that it reads again.
unfoldable pub accepted : Observation → Bytes → Option Observation → Option Bytes
unfolding same_file
accepted observed digest none = none
accepted observed digest (some current) =
    if current.is_dir || not (same_file observed current) then none else some digest

pub Ensures-get_observation :
    (mp : ℕ) (path : Bytes) (s : Db)
    → Ensures
        (λ t. t ≡ s)
        (get_observation mp path)
        (λ o t. (o ≡ find? (observed_at mp path) s.observations) × (t ≡ s))
        Nothing
unfolding get_observation O.get_observation
Ensures-get_observation mp path s =
    Ensures-statement _
      (λ t e. (_, refl, (ap (λ (u : Db). find? (observed_at mp path) u.observations) e, e)))
      (λ _ _. tt)

-- No race is reported where the transaction fails by a fault only.
Outcome-settled :
    (p : Processor) (Q E : Db → Type 0) (fs : List Bool) (r : Result (Unit {0}) × Conn Db)
    → Outcome (λ _. Q) E fs r
    → Outcome (λ b t. (b ≡ true) × Q t) E fs (settled p r)
Outcome-settled p Q E fs (ok _, c) (q, n) = ((refl, q), n)
Outcome-settled p Q E fs (err version_raced, c) (x, e, n) = absurd (ground arith)
Outcome-settled p Q E fs (err document_changed, c) (x, e, n) = absurd (ground arith)
Outcome-settled p Q E fs (err unique_violation, c) (x, e, n) = absurd (ground arith)
Outcome-settled p Q E fs (err no_rows, c) (x, e, n) = absurd (ground arith)
Outcome-settled p Q E fs (err not_bound, c) (x, e, n) = absurd (ground arith)
Outcome-settled p Q E fs (err fault, c) h = h

module _ (p : Processor) (bound : p.env.enqueuer.bound ≡ true) (mp : ℕ) (path : Bytes) where
  module _ (s : Db) (c : IsConsistent s) (observed : Observation) (digest : Bytes) (size : ℕ) where
    Ensures-accept :
        (current : Observation)
        → Ensures
            (λ t. t ≡ s)
            (do
              doc ← resolve_document mp path current digest
              version ← upsert_content_version digest size
              flip p doc version)
            (λ _. Done mp path digest)
            Nothing
    Ensures-accept current =
        Ensures-bind (Resolved mp path)
          (Ensures-weaken _ (λ t e. subst IsConsistent (sym e) c) (λ _ t r. r)
            (Ensures-resolve_document mp path current digest))
          (λ doc.
            Ensures-bind (λ v. Staged mp path digest doc v) (Ensures-upsert mp path digest size doc)
              (λ v. Ensures-flip mp path digest doc v p bound))

    Ensures-promote_current :
        (o : Option Observation)
        → Ensures
            (λ t. t ≡ s)
            (promote_current p mp path observed digest size o)
            (λ _ t. Brought mp path s (accepted observed digest o) t)
            Nothing
    unfolding promote_current accepted same_file
    Ensures-promote_current none = Ensures-pure tt (λ t e. e)
    Ensures-promote_current (some current) =
        Ensures-if (current.is_dir || not (same_file observed current))
          (λ skip. rw (skip, accepted) (Ensures-pure tt (λ t e. e)))
          (λ go. rw (go, accepted) (Ensures-accept current))

    Ensures-promote :
        Ensures
          (λ t. t ≡ s)
          (promote p mp path observed digest size)
          (λ b t.
            (b ≡ true)
            × Brought mp path s
                (accepted observed digest (find? (observed_at mp path) s.observations))
                t)
          (RolledBack s)
    unfolding promote
    Ensures-promote = record {
      at = λ conn e. Outcome-settled p _ _ conn.faults _ (whole.at conn e);
    }
      where
        found : Option Observation
        found = find? (observed_at mp path) s.observations

        step :
            (o : Option Observation)
            → Ensures
                (λ t. (o ≡ found) × (t ≡ s))
                (promote_current p mp path observed digest size o)
                (λ _ t. Brought mp path s (accepted observed digest found) t)
                Nothing
        step o = record {
          at = λ conn h.
              Outcome-weaken _ _ Nothing Nothing
                (λ _ t b. subst (λ w. Brought mp path s (accepted observed digest w) t) h.0 b)
                (λ _ e. e) conn.faults _ ((Ensures-promote_current o).at conn h.1);
        }

        whole :
            Ensures
              (λ t. t ≡ s)
              (in_tx (do
                current ← get_observation mp path
                promote_current p mp path observed digest size current))
              (λ _ t. Brought mp path s (accepted observed digest found) t)
              (RolledBack s)
        whole =
            Ensures-exact (λ t. t ≡ s) _ _ s
              (Ensures-bind (λ o t. (o ≡ found) × (t ≡ s)) (Ensures-get_observation mp path s) step)
              refl

    -- The first attempt decides.
    pub Ensures-attempts :
        (n : ℕ)
        → Ensures
            (λ t. t ≡ s)
            (promote_attempts p (suc n) mp path observed digest size)
            (λ _ t.
              Brought mp path s
                (accepted observed digest (find? (observed_at mp path) s.observations))
                t)
            (RolledBack s)
    unfolding promote_attempts
    Ensures-attempts n = Ensures-bind _ Ensures-promote (λ b.
        Ensures-if b (λ _. Ensures-pure tt (λ t h. h.1))
          (λ no. record { at = λ conn h. absurd (ground arith) }))
