-- ===== src/Cache/Runs/Compare.antt =====
-- What follows of an action from what is known of it: of its state, of its errors, and of a run
-- without failures.
use hirame.Prelude.{◌≡◌, refl}
use hirame.Ingest.Tx.{Result, ok, err, Conn, calm}
use hirame.Cache.Tables.{Cache}
use hirame.Cache.Workers.{Action}
use hirame.Cache.Runs.{Leaves, After, Returns}

module _ {A : Type 0} where
  After-same : (E : Cache → Type 0) (r : Result A × Conn Cache) → After (λ _. E) E r → E r.1.state
  After-same E (ok a, c) h = h
  After-same E (err e, c) h = h

  -- What holds after a value and after an error alike holds of the state.
  pub Leaves-state :
      (P E : Cache → Type 0) (m : Action A) (c : Conn Cache)
      → Leaves P m (λ _. E) E
      → P c.state
      → E (m c).1.state
  Leaves-state P E m c h p = After-same E (m c) (h.at c p)

  -- Without failures a run has what holds of every run.
  pub Returns-with :
      {P P' : Cache → Type 0} {Q R : A → Cache → Type 0} {E : Cache → Type 0} (m : Action A)
      → Leaves P' m R E
      → Returns P m Q
      → Returns (λ s. P s × P' s) m (λ a s. Q a s × R a s)
  Returns-with {R = R} {E = E} m l h = record {
    at = λ s p.
        let (a, t, e, q) = h.at s p.0 in
        let x : After R E (m (calm s)) = l.at (calm s) p.1 in (a, t, e, (q, rw e at x));
  }

module _ {A : Type 0} where
  After-errors :
      (Q : A → Cache → Type 0) (E F : Cache → Type 0)
      → ((s : Cache) → E s → F s)
      → (r : Result A × Conn Cache) → After Q E r
      → After Q F r
  After-errors Q E F h (ok a, c) q = q
  After-errors Q E F h (err e, c) x = h c.state x

  pub Leaves-errors :
      {P : Cache → Type 0} {Q : A → Cache → Type 0} {E F : Cache → Type 0} {m : Action A}
      → ((s : Cache) → E s → F s)
      → Leaves P m Q E
      → Leaves P m Q F
  Leaves-errors {Q = Q} {E = E} {F = F} {m = m} h l = record {
    at = λ c p. After-errors Q E F h (m c) (l.at c p);
  }

  pub Leaves-from :
      {P : Cache → Type 0} {Q : A → Cache → Type 0} {E : Cache → Type 0} {m : Action A}
      → ((s : Cache) → P s → Leaves (λ t. t ≡ s) m Q E)
      → Leaves P m Q E
  Leaves-from h = record { at = λ c p. (h c.state p).at c refl }
