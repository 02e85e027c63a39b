-- ===== src/Ingest/Tx/Ensures.antt =====
-- Total correctness of actions. `Ensures P m Q E`: run from a state with `P`, `m` returns a value
-- and a state with `Q`, or it fails because the environment does, in a state with `E`. Without
-- faults it returns.
use hirame.Prelude.{
  Bool, true, false, List, [], ◌∷◌, ◌≡◌, ◌≢◌, refl, sym, subst, ap, ◌⊎◌, inl, inr, if◌then◌else◌,
}
use hirame.Ingest.Types.{fault}
use hirame.Ingest.Rows.{Db}
use hirame.Ingest.Tx.Rollback.{RolledBack, roll_back-RolledBack}
use hirame.Ingest.Tx.{
  roll_back, Result, ok, err, Conn, Tx, pure, statement, continue, settle, ◌>>=◌, ◌>>◌, ping, in_tx,
}

module _ {ℓ} {S A : Type ℓ} where
  abbrev pub Outcome : (A → S → Type ℓ) → (S → Type ℓ) → List Bool → Result A × Conn S → Type ℓ
  Outcome Q E fs (ok a, c) = Q a c.state × (fs ≡ [] → c.faults ≡ [])
  Outcome Q E fs (err e, c) = E c.state × (e ≡ fault) × (fs ≢ [])

  pub record Ensures (P : S → Type ℓ) (m : Tx S A) (Q : A → S → Type ℓ) (E : S → Type ℓ)
      : Type ℓ where
    pub at : (c : Conn S) → P c.state → Outcome Q E c.faults (m c)

module _ {ℓ} {S A : Type ℓ} where
  Outcome-statement :
      (Q : A → S → Type ℓ) (E : S → Type ℓ) (f : S → Result A × S) (s : S) (fs : List Bool) (a : A)
      → (f s).0 ≡ ok a
      → Q a (f s).1
      → E s
      → Outcome Q E fs (statement f (record { state = s; faults = fs }))
  unfolding statement
  Outcome-statement Q E f s [] a e q x = rw e (q, λ h. h)
  Outcome-statement Q E f s (true ∷ fs) a e q x = (x, refl, λ h. cc)
  Outcome-statement Q E f s (false ∷ fs) a e q x = rw e (q, λ h. absurd (cc))

module _ {ℓ} {S A : Type ℓ} {P : S → Type ℓ} {Q : A → S → Type ℓ} {E : S → Type ℓ} where
  pub Ensures-pure : (a : A) → ((s : S) → P s → Q a s) → Ensures P (pure a) Q E
  Ensures-pure a h = record { at = λ c p. (h c.state p, λ e. e) }

  pub Ensures-statement :
      (f : S → Result A × S)
      → ((s : S) → P s → (a : A) × ((f s).0 ≡ ok a) × Q a (f s).1)
      → ((s : S) → P s → E s)
      → Ensures P (statement f) Q E
  Ensures-statement f h x = record {
    at = λ c p.
        let (a, e, q) = h c.state p in Outcome-statement Q E f c.state c.faults a e q (x c.state p);
  }

module _ {ℓ} {S A : Type ℓ} where
  Outcome-later :
      (Q : A → S → Type ℓ) (E : S → Type ℓ) (fs gs : List Bool)
      → (fs ≡ [] → gs ≡ [])
      → (r : Result A × Conn S) → Outcome Q E gs r
      → Outcome Q E fs r
  Outcome-later Q E fs gs k (ok a, c) (p, q) = (p, λ e. q (k e))
  Outcome-later Q E fs gs k (err e, c) (x, p, q) = (x, p, λ z. q (k z))

module _ {ℓ} {S A B : Type ℓ} where
  Outcome-continue :
      (Q : B → S → Type ℓ) (E : S → Type ℓ) (R : A → S → Type ℓ) (f : A → Tx S B)
      → ((a : A) → Ensures (R a) (f a) Q E)
      → (fs : List Bool) (r : Result A × Conn S) → Outcome R E fs r
      → Outcome Q E fs (continue r f)
  Outcome-continue Q E R f h fs (ok a, c) (p, q) =
      Outcome-later Q E fs c.faults q (f a c) ((h a).at c p)
  Outcome-continue Q E R f h fs (err e, c) x = x

  pub Ensures-bind :
      {P : S → Type ℓ} {Q : B → S → Type ℓ} {E : S → Type ℓ} (R : A → S → Type ℓ) {m : Tx S A}
      {f : A → Tx S B}
      → Ensures P m R E
      → ((a : A) → Ensures (R a) (f a) Q E)
      → Ensures P (m >>= f) Q E
  Ensures-bind {Q = Q} {E = E} R {m} {f} hm hf = record {
    at = λ c p. Outcome-continue Q E R f hf c.faults (m c) (hm.at c p);
  }

module _ {ℓ} {S A : Type ℓ} where
  pub Outcome-weaken :
      (Q R : A → S → Type ℓ) (E F : S → Type ℓ)
      → ((a : A) (s : S) → Q a s → R a s)
      → ((s : S) → E s → F s)
      → (fs : List Bool) (r : Result A × Conn S) → Outcome Q E fs r
      → Outcome R F fs r
  Outcome-weaken Q R E F h k fs (ok a, c) (p, q) = (h a c.state p, q)
  Outcome-weaken Q R E F h k fs (err e, c) (x, p, q) = (k c.state x, p, q)

  pub Ensures-weaken :
      {P : S → Type ℓ} (P' : S → Type ℓ) {Q R : A → S → Type ℓ} {E : S → Type ℓ} {m : Tx S A}
      → ((s : S) → P' s → P s)
      → ((a : A) (s : S) → Q a s → R a s)
      → Ensures P m Q E
      → Ensures P' m R E
  Ensures-weaken P' {Q} {R} {E} {m} pre post h = record {
    at = λ c p. Outcome-weaken Q R E E post (λ s e. e) c.faults (m c) (h.at c (pre c.state p));
  }

  pub Ensures-if :
      {P : S → Type ℓ} {Q : A → S → Type ℓ} {E : S → Type ℓ} (b : Bool) {m n : Tx S A}
      → (b ≡ true → Ensures P m Q E)
      → (b ≡ false → Ensures P n Q E)
      → Ensures P (if b then m else n) Q E
  Ensures-if true hm hn = hm refl
  Ensures-if false hm hn = hn refl

module _ {ℓ} {S : Type ℓ} where
  pub Ensures-ping :
      {P : S → Type ℓ} (E : S → Type ℓ) → ((s : S) → P s → E s) → Ensures P ping (λ _ s. P s) E
  unfolding ping
  Ensures-ping E h = Ensures-statement _ (λ s p. (tt, refl, p)) h

module _ {A : Type 0} where
  Outcome-settle :
      (Q : A → Db → Type 0) (E F : Db → Type 0) (s : Db)
      → ((t : Db) → F (roll_back s t))
      → (fs : List Bool) (r : Result A × Conn Db) → Outcome Q E fs r
      → Outcome Q F fs (settle s r)
  Outcome-settle Q E F s p fs (ok a, c) x = x
  Outcome-settle Q E F s p fs (err e, c) (x, q, n) = (p c.state, q, n)

  -- A transaction that fails is rolled back.
  pub Ensures-in_tx :
      {P : Db → Type 0} {Q : A → Db → Type 0} {m : Tx Db A} (E : Db → Type 0)
      → ((s t : Db) → P s → E (roll_back s t))
      → Ensures P m Q (λ _. Unit)
      → Ensures P (in_tx m) Q E
  unfolding in_tx
  Ensures-in_tx {P} {Q} {m} E k h = record {
    at = λ c p.
        Outcome-settle Q (λ _. Unit) E c.state (λ t. k c.state t p) c.faults _ (whole.at c p);
  }
    where
      ending : (a : A) → Ensures (Q a) (do ping; pure a) Q (λ _. Unit)
      ending a =
          Ensures-bind (λ _. Q a) (Ensures-ping _ (λ _ _. tt)) (λ _. Ensures-pure a (λ s q. q))

      whole : Ensures P (do ping; a ← m; ping; pure a) Q (λ _. Unit)
      whole = Ensures-bind (λ _. P) (Ensures-ping _ (λ _ _. tt)) (λ _. Ensures-bind Q h ending)

module _ {ℓ} {S A : Type ℓ} where
  -- An action returned a value, or it failed because the environment did.
  pub Outcome-cases :
      (Q : A → S → Type ℓ) (E : S → Type ℓ) (fs : List Bool) (r : Result A × Conn S)
      → Outcome Q E fs r
      → ((a : A) × (r.0 ≡ ok a) × Q a r.1.state) ⊎ ((r.0 ≡ err fault) × E r.1.state × (fs ≢ []))
  Outcome-cases Q E fs (ok a, c) (q, _) = inl (a, refl, q)
  Outcome-cases Q E fs (err e, c) (x, f, n) = inr (ap err f, x, n)

module _ {A : Type 0} where
  -- A transaction returned a value and a state with `Q`, or a call failed and it was rolled back.
  abbrev pub Settles : (A → Db → Type 0) → Conn Db → Result A × Conn Db → Type 0
  Settles Q c r =
      ((a : A) × (r.0 ≡ ok a) × Q a r.1.state)
      ⊎ ((r.0 ≡ err fault) × RolledBack c.state r.1.state × (c.faults ≢ []))

  -- Run from one state, a transaction that fails is rolled back to that state.
  pub Ensures-exact :
      (P : Db → Type 0) (Q : A → Db → Type 0) (m : Tx Db A) (s : Db)
      → Ensures P m Q (λ _. Unit)
      → P s
      → Ensures (λ t. t ≡ s) (in_tx m) Q (RolledBack s)
  Ensures-exact P Q m s h p =
      Ensures-in_tx (RolledBack s)
        (λ u t e. subst (λ v. RolledBack v (roll_back u t)) e (roll_back-RolledBack u t))
        (Ensures-weaken (λ t. t ≡ s) (λ t e. subst P (sym e) p) (λ _ _ q. q) h)

  pub Settles-of :
      (Q : A → Db → Type 0) (m : Tx Db A) (c : Conn Db)
      → Ensures (λ t. t ≡ c.state) m Q (RolledBack c.state)
      → Settles Q c (m c)
  Settles-of Q m c h = Outcome-cases Q (RolledBack c.state) c.faults (m c) (h.at c refl)

  pub in_tx-Settles :
      (P : Db → Type 0) (Q : A → Db → Type 0) (m : Tx Db A) (c : Conn Db)
      → Ensures P m Q (λ _. Unit)
      → P c.state
      → Settles Q c (in_tx m c)
  in_tx-Settles P Q m c h p = Settles-of Q (in_tx m) c (Ensures-exact P Q m c.state h p)
