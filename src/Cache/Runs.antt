-- ===== src/Cache/Runs.antt =====
-- What actions of the cache leave behind: `Leaves` on every failure of the environment, and
-- `Returns` where no call fails. Here an error may be kept and returned later, so a failure is not
-- told by the faults that are left.
pub mod Compare
use hirame.Prelude.{Bool, true, false, List, [], ◌∷◌, ◌≡◌, refl, Option, none, some, if◌then◌else◌}
use hirame.Ingest.Types.{Error}
use hirame.Ingest.Tx.{Result, ok, err, Conn, calm, pure, raise, statement, continue, ◌>>=◌}
use hirame.Cache.Tables.{Cache}
use hirame.Cache.Workers.{Action, attempt, observed}

module _ {A : Type 0} where
  abbrev pub After : (A → Cache → Type 0) → (Cache → Type 0) → Result A × Conn Cache → Type 0
  After Q E (ok a, c) = Q a c.state
  After Q E (err e, c) = E c.state

  -- Whatever fails: a value and a state with `Q`, or an error and a state with `E`.
  pub record Leaves (P : Cache → Type 0) (m : Action A) (Q : A → Cache → Type 0)
      (E : Cache → Type 0) : Type 0 where
    pub at : (c : Conn Cache) → P c.state → After Q E (m c)

  abbrev pub Returned : (A → Cache → Type 0) → Result A × Conn Cache → Type 0
  Returned Q r = (a : A) × (s : Cache) × (r ≡ (ok a, calm s)) × Q a s

  -- Without failures: a value, a state with `Q`, and no failure to come.
  pub record Returns (P : Cache → Type 0) (m : Action A) (Q : A → Cache → Type 0) : Type 0 where
    pub at : (s : Cache) → P s → Returned Q (m (calm s))

  After-statement :
      (Q : A → Cache → Type 0) (E : Cache → Type 0) (f : Cache → Result A × Cache) (s : Cache)
      (fs : List Bool) (a : A)
      → (f s).0 ≡ ok a
      → Q a (f s).1
      → E s
      → After Q E (statement f (record { state = s; faults = fs }))
  unfolding statement
  After-statement Q E f s [] a e q x = rw e q
  After-statement Q E f s (true ∷ fs) a e q x = x
  After-statement Q E f s (false ∷ fs) a e q x = rw e q

  pub Leaves-statement :
      {P : Cache → Type 0} {Q : A → Cache → Type 0} {E : Cache → Type 0}
      (f : Cache → Result A × Cache)
      → ((s : Cache) → P s → (a : A) × ((f s).0 ≡ ok a) × Q a (f s).1)
      → ((s : Cache) → P s → E s)
      → Leaves P (statement f) Q E
  Leaves-statement {P} {Q} {E} f h x = record {
    at = λ c p.
        let (a, e, q) = h c.state p in After-statement Q E f c.state c.faults a e q (x c.state p);
  }

  pub Returns-statement :
      {P : Cache → Type 0} {Q : A → Cache → Type 0} (f : Cache → Result A × Cache)
      → ((s : Cache) → P s → (a : A) × ((f s).0 ≡ ok a) × Q a (f s).1)
      → Returns P (statement f) Q
  unfolding statement
  Returns-statement f h = record { at = λ s p. let (a, e, q) = h s p in (a, (f s).1, rw e refl, q) }

  pub Leaves-pure :
      {P : Cache → Type 0} {Q : A → Cache → Type 0} {E : Cache → Type 0} (a : A)
      → ((s : Cache) → P s → Q a s)
      → Leaves P (pure a) Q E
  Leaves-pure a h = record { at = λ c p. h c.state p }

  pub Leaves-raise :
      {P : Cache → Type 0} {Q : A → Cache → Type 0} {E : Cache → Type 0} (e : Error)
      → ((s : Cache) → P s → E s)
      → Leaves P (raise e) Q E
  Leaves-raise e h = record { at = λ c p. h c.state p }

  pub Returns-pure :
      {P : Cache → Type 0} {Q : A → Cache → Type 0} (a : A)
      → ((s : Cache) → P s → Q a s)
      → Returns P (pure a) Q
  Returns-pure a h = record { at = λ s p. (a, s, refl, h s p) }

  pub Leaves-if :
      {P : Cache → Type 0} {Q : A → Cache → Type 0} {E : Cache → Type 0} (b : Bool) {m n : Action A}
      → (b ≡ true → Leaves P m Q E)
      → (b ≡ false → Leaves P n Q E)
      → Leaves P (if b then m else n) Q E
  Leaves-if true h k = h refl
  Leaves-if false h k = k refl

  pub Returns-if :
      {P : Cache → Type 0} {Q : A → Cache → Type 0} (b : Bool) {m n : Action A}
      → (b ≡ true → Returns P m Q)
      → (b ≡ false → Returns P n Q)
      → Returns P (if b then m else n) Q
  Returns-if true h k = h refl
  Returns-if false h k = k refl

  After-weaken :
      (Q R : A → Cache → Type 0) (E : Cache → Type 0)
      → ((a : A) (s : Cache) → Q a s → R a s)
      → (r : Result A × Conn Cache) → After Q E r
      → After R E r
  After-weaken Q R E h (ok a, c) q = h a c.state q
  After-weaken Q R E h (err e, c) x = x

  pub Leaves-weaken :
      {P : Cache → Type 0} (P' : Cache → Type 0) {Q R : A → Cache → Type 0} {E : Cache → Type 0}
      {m : Action A}
      → ((s : Cache) → P' s → P s)
      → ((a : A) (s : Cache) → Q a s → R a s)
      → Leaves P m Q E
      → Leaves P' m R E
  Leaves-weaken P' {Q} {R} {E} {m} pre post h = record {
    at = λ c p. After-weaken Q R E post (m c) (h.at c (pre c.state p));
  }

  pub Returns-weaken :
      {P : Cache → Type 0} (P' : Cache → Type 0) {Q R : A → Cache → Type 0} {m : Action A}
      → ((s : Cache) → P' s → P s)
      → ((a : A) (s : Cache) → Q a s → R a s)
      → Returns P m Q
      → Returns P' m R
  Returns-weaken P' pre post h = record {
    at = λ s p. let (a, t, e, q) = h.at s (pre s p) in (a, t, e, post a t q);
  }

  -- What the state before tells apart from the state.
  pub Leaves-given :
      {P : Cache → Type 0} {Q : A → Cache → Type 0} {E : Cache → Type 0} (X : Type 0) {m : Action A}
      → (X → Leaves P m Q E)
      → Leaves (λ s. P s × X) m Q E
  Leaves-given X h = record { at = λ c p. (h p.1).at c p.0 }

  pub Returns-given :
      {P : Cache → Type 0} {Q : A → Cache → Type 0} (X : Type 0) {m : Action A}
      → (X → Returns P m Q)
      → Returns (λ s. P s × X) m Q
  Returns-given X h = record { at = λ s p. (h p.1).at s p.0 }

module _ {A B : Type 0} where
  After-continue :
      (R : A → Cache → Type 0) (Q : B → Cache → Type 0) (E : Cache → Type 0) (f : A → Action B)
      → ((a : A) → Leaves (R a) (f a) Q E)
      → (r : Result A × Conn Cache) → After R E r
      → After Q E (continue r f)
  After-continue R Q E f h (ok a, c) p = (h a).at c p
  After-continue R Q E f h (err e, c) x = x

  pub Leaves-bind :
      {P : Cache → Type 0} {Q : B → Cache → Type 0} {E : Cache → Type 0} (R : A → Cache → Type 0)
      {m : Action A} {f : A → Action B}
      → Leaves P m R E
      → ((a : A) → Leaves (R a) (f a) Q E)
      → Leaves P (m >>= f) Q E
  Leaves-bind {Q = Q} {E = E} R {m} {f} hm hf = record {
    at = λ c p. After-continue R Q E f hf (m c) (hm.at c p);
  }

  pub Returns-bind :
      {P : Cache → Type 0} {Q : B → Cache → Type 0} (R : A → Cache → Type 0) {m : Action A}
      {f : A → Action B}
      → Returns P m R
      → ((a : A) → Returns (R a) (f a) Q)
      → Returns P (m >>= f) Q
  Returns-bind R hm hf = record { at = λ s p. let (a, t, e, q) = hm.at s p in rw e ((hf a).at t q) }

abbrev pub Either : (Cache → Type 0) → (Cache → Type 0) → Option Error → Cache → Type 0
Either Q E none s = Q s
Either Q E (some e) s = E s

After-observed :
    (Q E F : Cache → Type 0) (r : Result (Unit {0}) × Conn Cache)
    → After (λ _. Q) E r
    → After (Either Q E) F (observed r)
After-observed Q E F (ok a, c) q = q
After-observed Q E F (err e, c) x = x

pub Leaves-attempt :
    {P Q E : Cache → Type 0} (F : Cache → Type 0) {m : Action (Unit {0})}
    → Leaves P m (λ _. Q) E
    → Leaves P (attempt m) (Either Q E) F
unfolding attempt
Leaves-attempt {Q = Q} {E = E} F {m} h = record {
  at = λ c p. After-observed Q E F (m c) (h.at c p);
}

pub Returns-attempt :
    {P Q : Cache → Type 0} {m : Action (Unit {0})}
    → Returns P m (λ _. Q)
    → Returns P (attempt m) (λ e s. (e ≡ none) × Q s)
unfolding attempt
Returns-attempt h = record {
  at = λ s p. let (a, t, e, q) = h.at s p in (none, t, rw e refl, (refl, q));
}
