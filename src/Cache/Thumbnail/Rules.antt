-- ===== src/Cache/Thumbnail/Rules.antt =====
-- Rules for calls whose errors are looked at.
use hirame.Prelude.{
  arith, subst, ◌≡◌, refl, if◌then◌else◌, Bool, true, false, List, [], ◌∷◌, Option, none, some,
}
use hirame.Ingest.Tx.{Result, ok, err, Conn, statement}
use hirame.Cache.Tables.{Cache}
use hirame.Cache.Workers.{Action}
use hirame.Cache.Runs.{Leaves, After}
use hirame.Cache.Thumbnail.{tried, tried_result}

module _ {A : Type 0} where
  abbrev pub Post : (A → Cache → Type 0) → (Cache → Type 0) → Result A × Cache → Type 0
  Post Q E (ok a, s) = Q a s
  Post Q E (err e, s) = E s

  After-run :
      (Q : A → Cache → Type 0) (E : Cache → Type 0) (f : Cache → Result A × Cache) (fs : List Bool)
      → (r : Result A × Cache) → Post Q E r
      → After Q E (r.0, record { state = r.1; faults = fs })
  After-run Q E f fs (ok a, s) q = q
  After-run Q E f fs (err e, s) x = x

  After-step :
      (Q : A → Cache → Type 0) (E : Cache → Type 0) (f : Cache → Result A × Cache) (s : Cache)
      (fs : List Bool)
      → Post Q E (f s)
      → E s
      → After Q E (statement f (record { state = s; faults = fs }))
  unfolding statement
  After-step Q E f s [] p x = After-run Q E f [] (f s) p
  After-step Q E f s (true ∷ fs) p x = x
  After-step Q E f s (false ∷ fs) p x = After-run Q E f fs (f s) p

  -- A statement that a constraint may refuse.
  pub Leaves-step :
      {P : Cache → Type 0} (Q : A → Cache → Type 0) (E : Cache → Type 0)
      (f : Cache → Result A × Cache)
      → ((s : Cache) → P s → Post Q E (f s))
      → ((s : Cache) → P s → E s)
      → Leaves P (statement f) Q E
  Leaves-step Q E f h x = record {
    at = λ c p. After-step Q E f c.state c.faults (h c.state p) (x c.state p);
  }

  abbrev pub Known : (A → Cache → Type 0) → (Cache → Type 0) → Option A → Cache → Type 0
  Known Q E (some a) s = Q a s
  Known Q E none s = E s

  After-tried :
      (Q : A → Cache → Type 0) (E F : Cache → Type 0) (r : Result A × Conn Cache)
      → After Q E r
      → After (Known Q E) F (tried_result r)
  After-tried Q E F (ok a, c) q = q
  After-tried Q E F (err e, c) x = x

  pub Leaves-tried :
      {P : Cache → Type 0} (Q : A → Cache → Type 0) (E F : Cache → Type 0) {m : Action A}
      → Leaves P m Q E
      → Leaves P (tried m) (Known Q E) F
  unfolding tried
  Leaves-tried Q E F {m} h = record { at = λ c p. After-tried Q E F (m c) (h.at c p) }

  pub Post-if :
      (Q : A → Cache → Type 0) (E : Cache → Type 0) (b : Bool) (x y : Result A × Cache)
      → (b ≡ true → Post Q E x)
      → (b ≡ false → Post Q E y)
      → Post Q E (if b then x else y)
  Post-if Q E true x y h k = h refl
  Post-if Q E false x y h k = k refl

  -- What holds after the value that came back.
  pub After-ok :
      (Q : A → Cache → Type 0) (E : Cache → Type 0) (r : Result A × Conn Cache) (a : A)
      → After Q E r
      → r.0 ≡ ok a
      → Q a r.1.state
  After-ok Q E (ok b, c) a q h = let e : b ≡ a = ground (arith, h) in subst (λ x. Q x c.state) e q
  After-ok Q E (err e, c) a x h = absurd (ground (arith, h))
