-- ===== src/Ingest/Tx.antt =====
-- Code that runs in a transaction: an action over the database and the faults that the environment
-- has in store. Every statement and every call of the environment may fail; after a failure the
-- code returns at once, as the `if err != nil` lines of the source do.
pub mod Ensures
pub mod Rollback
use hirame.Prelude.{Bool, true, false, List, [], ◌∷◌, ◌≡◌, ◌≢◌, refl, max}
use hirame.Ingest.Types.{Error, fault}
use hirame.Ingest.Rows.{Db}

pub data Result {ℓ} (A : Type ℓ) : Type ℓ where
  ok : A → Result A
  err : Error → Result A

-- `faults` says of each call to come whether it fails; past its end no call does.
pub record Conn {ℓ} (S : Type ℓ) : Type ℓ where
  pub state : S
  pub faults : List Bool

-- The environment fails no call.
abbrev pub calm {ℓ} : {S : Type ℓ} → S → Conn S
calm s = record { state = s; faults = [] }

abbrev pub Tx {ℓ} : Type ℓ → Type ℓ → Type ℓ
Tx S A = Conn S → Result A × Conn S

module _ {ℓ} {S A : Type ℓ} where
  abbrev pub pure : A → Tx S A
  pure a c = (ok a, c)

  abbrev pub raise : Error → Tx S A
  raise e c = (err e, c)

  -- A statement: it fails if the environment says so, else it computes a result and a state.
  abbrev pub run_statement : (S → Result A × S) → S → List Bool → Result A × Conn S
  run_statement f s faults = let (r, s') = f s in (r, record { state = s'; faults = faults })

  abbrev with_faults : (S → Result A × S) → S → List Bool → Result A × Conn S
  with_faults f s [] = run_statement f s []
  with_faults f s (true ∷ fs) = (err fault, record { state = s; faults = fs })
  with_faults f s (false ∷ fs) = run_statement f s fs

  unfoldable pub statement : (S → Result A × S) → Tx S A
  statement f c = with_faults f c.state c.faults

module _ {ℓ} {S A B : Type ℓ} where
  abbrev pub continue : Result A × Conn S → (A → Tx S B) → Result B × Conn S
  continue (ok a, c) f = f a c
  continue (err e, c) f = (err e, c)

  infixl 5 ◌>>=◌ ◌>>◌
  abbrev pub ◌>>=◌ : Tx S A → (A → Tx S B) → Tx S B
  ◌>>=◌ m f c = continue (m c) f

  abbrev pub ◌>>◌ : Tx S A → Tx S B → Tx S B
  ◌>>◌ m k c = continue (m c) (λ _. k)

module _ {ℓ} {S : Type ℓ} where
  -- BEGIN and COMMIT: calls that change nothing and may fail.
  unfoldable pub ping : Tx S (Unit {ℓ})
  unfolding statement
  ping = statement (λ s. (ok tt, s))

-- ROLLBACK: the rows are again what they were, and what the sequences gave stays given. A sequence
-- never goes back, so the larger of its two values is the later one.
unfoldable pub roll_back : Db → Db → Db
roll_back s t = record s {
  scan_epoch = max s.scan_epoch t.scan_epoch;
  next_document_id = max s.next_document_id t.next_document_id;
  next_version_id = max s.next_version_id t.next_version_id;
}

module _ {A : Type 0} where
  -- PGStore.InTx: what was written is kept when the code returns nil, and rolled back otherwise.
  abbrev pub settle : Db → Result A × Conn Db → Result A × Conn Db
  settle s (ok a, c) = (ok a, c)
  settle s (err e, c) = (err e, record c { state = roll_back s c.state })

  unfoldable pub in_tx : Tx Db A → Tx Db A
  unfolding ping roll_back
  in_tx m c = settle c.state ((do ping; a ← m; ping; pure a) c)
