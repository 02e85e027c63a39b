-- ===== src/Ingest/Processor/Takes.antt =====
-- A document that a lookup found takes the path.
use hirame.Prelude.{
  ℕ, ◌<◌, Bool, true, false, ◌&&◌, List, [], ◌∷◌, Option, none, some, ◌≡◌, refl, arith, ◌==◌, Bytes,
  bytes_eq_refl, find?, find?-test, has, All, All-find?, update_where, Option-cases, inl, inr,
}
use hirame.Ingest.Types.{Document}
use hirame.Ingest.Tx.{ok}
use hirame.Ingest.Tx.Ensures.{Ensures, Ensures-statement}
use hirame.Ingest.Rows.{Db, DocumentRow, VersionRow, live_at, to_document, deref_id}
use hirame.Ingest.Tables.Documents as D
use hirame.Ingest.Tables.Documents.{has_id, same_version, new_document, live_inode, live_content}
use hirame.Ingest.Queries.{document_or_missing, expected_id, move_document}
use hirame.Ingest.Consistent.{IsConsistent, Refers}
use hirame.Ingest.Consistent.Documents.{move-IsConsistent}
use hirame.Ingest.Consistent.Moves.{Ready, Held-of_find?, Ready-of_absent}
use hirame.Ingest.Keeps.{Nothing}

-- The row of a document that was read: live at the path, with the version that was read.
abbrev pub row_of : ℕ → Bytes → Document → DocumentRow → Bool
row_of mp path doc d =
    (d.id == doc.id)
    && (live_at mp path d
        && same_version d.current_content_version_id (expected_id doc.current_content_version_id))

abbrev pub Resolved : ℕ → Bytes → Document → Db → Type 0
Resolved mp path doc s = IsConsistent s × (has (row_of mp path doc) s.documents ≡ true)

has-update_found :
    (Q p q : DocumentRow → Bool) (f : DocumentRow → DocumentRow) (xs : List DocumentRow)
    (a : DocumentRow)
    → find? q xs ≡ some a
    → p a ≡ true
    → Q (f a) ≡ true
    → has Q (update_where p f xs) ≡ true
has-update_found Q p q f [] a h e k = ground arith
has-update_found Q p q f (x ∷ xs) a h e k = ground (arith, has-update_found Q p q f xs a)

positive_id :
    (v : ℕ) (vs : List VersionRow) (n : ℕ)
    → All (λ w. (0 < w.id) × (w.id < n)) vs
    → has (λ w. w.id == v) vs ≡ true
    → (v == 0) ≡ false
positive_id v [] n a h = absurd (ground arith)
positive_id v (w ∷ vs) n (a, rest) h = ground (arith, a.0, positive_id v vs n rest)

expected-deref :
    (vs : List VersionRow) (n : ℕ) (o : Option ℕ)
    → All (λ w. (0 < w.id) × (w.id < n)) vs
    → Refers vs o
    → same_version o (expected_id (deref_id o)) ≡ true
unfolding same_version deref_id
expected-deref vs n none a r = refl
expected-deref vs n (some v) a r = rw (positive_id v vs n a r, same_version) (ground arith)

-- A row that a query found, read as a document.
found_version :
    (q : DocumentRow → Bool) (b : DocumentRow) (s : Db)
    → IsConsistent s
    → find? q s.documents ≡ some b
    → same_version b.current_content_version_id
        (expected_id (to_document b).current_content_version_id)
      ≡ true
unfolding to_document
found_version q b s c f =
    expected-deref s.versions s.next_version_id _ c.version_fresh
      (All-find? _ q s.documents b c.current f)

moved_documents :
    (id dev ino : ℕ) (path : Bytes) (s : Db)
    → (D.move_document id path dev ino s).0 ≡ ok tt
    → (D.move_document id path dev ino s).1.documents
      ≡ update_where (has_id id) (λ d. record d { path = path; dev = dev; ino = ino }) s.documents
unfolding D.move_document D.store_documents
moved_documents id dev ino path s h = ground arith

-- A row that a query found in the mountpoint, and its document, which may take the path.
pub record Takes (mp : ℕ) (path : Bytes) (doc : Document) (s : Db) : Type 0 where
  pub query : DocumentRow → Bool
  pub row : DocumentRow
  pub found : find? query s.documents ≡ some row
  pub read : doc ≡ to_document row
  pub home : row.mountpoint_id ≡ mp
  pub live : row.deleted ≡ false
  pub ready : Ready doc.id mp path s

pub read_id : (doc : Document) (b : DocumentRow) → doc ≡ to_document b → b.id ≡ doc.id
unfolding to_document
read_id doc b e = ground arith

-- The row that was read, as a document of the path.
pub row_of_read :
    (mp : ℕ) (path : Bytes) (doc : Document) (q : DocumentRow → Bool) (b d : DocumentRow) (s : Db)
    → IsConsistent s
    → find? q s.documents ≡ some b
    → doc ≡ to_document b
    → d.id ≡ b.id
    → d.current_content_version_id ≡ b.current_content_version_id
    → live_at mp path d ≡ true
    → row_of mp path doc d ≡ true
row_of_read mp path doc q b d s c f r i v l =
    let known : same_version b.current_content_version_id
          (expected_id doc.current_content_version_id)
        ≡ true =
      rw r (found_version q b s c f) in
    rw (i, v, l, known, read_id doc b r) (ground arith)

pub Ensures-take :
    (mp dev ino : ℕ) (path : Bytes) (doc : Document)
    → Ensures
        (Takes mp path doc)
        (move_document doc.id path dev ino)
        (λ _. Resolved mp path doc)
        Nothing
unfolding move_document
Ensures-take mp dev ino path doc =
    Ensures-statement _
      (λ s t.
        let (e, c) =
          move-IsConsistent doc.id mp dev ino path s t.ready.consistent t.ready.may t.ready.there in
        (
          tt,
          e,
          (
            c,
            rw (moved_documents doc.id dev ino path s e) (
                has-update_found (row_of mp path doc) (has_id doc.id) t.query _ s.documents t.row
                  t.found (ground (arith, read_id doc t.row t.read))
                  (row_of_read mp path doc t.query t.row
                    (record t.row { path = path; dev = dev; ino = ino }) s t.ready.consistent
                    t.found t.read refl refl (ground (arith, bytes_eq_refl path, t.home, t.live)))),
          ),
        ))
      (λ _ _. tt)

-- What a lookup of a live document in the mountpoint answers.
abbrev pub Answer : ℕ → Bytes → (DocumentRow → Bool) → Option Document → Db → Type 0
Answer mp path q o s =
    IsConsistent s
    × (find? (live_at mp path) s.documents ≡ none)
    × (o ≡ document_or_missing (find? q s.documents))

abbrev pub Absent : ℕ → Bytes → Db → Type 0
Absent mp path s = IsConsistent s × (find? (live_at mp path) s.documents ≡ none)

Answer-row :
    (mp : ℕ) (path : Bytes) (q : DocumentRow → Bool) (doc : Document) (s : Db)
    → Answer mp path q (some doc) s
    → (b : DocumentRow) × (find? q s.documents ≡ some b) × (doc ≡ to_document b)
Answer-row mp path q doc s (c, a, e) = elim (Option-cases (find? q s.documents)) [
  | inl f ↦ absurd (ground arith)
  | inr (b, f) ↦ (b, f, ground arith)
]

pub Takes-of :
    (mp : ℕ) (path : Bytes) (q : DocumentRow → Bool)
    → ((b : DocumentRow) → q b ≡ true → (b.mountpoint_id ≡ mp) × (b.deleted ≡ false))
    → (doc : Document) (s : Db) → Answer mp path q (some doc) s
    → Takes mp path doc s
Takes-of mp path q scope doc s k =
    let (b, f, r) = Answer-row mp path q doc s k in
    let (m, l) = scope b (find?-test q s.documents b f) in
    record {
      query = q;
      row = b;
      found = f;
      read = r;
      home = m;
      live = l;
      ready =
          rw (← read_id doc b r)
            (Ready-of_absent b.id mp path s (Held-of_find? mp q b s k.0 f m) k.1);
    }
