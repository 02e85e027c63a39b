-- ===== src/Ingest/Processor/Resolve.antt =====
-- resolveDocument: the document that it returns is live at the path, with the version it carries.
use hirame.Prelude.{
  ℕ, Bool, true, false, ◌||◌, not, List, [], ◌∷◌, ◌++◌, Option, none, some, ◌≡◌, refl, arith, ◌==◌,
  Bytes, bytes_eq_refl, find?, find?-test, has, has_of_find?, Option-cases, inl, inr,
}
use hirame.Ingest.Types.{Observation, Document}
use hirame.Ingest.Tx.{ok}
use hirame.Ingest.Tx.Ensures.{
  Ensures, Ensures-pure, Ensures-statement, Ensures-bind, Ensures-if, Ensures-weaken,
}
use hirame.Ingest.Rows.{Db, DocumentRow, live_at, to_document, deref_id}
use hirame.Ingest.Tables.Documents as D
use hirame.Ingest.Tables.Documents.{has_id, same_version, new_document, live_inode, live_content}
use hirame.Ingest.Queries.{
  Action, document_or_missing, find_live_document_by_inode, find_live_document_by_content,
  create_document,
}
use hirame.Ingest.Consistent.{IsConsistent}
use hirame.Ingest.Consistent.Documents.{create-IsConsistent}
use hirame.Ingest.Consistent.Moves.{Held-of_find?, Ready-of_self}
use hirame.Ingest.Keeps.{Nothing, Ensures-converted}
use hirame.Ingest.Reconciler.MoveFile.{Ensures-find_live_document_by_path}
use hirame.Ingest.Processor.{
  adopt_inode, move_or, resolve_by_content, resolve_by_inode, resolve_found, resolve_document,
}
use hirame.Ingest.Processor.Takes.{
  row_of, Resolved, Takes, Answer, Absent, Ensures-take, Takes-of, row_of_read, read_id,
}

-- A document that was found moves to the path; otherwise the next case is tried. The query may
-- depend on the tables.
Ensures-move_or :
    (mp : ℕ) (path : Bytes) (obs : Observation) (otherwise : Action Document)
    (q : Db → DocumentRow → Bool)
    → ((s : Db) (b : DocumentRow) → q s b ≡ true → (b.mountpoint_id ≡ mp) × (b.deleted ≡ false))
    → Ensures (Absent mp path) otherwise (Resolved mp path) Nothing
    → (o : Option Document)
    → Ensures
        (λ s. Answer mp path (q s) o s)
        (move_or path obs otherwise o)
        (Resolved mp path)
        Nothing
unfolding move_or
Ensures-move_or mp path obs otherwise q scope next none =
    Ensures-weaken _ (λ s k. (k.0, k.1)) (λ _ s r. r) next
Ensures-move_or mp path obs otherwise q scope next (some doc) =
    Ensures-bind (λ _. Resolved mp path doc)
      (Ensures-weaken _ (λ s. Takes-of mp path (q s) (scope s) doc s) (λ _ s r. r)
        (Ensures-take mp _ _ path doc))
      (λ _. Ensures-pure doc (λ s r. r))

created_documents :
    (mp dev ino : ℕ) (path : Bytes) (s : Db) (row : DocumentRow)
    → (D.create_document mp path dev ino s).0 ≡ ok row
    → (D.create_document mp path dev ino s).1.documents ≡ s.documents ++ row ∷ []
unfolding D.create_document D.store_documents
created_documents mp dev ino path s row h = ground arith

has-append_last :
    (q : DocumentRow → Bool) (rows : List DocumentRow) (row : DocumentRow)
    → q row ≡ true
    → has q (rows ++ row ∷ []) ≡ true
has-append_last q [] row h = ground arith
has-append_last q (x ∷ rows) row h = ground (arith, has-append_last q rows row h)

row_of_new :
    (id mp dev ino : ℕ) (path : Bytes)
    → row_of mp path
        (to_document (new_document id mp path dev ino))
        (new_document id mp path dev ino)
      ≡ true
unfolding to_document deref_id same_version
row_of_new id mp dev ino path = ground (arith, bytes_eq_refl path)

Ensures-create :
    (mp dev ino : ℕ) (path : Bytes)
    → Ensures (Absent mp path) (create_document mp path dev ino) (Resolved mp path) Nothing
unfolding create_document
Ensures-create mp dev ino path = Ensures-converted to_document _ (λ s p.
    let row = new_document s.next_document_id mp path dev ino in
    let (e, c) = create-IsConsistent mp dev ino path s p.0 p.1 in
    (
      row,
      e,
      (
        c,
        rw (created_documents mp dev ino path s row e)
            (has-append_last _ s.documents row (row_of_new s.next_document_id mp dev ino path)),
      ),
    ))

module _ (mp : ℕ) (path : Bytes) (obs : Observation) (digest : Bytes) where
  Ensures-find_content :
      Ensures
        (Absent mp path)
        (find_live_document_by_content mp digest)
        (λ o s. Answer mp path (live_content s mp digest) o s)
        Nothing
  unfolding find_live_document_by_content D.find_live_by_content
  Ensures-find_content = Ensures-statement _ (λ s p. (_, refl, (p.0, p.1, refl))) (λ _ _. tt)

  Ensures-find_inode :
      Ensures
        (Absent mp path)
        (find_live_document_by_inode mp obs.dev obs.ino)
        (λ o s. Answer mp path (live_inode mp obs.dev obs.ino) o s)
        Nothing
  unfolding find_live_document_by_inode D.find_live_by_inode
  Ensures-find_inode = Ensures-statement _ (λ s p. (_, refl, (p.0, p.1, refl))) (λ _ _. tt)

  Ensures-by_content :
      Ensures (Absent mp path) (resolve_by_content mp path obs digest) (Resolved mp path) Nothing
  unfolding resolve_by_content
  Ensures-by_content =
      Ensures-bind (λ o s. Answer mp path (live_content s mp digest) o s) Ensures-find_content
        (Ensures-move_or mp path obs _ (λ s. live_content s mp digest)
          (λ s b h. (ground arith, ground arith)) (Ensures-create mp obs.dev obs.ino path))

  Ensures-by_inode :
      Ensures (Absent mp path) (resolve_by_inode mp path obs digest) (Resolved mp path) Nothing
  unfolding resolve_by_inode
  Ensures-by_inode =
      Ensures-if (obs.ino == 0) (λ _. Ensures-by_content)
        (λ _.
          Ensures-bind (λ o s. Answer mp path (live_inode mp obs.dev obs.ino) o s)
            Ensures-find_inode
            (Ensures-move_or mp path obs _ (λ s. live_inode mp obs.dev obs.ino)
              (λ s b h. (ground arith, ground arith)) Ensures-by_content))

-- What the lookup by path answers.
abbrev Here : ℕ → Bytes → Option Document → Db → Type 0
Here mp path o s = IsConsistent s × (o ≡ document_or_missing (find? (live_at mp path) s.documents))

Here-row :
    (mp : ℕ) (path : Bytes) (doc : Document) (s : Db)
    → Here mp path (some doc) s
    → (b : DocumentRow) × (find? (live_at mp path) s.documents ≡ some b) × (doc ≡ to_document b)
Here-row mp path doc s (c, e) = elim (Option-cases (find? (live_at mp path) s.documents)) [
  | inl f ↦ absurd (ground arith)
  | inr (b, f) ↦ (b, f, ground arith)
]

Here-Absent : (mp : ℕ) (path : Bytes) (s : Db) → Here mp path none s → Absent mp path s
Here-Absent mp path s (c, e) = elim (Option-cases (find? (live_at mp path) s.documents)) [
  | inl f ↦ (c, f)
  | inr (b, f) ↦ absurd (ground arith)
]

Here-Takes :
    (mp : ℕ) (path : Bytes) (doc : Document) (s : Db)
    → Here mp path (some doc) s
    → Takes mp path doc s
Here-Takes mp path doc s h =
    let (b, f, r) = Here-row mp path doc s h in
    let l = find?-test (live_at mp path) s.documents b f in
    let m : b.mountpoint_id ≡ mp = ground arith in
    record {
      query = live_at mp path;
      row = b;
      found = f;
      read = r;
      home = m;
      live = ground arith;
      ready =
          rw (← read_id doc b r)
            (Ready-of_self b.id mp path s (Held-of_find? mp _ b s h.0 f m) b f refl);
    }

Here-Resolved :
    (mp : ℕ) (path : Bytes) (doc : Document) (s : Db)
    → Here mp path (some doc) s
    → Resolved mp path doc s
Here-Resolved mp path doc s h =
    let (b, f, r) = Here-row mp path doc s h in
    (
      h.0,
      has_of_find? (row_of mp path doc) _ s.documents b f (
          row_of_read mp path doc _ b b s h.0 f r refl refl
            (find?-test (live_at mp path) s.documents b f)),
    )

module _ (mp : ℕ) (path : Bytes) (obs : Observation) (digest : Bytes) where
  Ensures-resolve_found :
      (o : Option Document)
      → Ensures (Here mp path o) (resolve_found mp path obs digest o) (Resolved mp path) Nothing
  unfolding resolve_found adopt_inode
  Ensures-resolve_found none =
      Ensures-weaken _ (Here-Absent mp path) (λ _ s r. r) (Ensures-by_inode mp path obs digest)
  Ensures-resolve_found (some doc) =
      Ensures-if (not (doc.dev == obs.dev) || not (doc.ino == obs.ino))
        (λ _.
          Ensures-bind (λ _. Resolved mp path doc)
            (Ensures-weaken _ (Here-Takes mp path doc) (λ _ s r. r) (Ensures-take mp _ _ path doc))
            (λ _. Ensures-pure doc (λ s r. r)))
        (λ _. Ensures-pure doc (Here-Resolved mp path doc))

  -- resolveDocument, from consistent tables.
  pub Ensures-resolve_document :
      Ensures IsConsistent (resolve_document mp path obs digest) (Resolved mp path) Nothing
  unfolding resolve_document
  Ensures-resolve_document =
      Ensures-bind (Here mp path) (Ensures-find_live_document_by_path IsConsistent mp path)
        Ensures-resolve_found
