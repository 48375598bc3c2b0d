-- ===== src/Ingestion/Documents.antt =====
-- The table of documents under `get_or_create_document` of
-- backend/src/app/services/ingestion.py.
use normeon_german_technical.Prelude.{
  Bool-cases, ap, ◌≡◌, ◌⊎◌, inl, inr, refl, Text, Bool, true, false, ◌&&◌, ◌==◌, none, some, List,
  [], ◌∷◌, ◌++◌, contains, append-Distinct, Distinct, nat_eq, list_eq, pair_eq, arith,
}
use normeon_german_technical.Retrieval.{Uuid}
use normeon_german_technical.Ingestion.{
  Document, Upload, find_upload, new_document, get_or_create_document,
}

-- The columns of the constraint `uq_doc_tenant_hash`.
abbrev pub upload_keys : List Document → List (Uuid × Text)
upload_keys [] = []
upload_keys (document ∷ documents) =
    (document.tenant_id, document.content_hash) ∷ upload_keys documents

-- The document stands in the table.
abbrev pub Stands : Document → List Document → Type 0
Stands document [] = ⊥
Stands document (d ∷ documents) = (d ≡ document) ⊎ Stands document documents

upload_keys-append :
    (xs ys : List Document) → upload_keys (xs ++ ys) ≡ upload_keys xs ++ upload_keys ys
upload_keys-append [] ys = refl
upload_keys-append (d ∷ xs) ys = ap (◌∷◌ (d.tenant_id, d.content_hash)) (upload_keys-append xs ys)

find_upload-none :
    (tenant : Uuid) (hash : Text) (documents : List Document)
    → find_upload tenant hash documents ≡ none
    → contains (upload_keys documents) (tenant, hash) ≡ false
unfolding find_upload pair_eq
find_upload-none tenant hash [] h = refl
find_upload-none tenant hash (d ∷ documents) h =
    ground (arith, h, find_upload-none tenant hash documents)

find_upload-some :
    (tenant : Uuid) (hash : Text) (documents : List Document) (document : Document)
    → find_upload tenant hash documents ≡ some document
    → Stands document documents × (document.tenant_id ≡ tenant) × (document.content_hash ≡ hash)
unfolding find_upload
find_upload-some tenant hash [] document h = ground (arith, h)
find_upload-some tenant hash (d ∷ documents) document h =
    elim (Bool-cases (d.tenant_id == tenant && d.content_hash == hash)) [
      | inl e ↦
          let same : d ≡ document = ground (arith, h, e) in
          (inl same, ground (arith, e, same), ground (arith, e, same))
      | inr e ↦
          let (stands, own, key) =
            find_upload-some tenant hash documents document (ground (arith, h, e)) in
          (inr stands, own, key)
    ]

Stands-append :
    (document : Document) (xs ys : List Document) → Stands document xs → Stands document (xs ++ ys)
Stands-append document [] ys h = absurd h
Stands-append document (x ∷ xs) ys (inl e) = inl e
Stands-append document (x ∷ xs) ys (inr h) = inr (Stands-append document xs ys h)

Stands-last : (document : Document) (xs : List Document) → Stands document (xs ++ document ∷ [])
Stands-last document [] = inl refl
Stands-last document (x ∷ xs) = inr (Stands-last document xs)

-- The document of an upload, in a table where each key stands once.
abbrev pub IsUpload : (Text → Text) → Upload → Document × Bool × List Document → Type 0
IsUpload sha256 upload (document, created, documents) =
    Stands document documents
    × (document.tenant_id ≡ upload.tenant_id)
    × (document.content_hash ≡ sha256 upload.content)
    × Distinct (upload_keys documents)

-- Whatever rows other requests insert between the lookup and the commit, as long as no key stands
-- twice among the rows, `get_or_create_document` returns a document of the tenant and with the hash
-- of the content, which stands in the table after it, and no key stands twice there.
pub get_or_create_document-IsUpload :
    (sha256 : Text → Text) (id : Uuid) (others documents : List Document) (upload : Upload)
    → Distinct (upload_keys (documents ++ others))
    → IsUpload sha256 upload (get_or_create_document sha256 id others upload documents)
unfolding get_or_create_document
get_or_create_document-IsUpload sha256 id others documents upload u =
    let hash = sha256 upload.content in
    (elim (find_upload upload.tenant_id hash documents)
        as (λ x.
          find_upload upload.tenant_id hash documents ≡ x
          → IsUpload sha256 upload (elim x [
            | some existing ↦ (existing, false, documents ++ others)
            | none ↦ elim (find_upload upload.tenant_id hash (documents ++ others)) [
              | some raced ↦ (raced, false, documents ++ others)
              | none ↦ (
                new_document id hash upload,
                true,
                (documents ++ others) ++ new_document id hash upload ∷ [],
              )
            ]
          ])) [
            | some existing ↦ λ h.
                let (stands, own, key) =
                  find_upload-some upload.tenant_id hash documents existing h in
                (Stands-append existing documents others stands, own, key, u)
            | none ↦ λ _.
                (elim (find_upload upload.tenant_id hash (documents ++ others))
                    as (λ x.
                      find_upload upload.tenant_id hash (documents ++ others) ≡ x
                      → IsUpload sha256 upload (elim x [
                        | some raced ↦ (raced, false, documents ++ others)
                        | none ↦ (
                          new_document id hash upload,
                          true,
                          (documents ++ others) ++ new_document id hash upload ∷ [],
                        )
                      ])) [
                        | some raced ↦ λ h.
                            let (stands, own, key) =
                              find_upload-some upload.tenant_id hash (documents ++ others) raced
                                h in
                            (stands, own, key, u)
                        | none ↦ λ h.
                            let fresh =
                              find_upload-none upload.tenant_id hash (documents ++ others) h in
                            let kept =
                              append-Distinct (upload_keys (documents ++ others))
                                (upload.tenant_id, hash) u fresh in
                            (
                              Stands-last (new_document id hash upload) (documents ++ others),
                              refl,
                              refl,
                              rw
                                  (upload_keys-append (documents ++ others)
                                    (new_document id hash upload ∷ []))
                                  kept,
                            )
                      ])
                  refl
          ])
      refl
