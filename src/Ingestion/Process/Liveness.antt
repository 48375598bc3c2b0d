-- ===== src/Ingestion/Process/Liveness.antt =====
-- When `process_document` of backend/src/app/services/ingestion.py succeeds.
use normeon_german_technical.Prelude.{◌≡◌, Text, some, List, length, nat_eq, list_eq, pair_eq}
use normeon_german_technical.Ingestion.Store.{Embedder}

module _ {V : Type 0} where
  -- The model raises nothing and returns a vector for each passage.
  abbrev pub IsTotal : Embedder V → Type 0
  IsTotal embedder =
      (passages : List Text)
      → (vectors : List V) × (embedder.embed_passages passages ≡ some vectors)
        × (length vectors ≡ length passages)
