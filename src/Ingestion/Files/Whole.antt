-- ===== src/Ingestion/Files/Whole.antt =====
-- The whole of `ingest_document` of backend/src/app/services/ingestion.py.
use normeon_german_technical.Ingestion.{Status, ready}
use normeon_german_technical.Ingestion.Files.{Ingest, unsupported, raised, returned}
use normeon_german_technical.Prelude.{◌≡◌, ◌≢◌, true, false, nat_eq, list_eq}
use normeon_german_technical.Prelude.Dict.{Dict}
use normeon_german_technical.Ingestion.Process.{Calls}
use normeon_german_technical.Ingestion.Process.Phases.{IsEmbedded}

module _ {B V : Type 0} where
  -- The document is ready; it is said to have been so exactly where it was; and where it was not, all
  -- its chunks are embedded.
  abbrev pub IsIngested : Calls B V → Status → Ingest B V → Type 0
  IsIngested calls before unsupported = ⊥
  IsIngested calls before (raised session) = ⊥
  IsIngested calls before (returned session already) =
      (session.document.status ≡ ready)
      × ((before ≡ ready) → already ≡ true)
      × ((before ≢ ready) → (already ≡ false) × IsEmbedded calls session)
