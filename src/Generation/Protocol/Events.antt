-- ===== src/Generation/Protocol/Events.antt =====
-- The events of `generate_answer_stream` of backend/src/app/services/generation.py as runs of the
-- protocol.
use normeon_german_technical.Prelude.{list_eq, nat_eq}
use normeon_german_technical.QueryLog.{QueryLog}
