-- ===== src/QueryLog.antt =====
-- The fingerprint of a configuration and the row of an answer:
-- backend/src/app/domain/config_hash.py and backend/src/app/services/query_log.py.
use normeon_german_technical.Prelude.{
  ℕ, Text, Bool, true, false, Option, none, some, List, [], ◌∷◌, ◌++◌, ltb, if◌then◌else◌, Result,
  ok, err,
}
use normeon_german_technical.Prelude.Dict.{Dict}
use normeon_german_technical.Prelude.Sort.{sort}
use normeon_german_technical.Retrieval.{Uuid}

-- A value of a configuration.
pub data Value (F : Type 0) : Type 0 where
  text : Text → Value F
  int : ℕ → Value F
  float : F → Value F

-- `s < t`, for texts
abbrev pub text_ltb : Text → Text → Bool
text_ltb s [] = false
text_ltb [] (c ∷ t) = true
text_ltb (x ∷ s) (c ∷ t) = if ltb x c then true else if ltb c x then false else text_ltb s t

-- `compute_config_hash`; `json.dumps` with compact separators and SHA-256 are parameters.
unfoldable pub compute_config_hash :
    {F : Type 0} → (Dict Text (Value F) → Text) → (Text → Text) → Dict Text (Value F) → Text
unfolding sort
compute_config_hash dumps sha256 fields = sha256 (dumps (sort (λ a b. text_ltb a.0 b.0) fields))

pub record QueryLog (F : Type 0) : Type 0 where
  pub request_id : Text
  pub tenant_id : Uuid
  pub question : Text
  pub config_hash : Text
  pub retrieved_ids : List Uuid
  pub answer : Text
  pub abstained : Bool
  pub retrieval_ms : F
  pub generation_ms : F
  pub total_ms : F
  pub prompt_tokens : ℕ
  pub completion_tokens : ℕ
  pub cost_usd : Option F

-- `record_query_log`: the table after the commit, which the database may refuse.
unfoldable pub record_query_log :
    {F E : Type 0}
    → (QueryLog F → Option E)
    → QueryLog F
    → List (QueryLog F)
    → Result E (List (QueryLog F))
record_query_log commit row rows = elim (commit row) [
  | none ↦ ok (rows ++ row ∷ [])
  | some e ↦ err e
]
