-- ===== src/Generation/Outcome.antt =====
-- What `generate_answer` of backend/src/app/services/generation.py returns and records.
use normeon_german_technical.Generation.{
  Source, Dict, Uuid, Failure, Env, Ask, Prepared, prepare, log_query, query_row,
}
use normeon_german_technical.Prelude.{
  arith, ℕ, Text, Bool, true, false, Option, none, some, List, [], ◌∷◌, ◌++◌, ◌≡◌, ◌≢◌, ◌⊎◌, inl,
  inr, ◌==◌, list_eq, nat_eq, refl, subst, Result, ok, err, ◌>>=◌, if◌then◌else◌,
}
use normeon_german_technical.Scalar.{FloatOps}
use normeon_german_technical.Config.{Settings}
use normeon_german_technical.Retrieval.Search.{Database, Models}
use normeon_german_technical.Retrieval.Pipeline.{Rerank, Stopwatch, elapsed_ms}
use normeon_german_technical.Citations.{abstention_text, Validated, extract_and_validate}
use normeon_german_technical.Citations.Laws.{extract_and_validate_grounded}
use normeon_german_technical.QueryLog.{QueryLog, record_query_log}
use normeon_german_technical.Generation.Answer.{
  AnswerResult, LlmResponse, LlmClient, CallTime, validate, or_key_error, generate_answer,
  answer_prepared, answer_abstained, answer_completed, request_completion,
}

-- A result that is grounded in a citation or abstains, and whose row says so.
abbrev pub Recorded :
    {F : Type 0} → Uuid → Text → List (QueryLog F) → AnswerResult F → List (QueryLog F) → Type 0
Recorded {F} tenant_id question rows result after =
    ((result.answer ≡ abstention_text) ⊎ (result.citations ≢ []))
    × (row : QueryLog F) × (after ≡ rows ++ row ∷ [])
    × (row.tenant_id ≡ tenant_id)
    × (row.question ≡ question)
    × (row.answer ≡ result.answer)
    × (row.abstained ≡ (result.answer == abstention_text))

abbrev IsRecorded :
    {F : Type 0}
    → Uuid
    → Text
    → List (QueryLog F)
    → Result Failure (AnswerResult F × List (QueryLog F))
    → Type 0
IsRecorded tenant_id question rows (ok (result, after)) =
    Recorded tenant_id question rows result after
IsRecorded tenant_id question rows (err _) = Unit

or_key_error_lem : (x : Option Validated) (v : Validated) → or_key_error x ≡ ok v → x ≡ some v
or_key_error_lem none v h = ground (arith, h)
or_key_error_lem (some w) v h = ground (arith, h)

grounded :
    (answer : Text) (sources : Dict Text Source) (v : Validated)
    → validate answer sources ≡ ok v
    → (v.answer ≡ abstention_text) ⊎ (v.citations ≢ [])
unfolding validate
grounded answer sources v h =
    extract_and_validate_grounded answer sources v
      (or_key_error_lem (extract_and_validate answer sources) v h)

module _ {F V : Type 0} (fl : FloatOps F) (settings : Settings F) (db : Database F V)
    (models : Models V) (env : Env F) (rerank : Rerank F) (llm : LlmClient F) where
  logged_or_failed :
      (ask : Ask) (prep : Prepared F) (answer : Text) (abstained : Bool) (ms : F) (model : Text)
      (p c : Option ℕ) (rows : List (QueryLog F))
      → ((cost : Option F) × (log_query fl settings db models env rerank ask prep answer abstained
              ms model p c rows
            ≡ ok (
              cost,
              rows
                  ++ query_row fl settings db models env rerank ask prep answer abstained ms model p
                      c
                    ∷ [],
            )))
        ⊎ ((e : Failure) × (log_query fl settings db models env rerank ask prep answer abstained ms
                model p c rows
              ≡ err e))
  unfolding log_query record_query_log
  logged_or_failed ask prep answer abstained ms model p c rows =
      let row = query_row fl settings db models env rerank ask prep answer abstained ms model p c in
      (elim (env.commit row)
          as (λ x.
            env.commit row ≡ x
            → ((cost : Option F) × (log_query fl settings db models env rerank ask prep answer
                    abstained ms model p c rows
                  ≡ ok (
                    cost,
                    rows
                        ++ query_row fl settings db models env rerank ask prep answer abstained ms
                            model p c
                          ∷ [],
                  )))
              ⊎ ((e : Failure) × (log_query fl settings db models env rerank ask prep answer
                      abstained ms model p c rows
                    ≡ err e))) [
                      | none ↦ λ h. inl (row.cost_usd, ground (arith, h))
                      | some e ↦ λ h. inr (e, ground (arith, h))
                    ])
        refl

  IsRecorded-abstained :
      (ask : Ask) (prep : Prepared F) (rows : List (QueryLog F))
      → IsRecorded ask.tenant_id ask.question rows
          (answer_abstained fl settings db models env rerank llm ask prep rows)
  unfolding answer_abstained query_row
  IsRecorded-abstained ask prep rows =
      elim (logged_or_failed ask prep abstention_text true fl.zero llm.name none none rows) [
        | inl (cost, h) ↦
            rw (h, answer_abstained, ◌>>=◌)
              (
                inl refl,
                query_row fl settings db models env rerank ask prep abstention_text true fl.zero
                    llm.name none none,
                refl,
                refl,
                refl,
                refl,
                ground arith,
              )
        | inr (e, h) ↦ rw (h, answer_abstained, ◌>>=◌) tt
      ]

  IsRecorded-completed :
      (time : CallTime F) (ask : Ask) (prep : Prepared F) (c : LlmResponse)
      (rows : List (QueryLog F))
      → IsRecorded ask.tenant_id ask.question rows
          (answer_completed fl settings db models env rerank llm time ask prep c rows)
  unfolding answer_completed query_row
  IsRecorded-completed time ask prep c rows =
      let ms = elapsed_ms fl time.started time.ended in
      (elim (validate c.text prep.sources)
          as (λ x.
            validate c.text prep.sources ≡ x
            → IsRecorded ask.tenant_id ask.question rows
                (answer_completed fl settings db models env rerank llm time ask prep c rows)) [
                  | err e ↦ λ h. rw (h, answer_completed, ◌>>=◌) tt
                  | ok v ↦ λ h.
                      elim (logged_or_failed ask prep v.answer (v.answer == abstention_text) ms
                        c.model c.prompt_tokens c.completion_tokens rows) [
                          | inl (cost, g) ↦
                              rw (h, g, answer_completed, ◌>>=◌)
                                (
                                  grounded c.text prep.sources v h,
                                  query_row fl settings db models env rerank ask prep v.answer
                                      (v.answer == abstention_text) ms c.model c.prompt_tokens
                                      c.completion_tokens,
                                  refl,
                                  refl,
                                  refl,
                                  refl,
                                  refl,
                                )
                          | inr (e, g) ↦ rw (h, g, answer_completed, ◌>>=◌) tt
                        ]
                ])
        refl

  IsRecorded-prepared :
      (time : CallTime F) (ask : Ask) (prep : Prepared F) (rows : List (QueryLog F))
      → IsRecorded ask.tenant_id ask.question rows
          (answer_prepared fl settings db models env rerank llm time ask prep rows)
  unfolding answer_prepared
  IsRecorded-prepared time ask prep rows =
      elim prep.abstain_pre_generation
        as (λ b. IsRecorded ask.tenant_id ask.question rows (
          if b
          then answer_abstained fl settings db models env rerank llm ask prep rows
          else (request_completion fl settings db models env rerank llm prep >>= λ c.
              answer_completed fl settings db models env rerank llm time ask prep c rows))) [
                | true ↦ IsRecorded-abstained ask prep rows
                | false ↦
                    elim (request_completion fl settings db models env rerank llm prep)
                      as (λ x. IsRecorded ask.tenant_id ask.question rows (
                        x >>= λ c.
                        answer_completed fl settings db models env rerank llm time ask prep c
                          rows)) [ ok c ↦ IsRecorded-completed time ask prep c rows | err e ↦ tt ]
              ]

  recorded :
      (time : CallTime F) (ask : Ask) (rows : List (QueryLog F))
      (prep : Result Failure (Prepared F))
      → IsRecorded ask.tenant_id ask.question rows
          (prep >>= λ p. answer_prepared fl settings db models env rerank llm time ask p rows)
  recorded time ask rows (err e) = tt
  recorded time ask rows (ok prep) = IsRecorded-prepared time ask prep rows

  -- Every answer that `generate_answer` returns cites a source or is NICHT_GEFUNDEN, and adds
  -- exactly one row to the table of queries, with the tenant, the question, the returned answer,
  -- and the flag `abstained` set exactly when that answer is NICHT_GEFUNDEN.
  pub generate_answer-Recorded :
      (watch : Stopwatch F) (time : CallTime F) (ask : Ask) (rows after : List (QueryLog F))
      (result : AnswerResult F)
      → generate_answer fl settings db models env rerank llm watch time ask rows
        ≡ ok (result, after)
      → Recorded ask.tenant_id ask.question rows result after
  unfolding generate_answer
  generate_answer-Recorded watch time ask rows after result h =
      subst (IsRecorded ask.tenant_id ask.question rows) h
        (recorded time ask rows (prepare fl settings db models env rerank watch ask))
