-- ===== src/Generation/Parity/Streams.antt =====
-- The end of `generate_answer_stream` and the result of `generate_answer`, of
-- backend/src/app/services/generation.py.
use normeon_german_technical.Generation.Parity.{
  Parity-abstained, Parity-abstained, draft_of, empty_draft, EndsWith, Parity, completed, streamed,
}
use normeon_german_technical.Prelude.{
  ap, Text, true, false, none, List, [], ◌∷◌, ◌++◌, ◌≡◌, list_eq, nat_eq, refl, sym, subst, Result,
  ok, err, ◌>>=◌, if◌then◌else◌,
}
use normeon_german_technical.Scalar.{FloatOps}
use normeon_german_technical.Config.{Settings}
use normeon_german_technical.Retrieval.Search.{Database, Models}
use normeon_german_technical.Retrieval.Pipeline.{Rerank, Stopwatch, elapsed_ms}
use normeon_german_technical.Prelude.Dict.{values}
use normeon_german_technical.QueryLog.{QueryLog}
use normeon_german_technical.Generation.{Failure, Env, Ask, Prepared, prepare}
use normeon_german_technical.Generation.Answer.{
  AnswerResult, Delta, LlmResponse, LlmClient, CallTime, validate, generate_answer, answer_prepared,
  answer_abstained, answer_completed, request_completion,
}
use normeon_german_technical.Generation.Stream.{
  stage, sources, retrieving, generating, latency, token_events, read_deltas, stream_abstention,
  stream_end, stream_generated, stream_prepared, stream_body, generate_answer_stream, plain_ask,
  rerank_stage, reranking_started,
}

extend :
    {A : Type 0} (prefix front ending events : List A)
    → events ≡ front ++ ending
    → prefix ++ events ≡ (prefix ++ front) ++ ending
extend [] front ending events h = h
extend (x ∷ prefix) front ending events h = ap (◌∷◌ x) (extend prefix front ending events h)

module _ {F V : Type 0} (fl : FloatOps F) (settings : Settings F) (db : Database F V)
    (models : Models V) (env : Env F) (rerank : Rerank F) (llm : LlmClient F)
    (commits : (row : QueryLog F) → env.commit row ≡ none)
    (spells : (system user : Text) (c : LlmResponse)
      → llm.complete system user settings.llm_temperature settings.llm_max_tokens ≡ ok c
      → (deltas : List Delta) × (llm.stream system user settings.llm_temperature
            settings.llm_max_tokens
          ≡ (deltas, none))
        × (read_deltas (empty_draft llm.name) deltas ≡ draft_of c)) where
  not_validated :
      (time : CallTime F) (ask : Ask) (prep : Prepared F) (rows : List (QueryLog F))
      (c : LlmResponse) (e : Failure)
      → validate c.text prep.sources ≡ err e
      → answer_completed fl settings db models env rerank llm time ask prep c rows ≡ err e
  unfolding answer_completed
  not_validated time ask prep rows c e h = rw (h, answer_completed, ◌>>=◌) refl

  Parity-reply :
      (time : CallTime F) (ask : Ask) (prep : Prepared F) (rows : List (QueryLog F))
      (c : LlmResponse) (deltas : List Delta)
      → read_deltas (empty_draft llm.name) deltas ≡ draft_of c
      → Parity (answer_completed fl settings db models env rerank llm time ask prep c rows) (
          sources (values prep.sources)
          ∷ stage generating
          ∷ (token_events deltas
              ++ (stream_end fl settings db models env rerank llm time ask prep deltas none
                  rows).0))
  Parity-reply time ask prep rows c deltas read =
      (elim (validate c.text prep.sources)
          as (λ x.
            validate c.text prep.sources ≡ x
            → Parity (answer_completed fl settings db models env rerank llm time ask prep c rows) (
                sources (values prep.sources)
                ∷ stage generating
                ∷ (token_events deltas
                    ++ (stream_end fl settings db models env rerank llm time ask prep deltas none
                        rows).0))) [
                          | err e ↦ λ h.
                              subst
                                (λ x. Parity x (
                                  sources (values prep.sources)
                                  ∷ stage generating
                                  ∷ (token_events deltas
                                      ++ (stream_end fl settings db models env rerank llm time ask
                                          prep deltas none rows).0)))
                                (sym (not_validated time ask prep rows c e h)) tt
                          | ok v ↦ λ h.
                              let (after, e) =
                                completed fl settings db models env rerank llm commits time ask prep
                                  c v rows h in
                              rw
                                (
                                  e,
                                  streamed fl settings db models env rerank llm commits time ask
                                      prep c v deltas rows h read,
                                )
                                (
                                  latency fl settings db models env rerank llm prep
                                      (elapsed_ms fl time.started time.ended),
                                  sources (values prep.sources)
                                      ∷ stage generating
                                      ∷ token_events deltas,
                                  refl,
                                )
                        ])
        refl

  Parity-generated :
      (time : CallTime F) (ask : Ask) (prep : Prepared F) (rows : List (QueryLog F))
      → Parity
          (request_completion fl settings db models env rerank llm prep >>= λ c.
            answer_completed fl settings db models env rerank llm time ask prep c rows)
          (stream_generated fl settings db models env rerank llm time ask prep rows).0
  unfolding stream_generated
  Parity-generated time ask prep rows =
      (elim (request_completion fl settings db models env rerank llm prep)
          as (λ x.
            request_completion fl settings db models env rerank llm prep ≡ x
            → Parity
                (x >>= λ c.
                  answer_completed fl settings db models env rerank llm time ask prep c rows)
                (stream_generated fl settings db models env rerank llm time ask prep rows).0) [
                  | err e ↦ λ h. tt
                  | ok c ↦ λ h.
                      let (deltas, replied, read) = spells prep.system prep.user_message c h in
                      rw (replied, stream_generated) (Parity-reply time ask prep rows c deltas read)
                ])
        refl

  Parity-prepared :
      (time : CallTime F) (ask : Ask) (prep : Prepared F) (rows : List (QueryLog F))
      → Parity
          (answer_prepared fl settings db models env rerank llm time ask prep rows)
          (stream_prepared fl settings db models env rerank llm time ask prep rows).0
  unfolding answer_prepared stream_prepared
  Parity-prepared time ask prep rows =
      elim prep.abstain_pre_generation
        as (λ b.
          Parity
            (if b
              then answer_abstained fl settings db models env rerank llm ask prep rows
              else (request_completion fl settings db models env rerank llm prep >>= λ c.
                  answer_completed fl settings db models env rerank llm time ask prep c rows))
            (if b
              then stream_abstention fl settings db models env rerank llm ask prep rows
              else stream_generated fl settings db models env rerank llm time ask prep rows).0) [
                | true ↦ Parity-abstained fl settings db models env rerank llm commits ask prep rows
                | false ↦ Parity-generated time ask prep rows
              ]

  Parity-body :
      (time : CallTime F) (ask : Ask) (rows : List (QueryLog F))
      (prep : Result Failure (Prepared F))
      → Parity
          (prep >>= λ p. answer_prepared fl settings db models env rerank llm time ask p rows)
          (stream_body fl settings db models env rerank llm time ask rows prep).0
  unfolding stream_body
  Parity-body time ask rows (err e) = tt
  Parity-body time ask rows (ok prep) = Parity-prepared time ask prep rows

  -- If the database takes every row, and every reply of the model that `complete` returns is also
  -- what its stream spells, to the end, then for each answer that `generate_answer` returns,
  -- without overrides of the retrieval, `generate_answer_stream` of the same question ends in a `done` event with the same answer,
  -- citations and cost.
  pub generate_answer_stream_parity :
      (watch : Stopwatch F) (time : CallTime F) (ask : Ask) (rows after : List (QueryLog F))
      (result : AnswerResult F)
      → generate_answer fl settings db models env rerank llm watch time (plain_ask ask) rows
        ≡ ok (result, after)
      → EndsWith
          (generate_answer_stream fl settings db models env rerank llm watch time ask rows).0
          result
  unfolding generate_answer generate_answer_stream
  generate_answer_stream_parity watch time ask rows after result h =
      let prep = prepare fl settings db models env rerank watch (plain_ask ask) in
      let (ms, front, e) =
        subst
          (λ x.
            Parity x
              (stream_body fl settings db models env rerank llm time (plain_ask ask) rows prep).0)
          h (Parity-body time (plain_ask ask) rows prep) in
      (
        ms,
        stage retrieving
            ∷ (rerank_stage fl settings db models env rerank llm
                  (reranking_started fl settings db models env rerank llm (plain_ask ask))
                ++ front),
        ap (◌∷◌ (stage retrieving)) (
            extend
              (rerank_stage fl settings db models env rerank llm
                (reranking_started fl settings db models env rerank llm (plain_ask ask)))
              front _ _ e),
      )
