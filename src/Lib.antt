-- ===== src/Lib.antt =====
-- Verification of Normeon, a retrieval-augmented assistant for German technical standards
-- (backend/src/app): the answering of questions, the ingestion of documents and the evaluation.
--
-- A question passes through these parts. The retrieval (services/retrieval) asks the database for
-- chunks by vector, full text and trigram, fuses the three rankings (domain/fusion.py), reranks them
-- (adapters/reranker) and fills a token budget (services/retrieval/pipeline.py). The generation
-- (services/generation.py) abstains below a score, or numbers the chunks as sources and renders the
-- prompt (domain/context.py, services/prompts.py), adds a warning when the sources conflict
-- (domain/conflicts.py), asks the language model, checks the markers of the reply
-- (domain/citations.py), and writes one row to the query log (services/query_log.py). Two middlewares
-- stand before it, the rate limit (core/rate_limit.py) and the body limit (core/limits.py), and
-- services/chunks.py serves a cited chunk with its neighbours. What is searched is put there by the
-- ingestion (services/ingestion.py), which parses a document, cuts it into chunks
-- (domain/chunking.py), and stores and embeds these. A daily cap (services/budget.py) stands before
-- the questions. The evaluation (eval) runs a set of questions, scores the answers and counts rates.
--
-- Files and the code they model, all under backend/src/app:
--   Prelude, Prelude/*: shared lists, dictionaries, sorting, words and decimal digits.
--   Scalar, Scalar/Fixed: Python's float as a record of operations, laws of its order, an instance.
--   Config: `Settings` of core/config.py, with the fields that the modelled code reads.
--   Errors: the classes of core/errors.py, each with `code`, `status_code` and `retry_after_s`.
--   Fusion, Fusion/*: `rrf` of domain/fusion.py; `tally` is its loops, `fuse` its last line.
--   Retrieval: the records of domain/models.py.
--   Retrieval/Select, Retrieval/Select/*: `_select_context`; the loop state is `Selection`.
--   Retrieval/Search, Retrieval/Search/*: vector.py, lexical.py, hybrid.py and _sql.py of
--     services/retrieval; `fuse_branches` is the end of `hybrid_search`.
--   Retrieval/Pipeline, Retrieval/Pipeline/*: `retrieve_context` and the rerankers.
--   Markers, Markers/Laws: the regular expressions `_MARKER` and `_FORGED_MARKER` as matchers.
--   Context, Context/*: domain/context.py; `context_loop` is the loop of `build_context`.
--   Citations, Citations/*: domain/citations.py.
--   Conflicts, Conflicts/*: domain/conflicts.py.
--   Prompts, Prompts/*: services/prompts.py.
--   Pricing: `calculate_cost` of services/pricing.py.
--   QueryLog: domain/config_hash.py and services/query_log.py.
--   Generation: `_prepare`, `_config_hash` and `_log_query` of services/generation.py.
--   Generation/Answer, Generation/Outcome: `generate_answer`.
--   Generation/Stream, Generation/Protocol, Generation/Protocol/Events: `generate_answer_stream`.
--   Generation/Parity, Generation/Parity/Streams: the two against each other.
--   RateLimit, RateLimit/*: core/rate_limit.py; `admit` is `_retry_after` on one deque.
--   Limits, Limits/*: core/limits.py; `int` raises on more than 4300 digits, Python's default bound.
--   Budget, Budget/*: services/budget.py.
--   Chunks, Chunks/*: services/chunks.py over the tables of db/models.py.
--   Parsing: domain/parsing.py.
--   Chunking: what the strategies of domain/chunking.py share; Chunking/Fixed, Chunking/Fixed/*:
--     `FixedWindowChunker`; Chunking/Structural, Chunking/Structural/*: `StructuralChunker`.
--   Ingestion, Ingestion/Documents: the rows of db/models.py and `get_or_create_document` of
--     services/ingestion.py.
--   Ingestion/Files, Ingestion/Files/Whole: `store_document_file` and `ingest_document`.
--   Ingestion/Store, Ingestion/Store/*: `_insert_chunks`, `_chunks_missing_embeddings` and
--     `_embed_and_store`, over the tables of chunks and embeddings.
--   Ingestion/Process, Ingestion/Process/*: `process_document`, with the list of its commits.
--   Eval: eval/models.py, and the scores of eval/scoring.py; Eval/Metrics, Eval/Metrics/*:
--     eval/metrics.py, the runs and scores by question taken as arguments of the loops; its averages
--     of floats are in Eval/Metrics/Averages.
--   Eval/Scoring, Eval/Scoring/*: eval/scoring.py. Eval/Agreement, Eval/Agreement/*:
--     eval/agreement.py.
--   Fixtures and the modules Tests: concrete inputs, runs and examples.
--
-- Conventions. A text is the list of its code points and a UUID is a number. State is passed
-- explicitly: a dictionary is a list of entries in insertion order, the query log is the list of its
-- rows. An exception is a constructor of an error type, or `none` where it can only be one. Loops are
-- structural recursion, or run on fuel: `show_from`, the decimal digits of n, is given n; `window_loop`
-- a round for each word and one more; `slices` a round for each word. That this is enough is part of
-- the theorems on chunking. A float is an argument, with an order without NaN where a theorem needs one.
-- Times of the rate limit are ticks, and the latencies of the log are rounded floats.
--
-- Parameters, since their code is not part of this repository or is a regular expression or a file:
-- the SQL statements, the embedding model, `normalize_de`, `extract_code` and `extract_all_codes` of
-- domain/normalization.py, the word class of `re`, the model of the cross encoder, the language model,
-- the contents of prompt and price files, JSON, SHA-256, the clock, the database's commit, and
-- `str(exc)` and the attribute `code` of an exception; for the ingestion the two parsers, the storage of files, `str.lower`, the suffix of a
-- path, the rows that other requests insert, and the rounding of the window's step; for the evaluation
-- the sum of floats, the class of digits, the judge, the template of its prompt and the reading of its
-- JSON. A set is a list. New ids of chunks are counted up, and the order of texts in ORDER BY
-- is the one of their code points.
--
-- Not modelled: metrics, logs and tracing, which only observe; the cancellation of a stream that its
-- client abandons; the API layer, security, storage, OCR and parsing adapters, which call libraries;
-- the caching reranker; of the evaluation the runner, the matrix, the latency percentiles, the kappa
-- and the bootstrap intervals.
pub mod Prelude
pub mod Scalar
pub mod Config
pub mod Fusion
pub mod Markers
pub mod Retrieval
pub mod Context
pub mod Citations
pub mod Prompts
pub mod RateLimit
pub mod Errors
pub mod Eval
pub mod Budget
pub mod Pricing
pub mod Conflicts
pub mod QueryLog
pub mod Generation
pub mod Chunks
pub mod Limits
pub mod Parsing
pub mod Chunking
pub mod Ingestion
pub mod Fixtures
