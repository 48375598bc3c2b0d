-- ===== src/Chunking/Fixed.antt =====
-- `FixedWindowChunker` of backend/src/app/domain/chunking.py.
pub mod Coverage
use normeon_german_technical.Prelude.{
  ◌-◌, ℕ, zero, suc, ◌+◌, Text, txt, Option, none, some, List, [], ◌∷◌, map, min, max, length, take,
  drop, ltb, ◌==◌, Eq, nat_eq, pair_eq, if◌then◌else◌,
}
use normeon_german_technical.Prelude.Words.{join}
use normeon_german_technical.Parsing.{ParsedDocument}
use normeon_german_technical.Chunking.{
  Chunk, Word, Region, min_page, max_page, from_keys, flatten_words,
}

pub record FixedWindowChunker : Type 0 where
  pub window_tokens : ℕ
  pub step : ℕ

-- `__init__`, of the window and of `round(window_tokens * (1 - overlap_ratio))`.
abbrev pub new_chunker : ℕ → ℕ → FixedWindowChunker
new_chunker window_tokens rounded = record { window_tokens = window_tokens; step = max 1 rounded }

-- The chunker of `ALL_STRATEGIES`: `round(500 * (1 - 0.15))` is 425.
abbrev pub fixed_500 : FixedWindowChunker
fixed_500 = new_chunker 500 425

module _ {B : Type 0} ⦃e : Eq B⦄ where
  -- The chunk of a window; `none` is the `ValueError` of `min` on an empty one.
  unfoldable pub window_chunk : ℕ → List (Word B) → Option (Chunk B)
  unfolding from_keys nat_eq pair_eq
  window_chunk ordinal [] = none
  window_chunk ordinal (word ∷ words) = some (record {
    content = join (txt " ") (map (λ w. w.text) (word ∷ words));
    page_from = min_page word.page (map (λ w. w.page) words);
    page_to = max_page word.page (map (λ w. w.page) words);
    section_path = word.section_path;
    heading = none;
    ordinal = ordinal;
    token_count = length (word ∷ words);
    parent_ordinal = none;
    regions = from_keys [] (map (λ w. w.region) (word ∷ words));
  })

  -- One chunk before the rest, unless either raises.
  abbrev pub cons_chunk : Option (Chunk B) → Option (List (Chunk B)) → Option (List (Chunk B))
  cons_chunk none rest = none
  cons_chunk (some c) none = none
  cons_chunk (some c) (some rest) = some (c ∷ rest)

  -- The `while` loop, from `start` and `ordinal`; `none` too where the fuel runs out.
  unfoldable pub window_loop :
      ℕ → FixedWindowChunker → List (Word B) → ℕ → ℕ → Option (List (Chunk B))
  unfolding window_chunk nat_eq
  window_loop zero chunker words start ordinal = none
  window_loop (suc fuel) chunker words start ordinal =
      let total = length words in
      let end = min (start + chunker.window_tokens) total in
      let chunk = window_chunk ordinal (take (end - start) (drop start words)) in
      let rest = window_loop fuel chunker words (start + chunker.step) (ordinal + 1) in
      if ltb start total then cons_chunk chunk (if end == total then some [] else rest) else some []

  -- `FixedWindowChunker.chunk`, with a round of fuel for each word.
  unfoldable pub fixed_chunk : FixedWindowChunker → ParsedDocument B → Option (List (Chunk B))
  unfolding window_loop flatten_words
  fixed_chunk chunker doc =
      let words = flatten_words doc.blocks in window_loop (suc (length words)) chunker words 0 0
