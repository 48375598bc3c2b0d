-- ===== src/Chunking/Tests.antt =====
-- The theorems about chunking on a small document.
use normeon_german_technical.Prelude.{
  All, ℕ, get_elem?, length, ◌*◌, ◌<◌, ◌≤◌, ◌≡◌, txt, true, false, none, some, List, [], ◌∷◌, ◌+◌,
  nat_eq, arith,
}
use normeon_german_technical.Parsing.{ParsedDocument}
use normeon_german_technical.Chunking.Fixed.{fixed_chunk, new_chunker, FixedWindowChunker}
use normeon_german_technical.Chunking.Fixed.Coverage.{fixed_chunk_lem, IsWindowChunk, window_at}
use normeon_german_technical.Chunking.Structural.{structural_chunk, heading_by_path, section_words}
use normeon_german_technical.Chunking.Structural.Pieces.{words_of}
use normeon_german_technical.Chunking.{Chunk, flatten_words}
use normeon_german_technical.Chunking.Structural.Sections.{Cut, IsCut, blocks_in, pieces_in}
use normeon_german_technical.Chunking.Structural.Chunks.{structural_chunk-AreChunks, AreChunks}
use normeon_german_technical.Chunking.Structural.Parents.{structural_chunk-IsLinked, IsLinked}

abbrev manual : ParsedDocument ℕ
manual = record {
  blocks =
      record {
        text = txt "1 Wartung";
        page = 1;
        bbox = 7;
        is_title = true;
        section_path = some (txt "1");
      }
      ∷ record {
        text = txt "Die Anlage ist zu warten.";
        page = 2;
        bbox = 8;
        is_title = false;
        section_path = some (txt "1");
      }
      ∷ [];
  ocr_pages = [];
}

abbrev chunker : FixedWindowChunker
chunker = new_chunker 3 2

fixed_chunk_lem_example :
    (chunks : List (Chunk ℕ)) × (fixed_chunk chunker manual ≡ some chunks)
    × ((i : ℕ) (c : Chunk ℕ)
        → get_elem? chunks i ≡ some c
        → IsWindowChunk 3 i (window_at chunker (flatten_words manual.blocks) (i * 2)) c)
    × ((p : ℕ)
        → p < length (flatten_words manual.blocks)
        → (i : ℕ) × (i < length chunks) × (i * 2 ≤ p) × (p < i * 2 + 3))
fixed_chunk_lem_example =
    fixed_chunk_lem chunker manual (omega (arith)) (omega (arith)) (omega (arith))

structural_chunk-AreChunks_example :
    (cuts : List (Cut ℕ)) × (blocks_in cuts ≡ manual.blocks)
    × All IsCut cuts
    × (words_of (pieces_in cuts) ≡ section_words manual.blocks)
    × AreChunks (heading_by_path [] manual.blocks) 0 (structural_chunk manual) (pieces_in cuts)
structural_chunk-AreChunks_example = structural_chunk-AreChunks manual

structural_chunk-IsLinked_example : IsLinked none 0 (structural_chunk manual)
structural_chunk-IsLinked_example = structural_chunk-IsLinked manual
