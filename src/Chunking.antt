-- ===== src/Chunking.antt =====
-- Cutting a document into chunks: backend/src/app/domain/chunking.py. This file has what both
-- strategies share.
pub mod Fixed
pub mod Structural
mod Tests
use normeon_german_technical.Prelude.{
  ℕ, Text, txt, Bool, Option, none, some, List, [], ◌∷◌, ◌++◌, map, min, max, length, Eq, nat_eq,
  pair_eq, contains, if◌then◌else◌,
}
use normeon_german_technical.Prelude.Words.{split, join}
use normeon_german_technical.Parsing.{Block}

-- `_estimate_tokens`
unfoldable pub estimate_tokens : Text → ℕ
unfolding split
estimate_tokens text = length (split text)

-- `Region`: a page and a box.
abbrev pub Region : Type 0 → Type 0
Region B = ℕ × B

pub record Chunk (B : Type 0) : Type 0 where
  pub content : Text
  pub page_from : ℕ
  pub page_to : ℕ
  pub section_path : Option Text
  pub heading : Option Text
  pub ordinal : ℕ
  pub token_count : ℕ
  pub parent_ordinal : Option ℕ
  pub regions : List (Region B)

-- `_Word`, whose region is always given.
pub record Word (B : Type 0) : Type 0 where
  pub text : Text
  pub page : ℕ
  pub section_path : Option Text
  pub region : Region B

-- The least and the greatest page of a word and those behind it.
abbrev pub min_page : ℕ → List ℕ → ℕ
min_page page [] = page
min_page page (x ∷ pages) = min_page (min page x) pages

abbrev pub max_page : ℕ → List ℕ → ℕ
max_page page [] = page
max_page page (x ∷ pages) = max_page (max page x) pages

-- `dict.fromkeys`, as the list of its keys
unfoldable pub from_keys {ℓ} : {A : Type ℓ} ⦃e : Eq A⦄ → List A → List A → List A
from_keys seen [] = seen
from_keys seen (x ∷ xs) = from_keys (if contains seen x then seen else (seen ++ x ∷ [])) xs

module _ {B : Type 0} where
  -- `_flatten_words`
  unfoldable pub flatten_words : List (Block B) → List (Word B)
  unfolding split
  flatten_words [] = []
  flatten_words (block ∷ blocks) =
      map
        (λ token. record {
          text = token;
          page = block.page;
          section_path = block.section_path;
          region = (block.page, block.bbox);
        })
        (split block.text)
      ++ flatten_words blocks
