-- ===== src/Retrieval/Select.antt =====
-- Filling the context's token budget: `_select_context` of
-- backend/src/app/services/retrieval/pipeline.py.
pub mod Laws
pub mod Sections
mod Tests
use normeon_german_technical.Prelude.{
  ℕ, ◌+◌, Text, Bool, true, false, Option, none, some, List, [], ◌∷◌, ◌++◌, leb, ltb, not, ◌&&◌,
  length, if◌then◌else◌, contains, nat_eq, list_eq, pair_eq,
}
use normeon_german_technical.Prelude.Words.{split}
use normeon_german_technical.Retrieval.{Uuid, RetrievedChunk}

-- `(chunk.document_id, chunk.section_path) if chunk.section_path else None`: the empty path counts
-- as none.
abbrev pub section_key_of : Uuid → Option Text → Option (Uuid × Text)
section_key_of document_id none = none
section_key_of document_id (some []) = none
section_key_of document_id (some (c ∷ path)) = some (document_id, c ∷ path)

pub record Selection (F : Type 0) : Type 0 where
  pub selected : List (RetrievedChunk F)
  pub seen_sections : List (Uuid × Text)
  pub used : ℕ

-- What the loop does with a chunk: `continue`, `break`, or the rest of the body.
pub data Verdict : Type 0 where
  skip stop add : Verdict

-- `key is not None and key in seen_sections`
abbrev pub is_seen : Option (Uuid × Text) → List (Uuid × Text) → Bool
is_seen none seen = false
is_seen (some key) seen = contains seen key

abbrev pub mark_seen : Option (Uuid × Text) → List (Uuid × Text) → List (Uuid × Text)
mark_seen none seen = seen
mark_seen (some key) seen = key ∷ seen

module _ {F : Type 0} where
  abbrev pub section_key : RetrievedChunk F → Option (Uuid × Text)
  section_key chunk = section_key_of chunk.document_id chunk.section_path

  unfoldable pub token_cost : RetrievedChunk F → ℕ
  unfolding split
  token_cost chunk = length (split chunk.content)

  abbrev pub is_nonempty : List (RetrievedChunk F) → Bool
  is_nonempty [] = false
  is_nonempty (_ ∷ _) = true

  unfoldable pub verdict : ℕ → Selection F → RetrievedChunk F → Verdict
  unfolding nat_eq list_eq pair_eq token_cost
  verdict token_budget s chunk =
      if is_seen (section_key chunk) s.seen_sections
      then skip
      else if is_nonempty s.selected && ltb token_budget (s.used + token_cost chunk)
      then stop
      else add

  unfoldable pub select_loop : ℕ → List (RetrievedChunk F) → Selection F → Selection F
  unfolding verdict
  select_loop token_budget [] s = s
  select_loop token_budget (chunk ∷ chunks) s = elim (verdict token_budget s chunk) [
    | skip ↦ select_loop token_budget chunks s
    | stop ↦ s
    | add ↦ select_loop token_budget chunks (record {
      selected = s.selected ++ chunk ∷ [];
      seen_sections = mark_seen (section_key chunk) s.seen_sections;
      used = s.used + token_cost chunk;
    })
  ]

  unfoldable pub select_context : List (RetrievedChunk F) → ℕ → List (RetrievedChunk F)
  unfolding select_loop
  select_context chunks token_budget =
      (select_loop token_budget chunks
        (record { selected = []; seen_sections = []; used = 0 })).selected
