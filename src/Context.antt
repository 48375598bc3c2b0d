-- ===== src/Context.antt =====
-- The prompt's context block and the numbered sources: backend/src/app/domain/context.py.
pub mod Numbering
mod Tests
use normeon_german_technical.Prelude.{
  ℕ, zero, suc, ◌+◌, ◌-◌, Text, txt, Bool, true, false, ◌&&◌, ◌||◌, not, Option, none, some, List,
  [], ◌∷◌, ◌++◌, map, length, ltb, if◌then◌else◌, ◌==◌, nat_eq, list_eq,
}
use normeon_german_technical.Prelude.Words.{is_space, strip, join}
use normeon_german_technical.Prelude.Digits.{show}
use normeon_german_technical.Prelude.Dict.{Dict, insert}
use normeon_german_technical.Markers.{defang}
use normeon_german_technical.Retrieval.{Uuid, RetrievedChunk}

pub record Source : Type 0 where
  pub marker : Text
  pub chunk_id : Uuid
  pub document_id : Uuid
  pub filename : Text
  pub page_from : ℕ
  pub page_to : ℕ
  pub section_path : Option Text
  pub heading : Option Text
  pub content : Text
  pub version_label : Option Text
  pub ocr : Bool

-- `_seiten`
unfoldable pub seiten : ℕ → ℕ → Text
unfolding show
seiten page_from page_to =
    if ltb page_from page_to
    then txt "Seite " ++ (show page_from ++ (txt "–" ++ show page_to))
    else txt "Seite " ++ show page_from

-- `[prefix + text + suffix] if text else []`
abbrev pub if_text : Option Text → (Text → Text) → List Text
if_text none render = []
if_text (some []) render = []
if_text (some (c ∷ text)) render = render (c ∷ text) ∷ []

-- `_header`
unfoldable pub header : Source → Text
unfolding seiten
header source = join (txt " | ") (
    (txt "Quelle: " ++ source.filename)
    ∷ (if_text source.version_label (λ v. txt "Version " ++ v)
        ++ (seiten source.page_from source.page_to
            ∷ if_text source.section_path (λ p. txt "Abschnitt " ++ p))))

-- The number of leading white characters, and what follows them.
abbrev pub after_spaces : Text → ℕ × Text
after_spaces [] = (0, [])
after_spaces (c ∷ text) =
    let (n, rest) = after_spaces text in if is_space c then (suc n, rest) else (0, c ∷ text)

-- `(/?)`
abbrev pub after_slash : Text → Text × Text
after_slash [] = ([], [])
after_slash (c ∷ text) = if c == b'/' then (b'/' ∷ [], text) else ([], c ∷ text)

-- The letters of a lower-case word in either case, as they are written, and what follows them.
abbrev pub after_word : Text → Text → Option (Text × Text)
after_word [] text = some ([], text)
after_word (p ∷ word) [] = none
after_word (p ∷ word) (c ∷ text) =
    let found = after_word word text in
    if c == p || c == p - 32
    then elim found [ none ↦ none | some (letters, rest) ↦ some (c ∷ letters, rest) ]
    else none

-- `f"S{i}"`
abbrev pub marker_of : ℕ → Text
marker_of i = b'S' ∷ show i

unfoldable pub source_of : {F : Type 0} → ℕ → RetrievedChunk F → Source
source_of i chunk = record {
  marker = marker_of i;
  chunk_id = chunk.chunk_id;
  document_id = chunk.document_id;
  filename = chunk.filename;
  page_from = chunk.page_from;
  page_to = chunk.page_to;
  section_path = chunk.section_path;
  heading = chunk.heading;
  content = chunk.content;
  version_label = chunk.version_label;
  ocr = chunk.ocr;
}

-- `is_word` is Python's `\w` on one code point.
module _ (is_word : ℕ → Bool) where
  -- `\b` behind a letter
  abbrev pub at_boundary : Text → Bool
  at_boundary [] = true
  at_boundary (c ∷ text) = not (is_word c)

  abbrev pub without_n : Text → Text → Option (Text × Text)
  without_n letters rest = if at_boundary rest then some (letters, rest) else none

  -- `(quellen?)\b`: with the `n` if that ends at a word boundary.
  unfoldable pub match_quelle : Text → Option (Text × Text)
  unfolding nat_eq
  match_quelle text = elim (after_word (txt "quelle") text) [
    | none ↦ none
    | some (letters, rest) ↦ elim (after_word (txt "n") rest) [
      | none ↦ without_n letters rest
      | some (n, behind) ↦
          if at_boundary behind then some (letters ++ n, behind) else without_n letters rest
    ]
  ]

  -- A match of `_TAG` at the start: its replacement, and what follows the match.
  unfoldable pub match_tag : Text → Option (Text × Text)
  unfolding match_quelle is_space
  match_tag [] = none
  match_tag (c ∷ text) =
      let (slash, behind) = after_slash (after_spaces text).1 in
      let found = match_quelle (after_spaces behind).1 in
      if c == b'<'
      then elim found [ none ↦ none | some (word, rest) ↦ some (txt "‹" ++ (slash ++ word), rest) ]
      else none

  -- `_TAG.sub(…, text)`, with the number of characters that the last match still covers.
  unfoldable pub detag_from : ℕ → Text → Text
  unfolding match_tag
  detag_from skip [] = []
  detag_from zero (c ∷ text) = elim (match_tag (c ∷ text)) [
    | none ↦ c ∷ detag_from zero text
    | some (replacement, rest) ↦ replacement ++ detag_from (length text - length rest) text
  ]
  detag_from (suc skip) (c ∷ text) = detag_from skip text

  -- `_neutralise`
  unfoldable pub neutralise : Text → Text
  unfolding detag_from defang
  neutralise text = defang (detag_from 0 text)

  -- `value.replace('"', "'").replace("<", "‹").replace(">", "›")`
  abbrev pub quote_char : ℕ → ℕ
  quote_char c =
      if c == b'"' then b'\'' else if c == b'<' then 0x2039 else if c == b'>' then 0x203a else c

  -- `_attribute`
  unfoldable pub attribute : Text → Text
  unfolding defang nat_eq
  attribute value = defang (map quote_char value)

  -- `_untrusted_block`
  unfoldable pub untrusted_block : Source → Text
  unfolding attribute neutralise strip
  untrusted_block source =
      txt "<quelle "
      ++ (join (txt " ") (
            (txt "marker=\"[" ++ (source.marker ++ txt "]\""))
            ∷ (if_text source.version_label (λ v. txt "version=\"" ++ (attribute v ++ txt "\""))
                ++ if_text source.section_path
                    (λ p. txt "abschnitt=\"" ++ (attribute p ++ txt "\""))))
          ++ (txt ">\n" ++ (neutralise (strip source.content) ++ txt "\n</quelle>")))

  unfoldable pub render_block : Bool → Source → Text
  unfolding untrusted_block header strip
  render_block untrusted source =
      if untrusted
      then untrusted_block source
      else txt "["
        ++ (source.marker ++ (txt "] " ++ (header source ++ (txt "\n" ++ strip source.content))))

  -- The loop, from the number of the next chunk.
  unfoldable pub context_loop :
      {F : Type 0}
      → Bool
      → ℕ
      → List (RetrievedChunk F)
      → Dict Text Source × List Text
      → Dict Text Source × List Text
  unfolding source_of render_block list_eq nat_eq
  context_loop untrusted i [] state = state
  context_loop untrusted i (chunk ∷ chunks) (sources, blocks) =
      context_loop untrusted (i + 1) chunks (
        insert (marker_of i) (source_of i chunk) sources,
        blocks ++ render_block untrusted (source_of i chunk) ∷ [],
      )

  abbrev pub wrap_blocks : Bool → List Text → Text
  wrap_blocks untrusted [] = []
  wrap_blocks untrusted (block ∷ blocks) =
      if untrusted
      then txt "<quellen>\n" ++ (join (txt "\n\n") (block ∷ blocks) ++ txt "\n</quellen>")
      else join (txt "\n\n") (block ∷ blocks)

  unfoldable pub build_context :
      {F : Type 0} → List (RetrievedChunk F) → Bool → Text × Dict Text Source
  unfolding context_loop
  build_context chunks untrusted =
      let (sources, blocks) = context_loop untrusted 1 chunks ([], []) in
      (wrap_blocks untrusted blocks, sources)
