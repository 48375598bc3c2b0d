-- ===== src/Prompts.antt =====
-- The versioned prompts: backend/src/app/services/prompts.py. The file's contents and its digest
-- are parameters.
pub mod Laws
mod Tests
use normeon_german_technical.Prelude.{
  ℕ, zero, suc, Text, txt, Bool, true, false, ◌||◌, Option, none, some, List, [], ◌∷◌, ◌++◌,
  if◌then◌else◌,
}
use normeon_german_technical.Citations.{starts_with}

pub record Prompt : Type 0 where
  pub name : Text
  pub template : Text
  pub sha256 : Text

-- The three names of `_PLACEHOLDER`.
pub data Placeholder : Type 0 where
  context quellen question : Placeholder

abbrev pub spelling : Placeholder → Text
spelling context = txt "{{CONTEXT}}"
spelling quellen = txt "{{QUELLEN}}"
spelling question = txt "{{QUESTION}}"

-- `needle in text`
unfoldable pub occurs : Text → Text → Bool
occurs needle [] = starts_with needle []
occurs needle (c ∷ text) = starts_with needle (c ∷ text) || occurs needle text

-- `Prompt.untrusted_context`
unfoldable pub untrusted_context : Prompt → Bool
unfolding occurs
untrusted_context prompt = occurs (spelling quellen) prompt.template

-- The match of `_PLACEHOLDER` at the start of a text.
abbrev pub match_placeholder : Text → Option Placeholder
match_placeholder text =
    if starts_with (spelling context) text
    then some context
    else if starts_with (spelling quellen) text
    then some quellen
    else if starts_with (spelling question) text
    then some question
    else none

-- The length of the match, less the character that is read with it.
abbrev pub rest_length : Placeholder → ℕ
rest_length context = 10
rest_length quellen = 10
rest_length question = 11

-- `values[m.group(1)]`
abbrev pub value_of : Text → Text → Placeholder → Text
value_of source_text question_text context = source_text
value_of source_text question_text quellen = source_text
value_of source_text question_text question = question_text

-- `_PLACEHOLDER.sub(…, template)`, with the number of characters that the last match still covers.
unfoldable pub render_from : (Placeholder → Text) → ℕ → Text → Text
render_from value skip [] = []
render_from value (suc skip) (c ∷ template) = render_from value skip template
render_from value zero (c ∷ template) = elim (match_placeholder (c ∷ template)) [
  | none ↦ c ∷ render_from value 0 template
  | some p ↦ value p ++ render_from value (rest_length p) template
]

-- `Prompt.render`
unfoldable pub render : Prompt → Text → Text → Text
unfolding render_from
render prompt source_text question_text =
    render_from (value_of source_text question_text) 0 prompt.template

-- `load_prompt`: `none` is a missing file.
unfoldable pub load_prompt : (Text → Option Text) → (Text → Text) → Text → Option Prompt
load_prompt read_text sha256 name = elim (read_text name) [
  | none ↦ none
  | some text ↦ some (record { name = name; template = text; sha256 = sha256 text })
]
