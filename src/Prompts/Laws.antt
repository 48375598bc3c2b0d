-- ===== src/Prompts/Laws.antt =====
-- `Prompt.render` of backend/src/app/services/prompts.py and the pieces of a template.
use normeon_german_technical.Prelude.{
  subst, sym, false, ◌≢◌, txt, ◌∙◌, length, true, ap, drop, arith, refl, ℕ, zero, suc, Text, List,
  [], ◌∷◌, ◌++◌, ◌≡◌, none, some,
}
use normeon_german_technical.Prompts.{
  starts_with, Prompt, Placeholder, spelling, value_of, render_from, render, match_placeholder,
  rest_length, context, quellen, question,
}

-- A piece of a template.
pub data Piece : Type 0 where
  literal : ℕ → Piece
  place : Placeholder → Piece

abbrev pub pieces : ℕ → Text → List Piece
pieces skip [] = []
pieces (suc skip) (c ∷ template) = pieces skip template
pieces zero (c ∷ template) = elim (match_placeholder (c ∷ template)) [
  | none ↦ literal c ∷ pieces 0 template
  | some p ↦ place p ∷ pieces (rest_length p) template
]

-- The pieces, each placeholder replaced by its value.
abbrev pub fill : (Placeholder → Text) → List Piece → Text
fill value [] = []
fill value (literal c ∷ ps) = c ∷ fill value ps
fill value (place p ∷ ps) = value p ++ fill value ps

render_from-fill :
    (value : Placeholder → Text) (skip : ℕ) (template : Text)
    → render_from value skip template ≡ fill value (pieces skip template)
unfolding render_from
render_from-fill value skip [] = ground arith
render_from-fill value (suc skip) (c ∷ template) = render_from-fill value skip template
render_from-fill value zero (c ∷ template) =
    elim (match_placeholder (c ∷ template))
      as (λ m.
        (elim m [
          | none ↦ c ∷ render_from value 0 template
          | some p ↦ value p ++ render_from value (rest_length p) template
        ])
        ≡ fill value (elim m [
          | none ↦ literal c ∷ pieces 0 template
          | some p ↦ place p ∷ pieces (rest_length p) template
        ])) [
          | none ↦ ground (arith, render_from-fill value 0 template)
          | some p ↦ ground (arith, render_from-fill value (rest_length p) template)
        ]

starts_with-drop : (p t : Text) → starts_with p t ≡ true → p ++ drop (length p) t ≡ t
starts_with-drop [] t h = refl
starts_with-drop (x ∷ p) [] h = ground arith
starts_with-drop (x ∷ p) (c ∷ t) h = ground (arith, starts_with-drop p t)

match_placeholder_lem :
    (t : Text) (p : Placeholder) → match_placeholder t ≡ some p → starts_with (spelling p) t ≡ true
match_placeholder_lem t context h = ground arith
match_placeholder_lem t quellen h = ground arith
match_placeholder_lem t question h = ground arith

match_drop :
    (c : ℕ) (t : Text) (p : Placeholder)
    → match_placeholder (c ∷ t) ≡ some p
    → spelling p ++ drop (rest_length p) t ≡ c ∷ t
match_drop c t context h =
    starts_with-drop (spelling context) (c ∷ t) (match_placeholder_lem (c ∷ t) context h)
match_drop c t quellen h =
    starts_with-drop (spelling quellen) (c ∷ t) (match_placeholder_lem (c ∷ t) quellen h)
match_drop c t question h =
    starts_with-drop (spelling question) (c ∷ t) (match_placeholder_lem (c ∷ t) question h)

fill-spelling :
    (skip : ℕ) (template : Text) → fill spelling (pieces skip template) ≡ drop skip template
fill-spelling zero [] = refl
fill-spelling (suc skip) [] = refl
fill-spelling (suc skip) (c ∷ template) = fill-spelling skip template
fill-spelling zero (c ∷ template) =
    (elim (match_placeholder (c ∷ template))
        as (λ m.
          match_placeholder (c ∷ template) ≡ m
          → fill spelling (elim m [
            | none ↦ literal c ∷ pieces 0 template
            | some p ↦ place p ∷ pieces (rest_length p) template
          ])
            ≡ c ∷ template) [
              | none ↦ λ h. ap (◌∷◌ c) (fill-spelling 0 template)
              | some p ↦ λ h.
                  ap (◌++◌ (spelling p)) (fill-spelling (rest_length p) template)
                  ∙ match_drop c template p h
            ])
      refl

-- The three placeholders as a template spells them, and the text of a list of pieces.
abbrev pub braces : Placeholder → Text
braces context = txt "{{CONTEXT}}"
braces quellen = txt "{{QUELLEN}}"
braces question = txt "{{QUESTION}}"

abbrev pub spelled : List Piece → Text
spelled [] = []
spelled (literal c ∷ ps) = c ∷ spelled ps
spelled (place p ∷ ps) = braces p ++ spelled ps

-- The text with the sources for the first two placeholders and the question for the third.
abbrev pub filled : Text → Text → List Piece → Text
filled sources asked [] = []
filled sources asked (literal c ∷ ps) = c ∷ filled sources asked ps
filled sources asked (place context ∷ ps) = sources ++ filled sources asked ps
filled sources asked (place quellen ∷ ps) = sources ++ filled sources asked ps
filled sources asked (place question ∷ ps) = asked ++ filled sources asked ps

-- No placeholder is spelled where a character is copied.
abbrev pub IsParse : List Piece → Type 0
IsParse [] = Unit
IsParse (literal c ∷ ps) =
    ((p : Placeholder) (rest : Text) → c ∷ spelled ps ≢ braces p ++ rest) × IsParse ps
IsParse (place p ∷ ps) = IsParse ps

braces-spelling : (p : Placeholder) → braces p ≡ spelling p
braces-spelling context = refl
braces-spelling quellen = refl
braces-spelling question = refl

spelled-fill : (ps : List Piece) → spelled ps ≡ fill spelling ps
spelled-fill [] = refl
spelled-fill (literal c ∷ ps) = ap (◌∷◌ c) (spelled-fill ps)
spelled-fill (place p ∷ ps) = rw (braces-spelling p) (ap (◌++◌ (spelling p)) (spelled-fill ps))

filled-fill :
    (sources asked : Text) (ps : List Piece)
    → fill (value_of sources asked) ps ≡ filled sources asked ps
filled-fill sources asked [] = refl
filled-fill sources asked (literal c ∷ ps) = ap (◌∷◌ c) (filled-fill sources asked ps)
filled-fill sources asked (place context ∷ ps) = ap (◌++◌ sources) (filled-fill sources asked ps)
filled-fill sources asked (place quellen ∷ ps) = ap (◌++◌ sources) (filled-fill sources asked ps)
filled-fill sources asked (place question ∷ ps) = ap (◌++◌ asked) (filled-fill sources asked ps)

starts_with_append : (p rest : Text) → starts_with p (p ++ rest) ≡ true
starts_with_append [] rest = ground arith
starts_with_append (c ∷ p) rest = ground (arith, starts_with_append p rest)

match_none :
    (t : Text) → match_placeholder t ≡ none → (p : Placeholder) → starts_with (spelling p) t ≡ false
match_none t h context = ground (arith, h)
match_none t h quellen = ground (arith, h)
match_none t h question = ground (arith, h)

none-apart :
    (t : Text) → match_placeholder t ≡ none → (p : Placeholder) (rest : Text) → t ≢ braces p ++ rest
none-apart t h p rest same =
    let found = starts_with_append (spelling p) rest in
    let missed = match_none t h p in
    let e : t ≡ spelling p ++ rest = same ∙ ap (λ b. b ++ rest) (braces-spelling p) in
    true_false (sym (subst (λ x. starts_with (spelling p) x ≡ true) (sym e) found) ∙ missed)
  where
    true_false : true ≡ false → ⊥
    true_false e = ground (arith, e)

pieces-IsParse : (skip : ℕ) (template : Text) → IsParse (pieces skip template)
pieces-IsParse zero [] = tt
pieces-IsParse (suc skip) [] = tt
pieces-IsParse (suc skip) (c ∷ template) = pieces-IsParse skip template
pieces-IsParse zero (c ∷ template) =
    (elim (match_placeholder (c ∷ template))
        as (λ m.
          match_placeholder (c ∷ template) ≡ m
          → IsParse (elim m [
            | none ↦ literal c ∷ pieces 0 template
            | some p ↦ place p ∷ pieces (rest_length p) template
          ])) [
            | none ↦ λ h. (
              λ p rest same.
                  none-apart (c ∷ template) h p rest
                    (sym (ap (◌∷◌ c) (spelled-pieces template)) ∙ same),
              pieces-IsParse 0 template,
            )
            | some p ↦ λ h. pieces-IsParse (rest_length p) template
          ])
      refl
  where
    spelled-pieces : (t : Text) → spelled (pieces 0 t) ≡ t
    spelled-pieces t = spelled-fill (pieces 0 t) ∙ fill-spelling 0 t

-- The template of a prompt is a text of pieces, characters and the placeholders "{{CONTEXT}}",
-- "{{QUELLEN}}" and "{{QUESTION}}", where no placeholder stands at a character; and the prompt is
-- rendered with every character copied, the sources for each of the first two placeholders and the
-- question for each of the third, so that a placeholder inside the sources or the question is
-- copied as it stands.
pub render_lem :
    (prompt : Prompt) (sources asked : Text)
    → (ps : List Piece) × (spelled ps ≡ prompt.template)
      × IsParse ps
      × (render prompt sources asked ≡ filled sources asked ps)
unfolding render
render_lem prompt sources asked =
    let ps = pieces 0 prompt.template in
    (
      ps,
      spelled-fill ps ∙ fill-spelling 0 prompt.template,
      pieces-IsParse 0 prompt.template,
      render_from-fill (value_of sources asked) 0 prompt.template ∙ filled-fill sources asked ps,
    )
