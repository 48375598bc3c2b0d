-- ===== src/Prompts/Tests.antt =====
-- Rendering with a placeholder inside the sources.
use normeon_german_technical.Prelude.{List, nat_eq, txt, ◌≡◌, refl}
use normeon_german_technical.Prompts.{Prompt, render}
use normeon_german_technical.Prompts.Laws.{Piece, spelled, filled, IsParse, render_lem}

abbrev prompt : Prompt
prompt = record {
  name = txt "v2";
  template = txt "Q: {{QUELLEN}} F: {{QUESTION}}";
  sha256 = txt "ab";
}

render_run : render prompt (txt "{{QUESTION}}") (txt "Was?") ≡ txt "Q: {{QUESTION}} F: Was?"
unfolding render nat_eq
render_run = refl

render_lem_example :
    (ps : List Piece) × (spelled ps ≡ prompt.template)
    × IsParse ps
    × (render prompt (txt "{{QUESTION}}") (txt "Was?")
        ≡ filled (txt "{{QUESTION}}") (txt "Was?") ps)
render_lem_example = render_lem prompt (txt "{{QUESTION}}") (txt "Was?")
