-- ===== src/Limits/Tests.antt =====
-- The body limit at concrete requests.
use normeon_german_technical.Prelude.{
  ◌⊎◌, contains, true, Text, txt, List, [], ◌∷◌, ◌≡◌, refl, some, nat_eq, list_eq,
}
use normeon_german_technical.Limits.{ℕ, body_methods, admitted, check_body}
use normeon_german_technical.Prelude.Digits.{show}
use normeon_german_technical.Limits.Headers.{last_header}
use normeon_german_technical.Limits.Paths.{IsLimit}
use normeon_german_technical.Limits.Laws.{
  IsDeclared, IsUndeclared, answer_to, check_body-IsBounded, check_body-show,
}

abbrev raw : List (Text × Text)
raw = (txt "Host", txt "a") ∷ (txt "Content-Length", txt "2048") ∷ []

declared_run : last_header (txt "content-length") raw ≡ some (show 2048)
unfolding show nat_eq
declared_run = refl

post_run : contains body_methods (txt "POST") ≡ true
unfolding nat_eq list_eq
post_run = refl

check_body_run : check_body 4096 1024 (txt "POST") (txt "/api/v1/documents/") raw ≡ admitted
unfolding check_body
check_body_run = refl

check_body-IsBounded_example :
    (limit : ℕ) × IsLimit 4096 1024 (txt "/api/v1/documents/") limit
    × (IsDeclared limit raw ⊎ IsUndeclared raw)
check_body-IsBounded_example =
    check_body-IsBounded 4096 1024 (txt "POST") (txt "/api/v1/documents/") raw post_run
      check_body_run

check_body-show_example :
    (limit : ℕ) × IsLimit 4096 1024 (txt "/api/v1/chat") limit
    × (check_body 4096 1024 (txt "POST") (txt "/api/v1/chat") raw ≡ answer_to limit 2048)
check_body-show_example =
    check_body-show 4096 1024 2048 (txt "POST") (txt "/api/v1/chat") raw post_run declared_run
