-- ===== src/RateLimit/Tests.antt =====
-- The rate limit at concrete times.
use normeon_german_technical.Prelude.{txt, [], ◌∷◌, ◌≡◌, refl, some}
use normeon_german_technical.RateLimit.{Rule, call, passed, refused, Hits}
use normeon_german_technical.RateLimit.Window.{decisions, reference_decisions}
use normeon_german_technical.RateLimit.Decisions.{decisions_lem}

abbrev login : Rule
login = record {
  name = txt "login";
  method = txt "POST";
  paths = txt "/login" ∷ [];
  limit = 2;
  window = 60;
}

abbrev hits : Hits
hits = ((txt "login", txt "9.9.9.9"), 5 ∷ 30 ∷ []) ∷ []

call_run :
    (call (login ∷ []) (txt "POST") (txt "/login") (some (txt "9.9.9.9")) 50 hits
      ≡ some (refused 15, hits))
    × (call (login ∷ []) (txt "POST") (txt "/login") (some (txt "9.9.9.9")) 65 hits
        ≡ some (passed, ((txt "login", txt "9.9.9.9"), 30 ∷ 65 ∷ []) ∷ []))
unfolding call
call_run = (refl, refl)

decisions_lem_example :
    decisions 2 60 [] (5 ∷ 30 ∷ 50 ∷ 65 ∷ []) ≡ reference_decisions 2 60 [] (5 ∷ 30 ∷ 50 ∷ 65 ∷ [])
decisions_lem_example =
    decisions_lem 2 60 (5 ∷ 30 ∷ 50 ∷ 65 ∷ []) refl (refl, (refl, (refl, (refl, tt))))
