-- ===== src/RateLimit/Decisions.antt =====
-- The decisions of `_retry_after` of backend/src/app/core/rate_limit.py over a sequence of
-- requests.
use normeon_german_technical.Prelude.{
  refl, ℕ, ◌≡◌, Bool, true, false, Option, none, some, List, [], ◌∷◌, ◌++◌, length, leb, ltb, keep,
  if◌then◌else◌, arith, sym, ap, ◌∙◌,
}
use normeon_german_technical.RateLimit.{expire, admit}
use normeon_german_technical.RateLimit.Window.{
  in_window, allows, reference_decisions, decisions, is_none, Rising, Rising-init, Rising-again,
  keep-Rising, expire_lem, keep-keep, keep-append, Agrees, admit_refused, admit_passed,
}

module _ (limit window : ℕ) (positive : ltb 0 limit ≡ true) where
  Agrees-kept :
      (now t : ℕ) (hits log : List ℕ)
      → leb now t ≡ true
      → Rising 0 (hits ++ now ∷ [])
      → Agrees window now hits log
      → Agrees window t (expire window t hits) log
  Agrees-kept now t hits log h r agrees u g =
      ap (keep (in_window window u)) (expire_lem window t 0 hits (Rising-init 0 now hits r))
      ∙ (keep-keep window t u hits g ∙ agrees u (ground (arith, h, g)))

  kept-Rising :
      (now t : ℕ) (hits : List ℕ)
      → leb now t ≡ true
      → Rising 0 (hits ++ now ∷ [])
      → Rising 0 (expire window t hits ++ t ∷ [])
  kept-Rising now t hits h r =
      rw (expire_lem window t 0 hits (Rising-init 0 now hits r))
        (keep-Rising window t 0 now hits h r)

  decisions_step :
      (t : ℕ) (times hits kept : List ℕ) (wait : Option ℕ)
      → admit limit window t hits ≡ some (wait, kept)
      → decisions limit window hits (t ∷ times) ≡ is_none wait ∷ decisions limit window kept times
  unfolding decisions
  decisions_step t times hits kept wait h = ground (arith, h)

  reference_step :
      (t : ℕ) (times log : List ℕ) (b : Bool)
      → allows limit window t log ≡ b
      → reference_decisions limit window log (t ∷ times)
        ≡ b ∷ reference_decisions limit window (if b then (log ++ t ∷ []) else log) times
  reference_step t times log b h =
      ap
        (λ (x : Bool).
          x ∷ reference_decisions limit window (if x then (log ++ t ∷ []) else log) times)
        h

  decisions_from :
      (now : ℕ) (times hits log : List ℕ)
      → Rising now times
      → Rising 0 (hits ++ now ∷ [])
      → Agrees window now hits log
      → decisions limit window hits times ≡ reference_decisions limit window log times
  unfolding decisions is_none
  decisions_from now [] hits log r s agrees = refl
  decisions_from now (t ∷ times) hits log (h, r) s agrees =
      (elim (leb limit (length (expire window t hits)))
          as (λ b.
            leb limit (length (expire window t hits)) ≡ b
            → decisions limit window hits (t ∷ times)
              ≡ reference_decisions limit window log (t ∷ times)) [
                | true ↦ λ e.
                    let (wait, run) = admit_refused limit window t hits positive e in
                    decisions_step t times hits (expire window t hits) (some wait) run
                    ∙ (ap (◌∷◌ false) (
                          decisions_from t times (expire window t hits) log r
                            (kept-Rising now t hits h s) (Agrees-kept now t hits log h s agrees))
                        ∙ sym (reference_step t times log false (ground (arith, e, same))))
                | false ↦ λ e.
                    decisions_step t times hits (expire window t hits ++ t ∷ []) none
                      (admit_passed limit window t hits e)
                    ∙ (ap (◌∷◌ true) (
                          decisions_from t times (expire window t hits ++ t ∷ []) (log ++ t ∷ []) r
                            (Rising-again 0 t (expire window t hits) (kept-Rising now t hits h s))
                            (λ u g.
                              keep-append window u t (expire window t hits) log
                                (Agrees-kept now t hits log h s agrees u g)))
                        ∙ sym (reference_step t times log true (ground (arith, e, same))))
              ])
        refl
    where
      same : length (expire window t hits) ≡ length (keep (in_window window t) log)
      same = ap length (expire_lem window t 0 hits (Rising-init 0 now hits s) ∙ agrees t h)

-- For one client and a clock that never runs backwards, the rate limit, which keeps only a deque,
-- decides each request like a limiter that keeps a log of every request it let pass and lets a
-- request pass when fewer than `limit` of them lie in the last `window` ticks. No request raises.
pub decisions_lem :
    (limit window : ℕ) (times : List ℕ)
    → ltb 0 limit ≡ true
    → Rising 0 times
    → decisions limit window [] times ≡ reference_decisions limit window [] times
decisions_lem limit window times positive r =
    decisions_from limit window positive 0 times [] [] r (ground arith, tt) (λ t h. refl)
