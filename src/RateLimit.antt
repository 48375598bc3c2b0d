-- ===== src/RateLimit.antt =====
-- The sliding-window rate limit: backend/src/app/core/rate_limit.py. The clock counts in ticks, so
-- `hits[0] <= now - window` is written `hits[0] + window <= now`.
pub mod Window
pub mod Decisions
mod Tests
use normeon_german_technical.Prelude.{
  txt, ℕ, ◌+◌, ◌-◌, Text, Bool, true, false, ◌&&◌, ◌==◌, Option, none, some, List, [], ◌∷◌, ◌++◌,
  length, leb, ltb, contains, keep, if◌then◌else◌, nat_eq, list_eq, pair_eq,
}
use normeon_german_technical.Prelude.Dict.{Dict, lookup, insert, get_or}

abbrev pub sweep_at : ℕ
sweep_at = 10000

pub record Rule : Type 0 where
  pub name : Text
  pub method : Text
  pub paths : List Text
  pub limit : ℕ
  pub window : ℕ

-- The key of a rule's name and a client's address.
abbrev pub Key : Type 0
Key = Text × Text

abbrev pub Hits : Type 0
Hits = Dict Key (List ℕ)

-- `self.rules`, of the constructor.
abbrev pub enabled : List Rule → List Rule
enabled rules = keep (λ rule. ltb 0 rule.limit) rules

-- `_rule_for`
unfoldable pub rule_for : List Rule → Text → Text → Option Rule
unfolding nat_eq list_eq
rule_for [] method path = none
rule_for (rule ∷ rules) method path =
    if method == rule.method && contains rule.paths path
    then some rule
    else rule_for rules method path

-- `while hits and hits[0] <= now - rule.window_s: hits.popleft()`
unfoldable pub expire : ℕ → ℕ → List ℕ → List ℕ
expire window now [] = []
expire window now (hit ∷ hits) =
    let rest = expire window now hits in if leb (hit + window) now then rest else hit ∷ hits

-- `hits[-1]`
abbrev pub last_hit : List ℕ → Option ℕ
last_hit [] = none
last_hit (hit ∷ []) = some hit
last_hit (hit ∷ x ∷ hits) = last_hit (x ∷ hits)

-- `{rule.name: rule.window_s for rule in self.rules}`
unfoldable pub windows_of : List Rule → Dict Text ℕ → Dict Text ℕ
unfolding nat_eq list_eq
windows_of [] windows = windows
windows_of (rule ∷ rules) windows = windows_of rules (insert rule.name rule.window windows)

-- `hits and hits[-1] > now - window`
abbrev pub is_active : ℕ → ℕ → List ℕ → Bool
is_active window now hits = elim (last_hit hits) [
  | none ↦ false
  | some hit ↦ ltb now (hit + window)
]

-- The comprehension of `_sweep`; `none` is the `KeyError` of `windows[key[0]]`.
unfoldable pub sweep_loop : Dict Text ℕ → ℕ → Hits → Option Hits
unfolding nat_eq list_eq
sweep_loop windows now [] = some []
sweep_loop windows now ((key, []) ∷ hits) = sweep_loop windows now hits
sweep_loop windows now ((key, h ∷ hs) ∷ hits) = elim (lookup key.0 windows) [
  | none ↦ none
  | some window ↦ elim (sweep_loop windows now hits) [
    | none ↦ none
    | some rest ↦ some (if is_active window now (h ∷ hs) then (key, h ∷ hs) ∷ rest else rest)
  ]
]

unfoldable pub sweep : List Rule → ℕ → Hits → Option Hits
unfolding sweep_loop windows_of
sweep rules now hits = sweep_loop (windows_of rules []) now hits

-- `hits[0]`
abbrev pub first_hit : List ℕ → Option ℕ
first_hit [] = none
first_hit (hit ∷ hits) = some hit

-- `_retry_after` on the deque of one key: the ticks to wait, if any, and the deque after; `none` is
-- the `IndexError` of `hits[0]`.
unfoldable pub admit : ℕ → ℕ → ℕ → List ℕ → Option (Option ℕ × List ℕ)
unfolding expire
admit limit window now hits =
    let kept = expire window now hits in
    if leb limit (length kept)
    then elim (first_hit kept) [ none ↦ none | some hit ↦ some (some (hit + window - now), kept) ]
    else some (none, kept ++ now ∷ [])

-- `_retry_after`: the answer and `self._hits` after it.
unfoldable pub retry_after : List Rule → Rule → Text → ℕ → Hits → Option (Option ℕ × Hits)
unfolding sweep admit nat_eq list_eq pair_eq
retry_after rules rule ip now hits =
    elim (if ltb sweep_at (length hits) then sweep rules now hits else some hits) [
      | none ↦ none
      | some swept ↦ elim (admit rule.limit rule.window now (get_or (rule.name, ip) [] swept)) [
        | none ↦ none
        | some (wait, kept) ↦ some (wait, insert (rule.name, ip) kept swept)
      ]
    ]

-- What `__call__` does: pass the request on, or answer 429 with `Retry-After` in ticks.
pub data Outcome : Type 0 where
  passed : Outcome
  refused : ℕ → Outcome

-- `__call__` on an HTTP request, with `self._hits` after it.
unfoldable pub call : List Rule → Text → Text → Option Text → ℕ → Hits → Option (Outcome × Hits)
unfolding rule_for retry_after
call rules method path client now hits = elim (rule_for rules method path) [
  | none ↦ some (passed, hits)
  | some rule ↦
      elim (retry_after rules rule (elim client [ none ↦ txt "unknown" | some ip ↦ ip ]) now hits) [
        | none ↦ none
        | some (none, after) ↦ some (passed, after)
        | some (some wait, after) ↦ some (refused (if leb wait 1 then 1 else wait), after)
      ]
]
