-- ===== src/Chunking/Fixed/Coverage.antt =====
-- The windows of `FixedWindowChunker.chunk` of backend/src/app/domain/chunking.py.
use normeon_german_technical.Chunking.{join, Chunk, Word, flatten_words}
use normeon_german_technical.Prelude.{
  txt, ℕ, zero, suc, ◌+◌, ◌-◌, ◌*◌, ◌≤◌, ◌<◌, ◌≡◌, inl, inr, refl, sym, ap, ◌∙◌, Bool-cases, some,
  List, [], ◌∷◌, map, min, length, length-drop, length-take, take_of_length-le, leb, take, drop,
  ltb, ◌==◌, get_elem?, Eq, nat_eq, pair_eq, arith, subst,
}
use normeon_german_technical.Parsing.{ParsedDocument}
use normeon_german_technical.Chunking.Fixed.{
  FixedWindowChunker, window_chunk, window_loop, fixed_chunk,
}
use native.Mathlib.Nat.{zero-add}
use mathlib.Core.Option.{some-injective}

take-cut {ℓ} : {A : Type ℓ} (n m : ℕ) (l : List A) → m ≡ min n (length l) → take m l ≡ take n l
take-cut n m l h = elim (Bool-cases (leb n (length l))) [
  | inl e ↦ ap (λ k. take k l) (ground (arith, h, e))
  | inr e ↦
      take_of_length-le m l (ground (arith, h, e)) ∙ sym (take_of_length-le n l (ground (arith, e)))
]

-- What a nonempty list begins with.
head_of {ℓ} : {A : Type ℓ} (l : List A) → 0 < length l → (a : A) × (rest : List A) × (l ≡ a ∷ rest)
head_of [] h = absurd (omega (arith, h))
head_of (a ∷ l) h = (a, l, refl)

module _ {B : Type 0} ⦃e : Eq B⦄ (chunker : FixedWindowChunker) (words : List (Word B)) where
  -- The words from `start` on, a window of them at most.
  abbrev pub window_at : ℕ → List (Word B)
  window_at start = take chunker.window_tokens (drop start words)

  window_at_lem :
      (start : ℕ)
      → start < length words
      → take (min (start + chunker.window_tokens) (length words) - start) (drop start words)
        ≡ window_at start
  window_at_lem start h =
      take-cut chunker.window_tokens (min (start + chunker.window_tokens) (length words) - start)
        (drop start words) (rw length-drop (omega (arith, h)))

  window_chunk_total :
      (ordinal start : ℕ)
      → 0 < chunker.window_tokens
      → start < length words
      → (c : Chunk B) × (window_chunk ordinal (window_at start) ≡ some c)
  unfolding window_chunk
  window_chunk_total ordinal start w h =
      let (word, rest, e) = head_of (window_at start) (
        omega (
          arith,
          w,
          h,
          length-take chunker.window_tokens (drop start words),
          length-drop start words,
        )) in
      subst (λ l. (c : Chunk B) × (window_chunk ordinal l ≡ some c)) (sym e) (_, refl)

  -- The chunks of the loop from `start` and `ordinal`: the chunk at place `i` is cut from the window
  -- at `start + i * step`, and each word from `start` on lies in one of these windows.
  abbrev pub IsCut : ℕ → ℕ → List (Chunk B) → Type 0
  IsCut start ordinal chunks =
      ((i : ℕ) (c : Chunk B)
        → get_elem? chunks i ≡ some c
        → window_chunk (ordinal + i) (window_at (start + i * chunker.step)) ≡ some c)
      × ((p : ℕ)
          → start ≤ p
          → p < length words
          → (i : ℕ) × (i < length chunks)
            × (start + i * chunker.step ≤ p)
            × (p < start + i * chunker.step + chunker.window_tokens))

  IsCut-last :
      (start ordinal : ℕ) (c : Chunk B)
      → window_chunk ordinal (window_at start) ≡ some c
      → length words ≤ start + chunker.window_tokens
      → IsCut start ordinal (c ∷ [])
  IsCut-last start ordinal c h g =
      (at, λ p a b. (0, ground arith, ground (arith, a), ground (arith, b, g)))
    where
      at :
          (i : ℕ) (d : Chunk B)
          → get_elem? (c ∷ []) i ≡ some d
          → window_chunk (ordinal + i) (window_at (start + i * chunker.step)) ≡ some d
      at zero d q =
          subst (λ (x : ℕ × ℕ). window_chunk x.0 (window_at x.1) ≡ some d) (sym (ground arith))
            (h ∙ q)
      at (suc i) d q = ground (arith, q)

  IsCut-next :
      (start ordinal : ℕ) (c : Chunk B) (chunks : List (Chunk B))
      → chunker.step ≤ chunker.window_tokens
      → window_chunk ordinal (window_at start) ≡ some c
      → IsCut (start + chunker.step) (ordinal + 1) chunks
      → IsCut start ordinal (c ∷ chunks)
  IsCut-next start ordinal c chunks le h (ats, covers) = (at, cover)
    where
      at :
          (i : ℕ) (d : Chunk B)
          → get_elem? (c ∷ chunks) i ≡ some d
          → window_chunk (ordinal + i) (window_at (start + i * chunker.step)) ≡ some d
      at zero d q =
          subst (λ (x : ℕ × ℕ). window_chunk x.0 (window_at x.1) ≡ some d) (ground arith) (h ∙ q)
      at (suc i) d q =
          subst (λ (x : ℕ × ℕ). window_chunk x.0 (window_at x.1) ≡ some d) (ground arith)
            (ats i d q)

      cover :
          (p : ℕ)
          → start ≤ p
          → p < length words
          → (i : ℕ) × (i < length (c ∷ chunks))
            × (start + i * chunker.step ≤ p)
            × (p < start + i * chunker.step + chunker.window_tokens)
      cover p a b = elim (Bool-cases (ltb p (start + chunker.step))) [
        | inl e ↦ (0, ground arith, ground (arith, a), ground (arith, e, le))
        | inr e ↦
            let (i, x, y, z) = covers p (ground (arith, e)) b in
            (suc i, omega (arith, x), omega (arith, y), omega (arith, z))
      ]

  -- With fuel left over, the loop returns the chunks of its windows.
  window_loop-IsCut :
      (fuel start ordinal : ℕ)
      → 0 < chunker.window_tokens
      → 0 < chunker.step
      → chunker.step ≤ chunker.window_tokens
      → length words < fuel + start
      → 0 < fuel
      → (chunks : List (Chunk B)) × (window_loop fuel chunker words start ordinal ≡ some chunks)
        × IsCut start ordinal chunks
  unfolding window_loop
  window_loop-IsCut zero start ordinal w s le h f = absurd (omega (arith, f))
  window_loop-IsCut (suc fuel) start ordinal w s le h f =
      elim (Bool-cases (ltb start (length words))) [
        | inr e ↦ (
          [],
          rw e refl,
          ((λ i c q. ground (arith, q)), (λ p a b. absurd (ground (arith, e, a, b)))),
        )
        | inl e ↦
            let (c, made) = window_chunk_total ordinal start w (ground (arith, e)) in
            let cut : window_chunk ordinal (
                  take (min (start + chunker.window_tokens) (length words) - start)
                    (drop start words))
                ≡ some c =
              ap (window_chunk ordinal) (window_at_lem start (ground (arith, e))) ∙ made in
            elim (Bool-cases (min (start + chunker.window_tokens) (length words) == length words)) [
              | inl g ↦
                  (c ∷ [], rw (e, cut, g) refl, IsCut-last start ordinal c made (ground (arith, g)))
              | inr g ↦
                  let (chunks, run, is_cut) =
                    window_loop-IsCut fuel (start + chunker.step) (ordinal + 1) w s le
                      (ground (arith, h, s)) (ground (arith, h, e)) in
                  (
                    c ∷ chunks,
                    rw (e, cut, g, run) refl,
                    IsCut-next start ordinal c chunks le made is_cut,
                  )
            ]
      ]

-- The chunk of a window: its place, its text, and its words, `n` at most.
abbrev pub IsWindowChunk : {B : Type 0} → ℕ → ℕ → List (Word B) → Chunk B → Type 0
IsWindowChunk n i window c =
    (c.ordinal ≡ i)
    × (c.content ≡ join (txt " ") (map (λ w. w.text) window))
    × (c.token_count ≡ length window)
    × (length window ≤ n)

window_chunk_lem :
    {B : Type 0} ⦃e : Eq B⦄ (n i : ℕ) (words : List (Word B)) (c : Chunk B)
    → window_chunk i (take n words) ≡ some c
    → IsWindowChunk n i (take n words) c
unfolding window_chunk
window_chunk_lem n i words c h =
    elim (take n words) as (λ l. length l ≤ n → window_chunk i l ≡ some c → IsWindowChunk n i l c) [
      | [] ↦ λ b q. ground (arith, q)
      | word ∷ rest ↦ λ b q.
          subst (IsWindowChunk n i (word ∷ rest)) (some-injective _ _ q) (refl, refl, refl, b)
    ]
      (ground (arith, length-take n words)) h

-- With a window above 0 and a step above 0 that is no longer than it, `FixedWindowChunker.chunk`
-- ends and raises nothing. Chunk number `i` has the ordinal `i` and the words of the window at
-- `i * step`, `window_tokens` of them at most, and every word of the document is in a window.
pub fixed_chunk_lem :
    {B : Type 0} ⦃e : Eq B⦄ (chunker : FixedWindowChunker) (doc : ParsedDocument B)
    → 0 < chunker.window_tokens
    → 0 < chunker.step
    → chunker.step ≤ chunker.window_tokens
    → (chunks : List (Chunk B)) × (fixed_chunk chunker doc ≡ some chunks)
      × ((i : ℕ) (c : Chunk B)
          → get_elem? chunks i ≡ some c
          → IsWindowChunk chunker.window_tokens i
              (window_at chunker (flatten_words doc.blocks) (i * chunker.step))
              c)
      × ((p : ℕ)
          → p < length (flatten_words doc.blocks)
          → (i : ℕ) × (i < length chunks)
            × (i * chunker.step ≤ p)
            × (p < i * chunker.step + chunker.window_tokens))
unfolding fixed_chunk
fixed_chunk_lem chunker doc w s le =
    let words = flatten_words doc.blocks in
    let (chunks, run, (at, cover)) =
      window_loop-IsCut chunker words (suc (length words)) 0 0 w s le (omega arith) (omega arith) in
    (
      chunks,
      run,
      λ i c q.
          window_chunk_lem chunker.window_tokens i (drop (i * chunker.step) words) c
            (simp zero-add at (at i c q)),
      λ p b.
          let (k, x, y, z) = cover p (omega arith) b in (k, x, omega (arith, y), omega (arith, z)),
    )
