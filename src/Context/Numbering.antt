-- ===== src/Context/Numbering.antt =====
-- The numbered sources that `build_context` of backend/src/app/domain/context.py returns.
use normeon_german_technical.Prelude.{
  ℕ, zero, suc, ◌+◌, ◌≤◌, ◌≡◌, ◌∙◌, refl, sym, ap, Text, Bool, false, some, List, [], ◌∷◌, ◌++◌,
  append_assoc, append-nil, get_elem?, nat_eq, list_eq, contains, contains-append, arith,
}
use normeon_german_technical.Prelude.Digits.{show_injective}
use normeon_german_technical.Prelude.Dict.{Dict, keys, lookup, insert, insert_fresh, keys-append}
use normeon_german_technical.Retrieval.{RetrievedChunk}
use normeon_german_technical.Context.{Source, marker_of, source_of, context_loop, build_context}
use mathlib.Core.List.{tail}
use mathlib.Core.Option

marker_of_injective : (i j : ℕ) → marker_of i ≡ marker_of j → i ≡ j
marker_of_injective i j h = show_injective i j (ap tail h)

-- No marker from `i` on is used yet.
abbrev IsFreshFrom : ℕ → Dict Text Source → Type 0
IsFreshFrom i d = (j : ℕ) → i ≤ j → contains (keys d) (marker_of j) ≡ false

fresh_next :
    (i : ℕ) (source : Source) (d : Dict Text Source)
    → IsFreshFrom i d
    → IsFreshFrom (i + 1) (d ++ (marker_of i, source) ∷ [])
fresh_next i source d h j le = rw (keys-append d ((marker_of i, source) ∷ [])) (
    ground (
      arith,
      contains-append (keys d) (marker_of i ∷ []) (marker_of j),
      h j,
      marker_of_injective j i,
    ))

module _ {F : Type 0} where
  -- The chunks numbered from `i`, each under its marker.
  abbrev pub numbered : ℕ → List (RetrievedChunk F) → Dict Text Source
  numbered i [] = []
  numbered i (chunk ∷ chunks) = (marker_of i, source_of i chunk) ∷ numbered (i + 1) chunks

  context_loop-sources :
      (is_word : ℕ → Bool) (untrusted : Bool) (i : ℕ) (chunks : List (RetrievedChunk F))
      (d : Dict Text Source) (blocks : List Text)
      → IsFreshFrom i d
      → (context_loop is_word untrusted i chunks (d, blocks)).0 ≡ d ++ numbered i chunks
  unfolding context_loop
  context_loop-sources is_word untrusted i [] d blocks h = sym (append-nil d)
  context_loop-sources is_word untrusted i (chunk ∷ chunks) d blocks h =
      let fresh = insert_fresh (marker_of i) (source_of i chunk) d (h i (omega arith)) in
      context_loop-sources is_word untrusted (i + 1) chunks
        (insert (marker_of i) (source_of i chunk) d) _
        (rw fresh (fresh_next i (source_of i chunk) d h))
      ∙ (rw fresh
          (append_assoc d ((marker_of i, source_of i chunk) ∷ []) (numbered (i + 1) chunks)))

  pub build_context-numbered :
      (is_word : ℕ → Bool) (chunks : List (RetrievedChunk F)) (untrusted : Bool)
      → (build_context is_word chunks untrusted).1 ≡ numbered 1 chunks
  unfolding build_context
  build_context-numbered is_word chunks untrusted =
      context_loop-sources is_word untrusted 1 chunks [] [] (λ j le. refl)

  lookup-numbered :
      (i j n : ℕ) (chunks : List (RetrievedChunk F))
      → n ≡ j + i
      → lookup (marker_of n) (numbered i chunks) ≡ Option.map (source_of n) (get_elem? chunks j)
  lookup-numbered i j n [] e = refl
  lookup-numbered i zero n (chunk ∷ chunks) e =
      let same : n ≡ i = omega arith in rw same (ground arith)
  lookup-numbered i (suc j) n (chunk ∷ chunks) e =
      ground (arith, marker_of_injective n i, lookup-numbered (i + 1) j n chunks (omega arith))

  numbered-lookup :
      (i : ℕ) (chunks : List (RetrievedChunk F)) (marker : Text) (source : Source)
      → lookup marker (numbered i chunks) ≡ some source
      → (j n : ℕ) × (chunk : RetrievedChunk F) × (n ≡ j + i)
        × (get_elem? chunks j ≡ some chunk)
        × (marker ≡ marker_of n)
        × (source ≡ source_of n chunk)
  numbered-lookup i [] marker source h = absurd (cc)
  numbered-lookup i (chunk ∷ chunks) marker source h = elim (list_eq.dec marker (marker_of i)) [
    | yes p ↦ (0, i, chunk, omega arith, refl, p, ground arith)
    | no p ↦
        let (j, n, found, e, at, named, same) =
          numbered-lookup (i + 1) chunks marker source (ground arith) in
        (suc j, n, found, omega arith, at, named, same)
  ]

  -- The marker `S{j + 1}` resolves to the chunk at position `j` of those handed to `build_context`,
  -- with its ids, file name, pages and content, in both forms of the block; a marker beyond the last
  -- chunk resolves to nothing, and so does every text that is no such marker.
  pub build_context-lookup :
      (is_word : ℕ → Bool) (chunks : List (RetrievedChunk F)) (untrusted : Bool)
      → ((j : ℕ)
          → lookup (marker_of (j + 1)) (build_context is_word chunks untrusted).1
            ≡ Option.map (source_of (j + 1)) (get_elem? chunks j))
        × ((marker : Text) (source : Source)
            → lookup marker (build_context is_word chunks untrusted).1 ≡ some source
            → (j n : ℕ) × (chunk : RetrievedChunk F) × (n ≡ j + 1)
              × (get_elem? chunks j ≡ some chunk)
              × (marker ≡ marker_of n)
              × (source ≡ source_of n chunk))
  build_context-lookup is_word chunks untrusted = (
    λ j.
        rw (build_context-numbered is_word chunks untrusted)
          (lookup-numbered 1 j (j + 1) chunks refl),
    λ marker source h.
        numbered-lookup 1 chunks marker source
          (rw (build_context-numbered is_word chunks untrusted) at h),
  )
