-- ===== src/Uacp/Chunks.antt =====
-- internal/opcua/uacp.go: ChunkAccumulator. The counter is a uint32 and wraps; a maximum of 0 is no
-- limit.
use opcda_access_adapter.Prelude.{
  ℕ, ◌+◌, ◌%◌, ◌^◌, ◌≤◌, ◌<◌, ◌≡◌, refl, ◌∙◌, ap, sym, ◌⊎◌, inr, false, ◌&&◌, not, List, [], ◌∷◌,
  ◌++◌, ltb, ◌==◌, length, if◌then◌else◌, arith, length-append, append_assoc, append-nil, subst,
}
use mathlib.Core.Path.{subst₂}
use opcda_access_adapter.Errors.{Result, ok, err, ◌>>=◌, >>=-eq-ok, codec}

pub record ChunkAccumulator : Type 0 where
  pub max_chunks : ℕ
  pub max_message : ℕ
  pub too_large : ℕ
  pub chunks : ℕ
  pub body : List ℕ

unfoldable pub new_chunk_accumulator : ℕ → ℕ → ℕ → ChunkAccumulator
new_chunk_accumulator max_chunks max_message too_large = record {
  max_chunks = max_chunks;
  max_message = max_message;
  too_large = too_large;
  chunks = 0;
  body = [];
}

-- An error leaves the accumulator as it is.
unfoldable pub append : ChunkAccumulator → List ℕ → Result ChunkAccumulator
append a chunk =
    if not (a.max_chunks == 0) && ltb a.max_chunks ((a.chunks + 1) % 2 ^ 32)
    then err (codec a.too_large)
    else if not (a.max_message == 0) && ltb a.max_message (length a.body + length chunk)
    then err (codec a.too_large)
    else ok (record a { chunks = (a.chunks + 1) % 2 ^ 32; body = a.body ++ chunk })

unfoldable pub reset : ChunkAccumulator → ChunkAccumulator
reset a = record a { chunks = 0; body = [] }

-- The bounds that were negotiated hold of what is held.
pub record IsBounded (a : ChunkAccumulator) : Type 0 where
  pub few_chunks : (a.max_chunks ≡ 0) ⊎ (a.chunks ≤ a.max_chunks)
  pub short_body : (a.max_message ≡ 0) ⊎ (length a.body ≤ a.max_message)

-- A new accumulator is bounded, a chunk that is accepted keeps it so, and so does a reset.
pub append-IsBounded :
    (a b : ChunkAccumulator) (chunk : List ℕ) → IsBounded a → append a chunk ≡ ok b → IsBounded b
unfolding append
append-IsBounded a b chunk v e = ground (arith, length-append a.body chunk)

pub new-IsBounded : (c m s : ℕ) → IsBounded (new_chunk_accumulator c m s)
unfolding new_chunk_accumulator
new-IsBounded c m s = record { few_chunks = inr (omega arith); short_body = inr (omega arith) }

pub reset-IsBounded : (a : ChunkAccumulator) → IsBounded (reset a)
unfolding reset
reset-IsBounded a = record { few_chunks = inr (omega arith); short_body = inr (omega arith) }

-- The chunks of one message, each appended after the one before.
unfoldable pub append_all : ChunkAccumulator → List (List ℕ) → Result ChunkAccumulator
append_all a [] = ok a
append_all a (c ∷ cs) = do b ← append a c; append_all b cs

abbrev pub concat : List (List ℕ) → List ℕ
concat [] = []
concat (c ∷ cs) = c ++ concat cs

ok_eq : (x y : ChunkAccumulator) → ok x ≡ ok y → x ≡ y
ok_eq x y e = cc e

-- A limit that is 0 allows everything.
abbrev pub Allows : ℕ → ℕ → Type 0
Allows limit n = (limit ≡ 0) ⊎ (n ≤ limit)

appended :
    (a b : ChunkAccumulator) (chunk : List ℕ)
    → append a chunk ≡ ok b
    → (b.body ≡ a.body ++ chunk)
      × (b.chunks ≡ (a.chunks + 1) % 2 ^ 32)
      × (b.max_chunks ≡ a.max_chunks)
      × (b.max_message ≡ a.max_message)
unfolding append
appended a b chunk e = (ground arith, ground arith, ground arith, ground arith)

-- Where the chunks of a message are all accepted, the body is those that were held before and the
-- chunks in their order, with nothing lost between them, and it is within the bounds if it was.
pub append_all-concat :
    (a b : ChunkAccumulator) (chunks : List (List ℕ))
    → IsBounded a
    → append_all a chunks ≡ ok b
    → (b.body ≡ a.body ++ concat chunks)
      × Allows a.max_message (length (a.body ++ concat chunks))
      × Allows a.max_chunks b.chunks
unfolding append_all
append_all-concat a b [] v e =
    let same : a ≡ b = ok_eq a b e in
    let body : a.body ++ [] ≡ a.body = append-nil a.body in
    (
      ap (λ k. k.body) (sym same) ∙ sym body,
      subst (λ s. Allows a.max_message (length s)) (sym body) v.short_body,
      subst (λ k. Allows a.max_chunks k.chunks) same v.few_chunks,
    )
append_all-concat a b (c ∷ cs) v e =
    let (m, first, rest) = >>=-eq-ok (append a c) (λ k. append_all k cs) e in
    let (body, count, max_chunks, max_message) = appended a m c first in
    let (whole, short, few) = append_all-concat m b cs (append-IsBounded a m c v first) rest in
    let joined : m.body ++ concat cs ≡ a.body ++ (c ++ concat cs) =
      ap (λ s. s ++ concat cs) body ∙ append_assoc a.body c (concat cs) in
    (
      whole ∙ joined,
      subst₂ (λ n s. Allows n (length s)) max_message joined short,
      subst (λ n. Allows n b.chunks) max_chunks few,
    )

-- A message whose chunks and bytes, added to those that are held, are within both bounds is accepted
-- whole, as long as the counter of chunks does not wrap.
pub append_all_complete :
    (a : ChunkAccumulator) (chunks : List (List ℕ))
    → a.chunks + length chunks < 2 ^ 32
    → Allows a.max_chunks (a.chunks + length chunks)
    → Allows a.max_message (length (a.body ++ concat chunks))
    → (b : ChunkAccumulator) × (append_all a chunks ≡ ok b)
unfolding append_all append
append_all_complete a [] h few short = (a, refl)
append_all_complete a (c ∷ cs) h few short =
    let (m, first) = next in
    let (body, count, max_chunks, max_message) = appended a m c first in
    let joined : a.body ++ (c ++ concat cs) ≡ m.body ++ concat cs =
      sym (ap (λ s. s ++ concat cs) body ∙ append_assoc a.body c (concat cs)) in
    let (b, rest) =
      append_all_complete m cs (omega (arith, count)) (omega (arith, count, max_chunks, few))
        (subst₂ (λ n s. Allows n (length s)) (sym max_message) joined short) in
    (b, ap (λ r. r >>= (λ k. append_all k cs)) first ∙ rest)
  where
    size : length (a.body ++ (c ++ concat cs)) ≡ length a.body + (length c + length (concat cs))
    size =
        length-append a.body (c ++ concat cs)
        ∙ ap (λ n. length a.body + n) (length-append c (concat cs))

    next : (m : ChunkAccumulator) × (append a c ≡ ok m)
    next =
        let few_chunks : not (a.max_chunks == 0) && ltb a.max_chunks ((a.chunks + 1) % 2 ^ 32)
            ≡ false =
          ground (arith, few, h) in
        let fits : not (a.max_message == 0) && ltb a.max_message (length a.body + length c)
            ≡ false =
          ground (arith, short, size) in
        (
          record a { chunks = (a.chunks + 1) % 2 ^ 32; body = a.body ++ c },
          rw (few_chunks, fits) refl,
        )
