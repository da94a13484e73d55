-- ===== src/Scanner/Engine/Chunks.antt =====
-- The chunks of a region cover it (`first_scan_with_progress` of src/scanner/engine.rs): every aligned
-- value that fits is read in one chunk, and nothing outside the region is read.
use intimatr.Prelude.{
  ℕ, zero, suc, ◌+◌, ◌-◌, ◌*◌, ◌/◌, ◌≤◌, ◌<◌, ◌≡◌, refl, sym, ap, ◌∙◌, ◌⊎◌, inl, inr, min, max,
  Bool, true, false, none, some, List, [], ◌∷◌, Result, ok, arith, All, u64_max, ltb, leb, ok_or,
  if◌then◌else◌, Bool-cases, ltb→lt, ltb→le, ok-injective,
}
use mathlib.Core.Path.{subst}
use intimatr.Float.Round.{times-lt}
use intimatr.Scanner.Engine.{
  ScanError, address_overflow, ScanChunk, chunk_at, room, cut, aligned_scan_span,
}

-- The value at `a` is read in this chunk: it starts within the span, a multiple of the alignment from
-- the chunk's address, and its bytes are among those read.
pub record Holds (width alignment a : ℕ) (c : ScanChunk) : Type 0 where
  pub starts : c.address ≤ a
  pub within : a < c.address + c.logical_span
  pub reads : a + width ≤ c.address + c.read_len
  pub aligned : (k : ℕ) × (a ≡ c.address + k * alignment)

-- It is read in one chunk: the spans of those before end before it, and those after start after it.
abbrev pub Once : ℕ → ℕ → ℕ → List ScanChunk → Type 0
Once width alignment a [] = ⊥
Once width alignment a (c ∷ cs) =
    (Holds width alignment a c × All (λ (d : ScanChunk). a < d.address) cs)
    ⊎ ((c.address + c.logical_span ≤ a) × Once width alignment a cs)

abbrev pub Inside : ℕ → ℕ → ScanChunk → Type 0
Inside start end c = (start ≤ c.address) × (c.address + c.read_len ≤ end)

room-false : (w e c : ℕ) → e ≤ u64_max → room w e c ≡ false → e < c + w
room-false w e c h k = ground arith

room-true : (w e c : ℕ) → room w e c ≡ true → c + w ≤ e
room-true w e c k = ground arith

cut-done : (fuel i w s e c : ℕ) → room w e c ≡ false → cut (suc fuel) i w s e c ≡ ok []
unfolding cut
cut-done fuel i w s e c h = rw (h, cut) refl

cut-next :
    (fuel i w s e c : ℕ) (rest : List ScanChunk)
    → room w e c ≡ true
    → e ≤ u64_max
    → 0 < w
    → cut fuel i w s e (c + min s (e - c)) ≡ ok rest
    → cut (suc fuel) i w s e c ≡ ok (chunk_at i w s e c ∷ rest)
unfolding cut
cut-next fuel i w s e c rest r h p k =
    let fits : leb (c + min s (e - c)) u64_max ≡ true = ground (arith, room-true w e c r) in
    rw (r, cut) (rw fits (rw k refl))

-- What the loop makes of what is left of a region from the cursor on.
pub record Cut (width alignment e c : ℕ) (cs : List ScanChunk) : Type 0 where
  pub inside : All (Inside c e) cs
  pub once : (a k : ℕ) → a ≡ c + k * alignment → a + width ≤ e → Once width alignment a cs

Inside-later : (c d e : ℕ) (cs : List ScanChunk) → c ≤ d → All (Inside d e) cs → All (Inside c e) cs
Inside-later c d e [] h k = tt
Inside-later c d e (x ∷ cs) h k = ((omega (arith, k.0.0), k.0.1), Inside-later c d e cs h k.1)

Inside-after :
    (a d e : ℕ) (cs : List ScanChunk)
    → a < d
    → All (Inside d e) cs
    → All (λ (c : ScanChunk). a < c.address) cs
Inside-after a d e [] h k = tt
Inside-after a d e (x ∷ cs) h k = (omega (arith, k.0.0), Inside-after a d e cs h k.1)

split-times : (u d al : ℕ) → (u + d) * al ≡ u * al + d * al
split-times u d al = grind arith

-- The multiples of the alignment beyond a span are those from its end.
beyond : (c u k al : ℕ) → 0 < al → c + u * al ≤ c + k * al → c + k * al ≡ c + u * al + (k - u) * al
beyond c u k al h le = elim (Bool-cases (ltb k u)) [
  | inl less ↦ absurd (omega (arith, times-lt k u al (ltb→lt k u less) h))
  | inr more ↦
      let split : k ≡ u + (k - u) = omega (arith, ltb→le k u more) in
      ap (λ n. c + n * al) split ∙ omega (arith, split-times u (k - u) al)
]

module _ (i w u al e : ℕ) (fits : e ≤ u64_max) (wide : 0 < w) (some_units : 0 < u)
    (stride : 0 < al) where
  chunk-Inside : (c : ℕ) → c + w ≤ e → Inside c e (chunk_at i w (u * al) e c)
  chunk-Inside c h = (omega arith, omega arith)

  next-Cut :
      (c : ℕ) (rest : List ScanChunk)
      → c + w ≤ e
      → Cut w al e (c + min (u * al) (e - c)) rest
      → Cut w al e c (chunk_at i w (u * al) e c ∷ rest)
  next-Cut c rest h k = record {
    inside = (chunk-Inside c h, Inside-later c _ e rest (omega arith) k.inside);
    once = λ a n eq room. elim (Bool-cases (ltb a (c + min (u * al) (e - c)))) [
      | inl before ↦ inl (
        record {
          starts = omega (arith, eq);
          within = ltb→lt a (c + min (u * al) (e - c)) before;
          reads = omega (arith, fits, room, ltb→lt a (c + min (u * al) (e - c)) before);
          aligned = (n, eq);
        },
        Inside-after a _ e rest (ltb→lt a (c + min (u * al) (e - c)) before) k.inside,
      )
      | inr after ↦
          let past = ltb→le a (c + min (u * al) (e - c)) after in
          let full : min (u * al) (e - c) ≡ u * al = omega (arith, past, room, wide, h) in
          let same : a ≡ c + min (u * al) (e - c) + (n - u) * al =
            eq
            ∙ beyond c u n al stride (omega (arith, eq, past, full))
            ∙ ap (λ m. c + m + (n - u) * al) (sym full) in
          inr (past, k.once a (n - u) same room)
    ];
  }

  cut-Cut :
      (fuel c : ℕ)
      → c ≤ e
      → e - c < fuel
      → (cs : List ScanChunk) × (cut fuel i w (u * al) e c ≡ ok cs) × Cut w al e c cs
  cut-Cut zero c h f = elim f [ ]
  cut-Cut (suc fuel) c h f = elim (Bool-cases (room w e c)) [
    | inl more ↦
        let left = room-true w e c more in
        let positive : 0 < u * al = omega (arith, times-lt 0 u al some_units stride) in
        let (rest, made, k) =
          cut-Cut fuel (c + min (u * al) (e - c)) (omega arith)
            (omega (arith, left, wide, positive, f)) in
        (
          chunk_at i w (u * al) e c ∷ rest,
          cut-next fuel i w (u * al) e c rest more fits wide made,
          next-Cut c rest left k,
        )
    | inr done ↦
        let full = room-false w e c fits done in
        (
          [],
          cut-done fuel i w (u * al) e c done,
          record { inside = tt; once = λ a n eq room. absurd (omega (arith, eq, room, full)) },
        )
  ]

span-units :
    (chunk_size al span : ℕ)
    → aligned_scan_span chunk_size al ≡ ok span
    → max (chunk_size / al) 1 * al ≡ span
unfolding aligned_scan_span
span-units chunk_size al span h = go (leb (max (chunk_size / al) 1 * al) u64_max) h
  where
    go :
        (b : Bool)
        → ◌≡◌ {A = Result ScanError ℕ}
            (ok_or (if b then some (max (chunk_size / al) 1 * al) else none) address_overflow)
            (ok span)
        → max (chunk_size / al) 1 * al ≡ span
    go true k = ok-injective k
    go false k = absurd (ground arith)

-- For a region that does not wrap, a width and an alignment that are not zero, and a span that
-- `aligned_scan_span` returns: the loop ends without an error, within one round more than the
-- region has bytes; its chunks read nothing outside the region; and each address at a multiple of
-- the alignment from the base, whose value fits in the region, is read in exactly one of them.
pub region_cut :
    (index width chunk_size alignment span base size : ℕ)
    → base + size ≤ u64_max
    → 0 < width
    → 0 < alignment
    → aligned_scan_span chunk_size alignment ≡ ok span
    → (chunks : List ScanChunk) × (cut (suc size) index width span (base + size) base ≡ ok chunks)
      × Cut width alignment (base + size) base chunks
region_cut index width chunk_size alignment span base size fits wide stride spans =
    subst
      (λ n.
        (chunks : List ScanChunk) × (cut (suc size) index width n (base + size) base ≡ ok chunks)
        × Cut width alignment (base + size) base chunks)
      (span-units chunk_size alignment span spans)
      (cut-Cut index width (max (chunk_size / alignment) 1) alignment (base + size) fits wide
        (omega arith) stride (suc size) base (omega arith) (omega arith))
