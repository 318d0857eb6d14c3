-- ===== src/Prelude/Slices.antt =====
-- Go's slices of one element type: several of them may look at one array, and `append` writes into
-- the array where the capacity allows it.
use Prim.Native.Nat.{ℕ, zero, suc, ◌+◌, ◌-◌, ◌≤◌, ◌<◌}
use mathlib.Core.Path.{◌≡◌, refl, ap, ◌∙◌}
use mathlib.Core.List.{List, [], ◌∷◌, ◌++◌}
use mathlib.Core.Bool.{false}
use mathlib.Core.Logic.{inl, inr}
use native.Mathlib.Omega.{arith}
use krakend_otel.Prelude.Tests.{if◌then◌else◌, leb, ◌==◌, Bool-cases}
use krakend_otel.Prelude.Lists.{length, length-append}

pub record Slice : Type 0 where
  pub array : ℕ
  pub len : ℕ
  pub cap : ℕ

module _ {A : Type 0} where
  unfoldable pub take : ℕ → List A → List A
  take zero xs = []
  take (suc n) [] = []
  take (suc n) (x ∷ xs) = x ∷ take n xs

  unfoldable pub drop : ℕ → List A → List A
  drop zero xs = xs
  drop (suc n) [] = []
  drop (suc n) (x ∷ xs) = drop n xs

  -- The cells with `xs` written from this position on.
  unfoldable pub overwrite : ℕ → List A → List A → List A
  unfolding drop
  overwrite zero xs cells = xs ++ drop (length xs) cells
  overwrite (suc n) xs [] = xs
  overwrite (suc n) xs (c ∷ cells) = c ∷ overwrite n xs cells

-- The cells of each array, and the number of the next array that is made.
pub record Heap (A : Type 0) : Type 0 where
  pub cells : ℕ → List A
  pub fresh : ℕ

module _ {A : Type 0} where
  abbrev pub contents : Heap A → Slice → List A
  contents h s = take s.len (h.cells s.array)

  abbrev pub set_cells : ℕ → List A → Heap A → ℕ → List A
  set_cells array xs h a = if a == array then xs else h.cells a

  -- `append(s, xs...)`: where the capacity is too small a new array is made, of the capacity that
  -- `grow` gives.
  unfoldable pub append : (ℕ → ℕ) → Slice → List A → Heap A → Heap A × Slice
  append grow s xs h =
      let n = s.len + length xs in
      if leb n s.cap
      then (
        record h { cells = set_cells s.array (overwrite s.len xs (h.cells s.array)) h },
        record s { len = n },
      )
      else (
        record { cells = set_cells h.fresh (contents h s ++ xs) h; fresh = suc h.fresh },
        record { array = h.fresh; len = n; cap = grow n },
      )

  -- The slice lies in the cells of an array that has been made.
  abbrev pub IsGood : Heap A → Slice → Type 0
  IsGood h s = (s.len ≤ length (h.cells s.array)) × (s.array < h.fresh)

  length-drop : (n : ℕ) (xs : List A) → length (drop n xs) ≡ length xs - n
  unfolding drop
  length-drop zero xs = omega arith
  length-drop (suc n) [] = omega arith
  length-drop (suc n) (x ∷ xs) = omega (arith, length-drop n xs)

  take_all : (xs ys : List A) → take (length xs) (xs ++ ys) ≡ xs
  unfolding take
  take_all [] ys = refl
  take_all (x ∷ xs) ys = ap (λ l. x ∷ l) (take_all xs ys)

  length-take : (n : ℕ) (xs : List A) → n ≤ length xs → length (take n xs) ≡ n
  unfolding take
  length-take zero xs h = refl
  length-take (suc n) [] h = absurd (omega arith)
  length-take (suc n) (x ∷ xs) h = omega (arith, length-take n xs (omega arith))

  take-overwrite :
      (n k : ℕ) (xs cells : List A)
      → k ≡ n + length xs
      → n ≤ length cells
      → take k (overwrite n xs cells) ≡ take n cells ++ xs
  unfolding take overwrite
  take-overwrite zero k xs cells e h =
      let e' : k ≡ length xs = omega arith in rw e' (take_all xs (drop (length xs) cells))
  take-overwrite (suc n) k xs [] e h = absurd (omega arith)
  take-overwrite (suc n) zero xs (c ∷ cells) e h = absurd (omega arith)
  take-overwrite (suc n) (suc k) xs (c ∷ cells) e h =
      ap (λ l. c ∷ l) (take-overwrite n k xs cells (omega arith) (omega arith))

  take-overwrite_before :
      (n : ℕ) (xs cells : List A) → n ≤ length cells → take n (overwrite n xs cells) ≡ take n cells
  unfolding take overwrite
  take-overwrite_before zero xs cells h = refl
  take-overwrite_before (suc n) xs [] h = absurd (omega arith)
  take-overwrite_before (suc n) xs (c ∷ cells) h =
      ap (λ l. c ∷ l) (take-overwrite_before n xs cells (omega arith))

  length-overwrite :
      (n : ℕ) (xs cells : List A) → n ≤ length cells → n ≤ length (overwrite n xs cells)
  unfolding overwrite
  length-overwrite zero xs cells h = omega arith
  length-overwrite (suc n) xs [] h = absurd (omega arith)
  length-overwrite (suc n) xs (c ∷ cells) h =
      omega (arith, length-overwrite n xs cells (omega arith))

  set_cells-same : (a : ℕ) (xs : List A) (h : Heap A) → set_cells a xs h a ≡ xs
  set_cells-same a xs h = ground arith

  set_cells-other : (a b : ℕ) (xs : List A) (h : Heap A) → a < b → set_cells b xs h a ≡ h.cells a
  set_cells-other a b xs h lt = ground arith

  take_whole : (k : ℕ) (xs : List A) → k ≡ length xs → take k xs ≡ xs
  unfolding take
  take_whole zero [] e = refl
  take_whole zero (x ∷ xs) e = absurd (omega arith)
  take_whole (suc k) [] e = absurd (omega arith)
  take_whole (suc k) (x ∷ xs) e = ap (λ l. x ∷ l) (take_whole k xs (omega arith))

  copied :
      (s : Slice) (xs : List A) (h : Heap A)
      → s.len ≤ length (h.cells s.array)
      → take (s.len + length xs) (contents h s ++ xs) ≡ contents h s ++ xs
  copied s xs h fits =
      take_whole (s.len + length xs) (contents h s ++ xs)
        (omega (arith, length-append (contents h s) xs, length-take s.len (h.cells s.array) fits))

  -- Whatever the capacity, what is appended is behind what was there.
  pub contents-append :
      (grow : ℕ → ℕ) (s : Slice) (xs : List A) (h : Heap A)
      → IsGood h s
      → contents (append grow s xs h).0 (append grow s xs h).1 ≡ contents h s ++ xs
  unfolding append
  contents-append grow s xs h (fits, made) = elim (Bool-cases (leb (s.len + length xs) s.cap)) [
    | inl spare ↦ rw spare (
        rw set_cells-same (take-overwrite s.len (s.len + length xs) xs (h.cells s.array) refl fits))
    | inr full ↦ rw full (rw set_cells-same (copied s xs h fits))
  ]

  -- An `append` for which the capacity is too small makes a new array, and leaves the others as
  -- they are.
  pub append-kept :
      (grow : ℕ → ℕ) (s : Slice) (xs : List A) (h : Heap A) (other : Slice)
      → leb (s.len + length xs) s.cap ≡ false
      → other.array < h.fresh
      → (contents (append grow s xs h).0 other ≡ contents h other)
        × ((append grow s xs h).0.cells other.array ≡ h.cells other.array)
        × ((append grow s xs h).0.fresh ≡ suc h.fresh)
        × ((append grow s xs h).1.array ≡ h.fresh)
  unfolding append
  append-kept grow s xs h other full made =
      let same = set_cells-other other.array h.fresh (contents h s ++ xs) h made in
      rw full (ap (take other.len) same, same, refl, refl)

  -- When two are appended to one slice before the first is read, the first reads as the second where
  -- the capacity is there for it, and as itself where it is not.
  pub contents-append_twice :
      (grow : ℕ → ℕ) (s : Slice) (xs ys : List A) (h : Heap A)
      → IsGood h s
      → length ys ≡ length xs
      → contents (append grow s ys (append grow s xs h).0).0 (append grow s xs h).1
        ≡ contents h s ++ (if leb (s.len + length xs) s.cap then ys else xs)
  unfolding append
  contents-append_twice grow s xs ys h (fits, made) same =
      let k = s.len + length xs in
      let cells = h.cells s.array in
      let h0 : Heap A = record h { cells = set_cells s.array (overwrite s.len xs cells) h } in
      let h1 : Heap A = record {
        cells = set_cells h.fresh (contents h s ++ xs) h;
        fresh = suc h.fresh;
      } in
      elim (Bool-cases (leb (s.len + length xs) s.cap)) [
        | inl spare ↦
            rw (same, spare)
              (ap (take k) (set_cells-same s.array (overwrite s.len ys (h0.cells s.array)) h0)
                ∙ (ap (λ c. take k (overwrite s.len ys c))
                      (set_cells-same s.array (overwrite s.len xs cells) h)
                    ∙ (take-overwrite s.len k ys (overwrite s.len xs cells) (omega arith)
                          (length-overwrite s.len xs cells fits)
                        ∙ ap (λ l. l ++ ys) (take-overwrite_before s.len xs cells fits))))
        | inr full ↦
            rw (same, full)
              (ap (take k)
                  (set_cells-other h.fresh (suc h.fresh) (contents h1 s ++ ys) h1 (omega arith))
                ∙ (ap (take k) (set_cells-same h.fresh (contents h s ++ xs) h)
                    ∙ copied s xs h fits))
      ]
