-- ===== src/Prelude/Strings/Case.antt =====
-- The case of letters: what the canonical form of a header's key reads of it.
use Prim.Native.Char.{Char, code}
use Prim.Native.Nat.{ℕ, zero, suc, ◌+◌, ◌-◌, ◌≤◌}
use Prim.Native.String
use Prim.Native.String.{String}
use mathlib.Core.Path.{◌≡◌, refl, sym, ap, ap₂, ◌∙◌}
use mathlib.Core.Logic.{inl, inr}
use mathlib.Core.Bool.{Bool, true, false, ◌&&◌}
use native.Mathlib.Omega.{arith}
use text.Mathlib.TextEquality.{Char-path}
use krakend_otel.Prelude.Tests.{if◌then◌else◌, ◌==◌, le_suc_cases, Bool-cases}
use krakend_otel.Prelude.Strings.{
  between, lower_char, upper_char, to_lower, is_token, all_token, recase, canonical_header_key,
}

-- Whether the letters of an alphabet, up to this index, start at this code and follow each other.
abbrev runs : String → ℕ → ℕ → Bool
runs s a zero = code (String.char_at s 0) == a
runs s a (suc n) = code (String.char_at s (suc n)) == suc n + a && runs s a n

runs-char_at :
    (s : String) (a n : ℕ) → runs s a n ≡ true → (i : ℕ) → i ≤ n → code (String.char_at s i) ≡ i + a
runs-char_at s a zero e i h = let z : i ≡ 0 = omega arith in rw z (ground (arith, e))
runs-char_at s a (suc n) e i h = elim (le_suc_cases i n h) [
  | inl p ↦ runs-char_at s a n (ground (arith, e)) i p
  | inr p ↦
      let last : code (String.char_at s (suc n)) ≡ suc n + a = ground (arith, e) in rw (p, last)
]

lower_letter : (i : ℕ) → i ≤ 25 → code (String.char_at "abcdefghijklmnopqrstuvwxyz" i) ≡ i + 97
lower_letter = runs-char_at "abcdefghijklmnopqrstuvwxyz" 97 25 refl

upper_letter : (i : ℕ) → i ≤ 25 → code (String.char_at "ABCDEFGHIJKLMNOPQRSTUVWXYZ" i) ≡ i + 65
upper_letter = runs-char_at "ABCDEFGHIJKLMNOPQRSTUVWXYZ" 65 25 refl

lower_char-code :
    (c : Char) → code (lower_char c) ≡ (if between 65 90 (code c) then code c + 32 else code c)
unfolding lower_char
lower_char-code c = ground (arith, lower_letter (code c - 65))

upper_char-code :
    (c : Char) → code (upper_char c) ≡ (if between 97 122 (code c) then code c - 32 else code c)
unfolding upper_char
upper_char-code c = ground (arith, upper_letter (code c - 97))

lower_char_idempotent : (c : Char) → lower_char (lower_char c) ≡ lower_char c
lower_char_idempotent c =
    Char-path _ _ (ground (arith, lower_char-code c, lower_char-code (lower_char c)))

upper_char-lower_char : (c : Char) → upper_char (lower_char c) ≡ upper_char c
upper_char-lower_char c =
    Char-path _ _
      (ground (arith, lower_char-code c, upper_char-code c, upper_char-code (lower_char c)))

is_token-letter : (n : ℕ) → 65 ≤ n → n ≤ 90 → is_token (n + 32) ≡ is_token n
unfolding is_token
is_token-letter n l u =
    let small : between 97 122 (n + 32) ≡ true = ground arith in
    let capital : between 65 90 n ≡ true = ground arith in
    let not_small : between 97 122 n ≡ false = ground arith in rw (small, not_small, capital)

is_token-lower_char : (c : Char) → is_token (code (lower_char c)) ≡ is_token (code c)
is_token-lower_char c = elim (Bool-cases (between 65 90 (code c))) [
  | inl e ↦
      ap is_token (lower_char-code c ∙ rw e)
      ∙ is_token-letter (code c) (ground (arith, e)) (ground (arith, e))
  | inr e ↦ ap is_token (lower_char-code c ∙ rw e)
]

dash-lower_char : (c : Char) → (code (lower_char c) == 45) ≡ (code c == 45)
dash-lower_char c = ground (arith, lower_char-code c)

all_token-to_lower : (s : String) → all_token (to_lower s) ≡ all_token s
unfolding all_token to_lower
all_token-to_lower String.[] = refl
all_token-to_lower (String.◌∷◌ c s) = ap₂ ◌&&◌ (is_token-lower_char c) (all_token-to_lower s)

recase-to_lower : (upper : Bool) (s : String) → recase upper (to_lower s) ≡ recase upper s
unfolding recase to_lower
recase-to_lower upper String.[] = refl
recase-to_lower true (String.◌∷◌ c s) =
    rw (upper_char-lower_char c, dash-lower_char c, recase-to_lower (code c == 45) s)
recase-to_lower false (String.◌∷◌ c s) =
    rw (lower_char_idempotent c, dash-lower_char c, recase-to_lower (code c == 45) s)

pub canonical_header_key-to_lower :
    (h k : String)
    → to_lower h ≡ to_lower k
    → all_token k ≡ true
    → canonical_header_key h ≡ canonical_header_key k
unfolding canonical_header_key
canonical_header_key-to_lower h k e token =
    let token' : all_token h ≡ true =
      sym (all_token-to_lower h) ∙ (ap all_token e ∙ (all_token-to_lower k ∙ token)) in
    let same : recase true h ≡ recase true k =
      sym (recase-to_lower true h) ∙ (ap (recase true) e ∙ recase-to_lower true k) in
    rw (token, token', same)
