-- ===== src/Prelude/Strings.antt =====
-- The functions of Go's packages strings and net/textproto that the program calls, on native text.
-- The case of letters beyond ASCII is left as it is.
pub mod Case
use Prim.Native.Char.{Char, code}
use Prim.Native.Nat.{ℕ, zero, suc, ◌-◌, ◌%◌, ◌/◌}
use Prim.Native.String
use Prim.Native.String.{String}
use mathlib.Core.Bool.{Bool, true, false, ◌&&◌, ◌||◌}
use mathlib.Core.List.{List, [], ◌∷◌}
use krakend_otel.Prelude.Int.{ℤ, pos, negsuc}
use krakend_otel.Prelude.Tests.{if◌then◌else◌, leb, ◌==◌}

-- `strings.HasPrefix(s, prefix)`, the prefix first
unfoldable pub has_prefix : String → String → Bool
has_prefix String.[] s = true
has_prefix (String.◌∷◌ c p) String.[] = false
has_prefix (String.◌∷◌ c p) (String.◌∷◌ d s) = code c == code d && has_prefix p s

abbrev snoc : String → Char → String
snoc s c = String.◌++◌ s (String.◌∷◌ c String.[])

abbrev between : ℕ → ℕ → ℕ → Bool
between lo hi n = leb lo n && leb n hi

lower_char : Char → Char
lower_char c =
    if between b'A' b'Z' (code c)
    then String.char_at "abcdefghijklmnopqrstuvwxyz" (code c - b'A')
    else c

upper_char : Char → Char
upper_char c =
    if between b'a' b'z' (code c)
    then String.char_at "ABCDEFGHIJKLMNOPQRSTUVWXYZ" (code c - b'a')
    else c

-- `strings.ToLower`
unfoldable pub to_lower : String → String
unfolding lower_char
to_lower String.[] = String.[]
to_lower (String.◌∷◌ c s) = String.◌∷◌ (lower_char c) (to_lower s)

-- `strings.ToUpper`
unfoldable pub to_upper : String → String
unfolding upper_char
to_upper String.[] = String.[]
to_upper (String.◌∷◌ c s) = String.◌∷◌ (upper_char c) (to_upper s)

-- `unicode.IsSpace`
is_space : ℕ → Bool
is_space n =
    between 9 13 n
    || (n == 32
        || (n == 0x85
            || (n == 0xa0
                || (n == 0x1680
                    || (between 0x2000 0x200a n
                        || (n == 0x2028
                            || (n == 0x2029 || (n == 0x202f || (n == 0x205f || n == 0x3000)))))))))

trim_left : String → String
trim_left String.[] = String.[]
trim_left (String.◌∷◌ c s) =
    let rest = trim_left s in if is_space (code c) then rest else String.◌∷◌ c s

trim_right : String → String
trim_right String.[] = String.[]
trim_right (String.◌∷◌ c s) = elim (trim_right s) [
  | String.[] ↦ if is_space (code c) then String.[] else String.◌∷◌ c String.[]
  | String.◌∷◌ d r ↦ String.◌∷◌ c (String.◌∷◌ d r)
]

-- `strings.TrimSpace`
unfoldable pub trim_space : String → String
unfolding is_space trim_left trim_right
trim_space s = trim_right (trim_left s)

split_from : String → String → List String
split_from cur String.[] = cur ∷ []
split_from cur (String.◌∷◌ c s) =
    let closed = split_from "" s in
    let longer = split_from (snoc cur c) s in if code c == b',' then cur ∷ closed else longer

-- `strings.Split(s, ",")`
unfoldable pub split_comma : String → List String
unfolding split_from
split_comma s = split_from "" s

-- The bytes that a header field's name may hold.
is_token : ℕ → Bool
is_token n =
    between b'a' b'z' n
    || (between b'A' b'Z' n
        || (between b'0' b'9' n
            || (n == b'!'
                || (between b'#' b'\'' n
                    || (n == b'*'
                        || (n == b'+'
                            || (n == b'-'
                                || (n == b'.'
                                    || (between b'^' b'`' n || (n == b'|' || n == b'~'))))))))))

-- The names that a header may have.
unfoldable pub all_token : String → Bool
unfolding is_token
all_token String.[] = true
all_token (String.◌∷◌ c s) = is_token (code c) && all_token s

-- A letter is a capital at the start and after a dash, and small elsewhere.
recase : Bool → String → String
recase upper String.[] = String.[]
recase upper (String.◌∷◌ c s) =
    String.◌∷◌ (if upper then upper_char c else lower_char c) (recase (code c == b'-') s)

-- `textproto.CanonicalMIMEHeaderKey`
unfoldable pub canonical_header_key : String → String
unfolding is_token all_token recase upper_char lower_char
canonical_header_key s = if all_token s then recase true s else s

abbrev digit : ℕ → String
digit n = String.◌∷◌ (String.char_at "0123456789" n) String.[]

-- The last digits of a number, at most one more than the first argument.
decimal_from : ℕ → ℕ → String
decimal_from zero n = digit (n % 10)
decimal_from (suc k) n =
    let front = decimal_from k (n / 10) in
    if leb n 9 then digit n else String.◌++◌ front (digit (n % 10))

-- `strconv.Itoa`: an `int` has at most 19 digits.
unfoldable pub itoa : ℤ → String
unfolding decimal_from
itoa (pos n) = decimal_from 19 n
itoa (negsuc n) = String.◌++◌ "-" (decimal_from 19 (suc n))
