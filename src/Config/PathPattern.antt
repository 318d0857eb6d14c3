-- ===== src/Config/PathPattern.antt =====
-- config/path_pattern.go: `{{.Name}}` in a URL pattern becomes `:name`. The regular expression
-- `{{\.(.*?)}}` matches at "{{.", up to the first "}}" after it with no line feed between.
pub mod Templates
use Prim.Native.Char.{Char, code}
use Prim.Native.String
use krakend_otel.Prelude.{
  ℕ, zero, suc, ◌+◌, String, ◌&&◌, Option, none, some, concat, to_lower, if◌then◌else◌, ◌==◌,
}

-- The text after "{{.", if the text begins so.
after_open : String → Option String
after_open (String.◌∷◌ a (String.◌∷◌ b (String.◌∷◌ c s))) =
    if code a == b'{' && (code b == b'{' && code c == b'.') then some s else none
after_open _ = none

abbrev add_char : Char → Option String → Option String
add_char c none = none
add_char c (some name) = some (String.◌∷◌ c name)

-- The text up to the first "}}", if there is no line feed before it.
up_to_close : String → Option String
up_to_close (String.◌∷◌ a (String.◌∷◌ b s)) =
    let later = up_to_close (String.◌∷◌ b s) in
    if code a == b'}' && code b == b'}'
    then some String.[]
    else (if code a == 10 then none else add_char a later)
up_to_close _ = none

-- The name of a match at the start of the text.
match_here : String → Option String
unfolding after_open up_to_close
match_here s = elim (after_open s) [ none ↦ none | some t ↦ up_to_close t ]

-- `ReplaceAllStringFunc`, on the text after so many characters, which belong to the last match.
normalize_after : ℕ → String → String
unfolding match_here to_lower
normalize_after skip String.[] = String.[]
normalize_after (suc skip) (String.◌∷◌ c s) = normalize_after skip s
normalize_after zero (String.◌∷◌ c s) = elim (match_here (String.◌∷◌ c s)) [
  | none ↦ String.◌∷◌ c (normalize_after 0 s)
  | some name ↦ concat ":" (concat (to_lower name) (normalize_after (String.count name + 4) s))
]

-- `NormalizeURLPattern`
unfoldable pub normalize_url_pattern : String → String
unfolding normalize_after
normalize_url_pattern u = normalize_after 0 u
