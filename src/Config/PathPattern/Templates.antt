-- ===== src/Config/PathPattern/Templates.antt =====
-- What becomes of a URL pattern that is made of literal text and parameters.
use Prim.Native.Char.{Char, code}
use Prim.Native.String
use text.Mathlib.TextLemmas.{nil-append, cons-append, length-cons, length-append, append_assoc}
use krakend_otel.Prelude.{
  ℕ, zero, suc, ◌+◌, sym, String, ◌≡◌, ◌≢◌, refl, ◌∙◌, ap, Bool, false, ◌||◌, none, some, List, [],
  ◌∷◌, arith, concat, to_lower, ◌==◌,
}
use krakend_otel.Config.PathPattern.{
  after_open, add_char, up_to_close, match_here, normalize_after, normalize_url_pattern,
}

pub data Part : Type 0 where
  literal : String → Part
  parameter : String → Part

-- The pattern as it is written in the configuration, `{{.Name}}` for a parameter.
abbrev pub written : List Part → String
written [] = ""
written (literal s ∷ ps) = concat s (written ps)
written (parameter n ∷ ps) = concat "{{." (concat n (concat "}}" (written ps)))

-- The pattern with `:name` for a parameter.
abbrev pub with_colons : List Part → String
with_colons [] = ""
with_colons (literal s ∷ ps) = concat s (with_colons ps)
with_colons (parameter n ∷ ps) = concat ":" (concat (to_lower n) (with_colons ps))

abbrev pub NoneIn : (ℕ → Bool) → String → Type 0
NoneIn p String.[] = Unit
NoneIn p (String.◌∷◌ c s) = (p (code c) ≡ false) × NoneIn p s

-- A literal has no brace that opens, and a parameter's name no brace that closes and no line feed.
abbrev pub IsTemplate : List Part → Type 0
IsTemplate [] = Unit
IsTemplate (literal s ∷ ps) = NoneIn (λ c. c == b'{') s × IsTemplate ps
IsTemplate (parameter n ∷ ps) = NoneIn (λ c. c == b'}' || c == 10) n × IsTemplate ps

normalize_after-skip :
    (n : ℕ) (x y : String)
    → n ≡ String.count x
    → normalize_after n (concat x y) ≡ normalize_after 0 y
unfolding normalize_after
normalize_after-skip n String.[] y e = rw (e, nil-append y)
normalize_after-skip zero (String.◌∷◌ c x) y e = absurd (omega (arith, length-cons c x))
normalize_after-skip (suc n) (String.◌∷◌ c x) y e =
    rw (cons-append c x y) (normalize_after-skip n x y (omega (arith, length-cons c x)))

up_to_close-step :
    (a : Char) (t : String)
    → t ≢ ""
    → (code a == b'}' || code a == 10) ≡ false
    → up_to_close (String.◌∷◌ a t) ≡ add_char a (up_to_close t)
unfolding up_to_close
up_to_close-step a String.[] some_text other = absurd (some_text refl)
up_to_close-step a (String.◌∷◌ b s) some_text other = ground arith

abbrev close_brace : Char
close_brace = String.char_at "}" 0

abbrev open_brace : Char
open_brace = String.char_at "{" 0

abbrev dot : Char
dot = String.char_at "." 0

closing : (rest : String) → concat "}}" rest ≡ String.◌∷◌ close_brace (String.◌∷◌ close_brace rest)
closing rest =
    cons-append close_brace "}" rest
    ∙ ap (λ s. String.◌∷◌ close_brace s)
        (cons-append close_brace "" rest ∙ ap (λ s. String.◌∷◌ close_brace s) (nil-append rest))

opening :
    (rest : String)
    → concat "{{." rest ≡ String.◌∷◌ open_brace (String.◌∷◌ open_brace (String.◌∷◌ dot rest))
opening rest =
    cons-append open_brace "{." rest
    ∙ ap (λ s. String.◌∷◌ open_brace s)
        (cons-append open_brace "." rest
          ∙ ap (λ s. String.◌∷◌ open_brace s)
              (cons-append dot "" rest ∙ ap (λ s. String.◌∷◌ dot s) (nil-append rest)))

up_to_close-closing : (rest : String) → up_to_close (concat "}}" rest) ≡ some ""
unfolding up_to_close
up_to_close-closing rest = rw (closing rest)

not_empty : (n rest : String) → concat n (concat "}}" rest) ≢ ""
not_empty n rest e =
    omega (arith, ap String.count e, length-append n (concat "}}" rest), length-append "}}" rest)

up_to_close-name :
    (n rest : String)
    → NoneIn (λ c. c == b'}' || c == 10) n
    → up_to_close (concat n (concat "}}" rest)) ≡ some n
up_to_close-name String.[] rest h = rw (nil-append (concat "}}" rest)) (up_to_close-closing rest)
up_to_close-name (String.◌∷◌ c n) rest (h, hs) = rw (cons-append c n (concat "}}" rest)) (
    up_to_close-step c (concat n (concat "}}" rest)) (not_empty n rest) h
    ∙ ap (λ o. add_char c o) (up_to_close-name n rest hs))

after_open-other :
    (c : Char) (s : String) → (code c == b'{') ≡ false → after_open (String.◌∷◌ c s) ≡ none
unfolding after_open
after_open-other c String.[] h = refl
after_open-other c (String.◌∷◌ b String.[]) h = refl
after_open-other c (String.◌∷◌ b (String.◌∷◌ d s)) h = rw h

normalize_after-literal :
    (s rest : String)
    → NoneIn (λ c. c == b'{') s
    → normalize_after 0 (concat s rest) ≡ concat s (normalize_after 0 rest)
unfolding normalize_after match_here
normalize_after-literal String.[] rest h =
    rw (nil-append rest) (sym (nil-append (normalize_after 0 rest)))
normalize_after-literal (String.◌∷◌ c s) rest (h, hs) = rw (cons-append c s rest) (
    rw (after_open-other c (concat s rest) h, normalize_after, match_here)
      (rw (cons-append c s (normalize_after 0 rest))
        (ap (λ t. String.◌∷◌ c t) (normalize_after-literal s rest hs))))

-- The characters of a match after its first.
matched :
    (n rest : String)
    → (x : String) × (String.◌∷◌ open_brace (String.◌∷◌ dot (concat n (concat "}}" rest)))
        ≡ concat x rest)
      × (String.count n + 4 ≡ String.count x)
matched n rest =
    let tail = concat n "}}" in
    (
      String.◌∷◌ open_brace (String.◌∷◌ dot tail),
      sym (
          cons-append open_brace (String.◌∷◌ dot tail) rest
          ∙ ap (λ s. String.◌∷◌ open_brace s)
              (cons-append dot tail rest ∙ ap (λ s. String.◌∷◌ dot s) (append_assoc n "}}" rest))),
      omega (
        arith,
        length-cons open_brace (String.◌∷◌ dot tail),
        length-cons dot tail,
        length-append n "}}",
      ),
    )

normalize_after-parameter :
    (n rest : String)
    → NoneIn (λ c. c == b'}' || c == 10) n
    → normalize_after 0 (concat "{{." (concat n (concat "}}" rest)))
      ≡ concat ":" (concat (to_lower n) (normalize_after 0 rest))
unfolding normalize_after match_here after_open
normalize_after-parameter n rest h =
    let (x, eq, size) = matched n rest in
    rw (opening (concat n (concat "}}" rest))) (
      rw (up_to_close-name n rest h, normalize_after, match_here)
        (ap (λ s. concat ":" (concat (to_lower n) s))
          (ap (λ s. normalize_after (String.count n + 4) s) eq
            ∙ normalize_after-skip (String.count n + 4) x rest size)))

-- A pattern of literal text without opening braces, and of parameters `{{.Name}}` whose names have no
-- closing brace and no line feed: each parameter becomes a colon and its name in small letters, and
-- the text between them stays as it is.
pub normalize_url_pattern-written :
    (ps : List Part) → IsTemplate ps → normalize_url_pattern (written ps) ≡ with_colons ps
unfolding normalize_url_pattern
normalize_url_pattern-written [] h = refl
normalize_url_pattern-written (literal s ∷ ps) (h, hs) =
    normalize_after-literal s (written ps) h
    ∙ ap (λ t. concat s t) (normalize_url_pattern-written ps hs)
normalize_url_pattern-written (parameter n ∷ ps) (h, hs) =
    normalize_after-parameter n (written ps) h
    ∙ ap (λ t. concat ":" (concat (to_lower n) t)) (normalize_url_pattern-written ps hs)
