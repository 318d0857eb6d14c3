-- ===== src/Lura/Tracer/Omits.antt =====
-- The headers that the loops over them leave out, and the keys of the attributes that they are
-- reported as.
use text.Mathlib.TextLemmas.{append_cancel_left, cons-append}
use Prim.Native.Char.{code}
use mathlib.Core.Bool.{false≢true}
use krakend_otel.Prelude.{
  String, Bool, true, false, not, ◌||◌, ◌&&◌, ◌==◌, ◌≡◌, ◌≢◌, refl, sym, ◌∙◌, ap, Option, List, [],
  ◌∷◌, map, str_eq, concat, contains, to_lower, canonical_header_key, canonical_header_key-to_lower,
  all_token, eq_iff, All, Bool-cases, inl, inr, arith, has_prefix,
}
use krakend_otel.Telemetry.{Headers, Attribute, Call, Span, on_span, set_attributes}
use krakend_otel.Lura.Tracer.{skip_set, kept, header_calls}

-- The keys of a map of headers as net/http makes it.
abbrev pub Canonical : Headers → Type 0
Canonical = All (λ h. canonical_header_key h.0 ≡ h.0)

-- A call that sets no attribute of this key.
abbrev pub Omits : String → Call → Type 0
Omits key (on_span span (set_attributes attrs)) = All (λ a. a.key ≢ key) attrs
Omits key _ = Unit

contains-map :
    (f : String → String) (k : String) (ks : List String)
    → contains k ks ≡ true
    → contains (f k) (map f ks) ≡ true
contains-map f k [] e = cc e
contains-map f k (x ∷ ks) e = elim (Bool-cases (str_eq x k)) [
  | inl p ↦
      let same : str_eq (f x) (f k) ≡ true = (eq_iff (f x) (f k)).1 (ap f ((eq_iff x k).0 p)) in
      ap (λ b. b || contains (f k) (map f ks)) same
  | inr p ↦
      let named : contains k ks ≡ true = sym (ap (λ b. b || contains k ks) p) ∙ e in
      ground (arith, contains-map f k ks named)
]

kept-skip_set :
    (k h : String) (ks : List String)
    → contains k ks ≡ true
    → h ≡ canonical_header_key k
    → kept (skip_set ks) h ≡ false
unfolding kept skip_set
kept-skip_set k h [] e same = cc e
kept-skip_set k h (x ∷ ks) e same = ap not (
    ap (λ y. contains y (map canonical_header_key (x ∷ ks))) same
    ∙ contains-map canonical_header_key k (x ∷ ks) e)

pub header_calls-Omits :
    (span : Span) (prefix k : String) (ks : List String) (hs : Headers)
    → contains k ks ≡ true
    → all_token k ≡ true
    → Canonical hs
    → All (Omits (concat prefix (to_lower k))) (header_calls span prefix (skip_set ks) hs)
unfolding header_calls
header_calls-Omits span prefix k ks [] named token canonical = tt
header_calls-Omits span prefix k ks ((hk, hv) ∷ hs) named token (c, canonical) =
    let rest = header_calls-Omits span prefix k ks hs named token canonical in
    elim (Bool-cases (kept (skip_set ks) hk)) [
      | inl p ↦ rw p (
        (
          λ e. false≢true (
              sym (
                sym p
                ∙ kept-skip_set k hk ks named (
                    sym c
                    ∙ canonical_header_key-to_lower hk k
                        (append_cancel_left prefix (to_lower hk) (to_lower k) e) token))),
          tt,
        ),
        rest,
      )
      | inr p ↦ rw p rest
    ]

abbrev pub request_key : String → String
request_key k = concat "http.request.header." (to_lower k)

abbrev pub response_key : String → String
response_key k = concat "http.response.header." (to_lower k)

has_prefix-concat : (p s : String) → has_prefix p (concat p s) ≡ true
unfolding has_prefix
has_prefix-concat String.[] s = refl
has_prefix-concat (String.◌∷◌ c p) s =
    let same : (code c == code c) ≡ true = ground arith in
    ap (λ x. has_prefix (String.◌∷◌ c p) x) (cons-append c p s)
    ∙ (ap (λ b. b && has_prefix p (concat p s)) same ∙ has_prefix-concat p s)

pub other_key :
    (prefix key k : String) → has_prefix prefix key ≡ false → key ≢ concat prefix (to_lower k)
other_key prefix key k e h =
    false≢true (sym e ∙ (ap (has_prefix prefix) h ∙ has_prefix-concat prefix (to_lower k)))

-- A text that starts with another one, and does not start as this one does.
diverges : String → String → Bool
diverges String.[] q = false
diverges (String.◌∷◌ c p) String.[] = false
diverges (String.◌∷◌ c p) (String.◌∷◌ d q) = not (code c == code d) || diverges p q

has_prefix-diverges : (p q s : String) → diverges p q ≡ true → has_prefix p (concat q s) ≡ false
unfolding has_prefix diverges
has_prefix-diverges String.[] q s e = absurd (cc e)
has_prefix-diverges (String.◌∷◌ c p) String.[] s e = absurd (cc e)
has_prefix-diverges (String.◌∷◌ c p) (String.◌∷◌ d q) s e =
    ap (has_prefix (String.◌∷◌ c p)) (cons-append d q s) ∙ elim (Bool-cases (code c == code d)) [
      | inl same ↦
          ap (λ b. b && has_prefix p (concat q s)) same
          ∙ has_prefix-diverges p q s (sym (ap (λ b. not b || diverges p q) same) ∙ e)
      | inr other ↦ ap (λ b. b && has_prefix p (concat q s)) other
    ]

-- The attributes of a call name neither header.
abbrev pub Hidden : String → Call → Type 0
Hidden k c = Omits (request_key k) c × Omits (response_key k) c

abbrev pub Unnamed : String → List Attribute → Type 0
Unnamed k attrs = All (λ a. a.key ≢ request_key k) attrs × All (λ a. a.key ≢ response_key k) attrs

-- The header of a request has none of the keys of one of a response, and the other way round.
request-response : (x k : String) → concat "http.request.header." x ≢ response_key k
unfolding diverges
request-response x k =
    other_key "http.response.header." (concat "http.request.header." x) k
      (has_prefix-diverges "http.response.header." "http.request.header." x refl)

response-request : (x k : String) → concat "http.response.header." x ≢ request_key k
unfolding diverges
response-request x k =
    other_key "http.request.header." (concat "http.response.header." x) k
      (has_prefix-diverges "http.request.header." "http.response.header." x refl)

header_calls-other :
    (span : Span) (prefix key : String) (skipped : Option (List String)) (hs : Headers)
    → ((x : String) → concat prefix x ≢ key)
    → All (Omits key) (header_calls span prefix skipped hs)
unfolding header_calls
header_calls-other span prefix key skipped [] differ = tt
header_calls-other span prefix key skipped ((hk, hv) ∷ hs) differ =
    let rest = header_calls-other span prefix key skipped hs differ in
    elim (Bool-cases (kept skipped hk)) [
      | inl p ↦ rw p ((differ (to_lower hk), tt), rest)
      | inr p ↦ rw p rest
    ]

All-both :
    {A : Type 0} (P Q : A → Type 0) (xs : List A) → All P xs → All Q xs → All (λ x. P x × Q x) xs
All-both P Q [] p q = tt
All-both P Q (x ∷ xs) (p, ps) (q, qs) = ((p, q), All-both P Q xs ps qs)

module _ (k : String) (ks : List String) (named : contains k ks ≡ true) (token : all_token k ≡ true)
    (span : Span) (hs : Headers) (canonical : Canonical hs) where
  pub request_headers-Hidden :
      All (Hidden k) (header_calls span "http.request.header." (skip_set ks) hs)
  request_headers-Hidden =
      All-both (Omits (request_key k)) (Omits (response_key k)) _
        (header_calls-Omits span "http.request.header." k ks hs named token canonical)
        (header_calls-other span "http.request.header." (response_key k) (skip_set ks) hs
          (λ x. request-response x k))

  pub response_headers-Hidden :
      All (Hidden k) (header_calls span "http.response.header." (skip_set ks) hs)
  response_headers-Hidden =
      All-both (Omits (request_key k)) (Omits (response_key k)) _
        (header_calls-other span "http.response.header." (request_key k) (skip_set ks) hs
          (λ x. response-request x k))
        (header_calls-Omits span "http.response.header." k ks hs named token canonical)

-- Keys that are those of no header.
abbrev pub is_plain : List Attribute → Bool
is_plain [] = true
is_plain (a ∷ attrs) =
    not (has_prefix "http.request.header." a.key)
    && (not (has_prefix "http.response.header." a.key) && is_plain attrs)

pub is_plain-Unnamed :
    (k : String) (attrs : List Attribute) → is_plain attrs ≡ true → Unnamed k attrs
is_plain-Unnamed k [] e = (tt, tt)
is_plain-Unnamed k (a ∷ attrs) e =
    let (named, named') = is_plain-Unnamed k attrs (ground (arith, e)) in
    (
      (other_key "http.request.header." a.key k (ground (arith, e)), named),
      (other_key "http.response.header." a.key k (ground (arith, e)), named'),
    )
