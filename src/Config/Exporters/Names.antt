-- ===== src/Config/Exporters/Names.antt =====
-- The check of the exporters' names decides that they are distinct.
use krakend_otel.Prelude.{
  ℕ, ◌+◌, String, ◌≡◌, refl, ◌↔◌, false, none, List, [], ◌∷◌, ◌++◌, map, arith, contains, All,
  eq_iff,
}
use krakend_otel.Config.Exporters.{
  Exporters, OtlpExporter, PrometheusExporter, validate, check_otlp, check_prometheus, after_otlp,
}

abbrev pub Distinct : List String → Type 0
Distinct [] = Unit
Distinct (x ∷ xs) = (contains x xs ≡ false) × Distinct xs

-- No name of the second list is in the first, and the second has no name twice.
abbrev Fresh : List String → List String → Type 0
Fresh names [] = Unit
Fresh names (x ∷ xs) = (contains x names ≡ false) × Fresh (x ∷ names) xs

abbrev pub otlp_name : OtlpExporter → String
otlp_name e = e.name

abbrev pub prometheus_name : PrometheusExporter → String
prometheus_name e = e.name

check_prometheus_iff :
    (idx : ℕ) (names : List String) (ps : List PrometheusExporter)
    → (check_prometheus idx names ps ≡ none) ↔ Fresh names (map prometheus_name ps)
unfolding check_prometheus
check_prometheus_iff idx names [] = ground arith
check_prometheus_iff idx names (p ∷ ps) =
    ground (arith, check_prometheus_iff (idx + 1) (p.name ∷ names) ps)

check_otlp_iff :
    (idx : ℕ) (names : List String) (es : List OtlpExporter) (ps : List PrometheusExporter)
    → (after_otlp (check_otlp idx names es) ps ≡ none)
      ↔ Fresh names (map otlp_name es ++ map prometheus_name ps)
unfolding check_otlp after_otlp
check_otlp_iff idx names [] ps = check_prometheus_iff 0 names ps
check_otlp_iff idx names (e ∷ es) ps =
    ground (arith, check_otlp_iff (idx + 1) (e.name ∷ names) es ps)

-- None of these is among those.
abbrev Apart : List String → List String → Type 0
Apart names xs = All (λ y. contains y names ≡ false) xs

Apart-cons_iff :
    (x : String) (names xs : List String)
    → Apart (x ∷ names) xs ↔ ((contains x xs ≡ false) × Apart names xs)
Apart-cons_iff x names [] = ground arith
Apart-cons_iff x names (y ∷ xs) = ground (arith, Apart-cons_iff x names xs, eq_iff x y, eq_iff y x)

Fresh-Distinct : (names xs : List String) → Fresh names xs ↔ (Apart names xs × Distinct xs)
Fresh-Distinct names [] = ground arith
Fresh-Distinct names (x ∷ xs) =
    ground (arith, Fresh-Distinct (x ∷ names) xs, Apart-cons_iff x names xs)

Apart-nil : (xs : List String) → Apart [] xs
Apart-nil [] = tt
Apart-nil (x ∷ xs) = (refl, Apart-nil xs)

-- A configuration passes the check exactly when the names of all its exporters, of both kinds
-- together, are distinct.
pub validate_iff :
    (e : Exporters)
    → (validate e ≡ none) ↔ Distinct (map otlp_name e.otlp ++ map prometheus_name e.prometheus)
unfolding validate
validate_iff e =
    let names = map otlp_name e.otlp ++ map prometheus_name e.prometheus in
    ground
      (arith, check_otlp_iff 0 [] e.otlp e.prometheus, Fresh-Distinct [] names, Apart-nil names)
