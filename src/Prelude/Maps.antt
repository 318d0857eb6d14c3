-- ===== src/Prelude/Maps.antt =====
-- Go's `map[string]V` as an association list whose later writes replace earlier ones.
use Prim.Native.String.{String}
use mathlib.Core.Path.{◌≡◌, refl}
use mathlib.Core.Option.{Option, none, some}
use mathlib.Core.List.{List, [], ◌∷◌}
use native.Mathlib.Omega.{arith}
use text.Mathlib.Text.{◌==◌}
use text.Mathlib.TextEquality.{eq_iff}
use krakend_otel.Prelude.Tests.{if◌then◌else◌}

abbrev pub Map {ℓ} : Type ℓ → Type ℓ
Map V = List (String × V)

-- The value of an entry that has the key, or else what the rest of the map gives.
abbrev pub entry_or {ℓ} : {V : Type ℓ} → String → String × V → Option V → Option V
entry_or key entry rest = if entry.0 == key then some entry.1 else rest

-- `v, ok := m[key]`
unfoldable pub lookup {ℓ} : {V : Type ℓ} → String → Map V → Option V
lookup key [] = none
lookup key (entry ∷ entries) = entry_or key entry (lookup key entries)

-- `m[key] = value`
unfoldable pub insert {ℓ} : {V : Type ℓ} → String → V → Map V → Map V
insert key value [] = (key, value) ∷ []
insert key value (entry ∷ entries) =
    let kept = entry ∷ insert key value entries in
    if entry.0 == key then (key, value) ∷ entries else kept

pub lookup-insert {ℓ} :
    {V : Type ℓ} (entries : Map V) (wanted key : String) (value : V)
    → lookup wanted (insert key value entries)
      ≡ entry_or wanted (key, value) (lookup wanted entries)
unfolding lookup insert
lookup-insert [] wanted key value = refl
lookup-insert ((name, old) ∷ entries) wanted key value =
    let rest = lookup-insert entries wanted key value in
    ground (arith, rest, eq_iff name wanted, eq_iff name key, eq_iff key wanted)

-- `for key, value := range src { dst[key] = value }`
unfoldable pub insert_all {ℓ} : {V : Type ℓ} → Map V → Map V → Map V
insert_all [] dst = dst
insert_all (entry ∷ entries) dst = insert_all entries (insert entry.0 entry.1 dst)
