-- ===== src/Prelude/MapLaws.antt =====
-- Maps with each key once, and copies of them entry by entry.
use Prim.Native.String.{String}
use mathlib.Core.Path.{◌≡◌, refl}
use mathlib.Core.Option.{Option, none, some}
use mathlib.Core.List.{[], ◌∷◌}
use native.Mathlib.Omega.{arith}
use text.Mathlib.TextEquality.{eq_iff}
use krakend_otel.Prelude.Maps.{Map, lookup, insert, insert_all, lookup-insert}

module _ {ℓ} {V : Type ℓ} where
  abbrev pub IsMap : Map V → Type ℓ
  IsMap [] = Unit
  IsMap (entry ∷ entries) = (lookup entry.0 entries ≡ none) × IsMap entries

  abbrev pub first_of : Option V → Option V → Option V
  first_of none o = o
  first_of (some v) o = some v

  pub insert-IsMap :
      (key : String) (value : V) (entries : Map V)
      → IsMap entries
      → IsMap (insert key value entries)
  unfolding insert lookup
  insert-IsMap key value [] h = (refl, tt)
  insert-IsMap key value ((name, old) ∷ entries) (fresh, h) = ground (
    arith,
    insert-IsMap key value entries h,
    lookup-insert entries name key value,
    eq_iff name key,
    eq_iff key name,
  )

  pub insert_all-IsMap : (src dst : Map V) → IsMap dst → IsMap (insert_all src dst)
  unfolding insert_all
  insert_all-IsMap [] dst h = h
  insert_all-IsMap (entry ∷ src) dst h =
      insert_all-IsMap src (insert entry.0 entry.1 dst) (insert-IsMap entry.0 entry.1 dst h)

  pub lookup-insert_all :
      (src dst : Map V) (key : String)
      → IsMap src
      → lookup key (insert_all src dst) ≡ first_of (lookup key src) (lookup key dst)
  unfolding insert_all lookup
  lookup-insert_all [] dst key h = refl
  lookup-insert_all ((name, value) ∷ src) dst key (fresh, h) = ground (
    arith,
    lookup-insert_all src (insert name value dst) key h,
    lookup-insert dst key name value,
    eq_iff name key,
  )
