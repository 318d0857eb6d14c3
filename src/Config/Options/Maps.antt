-- ===== src/Config/Options/Maps.antt =====
-- What becomes of a list of attributes that is turned into a map.
use krakend_otel.Prelude.{
  String, ◌≡◌, refl, ◌∙◌, ap, Bool, true, false, ◌||◌, Option, none, some, List, [], ◌∷◌, map,
  arith, Map, lookup, insert, lookup-insert, contains, is_some, str_eq, if◌then◌else◌, eq_iff,
}
use krakend_otel.Config.Options.{KeyValue, Attributes, to_map, to_map_from}

abbrev later : Option String → Option String → Option String
later none old = old
later (some v) old = some v

-- The last value that the list has for a key.
abbrev pub last_value : String → Attributes → Option String
last_value k [] = none
last_value k (kv ∷ a) = later (last_value k a) (if str_eq kv.key k then some kv.value else none)

abbrev pub key_of : KeyValue → String
key_of kv = kv.key

-- Some key of the list stands in it twice.
abbrev pub repeats : List String → Bool
repeats [] = false
repeats (k ∷ ks) = contains k ks || repeats ks

-- Some key of the list is in the map.
abbrev any_in : List String → Map String → Bool
any_in [] m = false
any_in (k ∷ ks) m = is_some (lookup k m) || any_in ks m

later-none : (o : Option String) → later o none ≡ o
later-none none = refl
later-none (some v) = refl

lookup-to_map_from :
    (k : String) (a : Attributes) (m : Map String) (err : Bool)
    → lookup k (to_map_from a m err).0 ≡ later (last_value k a) (lookup k m)
unfolding to_map_from
lookup-to_map_from k [] m err = refl
lookup-to_map_from k (kv ∷ a) m err = ground (
  arith,
  lookup-to_map_from k a (insert kv.key kv.value m)
      (if is_some (lookup kv.key m) then true else err),
  lookup-insert m k kv.key kv.value,
)

any_in-insert :
    (k v : String) (ks : List String) (m : Map String)
    → any_in ks (insert k v m) ≡ (contains k ks || any_in ks m)
any_in-insert k v [] m = refl
any_in-insert k v (j ∷ ks) m =
    ground (arith, any_in-insert k v ks m, lookup-insert m j k v, eq_iff k j, eq_iff j k)

to_map_from-error :
    (a : Attributes) (m : Map String) (err : Bool)
    → (to_map_from a m err).1 ≡ (err || (any_in (map key_of a) m || repeats (map key_of a)))
unfolding to_map_from
to_map_from-error [] m err = ground arith
to_map_from-error (kv ∷ a) m err = ground (
  arith,
  to_map_from-error a (insert kv.key kv.value m) (if is_some (lookup kv.key m) then true else err),
  any_in-insert kv.key kv.value (map key_of a) m,
)

any_in-empty : (ks : List String) → any_in ks [] ≡ false
unfolding lookup
any_in-empty [] = refl
any_in-empty (k ∷ ks) = any_in-empty ks

to_map_lem :
    (a : Attributes) (k : String)
    → (lookup k (to_map a).0 ≡ last_value k a) × ((to_map a).1 ≡ repeats (map key_of a))
unfolding to_map lookup
to_map_lem a k = (
  lookup-to_map_from k a [] false ∙ later-none (last_value k a),
  to_map_from-error a [] false
      ∙ ap (λ b. b || repeats (map key_of a)) (any_in-empty (map key_of a)),
)
