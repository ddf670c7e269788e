-- ===== src/Common/Maps.antt =====
-- Hash maps as lists of entries: the first entry of a key counts.
use mathlib.Core.Path.{◌≡◌, refl}
use mathlib.Core.Bool.{false}
use mathlib.Core.List.{List, [], ◌∷◌}
use mathlib.Core.Option.{Option, none, some}
use pars_c.Common.Tests.{if◌then◌else◌}
use pars_c.Common.Lists.{Bytes, bytes_eq, bytes_eq_self}

module _ {ℓ} {A : Type ℓ} where
  abbrev pub lookup : Bytes → List (Bytes × A) → Option A
  lookup name [] = none
  lookup name ((key, value) ∷ map) = if bytes_eq key name then some value else lookup name map

  abbrev pub emplace_found : Option A → Bytes → A → List (Bytes × A) → List (Bytes × A)
  emplace_found none name value map = (name, value) ∷ map
  emplace_found (some old) name value map = map

  -- `emplace`: an entry that is there stays as it is.
  abbrev pub emplace : Bytes → A → List (Bytes × A) → List (Bytes × A)
  emplace name value map = emplace_found (lookup name map) name value map

  -- `map[name] = value`
  abbrev pub insert : Bytes → A → List (Bytes × A) → List (Bytes × A)
  insert name value map = (name, value) ∷ map

  abbrev pub or_else : Option A → Option A → Option A
  or_else none other = other
  or_else (some a) other = some a

  emplace_found-lookup :
      (o : Option A) (name : Bytes) (value : A) (map : List (Bytes × A))
      → lookup name map ≡ o
      → lookup name (emplace_found o name value map) ≡ or_else o (some value)
  emplace_found-lookup none name value map h = rw (bytes_eq_self name) refl
  emplace_found-lookup (some old) name value map h = h

  -- Behind an `emplace` the name has the entry that was there, or else the new one.
  pub lookup-emplace :
      (name : Bytes) (value : A) (map : List (Bytes × A))
      → lookup name (emplace name value map) ≡ or_else (lookup name map) (some value)
  lookup-emplace name value map = emplace_found-lookup (lookup name map) name value map refl

  emplace_found-other :
      (o : Option A) (name other : Bytes) (value : A) (map : List (Bytes × A))
      → bytes_eq name other ≡ false
      → lookup other (emplace_found o name value map) ≡ lookup other map
  emplace_found-other none name other value map h = rw h refl
  emplace_found-other (some old) name other value map h = refl

  pub lookup-emplace_other :
      (name other : Bytes) (value : A) (map : List (Bytes × A))
      → bytes_eq name other ≡ false
      → lookup other (emplace name value map) ≡ lookup other map
  lookup-emplace_other name other value map h =
      emplace_found-other (lookup name map) name other value map h
