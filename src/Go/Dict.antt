-- ===== src/Go/Dict.antt =====
-- Go's `map[string]V`. `entries` has each key once (`IsMap`), in the order in which `range` visits
-- the map: Go leaves that order open, and a statement about every `Dict` covers every order.
pub mod Laws
use go_microservices_chat.Prelude.{
  ℕ, suc, ◌+◌, String, ◌≡◌, refl, Bool, true, false, Option, none, some, List, [], ◌∷◌, map, arith,
  ◌==◌, eq_iff, eq_refl, if◌then◌else◌, length, Option-cases, inl, inr,
}

module _ {ℓ} {V : Type ℓ} where
  pub lookup : String → List (String × V) → Option V
  lookup key [] = none
  lookup key ((other, v) ∷ rows) = if other == key then some v else lookup key rows

  -- no key twice
  abbrev pub Distinct : List (String × V) → Type ℓ
  Distinct [] = Unit
  Distinct ((key, v) ∷ rows) = (lookup key rows ≡ none) × Distinct rows

  drop_key : String → List (String × V) → List (String × V)
  drop_key key [] = []
  drop_key key (row ∷ rows) =
      let rows' = drop_key key rows in if row.0 == key then rows' else row ∷ rows'

  lookup-drop_key :
      (gone key : String) (rows : List (String × V))
      → lookup key (drop_key gone rows) ≡ (if gone == key then none else lookup key rows)
  unfolding drop_key lookup
  lookup-drop_key gone key [] = ground arith
  lookup-drop_key gone key ((other, v) ∷ rows) =
      ground
        (arith, eq_iff gone key, eq_iff other gone, eq_iff other key, lookup-drop_key gone key rows)

  drop_key-Distinct :
      (key : String) (rows : List (String × V)) → Distinct rows → Distinct (drop_key key rows)
  unfolding drop_key
  drop_key-Distinct key [] d = tt
  drop_key-Distinct key ((j, v) ∷ rows) d =
      ground
        (arith, eq_iff j key, eq_iff key j, lookup-drop_key key j rows, drop_key-Distinct key rows)

pub record Dict {ℓ} (V : Type ℓ) : Type ℓ where
  pub entries : List (String × V)

pub record IsMap {ℓ} {V : Type ℓ} (d : Dict V) : Type ℓ where
  pub distinct : Distinct d.entries

module _ {ℓ} {V : Type ℓ} where
  -- `map[string]V{}`
  unfoldable pub empty : Dict V
  empty = record { entries = [] }

  -- `len(m)`
  unfoldable pub size : Dict V → ℕ
  size m = length m.entries

  -- `v, ok := m[key]`
  unfoldable pub get : Dict V → String → Option V
  unfolding lookup
  get m key = lookup key m.entries

  -- `m[key] = v`
  unfoldable pub put : Dict V → String → V → Dict V
  unfolding drop_key
  put m key v = record { entries = (key, v) ∷ drop_key key m.entries }

  -- `delete(m, key)`
  unfoldable pub remove : Dict V → String → Dict V
  unfolding drop_key
  remove m key = record { entries = drop_key key m.entries }

  find_entry : (V → Bool) → List (String × V) → Option V
  find_entry p [] = none
  find_entry p ((key, v) ∷ rows) = let rest = find_entry p rows in if p v then some v else rest

  -- `for _, v := range m { if p(v) { return v } }`
  unfoldable pub find : (V → Bool) → Dict V → Option V
  unfolding find_entry
  find p m = find_entry p m.entries
