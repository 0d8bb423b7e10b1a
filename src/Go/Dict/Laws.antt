-- ===== src/Go/Dict/Laws.antt =====
-- The laws of a map, and of a `range` over it that stops at the first hit.
use mathlib.Core.Bool.{false≢true}
use mathlib.Core.Path.{subst}
use mathlib.Core.Option.{some-injective}
use go_microservices_chat.Prelude.{
  ◌+◌, String, ◌≡◌, refl, sym, ◌∙◌, ◌≢◌, Bool, true, false, none, some, List, [], ◌∷◌, arith, ◌==◌,
  eq_iff, eq_refl, if◌then◌else◌, length, All, All-weaken, Bool-cases, Option-cases, inl, inr,
}
use go_microservices_chat.Go.Dict.{
  Dict, IsMap, lookup, drop_key, lookup-drop_key, Distinct, drop_key-Distinct, empty, get, remove,
  put, size, find, find_entry,
}

pub size-empty {ℓ} : (V : Type ℓ) → size {V = V} empty ≡ 0
unfolding size empty
size-empty V = refl

module _ {ℓ} {V : Type ℓ} where
  pub lookup-cons :
      (key other : String) (v : V) (rows : List (String × V))
      → lookup key ((other, v) ∷ rows) ≡ (if other == key then some v else lookup key rows)
  unfolding lookup
  lookup-cons key other v rows = refl

  pub lookup-nil : (key : String) → lookup {V = V} key [] ≡ none
  unfolding lookup
  lookup-nil key = refl

  pub get-lookup : (d : Dict V) (key : String) → get d key ≡ lookup key d.entries
  unfolding get
  get-lookup d key = refl

  pub empty-IsMap : IsMap {V = V} empty
  unfolding empty
  empty-IsMap = record { distinct = tt }

  pub get-empty : (k : String) → get {V = V} empty k ≡ none
  unfolding get empty
  get-empty k = refl

  pub get-put :
      (m : Dict V) (key j : String) (v : V)
      → get (put m key v) j ≡ (if key == j then some v else get m j)
  unfolding put get
  get-put m key j v = ground (arith, lookup-drop_key key j m.entries)

  pub get-remove :
      (m : Dict V) (key j : String) → get (remove m key) j ≡ (if key == j then none else get m j)
  unfolding remove get
  get-remove m key j = ground (arith, lookup-drop_key key j m.entries)

  pub get-put_self : (d : Dict V) (k : String) (v : V) → get (put d k v) k ≡ some v
  get-put_self d k v = ground (arith, get-put d k k v, eq_refl k)

  pub get-put_ne : (d : Dict V) (k j : String) (v : V) → k ≢ j → get (put d k v) j ≡ get d j
  get-put_ne d k j v h = ground (arith, get-put d k j v, eq_iff k j)

  pub get-remove_self : (d : Dict V) (k : String) → get (remove d k) k ≡ none
  get-remove_self d k = ground (arith, get-remove d k k, eq_refl k)

  pub remove-IsMap : (d : Dict V) (k : String) → IsMap d → IsMap (remove d k)
  unfolding remove
  remove-IsMap d k m = record { distinct = drop_key-Distinct k d.entries m.distinct }

  pub put-IsMap : (d : Dict V) (k : String) (v : V) → IsMap d → IsMap (put d k v)
  unfolding put
  put-IsMap d k v m = record {
    distinct = (rw lookup-drop_key (rw eq_refl), drop_key-Distinct k d.entries m.distinct);
  }

  drop_key_absent : (k : String) (l : List (String × V)) → lookup k l ≡ none → drop_key k l ≡ l
  unfolding lookup drop_key
  drop_key_absent k [] h = refl
  drop_key_absent k ((j, v) ∷ l) h = ground (arith, drop_key_absent k l)

  length-drop_key :
      (k : String) (l : List (String × V)) (v : V)
      → Distinct l
      → lookup k l ≡ some v
      → length (drop_key k l) + 1 ≡ length l
  unfolding lookup drop_key
  length-drop_key k [] v d h = ground arith
  length-drop_key k ((j, w) ∷ l) v d h =
      ground (arith, length-drop_key k l v, drop_key_absent k l, eq_iff j k)

  -- a new key makes the map one larger
  pub size-put_new :
      (d : Dict V) (k : String) (v : V) → get d k ≡ none → size (put d k v) ≡ size d + 1
  unfolding get put size
  size-put_new d k v h = rw (drop_key_absent k d.entries h) (omega arith)

  -- deleting a key that is there makes it one smaller
  pub size-remove :
      (d : Dict V) (k : String) (v : V)
      → IsMap d
      → get d k ≡ some v
      → size (remove d k) + 1 ≡ size d
  unfolding get remove size
  size-remove d k v m h = length-drop_key k d.entries v m.distinct h

module _ {ℓ} {V : Type ℓ} where
  entries-All : (l : List (String × V)) → Distinct l → All (λ row. lookup row.0 l ≡ some row.1) l
  unfolding lookup
  entries-All [] d = tt
  entries-All ((k, v) ∷ l) d =
      (rw eq_refl, All-weaken (λ row e. ground (arith, eq_iff k row.0)) l (entries-All l d.1))

  -- a row that `range` visits is the one under its key
  pub get-entries : (d : Dict V) → IsMap d → All (λ row. get d row.0 ≡ some row.1) d.entries
  unfolding get
  get-entries d m = entries-All d.entries m.distinct

-- `P` holds of every value
abbrev pub Holds {ℓ κ} : {V : Type ℓ} → (V → Type κ) → Dict V → Type (ℓ ⊔ κ)
Holds {V = V} P d = (k : String) (v : V) → get d k ≡ some v → P v

pub put-Holds {ℓ κ} :
    {V : Type ℓ} (P : V → Type κ) (d : Dict V) (key : String) (v : V)
    → P v
    → Holds P d
    → Holds P (put d key v)
put-Holds P d key v new old k w h = elim (Bool-cases (key == k)) [
  | inl e ↦ subst P (some-injective v w (ground (arith, get-put d key k v))) new
  | inr e ↦ old k w (ground (arith, get-put d key k v))
]

module _ {ℓ} {V : Type ℓ} (p : V → Bool) where
  find_entry_hit :
      (l : List (String × V)) (v : V)
      → Distinct l
      → find_entry p l ≡ some v
      → (k : String) × (lookup k l ≡ some v) × (p v ≡ true)
  unfolding find_entry lookup
  find_entry_hit [] v d h = ground arith
  find_entry_hit ((j, w) ∷ l) v d h = elim (Bool-cases (p w)) [
    | inl hit ↦ (j, ground (arith, eq_refl j), ground arith)
    | inr miss ↦
        let (k, at, holds) = find_entry_hit l v d.1 (ground arith) in
        (k, ground (arith, eq_iff j k), holds)
  ]

  find_entry_miss :
      (l : List (String × V)) (k : String) (v : V)
      → find_entry p l ≡ none
      → lookup k l ≡ some v
      → p v ≡ false
  unfolding find_entry lookup
  find_entry_miss [] k v h e = ground arith
  find_entry_miss ((j, w) ∷ l) k v h e = ground (arith, find_entry_miss l k v)

  pub find_hit :
      (d : Dict V) (v : V)
      → IsMap d
      → find p d ≡ some v
      → (k : String) × (get d k ≡ some v) × (p v ≡ true)
  unfolding find get
  find_hit d v m h = find_entry_hit d.entries v m.distinct h

  pub find_miss :
      (d : Dict V) (k : String) (v : V) → find p d ≡ none → get d k ≡ some v → p v ≡ false
  unfolding find get
  find_miss d k v h e = find_entry_miss d.entries k v h e

  pub find_nothing :
      (d : Dict V)
      → IsMap d
      → ((k : String) (v : V) → get d k ≡ some v → p v ≡ false)
      → find p d ≡ none
  find_nothing d m miss = elim (Option-cases (find p d)) [
    | inl e ↦ e
    | inr (v, e) ↦
        let (k, at, hit) = find_hit d v m e in absurd (false≢true (sym (miss k v at) ∙ hit))
  ]

  pub find_something :
      (d : Dict V) (k : String) (v : V)
      → IsMap d
      → get d k ≡ some v
      → p v ≡ true
      → (w : V) × (j : String) × (find p d ≡ some w) × (get d j ≡ some w) × (p w ≡ true)
  find_something d k v m at hit = elim (Option-cases (find p d)) [
    | inl e ↦ absurd (false≢true (sym (find_miss d k v e at) ∙ hit))
    | inr (w, e) ↦ let (j, at', hit') = find_hit d w m e in (w, j, e, at', hit')
  ]
