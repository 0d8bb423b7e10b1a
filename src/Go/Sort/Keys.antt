-- ===== src/Go/Sort/Keys.antt =====
-- What a sort by numbers leaves: whatever order equal elements get, the numbers are the same.
use mathlib.Core.List.{Perm, foldr}
use mathlib.Core.List.Perm
use go_microservices_chat.Prelude.{
  ℕ, suc, length, ◌≡◌, refl, sym, ap, ◌∙◌, Bool, false, List, [], ◌∷◌, map, arith, ltb, All,
}
use go_microservices_chat.Go.Sort.{insert_sorted, sort_slice, IsSorted}

abbrev pub gtb : ℕ → ℕ → Bool
gtb a b = ltb b a

-- the order in which two numbers are inserted does not matter
abbrev pub Commutes : (ℕ → ℕ → Bool) → Type 0
Commutes lt =
    (a b : ℕ) (l : List ℕ)
    → insert_sorted lt a (insert_sorted lt b l) ≡ insert_sorted lt b (insert_sorted lt a l)

pub ltb-Commutes : Commutes ltb
unfolding insert_sorted
ltb-Commutes a b [] = grind arith
ltb-Commutes a b (c ∷ l) = ground (arith, ltb-Commutes a b l)

pub gtb-Commutes : Commutes gtb
unfolding insert_sorted
gtb-Commutes a b [] = grind arith
gtb-Commutes a b (c ∷ l) = ground (arith, gtb-Commutes a b l)

length-foldr {ℓ} : {A : Type ℓ} (l : List A) → length l ≡ foldr (λ a n. suc n) 0 l
length-foldr [] = refl
length-foldr (a ∷ l) = ap suc (length-foldr l)

pub length-perm {ℓ} : {A : Type ℓ} {l l' : List A} → Perm l l' → length l ≡ length l'
length-perm {A = A} {l} {l'} p =
    let set : IsSet ℕ = hlevel in
    length-foldr l
    ∙ Perm.foldr-eq set (λ (a : A) n. suc n) (λ a b n. refl) p 0
    ∙ sym (length-foldr l')

module _ (lt : ℕ → ℕ → Bool) (comm : Commutes lt) where
  sort_foldr : (l : List ℕ) → sort_slice lt l ≡ foldr (insert_sorted lt) [] l
  unfolding sort_slice
  sort_foldr [] = refl
  sort_foldr (a ∷ l) = ap (insert_sorted lt a) (sort_foldr l)

  sort_perm : {l l' : List ℕ} → Perm l l' → sort_slice lt l ≡ sort_slice lt l'
  sort_perm {l} {l'} p =
      let set : IsSet (List ℕ) = hlevel in
      sort_foldr l ∙ Perm.foldr-eq set (insert_sorted lt) comm p [] ∙ sym (sort_foldr l')

  module _ {ℓ} {A : Type ℓ} (key : A → ℕ) where
    abbrev pub by_key : A → A → Bool
    by_key a b = lt (key a) (key b)

    map-insert_sorted :
        (a : A) (l : List A)
        → map key (insert_sorted by_key a l) ≡ insert_sorted lt (key a) (map key l)
    unfolding insert_sorted
    map-insert_sorted a [] = refl
    map-insert_sorted a (b ∷ l) = ground (arith, map-insert_sorted a l)

    map-sort_slice : (l : List A) → map key (sort_slice by_key l) ≡ sort_slice lt (map key l)
    unfolding sort_slice
    map-sort_slice [] = refl
    map-sort_slice (a ∷ l) =
        map-insert_sorted a (sort_slice by_key l) ∙ ap (insert_sorted lt (key a)) (map-sort_slice l)

    insert_first :
        (a : A) (l : List A) → All (λ b. by_key b a ≡ false) l → insert_sorted by_key a l ≡ a ∷ l
    unfolding insert_sorted
    insert_first a [] h = refl
    insert_first a (b ∷ l) h = ground arith

    sort_sorted : (l : List A) → IsSorted by_key l → sort_slice by_key l ≡ l
    unfolding sort_slice
    sort_sorted [] h = refl
    sort_sorted (a ∷ l) h = ap (insert_sorted by_key a) (sort_sorted l h.1) ∙ insert_first a l h.0

    -- two lists that are sorted by their keys and hold the same elements have the same keys
    pub sorted_keys :
        (l l' : List A)
        → Perm l l'
        → IsSorted by_key l
        → IsSorted by_key l'
        → map key l ≡ map key l'
    sorted_keys l l' p h h' =
        ap (map key) (sym (sort_sorted l h))
        ∙ map-sort_slice l
        ∙ sort_perm (Perm.map key p)
        ∙ sym (map-sort_slice l')
        ∙ ap (map key) (sort_sorted l' h')
