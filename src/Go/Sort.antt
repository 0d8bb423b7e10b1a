-- ===== src/Go/Sort.antt =====
-- `sort.Slice(l, less)`. Go promises no stability; the order that insertion sort gives to equal
-- elements stands for whatever order Go leaves, and statements do not depend on it.
pub mod Keys
use mathlib.Core.List.{Perm}
use mathlib.Core.List.Perm
use go_microservices_chat.Prelude.{
  ℕ, zero, suc, ◌+◌, ◌≡◌, refl, ◌∙◌, arith, length, take, All-take, keep, All-keep, All-append,
  ◌++◌, Bool, true, false, List, [], ◌∷◌, All, Bool-cases, inl, inr, if◌then◌else◌,
}

module _ {ℓ} {A : Type ℓ} (less : A → A → Bool) where
  pub insert_sorted : A → List A → List A
  insert_sorted a [] = a ∷ []
  insert_sorted a (b ∷ l) = let rest = insert_sorted a l in if less b a then b ∷ rest else a ∷ b ∷ l

  unfoldable pub sort_slice : List A → List A
  unfolding insert_sorted
  sort_slice [] = []
  sort_slice (a ∷ l) = insert_sorted a (sort_slice l)

  -- no element is less than one before it
  abbrev pub IsSorted : List A → Type ℓ
  IsSorted [] = Unit
  IsSorted (a ∷ l) = All (λ b. less b a ≡ false) l × IsSorted l

  insert_sorted-perm : (a : A) (l : List A) → Perm (insert_sorted a l) (a ∷ l)
  unfolding insert_sorted
  insert_sorted-perm a [] = Perm.refl (a ∷ [])
  insert_sorted-perm a (b ∷ l) = elim (Bool-cases (less b a)) [
    | inl e ↦ rw e (Perm.trans (Perm.cons b (insert_sorted-perm a l)) (Perm.swap a b l))
    | inr e ↦ rw e (Perm.refl (a ∷ b ∷ l))
  ]

  pub sort_slice-perm : (l : List A) → Perm (sort_slice l) l
  unfolding sort_slice
  sort_slice-perm [] = Perm.refl []
  sort_slice-perm (a ∷ l) =
      Perm.trans (insert_sorted-perm a (sort_slice l)) (Perm.cons a (sort_slice-perm l))

  length-insert_sorted : (a : A) (l : List A) → length (insert_sorted a l) ≡ length l + 1
  unfolding insert_sorted
  length-insert_sorted a [] = refl
  length-insert_sorted a (b ∷ l) = ground (arith, length-insert_sorted a l)

  pub length-sort_slice : (l : List A) → length (sort_slice l) ≡ length l
  unfolding sort_slice
  length-sort_slice [] = refl
  length-sort_slice (a ∷ l) =
      length-insert_sorted a (sort_slice l) ∙ omega (arith, length-sort_slice l)

  pub IsSorted-take : (n : ℕ) (l : List A) → IsSorted l → IsSorted (take n l)
  IsSorted-take zero l s = tt
  IsSorted-take (suc n) [] s = tt
  IsSorted-take (suc n) (a ∷ l) s =
      (All-take (λ b. less b a ≡ false) n l s.0, IsSorted-take n l s.1)

  module _ {κ} (P : A → Type κ) where
    insert_sorted-All : (a : A) (l : List A) → P a → All P l → All P (insert_sorted a l)
    unfolding insert_sorted
    insert_sorted-All a [] h hs = (h, tt)
    insert_sorted-All a (b ∷ l) h hs = elim (Bool-cases (less b a)) [
      | inl e ↦ rw e (hs.0, insert_sorted-All a l h hs.1)
      | inr e ↦ rw e (h, hs)
    ]

    -- sorting keeps what holds of each element
    pub sort_slice-All : (l : List A) → All P l → All P (sort_slice l)
    unfolding sort_slice
    sort_slice-All [] h = tt
    sort_slice-All (a ∷ l) h = insert_sorted-All a (sort_slice l) h.0 (sort_slice-All l h.1)

  -- of a strict order in which "not less" is transitive, as `sort.Slice` asks
  module _ (asym : (a b : A) → less a b ≡ true → less b a ≡ false)
      (trans : (a b c : A) → less b a ≡ false → less c b ≡ false → less c a ≡ false) where
    below :
        (a b : A) (l : List A)
        → less b a ≡ false
        → All (λ c. less c b ≡ false) l
        → All (λ c. less c a ≡ false) l
    below a b [] h hs = tt
    below a b (c ∷ l) h hs = (trans a b c h hs.0, below a b l h hs.1)

    insert_sorted-IsSorted : (a : A) (l : List A) → IsSorted l → IsSorted (insert_sorted a l)
    unfolding insert_sorted
    insert_sorted-IsSorted a [] s = (tt, tt)
    insert_sorted-IsSorted a (b ∷ l) s = elim (Bool-cases (less b a)) [
      | inl e ↦ rw e (
        insert_sorted-All (λ c. less c b ≡ false) a l (asym b a e) s.0,
        insert_sorted-IsSorted a l s.1,
      )
      | inr e ↦ rw e ((e, below a b l e s.0), s)
    ]

    pub sort_slice-IsSorted : (l : List A) → IsSorted (sort_slice l)
    unfolding sort_slice
    sort_slice-IsSorted [] = tt
    sort_slice-IsSorted (a ∷ l) = insert_sorted-IsSorted a (sort_slice l) (sort_slice-IsSorted l)

    insert_sorted_front :
        (a : A) (l : List A) → All (λ b. less b a ≡ false) l → insert_sorted a l ≡ a ∷ l
    unfolding insert_sorted
    insert_sorted_front a [] h = refl
    insert_sorted_front a (b ∷ l) h = ground arith

    module _ (p : A → Bool) where
      keep-insert_sorted :
          (a : A) (l : List A)
          → IsSorted l
          → keep p (insert_sorted a l) ≡ (if p a then insert_sorted a (keep p l) else keep p l)
      unfolding insert_sorted
      keep-insert_sorted a [] s = ground arith
      keep-insert_sorted a (b ∷ l) s = elim (Bool-cases (less b a)) [
        | inl e ↦ ground (arith, keep-insert_sorted a l s.1)
        | inr e ↦
            let front =
              insert_sorted_front a (keep p (b ∷ l))
                (All-keep (λ c. less c a ≡ false) p (b ∷ l) (e, below a b l e s.0)) in
            ground (arith, front)
      ]

      -- sorting and filtering commute
      pub keep-sort_slice : (l : List A) → keep p (sort_slice l) ≡ sort_slice (keep p l)
      unfolding sort_slice
      keep-sort_slice [] = refl
      keep-sort_slice (a ∷ l) =
          let sorted = keep-insert_sorted a (sort_slice l) (sort_slice-IsSorted l) in
          ground (arith, sorted, keep-sort_slice l)

-- `R` holds of every two elements
abbrev pub Pairwise {ℓ κ} : {A : Type ℓ} → (A → A → Type κ) → List A → Type κ
Pairwise R [] = Unit
Pairwise R (a ∷ l) = All (R a) l × Pairwise R l

module _ {ℓ κ} {A : Type ℓ} (R : A → A → Type κ) where
  Pairwise-insert_sorted :
      (less : A → A → Bool)
      → ((a b : A) → R a b → R b a)
      → (a : A) (l : List A) → All (R a) l
      → Pairwise R l
      → Pairwise R (insert_sorted less a l)
  unfolding insert_sorted
  Pairwise-insert_sorted less flip a [] h hs = (tt, tt)
  Pairwise-insert_sorted less flip a (b ∷ l) h hs = elim (Bool-cases (less b a)) [
    | inl e ↦
        rw (e, Pairwise)
          (
            insert_sorted-All less (R b) a l (flip a b h.0) hs.0,
            Pairwise-insert_sorted less flip a l h.1 hs.1,
          )
    | inr e ↦ rw (e, Pairwise) (h, hs)
  ]

  pub Pairwise-sort_slice :
      (less : A → A → Bool)
      → ((a b : A) → R a b → R b a)
      → (l : List A) → Pairwise R l
      → Pairwise R (sort_slice less l)
  unfolding sort_slice
  Pairwise-sort_slice less flip [] h = tt
  Pairwise-sort_slice less flip (a ∷ l) h =
      Pairwise-insert_sorted less flip a (sort_slice less l) (sort_slice-All less (R a) l h.0)
        (Pairwise-sort_slice less flip l h.1)

  pub Pairwise-keep : (p : A → Bool) (l : List A) → Pairwise R l → Pairwise R (keep p l)
  Pairwise-keep p [] h = tt
  Pairwise-keep p (a ∷ l) h = elim (Bool-cases (p a)) [
    | inl e ↦ rw (e, keep) (All-keep (R a) p l h.0, Pairwise-keep p l h.1)
    | inr e ↦ rw (e, keep) (Pairwise-keep p l h.1)
  ]

  pub Pairwise-snoc :
      (l : List A) (a : A) → All (λ b. R b a) l → Pairwise R l → Pairwise R (l ++ a ∷ [])
  Pairwise-snoc [] a h hs = (tt, tt)
  Pairwise-snoc (b ∷ l) a h hs =
      (All-append (R b) l (a ∷ []) hs.0 (h.0, tt), Pairwise-snoc l a h.1 hs.1)
