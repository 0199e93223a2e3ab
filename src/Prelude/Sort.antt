-- ===== src/Prelude/Sort.antt =====
-- Python's stable `sorted`, over the Boolean order of the keys.
use Prim.Native.Nat.{ℕ, zero, suc}
use mathlib.Core.Path.{◌≡◌, refl, ap, ◌∙◌, subst, sym}
use mathlib.Core.Logic.{◌≢◌, ◌⊎◌, inl, inr}
use mathlib.Core.Bool.{Bool, true, false}
use mathlib.Core.List.{List, [], ◌∷◌, map}
use vmbackupd.Prelude.Tests.{if◌then◌else◌, Bool-cases}
use vmbackupd.Prelude.Lists.{
  AreDistinct, filter, mem-of_filter, mem-map, mem-take, length, ◌∈◌, All, mem-All, All-of_mem,
  take, drop, mem-drop,
}

module _ {ℓ} {A : Type ℓ} (le : A → A → Bool) where
  unfoldable pub insert : A → List A → List A
  insert x [] = x ∷ []
  insert x (y ∷ ys) = let rest = insert x ys in if le x y then x ∷ y ∷ ys else y ∷ rest

  -- `sorted(xs, key=...)`: an element stays before a later one that has the same key.
  unfoldable pub sort : List A → List A
  unfolding insert
  sort [] = []
  sort (x ∷ xs) = insert x (sort xs)

  abbrev pub IsSorted : List A → Type 0
  IsSorted [] = Unit
  IsSorted (x ∷ xs) = All (λ y. le x y ≡ true) xs × IsSorted xs

module _ {A : Type 0} (le : A → A → Bool) where
  length-insert : (x : A) (ys : List A) → length (insert le x ys) ≡ suc (length ys)
  unfolding insert
  length-insert x [] = refl
  length-insert x (y ∷ ys) = elim (Bool-cases (le x y)) [
    | inl e ↦ rw e
    | inr e ↦ rw e (ap suc (length-insert x ys))
  ]

  pub length-sort : (xs : List A) → length (sort le xs) ≡ length xs
  unfolding sort
  length-sort [] = refl
  length-sort (x ∷ xs) = length-insert x (sort le xs) ∙ ap suc (length-sort xs)

  mem-of_insert : (x z : A) (ys : List A) → z ∈ insert le x ys → (z ≡ x) ⊎ (z ∈ ys)
  unfolding insert
  mem-of_insert x z [] h = h
  mem-of_insert x z (y ∷ ys) h = elim (Bool-cases (le x y)) [
    | inl e ↦ let h' : z ∈ (x ∷ y ∷ ys) = rw e at h in h'
    | inr e ↦ elim (let h' : z ∈ (y ∷ insert le x ys) = rw e at h in h') [
      | inl q ↦ inr (inl q)
      | inr k ↦ elim (mem-of_insert x z ys k) [ inl q ↦ inl q | inr m ↦ inr (inr m) ]
    ]
  ]

  mem-insert : (x z : A) (ys : List A) → (z ≡ x) ⊎ (z ∈ ys) → z ∈ insert le x ys
  unfolding insert
  mem-insert x z [] h = h
  mem-insert x z (y ∷ ys) h = elim (Bool-cases (le x y)) [
    | inl e ↦ rw e h
    | inr e ↦ rw e (elim h [
      | inl q ↦ inr (mem-insert x z ys (inl q))
      | inr (inl q) ↦ inl q
      | inr (inr m) ↦ inr (mem-insert x z ys (inr m))
    ])
  ]

  pub mem-of_sort : (z : A) (xs : List A) → z ∈ sort le xs → z ∈ xs
  unfolding sort
  mem-of_sort z [] h = h
  mem-of_sort z (x ∷ xs) h = elim (mem-of_insert x z (sort le xs) h) [
    | inl e ↦ inl e
    | inr m ↦ inr (mem-of_sort z xs m)
  ]

  pub mem-sort : (z : A) (xs : List A) → z ∈ xs → z ∈ sort le xs
  unfolding sort
  mem-sort z [] h = h
  mem-sort z (x ∷ xs) (inl e) = mem-insert x z (sort le xs) (inl e)
  mem-sort z (x ∷ xs) (inr m) = mem-insert x z (sort le xs) (inr (mem-sort z xs m))

-- What the order of the keys must be for `sort` to sort.
pub record IsOrder {A : Type 0} (le : A → A → Bool) : Type 0 where
  pub total : (x y : A) → (le x y ≡ true) ⊎ (le y x ≡ true)
  pub trans : (x y z : A) → le x y ≡ true → le y z ≡ true → le x z ≡ true

module _ {A : Type 0} {le : A → A → Bool} (order : IsOrder le) where
  le_of_not_le : (x y : A) → le x y ≡ false → le y x ≡ true
  le_of_not_le x y e = elim (order.total x y) [ inl h ↦ cc | inr h ↦ h ]

  le-insert :
      (x y z : A) (ys : List A)
      → le y x ≡ true
      → All (λ w. le y w ≡ true) ys
      → z ∈ insert le x ys
      → le y z ≡ true
  le-insert x y z ys h a m = elim (mem-of_insert le x z ys m) [
    | inl q ↦ subst (λ w. le y w ≡ true) (sym q) h
    | inr k ↦ mem-All (λ w. le y w ≡ true) z ys a k
  ]

  insert-IsSorted : (x : A) (ys : List A) → IsSorted le ys → IsSorted le (insert le x ys)
  unfolding insert
  insert-IsSorted x [] s = (tt, tt)
  insert-IsSorted x (y ∷ ys) s = elim (Bool-cases (le x y)) [
    | inl e ↦ rw e ((e, All-of_mem _ ys (λ z m. order.trans x y z e (mem-All _ z ys s.0 m))), s)
    | inr e ↦ rw e (
      All-of_mem _ (insert le x ys) (λ z m. le-insert x y z ys (le_of_not_le x y e) s.0 m),
      insert-IsSorted x ys s.1,
    )
  ]

  pub sort-IsSorted : (xs : List A) → IsSorted le (sort le xs)
  unfolding sort
  sort-IsSorted [] = tt
  sort-IsSorted (x ∷ xs) = insert-IsSorted x (sort le xs) (sort-IsSorted xs)

-- In a sorted list what stands in a prefix is not above what stands behind it.
pub take-le-drop :
    {A : Type 0} (le : A → A → Bool) (n : ℕ) (xs : List A) (x y : A)
    → IsSorted le xs
    → x ∈ take n xs
    → y ∈ drop n xs
    → le x y ≡ true
take-le-drop le zero xs x y s h k = absurd h
take-le-drop le (suc n) [] x y s h k = absurd h
take-le-drop le (suc n) (z ∷ zs) x y s (inl e) k =
    subst (λ w. le w y ≡ true) (sym e) (mem-All (λ w. le z w ≡ true) y zs s.0 (mem-drop n y zs k))
take-le-drop le (suc n) (z ∷ zs) x y s (inr h) k = take-le-drop le n zs x y s.1 h k

-- A coarser relation that the order of the keys follows.
module _ {A : Type 0} (le : A → A → Bool) (Before : A → A → Type 0)
    (follows : (x y : A) → le x y ≡ true → Before x y)
    (reversed : (x y : A) → le x y ≡ false → Before y x)
    (trans : (x y z : A) → Before x y → Before y z → Before x z) where
  AreInOrder : List A → Type 0
  AreInOrder [] = Unit
  AreInOrder (x ∷ xs) = All (Before x) xs × AreInOrder xs

  insert-AreInOrder : (x : A) (ys : List A) → AreInOrder ys → AreInOrder (insert le x ys)
  unfolding insert AreInOrder
  insert-AreInOrder x [] s = (tt, tt)
  insert-AreInOrder x (y ∷ ys) s = elim (Bool-cases (le x y)) [
    | inl e ↦
        let below = follows x y e in
        rw e (
          (
            below,
            All-of_mem (Before x) ys (λ z m. trans x y z below (mem-All (Before y) z ys s.0 m)),
          ),
          s,
        )
    | inr e ↦ rw e (
      All-of_mem (Before y) (insert le x ys) (λ z m. elim (mem-of_insert le x z ys m) [
        | inl q ↦ subst (Before y) (sym q) (reversed x y e)
        | inr k ↦ mem-All (Before y) z ys s.0 k
      ]),
      insert-AreInOrder x ys s.1,
    )
  ]

  sort-AreInOrder : (xs : List A) → AreInOrder (sort le xs)
  unfolding sort AreInOrder
  sort-AreInOrder [] = tt
  sort-AreInOrder (x ∷ xs) = insert-AreInOrder x (sort le xs) (sort-AreInOrder xs)

  -- The first of a sorted list is before every other.
  pub first-sort :
      (xs : List A) (x : A) (rest : List A) (y : A)
      → sort le xs ≡ x ∷ rest
      → Before x x
      → y ∈ xs
      → Before x y
  unfolding AreInOrder
  first-sort xs x rest y e same m =
      let s : AreInOrder (x ∷ rest) = subst AreInOrder e (sort-AreInOrder xs) in
      let k : y ∈ (x ∷ rest) = subst (λ l. y ∈ l) e (mem-sort le y xs m) in
      elim k [ inl q ↦ subst (Before x) (sym q) same | inr w ↦ mem-All (Before x) y rest s.0 w ]

-- A list sorted or filtered, or its prefix, repeats no key that the list does not repeat.
module _ {A : Type 0} {B : Type 0} (g : A → B) where
  fresh_key : (x : A) (xs : List A) → ((y : A) → y ∈ xs → g x ≢ g y) → All (λ k. g x ≢ k) (map g xs)
  fresh_key x [] h = tt
  fresh_key x (y ∷ ys) h = (h y (inl refl), fresh_key x ys (λ z m. h z (inr m)))

  of_fresh_key :
      (x : A) (xs : List A) → All (λ k. g x ≢ k) (map g xs) → (y : A) → y ∈ xs → g x ≢ g y
  of_fresh_key x xs a y m = mem-All (λ k. g x ≢ k) (g y) (map g xs) a (mem-map g y xs m)

  pub filter-AreDistinct :
      (p : A → Bool) (xs : List A) → AreDistinct (map g xs) → AreDistinct (map g (filter p xs))
  unfolding filter
  filter-AreDistinct p [] d = tt
  filter-AreDistinct p (x ∷ xs) d = elim (Bool-cases (p x)) [
    | inl e ↦ rw e (
      fresh_key x (filter p xs) (λ y m. of_fresh_key x xs d.0 y (mem-of_filter p y xs m).0),
      filter-AreDistinct p xs d.1,
    )
    | inr e ↦ rw e (filter-AreDistinct p xs d.1)
  ]

  pub take-AreDistinct :
      (n : ℕ) (xs : List A) → AreDistinct (map g xs) → AreDistinct (map g (take n xs))
  take-AreDistinct zero xs d = tt
  take-AreDistinct (suc n) [] d = tt
  take-AreDistinct (suc n) (x ∷ xs) d = (
    fresh_key x (take n xs) (λ y m. of_fresh_key x xs d.0 y (mem-take n y xs m)),
    take-AreDistinct n xs d.1,
  )

  module _ (le : A → A → Bool) where
    insert-AreDistinct :
        (x : A) (ys : List A)
        → ((y : A) → y ∈ ys → g x ≢ g y)
        → AreDistinct (map g ys)
        → AreDistinct (map g (insert le x ys))
    unfolding insert
    insert-AreDistinct x [] h d = (tt, tt)
    insert-AreDistinct x (y ∷ ys) h d = elim (Bool-cases (le x y)) [
      | inl e ↦ rw e (fresh_key x (y ∷ ys) h, d)
      | inr e ↦ rw e (
        fresh_key y (insert le x ys) (λ z m. elim (mem-of_insert le x z ys m) [
          | inl q ↦ λ same. h y (inl refl) (sym (same ∙ ap g q))
          | inr k ↦ of_fresh_key y ys d.0 z k
        ]),
        insert-AreDistinct x ys (λ z m. h z (inr m)) d.1,
      )
    ]

    pub sort-AreDistinct : (xs : List A) → AreDistinct (map g xs) → AreDistinct (map g (sort le xs))
    unfolding sort
    sort-AreDistinct [] d = tt
    sort-AreDistinct (x ∷ xs) d =
        insert-AreDistinct x (sort le xs) (λ y m. of_fresh_key x xs d.0 y (mem-of_sort le y xs m))
          (sort-AreDistinct xs d.1)
