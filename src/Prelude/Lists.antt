-- ===== src/Prelude/Lists.antt =====
-- Lists measured by native numbers, membership and predicates by recursion.
use Prim.Native.Nat.{ℕ, zero, suc, ◌+◌, ◌≤◌}
use mathlib.Core.Path.{◌≡◌, refl, sym, ap, subst}
use mathlib.Core.Logic.{◌≢◌, ◌⊎◌, inl, inr}
use mathlib.Core.Bool.{Bool, true, false}
use mathlib.Core.List.{List, [], ◌∷◌, ◌++◌, map}
use native.Mathlib.Omega.{arith}
use vmbackupd.Prelude.Tests.{if◌then◌else◌, Bool-cases}

module _ {ℓ} {A : Type ℓ} where
  abbrev pub length : List A → ℕ
  length [] = 0
  length (x ∷ xs) = suc (length xs)

  abbrev pub take : ℕ → List A → List A
  take zero xs = []
  take (suc n) [] = []
  take (suc n) (x ∷ xs) = x ∷ take n xs

  -- `[x for x in xs if p(x)]`
  unfoldable pub filter : (A → Bool) → List A → List A
  filter p [] = []
  filter p (x ∷ xs) = let rest = filter p xs in if p x then x ∷ rest else rest

  -- `any(p(x) for x in xs)`
  unfoldable pub any : (A → Bool) → List A → Bool
  any p [] = false
  any p (x ∷ xs) = let rest = any p xs in if p x then true else rest

infix 50 ◌∈◌
abbrev pub ◌∈◌ : {A : Type 0} → A → List A → Type 0
x ∈ [] = ⊥
x ∈ (y ∷ ys) = (x ≡ y) ⊎ (x ∈ ys)

abbrev pub All {ℓ κ} : {A : Type ℓ} → (A → Type κ) → List A → Type κ
All Holds [] = Unit
All Holds (item ∷ items) = Holds item × All Holds items

-- No element occurs twice.
abbrev pub AreDistinct : {A : Type 0} → List A → Type 0
AreDistinct [] = Unit
AreDistinct (x ∷ xs) = All (λ y. x ≢ y) xs × AreDistinct xs

abbrev pub sum : List ℕ → ℕ
sum [] = 0
sum (n ∷ ns) = n + sum ns

pub sum-append : (xs ys : List ℕ) → sum (xs ++ ys) ≡ sum xs + sum ys
sum-append [] ys = omega arith
sum-append (x ∷ xs) ys = omega (arith, sum-append xs ys)

module _ {ℓ} {A : Type ℓ} where
  pub length-append : (xs ys : List A) → length (xs ++ ys) ≡ length xs + length ys
  length-append [] ys = omega arith
  length-append (x ∷ xs) ys = omega (arith, length-append xs ys)

  pub length-take-le : (n : ℕ) (xs : List A) → length (take n xs) ≤ n
  length-take-le zero xs = omega arith
  length-take-le (suc n) [] = omega arith
  length-take-le (suc n) (x ∷ xs) = omega (arith, length-take-le n xs)

module _ {A : Type 0} where
  pub mem-take : (n : ℕ) (x : A) (xs : List A) → x ∈ take n xs → x ∈ xs
  mem-take zero x xs h = absurd h
  mem-take (suc n) x [] h = h
  mem-take (suc n) x (y ∷ ys) (inl e) = inl e
  mem-take (suc n) x (y ∷ ys) (inr h) = inr (mem-take n x ys h)

  pub mem-append_left : (x : A) (xs ys : List A) → x ∈ xs → x ∈ (xs ++ ys)
  mem-append_left x [] ys h = absurd h
  mem-append_left x (y ∷ xs) ys (inl e) = inl e
  mem-append_left x (y ∷ xs) ys (inr h) = inr (mem-append_left x xs ys h)

  pub mem-append_right : (x : A) (xs ys : List A) → x ∈ ys → x ∈ (xs ++ ys)
  mem-append_right x [] ys h = h
  mem-append_right x (y ∷ xs) ys h = inr (mem-append_right x xs ys h)

  pub mem-append_cases : (x : A) (xs ys : List A) → x ∈ (xs ++ ys) → (x ∈ xs) ⊎ (x ∈ ys)
  mem-append_cases x [] ys h = inr h
  mem-append_cases x (y ∷ xs) ys (inl e) = inl (inl e)
  mem-append_cases x (y ∷ xs) ys (inr h) = elim (mem-append_cases x xs ys h) [
    | inl k ↦ inl (inr k)
    | inr k ↦ inr k
  ]

  pub mem-All {κ} : (P : A → Type κ) (x : A) (xs : List A) → All P xs → x ∈ xs → P x
  mem-All P x [] a h = absurd h
  mem-All P x (y ∷ ys) a (inl e) = subst P (sym e) a.0
  mem-All P x (y ∷ ys) a (inr h) = mem-All P x ys a.1 h

  pub All-of_mem {κ} : (P : A → Type κ) (xs : List A) → ((x : A) → x ∈ xs → P x) → All P xs
  All-of_mem P [] f = tt
  All-of_mem P (x ∷ xs) f = (f x (inl refl), All-of_mem P xs (λ y h. f y (inr h)))

  pub mem-map : {B : Type 0} (f : A → B) (x : A) (xs : List A) → x ∈ xs → f x ∈ map f xs
  mem-map f x [] h = absurd h
  mem-map f x (y ∷ ys) (inl e) = inl (ap f e)
  mem-map f x (y ∷ ys) (inr h) = inr (mem-map f x ys h)

  pub mem-of_map :
      {B : Type 0} (f : A → B) (b : B) (xs : List A) → b ∈ map f xs → (x : A) × (x ∈ xs) × (b ≡ f x)
  mem-of_map f b [] h = absurd h
  mem-of_map f b (y ∷ ys) (inl e) = (y, inl refl, e)
  mem-of_map f b (y ∷ ys) (inr h) = let (x, m, e) = mem-of_map f b ys h in (x, inr m, e)

module _ {A : Type 0} (p : A → Bool) where
  pub mem-of_filter : (x : A) (xs : List A) → x ∈ filter p xs → (x ∈ xs) × (p x ≡ true)
  unfolding filter
  mem-of_filter x [] h = absurd h
  mem-of_filter x (y ∷ ys) h = elim (Bool-cases (p y)) [
    | inl e ↦ elim (let h' : x ∈ (y ∷ filter p ys) = rw e at h in h') [
      | inl q ↦ (inl q, subst (λ z. p z ≡ true) (sym q) e)
      | inr k ↦ let (m, t) = mem-of_filter x ys k in (inr m, t)
    ]
    | inr e ↦
        let h' : x ∈ filter p ys = rw e at h in let (m, t) = mem-of_filter x ys h' in (inr m, t)
  ]

  pub mem-filter : (x : A) (xs : List A) → x ∈ xs → p x ≡ true → x ∈ filter p xs
  unfolding filter
  mem-filter x [] h t = h
  mem-filter x (y ∷ ys) (inl e) t = rw (subst (λ z. p z ≡ true) e t) (inl e)
  mem-filter x (y ∷ ys) (inr h) t = elim (Bool-cases (p y)) [
    | inl e ↦ rw e (inr (mem-filter x ys h t))
    | inr e ↦ rw e (mem-filter x ys h t)
  ]

  pub any-of_mem : (x : A) (xs : List A) → x ∈ xs → p x ≡ true → any p xs ≡ true
  unfolding any
  any-of_mem x [] h t = absurd h
  any-of_mem x (y ∷ ys) (inl e) t = rw (subst (λ z. p z ≡ true) e t)
  any-of_mem x (y ∷ ys) (inr h) t = ground (arith, any-of_mem x ys h t)

  pub mem-of_any : (xs : List A) → any p xs ≡ true → (x : A) × (x ∈ xs) × (p x ≡ true)
  unfolding any
  mem-of_any [] h = cc
  mem-of_any (y ∷ ys) h = elim (Bool-cases (p y)) [
    | inl e ↦ (y, inl refl, e)
    | inr e ↦ let (x, m, t) = mem-of_any ys (rw e at h) in (x, inr m, t)
  ]

  pub any-false : (x : A) (xs : List A) → any p xs ≡ false → x ∈ xs → p x ≡ false
  unfolding any
  any-false x [] h m = absurd m
  any-false x (y ∷ ys) h (inl e) = rw e (ground arith)
  any-false x (y ∷ ys) h (inr m) = any-false x ys (ground arith) m

module _ {ℓ} {A : Type ℓ} where
  abbrev pub drop : ℕ → List A → List A
  drop zero xs = xs
  drop (suc n) [] = []
  drop (suc n) (x ∷ xs) = drop n xs

  pub take-append-drop : (n : ℕ) (xs : List A) → take n xs ++ drop n xs ≡ xs
  take-append-drop zero xs = refl
  take-append-drop (suc n) [] = refl
  take-append-drop (suc n) (x ∷ xs) = rw (take-append-drop n xs)

  pub length-map {κ} : {B : Type κ} (xs : List A) (f : A → B) → length (map f xs) ≡ length xs
  length-map [] f = refl
  length-map (x ∷ xs) f = ap suc (length-map xs f)

  pub take-length-take : (n : ℕ) (xs : List A) → take (length (take n xs)) xs ≡ take n xs
  take-length-take zero xs = refl
  take-length-take (suc n) [] = refl
  take-length-take (suc n) (x ∷ xs) = ap (λ l. x ∷ l) (take-length-take n xs)

  pub take-take : (m n : ℕ) (xs : List A) → m ≤ n → take m (take n xs) ≡ take m xs
  take-take zero n xs h = refl
  take-take (suc m) zero xs h = absurd (omega arith)
  take-take (suc m) (suc n) [] h = refl
  take-take (suc m) (suc n) (x ∷ xs) h = ap (λ l. x ∷ l) (take-take m n xs (omega arith))

module _ {A : Type 0} where
  pub mem-drop : (n : ℕ) (x : A) (xs : List A) → x ∈ drop n xs → x ∈ xs
  mem-drop zero x xs h = h
  mem-drop (suc n) x [] h = absurd h
  mem-drop (suc n) x (y ∷ ys) h = inr (mem-drop n x ys h)

  pub mem-take_or_drop : (n : ℕ) (x : A) (xs : List A) → x ∈ xs → (x ∈ take n xs) ⊎ (x ∈ drop n xs)
  mem-take_or_drop n x xs h =
      mem-append_cases x (take n xs) (drop n xs)
        (subst (λ l. x ∈ l) (sym (take-append-drop n xs)) h)

pub length-take-le_length {ℓ} : {A : Type ℓ} (n : ℕ) (xs : List A) → length (take n xs) ≤ length xs
length-take-le_length zero xs = omega arith
length-take-le_length (suc n) [] = omega arith
length-take-le_length (suc n) (x ∷ xs) = omega (arith, length-take-le_length n xs)
