-- ===== src/Prelude/Dict.antt =====
-- Rows found by their key, and Python dictionaries as lists of items in the order of insertion.
use Prim.Native.String.{String}
use mathlib.Core.Path.{◌≡◌, refl, sym, ap, subst, ◌∙◌}
use mathlib.Core.Logic.{◌≢◌, ◌⊎◌, inl, inr}
use mathlib.Core.Bool.{Bool, true, false}
use mathlib.Core.Bool.{false≢true}
use mathlib.Core.List.{List, [], ◌∷◌, map}
use mathlib.Core.Option.{Option, none, some}
use text.Mathlib.TextEquality.{eq_iff}
use vmbackupd.Prelude.Tests.{if◌then◌else◌, Bool-cases, is_some}
use vmbackupd.Prelude.Text.{str_eq}
use vmbackupd.Prelude.Lists.{◌∈◌, All, All-of_mem, AreDistinct, mem-All, mem-map}

abbrev pub change_if {ℓ} : {A : Type ℓ} → (A → A) → Bool → Option A → Option A
change_if change b none = none
change_if change b (some x) = some (if b then change x else x)

module _ {A : Type 0} (key : A → String) where
  -- `SELECT ... WHERE id=?`: the first row that has the key.
  unfoldable pub find_by : List A → String → Option A
  find_by [] k = none
  find_by (x ∷ xs) k = let rest = find_by xs k in if str_eq (key x) k then some x else rest

  -- `UPDATE ... WHERE id=?`
  unfoldable pub update_by : (A → A) → String → List A → List A
  update_by change k = map (λ x. if str_eq (key x) k then change x else x)

  pub find_by-of_mem : (xs : List A) (x : A) → x ∈ xs → is_some (find_by xs (key x)) ≡ true
  unfolding find_by
  find_by-of_mem [] x m = absurd m
  find_by-of_mem (y ∷ ys) x m = elim (Bool-cases (str_eq (key y) (key x))) [
    | inl e ↦ rw e
    | inr n ↦ elim m [
      | inl q ↦ absurd (false≢true (sym n ∙ (eq_iff (key y) (key x)).1 (ap key (sym q))))
      | inr k ↦ rw n (find_by-of_mem ys x k)
    ]
  ]

  pub mem-of_find_by :
      (xs : List A) (k : String) (x : A) → find_by xs k ≡ some x → (x ∈ xs) × (key x ≡ k)
  unfolding find_by
  mem-of_find_by [] k x h = cc
  mem-of_find_by (y ∷ ys) k x h = elim (Bool-cases (str_eq (key y) k)) [
    | inl e ↦
        let h' : some y ≡ some x = rw e at h in
        let same : y ≡ x = cc in (inl (sym same), ap key (sym same) ∙ (eq_iff (key y) k).0 e)
    | inr n ↦ let (m, q) = mem-of_find_by ys k x (rw n at h) in (inr m, q)
  ]

  module _ (change : A → A) (keeps : (x : A) → key (change x) ≡ key x) where
    -- A row is found after an update as before, changed if it has the key of the update.
    pub find_by-update_by :
        (xs : List A) (k j : String)
        → find_by (update_by change k xs) j ≡ change_if change (str_eq j k) (find_by xs j)
    unfolding find_by update_by
    find_by-update_by [] k j = refl
    find_by-update_by (x ∷ xs) k j = elim (Bool-cases (str_eq (key x) k)) [
      | inl e ↦
          let same : str_eq (key (change x)) j ≡ str_eq (key x) j =
            ap (λ z. str_eq z j) (keeps x) in
          elim (Bool-cases (str_eq (key x) j)) [
            | inl f ↦
                let g : str_eq j k ≡ true =
                  subst (λ z. str_eq z k ≡ true) ((eq_iff (key x) j).0 f) e in
                rw (e, same, f, g)
            | inr f ↦ rw (e, same, f) (find_by-update_by xs k j)
          ]
      | inr n ↦ elim (Bool-cases (str_eq (key x) j)) [
        | inl f ↦
            let g : str_eq j k ≡ false =
              subst (λ z. str_eq z k ≡ false) ((eq_iff (key x) j).0 f) n in
            rw (n, f, g)
        | inr f ↦ rw (n, f) (find_by-update_by xs k j)
      ]
    ]

module _ {V : Type 0} where
  -- `d.get(k)`
  unfoldable pub lookup : List (String × V) → String → Option V
  lookup [] k = none
  lookup (item ∷ items) k =
      let rest = lookup items k in if str_eq item.0 k then some item.1 else rest

  -- `d[k] = v`: a key that is there keeps its place.
  unfoldable pub assign : String → V → List (String × V) → List (String × V)
  assign k v [] = (k, v) ∷ []
  assign k v (item ∷ items) =
      let rest = assign k v items in if str_eq item.0 k then (k, v) ∷ items else item ∷ rest

  pub lookup-assign :
      (k j : String) (v : V) (items : List (String × V))
      → lookup (assign k v items) j ≡ (if str_eq k j then some v else lookup items j)
  unfolding lookup assign
  lookup-assign k j v [] = refl
  lookup-assign k j v (item ∷ items) = elim (Bool-cases (str_eq item.0 k)) [
    | inl e ↦
        let f : str_eq item.0 j ≡ str_eq k j = ap (λ z. str_eq z j) ((eq_iff item.0 k).0 e) in
        rw (e, f) (elim (Bool-cases (str_eq k j)) [ inl g ↦ rw g | inr g ↦ rw g ])
    | inr n ↦ elim (Bool-cases (str_eq item.0 j)) [
      | inr g ↦ rw (n, g) (lookup-assign k j v items)
      | inl g ↦
          let f : str_eq k j ≡ false = not_true (str_eq k j) (λ h.
            false≢true
              (sym n ∙ (eq_iff item.0 k).1 ((eq_iff item.0 j).0 g ∙ sym ((eq_iff k j).0 h)))) in
          rw (n, g, f)
    ]
  ]
    where
      not_true : (b : Bool) → (b ≢ true) → b ≡ false
      not_true true h = absurd (h refl)
      not_true false h = refl

  pub mem-of_lookup :
      (items : List (String × V)) (k : String) (v : V) → lookup items k ≡ some v → (k, v) ∈ items
  unfolding lookup
  mem-of_lookup [] k v h = cc
  mem-of_lookup (item ∷ items) k v h = elim (Bool-cases (str_eq item.0 k)) [
    | inl e ↦
        let h' : some item.1 ≡ some v = rw e at h in
        let same : item.1 ≡ v = cc in
        inl (ap (λ z. (z, v)) (sym ((eq_iff item.0 k).0 e)) ∙ ap (λ z. (item.0, z)) (sym same))
    | inr n ↦ inr (mem-of_lookup items k v (rw n at h))
  ]

false_of : (s t : String) → s ≢ t → str_eq s t ≡ false
false_of s t n = elim (Bool-cases (str_eq s t)) [
  | inl e ↦ absurd (n ((eq_iff s t).0 e))
  | inr e ↦ e
]

-- A row is found by its key if no other has it.
pub find_by-of_distinct :
    {A : Type 0} (key : A → String) (xs : List A) (x : A)
    → AreDistinct (map key xs)
    → x ∈ xs
    → find_by key xs (key x) ≡ some x
unfolding find_by
find_by-of_distinct key [] x d m = absurd m
find_by-of_distinct key (y ∷ ys) x d (inl e) =
    rw ((eq_iff (key y) (key x)).1 (ap key (sym e))) (ap some (sym e))
find_by-of_distinct key (y ∷ ys) x d (inr m) =
    rw
      (false_of (key y) (key x)
        (mem-All (λ k. key y ≢ k) (key x) (map key ys) d.0 (mem-map key x ys m)))
      (find_by-of_distinct key ys x d.1 m)

pub lookup-of_distinct :
    {V : Type 0} (items : List (String × V)) (k : String) (v : V)
    → AreDistinct (map (λ item. item.0) items)
    → (k, v) ∈ items
    → lookup items k ≡ some v
unfolding lookup
lookup-of_distinct [] k v d m = absurd m
lookup-of_distinct (item ∷ items) k v d (inl e) =
    rw ((eq_iff item.0 k).1 (ap (λ z. z.0) (sym e))) (ap (λ z. some z.1) (sym e))
lookup-of_distinct (item ∷ items) k v d (inr m) =
    rw
      (false_of item.0 k (
        mem-All (λ j. item.0 ≢ j) k (map (λ i. i.0) items) d.0 (mem-map (λ i. i.0) (k, v) items m)))
      (lookup-of_distinct items k v d.1 m)

-- An update that leaves the key alone leaves all keys.
pub keys-update_by :
    {A : Type 0} (key : A → String) (change : A → A)
    → ((x : A) → key (change x) ≡ key x)
    → (k : String) (xs : List A) → map key (update_by key change k xs) ≡ map key xs
unfolding update_by
keys-update_by key change keeps k [] = refl
keys-update_by key change keeps k (x ∷ xs) = elim (Bool-cases (str_eq (key x) k)) [
  | inl e ↦ rw (e, keeps x, keys-update_by key change keeps k xs)
  | inr e ↦ rw (e, keys-update_by key change keeps k xs)
]

mem-of_keys_assign :
    {V : Type 0} (k j : String) (v : V) (items : List (String × V))
    → j ∈ map (λ i. i.0) (assign k v items)
    → (j ≡ k) ⊎ (j ∈ map (λ i. i.0) items)
unfolding assign
mem-of_keys_assign k j v [] m = m
mem-of_keys_assign k j v (item ∷ items) m = elim (Bool-cases (str_eq item.0 k)) [
  | inl e ↦
      let m' : j ∈ (k ∷ map (λ i. i.0) items) = rw e at m in
      elim m' [ inl q ↦ inl q | inr w ↦ inr (inr w) ]
  | inr n ↦
      let m' : j ∈ (item.0 ∷ map (λ i. i.0) (assign k v items)) = rw n at m in
      elim m' [
        | inl q ↦ inr (inl q)
        | inr w ↦ elim (mem-of_keys_assign k j v items w) [ inl q ↦ inl q | inr z ↦ inr (inr z) ]
      ]
]

-- A dictionary keeps one item for each key.
pub assign-AreDistinct :
    {V : Type 0} (k : String) (v : V) (items : List (String × V))
    → AreDistinct (map (λ i. i.0) items)
    → AreDistinct (map (λ i. i.0) (assign k v items))
unfolding assign
assign-AreDistinct k v [] d = (tt, tt)
assign-AreDistinct k v (item ∷ items) d = elim (Bool-cases (str_eq item.0 k)) [
  | inl e ↦
      rw e (subst (λ z. All (λ y. z ≢ y) (map (λ i. i.0) items)) ((eq_iff item.0 k).0 e) d.0, d.1)
  | inr n ↦ rw n (
    All-of_mem (λ y. item.0 ≢ y) (map (λ i. i.0) (assign k v items))
        (λ j m. elim (mem-of_keys_assign k j v items m) [
          | inl q ↦ λ same. false≢true (sym n ∙ (eq_iff item.0 k).1 (same ∙ q))
          | inr w ↦ mem-All (λ y. item.0 ≢ y) j (map (λ i. i.0) items) d.0 w
        ]),
    assign-AreDistinct k v items d.1,
  )
]
