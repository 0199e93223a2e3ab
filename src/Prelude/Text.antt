-- ===== src/Prelude/Text.antt =====
-- Texts: equality, and Python's order on `str`, lexicographic by code points.
use Prim.Native.Nat.{ℕ, compare, Ordering}
use Prim.Native.Char.{code}
use Prim.Native.String.{String}
use mathlib.Core.Path.{◌≡◌, refl}
use mathlib.Core.Logic.{◌⊎◌, inl, inr}
use mathlib.Core.Bool.{Bool, true, false}
use mathlib.Core.List.{List, [], ◌∷◌}
use native.Mathlib.Omega.{arith}
use text.Mathlib.Text.{◌==◌}

abbrev pub str_eq : String → String → Bool
str_eq s t = s == t

abbrev pub codes : String → List ℕ
codes String.[] = []
codes (String.◌∷◌ c s) = code c ∷ codes s

pub codes_le : List ℕ → List ℕ → Bool
codes_le [] ds = true
codes_le (c ∷ cs) [] = false
codes_le (c ∷ cs) (d ∷ ds) =
    let rest = codes_le cs ds in
    elim (compare c d) [ Ordering.lt ↦ true | Ordering.eq ↦ rest | Ordering.gt ↦ false ]

-- `s <= t`
unfoldable pub str_le : String → String → Bool
unfolding codes_le
str_le s t = codes_le (codes s) (codes t)

codes_le_total : (cs ds : List ℕ) → (codes_le cs ds ≡ true) ⊎ (codes_le ds cs ≡ true)
unfolding codes_le
codes_le_total [] ds = inl refl
codes_le_total (c ∷ cs) [] = inr refl
codes_le_total (c ∷ cs) (d ∷ ds) = ground (arith, codes_le_total cs ds)

codes_le_trans :
    (cs ds es : List ℕ) → codes_le cs ds ≡ true → codes_le ds es ≡ true → codes_le cs es ≡ true
unfolding codes_le
codes_le_trans [] ds es h k = refl
codes_le_trans (c ∷ cs) [] es h k = ground arith
codes_le_trans (c ∷ cs) (d ∷ ds) [] h k = ground arith
codes_le_trans (c ∷ cs) (d ∷ ds) (e ∷ es) h k = ground (arith, codes_le_trans cs ds es)

pub str_le_total : (s t : String) → (str_le s t ≡ true) ⊎ (str_le t s ≡ true)
unfolding str_le
str_le_total s t = codes_le_total (codes s) (codes t)

pub str_le_trans : (s t u : String) → str_le s t ≡ true → str_le t u ≡ true → str_le s u ≡ true
unfolding str_le
str_le_trans s t u h k = codes_le_trans (codes s) (codes t) (codes u) h k
