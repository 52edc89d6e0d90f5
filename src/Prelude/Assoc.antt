-- ===== src/Prelude/Assoc.antt =====
-- Go maps with numbers for keys, as association lists.
use ro_proxy.Prelude.Tests.{◌==◌, if◌then◌else◌, Bool-cases}
use ro_proxy.Prelude.Lists.{All}
use mathlib.Core.Logic.{inl, inr}
use Prim.Native.Nat.{ℕ}
use mathlib.Core.Path.{◌≡◌, refl, subst}
use mathlib.Core.Bool.{Bool, true, false}
use mathlib.Core.Option.{Option, none, some}
use mathlib.Core.List.{List, [], ◌∷◌}
use native.Mathlib.Omega.{arith}

module _ {ℓ} {V : Type ℓ} where
  unfoldable pub lookup : ℕ → List (ℕ × V) → Option V
  lookup key [] = none
  lookup key ((k, v) ∷ m) = let rest = lookup key m in if k == key then some v else rest

  unfoldable pub insert : ℕ → V → List (ℕ × V) → List (ℕ × V)
  insert key w [] = (key, w) ∷ []
  insert key w ((k, v) ∷ m) =
      let rest = insert key w m in if k == key then (k, w) ∷ m else (k, v) ∷ rest

  unfoldable pub remove : ℕ → List (ℕ × V) → List (ℕ × V)
  remove key [] = []
  remove key ((k, v) ∷ m) = if k == key then remove key m else (k, v) ∷ remove key m

  abbrev pub is_some : Option V → Bool
  is_some none = false
  is_some (some v) = true

  pub lookup-insert :
      (key other : ℕ) (w : V) (m : List (ℕ × V))
      → lookup other (insert key w m) ≡ (if key == other then some w else lookup other m)
  unfolding lookup insert
  lookup-insert key other w [] = refl
  lookup-insert key other w ((k, v) ∷ m) = ground (arith, lookup-insert key other w m)

  pub lookup-remove :
      (key other : ℕ) (m : List (ℕ × V))
      → lookup other (remove key m) ≡ (if key == other then none else lookup other m)
  unfolding lookup remove
  lookup-remove key other [] = ground arith
  lookup-remove key other ((k, v) ∷ m) = ground (arith, lookup-remove key other m)

  -- A property of the values of a map.
  abbrev pub AllValues {κ} : (V → Type κ) → List (ℕ × V) → Type κ
  AllValues P m = All (λ (e : ℕ × V). P e.1) m

  pub insert-AllValues {κ} :
      (P : V → Type κ) (key : ℕ) (w : V) (m : List (ℕ × V))
      → P w
      → AllValues P m
      → AllValues P (insert key w m)
  unfolding insert
  insert-AllValues P key w [] h hs = (h, tt)
  insert-AllValues P key w ((k, v) ∷ m) h (p, ps) = elim (Bool-cases (k == key)) [
    | inl e ↦ rw e (h, ps)
    | inr e ↦ rw e (p, insert-AllValues P key w m h ps)
  ]

  pub remove-AllValues {κ} :
      (P : V → Type κ) (key : ℕ) (m : List (ℕ × V)) → AllValues P m → AllValues P (remove key m)
  unfolding remove
  remove-AllValues P key [] hs = tt
  remove-AllValues P key ((k, v) ∷ m) (p, ps) = elim (Bool-cases (k == key)) [
    | inl e ↦ rw e (remove-AllValues P key m ps)
    | inr e ↦ rw e (p, remove-AllValues P key m ps)
  ]

  pub lookup-AllValues {κ} :
      (P : V → Type κ) (key : ℕ) (v : V) (m : List (ℕ × V))
      → AllValues P m
      → lookup key m ≡ some v
      → P v
  unfolding lookup
  lookup-AllValues P key v [] hs e = absurd (cc)
  lookup-AllValues P key v ((k, w) ∷ m) (p, ps) e = elim (Bool-cases (k == key)) [
    | inl same ↦
        let q : ◌≡◌ {A = Option V} (some w) (some v) = rw same at e in
        let s : w ≡ v = cc in subst P s p
    | inr other ↦ lookup-AllValues P key v m ps (rw other at e)
  ]
