-- ===== src/Common/Sorting.antt =====
-- Go's `sort.Slice`: it rearranges the slice so that no element is less than one before it, if
-- `less` is a strict weak order. It is not stable: the order of the elements that `less` does not
-- tell apart is open, so the sort is a parameter with these two laws.
use mathlib.Core.Path.{◌≡◌, refl, ap, ◌∙◌}
use mathlib.Core.Bool.{Bool, true, false, Bool-set}
use mathlib.Core.Logic.Or
use mathlib.Core.List.{List, [], ◌∷◌, Perm, Mem, mem-cons, not-mem-nil}
use mathlib.Core.List.Perm
use native.Mathlib.Omega.{arith}
use bakery_go.Common.Lists.{All}
use bakery_go.Common.Tests.{if◌then◌else◌, Bool-cases}
use mathlib.Core.Logic.{inl, inr}

pub record IsWeakOrder {A : Type 0} (less : A → A → Bool) : Type 0 where
  pub asymm : (a b : A) → less a b ≡ true → less b a ≡ false
  pub trans : (a b c : A) → less b a ≡ false → less c b ≡ false → less c a ≡ false

-- No element is less than one before it.
abbrev pub IsSorted : {A : Type 0} → (A → A → Bool) → List A → Type 0
IsSorted less [] = Unit {0}
IsSorted less (x ∷ xs) = All (λ y. less y x ≡ false) xs × IsSorted less xs

pub record Sorter (A : Type 0) : Type 0 where
  pub sort : (A → A → Bool) → List A → List A
  pub perm : (less : A → A → Bool) (xs : List A) → Perm (sort less xs) xs
  pub sorted :
      (less : A → A → Bool) → IsWeakOrder less → (xs : List A) → IsSorted less (sort less xs)

-- A test that all elements pass is passed by all elements of a rearrangement.
pub All-mem :
    {A : Type 0} (p : A → Bool) (xs : List A)
    → ((a : A) → Mem a xs → p a ≡ true)
    → All (λ a. p a ≡ true) xs
All-mem p [] h = tt
All-mem p (x ∷ xs) h =
    (h x (mem-cons.1 (Or.inl refl)), All-mem p xs (λ a m. h a (mem-cons.1 (Or.inr m))))

pub mem-All :
    {A : Type 0} (p : A → Bool) (a : A) (xs : List A)
    → All (λ a. p a ≡ true) xs
    → Mem a xs
    → p a ≡ true
mem-All p a [] h m = absurd (not-mem-nil m)
mem-All p a (x ∷ xs) h m =
    Or.elim (Bool-set (p a) true) (mem-cons.0 m) (λ e. ap p e ∙ h.0) (mem-All p a xs h.1)

pub All-perm :
    {A : Type 0} (p : A → Bool) (xs ys : List A)
    → Perm xs ys
    → All (λ a. p a ≡ true) ys
    → All (λ a. p a ≡ true) xs
All-perm p xs ys perm h = All-mem p xs (λ a m. mem-All p a ys h ((Perm.mem_iff perm).0 m))

-- One sort that keeps the laws: insertion, as `sort.Slice` does for short slices.
module _ {A : Type 0} (less : A → A → Bool) where
  unfoldable pub place : A → List A → List A
  place x [] = x ∷ []
  place x (y ∷ ys) = let rest = place x ys in if less x y then x ∷ y ∷ ys else y ∷ rest

  unfoldable pub insertion : List A → List A
  unfolding place
  insertion [] = []
  insertion (x ∷ xs) = place x (insertion xs)

  place-perm : (x : A) (xs : List A) → Perm (place x xs) (x ∷ xs)
  unfolding place
  place-perm x [] = Perm.rfl
  place-perm x (y ∷ ys) = elim (Bool-cases (less x y)) [
    | inl h ↦ rw h Perm.rfl
    | inr h ↦ rw h (Perm.trans (Perm.cons y (place-perm x ys)) (Perm.swap x y ys))
  ]

  pub insertion-perm : (xs : List A) → Perm (insertion xs) xs
  unfolding insertion
  insertion-perm [] = Perm.rfl
  insertion-perm (x ∷ xs) =
      Perm.trans (place-perm x (insertion xs)) (Perm.cons x (insertion-perm xs))

  All-place : (P : A → Type 0) (x : A) (xs : List A) → P x → All P xs → All P (place x xs)
  unfolding place
  All-place P x [] p h = (p, tt)
  All-place P x (y ∷ ys) p h = ground (arith, All-place P x ys p h.1)

  module _ (w : IsWeakOrder less) where
    All-below :
        (x y : A) (ys : List A)
        → less x y ≡ true
        → All (λ z. less z y ≡ false) ys
        → All (λ z. less z x ≡ false) ys
    All-below x y [] h a = tt
    All-below x y (z ∷ zs) h a = (w.trans x y z (w.asymm x y h) a.0, All-below x y zs h a.1)

    place-IsSorted : (x : A) (xs : List A) → IsSorted less xs → IsSorted less (place x xs)
    unfolding place
    place-IsSorted x [] s = (tt, tt)
    place-IsSorted x (y ∷ ys) s = elim (Bool-cases (less x y)) [
      | inl h ↦ rw h ((w.asymm x y h, All-below x y ys h s.0), s)
      | inr h ↦ rw h (All-place (λ z. less z y ≡ false) x ys h s.0, place-IsSorted x ys s.1)
    ]

    pub insertion-IsSorted : (xs : List A) → IsSorted less (insertion xs)
    unfolding insertion
    insertion-IsSorted [] = tt
    insertion-IsSorted (x ∷ xs) = place-IsSorted x (insertion xs) (insertion-IsSorted xs)

abbrev pub insertion_sorter : (A : Type 0) → Sorter A
insertion_sorter A = record {
  sort = insertion;
  perm = insertion-perm;
  sorted = λ less w xs. insertion-IsSorted less w xs;
}
