-- ===== src/Prelude/Sort.antt =====
-- `sort.Slice` of Go's standard library: an unstable sort, so its result is known only up to the
-- order of equals. A client takes it as a parameter with the documented laws; insertion sort meets
-- them.
use Prim.Native.Nat.{ℕ, zero, suc}
use mathlib.Core.Path.{◌≡◌, refl}
use mathlib.Core.Bool.{Bool, true, false}
use mathlib.Core.List.Permᴰ
use mathlib.Core.List.{List, [], ◌∷◌, Permᴰ}
use mathlib.Core.Logic.{inl, inr}
use sherlock.Prelude.Tests.{if◌then◌else◌, Bool-cases}
use sherlock.Prelude.Lists.{All, All-imp, All-perm, All-take, All-drop, take, drop}

-- `less` is taken as a test on keys: no later element is less than an earlier one.
abbrev pub IsSorted : {A : Type 0} → (A → A → Bool) → List A → Type 0
IsSorted less [] = Unit
IsSorted less (x ∷ xs) = All (λ y. less y x ≡ false) xs × IsSorted less xs

-- What `sort.Slice` asks of its comparison.
pub record IsWeakOrder {A : Type 0} (less : A → A → Bool) : Type 0 where
  pub asymm : (x y : A) → less x y ≡ true → less y x ≡ false
  pub trans : (x y z : A) → less y x ≡ false → less z y ≡ false → less z x ≡ false

pub record SortSlice (A : Type 0) (less : A → A → Bool) : Type 0 where
  pub sort : List A → List A
  pub sort-perm : (xs : List A) → Permᴰ xs (sort xs)
  pub sort-IsSorted : (xs : List A) → IsSorted less (sort xs)

module _ {A : Type 0} (less : A → A → Bool) where
  pub IsSorted-take : (n : ℕ) (xs : List A) → IsSorted less xs → IsSorted less (take n xs)
  IsSorted-take zero xs h = tt
  IsSorted-take (suc n) [] h = tt
  IsSorted-take (suc n) (x ∷ xs) h =
      (All-take (λ y. less y x ≡ false) n xs h.0, IsSorted-take n xs h.1)

  -- In a sorted list nothing that `take` drops is less than something that it keeps.
  pub IsSorted-take-drop :
      (n : ℕ) (xs : List A)
      → IsSorted less xs
      → All (λ kept. All (λ dropped. less dropped kept ≡ false) (drop n xs)) (take n xs)
  IsSorted-take-drop zero xs h = tt
  IsSorted-take-drop (suc n) [] h = tt
  IsSorted-take-drop (suc n) (x ∷ xs) h =
      (All-drop (λ y. less y x ≡ false) n xs h.0, IsSorted-take-drop n xs h.1)

  insert : A → List A → List A
  insert x [] = x ∷ []
  insert x (y ∷ ys) = let rest = insert x ys in if less y x then y ∷ rest else x ∷ y ∷ ys

  unfoldable pub insertion_sort : List A → List A
  unfolding insert
  insertion_sort [] = []
  insertion_sort (x ∷ xs) = insert x (insertion_sort xs)

  insert-perm : (x : A) (xs : List A) → Permᴰ (x ∷ xs) (insert x xs)
  unfolding insert
  insert-perm x [] = Permᴰ.refl (x ∷ [])
  insert-perm x (y ∷ ys) = elim (Bool-cases (less y x)) [
    | inl e ↦ rw e (Permᴰ.trans (Permᴰ.swap refl refl) (Permᴰ.cons refl (insert-perm x ys)))
    | inr e ↦ rw e (Permᴰ.refl (x ∷ y ∷ ys))
  ]

  pub insertion_sort-perm : (xs : List A) → Permᴰ xs (insertion_sort xs)
  unfolding insertion_sort
  insertion_sort-perm [] = Permᴰ.nil
  insertion_sort-perm (x ∷ xs) =
      Permᴰ.trans (Permᴰ.cons refl (insertion_sort-perm xs)) (insert-perm x (insertion_sort xs))

  module _ (w : IsWeakOrder less) where
    insert-IsSorted : (x : A) (xs : List A) → IsSorted less xs → IsSorted less (insert x xs)
    unfolding insert
    insert-IsSorted x [] h = (tt, tt)
    insert-IsSorted x (y ∷ ys) h = elim (Bool-cases (less y x)) [
      | inl e ↦ rw e (
        All-perm (λ z. less z y ≡ false) (insert-perm x ys) (w.asymm y x e, h.0),
        insert-IsSorted x ys h.1,
      )
      | inr e ↦ rw e (
        (
          e,
          All-imp (λ z. less z y ≡ false) (λ z. less z x ≡ false) ys (λ z k. w.trans x y z e k) h.0,
        ),
        h,
      )
    ]

    pub insertion_sort-IsSorted : (xs : List A) → IsSorted less (insertion_sort xs)
    unfolding insertion_sort
    insertion_sort-IsSorted [] = tt
    insertion_sort-IsSorted (x ∷ xs) =
        insert-IsSorted x (insertion_sort xs) (insertion_sort-IsSorted xs)

    abbrev pub sort_slice : SortSlice A less
    sort_slice = record {
      sort = insertion_sort;
      sort-perm = insertion_sort-perm;
      sort-IsSorted = insertion_sort-IsSorted;
    }
