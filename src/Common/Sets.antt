-- ===== src/Common/Sets.antt =====
-- Rust's `HashSet` where only membership and size are read: a list without repetitions.
use Prim.Native.Nat.{◌+◌, ◌≤◌}
use mathlib.Core.Path.{◌≡◌, refl, sym}
use mathlib.Core.Logic.{◌≢◌, ◌↔◌, inl, inr}
use mathlib.Core.Bool.{Bool, true, false, ◌||◌}
use mathlib.Core.List.{List, [], ◌∷◌}
use native.Mathlib.Omega.{arith}
use lab_inventory.Common.Tests.{if◌then◌else◌, Bool-cases}
use lab_inventory.Common.Lists.{length, All}

module _ {ℓ} {A : Type ℓ} where
  -- No value stands at two places of the list.
  abbrev pub AllDistinct : List A → Type ℓ
  AllDistinct [] = Unit
  AllDistinct (x ∷ xs) = All (λ y. y ≢ x) xs × AllDistinct xs

module _ {ℓ} {A : Type ℓ} where
  pub All-≢_symm : (x : A) (xs : List A) → All (λ y. x ≢ y) xs → All (λ y. y ≢ x) xs
  All-≢_symm x [] h = tt
  All-≢_symm x (y ∷ ys) h = ((λ e. h.0 (sym e)), All-≢_symm x ys h.1)

or-eq-false : (a b : Bool) → ((a || b) ≡ false) ↔ ((a ≡ false) × (b ≡ false))
or-eq-false true b = ((λ h. cc), λ h. h.0)
or-eq-false false b = ((λ h. (refl, h)), λ h. h.1)

module _ {ℓ} {A : Type ℓ} where
  pub nothing_seen : (xs : List A) → All (λ x. All (λ y. x ≢ y) []) xs
  nothing_seen [] = tt
  nothing_seen (x ∷ xs) = (tt, nothing_seen xs)

module _ {ℓ κ μ} {A : Type ℓ} (P : A → Type κ) (Q : A → Type μ) where
  All-zip : (xs : List A) → All P xs → All Q xs → All (λ x. P x × Q x) xs
  All-zip [] h k = tt
  All-zip (x ∷ xs) h k = ((h.0, k.0), All-zip xs h.1 k.1)

  All-unzip : (xs : List A) → All (λ x. P x × Q x) xs → All P xs × All Q xs
  All-unzip [] h = (tt, tt)
  All-unzip (x ∷ xs) h = let rest = All-unzip xs h.1 in ((h.0.0, rest.0), (h.0.1, rest.1))

module _ {ℓ} {A : Type ℓ} (same : A → A → Bool) where
  unfoldable pub contains : A → List A → Bool
  contains x [] = false
  contains x (y ∷ ys) = same x y || contains x ys

  -- `values.iter().any(|value| !seen.insert(value))`
  unfoldable pub has_duplicate : List A → List A → Bool
  unfolding contains
  has_duplicate seen [] = false
  has_duplicate seen (x ∷ xs) = contains x seen || has_duplicate (x ∷ seen) xs

  -- `values.iter().collect::<HashSet<_>>()`, into a set that has elements already.
  unfoldable pub collect_set : List A → List A → List A
  unfolding contains
  collect_set acc [] = acc
  collect_set acc (x ∷ xs) = collect_set (if contains x acc then acc else x ∷ acc) xs

module _ {ℓ} {A : Type ℓ} (same : A → A → Bool)
    (same_iff : (a b : A) → (same a b ≡ true) ↔ (a ≡ b)) where
  not_same : (a b : A) → (same a b ≡ false) ↔ (a ≢ b)
  not_same a b = (
    (λ f e. let t = (same_iff a b).1 e in cc),
    λ n. elim (Bool-cases (same a b)) [ inl t ↦ absurd (n ((same_iff a b).0 t)) | inr f ↦ f ],
  )

  pub contains-eq-false : (x : A) (ys : List A) → (contains same x ys ≡ false) ↔ All (λ y. x ≢ y) ys
  unfolding contains
  contains-eq-false x [] = ((λ h. tt), λ h. refl)
  contains-eq-false x (y ∷ ys) = (
    (λ h.
        let parts = (or-eq-false (same x y) (contains same x ys)).0 h in
        ((not_same x y).0 parts.0, (contains-eq-false x ys).0 parts.1)),
    λ h.
        (or-eq-false (same x y) (contains same x ys)).1
          ((not_same x y).1 h.0, (contains-eq-false x ys).1 h.1),
  )

  -- Nothing is found twice exactly when the values are distinct and none has been seen before.
  pub has_duplicate-eq-false :
      (seen xs : List A)
      → (has_duplicate same seen xs ≡ false)
        ↔ (AllDistinct xs × All (λ x. All (λ y. x ≢ y) seen) xs)
  unfolding has_duplicate
  has_duplicate-eq-false seen [] = ((λ h. (tt, tt)), λ h. refl)
  has_duplicate-eq-false seen (x ∷ xs) =
      let split = or-eq-false (contains same x seen) (has_duplicate same (x ∷ seen) xs) in
      let head = contains-eq-false x seen in
      let tail = has_duplicate-eq-false (x ∷ seen) xs in
      (
        (λ h.
            let parts = split.0 h in
            let rest = tail.0 parts.1 in
            let fresh = All-unzip (λ y. y ≢ x) (λ y. All (λ z. y ≢ z) seen) xs rest.1 in
            ((fresh.0, rest.0), (head.0 parts.0, fresh.1))),
        λ h. split.1 (
          head.1 h.1.0,
          tail.1 (h.0.1, All-zip (λ y. y ≢ x) (λ y. All (λ z. y ≢ z) seen) xs h.0.0 h.1.1),
        ),
      )

  length-collect_set-le :
      (acc xs : List A) → length (collect_set same acc xs) ≤ length acc + length xs
  unfolding collect_set
  length-collect_set-le acc [] = omega arith
  length-collect_set-le acc (x ∷ xs) = elim (Bool-cases (contains same x acc)) [
    | inl t ↦ rw t (omega (arith, length-collect_set-le acc xs))
    | inr f ↦ rw f (omega (arith, length-collect_set-le (x ∷ acc) xs))
  ]

  -- A set is as large as the list that it is collected from exactly when nothing was repeated.
  length-collect_set :
      (acc xs : List A)
      → (length (collect_set same acc xs) ≡ length acc + length xs)
        ↔ (has_duplicate same acc xs ≡ false)
  unfolding collect_set has_duplicate
  length-collect_set acc [] = ((λ h. refl), λ h. omega arith)
  length-collect_set acc (x ∷ xs) = elim (Bool-cases (contains same x acc)) [
    | inl t ↦ rw t ((λ h. absurd (omega (arith, length-collect_set-le acc xs))), λ h. cc)
    | inr f ↦ rw f (
      (λ h. (length-collect_set (x ∷ acc) xs).0 (omega arith)),
      λ h. omega (arith, (length-collect_set (x ∷ acc) xs).1 h),
    )
  ]

  -- Nothing is lost in a set exactly when the values are distinct.
  pub length-collect_set-eq :
      (xs : List A) → (length (collect_set same [] xs) ≡ length xs) ↔ AllDistinct xs
  length-collect_set-eq xs =
      let size = length-collect_set [] xs in
      let none_twice = has_duplicate-eq-false [] xs in
      (
        (λ h. (none_twice.0 (size.0 (omega (arith, h)))).0),
        λ h. omega (arith, size.1 (none_twice.1 (h, nothing_seen xs))),
      )
