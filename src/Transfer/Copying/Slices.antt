-- ===== src/Transfer/Copying/Slices.antt =====
-- The batches of a page.
use mathlib.Core.List.{flatten}
use re_infra.Base.{
  ℕ, zero, suc, ◌+◌, ◌≤◌, ◌≡◌, refl, ap, ◌∙◌, List, [], ◌∷◌, ◌++◌, All, arith, length,
  length-append, sym,
}
use re_infra.Transfer.Copying.{batch_size, take, drop, slices}

module _ {A : Type 0} where
  take-append-drop : (n : ℕ) (xs : List A) → take n xs ++ drop n xs ≡ xs
  take-append-drop zero xs = refl
  take-append-drop (suc n) [] = refl
  take-append-drop (suc n) (x ∷ xs) = ap (λ more. x ∷ more) (take-append-drop n xs)

  length-take : (n : ℕ) (xs : List A) → length (take n xs) ≤ n
  length-take zero xs = omega arith
  length-take (suc n) [] = omega arith
  length-take (suc n) (x ∷ xs) = omega (arith, length-take n xs)

  length-drop : (n : ℕ) (xs : List A) → length (drop n xs) ≤ length xs
  length-drop zero xs = omega arith
  length-drop (suc n) [] = omega arith
  length-drop (suc n) (x ∷ xs) = omega (arith, length-drop n xs)

  flatten-slices : (rounds : ℕ) (xs : List A) → length xs ≤ rounds → flatten (slices rounds xs) ≡ xs
  unfolding slices flatten
  flatten-slices rounds [] h = refl
  flatten-slices zero (x ∷ xs) h = let none : ⊥ = omega (arith, h) in absurd none
  flatten-slices (suc rounds) (x ∷ xs) h =
      let shorter = length-drop 24 xs in
      ap (λ more. take batch_size (x ∷ xs) ++ more)
        (flatten-slices rounds (drop batch_size (x ∷ xs)) (omega (arith, shorter, h)))
      ∙ take-append-drop batch_size (x ∷ xs)

  slices-small :
      (rounds : ℕ) (xs : List A) → All (λ (batch : List A). length batch ≤ 25) (slices rounds xs)
  unfolding slices
  slices-small rounds [] = tt
  slices-small zero (x ∷ xs) = tt
  slices-small (suc rounds) (x ∷ xs) =
      (length-take batch_size (x ∷ xs), slices-small rounds (drop batch_size (x ∷ xs)))

  abbrev pub lengths : List (List A) → ℕ
  lengths [] = 0
  lengths (xs ∷ xss) = length xs + lengths xss

  length-flatten : (xss : List (List A)) → length (flatten xss) ≡ lengths xss
  unfolding flatten
  length-flatten [] = refl
  length-flatten (xs ∷ xss) = omega (arith, length-append xs (flatten xss), length-flatten xss)

  -- The batches of a page hold every item of it.
  pub lengths-slices : (xs : List A) → lengths (slices (length xs) xs) ≡ length xs
  lengths-slices xs =
      sym (length-flatten (slices (length xs) xs))
      ∙ ap length (flatten-slices (length xs) xs (omega arith))

  -- A page is cut into batches of at most 25 items that hold its items, in their order.
  pub slices-cut :
      (xs : List A)
      → (flatten (slices (length xs) xs) ≡ xs)
        × All (λ (batch : List A). length batch ≤ 25) (slices (length xs) xs)
  slices-cut xs = (flatten-slices (length xs) xs (omega arith), slices-small (length xs) xs)
