-- ===== src/Prelude/Lists.antt =====
-- Lists measured by native numbers, under the library's names.
use Prim.Native.Nat.{◌-◌, min, ℕ, zero, suc, ◌+◌, ◌≤◌}
use mathlib.Core.Path.{◌≡◌, refl}
use mathlib.Core.Logic.{inl, inr}
use mine_intelligence.Prelude.Tests.{Bool-cases, if◌then◌else◌, is_some}
use mathlib.Core.Bool.{Bool, true, false}
use mathlib.Core.Option.{Option, none, some}
use mathlib.Core.List.{List, [], ◌∷◌, ◌++◌}
use native.Mathlib.Omega.{arith}

module _ {ℓ} {A : Type ℓ} where
  abbrev pub length : List A → ℕ
  length [] = 0
  length (x ∷ xs) = suc (length xs)

  abbrev pub get_elem? : List A → ℕ → Option A
  get_elem? [] i = none
  get_elem? (x ∷ xs) zero = some x
  get_elem? (x ∷ xs) (suc i) = get_elem? xs i

  abbrev pub take : ℕ → List A → List A
  take zero xs = []
  take (suc n) [] = []
  take (suc n) (x ∷ xs) = x ∷ take n xs

  abbrev pub drop : ℕ → List A → List A
  drop zero xs = xs
  drop (suc n) [] = []
  drop (suc n) (x ∷ xs) = drop n xs

  -- A comprehension `[x for x in xs if p(x)]`.
  abbrev pub select : (A → Bool) → List A → List A
  select p [] = []
  select p (x ∷ xs) = let rest = select p xs in if p x then x ∷ rest else rest

  abbrev pub any : (A → Bool) → List A → Bool
  any p [] = false
  any p (x ∷ xs) = let rest = any p xs in if p x then true else rest

  -- `next((x for x in xs if p(x)), None)`
  abbrev pub find : (A → Bool) → List A → Option A
  find p [] = none
  find p (x ∷ xs) = let rest = find p xs in if p x then some x else rest

  abbrev pub All {κ} : (A → Type κ) → List A → Type κ
  All P [] = Unit {κ}
  All P (x ∷ xs) = P x × All P xs

module _ {ℓ} {A : Type ℓ} where
  pub length-append : (xs ys : List A) → length (xs ++ ys) ≡ length xs + length ys
  length-append [] ys = omega arith
  length-append (x ∷ xs) ys = omega (arith, length-append xs ys)

  pub length-select-le : (p : A → Bool) (xs : List A) → length (select p xs) ≤ length xs
  length-select-le p [] = omega arith
  length-select-le p (x ∷ xs) = ground (arith, length-select-le p xs)

  pub drop-append : (xs ys : List A) → drop (length xs) (xs ++ ys) ≡ ys
  drop-append [] ys = refl
  drop-append (x ∷ xs) ys = drop-append xs ys

  pub length-take : (n : ℕ) (xs : List A) → length (take n xs) ≡ min n (length xs)
  length-take zero xs = omega arith
  length-take (suc n) [] = omega arith
  length-take (suc n) (x ∷ xs) = omega (arith, length-take n xs)

module _ {ℓ} {A : Type ℓ} where
  pub All-take {κ} : (P : A → Type κ) (n : ℕ) (xs : List A) → All P xs → All P (take n xs)
  All-take P zero xs h = tt
  All-take P (suc n) [] h = tt
  All-take P (suc n) (x ∷ xs) h = (h.0, All-take P n xs h.1)

  pub All-select_self : (p : A → Bool) (xs : List A) → All (λ (x : A). p x ≡ true) (select p xs)
  All-select_self p [] = tt
  All-select_self p (x ∷ xs) = elim (Bool-cases (p x)) [
    | inl e ↦ rw e (e, All-select_self p xs)
    | inr e ↦ rw e (All-select_self p xs)
  ]

  abbrev pub is_empty : List A → Bool
  is_empty [] = true
  is_empty (x ∷ xs) = false

  pub length-drop : (n : ℕ) (xs : List A) → length (drop n xs) ≡ length xs - n
  length-drop zero xs = omega arith
  length-drop (suc n) [] = omega arith
  length-drop (suc n) (x ∷ xs) = omega (arith, length-drop n xs)

-- What a search finds, and whether it finds anything.
module _ {ℓ} {A : Type ℓ} (p : A → Bool) where
  pub holds-find : (xs : List A) (x : A) → find p xs ≡ some x → p x ≡ true
  holds-find [] x f = cc
  holds-find (y ∷ ys) x f = ground (arith, f, holds-find ys x)

  pub is_some-find : (xs : List A) → is_some (find p xs) ≡ any p xs
  is_some-find [] = refl
  is_some-find (x ∷ xs) = ground (arith, is_some-find xs)

  pub any-some : (xs : List A) (x : A) → find p xs ≡ some x → any p xs ≡ true
  any-some [] x f = cc
  any-some (y ∷ ys) x f = ground (arith, f, any-some ys x)

  pub any-none : (xs : List A) → find p xs ≡ none → any p xs ≡ false
  any-none [] f = refl
  any-none (x ∷ xs) f = ground (arith, f, any-none xs)

  pub find_of_any : (xs : List A) → any p xs ≡ false → find p xs ≡ none
  find_of_any [] h = refl
  find_of_any (x ∷ xs) h = ground (arith, find_of_any xs)

module _ {ℓ} {A : Type ℓ} where
  pub All-weaken {κ μ} :
      (P : A → Type κ) (Q : A → Type μ) (xs : List A) → ((x : A) → P x → Q x) → All P xs → All Q xs
  All-weaken P Q [] f a = tt
  All-weaken P Q (x ∷ xs) f a = (f x a.0, All-weaken P Q xs f a.1)

  pub All-any : (q : A → Bool) (xs : List A) → any q xs ≡ false → All (λ (x : A). q x ≡ false) xs
  All-any q [] h = tt
  All-any q (x ∷ xs) h = (ground (arith, h), All-any q xs (ground (arith, h)))

pub any-weaken {ℓ} :
    {A : Type ℓ} (p q : A → Bool) (xs : List A)
    → ((x : A) → p x ≡ true → q x ≡ true)
    → any q xs ≡ false
    → any p xs ≡ false
any-weaken p q [] f h = refl
any-weaken p q (x ∷ xs) f h = elim (Bool-cases (p x)) [
  | inl e ↦ absurd (ground (arith, e, f x e, h))
  | inr e ↦ ground (arith, e, any-weaken p q xs f, h)
]

-- The value of an option, if it has one, as a list.
abbrev pub from_option {ℓ} : {A : Type ℓ} → Option A → List A
from_option none = []
from_option (some x) = x ∷ []
