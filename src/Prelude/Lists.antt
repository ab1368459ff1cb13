-- ===== src/Prelude/Lists.antt =====
-- Lists measured and indexed by native numbers, under the library's names, and the slices of a
-- byte function.
use Prim.Native.Nat.{ℕ, zero, suc, ◌+◌, ◌-◌, ◌≤◌, ◌<◌, min}
use mathlib.Core.Path.{◌≡◌, refl, sym, ap, ◌∙◌}
use mathlib.Core.List.{List, [], ◌∷◌, ◌++◌, append_assoc}
use mathlib.Core.Option.{Option, none, some}
use native.Mathlib.Omega.{arith}

module _ {ℓ} {A : Type ℓ} where
  abbrev pub length : List A → ℕ
  length [] = 0
  length (x ∷ xs) = suc (length xs)

  abbrev pub get_elem? : List A → ℕ → Option A
  get_elem? [] i = none
  get_elem? (x ∷ xs) zero = some x
  get_elem? (x ∷ xs) (suc i) = get_elem? xs i

  abbrev pub take : ℕ → List A → List A
  take zero xs = []
  take (suc n) [] = []
  take (suc n) (x ∷ xs) = x ∷ take n xs

  abbrev pub drop : ℕ → List A → List A
  drop zero xs = xs
  drop (suc n) [] = []
  drop (suc n) (x ∷ xs) = drop n xs

  abbrev pub replicate : ℕ → A → List A
  replicate zero a = []
  replicate (suc n) a = a ∷ replicate n a

  pub length-append : (xs ys : List A) → length (xs ++ ys) ≡ length xs + length ys
  length-append [] ys = omega arith
  length-append (x ∷ xs) ys = omega (arith, length-append xs ys)

  pub length-take : (n : ℕ) (xs : List A) → length (take n xs) ≡ min n (length xs)
  length-take zero xs = omega arith
  length-take (suc n) [] = omega arith
  length-take (suc n) (x ∷ xs) = omega (arith, length-take n xs)

  pub length-drop : (n : ℕ) (xs : List A) → length (drop n xs) ≡ length xs - n
  length-drop zero xs = omega arith
  length-drop (suc n) [] = omega arith
  length-drop (suc n) (x ∷ xs) = omega (arith, length-drop n xs)

  pub length-replicate : (n : ℕ) (a : A) → length (replicate n a) ≡ n
  length-replicate zero a = refl
  length-replicate (suc n) a = ap suc (length-replicate n a)

  pub drop-drop : (m n k : ℕ) (xs : List A) → m + n ≡ k → drop n (drop m xs) ≡ drop k xs
  drop-drop zero n k xs h = let e : n ≡ k = omega arith in cc
  drop-drop (suc m) n zero xs h = absurd (omega arith)
  drop-drop (suc m) zero (suc k) [] h = refl
  drop-drop (suc m) (suc n) (suc k) [] h = refl
  drop-drop (suc m) n (suc k) (x ∷ xs) h = drop-drop m n k xs (omega arith)

  pub take-append-drop : (n : ℕ) (xs : List A) → take n xs ++ drop n xs ≡ xs
  take-append-drop zero xs = refl
  take-append-drop (suc n) [] = refl
  take-append-drop (suc n) (x ∷ xs) = rw (take-append-drop n xs)

  pub take_all : (n : ℕ) (xs : List A) → length xs ≤ n → take n xs ≡ xs
  take_all zero [] h = refl
  take_all zero (x ∷ xs) h = absurd (omega arith)
  take_all (suc n) [] h = refl
  take_all (suc n) (x ∷ xs) h = ap (λ t. x ∷ t) (take_all n xs (omega arith))

  pub take-append : (xs ys : List A) → take (length xs) (xs ++ ys) ≡ xs
  take-append [] ys = refl
  take-append (x ∷ xs) ys = ap (λ t. x ∷ t) (take-append xs ys)

  pub drop-append : (xs ys : List A) → drop (length xs) (xs ++ ys) ≡ ys
  drop-append [] ys = refl
  drop-append (x ∷ xs) ys = drop-append xs ys

  abbrev pub All {κ} : (A → Type κ) → List A → Type κ
  All P [] = Unit {κ}
  All P (x ∷ xs) = P x × All P xs

  -- `f start, f (start + 1), …`, `n` elements.
  abbrev pub slice_of : (ℕ → A) → ℕ → ℕ → List A
  slice_of f start zero = []
  slice_of f start (suc n) = f start ∷ slice_of f (suc start) n

  pub length-slice_of : (f : ℕ → A) (start n : ℕ) → length (slice_of f start n) ≡ n
  length-slice_of f start zero = refl
  length-slice_of f start (suc n) = ap suc (length-slice_of f (suc start) n)

  pub slice_of-add :
      (f : ℕ → A) (start n m j k : ℕ)
      → start + n ≡ j
      → n + m ≡ k
      → slice_of f start k ≡ slice_of f start n ++ slice_of f j m
  slice_of-add f start zero m j k p q =
      let p' : start ≡ j = omega arith in let q' : k ≡ m = omega arith in cc
  slice_of-add f start (suc n) m j zero p q = absurd (omega arith)
  slice_of-add f start (suc n) m j (suc k) p q =
      ap (λ t. f start ∷ t) (slice_of-add f (suc start) n m j k (omega arith) (omega arith))

  pub take-slice_of :
      (f : ℕ → A) (start n k : ℕ) → k ≤ n → take k (slice_of f start n) ≡ slice_of f start k
  take-slice_of f start n zero h = refl
  take-slice_of f start zero (suc k) h = absurd (omega arith)
  take-slice_of f start (suc n) (suc k) h =
      ap (λ t. f start ∷ t) (take-slice_of f (suc start) n k (omega arith))

  pub drop-slice_of :
      (f : ℕ → A) (start n k j m : ℕ)
      → k + m ≡ n
      → start + k ≡ j
      → drop k (slice_of f start n) ≡ slice_of f j m
  drop-slice_of f start n zero j m p q =
      let p' : n ≡ m = omega arith in let q' : start ≡ j = omega arith in cc
  drop-slice_of f start zero (suc k) j m p q = absurd (omega arith)
  drop-slice_of f start (suc n) (suc k) j m p q =
      drop-slice_of f (suc start) n k j m (omega arith) (omega arith)

  pub get_elem?-some : (xs : List A) (i : ℕ) → i < length xs → (x : A) × (get_elem? xs i ≡ some x)
  get_elem?-some [] i h = elim h [ ]
  get_elem?-some (x ∷ xs) zero h = (x, refl)
  get_elem?-some (x ∷ xs) (suc i) h = get_elem?-some xs i (omega arith)

  pub get_elem?-append_old :
      (xs ys : List A) (i : ℕ) (a : A) → get_elem? xs i ≡ some a → get_elem? (xs ++ ys) i ≡ some a
  get_elem?-append_old [] ys i a h = cc
  get_elem?-append_old (x ∷ xs) ys zero a h = h
  get_elem?-append_old (x ∷ xs) ys (suc i) a h = get_elem?-append_old xs ys i a h

  pub get_elem?-append_new : (xs : List A) (a : A) → get_elem? (xs ++ (a ∷ [])) (length xs) ≡ some a
  get_elem?-append_new [] a = refl
  get_elem?-append_new (x ∷ xs) a = get_elem?-append_new xs a

  pub get_elem?-none : (xs : List A) (i : ℕ) → length xs ≤ i → get_elem? xs i ≡ none
  get_elem?-none [] i h = refl
  get_elem?-none (x ∷ xs) zero h = absurd (omega arith)
  get_elem?-none (x ∷ xs) (suc i) h = get_elem?-none xs i (omega arith)

  abbrev pub get_or : List A → ℕ → A → A
  get_or [] i d = d
  get_or (x ∷ xs) zero d = x
  get_or (x ∷ xs) (suc i) d = get_or xs i d

  abbrev pub flatten : List (List A) → List A
  flatten [] = []
  flatten (xs ∷ xss) = xs ++ flatten xss

  -- Functions that agree on a range have the same slice there.
  pub slice_of_ext :
      (f g : ℕ → A) (start start' n : ℕ)
      → ((i : ℕ) → i < n → f (start + i) ≡ g (start' + i))
      → slice_of f start n ≡ slice_of g start' n
  slice_of_ext f g start start' zero h = refl
  slice_of_ext f g start start' (suc n) h =
      let a0 : start ≡ start + 0 = omega arith in
      let b0 : start' ≡ start' + 0 = omega arith in
      let head : f start ≡ g start' = ap f a0 ∙ h 0 (omega arith) ∙ ap g (sym b0) in
      let tail = slice_of_ext f g (suc start) (suc start') n (λ i lt.
        let a : suc start + i ≡ start + suc i = omega arith in
        let b : suc start' + i ≡ start' + suc i = omega arith in
        ap f a ∙ h (suc i) (omega arith) ∙ ap g (sym b)) in
      cc

  pub slice_of_const : (a : A) (start n : ℕ) → slice_of (λ _. a) start n ≡ replicate n a
  slice_of_const a start zero = refl
  slice_of_const a start (suc n) = ap (λ t. a ∷ t) (slice_of_const a (suc start) n)

  pub flatten-append : (xss yss : List (List A)) → flatten (xss ++ yss) ≡ flatten xss ++ flatten yss
  flatten-append [] yss = refl
  flatten-append (xs ∷ xss) yss =
      ap (λ t. xs ++ t) (flatten-append xss yss) ∙ sym (append_assoc xs (flatten xss) (flatten yss))

module _ {ℓ κ} {A : Type ℓ} (P : A → Type κ) where
  pub append-All : (xs ys : List A) → All P xs → All P ys → All P (xs ++ ys)
  append-All [] ys hx hy = hy
  append-All (x ∷ xs) ys hx hy = (hx.0, append-All xs ys hx.1 hy)
