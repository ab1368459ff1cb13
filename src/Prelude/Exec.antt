-- ===== src/Prelude/Exec.antt =====
-- Fallible code that mutates state: what was written before an error stays written, so the state
-- comes back beside the error too.
use Prim.Native.Nat.{ℕ}
use mathlib.Core.Path.{◌≡◌, refl}
use mathlib.Core.List.{List, [], ◌∷◌, ◌++◌}
use aff4tools.Prelude.Results.{Result, ok, err}

module _ (E : Type 0) where
  abbrev pub Exec : Type 0 → Type 0 → Type 0
  Exec S A = S → Result E A × S

module _ {E S A B : Type 0} where
  abbrev pub continue : Result E A → (A → Exec E S B) → Exec E S B
  continue (ok a) f s = f a s
  continue (err e) f s = (err e, s)

  infixl 10 ◌>>=◌ ◌>>◌
  abbrev pub ◌>>=◌ : Exec E S A → (A → Exec E S B) → Exec E S B
  ◌>>=◌ m f s = let r = m s in continue r.0 f r.1

  abbrev pub ◌>>◌ : Exec E S A → Exec E S B → Exec E S B
  m >> n = m >>= λ _. n

module _ {E S A : Type 0} where
  abbrev pub pure : A → Exec E S A
  pure a s = (ok a, s)

  abbrev pub raise : E → Exec E S A
  raise e s = (err e, s)

-- `e?` on a value that is at hand.
module _ {E S A : Type 0} where
  abbrev pub lift : Result E A → Exec E S A
  lift r s = (r, s)

-- An action on the second of two states.
module _ {E R S A : Type 0} where
  abbrev pub on_second : Exec E S A → Exec E (R × S) A
  on_second m s = let r = m s.1 in (r.0, (s.0, r.1))

-- A sink takes the pieces of an image one after the other.
abbrev pub Sink : Type 0 → Type 0 → Type 0
Sink E S = List ℕ → Exec E S (Unit {0})

module _ {E S : Type 0} where
  unfoldable pub feed : Sink E S → List (List ℕ) → Exec E S (Unit {0})
  feed sink [] = pure tt
  feed sink (p ∷ ps) = sink p >>= λ _. feed sink ps

  -- Two runs of pieces, one after the other, are one run.
  pub feed-append :
      (sink : Sink E S) (ps qs : List (List ℕ)) (s : S)
      → feed sink (ps ++ qs) s ≡ (feed sink ps >>= λ _. feed sink qs) s
  unfolding feed
  feed-append sink [] qs s = refl
  feed-append sink (p ∷ ps) qs s = go (feed-append sink ps qs) (sink p s)
    where
      go :
          ((s' : S) → feed sink (ps ++ qs) s' ≡ (feed sink ps >>= λ _. feed sink qs) s')
          → (r : Result E (Unit {0}) × S)
          → continue r.0 (λ _. feed sink (ps ++ qs)) r.1
            ≡ (let q = continue r.0 (λ _. feed sink ps) r.1 in continue q.0 (λ _. feed sink qs) q.1)
      go ih (ok u, s') = ih s'
      go ih (err e, s') = refl

module _ {E S A B : Type 0} where
  continued :
      (f : A → Exec E S B) (r : Result E A × S) (b : B) (s' : S)
      → continue r.0 f r.1 ≡ (ok b, s')
      → (a : A) × (s1 : S) × (r ≡ (ok a, s1)) × (f a s1 ≡ (ok b, s'))
  continued f (ok a, s1) b s' h = (a, s1, refl, h)
  continued f (err e, s1) b s' h = cc

  -- Inversion of a bind that succeeds.
  pub bind-eq-ok :
      (m : Exec E S A) (f : A → Exec E S B) (s : S) (b : B) (s' : S)
      → (m >>= f) s ≡ (ok b, s')
      → (a : A) × (s1 : S) × (m s ≡ (ok a, s1)) × (f a s1 ≡ (ok b, s'))
  bind-eq-ok m f s b s' h = continued f (m s) b s' h

-- From every state with `P` the action ends in one, and its answer with that state has `Q`.
module _ {E S : Type 0} where
  abbrev pub Keeps : {A : Type 0} → (S → Type 0) → Exec E S A → (Result E A × S → Type 0) → Type 0
  Keeps P m Q = (s : S) → P s → P (m s).1 × Q (m s)

module _ {E S A B : Type 0} (P : S → Type 0) (Q : Result E A × S → Type 0)
    (R : Result E B × S → Type 0) (f : A → Exec E S B) where
  bound :
      (r : Result E A × S)
      → ((a : A) (s : S) → P s → Q (ok a, s) → P (f a s).1 × R (f a s))
      → ((e : E) (s : S) → Q (err e, s) → R (err e, s))
      → P r.1 × Q r
      → P (continue r.0 f r.1).1 × R (continue r.0 f r.1)
  bound (ok a, s) good bad h = good a s h.0 h.1
  bound (err e, s) good bad h = (h.0, bad e s h.1)

  -- The rule for a bind.
  pub Keeps->>= :
      (m : Exec E S A)
      → Keeps P m Q
      → ((a : A) (s : S) → P s → Q (ok a, s) → P (f a s).1 × R (f a s))
      → ((e : E) (s : S) → Q (err e, s) → R (err e, s))
      → Keeps P (m >>= f) R
  Keeps->>= m first good bad s h = bound (m s) good bad (first s h)
