-- ===== src/VolumeSet/Lookup.antt =====
-- aff4tools: src/zip_volume_set.rs, look-ups in the indexes of a set of volumes.
use aff4tools.Prelude.{
  ℕ, zero, suc, ◌≡◌, ◌≢◌, ◌⊎◌, refl, ap, inl, inr, true, false, none, some, List, [], ◌∷◌, ◌++◌,
  length, get_elem?, Bool-cases, Option-cases, eq_of_some,
}
use aff4tools.Text.{Text, text_eq, text_eq_iff}
use aff4tools.VolumeSet.{lookup, contains_key}

module _ {A : Type 0} where
  -- Looking a key up behind an entry.
  pub lookup_here :
      (key : Text) (a : A) (entries : List (Text × A)) → lookup key ((key, a) ∷ entries) ≡ some a
  unfolding lookup
  lookup_here key a entries = rw ((text_eq_iff key key).1 refl) refl

  pub lookup_later :
      (k key : Text) (a : A) (entries : List (Text × A))
      → k ≢ key
      → lookup key ((k, a) ∷ entries) ≡ lookup key entries
  unfolding lookup
  lookup_later k key a entries differs = elim (Bool-cases (text_eq k key)) [
    | inl same ↦ absurd (differs ((text_eq_iff k key).0 same))
    | inr other ↦ rw other refl
  ]

  -- An entry that is found is the newest or one behind it.
  pub lookup-cases :
      (k key : Text) (a b : A) (entries : List (Text × A))
      → lookup key ((k, a) ∷ entries) ≡ some b
      → ((k ≡ key) × (a ≡ b)) ⊎ (lookup key entries ≡ some b)
  unfolding lookup
  lookup-cases k key a b entries h = elim (Bool-cases (text_eq k key)) [
    | inl same ↦ inl ((text_eq_iff k key).0 same, eq_of_some (rw same at h))
    | inr other ↦ inr (rw other at h)
  ]

  pub contains_key-none :
      (key : Text) (entries : List (Text × A))
      → contains_key key entries ≡ false
      → lookup key entries ≡ none
  unfolding contains_key
  contains_key-none key entries h = elim (Option-cases (lookup key entries)) [
    | inl absent ↦ absent
    | inr (a, there) ↦ let clash : true ≡ false = rw (there, contains_key) at h in cc
  ]

  pub get_elem?-append-cases :
      (xs : List A) (a b : A) (i : ℕ)
      → get_elem? (xs ++ (a ∷ [])) i ≡ some b
      → (get_elem? xs i ≡ some b) ⊎ ((i ≡ length xs) × (a ≡ b))
  get_elem?-append-cases [] a b zero h = inr (refl, eq_of_some h)
  get_elem?-append-cases [] a b (suc i) h = cc
  get_elem?-append-cases (x ∷ xs) a b zero h = inl h
  get_elem?-append-cases (x ∷ xs) a b (suc i) h = elim (get_elem?-append-cases xs a b i h) [
    | inl old ↦ inl old
    | inr (at, e) ↦ inr (ap suc at, e)
  ]
