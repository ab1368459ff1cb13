-- ===== src/Stream/Reader/Caches.antt =====
-- aff4tools: src/stream.rs, the caches of `ChunkReader` as lists: look-up, insertion and eviction
-- keep what holds of every entry.
use aff4tools.Prelude.{
  ℕ, ◌≡◌, refl, sym, ap, ◌∙◌, inl, inr, some, List, [], ◌∷◌, ◌++◌, arith, ◌==◌, ==_iff, All,
  Bool-cases,
}
use aff4tools.Stream.Reader.{Bevy, get, insert, find_bevy, without_bevy, make_room}

module _ {A : Type 0} (P : ℕ × A → Type 0) where
  pub All-get :
      (key : ℕ) (entries : List (ℕ × A)) (a : A)
      → All P entries
      → get key entries ≡ some a
      → P (key, a)
  unfolding get
  All-get key [] a all h = cc
  All-get key ((k, b) ∷ entries) a all h = elim (Bool-cases (k == key)) [
    | inl here ↦
        let same : k ≡ key = (==_iff k key).0 here in
        let value : some b ≡ some a = rw here at h in let e : b ≡ a = cc in rw (← same, ← e) all.0
    | inr later ↦ All-get key entries a all.1 (rw later at h)
  ]

  pub All-insert :
      (key : ℕ) (a : A) (entries : List (ℕ × A))
      → All P entries
      → P (key, a)
      → All P (insert key a entries)
  unfolding insert
  All-insert key a [] all h = (h, tt)
  All-insert key a ((k, b) ∷ entries) all h = elim (Bool-cases (k == key)) [
    | inl here ↦ let same : k ≡ key = (==_iff k key).0 here in rw here (rw same h, all.1)
    | inr later ↦ rw later (all.0, All-insert key a entries all.1 h)
  ]

module _ (P : Bevy → Type 0) where
  pub All-find_bevy :
      (i : ℕ) (bs : List Bevy) (b : Bevy) → All P bs → find_bevy i bs ≡ some b → P b × (b.index ≡ i)
  unfolding find_bevy
  All-find_bevy i [] b all h = cc
  All-find_bevy i (x ∷ bs) b all h = elim (Bool-cases (x.index == i)) [
    | inl here ↦
        let value : some x ≡ some b = rw here at h in
        let e : x ≡ b = cc in rw (← e) (all.0, (==_iff x.index i).0 here)
    | inr later ↦ All-find_bevy i bs b all.1 (rw later at h)
  ]

  pub All-without_bevy : (i : ℕ) (bs : List Bevy) → All P bs → All P (without_bevy i bs)
  unfolding without_bevy
  All-without_bevy i [] all = tt
  All-without_bevy i (x ∷ bs) all = elim (Bool-cases (x.index == i)) [
    | inl here ↦ rw here all.1
    | inr later ↦ rw later (all.0, All-without_bevy i bs all.1)
  ]

  pub All-make_room : (incoming : ℕ) (bs : List Bevy) → All P bs → All P (make_room incoming bs)
  unfolding make_room
  All-make_room incoming [] all = tt
  All-make_room incoming (x ∷ bs) all = ground (arith, All-make_room incoming bs all.1)

-- The newest bevy is found.
pub find_bevy-append :
    (bs : List Bevy) (b : Bevy) → (c : Bevy) × (find_bevy b.index (bs ++ (b ∷ [])) ≡ some c)
unfolding find_bevy
find_bevy-append [] b = (b, ground arith)
find_bevy-append (x ∷ bs) b = elim (Bool-cases (x.index == b.index)) [
  | inl here ↦ (x, rw here refl)
  | inr later ↦ let (c, h) = find_bevy-append bs b in (c, rw later h)
]

pub find_bevy-append_at :
    (i : ℕ) (bs : List Bevy) (b : Bevy)
    → b.index ≡ i
    → (c : Bevy) × (find_bevy i (bs ++ (b ∷ [])) ≡ some c)
find_bevy-append_at i bs b at =
    let (c, h) = find_bevy-append bs b in (c, ap (λ k. find_bevy k (bs ++ (b ∷ []))) (sym at) ∙ h)
