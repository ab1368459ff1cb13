-- ===== src/Map/Sort.antt =====
-- `entries.sort_unstable_by_key(|e| e.offset)` of src/map.rs, as insertion by offset. The source's
-- sort may exchange entries of equal offset; those are refused as overlapping afterwards.
use aff4tools.Prelude.{
  ℕ, ◌≤◌, ◌<◌, ◌≡◌, refl, List, [], ◌∷◌, ◌++◌, arith, leb, if◌then◌else◌, All, Bool-cases, inl, inr,
}
use aff4tools.Map.{MapEntry}

unfoldable pub insert : MapEntry → List MapEntry → List MapEntry
insert e [] = e ∷ []
insert e (x ∷ xs) = let rest = insert e xs in if leb e.offset x.offset then e ∷ x ∷ xs else x ∷ rest

unfoldable pub sort_by_offset : List MapEntry → List MapEntry
unfolding insert
sort_by_offset [] = []
sort_by_offset (x ∷ xs) = insert x (sort_by_offset xs)

-- Every entry begins at `n` or later.
abbrev pub From : ℕ → List MapEntry → Type 0
From n = All (λ (e : MapEntry). n ≤ e.offset)

pub From-weaken : (m n : ℕ) (xs : List MapEntry) → m ≤ n → From n xs → From m xs
From-weaken m n [] h all = tt
From-weaken m n (x ∷ xs) h all = (omega arith, From-weaken m n xs h all.1)

pub insert-From :
    (n : ℕ) (e : MapEntry) (xs : List MapEntry) → n ≤ e.offset → From n xs → From n (insert e xs)
unfolding insert
insert-From n e [] h all = (h, tt)
insert-From n e (x ∷ xs) h all = ground (arith, insert-From n e xs)

pub sort_by_offset-From : (n : ℕ) (xs : List MapEntry) → From n xs → From n (sort_by_offset xs)
unfolding sort_by_offset
sort_by_offset-From n [] all = tt
sort_by_offset-From n (x ∷ xs) all =
    insert-From n x (sort_by_offset xs) all.0 (sort_by_offset-From n xs all.1)

-- An entry that begins before all others is sorted to the front.
pub insert_least : (e : MapEntry) (xs : List MapEntry) → From e.offset xs → insert e xs ≡ e ∷ xs
unfolding insert
insert_least e [] h = refl
insert_least e (x ∷ xs) h = ground arith

insert_later :
    (x g : MapEntry) (xs : List MapEntry)
    → g.offset < x.offset
    → insert x (g ∷ xs) ≡ g ∷ insert x xs
unfolding insert
insert_later x g xs h = ground arith

pub sort_by_offset_least :
    (g : MapEntry) (n : ℕ) (xs ys : List MapEntry)
    → g.offset < n
    → From n xs
    → From n ys
    → sort_by_offset (xs ++ g ∷ ys) ≡ g ∷ sort_by_offset (xs ++ ys)
unfolding sort_by_offset
sort_by_offset_least g n [] ys h fx fy =
    insert_least g (sort_by_offset ys)
      (sort_by_offset-From g.offset ys (From-weaken g.offset n ys (omega arith) fy))
sort_by_offset_least g n (x ∷ xs) ys h fx fy =
    rw (sort_by_offset_least g n xs ys h fx.1 fy)
      (insert_later x g (sort_by_offset (xs ++ ys)) (omega arith))

-- Every entry begins before `n`.
abbrev pub Before : ℕ → List MapEntry → Type 0
Before n = All (λ (e : MapEntry). e.offset < n)

pub Before-append :
    (n : ℕ) (xs ys : List MapEntry) → Before n xs → Before n ys → Before n (xs ++ ys)
Before-append n [] ys hx hy = hy
Before-append n (x ∷ xs) ys hx hy = (hx.0, Before-append n xs ys hx.1 hy)

insert_before_last :
    (e t : MapEntry) (xs : List MapEntry)
    → e.offset < t.offset
    → insert e (xs ++ t ∷ []) ≡ insert e xs ++ t ∷ []
unfolding insert
insert_before_last e t [] h = ground arith
insert_before_last e t (x ∷ xs) h = ground (arith, insert_before_last e t xs h)

-- An entry that begins behind all others is sorted to the end.
pub sort_by_offset_last :
    (t : MapEntry) (xs : List MapEntry)
    → Before t.offset xs
    → sort_by_offset (xs ++ t ∷ []) ≡ sort_by_offset xs ++ t ∷ []
unfolding sort_by_offset insert
sort_by_offset_last t [] h = refl
sort_by_offset_last t (x ∷ xs) h =
    rw (sort_by_offset_last t xs h.1) (insert_before_last x t (sort_by_offset xs) h.0)

-- A property of every entry is kept by the sort.
module _ (P : MapEntry → Type 0) where
  pub insert-All : (e : MapEntry) (xs : List MapEntry) → P e → All P xs → All P (insert e xs)
  unfolding insert
  insert-All e [] p all = (p, tt)
  insert-All e (x ∷ xs) p all = elim (Bool-cases (leb e.offset x.offset)) [
    | inl h ↦ rw h (p, all)
    | inr h ↦ rw h (all.0, insert-All e xs p all.1)
  ]

  pub sort_by_offset-All : (xs : List MapEntry) → All P xs → All P (sort_by_offset xs)
  unfolding sort_by_offset
  sort_by_offset-All [] all = tt
  sort_by_offset-All (x ∷ xs) all =
      insert-All x (sort_by_offset xs) all.0 (sort_by_offset-All xs all.1)

  pub All-append : (xs ys : List MapEntry) → All P xs → All P ys → All P (xs ++ ys)
  All-append [] ys hx hy = hy
  All-append (x ∷ xs) ys hx hy = (hx.0, All-append xs ys hx.1 hy)
