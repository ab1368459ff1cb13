-- ===== src/VolumeSet/Consistent.antt =====
-- aff4tools: src/zip_volume_set.rs, the indexes of a set of volumes agree with its volumes.
use aff4tools.Prelude.{
  get_elem?-append_old, get_elem?-append_new, ℕ, ◌≡◌, ◌⊎◌, refl, sym, ap, ◌∙◌, inl, inr, true,
  false, Option, none, some, List, [], ◌∷◌, ◌++◌, length, get_elem?, All, Bool-cases, Option-cases,
  eq_of_some,
}
use aff4tools.Prelude.Results.{Result, ok, ok-injective}
use aff4tools.Text.{Text}
use aff4tools.Arn.{Arn, parse}
use aff4tools.Arn.Member.{NameMapping}
use mathlib.Core.Option
use aff4tools.VolumeSet.{
  Member, ZipVolumeSet, position, lookup, contains_key, holds_stream_data, push, single,
  holder_index, member_at, holding_mut,
}
use aff4tools.VolumeSet.Lookup.{
  lookup_here, lookup_later, lookup-cases, contains_key-none, get_elem?-append-cases,
}

-- A name that the parser gives.
abbrev pub IsParsed : Arn → Type 0
IsParsed arn = parse arn.lexical ≡ ok arn

-- Its text determines it.
pub IsParsed-unique : (a b : Arn) → IsParsed a → IsParsed b → a.lexical ≡ b.lexical → a ≡ b
IsParsed-unique a b pa pb same =
    let h : ◌≡◌ {A = Result _ Arn} (ok a) (ok b) = sym pa ∙ ap parse same ∙ pb in ok-injective h

module _ {W : Type 0} (mapping : NameMapping) where
  abbrev lexical_of : Member W → Text
  lexical_of m = m.volume.arn.lexical

  -- An entry of the memo is the answer of a search.
  abbrev pub Remembers : ZipVolumeSet W → Text × Option ℕ → Type 0
  Remembers set entry =
      (stream : Arn) × IsParsed stream
      × (stream.lexical ≡ entry.0)
      × (entry.1 ≡ position (holds_stream_data stream mapping) set.members)

  -- The index by name finds every volume, and nothing else; the memo remembers what a search finds.
  pub record IsConsistent (set : ZipVolumeSet W) : Type 0 where
    pub finds :
        (i : ℕ) (m : Member W)
        → get_elem? set.members i ≡ some m
        → lookup m.volume.arn.lexical set.by_arn ≡ some i
    pub found :
        (key : Text) (i : ℕ)
        → lookup key set.by_arn ≡ some i
        → (m : Member W) × (get_elem? set.members i ≡ some m) × (m.volume.arn.lexical ≡ key)
    pub remembers : All (Remembers set) set.holder

  -- No two volumes of a consistent set have the same name.
  pub IsConsistent-distinct :
      (set : ZipVolumeSet W)
      → IsConsistent set
      → (i j : ℕ) (a b : Member W) → get_elem? set.members i ≡ some a
      → get_elem? set.members j ≡ some b
      → a.volume.arn.lexical ≡ b.volume.arn.lexical
      → i ≡ j
  IsConsistent-distinct set c i j a b at_i at_j same =
      let h : some i ≡ some j =
        sym (c.finds i a at_i) ∙ ap (λ key. lookup key set.by_arn) same ∙ c.finds j b at_j in
      eq_of_some h

  -- A set of no volumes is consistent.
  abbrev nothing : ZipVolumeSet W
  nothing = record { members = []; by_arn = []; holder = [] }

  nothing-IsConsistent : IsConsistent nothing
  unfolding lookup
  nothing-IsConsistent = record { finds = λ i m h. cc; found = λ key i h. cc; remembers = tt }

  pub push-IsConsistent :
      (m : Member W) (set : ZipVolumeSet W) → IsConsistent set → IsConsistent (push m set).1
  unfolding push
  push-IsConsistent m set c = elim (Bool-cases (contains_key m.volume.arn.lexical set.by_arn)) [
    | inl there ↦ rw there c
    | inr new ↦
        let absent = contains_key-none m.volume.arn.lexical set.by_arn new in
        rw new (record {
          finds = λ i a h. finds_with absent i a (get_elem?-append-cases set.members m a i h);
          found = λ key i h.
              found_with key i
                (lookup-cases m.volume.arn.lexical key (length set.members) i set.by_arn h);
          remembers = tt;
        })
  ]
    where
      finds_with :
          lookup m.volume.arn.lexical set.by_arn ≡ none
          → (i : ℕ) (a : Member W)
          → (get_elem? set.members i ≡ some a) ⊎ ((i ≡ length set.members) × (m ≡ a))
          → lookup a.volume.arn.lexical ((m.volume.arn.lexical, length set.members) ∷ set.by_arn)
            ≡ some i
      finds_with absent i a (inl old) =
          let indexed = c.finds i a old in
          lookup_later m.volume.arn.lexical a.volume.arn.lexical (length set.members) set.by_arn
            (λ same.
              let clash : none ≡ some i =
                sym absent ∙ ap (λ key. lookup key set.by_arn) same ∙ indexed in
              cc)
          ∙ indexed
      finds_with absent i a (inr (at, e)) =
          ap
            (λ (x : Member W).
              lookup x.volume.arn.lexical ((m.volume.arn.lexical, length set.members) ∷ set.by_arn))
            (sym e)
          ∙ lookup_here m.volume.arn.lexical (length set.members) set.by_arn
          ∙ ap some (sym at)

      found_with :
          (key : Text) (i : ℕ)
          → ((m.volume.arn.lexical ≡ key) × (length set.members ≡ i))
            ⊎ (lookup key set.by_arn ≡ some i)
          → (a : Member W) × (get_elem? (set.members ++ (m ∷ [])) i ≡ some a)
            × (a.volume.arn.lexical ≡ key)
      found_with key i (inl (same, at)) = (
        m,
        ap (λ k. get_elem? (set.members ++ (m ∷ [])) k) (sym at)
            ∙ get_elem?-append_new set.members m,
        same,
      )
      found_with key i (inr old) =
          let (a, there, same) = c.found key i old in
          (a, get_elem?-append_old set.members (m ∷ []) i a there, same)

  -- A volume of that name is in the set.
  abbrev pub Present : Member W → ZipVolumeSet W → Type 0
  Present m set =
      (i : ℕ) × (a : Member W) × (get_elem? set.members i ≡ some a)
      × (a.volume.arn.lexical ≡ m.volume.arn.lexical)

  -- `push` leaves a consistent set consistent, so that no two volumes have one name and every volume
  -- is found by its own. It refuses a volume just where one of that name is in the set, and then
  -- changes nothing; any other it adds behind the volumes that are there.
  pub push_outcome :
      (m : Member W) (set : ZipVolumeSet W)
      → IsConsistent set
      → (let r = push m set in
          IsConsistent r.1
          × (((r.0 ≡ true) × (r.1.members ≡ set.members ++ (m ∷ [])) × ¬ Present m set)
              ⊎ ((r.0 ≡ false) × (r.1 ≡ set) × Present m set)))
  unfolding push
  push_outcome m set c = (
    push-IsConsistent m set c,
    elim (Bool-cases (contains_key m.volume.arn.lexical set.by_arn)) [
      | inr new ↦
          let absent = contains_key-none m.volume.arn.lexical set.by_arn new in
          rw new (inl (refl, refl, λ there. not_present absent there))
      | inl old ↦ rw old (inr (refl, refl, present old))
    ],
  )
    where
      not_present : lookup m.volume.arn.lexical set.by_arn ≡ none → ¬ Present m set
      not_present absent (i, a, there, same) =
          let clash : none ≡ some i =
            sym absent ∙ ap (λ key. lookup key set.by_arn) (sym same) ∙ c.finds i a there in
          cc

      present : contains_key m.volume.arn.lexical set.by_arn ≡ true → Present m set
      present old = elim (Option-cases (lookup m.volume.arn.lexical set.by_arn)) [
        | inl absent ↦
            let clash : false ≡ true = unfold contains_key in rw (absent, contains_key) at old in cc
        | inr (i, there) ↦
            let (a, at, same) = c.found m.volume.arn.lexical i there in (i, a, at, same)
      ]

  pub single-IsConsistent : (m : Member W) → IsConsistent (single m)
  unfolding single
  single-IsConsistent m = push-IsConsistent (record m { origin = _ }) nothing nothing-IsConsistent

  remembered :
      (set : ZipVolumeSet W) (stream : Arn) (entries : List (Text × Option ℕ)) (known : Option ℕ)
      → IsParsed stream
      → All (Remembers set) entries
      → lookup stream.lexical entries ≡ some known
      → known ≡ position (holds_stream_data stream mapping) set.members
  unfolding lookup
  remembered set stream [] known p all h = cc
  remembered set stream ((key, found) ∷ entries) known p ((other, parsed, named, right), all) h =
      elim (lookup-cases key stream.lexical found known entries h) [
        | inl (same, e) ↦
            let one : other ≡ stream = IsParsed-unique other stream parsed p (named ∙ same) in
            sym e ∙ right ∙ ap (λ (a : Arn). position (holds_stream_data a mapping) set.members) one
        | inr later ↦ remembered set stream entries known p all later
      ]

  -- The memo is not to be seen: from a set that is consistent for a mapping, `holder_index` of a name
  -- that was parsed answers with the first volume that holds a bevy of the stream, as a search
  -- without the memo would, and leaves a consistent set of the same volumes.
  pub holder_index-position :
      (stream : Arn) (set : ZipVolumeSet W)
      → IsParsed stream
      → IsConsistent set
      → (let r = holder_index stream mapping set in
          (r.0 ≡ position (holds_stream_data stream mapping) set.members)
          × (r.1.members ≡ set.members)
          × IsConsistent r.1)
  unfolding holder_index
  holder_index-position stream set p c = elim (Option-cases (lookup stream.lexical set.holder)) [
    | inr (known, there) ↦
        rw (there, holder_index)
          (remembered set stream set.holder known p c.remembers there, refl, c)
    | inl absent ↦
        rw (absent, holder_index)
          (
            refl,
            refl,
            record {
              finds = c.finds;
              found = c.found;
              remembers = ((stream, p, refl, refl), c.remembers);
            },
          )
  ]

  -- A volume by the search for it.
  pub holding_mut-member :
      (stream : Arn) (set : ZipVolumeSet W) (i : ℕ) (m : Member W)
      → IsParsed stream
      → IsConsistent set
      → position (holds_stream_data stream mapping) set.members ≡ some i
      → get_elem? set.members i ≡ some m
      → (let r = holding_mut stream mapping set in
          (r.0 ≡ some m.volume) × (r.1.members ≡ set.members) × IsConsistent r.1)
  unfolding holding_mut member_at
  holding_mut-member stream set i m p c routed there =
      let (answer, same, again) = holder_index-position stream set p c in
      (
        ap
              (λ (found : Option ℕ).
                Option.map (λ (x : Member W). x.volume)
                  (member_at found (holder_index stream mapping set).1))
              (answer ∙ routed)
            ∙ ap
                (λ (ms : List (Member W)). Option.map (λ (x : Member W). x.volume) (get_elem? ms i))
                same
            ∙ ap (λ (o : Option (Member W)). Option.map (λ (x : Member W). x.volume) o) there,
        same,
        again,
      )
