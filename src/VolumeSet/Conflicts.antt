-- ===== src/VolumeSet/Conflicts.antt =====
-- aff4tools: src/zip_volume_set.rs, when the volumes of a set disagree about a stream.
use aff4tools.Prelude.{
  ◌≡◌, ◌↔◌, refl, sym, ◌∙◌, inl, inr, true, false, Option, none, some, List, [], ◌∷◌, All,
  Bool-cases, Option-cases, eq_of_some,
}
use mathlib.Core.Path.{subst}
use aff4tools.Text.{Text, text_eq, text_eq_iff}
use aff4tools.Arn.{Arn}
use aff4tools.VolumeSet.{
  Member, ZipVolumeSet, differing, conflict_among, stream_conflict_attributed,
}

module _ {W : Type 0} (stream : Arn) (predicate : Text) where
  -- What a volume says.
  abbrev pub value_in : Member W → Option Text
  value_in m = m.graph.object stream.lexical predicate

  -- A volume that says something says `value`.
  abbrev pub Says : Text → Member W → Type 0
  Says value m = (form : Text) → value_in m ≡ some form → form ≡ value

  differing-none :
      (first : Text) (first_volume : Arn) (ms : List (Member W))
      → (differing stream predicate first first_volume ms ≡ none) ↔ All (Says first) ms
  unfolding differing
  differing-none first first_volume [] = (λ h. tt, λ h. refl)
  differing-none first first_volume (m ∷ ms) =
      let ih = differing-none first first_volume ms in
      elim (Option-cases (value_in m)) [
        | inl silent ↦
            rw (silent, differing) ((λ h. ((λ form says. cc), ih.0 h)), (λ all. ih.1 all.1))
        | inr (form, says) ↦ elim (Bool-cases (text_eq first form)) [
          | inl same ↦
              let e : first ≡ form = (text_eq_iff first form).0 same in
              rw (says, same, differing)
                (
                  (λ h. (
                    (λ other told.
                        let both : some form ≡ some other = told in sym (eq_of_some both) ∙ sym e),
                    ih.0 h,
                  )),
                  (λ all. ih.1 all.1),
                )
          | inr other ↦
              rw (says, other, differing)
                (
                  (λ h. cc),
                  (λ all.
                      let e : form ≡ first = all.0 form refl in
                      let clash : false ≡ true = sym other ∙ (text_eq_iff first form).1 (sym e) in
                      cc),
                )
        ]
      ]

  -- A value that every volume of the list says that says anything.
  abbrev pub Agreed : List (Member W) → Type 0
  Agreed members = (value : Text) × All (Says value) members

  all_same :
      (form value : Text) (ms : List (Member W))
      → form ≡ value
      → All (Says value) ms
      → All (Says form) ms
  all_same form value ms e all = subst (λ v. All (Says v) ms) (sym e) all

  conflict_among-none :
      (ms : List (Member W)) → (conflict_among stream predicate ms ≡ none) ↔ Agreed ms
  unfolding conflict_among
  conflict_among-none [] = (λ h. ([], tt), λ h. refl)
  conflict_among-none (m ∷ ms) =
      let ih = conflict_among-none ms in
      elim (Option-cases (value_in m)) [
        | inl silent ↦
            rw (silent, conflict_among)
              (
                (λ h. let (value, all) = ih.0 h in (value, ((λ form says. cc), all))),
                (λ agreed. ih.1 (agreed.0, agreed.1.1)),
              )
        | inr (form, says) ↦
            rw (says, conflict_among)
              (
                (λ h. (
                  form,
                  (
                    (λ other told.
                        let both : some form ≡ some other = told in sym (eq_of_some both)),
                    (differing-none form m.volume.arn ms).0 h,
                  ),
                )),
                (λ agreed.
                    (differing-none form m.volume.arn ms).1
                      (all_same form agreed.0 ms (agreed.1.0 form refl) agreed.1.1)),
              )
      ]

-- `stream_conflict_attributed` finds no conflict exactly where the volumes agree: where one value
-- is what every volume says about the stream's predicate that says anything.
pub stream_conflict_attributed-none :
    {W : Type 0} (stream : Arn) (predicate : Text) (set : ZipVolumeSet W)
    → (stream_conflict_attributed stream predicate set ≡ none) ↔ Agreed stream predicate set.members
unfolding stream_conflict_attributed
stream_conflict_attributed-none stream predicate set =
    conflict_among-none stream predicate set.members
