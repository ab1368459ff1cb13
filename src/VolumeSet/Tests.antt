-- ===== src/VolumeSet/Tests.antt =====
-- Runs of a set of volumes, and instances of what is proved of it.
use aff4tools.Prelude.{◌≡◌, ◌↔◌, ◌⊎◌, refl, true, false, none, some, List, [], ◌∷◌, ◌++◌}
use aff4tools.Prelude.Results.{ok, err}
use aff4tools.Text.{Text, codes}
use aff4tools.Arn.{Arn, parse, is_byte_range, is_within, stored_path}
use aff4tools.Arn.Member.{literal, member_name}
use aff4tools.Stream.{Volume, no_member}
use aff4tools.VolumeSet.{
  Member, ZipVolumeSet, named, position, holds_stream_data, push, single, holder_index,
  stream_conflict_attributed,
}
use aff4tools.VolumeSet.Consistent.{
  IsParsed, IsConsistent, Present, single-IsConsistent, push-IsConsistent, push_outcome,
  holder_index-position,
}
use aff4tools.VolumeSet.Conflicts.{Agreed, stream_conflict_attributed-none}

abbrev volume_named : Arn → Volume (Unit {0})
volume_named arn = record {
  arn = arn;
  has_segment = λ v name. false;
  read_segment = λ name v. (err no_member, v);
  read_segment_range = λ name offset n v. (ok none, v);
}

abbrev stripe : Text → List Text → Text → Member (Unit {0})
stripe text names size = record {
  volume = volume_named (record { lexical = text; path_start = none; range_start = none });
  names = names;
  graph = record { object = λ subject predicate. some size; subjects = codes "aff4://w/s" ∷ [] };
  origin = named;
}

-- The first stripe holds an index of the stream, the second its bevy.
abbrev first_stripe : Member (Unit {0})
first_stripe = stripe (codes "aff4://v") (codes "w/s/00000000.index" ∷ []) (codes "512")

abbrev second_stripe : Member (Unit {0})
second_stripe = stripe (codes "aff4://w") (codes "s/00000000" ∷ []) (codes "1024")

abbrev stream_arn : Arn
stream_arn = record { lexical = codes "aff4://w/s"; path_start = some 8; range_start = none }

abbrev two_stripes : ZipVolumeSet (Unit {0})
two_stripes = (push second_stripe (single first_stripe)).1

found_second : (holder_index stream_arn literal two_stripes).0 ≡ some 1
unfolding holder_index push single member_name is_byte_range is_within stored_path
found_second = refl

parsed : IsParsed stream_arn
unfolding parse
parsed = refl

two_stripes-IsConsistent : IsConsistent literal two_stripes
two_stripes-IsConsistent =
    push-IsConsistent literal second_stripe (single first_stripe)
      (single-IsConsistent literal first_stripe)

push_outcome_example :
    let r = push second_stripe (single first_stripe) in
    IsConsistent literal r.1
    × (((r.0 ≡ true)
          × (r.1.members ≡ (single first_stripe).members ++ (second_stripe ∷ []))
          × ¬ Present literal second_stripe (single first_stripe))
        ⊎ ((r.0 ≡ false)
            × (r.1 ≡ single first_stripe)
            × Present literal second_stripe (single first_stripe)))
push_outcome_example =
    push_outcome literal second_stripe (single first_stripe)
      (single-IsConsistent literal first_stripe)

holder_index-position_example :
    let r = holder_index stream_arn literal two_stripes in
    (r.0 ≡ position (holds_stream_data stream_arn literal) two_stripes.members)
    × (r.1.members ≡ two_stripes.members)
    × IsConsistent literal r.1
holder_index-position_example =
    holder_index-position literal stream_arn two_stripes parsed two_stripes-IsConsistent

stream_conflict_attributed-none_example :
    (stream_conflict_attributed stream_arn (codes "size") two_stripes ≡ none)
    ↔ Agreed stream_arn (codes "size") two_stripes.members
stream_conflict_attributed-none_example =
    stream_conflict_attributed-none stream_arn (codes "size") two_stripes
