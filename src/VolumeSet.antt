-- ===== src/VolumeSet.antt =====
-- aff4tools: src/zip_volume_set.rs, the volumes that jointly hold an image: how a stream is routed
-- to the volume that stores it, and where the volumes' metadata disagrees.
pub mod Lookup
pub mod Consistent
pub mod Conflicts
mod Tests
use aff4tools.Prelude.{
  ℕ, suc, Bool, true, false, ◌&&◌, ◌==◌, not, Option, none, some, List, [], ◌∷◌, ◌++◌, leb,
  if◌then◌else◌, length, get_elem?,
}
use aff4tools.Prelude.Results.{Result, ok, err}
use aff4tools.Text.{Text, codes, text_eq, starts_with, after_last}
use aff4tools.Arn.{Arn, parse}
use aff4tools.Arn.Member.{NameMapping, member_name}
use aff4tools.Stream.{Volume}
use mathlib.Core.Option

-- `Iterator::any`, `position`, `find` and `filter`.
module _ {A : Type 0} (p : A → Bool) where
  unfoldable pub any : List A → Bool
  any [] = false
  any (x ∷ xs) = if p x then true else any xs

  unfoldable pub position : List A → Option ℕ
  position [] = none
  position (x ∷ xs) = if p x then some 0 else Option.map suc (position xs)

  unfoldable pub find_first : List A → Option A
  find_first [] = none
  find_first (x ∷ xs) = if p x then some x else find_first xs

  unfoldable pub filter : List A → List A
  filter [] = []
  filter (x ∷ xs) = let rest = filter xs in if p x then x ∷ rest else rest

-- A `HashMap` with texts for keys, as an association list.
module _ {A : Type 0} where
  unfoldable pub lookup : Text → List (Text × A) → Option A
  unfolding text_eq
  lookup key [] = none
  lookup key ((k, a) ∷ entries) = if text_eq k key then some a else lookup key entries

  -- `HashMap::contains_key`
  unfoldable pub contains_key : Text → List (Text × A) → Bool
  unfolding lookup
  contains_key key entries = elim (lookup key entries) [ none ↦ false | some _ ↦ true ]

-- What the set asks of a `Graph` of src/rdf.rs: the lexical form of the object that a subject has
-- under a predicate, and the subjects.
pub record Graph : Type 0 where
  pub object : Text → Text → Option Text
  pub subjects : List Text

-- `VolumeOrigin`
pub data VolumeOrigin : Type 0 where
  named : VolumeOrigin

-- `Member`. The state `W` is that of the files of all volumes; `names` are a volume's segments.
pub record Member (W : Type 0) : Type 0 where
  pub volume : Volume W
  pub names : List Text
  pub graph : Graph
  pub origin : VolumeOrigin

-- `ZipVolumeSet`
pub record ZipVolumeSet (W : Type 0) : Type 0 where
  pub members : List (Member W)
  pub by_arn : List (Text × ℕ)
  pub holder : List (Text × Option ℕ)

-- `StreamConflict`
pub record StreamConflict : Type 0 where
  pub stream : Arn
  pub predicate : Text
  pub first_value : Text
  pub first_volume : Arn
  pub second_value : Text
  pub second_volume : Arn

-- `is_bevy_number` of src/zip.rs
unfoldable pub is_bevy_number : Text → Bool
is_bevy_number s = length s == 8 && not (any (λ b. not (leb b'0' b && leb b b'9')) s)

-- `Volume::segments_with_prefix` of src/zip.rs, on names that are in order.
unfoldable pub segments_with_prefix : List Text → Text → List Text
unfolding filter starts_with
segments_with_prefix names prefix = filter (starts_with prefix) names

-- The test of `holds_stream_data` on one name.
unfoldable pub has_bevy_leaf : Text → Bool
unfolding after_last is_bevy_number
has_bevy_leaf name = elim (after_last (λ c. c == b'/') name) [
  | none ↦ false
  | some leaf ↦ is_bevy_number leaf
]

-- The subjects of a volume behind those before it, each once.
unfoldable pub add_subjects : List Text → List Text → List Text
unfolding any text_eq
add_subjects subjects [] = subjects
add_subjects subjects (s ∷ more) =
    if any (text_eq s) subjects
    then add_subjects subjects more
    else add_subjects (subjects ++ (s ∷ [])) more

module _ {W : Type 0} where
  -- `holds_stream_data`
  unfoldable pub holds_stream_data : Arn → NameMapping → Member W → Bool
  unfolding any has_bevy_leaf segments_with_prefix member_name
  holds_stream_data stream mapping m = elim (member_name stream m.volume.arn mapping) [
    | none ↦ false
    | some base ↦ any has_bevy_leaf (segments_with_prefix m.names (base ++ (b'/' ∷ [])))
  ]

  -- `ZipVolumeSet::push`, with whether the volume was added.
  unfoldable pub push : Member W → ZipVolumeSet W → Bool × ZipVolumeSet W
  unfolding contains_key
  push m set = if contains_key m.volume.arn.lexical set.by_arn then (false, set) else (
    true,
    record {
      members = set.members ++ (m ∷ []);
      by_arn = (m.volume.arn.lexical, length set.members) ∷ set.by_arn;
      holder = [];
    },
  )

  -- `ZipVolumeSet::single`
  unfoldable pub single : Member W → ZipVolumeSet W
  unfolding push
  single m =
      (push (record m { origin = named }) (record { members = []; by_arn = []; holder = [] })).1

  -- `holder_index`, memoized in the set.
  unfoldable pub holder_index : Arn → NameMapping → ZipVolumeSet W → Option ℕ × ZipVolumeSet W
  unfolding lookup position holds_stream_data
  holder_index stream mapping set = elim (lookup stream.lexical set.holder) [
    | some known ↦ (known, set)
    | none ↦
        let found = position (holds_stream_data stream mapping) set.members in
        (found, record set { holder = (stream.lexical, found) ∷ set.holder })
  ]

  -- `self.members.get(index)` behind an index that may be missing.
  unfoldable pub member_at : Option ℕ → ZipVolumeSet W → Option (Member W)
  member_at none set = none
  member_at (some i) set = get_elem? set.members i

  -- `ZipVolumeSet::holding_mut`: the volume that holds a stream's data.
  unfoldable pub holding_mut :
      Arn → NameMapping → ZipVolumeSet W → Option (Volume W) × ZipVolumeSet W
  unfolding holder_index member_at
  holding_mut stream mapping set =
      let r = holder_index stream mapping set in
      (Option.map (λ (m : Member W). m.volume) (member_at r.0 r.1), r.1)

  -- `ZipVolumeSet::holding`
  unfoldable pub holding : Arn → NameMapping → ZipVolumeSet W → Option Arn × ZipVolumeSet W
  unfolding holder_index member_at
  holding stream mapping set =
      let r = holder_index stream mapping set in
      (Option.map (λ (m : Member W). m.volume.arn) (member_at r.0 r.1), r.1)

  -- `ZipVolumeSet::get_mut`
  unfoldable pub get_mut : Arn → ZipVolumeSet W → Option (Volume W)
  unfolding lookup member_at
  get_mut volume_arn set =
      Option.map (λ (m : Member W). m.volume) (member_at (lookup volume_arn.lexical set.by_arn) set)

  -- `ZipVolumeSet::graph_of`
  unfoldable pub graph_of : Arn → ZipVolumeSet W → Option Graph
  unfolding lookup member_at
  graph_of volume_arn set =
      Option.map (λ (m : Member W). m.graph) (member_at (lookup volume_arn.lexical set.by_arn) set)

  -- `ZipVolumeSet::volume_and_graph_mut`
  unfoldable pub volume_and_graph_mut : Arn → ZipVolumeSet W → Option (Volume W × Graph)
  unfolding lookup member_at
  volume_and_graph_mut volume_arn set =
      Option.map (λ (m : Member W). (m.volume, m.graph))
        (member_at (lookup volume_arn.lexical set.by_arn) set)

  -- A graph states a predicate about a subject.
  unfoldable pub states : Text → Text → Member W → Bool
  states subject predicate m = elim (m.graph.object subject predicate) [
    | none ↦ false
    | some _ ↦ true
  ]

  -- `ZipVolumeSet::describing`
  unfoldable pub describing : Arn → (size_iri chunk_size_iri : Text) → ZipVolumeSet W → Option ℕ
  unfolding position states
  describing stream size_iri chunk_size_iri set =
      position (λ m. states stream.lexical size_iri m && states stream.lexical chunk_size_iri m)
        set.members

  -- `ZipVolumeSet::declaring_index`
  unfoldable pub declaring_index : Arn → Text → ZipVolumeSet W → Option ℕ
  unfolding position states
  declaring_index subject predicate set = position (states subject.lexical predicate) set.members

  -- `ZipVolumeSet::declaring`
  unfoldable pub declaring : Arn → Text → ZipVolumeSet W → Option (Graph × Arn)
  unfolding find_first states
  declaring subject predicate set =
      Option.map (λ (m : Member W). (m.graph, m.volume.arn))
        (find_first (states subject.lexical predicate) set.members)

  -- The test of `declaring_volume`, on the files as they are.
  unfoldable pub declares_map : W → Arn → NameMapping → Member W → Bool
  unfolding member_name
  declares_map files subject mapping m = elim (member_name subject m.volume.arn mapping) [
    | none ↦ false
    | some base ↦ m.volume.has_segment files (base ++ codes "/map")
  ]

  -- `ZipVolumeSet::declaring_volume`
  unfoldable pub declaring_volume : W → Arn → NameMapping → ZipVolumeSet W → Option Arn
  unfolding find_first declares_map
  declaring_volume files subject mapping set =
      Option.map (λ (m : Member W). m.volume.arn)
        (find_first (declares_map files subject mapping) set.members)

  -- The loop of `stream_conflict_attributed` behind the first value seen.
  unfoldable pub differing : Arn → Text → Text → Arn → List (Member W) → Option StreamConflict
  unfolding text_eq
  differing stream predicate first first_volume [] = none
  differing stream predicate first first_volume (m ∷ ms) =
      elim (m.graph.object stream.lexical predicate) [
        | none ↦ differing stream predicate first first_volume ms
        | some form ↦
            if text_eq first form
            then differing stream predicate first first_volume ms
            else some (record {
              stream = stream;
              predicate = predicate;
              first_value = first;
              first_volume = first_volume;
              second_value = form;
              second_volume = m.volume.arn;
            })
      ]

  -- The loop before it.
  unfoldable pub conflict_among : Arn → Text → List (Member W) → Option StreamConflict
  unfolding differing
  conflict_among stream predicate [] = none
  conflict_among stream predicate (m ∷ ms) = elim (m.graph.object stream.lexical predicate) [
    | none ↦ conflict_among stream predicate ms
    | some form ↦ differing stream predicate form m.volume.arn ms
  ]

  -- `ZipVolumeSet::stream_conflict_attributed`
  unfoldable pub stream_conflict_attributed : Arn → Text → ZipVolumeSet W → Option StreamConflict
  unfolding conflict_among
  stream_conflict_attributed stream predicate set = conflict_among stream predicate set.members

  -- `ZipVolumeSet::stream_conflict`
  unfoldable pub stream_conflict : Arn → Text → ZipVolumeSet W → Option (Text × Text)
  unfolding stream_conflict_attributed
  stream_conflict stream predicate set =
      Option.map (λ (c : StreamConflict). (c.first_value, c.second_value))
        (stream_conflict_attributed stream predicate set)

  unfoldable pub all_subjects : List Text → List (Member W) → List Text
  unfolding add_subjects
  all_subjects subjects [] = subjects
  all_subjects subjects (m ∷ ms) = all_subjects (add_subjects subjects m.graph.subjects) ms

  -- The conflicts about one subject.
  unfoldable pub conflicts_of : Arn → List Text → ZipVolumeSet W → List StreamConflict
  unfolding stream_conflict_attributed
  conflicts_of arn [] set = []
  conflicts_of arn (predicate ∷ predicates) set =
      let rest = conflicts_of arn predicates set in
      elim (stream_conflict_attributed arn predicate set) [ none ↦ rest | some c ↦ c ∷ rest ]

  unfoldable pub conflicts_about : List Text → List Text → ZipVolumeSet W → List StreamConflict
  unfolding conflicts_of parse
  conflicts_about predicates [] set = []
  conflicts_about predicates (subject ∷ subjects) set =
      let rest = conflicts_about predicates subjects set in
      elim (parse subject) [ err _ ↦ rest | ok arn ↦ conflicts_of arn predicates set ++ rest ]

  -- `ZipVolumeSet::stream_conflicts`
  unfoldable pub stream_conflicts : List Text → ZipVolumeSet W → List StreamConflict
  unfolding all_subjects conflicts_about
  stream_conflicts predicates set = conflicts_about predicates (all_subjects [] set.members) set
