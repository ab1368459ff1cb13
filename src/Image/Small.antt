-- ===== src/Image/Small.antt =====
-- A small image over a set of one volume: a stream of two chunks in one bevy, and a map of five bytes.
use aff4tools.Prelude.{
  ℕ, zero, suc, ◌+◌, ◌≤◌, ◌≡◌, refl, sym, ap, ◌∙◌, inl, inr, Bool, true, false, Option, none, some,
  List, [], ◌∷◌, ◌++◌, arith, ltb, ◌==◌, ==_iff, if◌then◌else◌, length, take, drop, replicate,
  u64_max, get_elem?, Bool-cases, eq_of_some,
}
use aff4tools.Prelude.Results.{Result, ok, err}
use mathlib.Core.Path.{subst}
use aff4tools.Text.{Text, codes, text_eq, text_eq_iff}
use aff4tools.Arn.{Arn, parse, is_byte_range, is_within, stored_path}
use aff4tools.Arn.Member.{literal, member_name}
use aff4tools.Codec.{Decoders, decompress_chunk}
use aff4tools.Codec
use aff4tools.Stream.{ImageStream, StreamError, Volume, no_member, parse_index_bounded}
use aff4tools.Stream.Reader.{chunk_in_bevy}
use aff4tools.Stream.Reader.Reference.{Agrees, RangeAgrees, Holds, chunk_of}
use aff4tools.Stream.Reader.Region.{Reads}
use aff4tools.Map.{Target, stored, repeated_byte, MapEntry, MapError, other, target_of}
use aff4tools.Map.Accepted.{plain}
use aff4tools.Map.Source.{Within}
use aff4tools.VolumeSet.{Member, ZipVolumeSet, named, position, holds_stream_data, single}
use aff4tools.VolumeSet.Consistent.{IsParsed, IsConsistent, single-IsConsistent}
use aff4tools.Image.{Image, find_stream}
use aff4tools.Image.Reading.{IsStoredIn}
use aff4tools.Image.Serving.{AllStored, IsServed}

abbrev pub no_decoders : Decoders
no_decoders = record {
  snap_len = λ input. none;
  snap = λ input. none;
  inflate = λ input capacity. none;
  lz4_block = λ input capacity. none;
}

abbrev pub stream_arn : Arn
stream_arn = record { lexical = codes "aff4://v/s"; path_start = some 8; range_start = none }

abbrev pub map_arn : Arn
map_arn = record { lexical = codes "aff4://v/m"; path_start = some 8; range_start = none }

abbrev pub volume_arn : Arn
volume_arn = record { lexical = codes "aff4://v"; path_start = none; range_start = none }

abbrev pub small_stream : ImageStream
small_stream = record {
  arn = stream_arn;
  size = 4;
  chunk_size = 2;
  chunks_in_segment = 2;
  codec = Codec.stored;
}

-- Two chunks of two bytes.
abbrev index_bytes : List ℕ
index_bytes = 0 ∷ replicate 7 0 ++ (2 ∷ 0 ∷ 0 ∷ 0 ∷ 2 ∷ replicate 7 0) ++ (2 ∷ 0 ∷ 0 ∷ 0 ∷ [])

abbrev bevy_bytes : List ℕ
bevy_bytes = 65 ∷ 66 ∷ 67 ∷ 68 ∷ []

abbrev pub segments : Text → Option (List ℕ)
segments name =
    if text_eq name (codes "s/00000000")
    then some bevy_bytes
    else if text_eq name (codes "s/00000000.index")
    then some index_bytes
    else none

abbrev whole : Option (List ℕ) → Result StreamError (List ℕ)
whole none = err no_member
whole (some bytes) = ok bytes

abbrev part : Option (List ℕ) → ℕ → ℕ → Option (List ℕ)
part none offset n = none
part (some bytes) offset n =
    if ltb (length bytes) (offset + n) then none else some (take n (drop offset bytes))

abbrev has : Option (List ℕ) → Bool
has none = false
has (some bytes) = true

abbrev pub small_volume : Volume (Unit {0})
small_volume = record {
  arn = volume_arn;
  has_segment = λ v name. has (segments name);
  read_segment = λ name v. (whole (segments name), v);
  read_segment_range = λ name offset n v. (ok (part (segments name) offset n), v);
}

whole-Agrees : (o : Option (List ℕ)) → Agrees ⊥ o (whole o)
whole-Agrees none = inl refl
whole-Agrees (some bytes) = refl

part-Agrees : (o : Option (List ℕ)) (offset n : ℕ) → RangeAgrees ⊥ o offset n (ok (part o offset n))
part-Agrees none offset n = tt
part-Agrees (some bytes) offset n = elim (Bool-cases (ltb (length bytes) (offset + n))) [
  | inl past ↦ rw past tt
  | inr inside ↦ rw inside (bytes, refl, ground arith, refl)
]

segments_small :
    (name : Text) (bytes : List ℕ) → segments name ≡ some bytes → length bytes ≤ u64_max
segments_small name bytes h = elim (Bool-cases (text_eq name (codes "s/00000000"))) [
  | inl bevy ↦ let e : bevy_bytes ≡ bytes = eq_of_some (rw bevy at h) in rw (← e) (omega arith)
  | inr other' ↦ elim (Bool-cases (text_eq name (codes "s/00000000.index"))) [
    | inl index ↦
        let e : index_bytes ≡ bytes = eq_of_some (rw (other', index) at h) in rw (← e) (omega arith)
    | inr neither ↦ let clash : none ≡ some bytes = rw (other', neither) at h in cc
  ]
]

pub small-Holds : Holds small_volume segments ⊥
small-Holds = record {
  whole = λ name v. whole-Agrees (segments name);
  range = λ name offset n v. part-Agrees (segments name) offset n;
  small = segments_small;
}

abbrev pub content : ℕ → ℕ
content o = 65 + o

pub small_reads : Reads no_decoders small_stream small_volume literal segments content
unfolding chunk_of member_name is_byte_range is_within stored_path parse_index_bounded chunk_in_bevy
small_reads zero h = refl
small_reads (suc zero) h = refl
small_reads (suc (suc n)) h = absurd (omega (arith, h))

abbrev pub small_member : Member (Unit {0})
small_member = record {
  volume = small_volume;
  names = codes "s/00000000" ∷ codes "s/00000000.index" ∷ [];
  graph = record { object = λ subject predicate. none; subjects = [] };
  origin = named;
}

abbrev pub small_set : ZipVolumeSet (Unit {0})
small_set = single small_member

pub small_IsConsistent : IsConsistent literal small_set
small_IsConsistent = single-IsConsistent literal small_member

pub stream_arn-IsParsed : IsParsed stream_arn
unfolding parse
stream_arn-IsParsed = refl

abbrev pub wrap : StreamError → MapError
wrap e = other 0

-- The stream has a size, and no other name has one.
abbrev no_range : Option ℕ → Bool
no_range none = true
no_range (some n) = false

abbrev starts_at : ℕ → Option ℕ → Bool
starts_at n none = false
starts_at n (some m) = m == n

abbrev is_stream : Arn → Bool
is_stream arn =
    if text_eq arn.lexical stream_arn.lexical
    then (if starts_at 8 arn.path_start then no_range arn.range_start else false)
    else false

abbrev pub size_of : Arn → Option ℕ
size_of arn = if is_stream arn then some 4 else none

abbrev pub content_of : Arn → ℕ → ℕ
content_of arn = content

abbrev pub segments_of : Arn → Text → Option (List ℕ)
segments_of arn = segments

starts_at-eq : (o : Option ℕ) → starts_at 8 o ≡ true → o ≡ some 8
starts_at-eq none h = cc
starts_at-eq (some m) h = ap some ((==_iff m 8).0 h)

no_range-eq : (o : Option ℕ) → no_range o ≡ true → o ≡ none
no_range-eq none h = refl
no_range-eq (some m) h = cc

is_stream-eq : (arn : Arn) → is_stream arn ≡ true → arn ≡ stream_arn
is_stream-eq arn h = elim (Bool-cases (text_eq arn.lexical stream_arn.lexical)) [
  | inr other' ↦ let clash : false ≡ true = rw other' at h in cc
  | inl same ↦ elim (Bool-cases (starts_at 8 arn.path_start)) [
    | inr other' ↦ let clash : false ≡ true = rw (same, other') at h in cc
    | inl start ↦
        let none' : no_range arn.range_start ≡ true = rw (same, start) at h in
        ap (λ l. record { lexical = l; path_start = arn.path_start; range_start = arn.range_start })
          ((text_eq_iff arn.lexical stream_arn.lexical).0 same)
        ∙ ap
            (λ p. record {
              lexical = stream_arn.lexical;
              path_start = p;
              range_start = arn.range_start;
            })
            (starts_at-eq arn.path_start start)
        ∙ ap (λ r. record { lexical = stream_arn.lexical; path_start = some 8; range_start = r })
            (no_range-eq arn.range_start none')
  ]
]

size_of-eq : (arn : Arn) (n : ℕ) → size_of arn ≡ some n → arn ≡ stream_arn
size_of-eq arn n h = elim (Bool-cases (is_stream arn)) [
  | inl here ↦ is_stream-eq arn here
  | inr other' ↦ let clash : none ≡ some n = rw other' at h in cc
]

abbrev members : List (Member (Unit {0}))
members = small_set.members

abbrev streams : List ImageStream
streams = small_stream ∷ []

pub stream-IsStoredIn :
    IsStoredIn no_decoders wrap streams members literal segments_of content_of size_of stream_arn
      small_stream small_member
unfolding find_stream position holds_stream_data single member_name is_byte_range is_within
    stored_path text_eq
stream-IsStoredIn = record {
  described = refl;
  parsed = stream_arn-IsParsed;
  index = 0;
  routed = refl;
  there = refl;
  law = small-Holds;
  reads = small_reads;
  positive = omega arith;
  word = omega arith;
  sized = refl;
}

small-AllStored : AllStored no_decoders wrap streams members literal segments_of content_of size_of
small-AllStored arn n h =
    subst
      (λ (a : Arn).
        (s : ImageStream) × (m : Member (Unit {0})) × IsStoredIn no_decoders wrap streams members
          literal segments_of content_of size_of a s m)
      (sym (size_of-eq arn n h)) (small_stream, small_member, stream-IsStoredIn)

abbrev entries : List MapEntry
entries =
    record { offset = 0; length = 2; target_offset = 1; target_id = 0 }
    ∷ record { offset = 2; length = 3; target_offset = 0; target_id = 1 }
    ∷ []

abbrev targets : List Target
targets = stored stream_arn ∷ repeated_byte 0 ∷ []

abbrev pub small_image : Image
small_image = record {
  arn = map_arn;
  map = plain map_arn entries targets 5;
  streams = streams;
  mapping = literal;
}

named-sized :
    (id : ℕ) (arn : Arn) → get_elem? targets id ≡ some (stored arn) → Within (size_of arn) 0
unfolding text_eq
named-sized zero arn h =
    let t : stored stream_arn ≡ stored arn = eq_of_some h in
    let e : stream_arn ≡ arn = cc in subst (λ a. Within (size_of a) 0) e (omega arith)
named-sized (suc zero) arn h = cc
named-sized (suc (suc id)) arn h = cc

pub small_image-IsServed :
    IsServed no_decoders wrap segments_of content_of size_of small_image small_set
unfolding target_of text_eq
small_image-IsServed = record {
  well_formed = record {
    tiles = (refl, omega arith, (refl, omega arith, refl));
    listed = (omega arith, (omega arith, tt));
    small = omega arith;
  };
  readable = ((omega arith, omega arith), ((tt, omega arith), tt));
  names = λ e arn h. named-sized e.target_id arn h;
  all = small-AllStored;
  consistent = small_IsConsistent;
}
