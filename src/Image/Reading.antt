-- ===== src/Image/Reading.antt =====
-- aff4tools: src/image.rs, a source over a set of volumes in a valid state stays in one, and feeds
-- the region asked for.
use aff4tools.Prelude.{
  ℕ, ◌+◌, ◌≤◌, ◌<◌, ◌≡◌, refl, sym, ap, ◌∙◌, inl, inr, Option, none, some, List, get_elem?, flatten,
  slice_of, arith, ◌-◌, u64_max, Bool-cases, eq_of_some,
}
use aff4tools.Prelude.Results.{Result}
use aff4tools.Prelude.Exec.{Sink, feed}
use mathlib.Core.Path.{subst}
use aff4tools.Text.{Text, text_eq, text_eq_iff}
use aff4tools.Arn.{Arn}
use aff4tools.Arn.Member.{NameMapping}
use aff4tools.Codec.{Decoders}
use aff4tools.Stream.{ImageStream, StreamError}
use aff4tools.Stream.Reader.{
  ChunkReader, Residency, empty_reader, into_residency, restore, read_region,
}
use aff4tools.Stream.Reader.Reference.{Holds}
use aff4tools.Stream.Reader.Chunks.{IsSound, empty_reader-IsSound}
use aff4tools.Stream.Reader.Region.{Reads, read_region-Feeds}
use aff4tools.Stream.Reader.Invariant.{read_region-IsSound}
use aff4tools.Map.{MapError}
use aff4tools.VolumeSet.{Member, position, holds_stream_data, holding_mut}
use aff4tools.VolumeSet.Consistent.{IsParsed, IsParsed-unique, IsConsistent, holding_mut-member}
use aff4tools.Image.{SetStreams, find_stream, carried, start_reader, read_stream, set_read_region}

module _ {W : Type 0} (decoders : Decoders) (wrap : StreamError → MapError)
    (streams : List ImageStream) (members : List (Member W)) (mapping : NameMapping)
    (stored : Arn → Text → Option (List ℕ)) (content : Arn → ℕ → ℕ) (size : Arn → Option ℕ) where
  -- A stream of the image is described, and the first volume that holds a bevy of it reads as its
  -- content.
  pub record IsStoredIn (arn : Arn) (stream : ImageStream) (m : Member W) : Type 0 where
    pub described : find_stream arn streams ≡ some stream
    pub parsed : IsParsed arn
    pub index : ℕ
    pub routed : position (holds_stream_data arn mapping) members ≡ some index
    pub there : get_elem? members index ≡ some m
    pub law : Holds m.volume (stored arn) ⊥
    pub reads : Reads decoders stream m.volume mapping (stored arn) (content arn)
    pub positive : 0 < stream.chunk_size
    pub word : stream.size ≤ u64_max
    pub sized : size arn ≡ some stream.size

  abbrev Sound : Arn → ImageStream → Member W → ChunkReader → Type 0
  Sound arn stream m reader = IsSound decoders stream m.volume mapping (stored arn) reader

  -- What a source keeps between regions is sound for the stream that it belongs to.
  abbrev pub KeepsSound : Option (Arn × Residency) → Type 0
  KeepsSound none = Unit
  KeepsSound (some (owner, residency)) =
      (stream : ImageStream) × (m : Member W) × IsStoredIn owner stream m
      × Sound owner stream m residency.held

  -- A source for these streams, over these volumes, in a state that regions leave behind.
  pub record IsValid (source : SetStreams W) : Type 0 where
    pub same_streams : source.streams ≡ streams
    pub same_mapping : source.mapping ≡ mapping
    pub same_members : source.volumes.members ≡ members
    pub consistent : IsConsistent mapping source.volumes
    pub keeps : KeepsSound source.resident

  one_stream :
      (arn : Arn) (s s' : ImageStream) (m m' : Member W)
      → IsStoredIn arn s m
      → IsStoredIn arn s' m'
      → (s ≡ s') × (m ≡ m')
  one_stream arn s s' m m' a b =
      let at : some a.index ≡ some b.index = sym a.routed ∙ b.routed in
      let found : some m ≡ some m' =
        sym a.there ∙ ap (λ i. get_elem? members i) (eq_of_some at) ∙ b.there in
      (eq_of_some (sym a.described ∙ b.described), eq_of_some found)

  -- The same stream, by another name for it.
  renamed-Sound :
      (arn owner : Arn) (s s' : ImageStream) (m m' : Member W) (reader : ChunkReader)
      → owner.lexical ≡ arn.lexical
      → IsStoredIn arn s m
      → IsStoredIn owner s' m'
      → Sound owner s' m' reader
      → Sound arn s m reader
  renamed-Sound arn owner s s' m m' reader named a b sound =
      let e : owner ≡ arn = IsParsed-unique owner arn b.parsed a.parsed named in
      let b' : IsStoredIn arn s' m' = subst (λ x. IsStoredIn x s' m') e b in
      let same = one_stream arn s' s m' m b' a in
      subst (λ x. Sound arn s x reader) same.1
        (subst (λ x. Sound arn x m' reader) same.0 (subst (λ x. Sound x s' m' reader) e sound))

  fresh-Sound : (arn : Arn) (s : ImageStream) (m : Member W) → Sound arn s m empty_reader
  fresh-Sound arn s m = empty_reader-IsSound decoders s m.volume mapping (stored arn)

  restore-Sound :
      (arn : Arn) (s : ImageStream) (m : Member W) (residency : Residency)
      → Sound arn s m residency.held
      → Sound arn s m (restore s residency empty_reader)
  unfolding restore
  restore-Sound arn s m residency sound =
      elim (Bool-cases (text_eq residency.stream.lexical s.arn.lexical)) [
        | inl same ↦ rw same sound
        | inr other ↦ rw other (fresh-Sound arn s m)
      ]

  -- The reader that a region starts with.
  start_reader-Sound :
      (arn : Arn) (s : ImageStream) (m : Member W) (resident : Option (Arn × Residency))
      → IsStoredIn arn s m
      → KeepsSound resident
      → Sound arn s m (start_reader s (carried arn resident))
  unfolding start_reader carried
  start_reader-Sound arn s m none a keeps = fresh-Sound arn s m
  start_reader-Sound arn s m (some (owner, residency)) a (s', m', b, sound) =
      elim (Bool-cases (text_eq owner.lexical arn.lexical)) [
        | inr other ↦ rw other (fresh-Sound arn s m)
        | inl same ↦ rw same (
            restore-Sound arn s m residency (
              renamed-Sound arn owner s s' m m' residency.held
                ((text_eq_iff owner.lexical arn.lexical).0 same) a b sound))
      ]

  module _ {T : Type 0} (sink : Sink MapError T) where
    -- The look-ups succeed.
    routed :
        (arn : Arn) (s : ImageStream) (m : Member W) (source : SetStreams W) (files : W) (t : T)
        (offset n : ℕ)
        → IsStoredIn arn s m
        → IsValid source
        → set_read_region decoders wrap sink arn offset n ((source, files), t)
          ≡ read_stream decoders wrap sink arn s m.volume
              (holding_mut arn source.mapping source.volumes).1
              offset
              n
              ((source, files), t)
    unfolding set_read_region
    routed arn s m source files t offset n a v =
        let described : find_stream arn source.streams ≡ some s =
          ap (λ ss. find_stream arn ss) v.same_streams ∙ a.described in
        let held : (holding_mut arn source.mapping source.volumes).0 ≡ some m.volume =
          ap (λ k. (holding_mut arn k source.volumes).0) v.same_mapping
          ∙ (holder arn s m source a v).0 in
        rw (described, held, set_read_region) refl
      where
        holder :
            (arn : Arn) (s : ImageStream) (m : Member W) (source : SetStreams W)
            → IsStoredIn arn s m
            → IsValid source
            → (let r = holding_mut arn mapping source.volumes in
                (r.0 ≡ some m.volume)
                × (r.1.members ≡ source.volumes.members)
                × IsConsistent mapping r.1)
        holder arn s m source a v =
            holding_mut-member mapping arn source.volumes a.index m a.parsed v.consistent
              (ap (λ ms. position (holds_stream_data arn mapping) ms) v.same_members ∙ a.routed)
              (ap (λ ms. get_elem? ms a.index) v.same_members ∙ a.there)

    -- What the reader of the stream answers.
    abbrev run :
        Arn
        → ImageStream
        → Member W
        → SetStreams W
        → W
        → T
        → (offset n : ℕ) → Result MapError (Unit {0}) × ((W × ChunkReader) × T)
    run arn s m source files t offset n =
        read_region decoders s m.volume mapping wrap sink offset n
          ((files, start_reader s (carried arn source.resident)), t)

    abbrev after :
        Arn
        → ImageStream
        → SetStreams W
        → Result MapError (Unit {0}) × ((W × ChunkReader) × T)
        → Result MapError (Unit {0}) × ((SetStreams W × W) × T)
    after arn s source r = (
      r.0,
      (
        (
          record source {
            volumes = (holding_mut arn mapping source.volumes).1;
            resident = some (arn, into_residency s r.1.0.1);
          },
          r.1.0.0,
        ),
        r.1.1,
      ),
    )

    set_read_region-run :
        (arn : Arn) (s : ImageStream) (m : Member W) (source : SetStreams W) (files : W) (t : T)
        (offset n : ℕ)
        → IsStoredIn arn s m
        → IsValid source
        → set_read_region decoders wrap sink arn offset n ((source, files), t)
          ≡ after arn s source (run arn s m source files t offset n)
    unfolding read_stream
    set_read_region-run arn s m source files t offset n a v =
        routed arn s m source files t offset n a v
        ∙ ap
            (λ (k : NameMapping).
              let r =
                read_region decoders s m.volume k wrap sink offset n
                  ((files, start_reader s (carried arn source.resident)), t) in
              (
                r.0,
                (
                  (
                    record source {
                      volumes = (holding_mut arn k source.volumes).1;
                      resident = some (arn, into_residency s r.1.0.1);
                    },
                    r.1.0.0,
                  ),
                  r.1.1,
                ),
              ))
            v.same_mapping

    -- A region of a stream that is stored in the set, inside the stream or not, leaves a valid
    -- source valid.
    pub set_read_region-IsValid :
        (arn : Arn) (s : ImageStream) (m : Member W) (source : SetStreams W) (files : W) (t : T)
        (offset n : ℕ)
        → IsStoredIn arn s m
        → IsValid source
        → IsValid (set_read_region decoders wrap sink arn offset n ((source, files), t)).1.0.0
    unfolding into_residency
    set_read_region-IsValid arn s m source files t offset n a v =
        let (held, same, consistent) =
          holding_mut-member mapping arn source.volumes a.index m a.parsed v.consistent
            (ap (λ ms. position (holds_stream_data arn mapping) ms) v.same_members ∙ a.routed)
            (ap (λ ms. get_elem? ms a.index) v.same_members ∙ a.there) in
        let sound =
          read_region-IsSound decoders s m.volume mapping (stored arn) ⊥ a.law wrap sink offset n
            (files, start_reader s (carried arn source.resident)) t
            (start_reader-Sound arn s m source.resident a v.keeps) in
        subst (λ r. IsValid r.1.0.0) (sym (set_read_region-run arn s m source files t offset n a v))
          (record {
            same_streams = v.same_streams;
            same_mapping = v.same_mapping;
            same_members = same ∙ v.same_members;
            consistent = consistent;
            keeps = (s, m, a, sound);
          })

    -- A region inside the stream is fed to the sink.
    pub set_read_region-Feeds :
        (arn : Arn) (s : ImageStream) (m : Member W) (source : SetStreams W) (files : W) (t : T)
        (offset n : ℕ)
        → IsStoredIn arn s m
        → IsValid source
        → offset + n ≤ s.size
        → (let r = set_read_region decoders wrap sink arn offset n ((source, files), t) in
            (ps : List (List ℕ)) × (flatten ps ≡ slice_of (content arn) offset n)
            × (r.0 ≡ (feed sink ps t).0)
            × (r.1.1 ≡ (feed sink ps t).1))
    set_read_region-Feeds arn s m source files t offset n a v inside =
        let (ps, s', joined, sound, ran) =
          read_region-Feeds decoders s m.volume mapping (stored arn) a.law (content arn) a.reads
            a.positive wrap sink offset n inside a.word
            (files, start_reader s (carried arn source.resident)) t
            (start_reader-Sound arn s m source.resident a v.keeps) in
        let whole : (offset + n) - offset ≡ n = omega arith in
        let eq = set_read_region-run arn s m source files t offset n a v in
        (
          ps,
          joined ∙ ap (λ k. slice_of (content arn) offset k) whole,
          ap (λ r. r.0) eq ∙ ap (λ r. r.0) ran,
          ap (λ r. r.1.1) eq ∙ ap (λ r. r.1.1) ran,
        )
