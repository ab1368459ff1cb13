-- ===== src/Image/Serving.antt =====
-- aff4tools: src/image.rs, random access to an image over a set of volumes, with and without a
-- residency, and the whole image.
use aff4tools.Prelude.{
  ℕ, ◌+◌, ◌-◌, ◌≤◌, ◌≡◌, refl, sym, ap, ◌∙◌, min, Option, none, some, List, ◌++◌, length, drop,
  flatten, slice_of, u64_max, arith,
}
use aff4tools.Prelude.Results.{ok, err}
use aff4tools.Prelude.Exec.{Exec, Sink, feed}
use mathlib.Core.Path.{ap₂, subst}
use aff4tools.Text.{Text}
use aff4tools.Arn.{Arn}
use aff4tools.Arn.Member.{NameMapping}
use aff4tools.Codec.{Decoders}
use aff4tools.Stream.{ImageStream, StreamError}
use aff4tools.Stream.Reader.{Residency}
use aff4tools.Map.{MapError, fill, undescribed_stream}
use aff4tools.Map.WellFormed.{IsWellFormed}
use aff4tools.Map.Source.{StreamSource, Within, Serves, image_byte, IsReadable}
use aff4tools.Map.Simulation.{Simulates, NamesIn, read_at_with-across, read_all-across}
use aff4tools.Map.ReadAt.{read_at}
use aff4tools.Map.ReadAt.Total.{read_at_total}
use aff4tools.Map.ReadAll.{total}
use aff4tools.Map.ReadAll.Image.{image, composition, answer_of}
use aff4tools.Map.ReadAll.Total.{read_all_delivers}
use aff4tools.VolumeSet.{Member, ZipVolumeSet}
use aff4tools.Image.{
  Image, SetStreams, set_read_region, set_source, new_source, read_at_in_set_cached, read_from_set,
}
use aff4tools.Image.Reading.{
  IsStoredIn, IsValid, KeepsSound, set_read_region-IsValid, set_read_region-Feeds,
}
use aff4tools.VolumeSet.Consistent.{IsConsistent}

module _ {W : Type 0} (decoders : Decoders) (wrap : StreamError → MapError)
    (streams : List ImageStream) (members : List (Member W)) (mapping : NameMapping)
    (segments : Arn → Text → Option (List ℕ)) (content : Arn → ℕ → ℕ) (size : Arn → Option ℕ) where
  -- Every stream that has a size is stored in the set.
  abbrev pub AllStored : Type 0
  AllStored =
      (arn : Arn) (n : ℕ)
      → size arn ≡ some n
      → (s : ImageStream) × (m : Member W) × IsStoredIn decoders wrap streams members mapping
          segments content size arn s m

  abbrev Valid : SetStreams W → Type 0
  Valid source = IsValid decoders wrap streams members mapping segments content size source

  -- The sources in a valid state.
  abbrev pub ValidSource : Type 0
  ValidSource = (s : SetStreams W × W) × Valid s.0

  abbrev forget : ValidSource → SetStreams W × W
  forget v = v.0

  module _ (all : AllStored) where
    -- A region of a stream that has a size. One that has none is not asked for.
    abbrev region :
        {T : Type 0} (sink : Sink MapError T) (arn : Arn) (offset n : ℕ) (k : Option ℕ)
        → size arn ≡ k
        → Exec MapError (ValidSource × T) (Unit {0})
    region sink arn offset n none e (v, t) = (err (undescribed_stream arn.lexical), (v, t))
    region sink arn offset n (some k) e (v, t) =
        let (s, m, a) = all arn k e in
        let r = set_read_region decoders wrap sink arn offset n (v.0, t) in
        (
          r.0,
          (
            (
              r.1.0,
              set_read_region-IsValid decoders wrap streams members mapping segments content size
                  sink arn s m v.0.0 v.0.1 t offset n a v.1,
            ),
            r.1.1,
          ),
        )

    -- `SetStreams` on its valid states.
    abbrev pub valid_source : StreamSource ValidSource
    valid_source = record {
      read_region = λ T arn offset n sink. region sink arn offset n (size arn) refl;
    }

    region-Feeds :
        {T : Type 0} (sink : Sink MapError T) (arn : Arn) (offset n : ℕ) (k : Option ℕ)
        (e : size arn ≡ k)
        → Within k (offset + n)
        → (v : ValidSource) (t : T)
        → (ps : List (List ℕ)) × (v' : ValidSource) × (flatten ps ≡ slice_of (content arn) offset n)
          × (region sink arn offset n k e (v, t) ≡ ((feed sink ps t).0, (v', (feed sink ps t).1)))
    region-Feeds sink arn offset n none e within v t = elim within [ ]
    region-Feeds sink arn offset n (some k) e within v t =
        let (s, m, a) = all arn k e in
        let both : some s.size ≡ some k = sym a.sized ∙ e in
        let same : s.size ≡ k = cc in
        let (ps, joined, answer, state) =
          set_read_region-Feeds decoders wrap streams members mapping segments content size sink arn
            s m v.0.0 v.0.1 t offset n a v.1 (omega (arith, within, same)) in
        let after : ValidSource = (region sink arn offset n (some k) e (v, t)).1.0 in
        (ps, after, joined, ap₂ (λ x y. (x, (after, y))) answer state)

    -- The source over a set of volumes serves the streams of the image.
    pub valid_source-Serves : Serves valid_source content size
    valid_source-Serves = record {
      serves = λ arn offset n within T sink v t.
          region-Feeds sink arn offset n (size arn) refl within v t;
    }

    abbrev Sized : Arn → Type 0
    Sized arn = Within (size arn) 0

    region-forget :
        {T : Type 0} (sink : Sink MapError T) (arn : Arn) (offset n : ℕ) (k : Option ℕ)
        (e : size arn ≡ k)
        → Within k 0
        → (v : ValidSource) (t : T)
        → set_read_region decoders wrap sink arn offset n (v.0, t)
          ≡ (let r = region sink arn offset n k e (v, t) in (r.0, (r.1.0.0, r.1.1)))
    region-forget sink arn offset n none e sized v t = elim sized [ ]
    region-forget sink arn offset n (some k) e sized v t = refl

    pub set_source-Simulates : Simulates forget Sized valid_source (set_source decoders wrap)
    unfolding set_source
    set_source-Simulates T arn offset n sink v t sized =
        region-forget sink arn offset n (size arn) refl sized v t

module _ {W : Type 0} (decoders : Decoders) (wrap : StreamError → MapError)
    (segments : Arn → Text → Option (List ℕ)) (content : Arn → ℕ → ℕ) (size : Arn → Option ℕ)
    (i : Image) (volumes : ZipVolumeSet W) where
  -- What an image needs: its map is well-formed, its regions can be produced, and every stream that
  -- the map names is described and stored in the set.
  pub record IsServed : Type 0 where
    pub well_formed : IsWellFormed i.map
    pub readable : IsReadable size i.map
    pub names : NamesIn (λ arn. Within (size arn) 0) i.map
    pub all : AllStored decoders wrap i.streams volumes.members i.mapping segments content size
    pub consistent : IsConsistent i.mapping volumes

  abbrev amount : ℕ → List ℕ → ℕ
  amount offset buf = min (length buf) (i.map.size - offset)

  abbrev start : Option (Arn × Residency) → SetStreams W
  start resident = record (new_source i.streams volumes i.mapping) { resident = resident }

  abbrev Keeps : Option (Arn × Residency) → Type 0
  Keeps resident =
      KeepsSound decoders wrap i.streams volumes.members i.mapping segments content size resident

  start-IsValid :
      (resident : Option (Arn × Residency))
      → IsServed
      → Keeps resident
      → IsValid decoders wrap i.streams volumes.members i.mapping segments content size
          (start resident)
  unfolding new_source
  start-IsValid resident served keeps = record {
    same_streams = refl;
    same_mapping = refl;
    same_members = refl;
    consistent = served.consistent;
    keeps = keeps;
  }

  -- Where the set serves the image (its map is well-formed, its regions can be produced, and every
  -- stream that it names is described and stored in a volume that reads it without a fault),
  -- `Image::read_at_in_set_cached` never fails on a buffer whose length is a u64: with any residency
  -- that holds nothing wrong it writes as many bytes as the buffer and the rest of the image have,
  -- they are the bytes of the image from the offset on, the rest of the buffer stays as it was, and
  -- the residency left behind holds nothing wrong either.
  pub read_at_in_set_cached_total :
      (offset : ℕ) (files : W) (resident : Option (Arn × Residency)) (buf : List ℕ)
      → IsServed
      → KeepsSound decoders wrap i.streams volumes.members i.mapping segments content size resident
      → length buf ≤ u64_max
      → (let r = read_at_in_set_cached decoders wrap i offset volumes files resident buf in
          (r.0 ≡ ok (min (length buf) (i.map.size - offset)))
          × (r.1.1
              ≡ slice_of (image_byte content i.map) offset (min (length buf) (i.map.size - offset))
                ++ drop (min (length buf) (i.map.size - offset)) buf)
          × IsValid decoders wrap i.streams volumes.members i.mapping segments content size r.1.0.0)
  unfolding read_at_in_set_cached read_at
  read_at_in_set_cached_total offset files resident buf served keeps small =
      let v = start-IsValid resident served keeps in
      let source =
        valid_source decoders wrap i.streams volumes.members i.mapping segments content size
          served.all in
      let (after, ran) =
        read_at_total source content size
          (valid_source-Serves decoders wrap i.streams volumes.members i.mapping segments content
            size served.all)
          i.map served.well_formed served.readable offset ((start resident, files), v) buf small in
      let eq =
        read_at_with-across (λ s. s.0) (λ arn. Within (size arn) 0) source
          (set_source decoders wrap)
          (set_source-Simulates decoders wrap i.streams volumes.members i.mapping segments content
            size served.all)
          i.map fill offset ((start resident, files), v) buf served.names in
      (
        ap (λ r. r.0) eq ∙ ap (λ r. r.0) ran,
        ap (λ r. r.1.1) eq ∙ ap (λ r. r.1.1) ran,
        subst
            (λ (s : SetStreams W × W).
              IsValid decoders wrap i.streams volumes.members i.mapping segments content size s.0)
            (sym (ap (λ r. r.1.0) eq ∙ ap (λ r. r.1.0.0) ran)) after.1,
      )

  -- Where the set serves the image, `Image::read_from_set` feeds pieces to the sink that join to
  -- the image, byte for byte in address order, whichever volumes its streams are in. It answers
  -- as the sink does: with the sink's error, or with an accounting whose total is the size of
  -- the image.
  pub read_from_set_delivers :
      {T : Type 0} (sink : Sink MapError T) (files : W) (t : T)
      → IsServed
      → (let r = read_from_set decoders wrap i sink ((volumes, files), t) in
          (ps : List (List ℕ)) × (flatten ps ≡ image content i.map)
          × (r.0 ≡ answer_of (composition i.map) (feed sink ps t).0)
          × (r.1.1 ≡ (feed sink ps t).1)
          × (total (composition i.map) ≡ i.map.size))
  unfolding read_from_set
  read_from_set_delivers sink files t served =
      let v = start-IsValid none served tt in
      let source =
        valid_source decoders wrap i.streams volumes.members i.mapping segments content size
          served.all in
      let (ps, after, joined, ran, counted) =
        read_all_delivers source content size sink i.map ((start none, files), v) t
          (valid_source-Serves decoders wrap i.streams volumes.members i.mapping segments content
            size served.all)
          served.well_formed served.readable in
      let eq =
        read_all-across (λ s. s.0) (λ arn. Within (size arn) 0) source (set_source decoders wrap)
          (set_source-Simulates decoders wrap i.streams volumes.members i.mapping segments content
            size served.all)
          sink i.map ((start none, files), v) t served.names in
      (
        ps,
        joined,
        ap (λ r. r.0) eq ∙ ap (λ r. r.0) ran,
        ap (λ r. r.1.1) eq ∙ ap (λ r. r.1.1) ran,
        counted,
      )
