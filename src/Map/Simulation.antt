-- ===== src/Map/Simulation.antt =====
-- aff4tools: src/map.rs, two sources of streams of which one simulates the other: the reads of a map
-- through either answer alike.
use aff4tools.Prelude.{
  ℕ, zero, suc, ◌+◌, ◌-◌, ◌≡◌, refl, ap, ◌∙◌, inl, inr, min, Option, none, some, List, [], ◌∷◌, ltb,
  ◌==◌, if◌then◌else◌, length, sat_add, Bool-cases, Option-cases,
}
use aff4tools.Prelude.Results.{Result, ok, err}
use aff4tools.Prelude.Exec.{Exec, Sink, pure, raise, continue, ◌>>=◌}
use aff4tools.Arn.{Arn}
use aff4tools.Map.{
  Target, stored, repeated_byte, unknown, block_hash, unrecognised, UnknownRegions, MapEntry, Map,
  MapError, target_of, bad_total, unknown_region, UnknownKind,
}
use aff4tools.Map.Lookup.{entry_at}
use aff4tools.Map.Source.{StreamSource}
use aff4tools.Map.ReadAt.{
  Window, copy_piece, reported, produce, after_produce, read_round, read_loop, read_at_with,
}
use aff4tools.Map.Produce.{produce_stored, produce_repeated, produce_unknown}
use aff4tools.Map.ReadAll.{
  ReadAccounting, count_repeated, nothing_read, read_target, read_entries, read_all, total,
}

module _ {SA SB : Type 0} (f : SA → SB) where
  -- An outcome with the state of the one source, as one with the state of the other.
  abbrev pub across : {R X : Type 0} → R × (SA × X) → R × (SB × X)
  across r = (r.0, (f r.1.0, r.1.1))

  -- `b` simulates `a` on the streams of `P`: from states that `f` relates they answer alike, in
  -- states that it relates.
  abbrev pub Simulates : (Arn → Type 0) → StreamSource SA → StreamSource SB → Type 1
  Simulates P a b =
      (T : Type 0) (arn : Arn) (offset n : ℕ) (sink : Sink MapError T) (src : SA) (t : T)
      → P arn
      → b.read_region T arn offset n sink (f src, t)
        ≡ across (a.read_region T arn offset n sink (src, t))

-- The streams that a target, or the targets of a map, name are in `P`.
module _ (P : Arn → Type 0) where
  abbrev pub NamesOnly : Option Target → Type 0
  NamesOnly target = (arn : Arn) → target ≡ some (stored arn) → P arn

  abbrev pub NamesIn : Map → Type 0
  NamesIn m = (e : MapEntry) → NamesOnly (target_of m e)

module _ {SA SB : Type 0} (f : SA → SB) (P : Arn → Type 0) (a : StreamSource SA)
    (b : StreamSource SB) (simulates : Simulates f P a b) where
  produce-across :
      (position : ℕ) (target : Target) (o want : ℕ) (src : SA) (w : Window)
      → NamesOnly P (some target)
      → produce b position target o want (f src, w)
        ≡ across f (produce a position target o want (src, w))
  unfolding produce
  produce-across position (stored arn) o want src w only =
      simulates Window arn o want copy_piece src w (only arn refl)
  produce-across position (repeated_byte byte) o want src w only = refl
  produce-across position (unknown kind) o want src w only = refl
  produce-across position (block_hash text) o want src w only = refl
  produce-across position (unrecognised text) o want src w only = refl

  -- What follows a round: it carries over too.
  abbrev Carries :
      (ℕ → SA → List ℕ → Result MapError ℕ × (SA × List ℕ))
      → (ℕ → SB → List ℕ → Result MapError ℕ × (SB × List ℕ))
      → Type 0
  Carries ka kb = (w : ℕ) (src : SA) (buf : List ℕ) → kb w (f src) buf ≡ across f (ka w src buf)

  after_produce-across :
      (stop take' : ℕ) (r : Result MapError (Unit {0}) × (SA × Window))
      (ka : ℕ → SA → List ℕ → Result MapError ℕ × (SA × List ℕ))
      (kb : ℕ → SB → List ℕ → Result MapError ℕ × (SB × List ℕ))
      → Carries ka kb
      → after_produce b stop take' (across f r) kb ≡ across f (after_produce a stop take' r ka)
  unfolding after_produce
  after_produce-across stop take' (err e, (src, w)) ka kb carries = refl
  after_produce-across stop take' (ok u, (src, w)) ka kb carries =
      elim (Bool-cases (w.cursor == stop)) [
        | inl full ↦ rw full (carries w.cursor src w.dest)
        | inr short ↦ rw short refl
      ]

  read_round-across :
      (m : Map) (mode : UnknownRegions) (offset written : ℕ) (src : SA) (buf : List ℕ)
      (ka : ℕ → SA → List ℕ → Result MapError ℕ × (SA × List ℕ))
      (kb : ℕ → SB → List ℕ → Result MapError ℕ × (SB × List ℕ))
      → NamesIn P m
      → Carries ka kb
      → read_round b m mode offset written (f src) buf kb
        ≡ across f (read_round a m mode offset written src buf ka)
  unfolding read_round
  read_round-across m mode offset written src buf ka kb only carries =
      elim (Bool-cases (ltb written (length buf))) [
        | inr full ↦ rw (full, read_round) refl
        | inl room ↦ elim (Option-cases (entry_at m (sat_add offset written))) [
          | inl past ↦ rw (room, past, read_round) refl
          | inr (e, at) ↦ elim (Option-cases (target_of m e)) [
            | inl missing ↦ rw (room, at, missing, read_round) refl
            | inr (target, named) ↦ elim (Option-cases (reported mode target)) [
              | inr (kind, reports) ↦ rw (room, at, named, reports, read_round) (told e kind)
              | inl silent ↦
                  let position = sat_add offset written in
                  let into_entry = position - e.offset in
                  let want = min (e.length - into_entry) (length buf - written) in
                  rw (room, at, named, silent, read_round)
                    (ap (λ r. after_produce b (written + want) want r kb)
                        (produce-across position target (sat_add e.target_offset into_entry) want
                          src (record { dest = buf; cursor = written })
                          (λ arn h. only e arn (named ∙ h)))
                      ∙ after_produce-across (written + want) want
                          (produce a position target (sat_add e.target_offset into_entry) want
                            (src, record { dest = buf; cursor = written }))
                          ka kb carries)
            ]
          ]
        ]
      ]
    where
      told :
          (e : MapEntry) (kind : UnknownKind)
          → (if ltb 0 written
              then (ok written, (f src, buf))
              else (err (unknown_region e.offset e.length kind), (f src, buf)))
            ≡ across f (
                if ltb 0 written
                then (ok written, (src, buf))
                else (err (unknown_region e.offset e.length kind), (src, buf)))
      told e kind = elim (Bool-cases (ltb 0 written)) [
        | inl some' ↦ rw some' refl
        | inr none' ↦ rw none' refl
      ]

  read_loop-across :
      (fuel : ℕ) (m : Map) (mode : UnknownRegions) (offset written : ℕ) (src : SA) (buf : List ℕ)
      → NamesIn P m
      → read_loop b fuel m mode offset written (f src) buf
        ≡ across f (read_loop a fuel m mode offset written src buf)
  unfolding read_loop
  read_loop-across zero m mode offset written src buf only = refl
  read_loop-across (suc fuel) m mode offset written src buf only =
      read_round-across m mode offset written src buf
        (λ w s d. read_loop a fuel m mode offset w s d)
        (λ w s d. read_loop b fuel m mode offset w s d) only
        (λ w s d. read_loop-across fuel m mode offset w s d only)

  -- `read_at_with` through either source: one answer, one buffer.
  pub read_at_with-across :
      (m : Map) (mode : UnknownRegions) (offset : ℕ) (src : SA) (buf : List ℕ)
      → NamesIn P m
      → read_at_with b m mode offset (f src) buf ≡ across f (read_at_with a m mode offset src buf)
  unfolding read_at_with
  read_at_with-across m mode offset src buf only =
      read_loop-across (length buf) m mode offset 0 src buf only

  module _ {T : Type 0} (sink : Sink MapError T) where
    bind-across :
        {A B : Type 0} (ma : Exec MapError (SA × T) A) (mb : Exec MapError (SB × T) A)
        (ka : A → Exec MapError (SA × T) B) (kb : A → Exec MapError (SB × T) B) (src : SA) (t : T)
        → mb (f src, t) ≡ across f (ma (src, t))
        → ((x : A) (src : SA) (t : T) → kb x (f src, t) ≡ across f (ka x (src, t)))
        → (mb >>= kb) (f src, t) ≡ across f ((ma >>= ka) (src, t))
    bind-across ma mb ka kb src t first then' =
        ap (λ r. continue r.0 kb r.1) first ∙ after (ma (src, t))
      where
        after :
            (r : Result MapError _ × (SA × T))
            → continue r.0 kb (f r.1.0, r.1.1) ≡ across f (continue r.0 ka r.1)
        after (ok x, (s, t')) = then' x s t'
        after (err e, (s, t')) = refl

    read_target-across :
        (m : Map) (position : ℕ) (e : MapEntry) (acc : ReadAccounting) (target : Option Target)
        (src : SA) (t : T)
        → NamesOnly P target
        → read_target b sink m position e acc target (f src, t)
          ≡ across f (read_target a sink m position e acc target (src, t))
    unfolding read_target produce_stored produce_repeated produce_unknown
    read_target-across m position e acc none src t only = refl
    read_target-across m position e acc (some (stored arn)) src t only =
        bind-across (a.read_region T arn e.target_offset e.length sink)
          (b.read_region T arn e.target_offset e.length sink)
          (λ _. pure (record acc { stored_count = sat_add acc.stored_count e.length }))
          (λ _. pure (record acc { stored_count = sat_add acc.stored_count e.length })) src t
          (simulates T arn e.target_offset e.length sink src t (only arn refl)) (λ x s t'. refl)
    read_target-across m position e acc (some (repeated_byte byte)) src t only =
        bind-across (produce_repeated a sink byte e.length) (produce_repeated b sink byte e.length)
          (λ _. pure (count_repeated m e acc)) (λ _. pure (count_repeated m e acc)) src t refl
          (λ x s t'. refl)
    read_target-across m position e acc (some (unknown kind)) src t only =
        bind-across (produce_unknown a sink kind e.length e.target_offset)
          (produce_unknown b sink kind e.length e.target_offset)
          (λ _.
            pure (record acc { unknown_placeholder = sat_add acc.unknown_placeholder e.length }))
          (λ _.
            pure (record acc { unknown_placeholder = sat_add acc.unknown_placeholder e.length }))
          src t refl (λ x s t'. refl)
    read_target-across m position e acc (some (block_hash text)) src t only = refl
    read_target-across m position e acc (some (unrecognised text)) src t only = refl

    read_entries-across :
        (m : Map) (position : ℕ) (es : List MapEntry) (acc : ReadAccounting) (src : SA) (t : T)
        → NamesIn P m
        → read_entries b sink m position es acc (f src, t)
          ≡ across f (read_entries a sink m position es acc (src, t))
    unfolding read_entries
    read_entries-across m position [] acc src t only = refl
    read_entries-across m position (e ∷ es) acc src t only =
        bind-across (read_target a sink m position e acc (target_of m e))
          (read_target b sink m position e acc (target_of m e))
          (read_entries a sink m (position + 1) es) (read_entries b sink m (position + 1) es) src t
          (read_target-across m position e acc (target_of m e) src t (only e))
          (λ acc' s t'. read_entries-across m (position + 1) es acc' s t' only)

    -- `read_all` through either source: one answer, and the sink is fed alike.
    pub read_all-across :
        (m : Map) (src : SA) (t : T)
        → NamesIn P m
        → read_all b sink m (f src, t) ≡ across f (read_all a sink m (src, t))
    unfolding read_all
    read_all-across m src t only =
        bind-across (read_entries a sink m 0 m.entries (nothing_read m.gaps.fill_source))
          (read_entries b sink m 0 m.entries (nothing_read m.gaps.fill_source))
          (λ acc. if total acc == m.size then pure acc else raise (bad_total (total acc) m.size))
          (λ acc. if total acc == m.size then pure acc else raise (bad_total (total acc) m.size))
          src t (read_entries-across m 0 m.entries (nothing_read m.gaps.fill_source) src t only)
          (λ acc s t'. checked acc s t')
      where
        checked :
            (acc : ReadAccounting) (s : SA) (t' : T)
            → (if total acc == m.size then pure acc else raise (bad_total (total acc) m.size))
                (f s, t')
              ≡ across f (
                  (if total acc == m.size then pure acc else raise (bad_total (total acc) m.size))
                    (s, t'))
        checked acc s t' = elim (Bool-cases (total acc == m.size)) [
          | inl right ↦ rw right refl
          | inr wrong ↦ rw wrong refl
        ]
