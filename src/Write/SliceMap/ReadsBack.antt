-- ===== src/Write/SliceMap/ReadsBack.antt =====
-- aff4tools: src/write/map_writer.rs against src/map.rs, the map of a file that is a list of chunks.
use aff4tools.Prelude.{
  ℕ, ◌*◌, ◌/◌, ◌%◌, ◌^◌, ◌<◌, ◌≡◌, refl, ap, ◌∙◌, inl, inr, true, some, List, [], ◌∷◌, ◌++◌, arith,
  leb, ◌==◌, length, get_elem?, get_elem?-append_old, get_elem?-append_new, map, All, Bool-cases,
  Option-cases,
}
use aff4tools.Prelude.Results.{Result, ok, err, ok-injective}
use mathlib.Core.Path.{subst, ap₂}
use aff4tools.Text.{Text}
use aff4tools.Map.{MapEntry}
use aff4tools.Map.Decode.{map_entry_len, decode_entry, chunks, parse_entries, from_le_bytes}
use aff4tools.Stream.Reader.{get}
use aff4tools.Stream.Reader.Caches.{All-get, All-insert}
use aff4tools.Write.Bevy.{to_le_bytes}
use aff4tools.Write.Bevy.Pushed.{le8, le4}
use aff4tools.Write.SliceMap.{SliceError, SliceMap, encode_entry, encode_entries, local_id_of}

-- An entry whose fields fit their widths.
abbrev pub IsRepresentable : MapEntry → Type 0
IsRepresentable e =
    (e.offset < 2 ^ 64) × (e.length < 2 ^ 64) × (e.target_offset < 2 ^ 64) × (e.target_id < 2 ^ 32)

decode_entry-encode : (e : MapEntry) → IsRepresentable e → decode_entry (encode_entry e) ≡ e
unfolding decode_entry encode_entry to_le_bytes
decode_entry-encode e (o, n, t, i) =
    ap
      (λ (k : ℕ). record {
        offset = k;
        length = from_le_bytes (to_le_bytes 8 e.length);
        target_offset = from_le_bytes (to_le_bytes 8 e.target_offset);
        target_id = from_le_bytes (to_le_bytes 4 e.target_id);
      })
      (le8 e.offset o)
    ∙ ap
        (λ (k : ℕ). record {
          offset = e.offset;
          length = k;
          target_offset = from_le_bytes (to_le_bytes 8 e.target_offset);
          target_id = from_le_bytes (to_le_bytes 4 e.target_id);
        })
        (le8 e.length n)
    ∙ ap
        (λ (k : ℕ). record {
          offset = e.offset;
          length = e.length;
          target_offset = k;
          target_id = from_le_bytes (to_le_bytes 4 e.target_id);
        })
        (le8 e.target_offset t)
    ∙ ap
        (λ (k : ℕ). record {
          offset = e.offset;
          length = e.length;
          target_offset = e.target_offset;
          target_id = k;
        })
        (le4 e.target_id i)

length-encode_entries :
    (es : List MapEntry) → length (encode_entries es) ≡ map_entry_len * length es
unfolding encode_entries to_le_bytes
length-encode_entries [] = refl
length-encode_entries (e ∷ es) = let rest = length-encode_entries es in omega (arith, rest)

decoded-encode_entries :
    (es : List MapEntry)
    → All IsRepresentable es
    → map decode_entry (chunks map_entry_len (length es) (encode_entries es)) ≡ es
unfolding chunks encode_entries to_le_bytes
decoded-encode_entries [] all = refl
decoded-encode_entries (e ∷ es) all =
    ap₂ (λ a b. a ∷ b) (decode_entry-encode e all.0) (decoded-encode_entries es all.1)

-- The `map` segment that a writer encodes reads back as its entries, where their fields fit their
-- widths.
pub parse_entries-encode :
    (es : List MapEntry) → All IsRepresentable es → parse_entries (encode_entries es) ≡ ok es
unfolding parse_entries
parse_entries-encode es all =
    let size = length-encode_entries es in
    let count : length (encode_entries es) / map_entry_len ≡ length es = omega (arith, size) in
    let whole : (length (encode_entries es) % map_entry_len == 0) ≡ true = ground (arith, size) in
    rw (count, whole) (ap ok (decoded-encode_entries es all))

pub encode_entries-append :
    (es : List MapEntry) (e : MapEntry)
    → encode_entries (e ∷ es) ≡ encode_entry e ++ encode_entries es
unfolding encode_entries
encode_entries-append es e = refl

module _ (targets : List Text) where
  -- A local id names the text of its chunk.
  abbrev pub Names : List Text → ℕ × ℕ → Type 0
  Names local_targets entry =
      (text : Text) × (get_elem? targets entry.0 ≡ some text)
      × (get_elem? local_targets entry.1 ≡ some text)
      × (entry.1 < 2 ^ 32)

  abbrev pub Extends : List Text → List Text → Type 0
  Extends before after =
      (i : ℕ) (text : Text) → get_elem? before i ≡ some text → get_elem? after i ≡ some text

  All-Names :
      (before after : List Text) (entries : List (ℕ × ℕ))
      → Extends before after
      → All (Names before) entries
      → All (Names after) entries
  All-Names before after [] more all = tt
  All-Names before after (e ∷ es) more ((text, global, local, small), all) =
      ((text, global, more e.1 text local, small), All-Names before after es more all)

  pub local_id_of-Names :
      (t : ℕ) (text : Text) (s s' : SliceMap) (id : ℕ)
      → get_elem? targets t ≡ some text
      → All (Names s.local_targets) s.local_of
      → local_id_of t text s ≡ ok (id, s')
      → Names s'.local_targets (t, id)
        × All (Names s'.local_targets) s'.local_of
        × (s'.map_bytes ≡ s.map_bytes)
        × Extends s.local_targets s'.local_targets
  unfolding local_id_of
  local_id_of-Names t text s s' id global all h = elim (Option-cases (get t s.local_of)) [
    | inr (known, there) ↦
        let same : (known, s) ≡ (id, s') = ok-injective (rw (there, local_id_of) at h) in
        let named = All-get (Names s.local_targets) t s.local_of known all there in
        subst
          (λ (r : ℕ × SliceMap).
            Names r.1.local_targets (t, r.0)
            × All (Names r.1.local_targets) r.1.local_of
            × (r.1.map_bytes ≡ s.map_bytes)
            × Extends s.local_targets r.1.local_targets)
          same (named, all, refl, λ i text h. h)
    | inl absent ↦ elim (Bool-cases (leb (2 ^ 32) (length s.local_targets))) [
      | inl full ↦
          let clash : ◌≡◌ {A = Result SliceError (ℕ × SliceMap)} (err SliceError.too_many_chunks)
              (ok (id, s')) =
            rw (absent, full, local_id_of) at h in
          cc
      | inr room ↦
          let same = ok-injective (rw (absent, room, local_id_of) at h) in
          let small : length s.local_targets < 2 ^ 32 = ground (arith, room) in
          let more : Extends s.local_targets (s.local_targets ++ (text ∷ [])) =
            λ i w h. get_elem?-append_old s.local_targets (text ∷ []) i w h in
          let named : Names (s.local_targets ++ (text ∷ [])) (t, length s.local_targets) =
            (text, global, get_elem?-append_new s.local_targets text, small) in
          subst
            (λ (r : ℕ × SliceMap).
              Names r.1.local_targets (t, r.0)
              × All (Names r.1.local_targets) r.1.local_of
              × (r.1.map_bytes ≡ s.map_bytes)
              × Extends s.local_targets r.1.local_targets)
            same
            (
              named,
              All-insert (Names (s.local_targets ++ (text ∷ []))) t (length s.local_targets)
                  s.local_of
                  (All-Names s.local_targets (s.local_targets ++ (text ∷ [])) s.local_of more all)
                  named,
              refl,
              more,
            )
    ]
  ]
