-- ===== src/Stream/Pass/Runs.antt =====
-- aff4tools: src/stream.rs, the loop over the chunks of a bevy: which chunks the sink took.
use aff4tools.Prelude.{
  ℕ, suc, ◌+◌, ◌*◌, ◌≤◌, ◌<◌, ◌≡◌, ◌⊎◌, refl, ap, ◌∙◌, inl, inr, min, Option, some, List, [], ◌∷◌,
  ◌++◌, arith, ltb, ltb→lt, length, length-append, get_elem?, flatten, flatten-append, u64_max,
  Bool-cases,
}
use aff4tools.Prelude.Results.{Result, ok, ok-injective}
use aff4tools.Prelude.Exec.{Sink, continue, feed, feed-append, bind-eq-ok, lift}
use aff4tools.Text.{Text}
use aff4tools.Arn.Member.{NameMapping}
use aff4tools.Codec.{Decoders}
use aff4tools.Stream.{ChunkLocation, ImageStream, StreamError, Volume, plain_chunk, deliver_chunks}
use aff4tools.Stream.Pass.{Bevy, IsChunk, AreChunks, AreChunks-append, plain_chunk-IsChunk}

pub same_result :
    {S : Type 0} (d d' : ℕ) (s s' : S)
    → ◌≡◌ {A = Result StreamError ℕ × S} (ok d, s) (ok d', s')
    → (d ≡ d') × (s ≡ s')
same_result d d' s s' h = (ok-injective (ap (λ r. r.0) h), ap (λ r. r.1) h)

module _ (decoders : Decoders) (stream : ImageStream) {V : Type 0} (volume : Volume V)
    (mapping : NameMapping) (stored : Text → Option (List ℕ)) (word : stream.size ≤ u64_max)
    {T : Type 0} (sink : Sink StreamError T) where
  -- The sink took the chunks from number `n` up to `n'`, with which `d` bytes became `d'`.
  pub record Delivered (n n' d d' : ℕ) (t t' : T) : Type 0 where
    pub pieces : List (List ℕ)
    pub count : n + length pieces ≡ n'
    pub chunks : AreChunks decoders stream volume mapping stored n pieces
    pub amount : d + length (flatten pieces) ≡ d'
    pub reached : d' ≡ min (n' * stream.chunk_size) stream.size
    pub fed : feed sink pieces t ≡ (ok tt, t')

  pub nothing-Delivered :
      (n d : ℕ) (t : T) → d ≡ min (n * stream.chunk_size) stream.size → Delivered n n d d t t
  unfolding feed
  nothing-Delivered n d t at = record {
    pieces = [];
    count = omega arith;
    chunks = tt;
    amount = omega arith;
    reached = at;
    fed = refl;
  }

  one-Delivered :
      (n d : ℕ) (piece : List ℕ) (t t' : T) (u : Unit {0})
      → d ≡ n * stream.chunk_size
      → d < stream.size
      → IsChunk decoders stream volume mapping stored n piece
      → sink piece t ≡ (ok u, t')
      → Delivered n (suc n) d (d + length piece) t t'
  unfolding feed
  one-Delivered n d piece t t' u at room chunk took = record {
    pieces = piece ∷ [];
    count = omega arith;
    chunks = (chunk, tt);
    amount = omega (arith, length-append piece []);
    reached = omega (arith, chunk.whole, at, room);
    fed = rw took refl;
  }

  pub both-Delivered :
      (n n1 n' a b c : ℕ) (t t1 t' : T)
      → Delivered n n1 a b t t1
      → Delivered n1 n' b c t1 t'
      → Delivered n n' a c t t'
  both-Delivered n n1 n' a b c t t1 t' p q = record {
    pieces = p.pieces ++ q.pieces;
    count = omega (arith, length-append p.pieces q.pieces, p.count, q.count);
    chunks =
        AreChunks-append decoders stream volume mapping stored n n1 p.pieces q.pieces p.count
          p.chunks q.chunks;
    amount =
        ap (λ k. a + k)
          (ap length (flatten-append p.pieces q.pieces)
            ∙ length-append (flatten p.pieces) (flatten q.pieces))
        ∙ omega (arith, p.amount, q.amount);
    reached = q.reached;
    fed =
        feed-append sink p.pieces q.pieces t
        ∙ ap (λ (r : Result StreamError (Unit {0}) × T). continue r.0 (λ _. feed sink q.pieces) r.1)
            p.fed
        ∙ q.fed;
  }

  pub started :
      (n n' a b : ℕ) (t t0 t1 : T) → t ≡ t0 → Delivered n n' a b t0 t1 → Delivered n n' a b t t1
  started n n' a b t t0 t1 e q = rw e q

  -- A run that stops at chunk `stop`, or at the end of the stream.
  abbrev pub Runs : (n d d' stop : ℕ) (t t' : T) → Type 0
  Runs n d d' stop t t' = (n' : ℕ) × Delivered n n' d d' t t' × ((stream.size ≤ d') ⊎ (n' ≡ stop))

  stop_of :
      (base rest j n' d' : ℕ)
      → (stream.size ≤ d') ⊎ (n' ≡ base + (rest + suc j))
      → (stream.size ≤ d') ⊎ (n' ≡ base + (suc rest + j))
  stop_of base rest j n' d' (inl ended) = inl ended
  stop_of base rest j n' d' (inr at) = inr (omega (arith, at))

  pub deliver_chunks-Runs :
      (i : ℕ) (bevy : List ℕ) (locations : List ChunkLocation)
      → Bevy decoders stream volume mapping stored i bevy locations
      → (rest : List ChunkLocation) (j n d d' : ℕ) (t t' : T)
      → ((k m : ℕ) (l : ChunkLocation)
          → k + j ≡ m
          → get_elem? rest k ≡ some l
          → get_elem? locations m ≡ some l)
      → length rest + j ≤ stream.chunks_in_segment
      → n ≡ i * stream.chunks_in_segment + j
      → d ≡ min (n * stream.chunk_size) stream.size
      → deliver_chunks decoders stream sink bevy rest j d t ≡ (ok d', t')
      → Runs n d d' (i * stream.chunks_in_segment + (length rest + j)) t t'
  unfolding deliver_chunks
  deliver_chunks-Runs i bevy locations b [] j n d d' t t' listed bound e at h =
      let (same, same') = same_result d d' t t' h in
      (n, rw (← same, ← same') (nothing-Delivered n d t at), inr (omega (arith, e)))
  deliver_chunks-Runs i bevy locations b (location ∷ rest) j n d d' t t' listed bound e at h =
      elim (Bool-cases (ltb d stream.size)) [
        | inr full ↦
            let (same, same') = same_result d d' t t' (rw (full, deliver_chunks) at h) in
            let ended : stream.size ≤ d' = rw (← same) (ground (arith, full)) in
            (n, rw (← same, ← same') (nothing-Delivered n d t at), inl ended)
        | inl more ↦
            let room = ltb→lt d stream.size more in
            let exact : d ≡ n * stream.chunk_size = omega (arith, at, room) in
            let (piece, t0, cut, h1) =
              bind-eq-ok (lift (plain_chunk decoders stream bevy location j d)) _ t d' t'
                (rw (more, deliver_chunks) at h) in
            let (u, t1, took, h2) = bind-eq-ok (sink piece) _ t0 d' t' h1 in
            let made : plain_chunk decoders stream bevy location j d ≡ ok piece =
              ap (λ r. r.0) cut in
            let here : t ≡ t0 = ap (λ r. r.1) cut in
            let chunk =
              plain_chunk-IsChunk decoders stream volume mapping stored word i j n d bevy locations
                location piece b (listed 0 j location (omega arith) refl) (omega (arith, bound)) e
                exact made in
            let first =
              one-Delivered n d piece t t1 u exact room chunk (ap (sink piece) here ∙ took) in
            let (n', last, stopped) =
              deliver_chunks-Runs i bevy locations b rest (suc j) (suc n) (d + length piece) d' t1
                t' (λ k m l at_m found. listed (suc k) m l (omega (arith, at_m)) found)
                (omega (arith, bound)) (omega (arith, e)) first.reached h2 in
            (
              n',
              both-Delivered n (suc n) n' d (d + length piece) d' t t1 t' first last,
              stop_of (i * stream.chunks_in_segment) (length rest) j n' d' stopped,
            )
      ]
