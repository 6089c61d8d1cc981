-- ===== src/Client/Tracking.antt =====
-- What a subscription of client/subscribe.go calls back with, against the pool of the server that
-- its connection stands in.
use katamari.Base.{
  ℕ, ◌≡◌, refl, inl, inr, Bool, true, false, List, [], ◌∷◌, ◌++◌, map, Option, none, some, arith,
  ◌==◌, if◌then◌else◌, Bool-cases, Result, ok, Result-cases,
}
use katamari.Base.Text.{Bytes, count}
use katamari.Key.{peer}
use katamari.Objects.{Object, Codec, decode, decode_list}
use katamari.Messages.{Patcher, patch, patch_list, patch_cache}
use katamari.Stream.Pools.{Pool, Frame}
use katamari.Stream.Sync.{IsFaithful, patch-received}
use katamari.Stream.Mirror.{Round, round}
use katamari.Stream.{set_pool_cache, broadcast_pool}
use katamari.Client.{Meta}
use katamari.Client.Subscribe.{
  reading, Subscriber, is_list, take_message, read_message, items, called, meta_of, Items,
  items-Items,
}

abbrev last_call : {T : Type 0} → List (List (Meta T)) → Option (List (Meta T))
last_call [] = none
last_call (c ∷ []) = some c
last_call (c ∷ d ∷ cs) = last_call (d ∷ cs)

last_call-append :
    {T : Type 0} (cs : List (List (Meta T))) (c : List (Meta T)) → last_call (cs ++ c ∷ []) ≡ some c
last_call-append [] c = refl
last_call-append (d ∷ []) c = refl
last_call-append (d ∷ e ∷ cs) c = last_call-append (e ∷ cs) c

module _ {T : Type 0} (codec : Codec) (patcher : Patcher) (read_item : Bytes → Result T)
    (path : Bytes) where
  -- The text decodes as what the path asks for: a list, or one object whose data are a `T`.
  abbrev pub ReadableBy : Bool → Bytes → Type 0
  ReadableBy true text = (objs : List Object) × (decode_list codec text ≡ (objs, none))
  ReadableBy false text =
      (obj : Object) × (item : T) × (decode codec text ≡ (obj, none))
      × (read_item obj.content ≡ ok item)

  abbrev pub IsReadable : Bytes → Type 0
  IsReadable = ReadableBy (is_list path)

  -- what such a text shows: the items of the list that are a `T`, or the one item
  abbrev pub shown_by : Bool → Bytes → List (Meta T)
  shown_by true text = items read_item (decode_list codec text).0
  shown_by false text = items read_item ((decode codec text).0 ∷ [])

  -- The same, without the code's loop: what the callback is to be called with.
  abbrev pub ShowsBy : Bool → Bytes → List (Meta T) → Type 0
  ShowsBy true text res =
      (objs : List Object) × (decode_list codec text ≡ (objs, none)) × Items read_item objs res
  ShowsBy false text res =
      (obj : Object) × (item : T) × (decode codec text ≡ (obj, none))
      × (read_item obj.content ≡ ok item)
      × (res ≡ meta_of obj item ∷ [])

  abbrev pub Shows : Bytes → List (Meta T) → Type 0
  Shows = ShowsBy (is_list path)

  shown_by-Shows :
      (list : Bool) (text : Bytes) → ReadableBy list text → ShowsBy list text (shown_by list text)
  unfolding items
  shown_by-Shows true text (objs, decoded) =
      (objs, decoded, rw decoded (items-Items read_item objs))
  shown_by-Shows false text (obj, item, decoded, typed) =
      (obj, item, decoded, typed, rw (decoded, typed) refl)

  abbrev pub shown : Bytes → List (Meta T)
  shown = shown_by (is_list path)

  take_shown :
      (list : Bool) (text cache : Bytes) (s : Subscriber T)
      → is_list path ≡ list
      → patch_cache codec patcher text s.cache ≡ (cache, none)
      → ReadableBy list cache
      → take_message codec patcher read_item path text s
        ≡ called codec patcher read_item (shown_by list cache) (record s { cache = cache })
  unfolding take_message patch patch_list items
  take_shown true text cache s list applied (objs, decoded) =
      rw (take_message, list, patch_list, applied, decoded) refl
  take_shown false text cache s list applied (obj, item, decoded, typed) =
      rw (take_message, list, patch, applied, decoded, typed) refl

  -- The subscription reads, its cache is a text of the pool's document, and its last call of the
  -- callback showed just this cache.
  pub record Tracks (Same : Bytes → Bytes → Type 0) (p : Pool) (s : Subscriber T) : Type 0 where
    pub phase : s.phase ≡ reading
    pub same : Same p.cache.content s.cache
    pub result : List (Meta T)
    pub last : last_call s.calls ≡ some result
    pub shows : Shows s.cache result

  -- A message that takes the cache to a readable text of the document is called back with.
  pub read_message-Tracks :
      (Same : Bytes → Bytes → Type 0) (text cache : Bytes) (p : Pool) (s : Subscriber T)
      → s.phase ≡ reading
      → patch_cache codec patcher text s.cache ≡ (cache, none)
      → Same p.cache.content cache
      → IsReadable cache
      → Tracks Same p (read_message codec patcher read_item path (some text) s)
  unfolding read_message
  read_message-Tracks Same text cache p s before applied same readable =
      rw (take_shown (is_list path) text cache s refl applied readable) (record {
        phase = before;
        same = same;
        result = shown cache;
        last = last_call-append s.calls (shown cache);
        shows = shown_by-Shows (is_list path) cache readable;
      })

  -- the frames of one connection, read in order
  unfoldable pub read_frames : ℕ → List Frame → Subscriber T → Subscriber T
  read_frames client [] s = s
  read_frames client ((k, text) ∷ frames) s =
      read_frames client frames
        (if k == client then read_message codec patcher read_item path (some text) s else s)

  read_frames-others :
      (client : ℕ) (ks : List ℕ) (text : Bytes) (s : Subscriber T)
      → count ks client ≡ 0
      → read_frames client (map (λ k. (k, text)) ks) s ≡ s
  unfolding read_frames count
  read_frames-others client [] text s h = refl
  read_frames-others client (k ∷ ks) text s h =
      let other : (k == client) ≡ false = ground arith in
      rw (read_frames, other) (read_frames-others client ks text s (ground arith))

  read_frames-once :
      (client : ℕ) (ks : List ℕ) (text : Bytes) (s : Subscriber T)
      → count ks client ≡ 1
      → read_frames client (map (λ k. (k, text)) ks) s
        ≡ read_message codec patcher read_item path (some text) s
  unfolding read_frames count
  read_frames-once client [] text s h = absurd (omega arith)
  read_frames-once client (k ∷ ks) text s h = elim (Bool-cases (k == client)) [
    | inl self ↦ rw (read_frames, self) (read_frames-others client ks text _ (ground arith))
    | inr other ↦ rw (read_frames, other) (read_frames-once client ks text s (ground arith))
  ]

  pub read_frames-Tracks :
      (Same : Bytes → Bytes → Type 0) (client : ℕ) (ks : List ℕ) (text cache : Bytes) (p : Pool)
      (s : Subscriber T)
      → count ks client ≡ 1
      → s.phase ≡ reading
      → patch_cache codec patcher text s.cache ≡ (cache, none)
      → Same p.cache.content cache
      → IsReadable cache
      → Tracks Same p (read_frames client (map (λ k. (k, text)) ks) s)
  read_frames-Tracks Same client ks text cache p s once before applied same readable =
      rw (read_frames-once client ks text s once)
        (read_message-Tracks Same text cache p s before applied same readable)

  module _ (no_patch force : Bool) where
    -- the pool and the subscription after some broadcasts
    unfoldable pub attend : ℕ → List Round → Pool → Subscriber T → Pool × Subscriber T
    attend client [] p s = (p, s)
    attend client (r ∷ rs) p s =
        let (p', frames) = round codec patcher no_patch force r p in
        attend client rs p' (read_frames client frames s)

    -- Every document that is served in a round has readable texts only.
    abbrev pub Serves : (Bytes → Bytes → Type 0) → List Round → Type 0
    Serves Same [] = Unit {0}
    Serves Same (r ∷ rs) =
        ((key doc cache : Bytes) → r.get key ≡ ok doc → Same doc cache → IsReadable cache)
        × Serves Same rs

module _ {T : Type 0} {codec : Codec} {patcher : Patcher} {Same : Bytes → Bytes → Type 0}
    (faithful : IsFaithful codec patcher Same) (read_item : Bytes → Result T) (path : Bytes)
    (no_patch force : Bool) where
  round-Tracks :
      (client : ℕ) (r : Round) (p : Pool) (s : Subscriber T)
      → count p.connections client ≡ 1
      → ((key doc cache : Bytes)
          → r.get key ≡ ok doc
          → Same doc cache
          → IsReadable codec patcher read_item path cache)
      → Tracks codec patcher read_item path Same p s
      → let (p', frames) = round codec patcher no_patch force r p in
        Tracks codec patcher read_item path Same p'
          (read_frames codec patcher read_item path client frames s)
        × (p'.connections ≡ p.connections)
  unfolding broadcast_pool set_pool_cache
  round-Tracks client r p s once readable t = elim (Bool-cases (peer p.key r.path)) [
    | inl concerned ↦ elim (Result-cases (r.get p.key)) [
      | inl (e, filtered) ↦ rw (concerned, filtered) (unfold read_frames in t, refl)
      | inr (doc, there) ↦
          let (cache, applied, same) =
            patch-received faithful no_patch force p doc s.cache r.now t.same in
          rw (concerned, there)
            (
              read_frames-Tracks codec patcher read_item path Same client p.connections _ cache _ s
                  once t.phase applied same (readable p.key doc cache there same),
              refl,
            )
    ]
    | inr other ↦ rw other (unfold read_frames in t, refl)
  ]

  -- A subscription whose connection stands once in a pool, and which tracks it, tracks it after any
  -- broadcasts whose data have readable texts: it still reads, its cache is a text of what the pool
  -- holds, and the callback was last called with the items of this cache.
  pub attend-Tracks :
      (client : ℕ) (rs : List Round) (p : Pool) (s : Subscriber T)
      → count p.connections client ≡ 1
      → Serves codec patcher read_item path no_patch force Same rs
      → Tracks codec patcher read_item path Same p s
      → let (p', s') = attend codec patcher read_item path no_patch force client rs p s in
        Tracks codec patcher read_item path Same p' s'
  unfolding attend
  attend-Tracks client [] p s once serves t = t
  attend-Tracks client (r ∷ rs) p s once (readable, serves) t =
      let (t', kept) = round-Tracks client r p s once readable t in
      attend-Tracks client rs _ _ (rw kept once) serves t'
