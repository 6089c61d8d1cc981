-- ===== src/Stream/Sync.antt =====
-- A client that applies the frames of its pool keeps the document that the server has: `Broadcast`
-- of stream/stream.go on one side, `PatchCache` of messages/messages.go on the other.
use katamari.Base.{
  ◌≡◌, refl, ◌⊎◌, inl, inr, Bool, true, false, not, ◌&&◌, none, some, ltb, length, Bool-cases, ok,
  Result-cases,
}
use katamari.Base.Int.{ℤ}
use katamari.Base.Text.{Bytes, codes, bytes_eq, bytes_eq_iff}
use katamari.Key.Number.{format_int}
use katamari.Objects.{Codec}
use katamari.Messages.{Patcher, trim, encode, patch_cache, decode_buffer}
use katamari.Stream.Pools.{Pool}
use katamari.Stream.{patch, frame_text}

-- What is known of the libraries. `Same a b` says that the texts `a` and `b` are one JSON document.
pub record IsFaithful (codec : Codec) (patcher : Patcher) (Same : Bytes → Bytes → Type 0)
    : Type 0 where
  -- base64 decodes what it encoded
  pub decode64_encode64 : (s : Bytes) → codec.decode64 (codec.encode64 s) ≡ ok s
  -- json.Unmarshal reads the fields of the text that `Write` sends
  pub message :
      (s : Bytes) (snapshot : Bool) (version : ℤ)
      → patcher.unmarshal_message (frame_text (codec.encode64 s) snapshot version) ≡ (
        record { content = codec.encode64 s; version = format_int version; snapshot = snapshot },
        none,
      )
  -- newlines around a document do not belong to it
  pub same-trim : (a : Bytes) → Same a (trim a)
  -- a patch from `a` to `b` takes any text of the document `a` to one of `b`; the patch with no
  -- operation is made for equal documents only
  pub patched :
      (a b c operations : Bytes) (p : patcher.Patch)
      → patcher.create a b ≡ ok p
      → patcher.marshal p ≡ ok operations
      → Same a c
      → (p' : patcher.Patch) × (d : Bytes) × (patcher.decode_patch (trim operations) ≡ ok (some p'))
        × (patcher.apply p' c ≡ ok (some d))
        × Same b d
  pub unchanged :
      (a b c operations : Bytes) (p : patcher.Patch)
      → patcher.create a b ≡ ok p
      → patcher.marshal p ≡ ok operations
      → trim operations ≡ codes "[]"
      → Same a c
      → Same b c

module _ {codec : Codec} {patcher : Patcher} {Same : Bytes → Bytes → Type 0} where
  -- A message that was written is decoded to the data that were encoded in it.
  decode_buffer-frame_text :
      (h : IsFaithful codec patcher Same) (s : Bytes) (snapshot : Bool) (version : ℤ)
      → decode_buffer codec patcher (frame_text (encode codec s) snapshot version)
        ≡ (record { content = trim s; version = format_int version; snapshot = snapshot }, none)
  unfolding decode_buffer encode
  decode_buffer-frame_text h s snapshot version =
      rw (decode_buffer, h.message s snapshot version, h.decode64_encode64 s)

-- What `Patch` chooses to send: the data as a snapshot, or, unless patches are turned off, the
-- operations of a patch, which are no longer than the data unless patches are forced.
abbrev pub SendsPatch : Patcher → Bool → Bool → Pool → Bytes → Type 0
SendsPatch patcher no_patch force p content =
    (q : patcher.Patch) × (operations : Bytes) × (patcher.create p.cache.content content ≡ ok q)
    × (patcher.marshal q ≡ ok operations)
    × (no_patch ≡ false)
    × (not force && ltb (length content) (length operations) ≡ false)
    × (patch patcher no_patch force p content ≡ (operations, false))

-- What `Patch` gives for new data is either that data, as a snapshot, or a patch: then patches are
-- not disabled, the patch was made from the cached data to the new data, and it is not longer than
-- the new data unless patches are forced.
patch_cases :
    (patcher : Patcher) (no_patch force : Bool) (p : Pool) (content : Bytes)
    → (patch patcher no_patch force p content ≡ (content, true))
      ⊎ SendsPatch patcher no_patch force p content
unfolding patch
patch_cases patcher true force p content = inl refl
patch_cases patcher false force p content =
    elim (Result-cases (patcher.create p.cache.content content)) [
      | inl (e, failed) ↦ inl (rw failed)
      | inr (q, made) ↦ elim (Result-cases (patcher.marshal q)) [
        | inl (e, failed) ↦ inl (rw (made, failed))
        | inr (operations, encoded) ↦
            elim (Bool-cases (not force && ltb (length content) (length operations))) [
              | inl long ↦ inl (rw (made, encoded, long))
              | inr short ↦
                  inr (q, operations, made, encoded, refl, short, rw (made, encoded, short))
            ]
      ]
    ]

module _ {codec : Codec} {patcher : Patcher} {Same : Bytes → Bytes → Type 0} where
  -- the client's side of a snapshot and of a patch
  pub snapshot_received :
      (h : IsFaithful codec patcher Same) (s cache : Bytes) (version : ℤ)
      → patch_cache codec patcher (frame_text (encode codec s) true version) cache ≡ (trim s, none)
  unfolding patch_cache
  snapshot_received h s cache version = rw (patch_cache, decode_buffer-frame_text h s true version)

  patch_received :
      (h : IsFaithful codec patcher Same) (a b cache operations : Bytes) (q : patcher.Patch)
      (version : ℤ)
      → patcher.create a b ≡ ok q
      → patcher.marshal q ≡ ok operations
      → Same a cache
      → (cache' : Bytes) × (patch_cache codec patcher
            (frame_text (encode codec operations) false version)
            cache
          ≡ (cache', none))
        × Same b cache'
  unfolding patch_cache
  patch_received h a b cache operations q version made encoded same =
      elim (Bool-cases (bytes_eq (trim operations) (codes "[]"))) [
        | inl none_to_do ↦ (
          cache,
          rw (patch_cache, decode_buffer-frame_text h operations false version, none_to_do),
          h.unchanged a b cache operations q made encoded
              ((bytes_eq_iff (trim operations) (codes "[]")).0 none_to_do) same,
        )
        | inr some_to_do ↦
            let (q', d, decoded, applied, same') =
              h.patched a b cache operations q made encoded same in
            (
              d,
              rw (
                patch_cache,
                decode_buffer-frame_text h operations false version,
                some_to_do,
                decoded,
                applied,
              ),
              same',
            )
      ]

  -- What `Patch` sends takes a client from the document of the pool's cache to the new data.
  pub patch-received :
      (h : IsFaithful codec patcher Same) (no_patch force : Bool) (p : Pool) (content cache : Bytes)
      (version : ℤ)
      → Same p.cache.content cache
      → (cache' : Bytes) × (patch_cache codec patcher
            (frame_text
              (encode codec (patch patcher no_patch force p content).0)
              (patch patcher no_patch force p content).1
              version)
            cache
          ≡ (cache', none))
        × Same content cache'
  patch-received h no_patch force p content cache version same =
      elim (patch_cases patcher no_patch force p content) [
        | inl snapshot ↦
            rw snapshot
              (trim content, snapshot_received h content cache version, h.same-trim content)
        | inr (q, operations, made, encoded, on, short, sent) ↦
            rw sent (
              patch_received h p.cache.content content cache operations q version made encoded same)
      ]
