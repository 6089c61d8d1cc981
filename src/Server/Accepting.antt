-- ===== src/Server/Accepting.antt =====
-- Which keys a request may be published under, and what it does then: `publish` of rest.go.
use katamari.Base.{
  ℕ, suc, ◌≡◌, refl, ap, ◌∙◌, ◌↔◌, ◌⊎◌, inl, inr, Bool, true, false, not, ◌||◌, ◌&&◌, ltb, ◌==◌, [],
  ◌∷◌, ◌++◌, Option, none, some, arith, length, length-append, Bool-cases, ok, err, Error, returns,
  panics, blocks,
}
use katamari.Base.Int.{ℤ}
use katamari.Base.Text.{Bytes, codes, count, asterisk}
use katamari.Key.{is_valid, build}
use katamari.Objects.{Codec}
use katamari.Storage.{Database}
use katamari.Filters.{check_watchers}
use katamari.Messages.{Patcher}
use katamari.Server.{Request, Response, Server, is_publishable, index_of, is_last, shifted}
use katamari.Server.Rest.{publish}
use katamari.Server.Publishing.{Accepts, publish_branches}

module _ (a : ℕ) where
  -- the byte stands at the end, and nowhere else
  abbrev EndsIn : Bytes → Type 0
  EndsIn s = (init : Bytes) × (s ≡ init ++ a ∷ []) × (count init a ≡ 0)

  is_last-shifted : (o : Option ℕ) (n : ℕ) → is_last (shifted o) (suc n) ≡ true → is_last o n ≡ true
  is_last-shifted none n h = ground (arith, h)
  is_last-shifted (some i) n h = ground (arith, h)

  EndsIn-cons : (c : ℕ) (s : Bytes) → (c == a) ≡ false → EndsIn s → EndsIn (c ∷ s)
  unfolding count
  EndsIn-cons c s other (init, e, h) = (c ∷ init, ap (λ t. c ∷ t) e, rw other (omega (arith, h)))

  is_last-EndsIn : (s : Bytes) → count s a ≡ 1 → is_last (index_of s a) (length s) ≡ true → EndsIn s
  unfolding count index_of
  is_last-EndsIn [] one h = absurd (omega arith)
  is_last-EndsIn (c ∷ []) one h =
      let same : c ≡ a = ground arith in ([], ap (λ d. d ∷ []) same, refl)
  is_last-EndsIn (c ∷ d ∷ s) one h = elim (Bool-cases (c == a)) [
    | inl same ↦ let early = rw same at h in absurd (ground arith)
    | inr other ↦ EndsIn-cons c (d ∷ s) other (
        is_last-EndsIn (d ∷ s) (ground (arith, other))
          (is_last-shifted (index_of (d ∷ s) a) _ (rw other at h)))
  ]

  index_of-EndsIn :
      (init : Bytes)
      → count init a ≡ 0
      → (count (init ++ a ∷ []) a ≡ 1) × (index_of (init ++ a ∷ []) a ≡ some (length init))
  unfolding count index_of
  index_of-EndsIn [] h = let self : (a == a) ≡ true = ground arith in rw self (refl, refl)
  index_of-EndsIn (c ∷ init) h =
      let other : (c == a) ≡ false = ground arith in
      let (one, at_end) = index_of-EndsIn init (ground (arith, h, other)) in
      rw other (omega (arith, one), ap shifted at_end)

  EndsIn-is_last :
      (s : Bytes) → EndsIn s → (count s a ≡ 1) × (is_last (index_of s a) (length s) ≡ true)
  EndsIn-is_last s (init, e, h) =
      let (one, at_end) = index_of-EndsIn init h in
      rw (e, one, at_end, length-append) (refl, ground arith)

-- The key is valid, and no segment or only its last byte is a star.
abbrev pub IsPublishable : Bytes → Type 0
IsPublishable key = (is_valid key ≡ true) × ((count key asterisk ≡ 0) ⊎ EndsIn asterisk key)

guard_iff :
    (v l : Bool) (c : ℕ)
    → (not (not v || (ltb 1 c || (c == 1 && not l))) ≡ true)
      ↔ ((v ≡ true) × ((c ≡ 0) ⊎ ((c ≡ 1) × (l ≡ true))))
guard_iff v l c = ground arith

is_publishable_iff : (key : Bytes) → (is_publishable key ≡ true) ↔ IsPublishable key
unfolding is_publishable
is_publishable_iff key =
    let iff =
      guard_iff (is_valid key) (is_last (index_of key asterisk) (length key))
        (count key asterisk) in
    (
      λ h.
          let (valid, stars) = iff.0 h in
          (
            valid,
            elim stars [
              | inl nowhere ↦ inl nowhere
              | inr (one, last) ↦ inr (is_last-EndsIn asterisk key one last)
            ],
          ),
      λ (valid, stars). iff.1 (
        valid,
        elim stars [
          | inl nowhere ↦ inl nowhere
          | inr ends ↦ inr (EndsIn-is_last asterisk key ends)
        ],
      ),
    )

module _ {D W : Type 0} (database : Database D) (codec : Codec) (patcher : Patcher) where
  -- What `publish` does with what `Set` gives.
  abbrev pub Follows : Bytes → ℤ → ℤ → Request → Server D W → Type 0
  Follows content built now req app =
      ((index : Bytes) (d : D)
        → database.set now (build built req.key) content app.storage ≡ returns (ok index, d)
        → publish database codec patcher built now req app
          ≡ returns (
            record { status = 200; body = codes "{\"index\": \"" ++ index ++ codes "\"}" },
            record app {
              storage = d;
              world = check_watchers app.filters.after_write (build built req.key) app.world;
            },
          ))
      × ((e : Error) (d : D)
          → database.set now (build built req.key) content app.storage ≡ returns (err e, d)
          → publish database codec patcher built now req app
            ≡ returns (record { status = 500; body = e }, record app { storage = d }))
      × (database.set now (build built req.key) content app.storage ≡ panics
          → publish database codec patcher built now req app ≡ panics)
      × (database.set now (build built req.key) content app.storage ≡ blocks
          → publish database codec patcher built now req app ≡ blocks)

  -- A request may be published exactly if its key is valid and has no star but for its last byte. A
  -- request to publish is refused with the status 400 or 401, and then neither the storage nor the
  -- streams nor the outside changed, unless it may be published, is approved, its body is a message
  -- and the write filters make some `content` of it. If so, what `Set` gives for the built key decides: with
  -- its index, the answer is 200 with the index, the storage is what `Set` left and the filters for
  -- after a write run; with its error, the answer is 500 with the error, the storage is what `Set`
  -- left and no such filter runs; and where `Set` panics or never returns, so does the handler.
  pub publish_cases :
      (built now : ℤ) (req : Request) (app : Server D W)
      → ((is_publishable req.key ≡ true) ↔ IsPublishable req.key)
        × (((r : Response) × (publish database codec patcher built now req app ≡ returns (r, app))
              × ((r.status ≡ 400) ⊎ (r.status ≡ 401))
              × ((content : Bytes) → Accepts codec patcher built req app content → ⊥))
            ⊎ ((content : Bytes) × Accepts codec patcher built req app content
                × Follows content built now req app))
  publish_cases built now req app = (
    is_publishable_iff req.key,
    elim (publish_branches database codec patcher built now req app) [
      | inl refused ↦ inl refused
      | inr (content, accepted, stored) ↦ inr (
        content,
        accepted,
        (
          λ index d e. stored ∙ rw e refl,
          λ x d e. stored ∙ rw e refl,
          λ e. stored ∙ rw e refl,
          λ e. stored ∙ rw e refl,
        ),
      )
    ],
  )
