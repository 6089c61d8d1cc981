-- ===== src/Server/Publishing.antt =====
-- What a request to store or to remove a key does, on every branch.
use katamari.Base.{
  ◌≡◌, refl, ap, sym, ◌∙◌, ◌⊎◌, inl, inr, true, none, some, Bool-cases, Result-cases, Option,
  Result, ok, err, Outcome, returns, panics, blocks,
}
use katamari.Base.Int.{ℤ}
use katamari.Base.Text.{Bytes}
use katamari.Key.{build, is_valid}
use katamari.Objects.{Codec}
use katamari.Storage.{Database}
use katamari.Filters.{check, check_hooks}
use katamari.Messages.{Message, Patcher, decode_reader}
use katamari.Server.{Request, Response, Server, is_publishable, invalid_key, unauthorized}
use katamari.Server.Rest.{publish, publish_answer, unpublish, unpublish_answer}

-- The key is publishable, the request is approved, its body is a message, and the write filters
-- turn the message's data into `content`.
pub record Accepts {D W : Type 0} (codec : Codec) (patcher : Patcher) (built : ℤ) (req : Request)
    (app : Server D W) (content : Bytes) : Type 0 where
  pub event : Message
  pub publishable : is_publishable req.key ≡ true
  pub approved : app.audit req ≡ true
  pub decoded : decode_reader codec patcher req.body ≡ (event, none)
  pub filtered :
      check app.filters.on_write (build built req.key) event.content app.is_static ≡ ok content

not_accepted :
    {D W : Type 0} (codec : Codec) (patcher : Patcher) (built : ℤ) (req : Request)
    (app : Server D W) (m : Message) (c e : Bytes)
    → decode_reader codec patcher req.body ≡ (m, none)
    → check app.filters.on_write (build built req.key) m.content app.is_static ≡ err e
    → Accepts codec patcher built req app c
    → ⊥
not_accepted codec patcher built req app m c e decoded refused a =
    let same : a.event ≡ m = ap (λ (x : Message × Option Bytes). x.0) (sym a.decoded ∙ decoded) in
    let fits = rw same at a.filtered in let clash = sym refused ∙ fits in cc

pair_inj :
    {A B : Type 0} {a a' : A} {b b' : B}
    → ◌≡◌ {A = Outcome (A × B)} (returns (a, b)) (returns (a', b'))
    → b ≡ b'
pair_inj h = cc

message_cases :
    (r : Message × Option Bytes)
    → ((m : Message) × (e : Bytes) × (r ≡ (m, some e))) ⊎ ((m : Message) × (r ≡ (m, none)))
message_cases (m, some e) = inl (m, e, refl)
message_cases (m, none) = inr (m, refl)

module _ {D W : Type 0} (database : Database D) (codec : Codec) (patcher : Patcher) where
  -- A request to publish is either refused with the status 400 or 401, and then nothing changed,
  -- neither the storage nor the streams, no filter for after a write ran, and it was not acceptable; or it is accepted, and
  -- the answer and the new state are those that storing the filtered data under the built key gives.
  pub publish_branches :
      (built now : ℤ) (req : Request) (app : Server D W)
      → ((r : Response) × (publish database codec patcher built now req app ≡ returns (r, app))
          × ((r.status ≡ 400) ⊎ (r.status ≡ 401))
          × ((content : Bytes) → Accepts codec patcher built req app content → ⊥))
        ⊎ ((content : Bytes) × Accepts codec patcher built req app content
            × (publish database codec patcher built now req app
                ≡ publish_answer database
                    (build built req.key)
                    app
                    (database.set now (build built req.key) content app.storage)))
  unfolding publish
  publish_branches built now req app = elim (Bool-cases (is_publishable req.key)) [
    | inr bad ↦ inl (invalid_key, rw bad refl, inl refl, λ c a. let fits = a.publishable in cc)
    | inl good ↦ elim (Bool-cases (app.audit req)) [
      | inr denied ↦
          inl (unauthorized, rw (good, denied) refl, inr refl, λ c a. let fits = a.approved in cc)
      | inl approved ↦ elim (message_cases (decode_reader codec patcher req.body)) [
        | inl (m, e, failed) ↦ inl (
          record { status = 400; body = e },
          rw (good, approved, failed) refl,
          inl refl,
          λ c a. let fits = a.decoded in cc,
        )
        | inr (m, decoded) ↦
            elim (Result-cases
              (check app.filters.on_write (build built req.key) m.content app.is_static)) [
                | inl (e, refused) ↦ inl (
                  record { status = 400; body = e },
                  rw (good, approved, decoded, refused) refl,
                  inl refl,
                  λ c a. not_accepted codec patcher built req app m c e decoded refused a,
                )
                | inr (content, filtered) ↦ inr (
                  content,
                  record {
                    event = m;
                    publishable = good;
                    approved = approved;
                    decoded = decoded;
                    filtered = filtered;
                  },
                  rw (good, approved, decoded, filtered) refl,
                )
              ]
      ]
    ]
  ]

module _ {D W : Type 0} (database : Database D) where
  -- A request to remove a key is either refused with the status 400 or 401, and then nothing
  -- changed; or its key is valid, it is approved and no filter keeps the key, and the answer and the
  -- new state are those of the storage's `Del`.
  pub unpublish_cases :
      (req : Request) (app : Server D W)
      → ((r : Response) × (unpublish database req app ≡ returns (r, app))
          × ((r.status ≡ 400) ⊎ (r.status ≡ 401)))
        ⊎ ((is_valid req.key ≡ true)
            × (app.audit req ≡ true)
            × (check_hooks app.filters.on_delete req.key app.is_static ≡ ok tt)
            × (unpublish database req app
                ≡ unpublish_answer database req.key app (database.del req.key app.storage)))
  unfolding unpublish
  unpublish_cases req app = elim (Bool-cases (is_valid req.key)) [
    | inr bad ↦ inl (invalid_key, rw bad refl, inl refl)
    | inl good ↦ elim (Bool-cases (app.audit req)) [
      | inr denied ↦ inl (unauthorized, rw (good, denied) refl, inr refl)
      | inl approved ↦
          elim (Result-cases (check_hooks app.filters.on_delete req.key app.is_static)) [
            | inl (e, kept) ↦
                inl (record { status = 400; body = e }, rw (good, approved, kept) refl, inl refl)
            | inr (u, free) ↦ inr (good, approved, free, rw (good, approved, free) refl)
          ]
    ]
  ]

module _ {D W : Type 0} (database : Database D) where
  publish_answer-stored :
      (key : Bytes) (app app' : Server D W) (resp : Response) (o : Outcome (Result Bytes × D))
      → publish_answer database key app o ≡ returns (resp, app')
      → app' ≡ record app { storage = app'.storage; world = app'.world }
  publish_answer-stored key app app' resp (returns (ok index, d)) h = rw (← pair_inj h) refl
  publish_answer-stored key app app' resp (returns (err e, d)) h = rw (← pair_inj h) refl
  publish_answer-stored key app app' resp panics h = cc
  publish_answer-stored key app app' resp blocks h = cc

  -- A request to publish changes nothing but the storage and the outside.
  pub publish-stored :
      (codec : Codec) (patcher : Patcher) (built now : ℤ) (req : Request) (resp : Response)
      (app app' : Server D W)
      → publish database codec patcher built now req app ≡ returns (resp, app')
      → app' ≡ record app { storage = app'.storage; world = app'.world }
  publish-stored codec patcher built now req resp app app' h =
      elim (publish_branches database codec patcher built now req app) [
        | inl (_, refused, _, _) ↦ rw (pair_inj (sym h ∙ refused)) refl
        | inr (_, _, stored) ↦
            publish_answer-stored (build built req.key) app app' resp _ (sym stored ∙ h)
      ]

  unpublish_answer-stored :
      (key : Bytes) (app app' : Server D W) (resp : Response) (o : Outcome (Result (Unit {0}) × D))
      → unpublish_answer database key app o ≡ returns (resp, app')
      → app' ≡ record app { storage = app'.storage; world = app'.world }
  unpublish_answer-stored key app app' resp (returns (ok u, d)) h = rw (← pair_inj h) refl
  unpublish_answer-stored key app app' resp (returns (err e, d)) h = rw (← pair_inj h) refl
  unpublish_answer-stored key app app' resp panics h = cc
  unpublish_answer-stored key app app' resp blocks h = cc

  pub unpublish-stored :
      (req : Request) (resp : Response) (app app' : Server D W)
      → unpublish database req app ≡ returns (resp, app')
      → app' ≡ record app { storage = app'.storage; world = app'.world }
  unpublish-stored req resp app app' h = elim (unpublish_cases database req app) [
    | inl (_, refused, _) ↦ rw (pair_inj (sym h ∙ refused)) refl
    | inr (_, _, _, removed) ↦ unpublish_answer-stored req.key app app' resp _ (sym removed ∙ h)
  ]
