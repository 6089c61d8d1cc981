-- ===== src/Client/Closing.antt =====
-- How a subscription of client/subscribe.go ends while its connection is open.
use katamari.Base.{
  ℕ, ◌-◌, ◌≡◌, refl, ap, ◌∙◌, ◌⊎◌, inl, inr, ok, err, Bool, true, false, List, Option, none, some,
  arith, Bool-cases, Result, Error,
}
use katamari.Base.Text.{Bytes}
use katamari.Objects.{Object, Codec}
use katamari.Messages.{Patcher, patch, patch_list}
use katamari.Client.{Meta}
use katamari.Client.Subscribe.{
  reading, returned, Subscriber, is_list, shut, after_read, mark, close_socket, take_message,
  take_list, take_item, take_object, read_message,
}
use katamari.Client.Lifetime.{Step, dials, reads, marks, closes, Reach, here, next}

module _ {T : Type 0} (codec : Codec) (patcher : Patcher) (read_item : Bytes → Result T)
    (path : Bytes) where
  shut_closed : (o : Option Bool) (u : Subscriber T) → o ≡ some false → shut o u ≡ u
  shut_closed none u h = cc
  shut_closed (some true) u h = cc
  shut_closed (some false) u h = refl

  after_read_closing :
      (u : Subscriber T) → u.closing ≡ true → after_read u ≡ record u { phase = returned }
  unfolding after_read
  after_read_closing u h = ground arith

  -- The connection is closed for good and nobody waits for the context: the loop reads what is left
  -- of the connection, or has returned.
  record IsEnding (sockets : ℕ) (u : Subscriber T) : Type 0 where
    phase : (u.phase ≡ reading) ⊎ (u.phase ≡ returned)
    closed : u.socket ≡ some false
    ended : u.closing ≡ true
    unwatched : u.watching ≡ false
    counted : u.open_sockets ≡ sockets

  after_read-IsEnding : (n : ℕ) (u : Subscriber T) → IsEnding n u → IsEnding n (after_read u)
  after_read-IsEnding n u e = rw (after_read_closing u e.ended) (record {
    phase = inr refl;
    closed = e.closed;
    ended = e.ended;
    unwatched = e.unwatched;
    counted = e.counted;
  })

  -- the record of the same connection, with another cache or more calls
  kept-IsEnding :
      (n : ℕ) (u : Subscriber T) (cache : Bytes) (retries : ℕ) (calls : List (List (Meta T)))
      → IsEnding n u
      → IsEnding n (record u { cache = cache; retry_count = retries; calls = calls })
  kept-IsEnding n u cache retries calls e = record {
    phase = e.phase;
    closed = e.closed;
    ended = e.ended;
    unwatched = e.unwatched;
    counted = e.counted;
  }

  take_list-IsEnding :
      (n : ℕ) (u : Subscriber T) (r : Bytes × List Object × Option Error)
      → IsEnding n u
      → IsEnding n (take_list codec patcher read_item u r)
  take_list-IsEnding n u (cache, objs, some e) i =
      after_read-IsEnding n _ (kept-IsEnding n u cache u.retry_count u.calls i)
  take_list-IsEnding n u (cache, objs, none) i = kept-IsEnding n u cache 0 _ i

  take_item-IsEnding :
      (n : ℕ) (u : Subscriber T) (obj : Object) (r : Result T)
      → IsEnding n u
      → IsEnding n (take_item codec patcher read_item u obj r)
  take_item-IsEnding n u obj (err e) i = after_read-IsEnding n u i
  take_item-IsEnding n u obj (ok item) i = kept-IsEnding n u u.cache 0 _ i

  take_object-IsEnding :
      (n : ℕ) (u : Subscriber T) (r : Bytes × Object × Option Error)
      → IsEnding n u
      → IsEnding n (take_object codec patcher read_item u r)
  take_object-IsEnding n u (cache, obj, some e) i =
      after_read-IsEnding n _ (kept-IsEnding n u cache u.retry_count u.calls i)
  take_object-IsEnding n u (cache, obj, none) i =
      take_item-IsEnding n _ obj (read_item obj.content)
        (kept-IsEnding n u cache u.retry_count u.calls i)

  read_none-IsEnding :
      (n : ℕ) (u : Subscriber T)
      → IsEnding n u
      → read_message codec patcher read_item path none u ≡ record u { phase = returned }
  unfolding read_message
  read_none-IsEnding n u i =
      ap after_read (shut_closed u.socket u i.closed) ∙ after_read_closing u i.ended

  read_message-IsEnding :
      (n : ℕ) (u : Subscriber T) (message : Option Bytes)
      → IsEnding n u
      → IsEnding n (read_message codec patcher read_item path message u)
  unfolding read_message take_message
  read_message-IsEnding n u none i =
      rw (shut_closed u.socket u i.closed) (after_read-IsEnding n u i)
  read_message-IsEnding n u (some message) i = elim (Bool-cases (is_list path)) [
    | inl e ↦
        rw (take_message, e) (take_list-IsEnding n u (patch_list codec patcher message u.cache) i)
    | inr e ↦
        rw (take_message, e) (take_object-IsEnding n u (patch codec patcher message u.cache) i)
  ]

  step-IsEnding :
      (n : ℕ) (u t : Subscriber T)
      → IsEnding n u
      → Step codec patcher read_item path u t
      → IsEnding n t × (u.phase ≡ reading)
  step-IsEnding n u t i (dials connected now e) =
      absurd (elim i.phase [ inl at ↦ cc | inr back ↦ cc ])
  step-IsEnding n u t i (reads message now e) = (rw e (read_message-IsEnding n u message i), now)
  step-IsEnding n u t i (marks now e) = let clash = i.ended in cc
  step-IsEnding n u t i (closes now watching e) = let clash = i.unwatched in cc

  Reach-IsEnding :
      (n : ℕ) (u t : Subscriber T)
      → IsEnding n u
      → Reach codec patcher read_item path u t
      → IsEnding n t
  Reach-IsEnding n u t i here = i
  Reach-IsEnding n u t i (next r step) = (step-IsEnding n _ t (Reach-IsEnding n u _ i r) step).0

  close_socket_open :
      (s : Subscriber T)
      → s.socket ≡ some true
      → close_socket (mark s) ≡ record s {
        closing = true;
        watching = false;
        socket = some false;
        open_sockets = s.open_sockets - 1;
      }
  unfolding close_socket mark
  close_socket_open s alive = ground arith

  -- Where the context ends while a connection is open and is read from, the goroutine closes it.
  -- Whatever messages the connection gives after that, readable or not: the loop never dials again
  -- and no connection is opened, a read that fails makes it return without a call of the callback,
  -- and once it has returned there is no step left.
  pub mark-close_socket :
      (s t : Subscriber T)
      → s.phase ≡ reading
      → s.socket ≡ some true
      → Reach codec patcher read_item path (close_socket (mark s)) t
      → ((t.phase ≡ reading) ⊎ (t.phase ≡ returned))
        × (t.open_sockets ≡ s.open_sockets - 1)
        × (read_message codec patcher read_item path none t ≡ record t { phase = returned })
        × (t.phase ≡ returned → (u : Subscriber T) → Step codec patcher read_item path t u → ⊥)
  mark-close_socket s t before alive r =
      let begins : IsEnding (s.open_sockets - 1) (close_socket (mark s)) =
        rw (close_socket_open s alive) (record {
          phase = inl before;
          closed = refl;
          ended = refl;
          unwatched = refl;
          counted = refl;
        }) in
      let i = Reach-IsEnding (s.open_sockets - 1) (close_socket (mark s)) t begins r in
      (
        i.phase,
        i.counted,
        read_none-IsEnding (s.open_sockets - 1) t i,
        λ back u st. let now = (step-IsEnding (s.open_sockets - 1) t u i st).1 in cc,
      )
