-- ===== src/Client/Lifetime.antt =====
-- When the loop of client/subscribe.go ends, and how long it waits.
use katamari.Base.{
  ℕ, suc, ◌≤◌, ◌≡◌, refl, sym, ◌∙◌, ◌≢◌, inl, inr, Bool, true, false, List, [], ◌∷◌, ◌++◌, Option,
  none, some, arith, All, Bool-cases, Result, ok, err, Error,
}
use katamari.Base.Text.{Bytes}
use katamari.Objects.{Object, Codec}
use katamari.Messages.{Patcher, patch, patch_list}
use katamari.Client.{Meta}
use katamari.Client.Subscribe.{
  dialing, reading, returned, Subscriber, subscriber, is_list, shut, delay, after_read, dial, mark,
  close_socket, take_list, take_item, take_object, take_message, read_message, called,
}

module _ {T : Type 0} (codec : Codec) (patcher : Patcher) (read_item : Bytes → Result T)
    (path : Bytes) where
  -- What may happen next. A read of a connection, closed or not, gives a message or an error, and the
  -- context ends once.
  pub data Step (s t : Subscriber T) : Type 0 where
    dials : (connected : Bool) → s.phase ≡ dialing → t ≡ dial connected s → Step s t
    reads :
        (message : Option Bytes)
        → s.phase ≡ reading
        → t ≡ read_message codec patcher read_item path message s
        → Step s t
    marks : s.closing ≡ false → t ≡ mark s → Step s t
    closes : s.closing ≡ true → s.watching ≡ true → t ≡ close_socket s → Step s t

  pub data Reach (s : Subscriber T) : Subscriber T → Type 0 where
    here : Reach s s
    next : {t u : Subscriber T} → Reach s t → Step t u → Reach s u

  abbrev pub IsWait : ℕ → Type 0
  IsWait w = (300 ≤ w) × (w ≤ 10000)

  -- `Subscribe` returns only when its context has ended, reads only from a connection, keeps the
  -- goroutine until it has closed it, and waits for 300 ms at least and 10 s at most.
  pub record IsSane (s : Subscriber T) : Type 0 where
    pub ended : s.phase ≡ returned → s.closing ≡ true
    pub connected : s.phase ≡ reading → s.socket ≢ none
    pub watched : s.closing ≡ false → s.watching ≡ true
    pub waited : All IsWait s.waits

  start-IsSane : IsSane subscriber
  start-IsSane = record { ended = λ e. cc; connected = λ e. cc; watched = λ e. refl; waited = tt }

  delay-IsWait : (n : ℕ) → IsWait (delay n)
  unfolding delay
  delay-IsWait n = ground arith

  All-append_one : (ws : List ℕ) (w : ℕ) → All IsWait ws → IsWait w → All IsWait (ws ++ w ∷ [])
  All-append_one [] w h i = (i, tt)
  All-append_one (v ∷ ws) w (g, h) i = (g, All-append_one ws w h i)

  after_read-IsSane :
      (s : Subscriber T)
      → (s.closing ≡ false → s.watching ≡ true)
      → All IsWait s.waits
      → IsSane (after_read s)
  unfolding after_read
  after_read-IsSane s w h = elim (Bool-cases s.closing) [
    | inl closing ↦
        rw (after_read, closing)
          (record { ended = λ e. refl; connected = λ e. cc; watched = λ e. cc; waited = h })
    | inr open_still ↦
        rw (after_read, open_still)
          (record {
            ended = λ e. cc;
            connected = λ e. cc;
            watched = λ e. w open_still;
            waited =
                All-append_one s.waits (delay (suc s.retry_count)) h
                  (delay-IsWait (suc s.retry_count));
          })
  ]

  called-IsSane :
      (s : Subscriber T) (cache : Bytes) (result : List (Meta T))
      → IsSane s
      → IsSane (called codec patcher read_item result (record s { cache = cache }))
  called-IsSane s cache result i = record {
    ended = i.ended;
    connected = i.connected;
    watched = i.watched;
    waited = i.waited;
  }

  take_list-IsSane :
      (s : Subscriber T) (r : Bytes × List Object × Option Error)
      → IsSane s
      → IsSane (take_list codec patcher read_item s r)
  take_list-IsSane s (cache, objs, some e) i =
      after_read-IsSane (record s { cache = cache }) i.watched i.waited
  take_list-IsSane s (cache, objs, none) i = called-IsSane s cache _ i

  take_item-IsSane :
      (s : Subscriber T) (cache : Bytes) (obj : Object) (r : Result T)
      → IsSane s
      → IsSane (take_item codec patcher read_item (record s { cache = cache }) obj r)
  take_item-IsSane s cache obj (err e) i =
      after_read-IsSane (record s { cache = cache }) i.watched i.waited
  take_item-IsSane s cache obj (ok item) i = called-IsSane s cache _ i

  take_object-IsSane :
      (s : Subscriber T) (r : Bytes × Object × Option Error)
      → IsSane s
      → IsSane (take_object codec patcher read_item s r)
  take_object-IsSane s (cache, obj, some e) i =
      after_read-IsSane (record s { cache = cache }) i.watched i.waited
  take_object-IsSane s (cache, obj, none) i = take_item-IsSane s cache obj (read_item obj.content) i

  take_message-IsSane :
      (s : Subscriber T) (message : Bytes)
      → IsSane s
      → IsSane (take_message codec patcher read_item path message s)
  unfolding take_message
  take_message-IsSane s message i = elim (Bool-cases (is_list path)) [
    | inl e ↦ rw (take_message, e) (take_list-IsSane s (patch_list codec patcher message s.cache) i)
    | inr e ↦ rw (take_message, e) (take_object-IsSane s (patch codec patcher message s.cache) i)
  ]

  shut_same :
      (o : Option Bool) (s : Subscriber T)
      → ((shut o s).phase ≡ s.phase)
        × ((shut o s).closing ≡ s.closing)
        × ((shut o s).watching ≡ s.watching)
        × ((shut o s).waits ≡ s.waits)
        × (s.socket ≢ none → (shut o s).socket ≢ none)
  shut_same none s = (refl, refl, refl, refl, λ h. h)
  shut_same (some true) s = (refl, refl, refl, refl, λ h e. cc)
  shut_same (some false) s = (refl, refl, refl, refl, λ h. h)

  read_message-IsSane :
      (s : Subscriber T) (message : Option Bytes)
      → IsSane s
      → IsSane (read_message codec patcher read_item path message s)
  unfolding read_message
  read_message-IsSane s (some message) i = take_message-IsSane s message i
  read_message-IsSane s none i =
      let (phase, closing, watching, waits, socket) = shut_same s.socket s in
      after_read-IsSane (shut s.socket s) (λ e. watching ∙ i.watched (sym closing ∙ e))
        (rw waits i.waited)

  dial-IsSane :
      (s : Subscriber T) (connected : Bool)
      → s.phase ≡ dialing
      → IsSane s
      → IsSane (dial connected s)
  unfolding dial
  dial-IsSane s true before i = record {
    ended = λ e. cc;
    connected = λ e h. cc;
    watched = i.watched;
    waited = i.waited;
  }
  dial-IsSane s false before i = record {
    ended = i.ended;
    connected = λ e h. cc;
    watched = i.watched;
    waited = All-append_one s.waits 2000 i.waited (omega arith);
  }

  Step-IsSane : {s t : Subscriber T} → Step s t → IsSane s → IsSane t
  unfolding mark close_socket
  Step-IsSane {s} (dials connected before e) i = rw e (dial-IsSane s connected before i)
  Step-IsSane {s} (reads message before e) i = rw e (read_message-IsSane s message i)
  Step-IsSane {s} (marks before e) i =
      rw e (record {
        ended = λ h. refl;
        connected = i.connected;
        watched = λ h. cc;
        waited = i.waited;
      })
  Step-IsSane {s} (closes before watching e) i =
      let (phase, closing, _, waits, socket) = shut_same s.socket s in
      rw e (record {
        ended = λ h. closing ∙ before;
        connected = λ h. socket (i.connected (sym phase ∙ h));
        watched = λ h. let clash : true ≡ false = sym (closing ∙ before) ∙ h in cc;
        waited = rw waits i.waited;
      })

  -- Whatever the network, the server and the context do, a subscription that was started returns
  -- only after its context has ended, reads only from a connection that it made, and never waits
  -- less than 300 ms or more than 10 s.
  pub Reach-IsSane : {t : Subscriber T} → Reach subscriber t → IsSane t
  Reach-IsSane here = start-IsSane
  Reach-IsSane (next r st) = Step-IsSane st (Reach-IsSane r)
