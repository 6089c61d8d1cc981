-- ===== src/Client/Endings.antt =====
-- How a subscription of client/subscribe.go ends, and how it does not: late dials and messages that cannot be read.
use katamari.Base.{
  ℕ, zero, suc, ◌+◌, ◌≡◌, refl, ap, ◌∙◌, inl, inr, true, false, List, [], ◌∷◌, ◌++◌, none, some,
  arith, length, length-append, Bool-cases, Result, Error,
}
use katamari.Base.Text.{Bytes}
use katamari.Objects.{Object, Codec}
use katamari.Messages.{Patcher, patch, patch_list, patch_cache}
use katamari.Client.Subscribe.{
  dialing, reading, Subscriber, is_list, after_read, dial, mark, close_socket, take_message,
  read_message, items,
}
use katamari.Client.Lifetime.{Step, dials, reads, marks, closes, Reach, here, next}

module _ {T : Type 0} (codec : Codec) (patcher : Patcher) (read_item : Bytes → Result T)
    (path : Bytes) where
  close_socket-none :
      (s : Subscriber T)
      → s.socket ≡ none
      → close_socket (mark s) ≡ record s { closing = true; watching = false }
  unfolding close_socket mark
  close_socket-none s missing = ground arith

  -- A context that ends between two dials stops no dial: for every n the loop may dial n times more.
  dial_again :
      (n : ℕ) (s : Subscriber T)
      → s.phase ≡ dialing
      → s.closing ≡ true
      → (t : Subscriber T) × Reach codec patcher read_item path s t
        × (t.phase ≡ dialing)
        × (t.closing ≡ true)
        × (length t.waits ≡ length s.waits + n)
  unfolding dial
  dial_again zero s before ended = (s, here, before, ended, omega arith)
  dial_again (suc n) s before ended =
      let (t, reached, phase, closing, waits) = dial_again n s before ended in
      (
        dial false t,
        next reached (dials false phase refl),
        phase,
        closing,
        length-append t.waits (2000 ∷ []) ∙ ground arith,
      )

  -- A context that ends while the loop waits after a failed dial: the goroutine finds no connection
  -- and is done. If a later dial succeeds, the loop reads from the new connection, which nothing is
  -- left to close, and each list that it can read is still given to the callback.
  pub late_dial :
      (s : Subscriber T)
      → s.phase ≡ dialing
      → s.socket ≡ none
      → s.closing ≡ false
      → s.watching ≡ true
      → (t : Subscriber T) × Reach codec patcher read_item path s t
        × ((t.phase ≡ reading) × (t.closing ≡ true) × (t.watching ≡ false) × (t.socket ≡ some true))
        × (t.open_sockets ≡ suc s.open_sockets)
        × ((message cache : Bytes) (objs : List Object)
            → is_list path ≡ true
            → patch_list codec patcher message s.cache ≡ (cache, objs, none)
            → (u : Subscriber T) × Step codec patcher read_item path t u
              × (u.phase ≡ reading)
              × (u.calls ≡ s.calls ++ items read_item objs ∷ []))
  unfolding dial read_message take_message mark
  late_dial s before unconnected running watched =
      let gone : close_socket (mark s) ≡ record s { closing = true; watching = false } =
        close_socket-none s unconnected in
      let t = dial true (close_socket (mark s)) in
      (
        t,
        next (next (next here (marks running refl)) (closes refl watched refl))
            (dials true (rw gone before) refl),
        (refl, rw gone refl, rw gone refl, refl),
        rw gone refl,
        λ message cache objs list read_well. (
          read_message codec patcher read_item path (some message) t,
          reads (some message) refl refl,
          rw (gone, list, read_well) refl,
          rw (gone, list, read_well) refl,
        ),
      )

  broken_read :
      (s : Subscriber T) (message cache : Bytes) (e : Error)
      → s.closing ≡ false
      → patch_cache codec patcher message s.cache ≡ (cache, some e)
      → ((take_message codec patcher read_item path message s).phase ≡ dialing)
        × ((take_message codec patcher read_item path message s).open_sockets ≡ s.open_sockets)
  unfolding take_message after_read patch_list patch
  broken_read s message cache e running failed = elim (Bool-cases (is_list path)) [
    | inl list ↦ rw (take_message, list, patch_list, failed, running) (refl, refl)
    | inr item ↦ rw (take_message, item, patch, failed, running) (refl, refl)
  ]

  -- A message that cannot be applied makes the loop dial again, and the connection that it came from
  -- stays open beside the new one.
  pub unread_message :
      (s : Subscriber T) (message cache : Bytes) (e : Error)
      → s.phase ≡ reading
      → s.socket ≡ some true
      → s.closing ≡ false
      → patch_cache codec patcher message s.cache ≡ (cache, some e)
      → (t : Subscriber T) × Reach codec patcher read_item path s t
        × (t.phase ≡ reading)
        × (t.open_sockets ≡ suc s.open_sockets)
  unfolding dial read_message
  unread_message s message cache e before alive running failed =
      let (phase, sockets) = broken_read s message cache e running failed in
      (
        dial true (read_message codec patcher read_item path (some message) s),
        next (next here (reads (some message) before refl)) (dials true phase refl),
        refl,
        ap suc sockets,
      )
