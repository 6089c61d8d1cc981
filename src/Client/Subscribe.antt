-- ===== src/Client/Subscribe.antt =====
-- client/subscribe.go: the loop that keeps a websocket to one path and calls back with what it
-- holds. The loop and the goroutine that waits for the end of the context are steps of one state;
-- what the network, the server and the context do is an event. The waits of the loop are counted in
-- milliseconds.
use katamari.Base.{
  ℕ, suc, ◌-◌, Bool, true, false, List, [], ◌∷◌, ◌++◌, Option, none, some, ltb, if◌then◌else◌,
  Result, ok, err, Error, ◌≡◌, refl, inl, inr, Result-cases,
}
use katamari.Base.Picked.{Picked, ends, gives, drops}
use katamari.Base.Text.{Bytes, codes, bytes_eq}
use katamari.Key.{last_index}
use katamari.Objects.{Object, Codec}
use katamari.Messages.{Patcher, patch, patch_list}
use katamari.Client.{Meta}

-- Where the loop is: before a dial, reading messages, or returned.
pub data Phase : Type 0 where
  dialing : Phase
  reading : Phase
  returned : Phase

-- The variables of `Subscribe`. `socket` is `wsClient`: nil, or a connection that is open or not.
-- `watching` tells whether the goroutine that waits for the context has still to close it. What goes
-- out is kept too: the calls of the callback, the waits, and how many connections are open.
pub record Subscriber (T : Type 0) : Type 0 where
  pub phase : Phase
  pub retry_count : ℕ
  pub cache : Bytes
  pub closing : Bool
  pub watching : Bool
  pub socket : Option Bool
  pub calls : List (List (Meta T))
  pub waits : List ℕ
  pub open_sockets : ℕ

-- `Subscribe` before its loop
abbrev pub subscriber : {T : Type 0} → Subscriber T
subscriber = record {
  phase = dialing;
  retry_count = 0;
  cache = [];
  closing = false;
  watching = true;
  socket = none;
  calls = [];
  waits = [];
  open_sockets = 0;
}

abbrev pub is_list : Bytes → Bool
is_list path = bytes_eq (last_index path) (codes "*")

-- `wsClient.Close()`
abbrev pub shut : {T : Type 0} → Option Bool → Subscriber T → Subscriber T
shut (some true) s = record s { socket = some false; open_sockets = s.open_sockets - 1 }
shut (some false) s = s
shut none s = s

-- the wait before the next dial
unfoldable pub delay : ℕ → ℕ
delay n = if ltb n 30 then 300 else if ltb n 100 then 2000 else 10000

-- what follows the inner loop
unfoldable pub after_read : {T : Type 0} → Subscriber T → Subscriber T
unfolding delay
after_read s = if s.closing then record s { phase = returned } else record s {
  phase = dialing;
  retry_count = suc s.retry_count;
  waits = s.waits ++ delay (suc s.retry_count) ∷ [];
}

-- The dial: `none` where it fails. A dial that fails sets `wsClient` to nil.
unfoldable pub dial : {T : Type 0} → Bool → Subscriber T → Subscriber T
dial true s = record s { phase = reading; socket = some true; open_sockets = suc s.open_sockets }
dial false s = record s { socket = none; waits = s.waits ++ 2000 ∷ [] }

-- the two steps of the goroutine: `ct.Swap(true)`, and closing what is there
unfoldable pub mark : {T : Type 0} → Subscriber T → Subscriber T
mark s = record s { closing = true }

unfoldable pub close_socket : {T : Type 0} → Subscriber T → Subscriber T
close_socket s = record (shut s.socket s) { watching = false }

abbrev pub meta_of : {T : Type 0} → Object → T → Meta T
meta_of obj item = record {
  created = obj.created;
  updated = obj.updated;
  index = obj.index;
  content = item;
}

module _ {T : Type 0} (read_item : Bytes → Result T) where
  -- the loop over the objects of a list, which leaves out what is no `T`
  abbrev pub put_item : Object → Result T → List (Meta T) → List (Meta T)
  put_item obj (ok item) rest = meta_of obj item ∷ rest
  put_item obj (err e) rest = rest

  unfoldable pub items : List Object → List (Meta T)
  items [] = []
  items (obj ∷ objs) = put_item obj (read_item obj.content) (items objs)

  -- The items that the data of a list of objects are: one for each object whose data are a `T`.
  abbrev pub Items : List Object → List (Meta T) → Type 0
  Items =
      Picked (λ obj m. (item : T) × (read_item obj.content ≡ ok item) × (m ≡ meta_of obj item))
        (λ obj. (e : Error) × (read_item obj.content ≡ err e))

  pub items-Items : (objs : List Object) → Items objs (items objs)
  unfolding items
  items-Items [] = ends
  items-Items (obj ∷ objs) = elim (Result-cases (read_item obj.content)) [
    | inl (e, fails) ↦ rw (items, fails) (drops (e, fails) (items-Items objs))
    | inr (item, reads) ↦ rw (items, reads) (gives (item, reads, refl) (items-Items objs))
  ]

module _ {T : Type 0} (codec : Codec) (patcher : Patcher) (read_item : Bytes → Result T) where
  abbrev pub called : List (Meta T) → Subscriber T → Subscriber T
  called result s = record s { retry_count = 0; calls = s.calls ++ result ∷ [] }

  -- a message of a list path, and of another
  abbrev pub take_list : Subscriber T → Bytes × List Object × Option Error → Subscriber T
  take_list s (cache, objs, some e) = after_read (record s { cache = cache })
  take_list s (cache, objs, none) = called (items read_item objs) (record s { cache = cache })

  abbrev pub take_item : Subscriber T → Object → Result T → Subscriber T
  take_item s obj (err e) = after_read s
  take_item s obj (ok item) = called (meta_of obj item ∷ []) s

  abbrev pub take_object : Subscriber T → Bytes × Object × Option Error → Subscriber T
  take_object s (cache, obj, some e) = after_read (record s { cache = cache })
  take_object s (cache, obj, none) =
      take_item (record s { cache = cache }) obj (read_item obj.content)

  unfoldable pub take_message : Bytes → Bytes → Subscriber T → Subscriber T
  take_message path message s =
      if is_list path
      then take_list s (patch_list codec patcher message s.cache)
      else take_object s (patch codec patcher message s.cache)

  -- one round of the inner loop: a message, or the read failed
  unfoldable pub read_message : Bytes → Option Bytes → Subscriber T → Subscriber T
  unfolding take_message
  read_message path (some message) s = take_message path message s
  read_message path none s = after_read (shut s.socket s)
