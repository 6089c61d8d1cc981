-- ===== src/Samples/SubscribeSamples.antt =====
-- The theorems of client/subscribe.go at a subscription of one book, by a server that has it.
use katamari.Base.{
  ◌⊎◌, ℕ, ◌-◌, ◌≡◌, refl, subst, true, false, List, [], ◌∷◌, none, some, Result, ok, err, inl,
  arith,
}
use katamari.Base.Int.{pos}
use katamari.Base.Text.{Bytes, codes, count, bytes_eq, contains, after_last_index}
use katamari.Key.{last_index}
use katamari.Objects.{Codec, Object, new, decode}
use katamari.Filters.{check}
use katamari.Filters.Choice.{first_match}
use katamari.Memory.{MemoryStorage, start}
use katamari.Memory.Map.{load}
use katamari.Memory.Sorting.{by_insertion}
use katamari.Messages.{trim, patch_list, patch_cache, decode_buffer}
use katamari.Memory
use katamari.Client.Subscribe.{
  reading, returned, Subscriber, subscriber, is_list, dial, mark, close_socket, read_message, items,
}
use katamari.Client.Lifetime.{Step, dials, reads, Reach, here, next, IsSane, Reach-IsSane}
use katamari.Client.Closing.{mark-close_socket}
use katamari.Client.Endings.{late_dial, unread_message}
use katamari.Client.Tracking.{IsReadable, Tracks, Serves, attend}
use katamari.Stream.Pools.{Pool}
use katamari.Stream.Look.{look}
use katamari.Stream.Mirror.{Round}
use katamari.Server.{Request, Server, get_filtered_data}
use katamari.Server.InMemory.{memory_database}
use katamari.Server.Rest.{ws}
use katamari.Server.Following.{Opens, ws-Tracks}
use katamari.Stream.Sound.{total}
use katamari.Samples.ToyCodec.{toy_codec}
use katamari.Samples.ToyPatcher.{toy_patcher, toy-IsFaithful, SameTrim}
use katamari.Samples.ServerSamples.{books, request, kept, shelf}

abbrev path : Bytes
path = codes "books/one"

abbrev as_text : Bytes → Result Bytes
as_text s = ok s

abbrev once_dialed : Subscriber Bytes
once_dialed = dial true subscriber

Reach-IsSane_example :
    IsSane toy_codec toy_patcher as_text path
      (read_message toy_codec toy_patcher as_text path none (dial true (dial false subscriber)))
unfolding dial
Reach-IsSane_example =
    Reach-IsSane toy_codec toy_patcher as_text path (
      next (next (next here (dials false refl refl)) (dials true refl refl)) (reads none refl refl))

-- the loop's end once its connection is closed
-- the read behind the close still gives a message, which is not readable
abbrev left_over : Subscriber Bytes
left_over =
    read_message toy_codec toy_patcher as_text path (some (codes "x"))
      (close_socket (mark once_dialed))

mark-close_socket_example :
    ((left_over.phase ≡ reading) ⊎ (left_over.phase ≡ returned))
    × (left_over.open_sockets ≡ once_dialed.open_sockets - 1)
    × (read_message toy_codec toy_patcher as_text path none left_over
        ≡ record left_over { phase = returned })
    × (left_over.phase ≡ returned
        → (u : Subscriber Bytes) → Step toy_codec toy_patcher as_text path left_over u
        → ⊥)
unfolding dial mark close_socket
mark-close_socket_example =
    mark-close_socket toy_codec toy_patcher as_text path once_dialed left_over refl refl
      (next here (reads (some (codes "x")) refl refl))

late_dial_example :
    (t : Subscriber Bytes) × Reach toy_codec toy_patcher as_text path subscriber t
    × ((t.phase ≡ reading) × (t.closing ≡ true) × (t.watching ≡ false) × (t.socket ≡ some true))
    × (t.open_sockets ≡ 1)
    × ((message cache : Bytes) (objs : List Object)
        → is_list path ≡ true
        → patch_list toy_codec toy_patcher message [] ≡ (cache, objs, none)
        → (u : Subscriber Bytes) × Step toy_codec toy_patcher as_text path t u
          × (u.phase ≡ reading)
          × (u.calls ≡ items as_text objs ∷ []))
late_dial_example = late_dial toy_codec toy_patcher as_text path subscriber refl refl refl refl

-- a patch that is empty cannot be applied
abbrev broken : Bytes
broken = codes "{\"snapshot\": false,\"version\": \"5\",\"data\": \"\"}"

-- base64 that reads nothing
abbrev deaf : Codec
deaf = record toy_codec { decode64 = λ text. err (codes "illegal base64 data") }

unread_message_example :
    (t : Subscriber Bytes) × Reach deaf toy_patcher as_text path once_dialed t
    × (t.phase ≡ reading)
    × (t.open_sockets ≡ 2)
unfolding dial patch_cache decode_buffer
unread_message_example =
    unread_message deaf toy_patcher as_text path once_dialed broken [] (codes "illegal base64 data")
      refl refl refl refl

-- what the pool of the book is served, and later
abbrev new_kept : Bytes
new_kept =
    new toy_codec
      (record { created = pos 2; updated = pos 9; index = codes "one"; content = codes "new" })

as_read :
    (doc : Bytes)
    → IsReadable toy_codec toy_patcher as_text path (trim doc)
    → (cache : Bytes) → SameTrim doc cache
    → IsReadable toy_codec toy_patcher as_text path cache
as_read doc readable cache same =
    subst (IsReadable toy_codec toy_patcher as_text path) same readable

kept-IsReadable : IsReadable toy_codec toy_patcher as_text path (trim kept)
unfolding trim last_index bytes_eq decode after_last_index new load start
kept-IsReadable = (_, _, refl, refl)

new_kept-IsReadable : IsReadable toy_codec toy_patcher as_text path (trim new_kept)
unfolding trim last_index bytes_eq decode after_last_index new load start
new_kept-IsReadable = (_, _, refl, refl)

abbrev later_rounds : List Round
later_rounds = record { get = λ k. ok new_kept; now = pos 9; path = path } ∷ []

later_rounds-Serves : Serves toy_codec toy_patcher as_text path false false SameTrim later_rounds
later_rounds-Serves = (
  λ key doc cache there same.
      let served : new_kept ≡ doc = cc in
      as_read doc
        (subst (λ d. IsReadable toy_codec toy_patcher as_text path (trim d)) served
          new_kept-IsReadable)
        cache same,
  tt,
)

-- the server once the book is stored, and a request to subscribe to it
abbrev pub library : Server MemoryStorage ℕ
library = record books { storage = shelf }

abbrev pub visit : Request
visit = request path []

pub visit-Opens : Opens (memory_database toy_codec by_insertion) visit library kept
unfolding get_filtered_data check first_match load contains bytes_eq new Memory.get look
visit-Opens = record {
  sound = record {
    clocked = ([], refl);
    distinct = (tt, tt);
    once = λ c. unfold total count in omega arith;
    unused = λ c h. unfold total count in omega arith;
  };
  subscribed = refl;
  upgraded = refl;
  unversioned = refl;
  there = refl;
  current = inl (inl refl);
}

ws-Tracks_example :
    (app' : Server MemoryStorage ℕ) × (p : Pool) × (text : Bytes) × (ws
        (memory_database toy_codec by_insertion)
        toy_codec
        (pos 3)
        visit
        library
      ≡ (ok ((7, text) ∷ []), app'))
    × (look path app'.stream.pools ≡ some p)
    × (let s = read_message toy_codec toy_patcher as_text path (some text) (dial true subscriber) in
        let (p', s') = attend toy_codec toy_patcher as_text path false false 7 later_rounds p s in
        Tracks toy_codec toy_patcher as_text path SameTrim p s
        × Tracks toy_codec toy_patcher as_text path SameTrim p' s')
unfolding new
ws-Tracks_example =
    ws-Tracks (memory_database toy_codec by_insertion) toy-IsFaithful as_text (pos 3) visit library
      kept later_rounds visit-Opens (as_read kept kept-IsReadable) later_rounds-Serves
