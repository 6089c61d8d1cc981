-- ===== src/Samples/SiteSamples.antt =====
-- The theorems of a running server with its events, at a history of one book.
use katamari.Key.Glob.{filepath_match}
use katamari.Base.{
  ℕ, ◌≡◌, ◌⊎◌, refl, true, false, [], ◌∷◌, none, List, ok, Outcome, returns, panics, blocks, ok_inj,
  inl,
}
use katamari.Base.Int.{ℤ, pos}
use katamari.Base.Text.{Bytes, codes, bytes_eq, contains, count, after_last_index}
use katamari.Key.{contains_peer, build, is_valid, last_index, peer, match}
use katamari.Objects.{decode_raw, empty_object}
use katamari.Objects
use katamari.Storage.{StorageEvent}
use katamari.Filters.{check, check_static, check_hooks}
use katamari.Filters.Choice.{first_match}
use katamari.Messages.{decode_reader}
use katamari.Memory.Map.{load, store, restrict}
use katamari.Memory.{MemoryStorage, start, get, peek, set, notify, put, is_active, send, del}
use katamari.Memory.Sorting.{by_insertion}
use katamari.Stream.Pools.{Frame, Pool, Stream, find_pool, update_pool}
use katamari.Stream.{
  init_clock, clock_pool, or_empty, new_client, refresh, get_cache_version, new, set_cache,
  set_pool_cache,
}
use katamari.Server.{
  connected, Request, Response, Server, get_filtered_data, is_publishable, watch, fetch,
}
use katamari.Server.InMemory.{memory_database}
use katamari.Server.Rest.{unpublish, publish, read, ws, created_response}
use katamari.Server.Queue.{
  OnlyWorks, Site, Step, Reach, here, next, after_request, publishes, reads, works, unpublishes,
}
use katamari.Server.Waiting.{Pending}
use katamari.Server.Consistency.{IsLoud}
use katamari.Server.Settling.{IsSettled, caches_settle}
use katamari.Server.Beginning.{start-Pending, start-Same}
use katamari.Server.Lifecycle.{
  Application, runs, defaults, default_settings, wait_listen, wait_start,
}
use katamari.Server.Lifecycle
use katamari.Samples.LifecycleSamples.{unset, idle, listen_80, here_80}
use katamari.Memory
use katamari.Samples.ToyCodec.{toy_codec}
use katamari.Server.Watching.{seen, Serves}
use katamari.Stream.Mirror.{receive}
use katamari.Samples.ToyPatcher.{toy_patcher, toy-IsFaithful, SameTrim}
use katamari.Samples.MemorySamples.{started}
use katamari.Samples.ServerSamples.{request, books, post, text, kept}
use katamari.Server.Serving.{stored}

abbrev server_of : Outcome (Response × Server MemoryStorage ℕ) → Server MemoryStorage ℕ
server_of (returns (resp, app)) = app
server_of panics = books
server_of blocks = books

abbrev quiet : Site ℕ
quiet = record {
  server = record books {
    stream = record { force_patch = true; no_patch = false; pools = clock_pool ∷ []; next = 0 };
    storage = started;
  };
  waiting = [];
}

-- what `Start` makes of a server that was never started
abbrev begun : Application MemoryStorage ℕ
begun = record { settings = default_settings unset; address = here_80; server = quiet.server }

start_begins :
    Lifecycle.start (memory_database toy_codec by_insertion) listen_80 (codes "localhost") idle
    ≡ runs begun
unfolding Lifecycle.start wait_listen wait_start defaults Memory.start Memory.is_active
    default_settings init_clock
start_begins = refl

abbrev posted : ℤ → Site ℕ → Site ℕ
posted now a = after_request a (
    server_of (
      publish (memory_database toy_codec by_insertion) toy_codec toy_patcher (pos 1) now post
        a.server))

quiet-IsLoud : IsLoud quiet.server.storage
unfolding start
quiet-IsLoud = record { loud = refl; on = refl; wired = refl }

abbrev visit : Request
visit = record post { is_websocket = true }

abbrev joined : Site ℕ → Site ℕ
joined a = record a {
  server = (read (memory_database toy_codec by_insertion) toy_codec (pos 3) visit a.server).1;
}

post_step : Step toy_codec by_insertion toy_patcher quiet (posted (pos 2) quiet)
unfolding publish is_publishable is_valid count decode_reader bytes_eq check first_match build
    contains set start last_index load notify contains_peer put is_active send
post_step = publishes (pos 1) (pos 2) post _ _ refl refl

-- a reader has joined the site that took the post
abbrev busy : Site ℕ
busy = joined (posted (pos 2) quiet)

caches_settle_example :
    ((sm : Stream) × (w : Reach toy_codec by_insertion toy_patcher busy
        (record { server = record busy.server { stream = sm }; waiting = [] }))
      × OnlyWorks toy_codec by_insertion toy_patcher w
      × IsSettled toy_codec by_insertion toy_patcher (record busy.server { stream = sm }))
    × ((c : Site ℕ)
        → Reach toy_codec by_insertion toy_patcher busy c
        → c.waiting ≡ []
        → IsSettled toy_codec by_insertion toy_patcher c.server)
caches_settle_example =
    caches_settle toy_codec by_insertion toy_patcher (λ i. pos 7) quiet
      (joined (posted (pos 2) quiet)) quiet-IsLoud refl
      (next (next here post_step) (reads (pos 3) visit refl))

-- a removal by a glob that covers the key of the only pool
abbrev wipe : Request
wipe = request (codes "books/*") []

abbrev wiped : Outcome (Response × Server MemoryStorage ℕ)
wiped = unpublish (memory_database toy_codec by_insertion) wipe busy.server

wipe_step : Step toy_codec by_insertion toy_patcher busy (after_request busy (server_of wiped))
unfolding unpublish is_valid check_hooks contains match filepath_match bytes_eq restrict notify
    contains_peer is_active send read ws check_static new_client fetch refresh get_filtered_data del
    peer count first_match publish is_publishable decode_reader check set put start
    get_cache_version find_pool new set_cache update_pool set_pool_cache
wipe_step = unpublishes wipe _ _ (λ glob. (inl refl, tt)) refl refl

-- the data that the client read, and those that were stored behind it
abbrev first : Site ℕ
first = joined (posted (pos 2) quiet)

abbrev newer : Bytes
newer = stored toy_codec (pos 9) (codes "books/one") text first.server.storage

abbrev page : Pool
page = record {
  key = codes "books/one";
  cache = record { version = pos 3; content = kept };
  connections = 0 ∷ [];
}

second_step : Step toy_codec by_insertion toy_patcher first (posted (pos 9) first)
unfolding publish is_publishable is_valid count decode_reader bytes_eq check first_match build
    contains set start last_index load notify contains_peer put is_active send read ws check_static
    new_client fetch refresh get_filtered_data
second_step = publishes (pos 1) (pos 9) post _ _ refl refl

start-Pending_example :
    (kept ≡ or_empty newer) ⊎ Pending (posted (pos 9) first).waiting (codes "books/one")
unfolding publish is_publishable is_valid count decode_reader bytes_eq check first_match build
    contains set start last_index load notify contains_peer put is_active send read ws check_static
    new_client fetch refresh get_filtered_data get_cache_version find_pool new set_cache update_pool
    set_pool_cache Objects.new get store peek decode_raw after_last_index
start-Pending_example =
    start-Pending toy_codec by_insertion toy_patcher listen_80 (codes "localhost") idle begun
      (posted (pos 9) first) 0 page newer refl refl refl start_begins
      (next (next (next here post_step) (reads (pos 3) visit refl)) second_step) refl (λ e. cc) refl

-- A client joins before the book is there; the book is stored, and its event is broadcast.
abbrev written : StorageEvent
written = record { key = codes "books/one"; operation = codes "set" }

abbrev times : ℕ → ℤ
times i = pos 7

abbrev shown : Site ℕ
shown = record {
  server =
      (watch (memory_database toy_codec by_insertion) toy_codec toy_patcher times written
        (posted (pos 9) (joined quiet)).server).0;
  waiting = [];
}

abbrev answer : Outcome (Response × Server MemoryStorage ℕ)
answer =
    publish (memory_database toy_codec by_insertion) toy_codec toy_patcher (pos 1) (pos 9) post
      (joined quiet).server

answer-returns : answer ≡ returns (created_response (codes "one"), server_of answer)
unfolding publish is_publishable is_valid count decode_reader bytes_eq check first_match build
    contains set start last_index load notify contains_peer put is_active send read ws check_static
    new_client fetch refresh get_filtered_data after_last_index
answer-returns = refl

written_waits : (posted (pos 9) (joined quiet)).waiting ≡ written ∷ []
unfolding publish is_publishable is_valid count decode_reader bytes_eq check first_match build
    contains set start last_index load notify contains_peer put is_active send read ws check_static
    new_client fetch refresh get_filtered_data
written_waits = refl

abbrev story : Reach toy_codec by_insertion toy_patcher (joined quiet) shown
story =
    next
      (next here (
        publishes (pos 1) (pos 9) post (created_response (codes "one")) (server_of answer)
          answer-returns refl))
      (works times [] [] written written_waits refl)

quiet-Serves : Serves (codes "books/one") quiet.server
unfolding check first_match
quiet-Serves raw full e = full (ok_inj e)

start-Same_example :
    (frames : List Frame) × (cache : Bytes) × (cache' : Bytes) × ((read
        (memory_database toy_codec by_insertion)
        toy_codec
        (pos 3)
        visit
        quiet.server).0
      ≡ connected frames)
    × (receive toy_codec toy_patcher 0 frames [] ≡ (cache, none))
    × (seen toy_codec by_insertion toy_patcher 0 story cache ≡ (cache', none))
    × ((doc : Bytes)
        → get_filtered_data
            (memory_database toy_codec by_insertion)
            shown.server
            (codes "books/one")
          ≡ ok doc
        → SameTrim doc cache' ⊎ Pending [] (codes "books/one"))
unfolding is_valid get_filtered_data check first_match get load contains start
start-Same_example =
    start-Same toy_codec by_insertion toy_patcher listen_80 toy-IsFaithful (codes "localhost") idle
      begun (pos 3) visit empty_object quiet shown refl refl refl start_begins here
      (λ (ev, i, _, _). absurd i)
      (record {
        valid = refl;
        approved = refl;
        websocket = refl;
        subscribed = refl;
        upgraded = refl;
        unversioned = refl;
        there = refl;
        serves = quiet-Serves;
      })
      story ((tt, tt), tt)
