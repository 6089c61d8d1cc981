-- ===== src/Samples/LifecycleSamples.antt =====
-- The theorems of katamari.go at a server of books: it is started, gets a book, tells those who
-- subscribed, and is closed.
use katamari.Base.{
  blocks, ℕ, suc, ◌≡◌, refl, true, false, List, [], ◌∷◌, ◌++◌, none, some, Result, ok, err, returns,
  inl,
}
use katamari.Base.Int.{pos}
use katamari.Base.Text.{Bytes, codes, bytes_eq, contains}
use katamari.Key.{last_index, build, peer, contains_peer}
use katamari.Memory.{MemoryStorage, fresh}
use katamari.Memory
use katamari.Memory.Sorting.{by_insertion}
use katamari.Stream.Pools.{Pool, Stream, pool_at}
use katamari.Stream.{clock_pool, init_clock, broadcast_clock}
use katamari.Stream.Sound.{IsSound}
use katamari.Stream.Histories.{Call, joins, leaves, broadcasts, refreshes, run, run-IsSound}
use katamari.Server.{Server, get_filtered_data, is_active, close}
use katamari.Server.InMemory.{memory_database}
use katamari.Server.Rest.{publish, created_response}
use katamari.Server.Publishing.{Accepts}
use katamari.Server.Delivery.{Delivers, publish-Delivers}
use katamari.Server.Lifecycle.{
  close_server, serve_returned, fatal, Settings, Application, runs, start, default_settings,
  defaults, tick_round, wait_listen, wait_start,
}
use katamari.Server.Starting.{IsServing, configuration, running, close-start}
use katamari.Server.Running.{starts, closes, here, next, IsSane, histories-IsSane}
use katamari.Samples.ToyCodec.{toy_codec}
use katamari.Samples.ToyPatcher.{toy_patcher}
use katamari.Samples.MemorySamples.{started-IsStarted}
use katamari.Samples.ServerSamples.{books, post, post-Accepts, shelf, shelf-IsStarted}

-- one subscriber joins, is sent the book, and leaves
abbrev visits : List Call
visits =
    joins (codes "books/one")
    ∷ broadcasts (λ k. ok (codes "new")) (λ s. s) (λ i. pos i) (codes "books/one")
    ∷ refreshes (pos 8) (codes "books/*") (λ k. err (codes "filtered"))
    ∷ leaves (codes "books/one") 0
    ∷ []

run-IsSound_example :
    (sm' : Stream) × (run toy_patcher visits
        (init_clock (record { force_patch = true; no_patch = false; pools = []; next = 0 }))
      ≡ returns sm')
    × IsSound sm'
run-IsSound_example = run-IsSound toy_patcher visits true false (inl refl, tt)

-- the server while one client listens to the book
abbrev watched : Server MemoryStorage ℕ
watched = record books {
  stream = record books.stream {
    pools =
        clock_pool
        ∷ record {
          key = codes "books/one";
          cache = record { version = pos 0; content = codes "{}" };
          connections = 3 ∷ [];
        }
        ∷ [];
  };
}

watched-Accepts : Accepts toy_codec toy_patcher (pos 1) post watched (codes "old")
watched-Accepts = record {
  event = post-Accepts.event;
  publishable = post-Accepts.publishable;
  approved = post-Accepts.approved;
  decoded = post-Accepts.decoded;
  filtered = post-Accepts.filtered;
}

publish-Delivers_example :
    (app' : Server MemoryStorage ℕ) × (publish
        (memory_database toy_codec by_insertion)
        toy_codec
        toy_patcher
        (pos 1)
        (pos 2)
        post
        watched
      ≡ returns (created_response (last_index (codes "books/one")), app'))
    × (app'.storage.sent ≡ record { key = codes "books/one"; operation = codes "set" } ∷ [])
    × ((j : ℕ) (p : Pool) (doc : Bytes)
        → pool_at watched.stream.pools (suc j) ≡ some p
        → peer p.key (codes "books/one") ≡ true
        → get_filtered_data (memory_database toy_codec by_insertion) app' p.key ≡ ok doc
        → Delivers toy_codec toy_patcher
            (memory_database toy_codec by_insertion)
            (λ i. pos i)
            (record { key = codes "books/one"; operation = codes "set" })
            app'
            j
            p
            doc)
unfolding build contains bytes_eq contains_peer Memory.start
publish-Delivers_example =
    publish-Delivers toy_codec toy_patcher by_insertion (pos 1) (pos 2) (λ i. pos i) post watched
      (codes "books/one") (codes "old") started-IsStarted refl watched-Accepts refl refl refl

-- settings of which none was given but the patches
abbrev pub unset : Settings ℕ
unset = record {
  deadline = pos 0;
  tick = pos 0;
  read_timeout = pos 5;
  write_timeout = pos 0;
  read_header_timeout = pos 0;
  idle_timeout = pos 0;
  allowed_origins = [];
  allowed_methods = codes "GET" ∷ [];
  allowed_headers = [];
  workers = pos 0;
  no_broadcast_keys = [];
  force_patch = true;
  no_patch = false;
  audit = none;
  on_subscribe = none;
  stream_subscribe = none;
  on_unsubscribe = none;
  stream_unsubscribe = none;
  on_close = none;
}

-- a network on which an address gets the port 80
abbrev pub listen_80 : Bytes → Result Bytes
listen_80 address = ok (address ++ codes ":80")

-- a server that was never started, and the same once it was
abbrev pub idle : Application MemoryStorage ℕ
idle = record {
  settings = unset;
  address = [];
  server = record books {
    stream = record { force_patch = false; no_patch = false; pools = []; next = 0 };
    storage = fresh;
    active = false;
  };
}

abbrev pub here_80 : Bytes
here_80 = codes "localhost:80"

-- the server with its book, as it runs
abbrev serving : Application MemoryStorage ℕ
serving = record idle { address = here_80; server = record books { storage = shelf } }

serving-IsServing : IsServing here_80 serving
unfolding is_active tick_round Memory.start broadcast_clock
serving-IsServing = record {
  listens = refl;
  active = refl;
  started = shelf-IsStarted;
  stores = refl;
  ticks = λ time. (_, refl);
}

close-start_example :
    (close_server (memory_database toy_codec by_insertion) (some blocks) serving.server ≡ blocks)
    × (app : Server MemoryStorage ℕ) × (a' : Application MemoryStorage ℕ) × (close_server
          (memory_database toy_codec by_insertion)
          (some (returns tt))
          serving.server
        ≡ returns app)
    × (is_active app ≡ false)
    × ((time : Bytes) → tick_round time app ≡ returns none)
    × ((e : Bytes)
        → serve_returned e (record serving { server = app })
          ≡ runs (record serving { server = app }))
    × (start
          (memory_database toy_codec by_insertion)
          listen_80
          (codes "localhost")
          (record serving { server = app })
        ≡ runs a')
    × IsServing here_80 a'
    × (a'.server.storage.mem ≡ shelf.mem)
    × ((e : Bytes) → serve_returned e a' ≡ fatal e)
close-start_example =
    close-start toy_codec by_insertion listen_80 (some (returns tt)) (codes "localhost") here_80
      here_80 serving serving-IsServing refl refl

abbrev opened : Application MemoryStorage ℕ
opened = running here_80 (configuration (codes "localhost") idle)

abbrev shut_down : Server MemoryStorage ℕ
shut_down = record opened.server {
  closing = true;
  active = false;
  storage = record opened.server.storage { watcher = false; active = some false };
}

histories-IsSane_example : IsSane shut_down
unfolding start wait_listen wait_start defaults default_settings close Memory.start Memory.close
    Memory.is_active
histories-IsSane_example =
    histories-IsSane toy_codec by_insertion toy_patcher listen_80 idle
      (record opened { server = shut_down }) refl refl
      (next (next here (starts (codes "localhost") refl)) (closes shut_down refl refl))
