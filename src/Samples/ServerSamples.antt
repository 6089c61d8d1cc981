-- ===== src/Samples/ServerSamples.antt =====
-- The theorems of the handlers of rest.go and ws.go at concrete requests.
use katamari.Base.{
  some, ℕ, ◌≡◌, refl, ◌⊎◌, ◌↔◌, Outcome, true, false, [], ◌∷◌, if◌then◌else◌, Result, ok, err,
  returns,
}
use katamari.Base.Int.{ℤ, pos}
use katamari.Base.Text.{Bytes, codes, bytes_eq, contains, count}
use katamari.Key.{match, build, is_valid, last_index}
use katamari.Key.Number.{format_int}
use katamari.Filters.{check, check_hooks, check_static}
use katamari.Messages.{encode, decode_reader}
use katamari.Filters.Choice.{first_match, covers}
use katamari.Memory.Map.{load}
use katamari.Objects.{new}
use katamari.Memory.{MemoryStorage, start}
use katamari.Memory.Sorting.{by_insertion}
use katamari.Stream.{clock_pool, frame_text, or_empty}
use katamari.Server.{
  Request, Response, answered, Server, is_publishable, index_of, get_filtered_data,
}
use katamari.Server.InMemory.{memory_database}
use katamari.Server.Rest.{publish, unpublish, read, created_response, ws}
use katamari.Server.Publishing.{Accepts}
use katamari.Server.Accepting.{Follows, IsPublishable, publish_cases}
use katamari.Server.Serving.{publish-read, stored}
use katamari.Server.Removing.{unpublish-read}
use katamari.Memory.Refine.{IsStarted}
use katamari.Server.Sockets.{ws_lem, ws_failure_lem}
use katamari.Stream.Look.{look}
use katamari.Stream.Operations.{joined}
use katamari.Key.Glob.{filepath_match}
use katamari.Samples.ToyCodec.{toy_codec}
use katamari.Samples.ToyPatcher.{toy_patcher}
use katamari.Samples.MemorySamples.{started, started-IsStarted}

abbrev pub books : Server MemoryStorage ℕ
books = record {
  filters = record { on_write = []; on_read = []; on_delete = []; after_write = [] };
  is_static = false;
  audit = λ req. true;
  on_subscribe = λ key. ok tt;
  on_close = λ w. w;
  stream = record { force_patch = false; no_patch = false; pools = clock_pool ∷ []; next = 7 };
  storage = started;
  world = 0;
  active = true;
  closing = false;
}

abbrev pub request : Bytes → Bytes → Request
request key body = record {
  key = key;
  body = body;
  is_websocket = false;
  upgraded = ok tt;
  version = [];
}

abbrev pub post : Request
post =
    request (codes "books/one") (codes "{\"snapshot\": true,\"version\": \"5\",\"data\": \"old\"}")

abbrev posted : Outcome (Response × Server MemoryStorage ℕ)
posted =
    publish (memory_database toy_codec by_insertion) toy_codec toy_patcher (pos 1) (pos 2) post
      books

publish_cases_example :
    ((is_publishable post.key ≡ true) ↔ IsPublishable post.key)
    × (((r : Response) × (posted ≡ returns (r, books))
          × ((r.status ≡ 400) ⊎ (r.status ≡ 401))
          × ((content : Bytes) → Accepts toy_codec toy_patcher (pos 1) post books content → ⊥))
        ⊎ ((content : Bytes) × Accepts toy_codec toy_patcher (pos 1) post books content
            × Follows
                (memory_database toy_codec by_insertion)
                toy_codec
                toy_patcher
                content
                (pos 1)
                (pos 2)
                post
                books))
publish_cases_example =
    publish_cases (memory_database toy_codec by_insertion) toy_codec toy_patcher (pos 1) (pos 2)
      post books

-- the data of the request, as they stand in its body
abbrev pub text : Bytes
text = codes "old"

abbrev pub kept : Bytes
kept = stored toy_codec (pos 2) (codes "books/one") text started

pub post-Accepts : Accepts toy_codec toy_patcher (pos 1) post books text
unfolding is_publishable is_valid count index_of decode_reader bytes_eq check first_match build
    contains
post-Accepts = record {
  event = record { content = text; version = codes "5"; snapshot = true };
  publishable = refl;
  approved = refl;
  decoded = refl;
  filtered = refl;
}

publish-read_example :
    (app' : Server MemoryStorage ℕ) × (publish
        (memory_database toy_codec by_insertion)
        toy_codec
        toy_patcher
        (pos 1)
        (pos 2)
        post
        books
      ≡ returns (created_response (last_index (codes "books/one")), app'))
    × ((read (memory_database toy_codec by_insertion) toy_codec (pos 3) post app').0
        ≡ answered (record { status = 200; body = or_empty kept }))
unfolding build contains is_valid check first_match new load bytes_eq start
publish-read_example =
    publish-read toy_codec by_insertion toy_patcher (pos 1) (pos 2) (pos 3) post post books text
      kept started-IsStarted post-Accepts refl refl refl refl refl refl refl

ws_lem_example :
    ((e : Bytes)
      → check_static [] (codes "books/one") false ≡ err e
      → ws (memory_database toy_codec by_insertion) toy_codec (pos 3) post books ≡ (err e, books))
    × ((served : Bytes)
        → ◌≡◌ {A = Result (Unit {0})} (ok tt) (ok tt)
        → ◌≡◌ {A = Result (Unit {0})} (ok tt) (ok tt)
        → get_filtered_data (memory_database toy_codec by_insertion) books (codes "books/one")
          ≡ ok served
        → (version : ℤ) × ((ws
              (memory_database toy_codec by_insertion)
              toy_codec
              (pos 3)
              post
              books).0
            ≡ ok (
                if bytes_eq [] (format_int version)
                then []
                else (7, frame_text (encode toy_codec (or_empty served)) true version) ∷ [])))
ws_lem_example = ws_lem (memory_database toy_codec by_insertion) toy_codec (pos 3) post books

-- the same server with a filter that lets nobody read the books
abbrev closed_books : Server MemoryStorage ℕ
closed_books = record books {
  filters = record books.filters {
    on_read = record { path = codes "books/*"; apply = λ key content. err (codes "secret") } ∷ [];
  };
}

ws_failure_lem_example :
    (app' : Server MemoryStorage ℕ) × (ws
        (memory_database toy_codec by_insertion)
        toy_codec
        (pos 3)
        post
        closed_books
      ≡ (err (codes "secret"), app'))
    × (look (codes "books/one") app'.stream.pools
        ≡ some (joined (codes "books/one") 7 (look (codes "books/one") (clock_pool ∷ []))))
unfolding check_static check get_filtered_data first_match covers match bytes_eq contains
    filepath_match count
ws_failure_lem_example =
    ws_failure_lem (memory_database toy_codec by_insertion) toy_codec (pos 3) post closed_books
      (codes "secret") refl refl refl refl

-- the server once a book is stored
abbrev pub shelf : MemoryStorage
shelf = record started { mem = (codes "books/one", kept) ∷ [] }

pub shelf-IsStarted : IsStarted shelf
unfolding load start
shelf-IsStarted = record { distinct = (refl, tt); started = λ e. cc; channel = λ e. refl }

unpublish-read_example :
    (app' : Server MemoryStorage ℕ) × (unpublish
        (memory_database toy_codec by_insertion)
        post
        (record books { storage = shelf })
      ≡ returns (record { status = 204; body = codes "unpublish books/one" }, app'))
    × ((read (memory_database toy_codec by_insertion) toy_codec (pos 9) post app').0
        ≡ answered (record { status = 404; body = codes "katamari: empty key" }))
unfolding is_valid check_hooks first_match contains load bytes_eq check
unpublish-read_example =
    unpublish-read toy_codec by_insertion (pos 9) post post (record books { storage = shelf }) kept
      shelf-IsStarted refl refl refl refl refl refl refl refl refl
