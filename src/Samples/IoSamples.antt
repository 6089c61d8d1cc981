-- ===== src/Samples/IoSamples.antt =====
-- The theorems of io/local.go and io/remote.go at texts, stored by the server of the books.
use mathlib.Core.List.{Perm}
use katamari.Base.{
  ℕ, zero, suc, ◌≡◌, refl, ap, ◌∙◌, false, List, [], ◌∷◌, ◌++◌, map, Option, none, some, length,
  take, drop, Result, ok, err, Outcome, returns, panics, blocks, arith,
}
use katamari.Base.Int.{pos}
use katamari.Base.Text.{Bytes, codes, bytes_eq, contains, after_last_index}
use katamari.Key.{last_index, build, path_char, contains_peer}
use katamari.Objects.{Object, Codec, new, decode_raw}
use katamari.Memory.{MemoryStorage, start, collect, put, peek, notify, is_active, send}
use katamari.Memory
use katamari.Memory.Map.{load, store}
use katamari.Memory.Sorting.{by_insertion, Ordered}
use katamari.Server.{Response, Server}
use katamari.Server.InMemory.{memory_database}
use katamari.Server.Rest.{publish}
use katamari.Client.Subscribe.{Items}
use katamari.Client.{Meta}
use katamari.Memory.Queries.{Gathered, is_newer}
use katamari.Io.{Json, set, get_list, push}
use katamari.Io.Remote.{Http, HttpResponse, PostBody, remote_set}
use katamari.Io.Local.{IsLossless, Reads, set-get, push-get}
use katamari.Io.Lists.{ListsTrip, decoded, get_list_lem}
use katamari.Io.Posting.{Routes, remote_set-set}
use katamari.Samples.ToyCodec.{
  toy_codec, toy_encode, toy_decode, toy_round_trips, take-length, drop-length,
}
use katamari.Samples.ToyPatcher.{toy_patcher}
use katamari.Samples.ServerSamples.{books, request, post, post-Accepts, shelf, shelf-IsStarted}

-- a text stands for itself
abbrev as_json : Json Bytes
as_json = record { marshal = λ s. ok s; unmarshal = λ s. ok s }

toy-IsLossless : IsLossless toy_codec
toy-IsLossless = record { trips = toy_round_trips; decode64_encode64 = λ s. refl }

set-get_example :
    (db' : MemoryStorage) × (set toy_codec as_json
        (memory_database toy_codec by_insertion)
        (pos 2)
        (codes "books/two")
        (codes "new")
        shelf
      ≡ returns (ok tt, db'))
    × Reads toy_codec by_insertion as_json toy-IsLossless
        (pos 2)
        (codes "books/two")
        (codes "new")
        (codes "new")
        shelf
        db'
unfolding contains
set-get_example =
    set-get toy_codec by_insertion as_json toy-IsLossless (pos 2) (codes "books/two") (codes "new")
      (codes "new") shelf shelf-IsStarted refl refl refl

push-get_example :
    (db' : MemoryStorage) × (push toy_codec as_json
        (memory_database toy_codec by_insertion)
        (pos 7)
        (pos 9)
        (codes "books/*")
        (codes "new")
        shelf
      ≡ returns (ok tt, db'))
    × Reads toy_codec by_insertion as_json toy-IsLossless
        (pos 9)
        (build (pos 7) (codes "books/*"))
        (codes "new")
        (codes "new")
        shelf
        db'
unfolding contains path_char
push-get_example =
    push-get toy_codec by_insertion as_json toy-IsLossless 7 (pos 9) (codes "books") (codes "new")
      (codes "new") shelf shelf-IsStarted (omega arith) (ground arith) refl refl refl

-- a list of objects as its length and, for each, its text behind the text's length
abbrev framed : List Object → Bytes
framed [] = []
framed (o ∷ os) = length (toy_encode o) ∷ (toy_encode o ++ framed os)

abbrev unframed : ℕ → Bytes → List Object
unframed zero raw = []
unframed (suc k) [] = []
unframed (suc k) (n ∷ rest) = (toy_decode (take n rest)).0 ∷ unframed k (drop n rest)

abbrev read_framed : Bytes → List Object × Option Bytes
read_framed [] = ([], some (codes "unexpected end"))
read_framed (k ∷ rest) = (unframed k rest, none)

abbrev list_codec : Codec
list_codec = record toy_codec {
  marshal_list = λ objs. ok (length objs ∷ framed objs);
  unmarshal_list = read_framed;
}

unframed-cons :
    (k : ℕ) (s t : Bytes) → unframed (suc k) (length s ∷ (s ++ t)) ≡ (toy_decode s).0 ∷ unframed k t
unframed-cons k s t = rw (take-length s t, drop-length s t) refl

unframed-framed : (os : List Object) → unframed (length os) (framed os) ≡ os
unframed-framed [] = refl
unframed-framed (o ∷ os) =
    unframed-cons (length os) (toy_encode o) (framed os)
    ∙ ap (λ (p : Object). p ∷ unframed (length os) (framed os))
        (ap (λ (r : Object × Option Bytes). r.0) (toy_round_trips o))
    ∙ ap (λ (ps : List Object). o ∷ ps) (unframed-framed os)

list_codec-ListsTrip : ListsTrip list_codec
list_codec-ListsTrip objs = (_, refl, ap (λ os. (os, none)) (unframed-framed objs))

get_list_lem_example :
    (all : List Object) × (objs : List Object) × (res : List (Meta Bytes)) × (get_list list_codec
        as_json
        (memory_database list_codec by_insertion)
        (codes "books/*")
        shelf
      ≡ ok res)
    × Gathered (decode_raw list_codec) (codes "books/*") shelf.mem all
    × Perm objs all
    × Ordered is_newer objs
    × Items as_json.unmarshal (map (decoded list_codec) objs) res
unfolding contains last_index after_last_index bytes_eq
get_list_lem_example =
    get_list_lem list_codec by_insertion as_json (codes "books/*") shelf list_codec-ListsTrip refl
      refl (λ o m. refl)

-- a network with one server, of this host
abbrev host : Bytes
host = codes "localhost"

abbrev brought :
    Outcome (Response × Server MemoryStorage ℕ)
    → Server MemoryStorage ℕ
    → Result HttpResponse × Server MemoryStorage ℕ
brought (returns (resp, app')) app =
    (ok (record { status = resp.status; body = ok resp.body }), app')
brought panics app = (err (codes "EOF"), app)
brought blocks app = (err (codes "timeout"), app)

abbrev network : Http (Server MemoryStorage ℕ)
network = record {
  post = λ address body app.
      brought
        (publish (memory_database toy_codec by_insertion) toy_codec toy_patcher (pos 1) (pos 2)
          (request (drop 17 address) body) app)
        app;
  get = λ address app. (err (codes "EOF"), app);
}

abbrev as_body : PostBody
as_body content =
    ok (codes "{\"snapshot\": true,\"version\": \"5\",\"data\": \"" ++ (content ++ codes "\"}"))

-- the storage once the book is stored, with its event
abbrev stocked : MemoryStorage
stocked = record shelf { sent = record { key = codes "books/one"; operation = codes "set" } ∷ [] }

network-Routes :
    Routes toy_codec toy_patcher as_json as_body
      (memory_database toy_codec by_insertion)
      network
      (pos 1)
      (pos 2)
      false
      host
      post
      books
network-Routes resp app' e = ap (λ o. brought o books) e

remote_set-set_example :
    (app' : Server MemoryStorage ℕ) × (remote_set toy_codec as_json as_body network false host
        (codes "books/one")
        (codes "old")
        books
      ≡ (ok tt, app'))
    × (set toy_codec as_json
          (memory_database toy_codec by_insertion)
          (pos 2)
          (codes "books/one")
          (codes "old")
          books.storage
        ≡ returns (ok tt, app'.storage))
unfolding build contains last_index after_last_index bytes_eq Memory.set put peek store load notify
    contains_peer is_active send start new
remote_set-set_example =
    remote_set-set toy_codec toy_patcher as_json as_body (memory_database toy_codec by_insertion)
      network (pos 1) (pos 2) false host (codes "old") (codes "one") (codes "old") post books
      stocked refl refl refl post-Accepts refl refl network-Routes

-- the server that refuses every request
abbrev locked : Server MemoryStorage ℕ
locked = record books { audit = λ req. false }
