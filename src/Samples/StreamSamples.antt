-- ===== src/Samples/StreamSamples.antt =====
-- Tests of stream/stream.go, and its theorems at concrete inputs.
use katamari.Base.{
  ℕ, suc, ◌≡◌, refl, ◌↔◌, ◌≢◌, true, false, List, [], ◌∷◌, none, some, if◌then◌else◌, In, Result,
  ok, err,
}
use katamari.Base.Int.{pos}
use katamari.Base.Text.{Bytes, codes, bytes_eq, contains, count}
use katamari.Key.{peer, match}
use katamari.Key.Glob.{filepath_match}
use katamari.Key.Number.{format_int, digits, hex_digit}
use katamari.Messages.{encode, trim}
use katamari.Stream.Pools.{Pool, Stream, pool_at}
use katamari.Stream.Look.{look, map_option}
use katamari.Stream.Operations.{cached}
use katamari.Stream.Refreshing.{NoCache, refresh_lem}
use katamari.Stream.Mirror.{Round, follow, follow-Same}
use katamari.Stream.Broadcasts.{pool_after, Served, broadcast_lem}
use katamari.Stream.{
  clock_pool, broadcast, patch, refresh, or_empty, frame_text, set_pool_cache, broadcast_pool,
}
use katamari.Samples.ToyCodec.{toy_codec}
use katamari.Samples.ToyPatcher.{toy_patcher, SameTrim, toy-IsFaithful}

-- a pool of two connections on `a/*` that holds "old"
abbrev pub letters : Pool
letters = record {
  key = codes "a/*";
  cache = record { version = pos 3; content = codes "old" };
  connections = 0 ∷ 1 ∷ [];
}

abbrev pub sample : Stream
sample = record {
  force_patch = false;
  no_patch = false;
  pools = clock_pool ∷ letters ∷ [];
  next = 2;
}

abbrev fresh_data : Bytes → Result Bytes
fresh_data k = ok (codes "{\"new\": 1}")

abbrev filtered : Bytes → Result Bytes
filtered k = err (codes "filtered")

abbrev sample_rounds : List Round
sample_rounds =
    record { get = fresh_data; now = pos 5; path = codes "a/b" }
    ∷ record { get = filtered; now = pos 6; path = codes "a/b" }
    ∷ record { get = fresh_data; now = pos 7; path = codes "b" }
    ∷ []

sent_test :
    broadcast_pool toy_patcher fresh_data
      (encode toy_codec)
      (pos 5)
      true
      false
      (codes "a/b")
      letters
    ≡ (
      set_pool_cache (pos 5) (codes "{\"new\": 1}") letters,
      (0, codes "{\"snapshot\": true,\"version\": \"5\",\"data\": \"{\"new\": 1}\"}")
          ∷ (1, codes "{\"snapshot\": true,\"version\": \"5\",\"data\": \"{\"new\": 1}\"}")
          ∷ [],
    )
unfolding broadcast_pool peer match bytes_eq contains filepath_match patch frame_text format_int
    digits hex_digit encode count
sent_test = refl

follow-Same_example :
    (p' : Pool) × (cache' : Bytes) × (follow toy_codec toy_patcher false false 1 sample_rounds
        letters
        (codes "old")
      ≡ (p', cache', none))
    × SameTrim p'.cache.content cache'
unfolding count trim
follow-Same_example =
    follow-Same toy-IsFaithful false false 1 sample_rounds letters (codes "old") refl refl

broadcast_lem_example :
    (pool_at
        (broadcast toy_patcher fresh_data
          (encode toy_codec)
          (λ i. pos i)
          (codes "a/b")
          sample).0.pools
        0
      ≡ pool_at sample.pools 0)
    × ((j : ℕ)
        → pool_at
            (broadcast toy_patcher fresh_data
              (encode toy_codec)
              (λ i. pos i)
              (codes "a/b")
              sample).0.pools
            (suc j)
          ≡ map_option
              (pool_after toy_patcher fresh_data
                (encode toy_codec)
                false
                false
                (codes "a/b")
                (pos (suc j)))
              (pool_at sample.pools (suc j)))
    × ((k : ℕ) (text : Bytes)
        → In
            (k, text)
            (broadcast toy_patcher fresh_data
              (encode toy_codec)
              (λ i. pos i)
              (codes "a/b")
              sample).1
          ↔ ((j : ℕ) × (p : Pool) × (pool_at sample.pools (suc j) ≡ some p)
              × Served toy_patcher fresh_data
                  (encode toy_codec)
                  false
                  false
                  (codes "a/b")
                  (pos (suc j))
                  p
                  (k, text)))
broadcast_lem_example =
    broadcast_lem toy_patcher fresh_data (encode toy_codec) (λ i. pos i) (codes "a/b") sample

refresh_lem_example :
    ((e : Bytes)
      → fresh_data (codes "b") ≡ err e
      → refresh (pos 9) (codes "b") fresh_data sample ≡ (err e, sample))
    × ((raw : Bytes) (p : Pool)
        → fresh_data (codes "b") ≡ ok raw
        → look (codes "b") sample.pools ≡ some p
        → p.cache.content ≢ []
        → refresh (pos 9) (codes "b") fresh_data sample
          ≡ (ok (record { version = p.cache.version; content = or_empty raw }), sample))
    × ((raw : Bytes)
        → fresh_data (codes "b") ≡ ok raw
        → NoCache (codes "b") sample
        → ((refresh (pos 9) (codes "b") fresh_data sample).0
            ≡ ok (record { version = pos 9; content = or_empty raw }))
          × ((j : Bytes)
              → look j (refresh (pos 9) (codes "b") fresh_data sample).1.pools ≡ (
                  if bytes_eq (codes "b") j
                  then some
                      (cached (pos 9) (codes "b") (or_empty raw) (look (codes "b") sample.pools))
                  else look j sample.pools)))
refresh_lem_example = refresh_lem (pos 9) (codes "b") fresh_data sample
