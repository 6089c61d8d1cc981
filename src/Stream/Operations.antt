-- ===== src/Stream/Operations.antt =====
-- The calls of stream/stream.go that open and close connections and set caches, on the pools as a
-- map from keys.
use katamari.Base.{
  ℕ, suc, ◌≡◌, refl, inl, inr, not, [], ◌∷◌, ◌++◌, Option, none, some, ◌==◌, if◌then◌else◌, keep,
  Option-cases, Result, ok, err, returns, panics,
}
use katamari.Base.Int.{ℤ}
use katamari.Base.Text.{Bytes, bytes_eq}
use katamari.Stream.Pools.{no_cache, Pool, Stream, find_pool, update_pool}
use katamari.Stream.Look.{
  look, find_pool-none, find_pool-some, look-update_found, look-append, find_pool-look,
  look-none-find_pool,
}
use katamari.Stream.{new, new_client, close, set_pool_cache, set_cache}

-- the pool of a key once the connection has joined it
abbrev pub joined : Bytes → ℕ → Option Pool → Pool
joined key client none = record { key = key; cache = no_cache; connections = client ∷ [] }
joined key client (some p) = record p { connections = p.connections ++ client ∷ [] }

-- A new connection has a number of its own. It joins the pool of its key, which is created where
-- there is none, behind the connections that are there; the cache of the pool and every other pool
-- stay as they are.
pub new_lem :
    (key : Bytes) (sm : Stream)
    → ((new key sm).0 ≡ sm.next)
      × ((new key sm).1.next ≡ suc sm.next)
      × ((j : Bytes)
          → look j (new key sm).1.pools ≡ (
              if bytes_eq key j
              then some (joined key sm.next (look key sm.pools))
              else look j sm.pools))
unfolding new
new_lem key sm = elim (Option-cases (find_pool key sm.pools)) [
  | inl e ↦
      rw (new, e)
        (refl, refl, λ j. rw (find_pool-none key sm.pools e) (look-append key j _ sm.pools refl e))
  | inr (i, e) ↦
      let (p, at, seen, named) = find_pool-some key sm.pools i e in
      rw (new, e)
        (refl, refl, λ j. rw seen (look-update_found key j _ sm.pools i p (λ q. refl) e seen))
]

without : ℕ → Pool → Pool
without client q = record q { connections = keep (λ v. not (v == client)) q.connections }

-- `Close` of a connection on a key that has a pool removes it from that pool; the pool stays, also
-- when no connection is left, and every other pool is as before. On a key without a pool it panics.
pub close_lem :
    (key : Bytes) (client : ℕ) (sm : Stream)
    → ((p : Pool)
        → look key sm.pools ≡ some p
        → (sm' : Stream) × (close key client sm ≡ returns sm')
          × ((j : Bytes)
              → look j sm'.pools ≡ (
                  if bytes_eq key j
                  then some (record p { connections = keep (λ v. not (v == client)) p.connections })
                  else look j sm.pools)))
      × (look key sm.pools ≡ none → close key client sm ≡ panics)
unfolding close
close_lem key client sm = (
  λ p seen.
      let (i, found, at) = find_pool-look key sm.pools p seen in
      (
        record sm { pools = update_pool i (without client) sm.pools },
        unfold without in rw (close, found),
        λ j.
            unfold without in
            look-update_found key j (without client) sm.pools i p (λ q. refl) found seen,
      ),
  λ h. rw (close, look-none-find_pool key sm.pools h),
)

-- A refused subscription and a failed upgrade leave the stream as it is.
pub new_client_lem :
    (on_subscribe : Bytes → Result (Unit {0})) (upgraded : Result (Unit {0})) (key : Bytes)
    (sm : Stream)
    → ((e : Bytes)
        → on_subscribe key ≡ err e
        → new_client on_subscribe upgraded key sm ≡ (err e, sm))
      × ((e : Bytes)
          → on_subscribe key ≡ ok tt
          → upgraded ≡ err e
          → new_client on_subscribe upgraded key sm ≡ (err e, sm))
      × (on_subscribe key ≡ ok tt
          → upgraded ≡ ok tt
          → new_client on_subscribe upgraded key sm ≡ (ok sm.next, (new key sm).1))
unfolding new_client
new_client_lem on_subscribe upgraded key sm = (
  λ e h. rw (new_client, h),
  λ e h k. rw (new_client, h, k),
  λ h k. rw (new_client, h, k, (new_lem key sm).0),
)

-- the pool of a key once its cache is set
abbrev pub cached : ℤ → Bytes → Bytes → Option Pool → Pool
cached now key content none = record {
  key = key;
  cache = record { version = now; content = content };
  connections = [];
}
cached now key content (some p) = set_pool_cache now content p

pub set_cache_lem :
    (now : ℤ) (key content : Bytes) (sm : Stream)
    → ((set_cache now key content sm).0 ≡ now)
      × ((j : Bytes)
          → look j (set_cache now key content sm).1.pools ≡ (
              if bytes_eq key j
              then some (cached now key content (look key sm.pools))
              else look j sm.pools))
unfolding set_cache set_pool_cache
set_cache_lem now key content sm = elim (Option-cases (find_pool key sm.pools)) [
  | inl e ↦
      rw (set_cache, e)
        (refl, λ j. rw (find_pool-none key sm.pools e) (look-append key j _ sm.pools refl e))
  | inr (i, e) ↦
      let (p, at, seen, named) = find_pool-some key sm.pools i e in
      rw (set_cache, e)
        (refl, λ j. rw seen (look-update_found key j _ sm.pools i p (λ q. refl) e seen))
]
