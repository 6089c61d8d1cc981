-- ===== src/Stream/Refreshing.antt =====
-- `Refresh` and `GetCacheVersion` of stream/stream.go.
use katamari.Base.{
  ◌≡◌, ◌≢◌, ◌⊎◌, inl, inr, false, [], none, some, if◌then◌else◌, Bool-cases, Result, ok, err,
}
use katamari.Base.Int.{ℤ}
use katamari.Base.Text.{Bytes, codes, bytes_eq, bytes_eq_iff}
use katamari.Stream.Pools.{Pool, Stream}
use katamari.Stream.Look.{look, find_pool-look, look-none-find_pool}
use katamari.Stream.Operations.{cached, set_cache_lem}
use katamari.Stream.{get_cache_version, refresh, or_empty}

-- The key has no pool, or one whose cache is empty.
abbrev pub NoCache : Bytes → Stream → Type 0
NoCache key sm =
    (look key sm.pools ≡ none)
    ⊎ ((p : Pool) × (look key sm.pools ≡ some p) × (p.cache.content ≡ []))

is_full : (p : Pool) → p.cache.content ≢ [] → bytes_eq p.cache.content [] ≡ false
is_full p full = elim (Bool-cases (bytes_eq p.cache.content [])) [
  | inl e ↦ absurd (full ((bytes_eq_iff p.cache.content []).0 e))
  | inr e ↦ e
]

version_there :
    (key : Bytes) (sm : Stream) (p : Pool)
    → look key sm.pools ≡ some p
    → p.cache.content ≢ []
    → get_cache_version key sm ≡ ok p.cache.version
unfolding get_cache_version
version_there key sm p seen full =
    let (i, found, at) = find_pool-look key sm.pools p seen in
    rw (get_cache_version, found, at, is_full p full)

version_missing :
    (key : Bytes) (sm : Stream) → NoCache key sm → (e : Bytes) × (get_cache_version key sm ≡ err e)
unfolding get_cache_version
version_missing key sm (inl none_there) = (
  codes "stream pool not found",
  rw (get_cache_version, look-none-find_pool key sm.pools none_there),
)
version_missing key sm (inr (p, seen, empty)) =
    let (i, found, at) = find_pool-look key sm.pools p seen in
    (
      codes "stream pool cache empty",
      rw (get_cache_version, found, at, (bytes_eq_iff p.cache.content []).1 empty),
    )

-- `Refresh` answers with the data as they are now, or with the error that reading them gave, which
-- changes nothing. Where the key has a cache, the version is that of the cache and the stream stays
-- as it is; where it has none, the data become the cache of the key, at the time now.
pub refresh_lem :
    (now : ℤ) (path : Bytes) (get : Bytes → Result Bytes) (sm : Stream)
    → ((e : Bytes) → get path ≡ err e → refresh now path get sm ≡ (err e, sm))
      × ((raw : Bytes) (p : Pool)
          → get path ≡ ok raw
          → look path sm.pools ≡ some p
          → p.cache.content ≢ []
          → refresh now path get sm
            ≡ (ok (record { version = p.cache.version; content = or_empty raw }), sm))
      × ((raw : Bytes)
          → get path ≡ ok raw
          → NoCache path sm
          → ((refresh now path get sm).0 ≡ ok (record { version = now; content = or_empty raw }))
            × ((j : Bytes)
                → look j (refresh now path get sm).1.pools ≡ (
                    if bytes_eq path j
                    then some (cached now path (or_empty raw) (look path sm.pools))
                    else look j sm.pools)))
unfolding refresh
refresh_lem now path get sm = (
  λ e h. rw (refresh, h),
  λ raw p h seen full. rw (refresh, h, version_there path sm p seen full),
  λ raw h empty.
      let (e, missing) = version_missing path sm empty in
      let (v, pools) = set_cache_lem now path (or_empty raw) sm in
      rw (refresh, h, missing) (rw v, pools),
)
