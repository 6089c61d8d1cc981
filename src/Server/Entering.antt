-- ===== src/Server/Entering.antt =====
-- A websocket that ws.go opens, whatever version its request names and whatever the streams hold.
use katamari.Base.{
  ◌≡◌, ◌≢◌, refl, inl, inr, ◌⊎◌, ◌∙◌, [], ◌∷◌, none, some, Option-cases, Result, ok,
}
use katamari.Base.Int.{ℤ}
use katamari.Base.Text.{Bytes, count}
use katamari.Objects.{Codec}
use katamari.Storage.{Database}
use katamari.Filters.Checks.{check-ok}
use katamari.Stream.Pools.{Pool, Cache, Stream}
use katamari.Stream.Look.{look}
use katamari.Stream.{new, new_client, refresh, or_empty}
use katamari.Stream.Operations.{joined, new_lem}
use katamari.Stream.Refreshing.{refresh_lem}
use katamari.Stream.Sound.{IsSound}
use katamari.Stream.Joining.{fresh-Joins, look-new, count-joined}
use katamari.Server.{Request, Server, get_filtered_data, fetch}
use katamari.Server.Rest.{ws, first_frames}

content_cases : (s : Bytes) → (s ≡ []) ⊎ (s ≢ [])
content_cases [] = inl refl
content_cases (c ∷ s) = inr (λ e. cc)

-- what `Refresh` returns behind `New`, and the connection's place in the pool
abbrev Enters : ℤ → Bytes → (Bytes → Result Bytes) → Stream → Type 0
Enters now key get sm =
    (entry : Cache) × (p : Pool) × ((refresh now key get (new key sm).1).0 ≡ ok entry)
    × (look key (refresh now key get (new key sm).1).1.pools ≡ some p)
    × (count p.connections sm.next ≡ 1)

new-Enters :
    (now : ℤ) (key served : Bytes) (get : Bytes → Result Bytes) (sm : Stream)
    → IsSound sm
    → get key ≡ ok served
    → Enters now key get sm
new-Enters now key served get sm s there = elim (Option-cases (look key sm.pools)) [
  | inl missing ↦
      let (version, p, message, seen, _, once) =
        fresh-Joins now key served get sm none s there missing refl in
      (_, p, message, seen, once)
  | inr (p, had) ↦ elim (content_cases p.cache.content) [
    | inl empty ↦
        let (version, q, message, seen, _, once) =
          fresh-Joins now key served get sm (some p) s there had empty in
        (_, q, message, seen, once)
    | inr full ↦
        let seen : look key (new key sm).1.pools ≡ some (joined key sm.next (some p)) =
          look-new key sm ∙ rw had refl in
        let same =
          (refresh_lem now key get (new key sm).1).1 served (joined key sm.next (some p)) there seen
            full in
        (
          record { version = p.cache.version; content = or_empty served },
          joined key sm.next (some p),
          rw same refl,
          rw same seen,
          count-joined key sm (some p) s had,
        )
  ]
]

-- What `ws` answers a request that is accepted and upgraded; the connection stands once in the pool
-- of the key.
pub record Entered {D W : Type 0} (database : Database D) (codec : Codec) (now : ℤ) (req : Request)
    (app : Server D W) : Type 0 where
  pub after : Server D W
  pub pool : Pool
  pub entry : Cache
  pub answer :
      ws database codec now req app
      ≡ (ok (first_frames codec req.version app.stream.next entry), after)
  pub seen : look req.key after.stream.pools ≡ some pool
  pub once : count pool.connections app.stream.next ≡ 1

pub ws-Entered :
    {D W : Type 0} (database : Database D) (codec : Codec) (now : ℤ) (req : Request)
    (app : Server D W) (served : Bytes)
    → IsSound app.stream
    → app.on_subscribe req.key ≡ ok tt
    → req.upgraded ≡ ok tt
    → get_filtered_data database app req.key ≡ ok served
    → Entered database codec now req app
unfolding ws fetch get_filtered_data new_client
ws-Entered database codec now req app served sound subscribed upgraded there =
    let sm1 = (new req.key app.stream).1 in
    let (entry, p, message, seen, once) =
      new-Enters now req.key served (get_filtered_data database app) app.stream sound there in
    record {
      after = record app { stream = (refresh now req.key (get_filtered_data database app) sm1).1 };
      pool = p;
      entry = entry;
      answer =
          rw
            (
              ws,
              check-ok _ _ _ _ _ there,
              new_client,
              subscribed,
              upgraded,
              fetch,
              check-ok _ _ _ _ _ there,
              message,
              (new_lem req.key app.stream).0,
            )
            refl;
      seen = seen;
      once = once;
    }
