-- ===== src/Server/Following.antt =====
-- A client that opens a websocket and applies what it is sent: the first message of ws.go, then the
-- broadcasts to the pool of its key.
use katamari.Base.{
  ℕ, ◌≡◌, refl, sym, ◌∙◌, ◌≢◌, true, List, [], ◌∷◌, some, inl, inr, Bool-cases, Result, ok,
}
use katamari.Base.Int.{ℤ, pos, negsuc}
use katamari.Base.Text.{Bytes, bytes_eq, bytes_eq_iff, count}
use katamari.Key.Number.{format_int}
use katamari.Key.Roundtrip.{IsNumeral, digits-IsNumeral}
use katamari.Objects.{Codec}
use katamari.Storage.{Database}
use katamari.Filters.Checks.{check-ok}
use katamari.Messages.{Patcher, encode, trim}
use katamari.Stream.Pools.{Pool, Cache}
use katamari.Stream.Look.{look}
use katamari.Stream.{new, new_client, refresh, frame_text, or_empty}
use katamari.Stream.Operations.{new_lem}
use katamari.Stream.Sound.{IsSound}
use katamari.Stream.Joining.{IsCurrent, new-Joins}
use katamari.Stream.Sync.{IsFaithful, snapshot_received}
use katamari.Stream.Mirror.{Round}
use katamari.Client.Subscribe.{subscriber, dial, read_message}
use katamari.Client.Tracking.{
  IsReadable, Serves, Tracks, attend, read_message-Tracks, attend-Tracks,
}
use katamari.Server.{Request, Server, get_filtered_data, fetch}
use katamari.Server.Rest.{ws, first_frames}
use katamari.Server.Sockets.{first_frames-if}

numeral-ne : (s : Bytes) → IsNumeral s → s ≢ []
numeral-ne [] h e = h
numeral-ne (c ∷ s) h e = cc

format_int-ne : (n : ℤ) → format_int n ≢ []
unfolding format_int
format_int-ne (pos n) e = numeral-ne _ (digits-IsNumeral 15 n [] tt) e
format_int-ne (negsuc n) e = cc

-- A request with no version gets the data.
first_frames-no_version :
    (codec : Codec) (version : Bytes) (client : ℕ) (entry : Cache)
    → version ≡ []
    → first_frames codec version client entry
      ≡ (client, frame_text (encode codec entry.content) true entry.version) ∷ []
first_frames-no_version codec version client entry missing =
    elim (Bool-cases (bytes_eq version (format_int entry.version))) [
      | inl same ↦
          absurd (format_int-ne entry.version (sym ((bytes_eq_iff version _).0 same) ∙ missing))
      | inr other ↦ first_frames-if codec version client entry ∙ rw other refl
    ]

-- The request is accepted, upgraded and has no version; its data pass the filters, and the streams
-- are sound, with a cache of the key that is empty or holds these data.
pub record Opens {D W : Type 0} (database : Database D) (req : Request) (app : Server D W)
    (served : Bytes) : Type 0 where
  pub sound : IsSound app.stream
  pub subscribed : app.on_subscribe req.key ≡ ok tt
  pub upgraded : req.upgraded ≡ ok tt
  pub unversioned : req.version ≡ []
  pub there : get_filtered_data database app req.key ≡ ok served
  pub current : IsCurrent req.key (or_empty served) app.stream

-- What `ws` answers such a request: one frame with the data as a snapshot. The connection stands once
-- in the pool of the key, which holds the data.
pub record Opened {D W : Type 0} (database : Database D) (codec : Codec) (now : ℤ) (req : Request)
    (app : Server D W) (served : Bytes) : Type 0 where
  pub after : Server D W
  pub pool : Pool
  pub version : ℤ
  pub answer : ws database codec now req app ≡ (
    ok ((app.stream.next, frame_text (encode codec (or_empty served)) true version) ∷ []),
    after,
  )
  pub seen : look req.key after.stream.pools ≡ some pool
  pub content : pool.cache.content ≡ or_empty served
  pub once : count pool.connections app.stream.next ≡ 1

pub ws-Opened :
    {D W : Type 0} (database : Database D) (codec : Codec) (now : ℤ) (req : Request)
    (app : Server D W) (served : Bytes)
    → Opens database req app served
    → Opened database codec now req app served
unfolding ws fetch get_filtered_data new_client
ws-Opened database codec now req app served o =
    let joined = (new req.key app.stream).1 in
    let (version, p, message, seen, content, once) =
      new-Joins now req.key served (get_filtered_data database app) app.stream o.sound o.there
        o.current in
    record {
      after = record app {
        stream = (refresh now req.key (get_filtered_data database app) joined).1;
      };
      pool = p;
      version = version;
      answer =
          rw
            (
              ws,
              check-ok _ _ _ _ _ o.there,
              new_client,
              o.subscribed,
              o.upgraded,
              fetch,
              check-ok _ _ _ _ _ o.there,
              message,
              (new_lem req.key app.stream).0,
              first_frames-no_version codec req.version app.stream.next
                  (record { version = version; content = or_empty served }) o.unversioned,
            )
            refl;
      seen = seen;
      content = content;
      once = once;
    }

module _ {D W T : Type 0} {codec : Codec} {patcher : Patcher} {Same : Bytes → Bytes → Type 0}
    (database : Database D) (faithful : IsFaithful codec patcher Same)
    (read_item : Bytes → Result T) where
  -- A subscription of client/subscribe.go that asks for a websocket: the request is accepted and
  -- upgraded and has no version, the data of its key pass the filters, the streams are sound, and
  -- their cache of the key is empty or holds just these data; a cache that lags behind is left out.
  -- The subscription is sent one message, and reads it before any frame of a broadcast. Then it
  -- tracks the pool of its key: it still reads, its cache is a text of what the pool holds, and the
  -- callback was last called with one item for each object of this cache whose data are of the type,
  -- in their order, and no other. After any broadcasts to the pool it still does. The data served, at
  -- first and later, have readable texts only, and the libraries are taken to be faithful.
  pub ws-Tracks :
      (now : ℤ) (req : Request) (app : Server D W) (served : Bytes) (rs : List Round)
      → Opens database req app served
      → ((cache : Bytes)
          → Same (or_empty served) cache
          → IsReadable codec patcher read_item req.key cache)
      → Serves codec patcher read_item req.key app.stream.no_patch app.stream.force_patch Same rs
      → (app' : Server D W) × (p : Pool) × (text : Bytes) × (ws database codec now req app
          ≡ (ok ((app.stream.next, text) ∷ []), app'))
        × (look req.key app'.stream.pools ≡ some p)
        × (let s =
              read_message codec patcher read_item req.key (some text) (dial true subscriber) in
            let (p', s') =
              attend codec patcher read_item req.key app.stream.no_patch app.stream.force_patch
                app.stream.next rs p s in
            Tracks codec patcher read_item req.key Same p s
            × Tracks codec patcher read_item req.key Same p' s')
  unfolding dial
  ws-Tracks now req app served rs opens readable serves =
      let opened = ws-Opened database codec now req app served opens in
      let same : Same (or_empty served) (trim (or_empty served)) =
        faithful.same-trim (or_empty served) in
      let first =
        read_message-Tracks codec patcher read_item req.key Same
          (frame_text (encode codec (or_empty served)) true opened.version) (trim (or_empty served))
          opened.pool (dial true subscriber) refl
          (snapshot_received faithful (or_empty served) [] opened.version) (rw opened.content same)
          (readable (trim (or_empty served)) same) in
      (
        opened.after,
        opened.pool,
        frame_text (encode codec (or_empty served)) true opened.version,
        opened.answer,
        opened.seen,
        (
          first,
          attend-Tracks faithful read_item req.key app.stream.no_patch app.stream.force_patch
              app.stream.next rs opened.pool _ opened.once serves first,
        ),
      )
