-- ===== src/Server/Opening.antt =====
-- A client that opens a websocket on a running server: its first message, and what its document is
-- while it stays in its pool.
use katamari.Base.{
  some_inj, ℕ, ◌≡◌, ◌≢◌, ◌⊎◌, refl, sym, ap, subst, ◌∙◌, inl, inr, true, false, false≢true, List,
  [], ◌∷◌, none, some, Bool-cases, Option-cases, ok, All, arith,
}
use katamari.Base.Int.{ℤ}
use katamari.Base.Text.{Bytes, bytes_eq, bytes_eq_iff, count}
use katamari.Key.{is_valid}
use katamari.Objects.{Codec}
use katamari.Messages.{Patcher, encode, trim}
use katamari.Memory.Sorting.{SortSlice}
use katamari.Memory.{MemoryStorage}
use katamari.Stream.Pools.{Frame, Pool}
use katamari.Stream.Look.{look}
use katamari.Stream.Sound.{IsSound, names}
use katamari.Stream.Extending.{new-Extends, refresh-Extends}
use katamari.Stream.Joining.{IsCurrent}
use katamari.Stream.{or_empty, frame_text}
use katamari.Stream.Coherent.{AllBehind, Cached}
use katamari.Stream.Sync.{IsFaithful, snapshot_received}
use katamari.Stream.Mirror.{receive, receive-once}
use katamari.Stream.Attached.{IsAttached}
use katamari.Stream.Attending.{clock_apart}
use katamari.Server.{Request, connected, Server, get_filtered_data}
use katamari.Server.InMemory.{memory_database}
use katamari.Server.Rest.{read, read_socket, ws}
use katamari.Server.Reading.{Streams, read-Streams}
use katamari.Server.Following.{ws-Opened}
use katamari.Server.Queue.{Site}
use katamari.Server.Waiting.{Pending}
use katamari.Server.Consistency.{IsConsistent, Fresh}
use katamari.Server.Watching.{Serves, served-ne}

pub valid-ne : (key : Bytes) → is_valid key ≡ true → key ≢ []
unfolding is_valid
valid-ne [] h e = absurd (false≢true h)
valid-ne (c ∷ key) h e = cc

or_empty-ne : (raw : Bytes) → or_empty raw ≢ []
or_empty-ne [] h = cc
or_empty-ne (c ∷ s) h = cc

or_empty-full : (doc : Bytes) → doc ≢ [] → or_empty doc ≡ doc
or_empty-full [] full = absurd (full refl)
or_empty-full (c ∷ s) full = refl

own-count : (client : ℕ) → count (client ∷ []) client ≡ 1
unfolding count
own-count client = ground arith

filled : (s : Bytes) → bytes_eq s [] ≡ false → s ≢ []
unfolding bytes_eq
filled [] h e = absurd (false≢true (sym h))
filled (c ∷ s) h e = cc

module _ (P : Pool → Type 0) (key : Bytes) where
  All-look : (ps : List Pool) (p : Pool) → All P ps → look key ps ≡ some p → P p × (p.key ≡ key)
  unfolding look
  All-look [] p h found = absurd (cc)
  All-look (o ∷ ps) p h found = elim (Bool-cases (bytes_eq o.key key)) [
    | inl self ↦
        let same : o ≡ p = some_inj (rw (look, self) at found) in
        subst (λ q. P q × (q.key ≡ key)) same (h.0, (bytes_eq_iff o.key key).0 self)
    | inr other ↦ All-look ps p h.1 (rw (look, other) at found)
  ]

  AllBehind-look :
      (ps : List Pool) (rest : List Bytes) (p : Pool)
      → key ≢ []
      → names ps ≡ [] ∷ rest
      → AllBehind P ps
      → look key ps ≡ some p
      → P p × (p.key ≡ key)
  unfolding look
  AllBehind-look [] rest p named clocked h found = absurd (cc)
  AllBehind-look (o ∷ ps) rest p named clocked h found =
      All-look ps p h (rw (look, clock_apart o.key key (names ps) rest clocked named) at found)

-- The request is valid, approved and asks for a websocket, which is accepted and upgraded; it has no
-- version, and the data of its key pass the filters, which make no empty text.
pub record IsSubscribing {W : Type 0} (codec : Codec) (sorter : SortSlice) (req : Request)
    (app : Server MemoryStorage W) (served : Bytes) : Type 0 where
  pub valid : is_valid req.key ≡ true
  pub approved : app.audit req ≡ true
  pub websocket : req.is_websocket ≡ true
  pub subscribed : app.on_subscribe req.key ≡ ok tt
  pub upgraded : req.upgraded ≡ ok tt
  pub unversioned : req.version ≡ []
  pub there : get_filtered_data (memory_database codec sorter) app req.key ≡ ok served
  pub serves : Serves req.key app

read-connected :
    {W : Type 0} (codec : Codec) (sorter : SortSlice) (now : ℤ) (req : Request)
    (app after : Server MemoryStorage W) (first : List Frame)
    → is_valid req.key ≡ true
    → app.audit req ≡ true
    → req.is_websocket ≡ true
    → ws (memory_database codec sorter) codec now req app ≡ (ok first, after)
    → read (memory_database codec sorter) codec now req app ≡ (connected first, after)
unfolding read
read-connected codec sorter now req app after first valid approved websocket answer =
    simp (read, valid, approved, websocket) (ap (read_socket (memory_database codec sorter)) answer)

module _ {W : Type 0} {codec : Codec} {patcher : Patcher} {Same : Bytes → Bytes → Type 0}
    (sorter : SortSlice) (h : IsFaithful codec patcher Same) where
  -- Where no event waits for the key, nothing but the data is cached under it.
  settled-IsCurrent :
      (b : Site W) (key served : Bytes)
      → key ≢ []
      → IsSound b.server.stream
      → IsConsistent codec sorter b
      → (Pending b.waiting key → ⊥)
      → get_filtered_data (memory_database codec sorter) b.server key ≡ ok served
      → IsCurrent key (or_empty served) b.server.stream
  unfolding get_filtered_data
  settled-IsCurrent b key served named s c settled there =
      elim (Option-cases (look key b.server.stream.pools)) [
        | inl missing ↦ inl (inl missing)
        | inr (p, found) ↦ elim (Bool-cases (bytes_eq p.cache.content [])) [
          | inl empty ↦ inl (inr (p, found, (bytes_eq_iff p.cache.content []).0 empty))
          | inr full ↦
              let (rest, clocked) = s.clocked in
              let (held, same) =
                AllBehind-look (Cached (Fresh codec sorter b.server b.waiting)) key
                  b.server.stream.pools rest p named clocked c.coherent found in
              elim (held (filled p.cache.content full) served (rw same there)) [
                | inl current ↦ inr (p, found, current)
                | inr pending ↦ absurd (settled (subst (Pending b.waiting) same pending))
              ]
        ]
      ]

  -- A client that has the document of its pool has that of the data, unless an event waits.
  pub current-Same :
      (key : Bytes) (c : Site W) (doc cache : Bytes) {client : ℕ}
      → key ≢ []
      → IsConsistent codec sorter c
      → IsAttached Same key client cache c.server.stream
      → Serves key c.server
      → get_filtered_data (memory_database codec sorter) c.server key ≡ ok doc
      → Same doc cache ⊎ Pending c.waiting key
  unfolding get_filtered_data
  current-Same key c doc cache {client} named consistent a serves there =
      let (rest, clocked) = a.sound.clocked in
      let (held, same) =
        AllBehind-look (Cached (Fresh codec sorter c.server c.waiting)) key c.server.stream.pools
          rest a.pool named clocked consistent.coherent a.seen in
      let full = served-ne sorter h key client c.server doc serves there in
      elim (held a.full doc (rw same there)) [
        | inl current ↦ inl (subst (λ d. Same d cache) (current ∙ or_empty-full doc full) a.same)
        | inr pending ↦ inr (subst (Pending c.waiting) same pending)
      ]

  -- the client's document after its first message
  pub opening :
      (now : ℤ) (req : Request) (b : Site W) (served : Bytes)
      → IsSound b.server.stream
      → IsConsistent codec sorter b
      → (Pending b.waiting req.key → ⊥)
      → IsSubscribing codec sorter req b.server served
      → let (answer, app) = read (memory_database codec sorter) codec now req b.server in
        (first : List Frame) × (cache : Bytes) × (answer ≡ connected first)
        × (receive codec patcher b.server.stream.next first [] ≡ (cache, none))
        × IsAttached Same req.key b.server.stream.next cache app.stream
        × Serves req.key app
  unfolding read
  opening now req b served s c settled i =
      let named = valid-ne req.key i.valid in
      let o = ws-Opened (memory_database codec sorter) codec now req b.server served (record {
        sound = s;
        subscribed = i.subscribed;
        upgraded = i.upgraded;
        unversioned = i.unversioned;
        there = i.there;
        current = settled-IsCurrent b req.key served named s c settled i.there;
      }) in
      let client = b.server.stream.next in
      let text = frame_text (encode codec (or_empty served)) true o.version in
      let answered : read (memory_database codec sorter) codec now req b.server
          ≡ (connected ((client, text) ∷ []), o.after) =
        read-connected codec sorter now req b.server o.after ((client, text) ∷ []) i.valid
          i.approved i.websocket o.answer in
      let changed : Streams IsSound b.server
          (read (memory_database codec sorter) codec now req b.server).1 =
        read-Streams (memory_database codec sorter) codec IsSound b.server
          (λ key sm s. (new-Extends key sm s).sound)
          (λ now key sm s. (refresh-Extends now key _ sm s).sound) now req s in
      let left = rw answered at changed in
      (
        (client, text) ∷ [],
        trim (or_empty served),
        rw answered refl,
        receive-once codec patcher client (client ∷ []) text [] (trim (or_empty served))
            (own-count client) (snapshot_received h (or_empty served) [] o.version),
        rw answered (record {
          sound = rw left.1 left.2;
          pool = o.pool;
          seen = o.seen;
          once = o.once;
          full = rw o.content (or_empty-ne served);
          same = rw o.content (h.same-trim (or_empty served));
        }),
        rw (answered, left.1) i.serves,
      )
