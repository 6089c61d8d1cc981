-- ===== src/Io/Local.antt =====
-- What io/local.go reads of what it wrote, with the storage of memory.go.
use katamari.Base.{
  ℕ, zero, suc, ◌^◌, ◌<◌, ◌≡◌, refl, inl, inr, true, false, [], ◌∷◌, ◌++◌, Option, none, some,
  arith, drop, length, Bool-cases, ok, returns,
}
use katamari.Base.Int.{ℤ, pos}
use katamari.Base.Text.{Bytes, codes, slash, contains, bytes_eq, bytes_eq_iff, after_last_index}
use katamari.Key.{build, last_index}
use katamari.Key.Segments.{IsPlain}
use katamari.Key.Build.{NoStar, drop-past, build_glob_lem}
use katamari.Objects.{Object, Codec, new, decode, decode_raw}
use katamari.Memory.Map.{load}
use katamari.Memory.Sorting.{SortSlice}
use katamari.Memory.Spec.{dated, next_object}
use katamari.Memory.Refine.{IsStarted}
use katamari.Memory.Stamps.{RoundTrips}
use katamari.Memory.Answers.{get_lem}
use katamari.Memory.{MemoryStorage, found}
use katamari.Memory
use katamari.Server.InMemory.{memory_database, as_ok}
use katamari.Server.Serving.{set-stored}
use katamari.Client.{Meta}
use katamari.Client.Subscribe.{is_list, meta_of}
use katamari.Io.{Json, get, set, push, set_answer}

NoStar-drop : (n : ℕ) (s : Bytes) → NoStar s → NoStar (drop n s)
unfolding contains
NoStar-drop zero s h = h
NoStar-drop (suc n) [] h = h
NoStar-drop (suc n) (c ∷ s) h = NoStar-drop n s (ground arith)

-- A path with no star is no list, and `p/*` is one.
pub NoStar-is_list : (path : Bytes) → NoStar path → is_list path ≡ false
unfolding last_index contains
NoStar-is_list path h = elim (Bool-cases (is_list path)) [
  | inr e ↦ e
  | inl e ↦
      let star : last_index path ≡ codes "*" = (bytes_eq_iff (last_index path) (codes "*")).0 e in
      let clash : NoStar (codes "*") =
        rw star at (NoStar-drop (after_last_index path slash) path h) in
      cc
]

after_last_index-star : (p : Bytes) → after_last_index (p ++ codes "/*") slash ≡ suc (length p)
unfolding after_last_index
after_last_index-star [] = refl
after_last_index-star (c ∷ p) = ground (arith, after_last_index-star p)

pub is_list-glob : (p : Bytes) → is_list (p ++ codes "/*") ≡ true
unfolding last_index bytes_eq
is_list-glob p =
    let star : last_index (p ++ codes "/*") ≡ codes "*" =
      rw (last_index, after_last_index-star p) (drop-past p (codes "*")) in
    rw star refl

-- the data that `Set` stores, and its index
next_object-content :
    (codec : Codec) (now : ℤ) (path content : Bytes) (o : Option Bytes)
    → ((next_object codec now path content o).content ≡ content)
      × ((next_object codec now path content o).index ≡ last_index path)
next_object-content codec now path content none = (refl, refl)
next_object-content codec now path content (some v) = dated_content (decode_raw codec v)
  where
    dated_content :
        (r : Object × Option Bytes)
        → ((dated now path content r).content ≡ content)
          × ((dated now path content r).index ≡ last_index path)
    dated_content (old, none) = (refl, refl)
    dated_content (old, some e) = (refl, refl)

-- What is known of the libraries: JSON of an object and base64 read what they wrote.
pub record IsLossless (codec : Codec) : Type 0 where
  pub trips : RoundTrips codec
  pub decode64_encode64 : (s : Bytes) → codec.decode64 (codec.encode64 s) ≡ ok s

module _ {T : Type 0} (codec : Codec) (sorter : SortSlice) (json : Json T)
    (lossless : IsLossless codec) where
  -- The object that a typed `Set` stores, and how it is read.
  written_object : ℤ → Bytes → Bytes → MemoryStorage → Object
  written_object now path text db =
      next_object codec now path (codec.encode64 text) (load path db.mem)

  get-stored :
      (path text : Bytes) (item : T) (o : Object) (db : MemoryStorage)
      → NoStar path
      → json.unmarshal text ≡ ok item
      → o.content ≡ codec.encode64 text
      → load path db.mem ≡ some (new codec o)
      → get codec json (memory_database codec sorter) path db ≡ ok (meta_of o item)
  unfolding get decode new
  get-stored path text item o db plain typed encoded holds =
      let raw : Memory.get codec sorter path db ≡ ok (codec.encode_object o) =
        ((get_lem codec sorter path db).1 plain).0 _ holds in
      rw
        (
          get,
          NoStar-is_list path plain,
          raw,
          decode,
          lossless.trips o,
          encoded,
          lossless.decode64_encode64 text,
          typed,
        )
        refl

  set-encoded :
      (now : ℤ) (path text : Bytes) (item : T) (db : MemoryStorage)
      → IsStarted db
      → NoStar path
      → json.unmarshal text ≡ ok item
      → (db' : MemoryStorage) × (set_answer codec json
            (memory_database codec sorter)
            (as_ok (Memory.set codec now path (codec.encode64 text) db))
          ≡ returns (ok tt, db'))
        × (get codec json (memory_database codec sorter) path db'
            ≡ ok (meta_of (written_object now path text db) item))
  unfolding written_object
  set-encoded now path text item db s plain typed =
      let (db', wrote, holds, _) = set-stored codec now path (codec.encode64 text) db s in
      (
        db',
        rw wrote refl,
        get-stored path text item (written_object now path text db) db' plain typed
            (next_object-content codec now path (codec.encode64 text) (load path db.mem)).0 holds,
      )

  -- What `Get` reads after the value `item` was written to a path at the time now: the value, the
  -- last segment of the path as its index, and the times of the object that was written.
  abbrev pub Reads : ℤ → Bytes → Bytes → T → MemoryStorage → MemoryStorage → Type 0
  Reads now path text item db db' =
      (m : Meta T) × (get codec json (memory_database codec sorter) path db' ≡ ok m)
      × (m.content ≡ item)
      × (m.index ≡ last_index path)
      × (load path db.mem ≡ none → (m.created ≡ now) × (m.updated ≡ pos 0))

  set-Reads :
      (now : ℤ) (path text : Bytes) (item : T) (db : MemoryStorage)
      → IsStarted db
      → NoStar path
      → json.unmarshal text ≡ ok item
      → (db' : MemoryStorage) × (set_answer codec json
            (memory_database codec sorter)
            (as_ok (Memory.set codec now path (codec.encode64 text) db))
          ≡ returns (ok tt, db'))
        × Reads now path text item db db'
  unfolding written_object
  set-Reads now path text item db s plain typed =
      let (db', wrote, reads) = set-encoded now path text item db s plain typed in
      let (_, index) =
        next_object-content codec now path (codec.encode64 text) (load path db.mem) in
      (
        db',
        wrote,
        (
          meta_of (written_object now path text db) item,
          reads,
          refl,
          index,
          λ empty. rw empty (refl, refl),
        ),
      )

  -- A typed `Set` on a path with no star returns no error, and `Get` of the path then reads the
  -- value, under the last segment of the path; where nothing was stored, it was created now and
  -- never updated. The storage was started, and JSON and base64 read what they wrote.
  pub set-get :
      (now : ℤ) (path text : Bytes) (item : T) (db : MemoryStorage)
      → IsStarted db
      → NoStar path
      → json.marshal item ≡ ok text
      → json.unmarshal text ≡ ok item
      → (db' : MemoryStorage) × (set codec json (memory_database codec sorter) now path item db
          ≡ returns (ok tt, db'))
        × Reads now path text item db db'
  unfolding set
  set-get now path text item db s plain encoded typed =
      let (db', wrote, reads) = set-Reads now path text item db s plain typed in
      (db', rw (set, NoStar-is_list path plain, encoded) wrote, reads)

  -- A typed `Push` on `p/*`, where `p` has no star and only the bytes that a key may have, at a time
  -- below 2^63 and on a started storage, returns no error and stores the value under the key that
  -- `Build` makes of the path: `Get` of this key then reads it. JSON encodes the value and reads it
  -- back.
  pub push-get :
      (built : ℕ) (now : ℤ) (p text : Bytes) (item : T) (db : MemoryStorage)
      → IsStarted db
      → built < 2 ^ 63
      → IsPlain p
      → NoStar p
      → json.marshal item ≡ ok text
      → json.unmarshal text ≡ ok item
      → (db' : MemoryStorage) × (push codec json
            (memory_database codec sorter)
            (pos built)
            now
            (p ++ codes "/*")
            item
            db
          ≡ returns (ok tt, db'))
        × Reads now (build (pos built) (p ++ codes "/*")) text item db db'
  unfolding push
  push-get built now p text item db s bound plain starless encoded typed =
      let (_, fixed, _) = build_glob_lem built p bound plain starless in
      let key = build (pos built) (p ++ codes "/*") in
      let (db', wrote, reads) = set-Reads now key text item db s fixed typed in
      (db', rw (push, is_list-glob p, encoded) wrote, reads)
