-- ===== src/Io/Lists.antt =====
-- What `GetList` of io/local.go reads, with the storage of memory.go.
use mathlib.Core.List.{Mem, Perm, mem-cons_self, mem-cons_of_mem}
use mathlib.Core.List.Perm
use katamari.Base.{◌≡◌, refl, Bool, true, false, List, [], ◌∷◌, map, none, Result, ok, err}
use katamari.Base.Text.{Bytes}
use katamari.Key.{match}
use katamari.Objects.{Object, Codec, sort_less, decode_raw, decode_list, decode_list_data}
use katamari.Memory.Sorting.{SortSlice, Ordered}
use katamari.Memory.Answers.{IsGlob, get-list}
use katamari.Memory.Queries.{Gathered, is_newer, collect-Gathered, sorted-Ordered}
use katamari.Memory.{MemoryStorage, collect}
use katamari.Server.InMemory.{memory_database}
use katamari.Client.Subscribe.{is_list, items, Items, items-Items}
use katamari.Client.{Meta}
use katamari.Io.{Json, get_list}

abbrev pub is_ok {ℓ} : {A : Type ℓ} → Result A → Bool
is_ok (ok a) = true
is_ok (err e) = false

-- the object with its data decoded
abbrev pub decoded_by : Object → Result Bytes → Object
decoded_by o (ok text) = record o { content = text }
decoded_by o (err e) = o

module _ (codec : Codec) where
  abbrev pub decoded : Object → Object
  decoded o = decoded_by o (codec.decode64 o.content)

  abbrev pub IsBase64 : Object → Type 0
  IsBase64 o = is_ok (codec.decode64 o.content) ≡ true

  -- JSON encodes every list of objects, and reads it back.
  abbrev pub ListsTrip : Type 0
  ListsTrip =
      (objs : List Object)
      → (raw : Bytes) × (codec.marshal_list objs ≡ ok raw)
        × (codec.unmarshal_list raw ≡ (objs, none))

  put_decoded :
      (o : Object) (objs : List Object) (r : Result Bytes)
      → codec.decode64 o.content ≡ r
      → is_ok r ≡ true
      → decode_list_data codec objs ≡ (map decoded objs, none)
      → decode_list_data codec (o ∷ objs) ≡ (map decoded (o ∷ objs), none)
  unfolding decode_list_data
  put_decoded o objs (ok text) e k rest = rw (decode_list_data, e, rest) refl
  put_decoded o objs (err e') e k rest = cc

  decode_list_data-decoded :
      (objs : List Object)
      → ((o : Object) → Mem o objs → IsBase64 o)
      → decode_list_data codec objs ≡ (map decoded objs, none)
  unfolding decode_list_data
  decode_list_data-decoded [] h = refl
  decode_list_data-decoded (o ∷ objs) h =
      put_decoded o objs (codec.decode64 o.content) refl (h o mem-cons_self)
        (decode_list_data-decoded objs (λ p m. h p (mem-cons_of_mem o m)))

  -- `GetList` of a list path returns one item for each entry that matches it and decodes, those with
  -- the later time of creation or update first, with their data decoded, and leaves out those whose
  -- data are no value of the type. The path is a glob, the data of every matching entry that decodes
  -- are base64, and JSON writes every list of objects and reads it back.
  pub get_list_lem :
      {T : Type 0} (sorter : SortSlice) (json : Json T) (path : Bytes) (db : MemoryStorage)
      → ListsTrip
      → is_list path ≡ true
      → IsGlob path
      → ((o : Object) → Mem o (collect (decode_raw codec) (match path) db.mem) → IsBase64 o)
      → (all : List Object) × (objs : List Object) × (res : List (Meta T)) × (get_list codec json
            (memory_database codec sorter)
            path
            db
          ≡ ok res)
        × Gathered (decode_raw codec) path db.mem all
        × Perm objs all
        × Ordered is_newer objs
        × Items json.unmarshal (map decoded objs) res
  unfolding get_list decode_list
  get_list_lem sorter json path db trip list glob base64 =
      let all = collect (decode_raw codec) (match path) db.mem in
      let objs = sorter.sort sort_less all in
      let same = sorter.sort-Perm sort_less all in
      let got = get-list codec sorter path db glob in
      let (raw, written, reread) = trip objs in
      (
        all,
        objs,
        items json.unmarshal (map decoded objs),
        rw
            (
              get_list,
              list,
              got,
              written,
              decode_list,
              reread,
              decode_list_data-decoded objs (λ o m. base64 o (Perm.subset same o m)),
            )
            refl,
        collect-Gathered (decode_raw codec) path db.mem,
        same,
        sorted-Ordered sorter all,
        items-Items json.unmarshal (map decoded objs),
      )
