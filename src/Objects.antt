-- ===== src/Objects.antt =====
-- objects/objects.go: the stored elements and their decoding. JSON (goccy/go-json) and base64
-- (cristalhq/base64) are not part of the repository: they are the fields of `Codec`.
use katamari.Base.{
  ◌≡◌, refl, Bool, List, [], ◌∷◌, if◌then◌else◌, Result, ok, err, Option, some, none,
}
use katamari.Base.Int.{ℤ, pos, ltℤ}
use katamari.Base.Text.{Bytes, codes}

-- `Object`
pub record Object : Type 0 where
  pub created : ℤ
  pub updated : ℤ
  pub index : Bytes
  pub content : Bytes

-- `Object{}`
abbrev pub zero_object : Object
zero_object = record { created = pos 0; updated = pos 0; index = []; content = [] }

-- What the program takes from the two libraries. A call that fails still leaves a value in the
-- variable that it was to fill, so `unmarshal` and its like return the value beside the error.
pub record Codec : Type 0 where
  -- json.Unmarshal into an Object and into a []Object
  pub unmarshal : Bytes → Object × Option Bytes
  pub unmarshal_list : Bytes → List Object × Option Bytes
  -- json.NewDecoder(r).Decode into the same, of the first value that the reader gives
  pub read_object : Bytes → Object × Option Bytes
  pub read_list : Bytes → List Object × Option Bytes
  -- json.NewEncoder(buffer).Encode(obj), json.Marshal of a []Object and of Stats
  pub encode_object : Object → Bytes
  pub marshal_list : List Object → Result Bytes
  pub marshal_keys : List Bytes → Result Bytes
  -- base64.StdEncoding
  pub encode64 : Bytes → Bytes
  pub decode64 : Bytes → Result Bytes

-- `EmptyObject`
abbrev pub empty_object : Bytes
empty_object = codes "{ \"created\": 0, \"updated\": 0, \"index\": \"\", \"data\": \"e30=\" }"

-- `max`
unfoldable pub max : ℤ → ℤ → ℤ
max a b = if ltℤ b a then a else b

-- `Sort`: whether the object `a` goes before `b`
unfoldable pub sort_less : Object → Object → Bool
unfolding max
sort_less a b = ltℤ (max b.updated b.created) (max a.updated a.created)

-- `Encode`, with the json.Marshal of the type
abbrev pub encoded : Result Bytes → Result Bytes
encoded (err e) = err e
encoded (ok text) = ok text

abbrev pub encode : {A : Type 0} → (A → Result Bytes) → A → Result Bytes
encode marshal v = encoded (marshal v)

encoded-id : (r : Result Bytes) → encoded r ≡ r
encoded-id (err e) = refl
encoded-id (ok text) = refl

pub encode-marshal :
    {A : Type 0} (marshal : A → Result Bytes) (v : A) → encode marshal v ≡ marshal v
encode-marshal marshal v = encoded-id (marshal v)

module _ (c : Codec) where
  -- `DecodeRaw`
  unfoldable pub decode_raw : Bytes → Object × Option Bytes
  decode_raw raw = c.unmarshal raw

  -- `Decode`
  abbrev pub with_data : Object → Result Bytes → Object × Option Bytes
  with_data obj (err e) = (obj, some e)
  with_data obj (ok aux) = (record obj { content = aux }, none)

  abbrev pub decode_data : Object × Option Bytes → Object × Option Bytes
  decode_data (obj, some e) = (obj, some e)
  decode_data (obj, none) = with_data obj (c.decode64 obj.content)

  unfoldable pub decode : Bytes → Object × Option Bytes
  decode raw = decode_data (c.unmarshal raw)

  -- `DecodeListData`: the loop stops at the first element that does not decode, and the elements
  -- before it stay decoded.
  abbrev pub put_first : Object → List Object × Option Bytes → List Object × Option Bytes
  put_first obj (objs, e) = (obj ∷ objs, e)

  unfoldable pub decode_list_data : List Object → List Object × Option Bytes
  decode_list_data [] = ([], none)
  decode_list_data (obj ∷ objs) = elim (c.decode64 obj.content) [
    | err e ↦ (obj ∷ objs, some e)
    | ok aux ↦ put_first (record obj { content = aux }) (decode_list_data objs)
  ]

  -- `DecodeList`
  abbrev pub decode_list_items : List Object × Option Bytes → List Object × Option Bytes
  decode_list_items (objs, some e) = (objs, some e)
  decode_list_items (objs, none) = decode_list_data objs

  unfoldable pub decode_list : Bytes → List Object × Option Bytes
  decode_list raw = decode_list_items (c.unmarshal_list raw)

  -- `DecodeListRaw`
  unfoldable pub decode_list_raw : Bytes → List Object × Option Bytes
  decode_list_raw raw = c.unmarshal_list raw

  -- `DecodeFromReader` and `DecodeListFromReader`: the data stay encoded
  unfoldable pub decode_from_reader : Bytes → Object × Option Bytes
  decode_from_reader body = c.read_object body

  unfoldable pub decode_list_from_reader : Bytes → List Object × Option Bytes
  decode_list_from_reader body = c.read_list body

  -- `New`
  unfoldable pub new : Object → Bytes
  new obj = c.encode_object obj
