-- ===== src/Messages.antt =====
-- messages/messages.go: the messages on a websocket and the cache that a client keeps by them.
-- JSON, base64 and JSON patches come from other packages: `Codec` and `Patcher`.
use katamari.Base.{
  ℕ, Bool, true, false, ◌&&◌, List, [], ◌∷◌, Option, none, some, ◌==◌, if◌then◌else◌, Result, ok,
  err, Error,
}
use katamari.Base.Text.{Bytes, codes, bytes_eq}
use katamari.Objects.{Object, Codec, zero_object, decode_list}
use katamari.Objects

-- `Message`
pub record Message : Type 0 where
  pub content : Bytes
  pub version : Bytes
  pub snapshot : Bool

-- What the program takes from jsonpatch, and from JSON for a message: a patch is created from two
-- documents, encoded, decoded and applied. DecodePatch and Apply may return nil.
pub record Patcher : Type 1 where
  pub Patch : Type 0
  pub create : Bytes → Bytes → Result Patch
  pub marshal : Patch → Result Bytes
  pub decode_patch : Bytes → Result (Option Patch)
  pub apply : Patch → Bytes → Result (Option Bytes)
  pub unmarshal_message : Bytes → Message × Option Error
  -- json.NewDecoder(r).Decode into a Message, of the first value that the reader gives
  pub read_message : Bytes → Message × Option Error

abbrev newline : ℕ
newline = 10

-- strings.Trim(s, "\n")
abbrev pub trim_left : Bytes → Bytes
trim_left [] = []
trim_left (c ∷ s) = if c == newline then trim_left s else c ∷ s

abbrev is_empty : Bytes → Bool
is_empty [] = true
is_empty (_ ∷ _) = false

unfoldable pub trim_right : Bytes → Bytes
trim_right [] = []
trim_right (c ∷ s) =
    let rest = trim_right s in if is_empty rest && c == newline then [] else c ∷ rest

unfoldable pub trim : Bytes → Bytes
unfolding trim_right
trim s = trim_right (trim_left s)

module _ (codec : Codec) where
  -- `Encode`
  unfoldable pub encode : Bytes → Bytes
  encode raw = codec.encode64 raw

  module _ (patcher : Patcher) where
    -- `DecodeBuffer`
    abbrev pub with_text : Message → Result Bytes → Message × Option Error
    with_text message (err e) = (message, some e)
    with_text message (ok decoded) = (record message { content = trim decoded }, none)

    abbrev pub decode_text : Message × Option Error → Message × Option Error
    decode_text (message, some e) = (message, some e)
    decode_text (message, none) = with_text message (codec.decode64 message.content)

    unfoldable pub decode_buffer : Bytes → Message × Option Error
    decode_buffer raw = decode_text (patcher.unmarshal_message raw)

    -- `DecodeReader`, and the deprecated `Decode`: the data stay encoded
    abbrev pub check_text : Message → Result Bytes → Message × Option Error
    check_text message (err e) = (message, some e)
    check_text message (ok _) = (message, none)

    abbrev pub check_message : Message × Option Error → Message × Option Error
    check_message (message, some e) = (message, some e)
    check_message (message, none) =
        if bytes_eq message.content []
        then (message, some (codes "katamari: empty reader"))
        else check_text message (codec.decode64 message.content)

    unfoldable pub decode_reader : Bytes → Message × Option Error
    decode_reader body = check_message (patcher.read_message body)

    unfoldable pub decode : Bytes → Message × Option Error
    decode body = check_message (patcher.read_message body)

    -- `PatchCache`
    abbrev pub modified : Bytes → Result (Option Bytes) → Bytes × Option Error
    modified cache (err e) = (cache, some e)
    modified cache (ok none) = (cache, none)
    modified cache (ok (some bytes)) = (bytes, none)

    abbrev pub apply_patch : Bytes → Result (Option patcher.Patch) → Bytes × Option Error
    apply_patch cache (err e) = (cache, some e)
    apply_patch cache (ok none) = (cache, none)
    apply_patch cache (ok (some patch)) = modified cache (patcher.apply patch cache)

    abbrev pub use_message : Bytes → Message × Option Error → Bytes × Option Error
    use_message cache (message, some e) = (cache, some e)
    use_message cache (message, none) =
        if message.snapshot
        then (message.content, none)
        else if bytes_eq message.content (codes "[]")
        then (cache, none)
        else apply_patch cache (patcher.decode_patch message.content)

    unfoldable pub patch_cache : Bytes → Bytes → Bytes × Option Error
    unfolding decode_buffer
    patch_cache raw cache = use_message cache (decode_buffer raw)

    -- `Patch`: the cache, the object in it and the error
    abbrev pub read_object : Bytes × Option Error → Bytes × Object × Option Error
    read_object (cache, some e) = (cache, zero_object, some e)
    read_object (cache, none) = let (result, e) = Objects.decode codec cache in (cache, result, e)

    unfoldable pub patch : Bytes → Bytes → Bytes × Object × Option Error
    patch raw cache = read_object (patch_cache raw cache)

    -- `PatchList`
    abbrev pub read_objects : Bytes × Option Error → Bytes × List Object × Option Error
    read_objects (cache, some e) = (cache, [], some e)
    read_objects (cache, none) = let (result, e) = decode_list codec cache in (cache, result, e)

    unfoldable pub patch_list : Bytes → Bytes → Bytes × List Object × Option Error
    patch_list raw cache = read_objects (patch_cache raw cache)
