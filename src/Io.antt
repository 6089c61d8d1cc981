-- ===== src/Io.antt =====
-- io/local.go: typed values on a server's storage. The JSON of the values of a type is the record
-- `Json`; a value that fails to be read is not used.
pub mod Remote
pub mod Local
pub mod Lists
pub mod Posting
use katamari.Base.{
  Bool, true, false, not, List, ◌++◌, Option, none, some, if◌then◌else◌, Result, ok, err, Error,
  Outcome, returns, panics, blocks,
}
use katamari.Base.Int.{ℤ}
use katamari.Base.Text.{Bytes, codes}
use katamari.Key.{build}
use katamari.Objects.{Object, Codec, decode, decode_list}
use katamari.Storage.{Database}
use katamari.Client.{Meta}
use katamari.Client.Subscribe.{is_list, items, meta_of}

-- json.Marshal and json.Unmarshal at a type
pub record Json (T : Type 0) : Type 0 where
  pub marshal : T → Result Bytes
  pub unmarshal : Bytes → Result T

-- the errors about the path, with the name of the function
abbrev pub not_list : Bytes → Bytes → Error
not_list name path = name ++ (codes "[" ++ (path ++ codes "]: path is not a list"))

abbrev pub a_list : Bytes → Bytes → Error
a_list name path = name ++ (codes "[" ++ (path ++ codes "]: path is a list"))

module _ {T : Type 0} (codec : Codec) (json : Json T) where
  -- the typed objects of a list, and the one of a key
  abbrev pub typed_list : List Object × Option Error → Result (List (Meta T))
  typed_list (objs, some e) = err e
  typed_list (objs, none) = ok (items json.unmarshal objs)

  abbrev pub typed_item : Object → Result T → Result (Meta T)
  typed_item obj (err e) = err e
  typed_item obj (ok item) = ok (meta_of obj item)

  abbrev pub typed_object : Object × Option Error → Result (Meta T)
  typed_object (obj, some e) = err e
  typed_object (obj, none) = typed_item obj (json.unmarshal obj.content)

  abbrev pub read_list : Result Bytes → Result (List (Meta T))
  read_list (err e) = err e
  read_list (ok raw) = typed_list (decode_list codec raw)

  abbrev pub read_object : Result Bytes → Result (Meta T)
  read_object (err e) = err e
  read_object (ok raw) = typed_object (decode codec raw)

  module _ {D : Type 0} (database : Database D) where
    -- `GetList` and `Get`
    unfoldable pub get_list : Bytes → D → Result (List (Meta T))
    get_list path db =
        if not (is_list path)
        then err (not_list (codes "GetList") path)
        else read_list (database.get path db)

    unfoldable pub get : Bytes → D → Result (Meta T)
    get path db =
        if is_list path then err (a_list (codes "Get") path) else read_object (database.get path db)

    -- what is left of the answer of the storage's `Set`
    abbrev pub set_answer : Outcome (Result Bytes × D) → Outcome (Result (Unit {0}) × D)
    set_answer (returns (err e, db)) = returns (err e, db)
    set_answer (returns (ok index, db)) = returns (ok tt, db)
    set_answer panics = panics
    set_answer blocks = blocks

    abbrev pub set_encoded : ℤ → Bytes → D → Result Bytes → Outcome (Result (Unit {0}) × D)
    set_encoded now path db (err e) = returns (err e, db)
    set_encoded now path db (ok text) = set_answer (database.set now path (codec.encode64 text) db)

    -- `Set`, and `Push` under a key that is built at a time
    unfoldable pub set : ℤ → Bytes → T → D → Outcome (Result (Unit {0}) × D)
    set now path item db =
        if is_list path
        then returns (err (a_list (codes "Set") path), db)
        else set_encoded now path db (json.marshal item)

    unfoldable pub push : ℤ → ℤ → Bytes → T → D → Outcome (Result (Unit {0}) × D)
    push built now path item db =
        if not (is_list path)
        then returns (err (not_list (codes "Push") path), db)
        else set_encoded now (build built path) db (json.marshal item)
