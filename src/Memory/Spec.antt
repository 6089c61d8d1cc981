-- ===== src/Memory/Spec.antt =====
-- What a storage promises, with no entries and no order: a partial function from keys to values,
-- and the events sent so far.
use katamari.Base.{
  Bool, true, ◌&&◌, List, [], ◌∷◌, ◌++◌, Option, none, some, ltb, if◌then◌else◌, length, take,
}
use katamari.Base.Int.{ℤ, pos}
use katamari.Base.Text.{Bytes, codes, bytes_eq, contains}
use katamari.Key.{match, last_index}
use katamari.Objects.{Object, Codec, decode_raw, new}
use katamari.Storage.{StorageEvent}

-- `silent` tells the keys of which no event is sent, `on` whether the storage is active.
pub record Store : Type 0 where
  pub contents : Bytes → Option Bytes
  pub silent : Bytes → Bool
  pub on : Bool
  pub events : List StorageEvent

pub data Command : Type 0 where
  sets : ℤ → Bytes → Bytes → Command
  pivots : Bytes → Bytes → ℤ → ℤ → Command
  deletes : Bytes → Command
  clears : Command

abbrev pub announce : Bytes → Bytes → Store → Store
announce path operation a =
    if a.silent path
    then a
    else if a.on
    then record a { events = a.events ++ record { key = path; operation = operation } ∷ [] }
    else a

abbrev pub assign : Bytes → Bytes → Store → Store
assign path v a = record a { contents = λ k. if bytes_eq path k then some v else a.contents k }

-- A glob removes what it matches; any other path matches itself only.
abbrev pub forget : Bytes → Store → Store
forget path a = record a { contents = λ k. if match path k then none else a.contents k }

-- A path of the history is pivoted without an event.
abbrev pub is_history : Bytes → Bool
is_history path = ltb 8 (length path) && bytes_eq (take 7 path) (codes "history")

-- Whether something is stored under the path itself, or the path is a glob.
abbrev pub is_there : Bytes → Option Bytes → Bool
is_there path (some _) = true
is_there path none = contains path (codes "*")

-- The first value stored under a path dates from now and was never updated; each later one keeps
-- the time of creation.
abbrev pub dated : ℤ → Bytes → Bytes → Object × Option Bytes → Object
dated now path content (old, none) = record {
  created = old.created;
  updated = now;
  index = last_index path;
  content = content;
}
dated now path content (old, some e) = record {
  created = now;
  updated = pos 0;
  index = last_index path;
  content = content;
}

abbrev pub next_object : Codec → ℤ → Bytes → Bytes → Option Bytes → Object
next_object codec now path content none = record {
  created = now;
  updated = pos 0;
  index = last_index path;
  content = content;
}
next_object codec now path content (some previous) =
    dated now path content (decode_raw codec previous)

unfoldable pub spec_step : Codec → Command → Store → Store
spec_step codec (sets now path content) a =
    announce path (codes "set")
      (assign path (new codec (next_object codec now path content (a.contents path))) a)
spec_step codec (pivots path content created updated) a =
    let a' =
      assign path
        (new codec (record {
          created = created;
          updated = updated;
          index = last_index path;
          content = content;
        }))
        a in
    if is_history path then a' else announce path (codes "set") a'
spec_step codec (deletes path) a =
    if is_there path (a.contents path) then announce path (codes "del") (forget path a) else a
spec_step codec clears a = record a { contents = λ k. none }

unfoldable pub spec_run : Codec → List Command → Store → Store
spec_run codec [] a = a
spec_run codec (c ∷ cs) a = spec_run codec cs (spec_step codec c a)
