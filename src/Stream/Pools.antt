-- ===== src/Stream/Pools.antt =====
-- The state of stream/stream.go, the search for a pool and the change of one.
use katamari.Base.{ℕ, zero, suc, Bool, true, false, List, [], ◌∷◌, Option, none, some}
use katamari.Base.Int.{ℤ, pos}
use katamari.Base.Text.{Bytes, bytes_eq}

-- `Cache`
pub record Cache : Type 0 where
  pub version : ℤ
  pub content : Bytes

abbrev pub no_cache : Cache
no_cache = record { version = pos 0; content = [] }

-- `Pool`
pub record Pool : Type 0 where
  pub key : Bytes
  pub cache : Cache
  pub connections : List ℕ

-- `Stream`; `next` is the number of the next connection, so that no two are one
pub record Stream : Type 0 where
  pub force_patch : Bool
  pub no_patch : Bool
  pub pools : List Pool
  pub next : ℕ

-- a frame and the connection that it is written to
abbrev pub Frame : Type 0
Frame = ℕ × Bytes

-- `findPool`: `none` stands for -1
unfoldable pub find_pool : Bytes → List Pool → Option ℕ
find_pool key [] = none
find_pool key (p ∷ ps) = elim (bytes_eq p.key key) [
  | true ↦ some 0
  | false ↦ elim (find_pool key ps) [ none ↦ none | some i ↦ some (suc i) ]
]

abbrev pub pool_at : List Pool → ℕ → Option Pool
pool_at [] i = none
pool_at (p ∷ ps) zero = some p
pool_at (p ∷ ps) (suc i) = pool_at ps i

-- a change of the pool at an index
unfoldable pub update_pool : ℕ → (Pool → Pool) → List Pool → List Pool
update_pool i f [] = []
update_pool zero f (p ∷ ps) = f p ∷ ps
update_pool (suc i) f (p ∷ ps) = p ∷ update_pool i f ps
