-- ===== src/Server/InMemory.antt =====
-- The storage of memory.go as the database of a server.
use katamari.Base.{Result, ok, Outcome, returns, panics, blocks}
use katamari.Base.Text.{Bytes}
use katamari.Objects.{Codec}
use katamari.Storage.{Database}
use katamari.Memory.Sorting.{SortSlice}
use katamari.Memory.{MemoryStorage}
use katamari.Memory

abbrev pub as_ok : Outcome (Bytes × MemoryStorage) → Outcome (Result Bytes × MemoryStorage)
as_ok (returns (index, db)) = returns (ok index, db)
as_ok panics = panics
as_ok blocks = blocks

-- `Start`, `Set` and `Pivot` never return an error.
abbrev pub memory_database : Codec → SortSlice → Database MemoryStorage
memory_database codec sorter = record {
  is_active = Memory.is_active;
  start = λ opt db. (ok tt, Memory.start opt db);
  close = Memory.close;
  all_keys = Memory.all_keys codec sorter;
  keys_range = Memory.keys_range;
  get = Memory.get codec sorter;
  get_n = Memory.get_n codec sorter;
  get_n_range = Memory.get_n_range codec sorter;
  set = λ now path content db. as_ok (Memory.set codec now path content db);
  pivot =
      λ path content created updated db. as_ok (Memory.pivot codec path content created updated db);
  del = Memory.del;
  clear = Memory.clear;
  watch = λ db. db.sent;
}
