-- ===== src/Memory/Stamps.antt =====
-- The timestamps that `Set` of memory.go keeps: of the first write and of the last.
use katamari.Base.{
  ◌≡◌, ap, ◌∙◌, List, [], ◌∷◌, ◌++◌, Option, none, some, Bool-cases, inl, inr, returns,
}
use katamari.Base.Int.{ℤ, pos}
use katamari.Base.Text.{Bytes, codes, bytes_eq_refl}
use katamari.Key.{last_index}
use katamari.Objects.{Object, Codec, decode_raw, new}
use katamari.Memory.Map.{load}
use katamari.Memory.{MemoryStorage}
use katamari.Memory.Spec.{Store, Command, sets, announce, assign, next_object, spec_step, spec_run}
use katamari.Memory.Refine.{view, IsStarted}
use katamari.Memory.Runs.{run, run-spec_run}

-- What is known of the JSON library: an encoded object decodes to itself.
abbrev pub RoundTrips : Codec → Type 0
RoundTrips codec = (o : Object) → codec.unmarshal (codec.encode_object o) ≡ (o, none)

contents-announce :
    (path operation : Bytes) (a : Store) → (announce path operation a).contents ≡ a.contents
contents-announce path operation a = elim (Bool-cases (a.silent path)) [
  | inl e ↦ rw e
  | inr e ↦ elim (Bool-cases a.on) [ inl on ↦ rw (e, on) | inr off ↦ rw (e, off) ]
]

pub contents_at :
    (path operation : Bytes) (a : Store)
    → (announce path operation a).contents path ≡ a.contents path
contents_at path operation a =
    ap (λ (f : Bytes → Option Bytes). f path) (contents-announce path operation a)

pub contents-sets :
    (codec : Codec) (t : ℤ) (path content : Bytes) (a : Store)
    → (spec_step codec (sets t path content) a).contents path
      ≡ some (new codec (next_object codec t path content (a.contents path)))
unfolding spec_step
contents-sets codec t path content a =
    contents_at path (codes "set")
      (assign path (new codec (next_object codec t path content (a.contents path))) a)
    ∙ rw (bytes_eq_refl path)

-- the object of a key after a write at `t`, first written at `t0`
abbrev pub written : ℤ → ℤ → Bytes → Bytes → Object
written t0 t path content = record {
  created = t0;
  updated = t;
  index = last_index path;
  content = content;
}

-- the writes to one key, at their times
abbrev pub writes : Bytes → List (ℤ × Bytes) → List Command
writes path [] = []
writes path ((t, content) ∷ us) = sets t path content ∷ writes path us

module _ (codec : Codec) (trips : RoundTrips codec) where
  next_object-new :
      (t : ℤ) (path content : Bytes) (o : Object)
      → next_object codec t path content (some (new codec o)) ≡ written o.created t path content
  unfolding decode_raw new
  next_object-new t path content o = rw (trips o)

  later_writes :
      (path : Bytes) (us : List (ℤ × Bytes)) (t : ℤ) (content : Bytes) (a : Store) (o : Object)
      → a.contents path ≡ some (new codec o)
      → (spec_run codec (writes path us ++ sets t path content ∷ []) a).contents path
        ≡ some (new codec (written o.created t path content))
  unfolding spec_run
  later_writes path [] t content a o h =
      contents-sets codec t path content a ∙ rw (h, next_object-new)
  later_writes path ((u, c) ∷ us) t content a o h =
      later_writes path us t content _ (written o.created u path c)
        (contents-sets codec u path c a ∙ rw (h, next_object-new))

  -- The first `Set` of a key that holds nothing, any number of further ones and a last one leave
  -- the object that was created at the time of the first, updated at the time of the last, and
  -- holds what the last one stored. JSON is taken to round-trip.
  pub run-writes :
      (path : Bytes) (t0 t : ℤ) (first content : Bytes) (us : List (ℤ × Bytes)) (db : MemoryStorage)
      → IsStarted db
      → load path db.mem ≡ none
      → (db' : MemoryStorage) × (run codec
            (sets t0 path first ∷ writes path us ++ sets t path content ∷ [])
            db
          ≡ returns db')
        × (load path db'.mem ≡ some (new codec (written t0 t path content)))
  unfolding view spec_run
  run-writes path t0 t first content us db s empty =
      let (db', ran, _, viewed) =
        run-spec_run codec (sets t0 path first ∷ writes path us ++ sets t path content ∷ []) db s in
      (
        db',
        ran,
        ap (λ (a : Store). a.contents path) viewed
            ∙ later_writes path us t content _ (written t0 (pos 0) path first)
                (contents-sets codec t0 path first (view db) ∙ rw empty),
      )
