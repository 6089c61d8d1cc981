-- ===== src/Filters.antt =====
-- filters.go: the filters that a server runs on its routes. A callback of the application is a
-- function; one that only has effects (`Notify`) is a function on the state `W` of the outside.
pub mod Choice
pub mod Checks
use katamari.Base.{
  ℕ, ◌≡◌, Bool, true, false, not, ◌&&◌, ◌||◌, List, [], ◌∷◌, ◌++◌, Option, none, some,
  if◌then◌else◌, Result, ok, err, Error,
}
use katamari.Base.Text.{Bytes, codes}
use Choice.{Rule, first_match}

-- `Apply`, `ApplyDelete` and `Notify`
abbrev pub Apply : Type 0
Apply = Bytes → Bytes → Result Bytes

abbrev pub ApplyDelete : Type 0
ApplyDelete = Bytes → Result (Unit {0})

abbrev pub Notify : Type 0 → Type 0
Notify W = Bytes → W → W

-- `filters`
pub record Filters (W : Type 0) : Type 0 where
  pub on_write : List (Rule Apply)
  pub on_read : List (Rule Apply)
  pub on_delete : List (Rule ApplyDelete)
  pub after_write : List (Rule (Notify W))

abbrev pub undefined_route : Bytes → Error
undefined_route path = codes "route not defined, static mode, key:" ++ path

-- `router.check`
abbrev run_filter : Bytes → Bytes → Bool → Option Apply → Result Bytes
run_filter path content static (some apply) = apply path content
run_filter path content static none = if static then err (undefined_route path) else ok content

unfoldable pub check : List (Rule Apply) → Bytes → Bytes → Bool → Result Bytes
check rules path content static = run_filter path content static (first_match path rules)

-- `router.checkStatic`
abbrev test_route {ℓ} : {A : Type ℓ} → Bytes → Bool → Option A → Result (Unit {0})
test_route path static (some apply) = ok tt
test_route path static none = if static then err (undefined_route path) else ok tt

unfoldable pub check_static : List (Rule Apply) → Bytes → Bool → Result (Unit {0})
check_static rules path static = test_route path static (first_match path rules)

-- `hooks.check`
abbrev run_hook : Bytes → Bool → Option ApplyDelete → Result (Unit {0})
run_hook path static (some apply) = apply path
run_hook path static none = if static then err (undefined_route path) else ok tt

unfoldable pub check_hooks : List (Rule ApplyDelete) → Bytes → Bool → Result (Unit {0})
check_hooks rules path static = run_hook path static (first_match path rules)

-- `NoopFilter` and `NoopHook`
unfoldable pub noop_filter : Apply
noop_filter index content = ok content

unfoldable pub noop_hook : ApplyDelete
noop_hook index = ok tt

module _ {W : Type 0} where
  -- `watchers.check`
  abbrev run_watch : Bytes → W → Option (Notify W) → W
  run_watch path w (some apply) = apply path w
  run_watch path w none = w

  unfoldable pub check_watchers : List (Rule (Notify W)) → Bytes → W → W
  check_watchers rules path w = run_watch path w (first_match path rules)

  -- `WriteFilter`, `ReadFilter`, `DeleteFilter` and `AfterFilter` add behind what is there.
  unfoldable pub write_filter : Bytes → Apply → Filters W → Filters W
  write_filter path apply f = record f {
    on_write = f.on_write ++ record { path = path; apply = apply } ∷ [];
  }

  unfoldable pub read_filter : Bytes → Apply → Filters W → Filters W
  read_filter path apply f = record f {
    on_read = f.on_read ++ record { path = path; apply = apply } ∷ [];
  }

  unfoldable pub delete_filter : Bytes → ApplyDelete → Filters W → Filters W
  delete_filter path apply f = record f {
    on_delete = f.on_delete ++ record { path = path; apply = apply } ∷ [];
  }

  unfoldable pub after_filter : Bytes → Notify W → Filters W → Filters W
  after_filter path apply f = record f {
    after_write = f.after_write ++ record { path = path; apply = apply } ∷ [];
  }

  -- `OpenFilter`
  unfoldable pub open_filter : Bytes → Filters W → Filters W
  unfolding write_filter read_filter delete_filter
  open_filter name f =
      delete_filter name noop_hook (read_filter name noop_filter (write_filter name noop_filter f))
