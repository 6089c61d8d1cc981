-- ===== src/Filters/Checks.antt =====
-- What the checks of filters.go answer, with and without the static flag.
use katamari.Base.{
  ◌≡◌, refl, ◌∙◌, ◌↔◌, ◌⊎◌, inl, inr, Bool, true, ◌||◌, List, if◌then◌else◌, ok, err, arith, Option,
  some, none, false,
}
use katamari.Base.Text.{Bytes, bytes_eq}
use katamari.Key.{match}
use katamari.Filters.Choice.{
  Rule, covers, first_match, NoneCovers, IsFirst, first_match-IsFirst, first_match-none,
  IsFirst-or_none, IsFirst-append, IsFirst-added,
}
use katamari.Filters.{
  Filters, Apply, ApplyDelete, check, check_static, check_hooks, undefined_route, write_filter,
  run_filter, test_route, open_filter, noop_filter, noop_hook,
}

-- The first filter whose path is the key or covers it decides, and no other is asked. Where no
-- filter covers the key, static mode answers with an error and open mode lets the data through.
pub check_lem :
    (rules : List (Rule Apply)) (path content : Bytes) (static : Bool)
    → ((r : Rule Apply)
        → IsFirst path rules r
        → check rules path content static ≡ r.apply path content)
      × (NoneCovers path rules
          → check rules path content static
            ≡ (if static then err (undefined_route path) else ok content))
      × (NoneCovers path rules ⊎ ((r : Rule Apply) × IsFirst path rules r))
unfolding check
check_lem rules path content static = (
  λ r f. rw (check, first_match-IsFirst path rules r f),
  λ n. rw (check, first_match-none path rules n),
  IsFirst-or_none path rules,
)

-- Before a delete, the first hook whose path is the key or covers it decides, and no other is
-- asked. Where no hook covers the key, static mode answers with an error and open mode allows it.
check_hooks_lem :
    (rules : List (Rule ApplyDelete)) (path : Bytes) (static : Bool)
    → ((r : Rule ApplyDelete) → IsFirst path rules r → check_hooks rules path static ≡ r.apply path)
      × (NoneCovers path rules
          → check_hooks rules path static ≡ (if static then err (undefined_route path) else ok tt))
      × (NoneCovers path rules ⊎ ((r : Rule ApplyDelete) × IsFirst path rules r))
unfolding check_hooks
check_hooks_lem rules path static = (
  λ r f. rw (check_hooks, first_match-IsFirst path rules r f),
  λ n. rw (check_hooks, first_match-none path rules n),
  IsFirst-or_none path rules,
)

check_static-IsFirst :
    (rules : List (Rule Apply)) (path : Bytes) (static : Bool) (r : Rule Apply)
    → IsFirst path rules r
    → check_static rules path static ≡ ok tt
unfolding check_static
check_static-IsFirst rules path static r f = rw (check_static, first_match-IsFirst path rules r f)

check_static-refuses :
    (rules : List (Rule Apply)) (path : Bytes) (static : Bool)
    → check_static rules path static ≡ err (undefined_route path)
    → (static ≡ true) × NoneCovers path rules
unfolding check_static
check_static-refuses rules path static h = elim (IsFirst-or_none path rules) [
  | inl n ↦ (ground (arith, rw (check_static, first_match-none path rules n) at h), n)
  | inr (r, f) ↦ absurd (ground (arith, rw (check_static, first_match-IsFirst path rules r f) at h))
]

-- `checkStatic` refuses a key exactly in static mode and where no filter covers it; then `check`
-- refuses it too, whatever the data.
pub check_static_iff :
    (rules : List (Rule Apply)) (path : Bytes) (static : Bool)
    → ((check_static rules path static ≡ err (undefined_route path))
        ↔ ((static ≡ true) × NoneCovers path rules))
      × (check_static rules path static ≡ err (undefined_route path)
          → (content : Bytes) → check rules path content static ≡ err (undefined_route path))
unfolding check_static
check_static_iff rules path static = (
  (
    check_static-refuses rules path static,
    λ (s, n). rw (check_static, first_match-none path rules n, s),
  ),
  λ h content.
      let (s, n) = check_static-refuses rules path static h in
      (check_lem rules path content static).1 n ∙ rw s,
)

module _ {W : Type 0} where
  -- A path is open after `OpenFilter name`, also in static mode, if `name` is the path or covers
  -- it and no filter registered before covers it: data pass unchanged on a write and on a read,
  -- a delete is let through, and `checkStatic` accepts the path.
  open_filter_lem :
      (f : Filters W) (name path content : Bytes) (static : Bool)
      → (bytes_eq name path || match name path) ≡ true
      → NoneCovers path f.on_write
      → NoneCovers path f.on_read
      → NoneCovers path f.on_delete
      → (check (open_filter name f).on_write path content static ≡ ok content)
        × (check (open_filter name f).on_read path content static ≡ ok content)
        × (check_static (open_filter name f).on_read path static ≡ ok tt)
        × (check_hooks (open_filter name f).on_delete path static ≡ ok tt)
  unfolding open_filter noop_filter noop_hook check_static covers
  open_filter_lem f name path content static c w r d = (
    (check_lem _ path content static).0 _ (IsFirst-added path f.on_write _ w c),
    (check_lem _ path content static).0 _ (IsFirst-added path f.on_read _ r c),
    check_static-IsFirst _ path static _ (IsFirst-added path f.on_read _ r c),
    (check_hooks_lem _ path static).0 _ (IsFirst-added path f.on_delete _ d c),
  )

  -- A filter that decides on a write goes on doing so when further filters are registered.
  pub check-write_filter :
      (f : Filters W) (name path content : Bytes) (static : Bool) (later : Apply) (r : Rule Apply)
      → IsFirst path f.on_write r
      → check (write_filter name later f).on_write path content static ≡ r.apply path content
  unfolding write_filter
  check-write_filter f name path content static later r first =
      (check_lem _ path content static).0 r (IsFirst-append path f.on_write r _ first)

run_filter-ok :
    (path content served : Bytes) (static : Bool) (o : Option Apply)
    → run_filter path content static o ≡ ok served
    → test_route path static o ≡ ok tt
run_filter-ok path content served static (some apply) h = refl
run_filter-ok path content served false none h = refl
run_filter-ok path content served true none h = cc

-- A filter that lets data through has a route.
pub check-ok :
    (rules : List (Rule Apply)) (path content served : Bytes) (static : Bool)
    → check rules path content static ≡ ok served
    → check_static rules path static ≡ ok tt
unfolding check check_static
check-ok rules path content served static h =
    run_filter-ok path content served static (first_match path rules) h
