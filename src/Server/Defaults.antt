-- ===== src/Server/Defaults.antt =====
-- What `defaults` of katamari.go leaves of the settings that it has filled in before.
use katamari.Base.{◌≡◌, refl, zero, suc, List, [], ◌∷◌}
use katamari.Base.Int.{ℤ, pos, negsuc}
use katamari.Base.Text.{Bytes}
use katamari.Server.Lifecycle.{Settings, default_settings, duration_or, texts_or}

duration_or_twice : (d e : ℤ) → duration_or (duration_or d e) e ≡ duration_or d e
duration_or_twice (pos zero) (pos zero) = refl
duration_or_twice (pos zero) (pos (suc n)) = refl
duration_or_twice (pos zero) (negsuc n) = refl
duration_or_twice (pos (suc n)) e = refl
duration_or_twice (negsuc n) e = refl

texts_or_twice : (ts us : List Bytes) → texts_or (texts_or ts us) us ≡ texts_or ts us
texts_or_twice [] [] = refl
texts_or_twice [] (u ∷ us) = refl
texts_or_twice (t ∷ ts) us = refl

-- Filling in the settings again changes none of them: a server that was closed starts with the
-- settings that it ran with.
default_settings_twice :
    {W : Type 0} (s : Settings W) → default_settings (default_settings s) ≡ default_settings s
unfolding default_settings
default_settings_twice s =
    rw
      (
        duration_or_twice s.deadline _,
        duration_or_twice s.tick _,
        duration_or_twice s.read_timeout _,
        duration_or_twice s.write_timeout _,
        duration_or_twice s.read_header_timeout _,
        duration_or_twice s.idle_timeout _,
        texts_or_twice s.allowed_origins _,
        texts_or_twice s.allowed_methods _,
        texts_or_twice s.allowed_headers _,
        duration_or_twice s.workers _,
      )
      refl
