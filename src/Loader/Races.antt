-- ===== src/Loader/Races.antt =====
-- A file that changes while the loader reads it twice, and the uptake of a changed file.
use cell_routing_from_scratc.Prelude.{
  ℕ, ◌≡◌, refl, ◌≢◌, String, Option, some, List, [], ◌∷◌, ok, arith, eq_iff, eq_refl,
}
use cell_routing_from_scratc.Config.{Config, Library}
use cell_routing_from_scratc.Loader.{
  Loader, file_checksum, load_initial, reload_changed, compare_checksums, with_checksum, try_reload,
  reload_loop, store_file,
}
use cell_routing_from_scratc.Loader.LastKnownGood.{Holds, Holds-load_valid}

module _ (lib : Library) where
  -- If the file holds a valid configuration at the tick, with another checksum than the last, the tick
  -- makes that configuration the active one, and a tick that finds the same file changes nothing more.
  pub try_reload_uptake :
      (l : Loader) (bytes : List ℕ) (cfg : Config) (last : String) (now later : ℕ)
      → l.last_checksum ≡ some last
      → lib.sha256_hex bytes ≢ last
      → Holds lib (some bytes) cfg
      → (l' : Loader) × (try_reload lib l (some bytes) (some bytes) now ≡ some l')
        × (l'.active_config ≡ some cfg)
        × (try_reload lib l' (some bytes) (some bytes) later ≡ some l')
  unfolding try_reload with_checksum compare_checksums reload_changed store_file file_checksum
  try_reload_uptake l bytes cfg last now later stored changed h = (
    store_file l cfg (lib.sha256_hex bytes) now,
    ground (arith, eq_iff (lib.sha256_hex bytes) last, Holds-load_valid lib (some bytes) cfg h),
    refl,
    ground (arith, eq_refl (lib.sha256_hex bytes)),
  )

  same_file :
      (l : Loader) (bytes : List ℕ) (load_read : Option (List ℕ)) (now : ℕ)
      → l.last_checksum ≡ some (lib.sha256_hex bytes)
      → try_reload lib l (some bytes) load_read now ≡ some l
  unfolding try_reload with_checksum compare_checksums file_checksum
  same_file l bytes load_read now e = ground (arith, eq_refl (lib.sha256_hex bytes))

  -- The ticks of a loop that finds the same bytes each time.
  abbrev pub steady : List ℕ → List ℕ → List (Option (List ℕ) × Option (List ℕ) × ℕ)
  steady bytes [] = []
  steady bytes (now ∷ times) = (some bytes, some bytes, now) ∷ steady bytes times

  steady-reload_loop :
      (l : Loader) (bytes times : List ℕ)
      → l.last_checksum ≡ some (lib.sha256_hex bytes)
      → reload_loop lib l (steady bytes times) ≡ some l
  unfolding reload_loop
  steady-reload_loop l bytes [] e = refl
  steady-reload_loop l bytes (now ∷ times) e =
      rw (same_file l bytes (some bytes) now e, reload_loop) (steady-reload_loop l bytes times e)

  -- The initial load reads the file once for the configuration and once more for the checksum. If the
  -- file changes from `old` to `new` between the two, the loader keeps the configuration of `old`, for
  -- as long as the file stays `new`.
  pub load_initial_misses_update :
      (l : Loader) (old new : List ℕ) (cfg : Config) (now : ℕ) (times : List ℕ)
      → Holds lib (some old) cfg
      → (l' : Loader) × (load_initial lib l (some old) (some new) now ≡ ok l')
        × (reload_loop lib l' (steady new times) ≡ some l')
        × (l'.active_config ≡ some cfg)
  unfolding load_initial file_checksum store_file
  load_initial_misses_update l old new cfg now times h = (
    store_file l cfg (lib.sha256_hex new) now,
    ground (arith, Holds-load_valid lib (some old) cfg h),
    steady-reload_loop (store_file l cfg (lib.sha256_hex new) now) new times refl,
    refl,
  )
