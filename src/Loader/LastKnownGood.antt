-- ===== src/Loader/LastKnownGood.antt =====
-- What the reload loop does to the active configuration.
use cell_routing_from_scratc.Prelude.{
  ℕ, ◌≡◌, refl, ◌≢◌, ◌⊎◌, inl, inr, ◌==◌, Option, none, some, List, [], ◌∷◌, ok, or_fail, arith,
  eq_iff, Bool-cases, Option-cases, ap, sym, subst, Result-cases,
}
use cell_routing_from_scratc.Config.{Config, Library, validate}
use cell_routing_from_scratc.Config.Validity.{IsValid, validate-IsValid_iff}
use cell_routing_from_scratc.Loader.{
  Loader, file, load_from_file, load_valid, as_load_error, file_checksum, load_initial,
  reload_changed, compare_checksums, with_checksum, try_reload, reload_loop, store_file,
}

module _ (lib : Library) where
  -- The file holds this configuration, and it is valid.
  pub record Holds (read : Option (List ℕ)) (cfg : Config) : Type 0 where
    pub bytes : List ℕ
    pub seen : read ≡ some bytes
    pub parsed : lib.unmarshal_config bytes ≡ some cfg
    pub valid : IsValid lib cfg

  as_load_error-eq-ok :
      (cfg cfg' : Config)
      → as_load_error lib cfg (validate lib cfg) ≡ ok cfg'
      → (cfg' ≡ cfg) × (validate lib cfg ≡ ok tt)
  unfolding as_load_error
  as_load_error-eq-ok cfg cfg' e = elim (Result-cases (validate lib cfg)) [
    | inl (u, valid) ↦ (ground (arith, valid), valid)
    | inr (inl (x, bad)) ↦ absurd (ground (arith, bad))
    | inr (inr bad) ↦ absurd (ground (arith, bad))
  ]

  load_valid-Holds :
      (read : Option (List ℕ)) (cfg : Config) → load_valid lib read ≡ ok cfg → Holds read cfg
  unfolding load_valid load_from_file
  load_valid-Holds none cfg e = cc
  load_valid-Holds (some bytes) cfg e = elim (Option-cases (lib.unmarshal_config bytes)) [
    | inl garbled ↦ absurd (ground (arith, garbled))
    | inr (read_cfg, parsed) ↦
        let (same, valid) = as_load_error-eq-ok read_cfg cfg (rw (parsed, or_fail) at e) in
        record {
          bytes = bytes;
          seen = refl;
          parsed = rw same parsed;
          valid = (validate-IsValid_iff lib cfg).0 (rw same valid);
        }
  ]

  pub Holds-load_valid :
      (read : Option (List ℕ)) (cfg : Config) → Holds read cfg → load_valid lib read ≡ ok cfg
  unfolding load_valid load_from_file as_load_error
  Holds-load_valid read cfg h =
      rw h.seen (ground (arith, h.parsed, (validate-IsValid_iff lib cfg).1 h.valid))

  -- A reload took effect.
  pub record Reloaded (l l' : Loader) (checksum_read load_read : Option (List ℕ)) (now : ℕ)
      : Type 0 where
    pub cfg : Config
    pub held : Holds load_read cfg
    pub changed : file_checksum lib checksum_read ≢ l.last_checksum
    pub active : l'.active_config ≡ some cfg
    pub source : l'.config_source ≡ some file
    pub checksum : l'.last_checksum ≡ file_checksum lib checksum_read
    pub time : l'.last_reload ≡ some now
    pub running : l'.stopped ≡ l.stopped

  -- A tick of the reload loop that does not panic leaves the loader as it was, or the file's checksum
  -- has changed and the file holds a valid configuration, which becomes the active one.
  pub try_reload-Reloaded :
      (l l' : Loader) (checksum_read load_read : Option (List ℕ)) (now : ℕ)
      → try_reload lib l checksum_read load_read now ≡ some l'
      → (l' ≡ l) ⊎ Reloaded l l' checksum_read load_read now
  unfolding try_reload with_checksum compare_checksums reload_changed store_file file_checksum
  try_reload-Reloaded l l' none load_read now e = inl (ground arith)
  try_reload-Reloaded l l' (some b) load_read now e = elim (Option-cases l.last_checksum) [
    | inl never ↦ absurd (ground (arith, never))
    | inr (last, stored) ↦ elim (Bool-cases (lib.sha256_hex b == last)) [
      | inl same ↦ inl (ground (arith, stored, same))
      | inr differs ↦ elim (Result-cases (load_valid lib load_read)) [
        | inl (cfg, loaded) ↦
            let new : l' ≡ store_file l cfg (lib.sha256_hex b) now =
              ground (arith, stored, differs, loaded) in
            inr (record {
              cfg = cfg;
              held = load_valid-Holds load_read cfg loaded;
              changed = λ s. ground (arith, stored, s, differs, eq_iff (lib.sha256_hex b) last);
              active = ap (λ x. x.active_config) new;
              source = ap (λ x. x.config_source) new;
              checksum = ap (λ x. x.last_checksum) new;
              time = ap (λ x. x.last_reload) new;
              running = ap (λ x. x.stopped) new;
            })
        | inr (inl (x, bad)) ↦ inl (ground (arith, stored, differs, bad))
        | inr (inr bad) ↦ absurd (ground (arith, stored, differs, bad))
      ]
    ]
  ]

  -- The active configuration is there and valid.
  abbrev pub HasValid : Loader → Type 0
  HasValid l = (cfg : Config) × (l.active_config ≡ some cfg) × IsValid lib cfg

  pub load_initial-HasValid :
      (l l' : Loader) (load_read checksum_read : Option (List ℕ)) (now : ℕ)
      → load_initial lib l load_read checksum_read now ≡ ok l'
      → HasValid l'
  unfolding load_initial store_file
  load_initial-HasValid l l' load_read checksum_read now e =
      elim (Result-cases (load_valid lib load_read)) [
        | inl (cfg, loaded) ↦ elim (Option-cases (file_checksum lib checksum_read)) [
          | inl gone ↦ absurd (ground (arith, loaded, gone))
          | inr (checksum, sum) ↦
              let new : l' ≡ store_file l cfg checksum now = ground (arith, loaded, sum) in
              (cfg, ap (λ x. x.active_config) new, (load_valid-Holds load_read cfg loaded).valid)
        ]
        | inr (inl (x, bad)) ↦ absurd (ground (arith, bad))
        | inr (inr bad) ↦ absurd (ground (arith, bad))
      ]

  pub try_reload-HasValid :
      (l l' : Loader) (checksum_read load_read : Option (List ℕ)) (now : ℕ)
      → try_reload lib l checksum_read load_read now ≡ some l'
      → HasValid l
      → HasValid l'
  try_reload-HasValid l l' checksum_read load_read now e h =
      elim (try_reload-Reloaded l l' checksum_read load_read now e) [
        | inl same ↦ subst HasValid (sym same) h
        | inr r ↦ (r.cfg, r.active, r.held.valid)
      ]

  reload_loop-HasValid :
      (l l' : Loader) (ticks : List (Option (List ℕ) × Option (List ℕ) × ℕ))
      → reload_loop lib l ticks ≡ some l'
      → HasValid l
      → HasValid l'
  unfolding reload_loop
  reload_loop-HasValid l l' [] e h = let same : l ≡ l' = cc in subst HasValid same h
  reload_loop-HasValid l l' ((checksum_read, load_read, now) ∷ ticks) e h =
      elim (Option-cases (try_reload lib l checksum_read load_read now)) [
        | inl crashed ↦ absurd (ground (arith, crashed))
        | inr (t, stepped) ↦
            reload_loop-HasValid t l' ticks (ground (arith, stepped))
              (try_reload-HasValid l t checksum_read load_read now stepped h)
      ]

  -- With a file as its only source of configuration, a loader that has loaded its initial file and has
  -- not panicked has a valid active configuration after every tick of the reload loop, whatever the
  -- file came to hold.
  pub load-reload-HasValid :
      (l loaded l' : Loader) (load_read checksum_read : Option (List ℕ)) (now : ℕ)
      (ticks : List (Option (List ℕ) × Option (List ℕ) × ℕ))
      → load_initial lib l load_read checksum_read now ≡ ok loaded
      → reload_loop lib loaded ticks ≡ some l'
      → HasValid l'
  load-reload-HasValid l loaded l' load_read checksum_read now ticks e r =
      reload_loop-HasValid loaded l' ticks r
        (load_initial-HasValid l loaded load_read checksum_read now e)
