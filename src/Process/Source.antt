-- ===== src/Process/Source.antt =====
-- Where the active configuration of a router comes from, in the course of its process.
use cell_routing_from_scratc.Prelude.{
  ℕ, ◌≡◌, refl, ◌⊎◌, inl, inr, String, Bool, true, false, Option, none, some, List, ok, arith, ap,
  sym, subst, Option-cases, Bool-cases, ◌==◌, Result-cases,
}
use cell_routing_from_scratc.Config.{Config, Library}
use cell_routing_from_scratc.Config.Validity.{IsValid}
use cell_routing_from_scratc.Loader
use cell_routing_from_scratc.Loader.{
  Loader, get_config, file, control_plane, ConfigSource, get_config_version, get_config_source,
  last_reload_time,
}
use cell_routing_from_scratc.Loader.LastKnownGood.{load_initial-HasValid, try_reload-Reloaded}
use cell_routing_from_scratc.Protocol.{config_snapshot, ConfigSnapshotMessage}
use cell_routing_from_scratc.DataPlane
use cell_routing_from_scratc.DataPlane.{Codec, Client, config_of, handle_message}
use cell_routing_from_scratc.Process.{
  Process, startup, client_of, with_loader, Step, ticks, connects, hears, begins, finishes, checks,
  Steps, here, next,
}
use cell_routing_from_scratc.Process.Startup.{startup-Started}

-- A message leaves the loader alone, or its snapshot is applied.
handle_message-loader :
    (codec : Codec) (c : Client) (bytes : List ℕ) (now : ℕ)
    → ((handle_message codec c bytes now).0.loader ≡ c.loader)
      ⊎ ((snapshot : ConfigSnapshotMessage) × ((handle_message codec c bytes now).0.loader
            ≡ Loader.apply_config c.loader (config_of snapshot) now))
unfolding handle_message DataPlane.handle_config_snapshot
handle_message-loader codec c bytes now = elim (Option-cases (codec.unmarshal_message bytes)) [
  | inl garbled ↦ inl (ground (arith, garbled))
  | inr (m, read) ↦ elim (Bool-cases (m.message_type == config_snapshot)) [
    | inr other ↦ inl (ground (arith, read, other))
    | inl same ↦ elim (Result-cases (codec.unmarshal_snapshot bytes)) [
      | inl (snapshot, parsed) ↦ inr (snapshot, ground (arith, read, same, parsed))
      | inr (inl (reason, bad)) ↦ inl (ground (arith, read, same, bad))
      | inr (inr bad) ↦ inl (ground (arith, read, same, bad))
    ]
  ]
]

-- Where the active configuration comes from in a router that has no control plane, `alone`, or has one;
-- `first` is the loader of its start.
module _ (lib : Library) (codec : Codec) (first : Loader) where
  unfoldable pub Origin : (alone : Bool) → Loader → Type 0
  Origin true l =
      (cfg : Config) × (l.active_config ≡ some cfg)
      × IsValid lib cfg
      × (l.config_source ≡ some file)
  Origin false l =
      (l ≡ first)
      ⊎ ((snapshot : ConfigSnapshotMessage) × (l.active_config ≡ some (config_of snapshot))
          × (l.config_source ≡ some control_plane))

  hears-Origin :
      (c : Client) (bytes : List ℕ) (now : ℕ)
      → Origin false c.loader
      → Origin false (handle_message codec c bytes now).0.loader
  unfolding Origin Loader.apply_config
  hears-Origin c bytes now o = elim (handle_message-loader codec c bytes now) [
    | inl same ↦ subst (Origin false) (sym same) o
    | inr (snapshot, new) ↦
        inr (snapshot, ap (λ l. l.active_config) new, ap (λ l. l.config_source) new)
  ]

  ticks-Origin :
      (l l' : Loader) (checksum_read load_read : Option (List ℕ)) (now : ℕ)
      → Loader.try_reload lib l checksum_read load_read now ≡ some l'
      → Origin true l
      → Origin true l'
  unfolding Origin
  ticks-Origin l l' checksum_read load_read now e o =
      elim (try_reload-Reloaded lib l l' checksum_read load_read now e) [
        | inl same ↦ subst (Origin true) (sym same) o
        | inr r ↦ (r.cfg, r.active, r.held.valid, r.source)
      ]

  abbrev pub Sourced : (alone : Bool) → Process → Type 0
  Sourced alone p = (p.reloads ≡ alone) × (alone ≡ true → p.client ≡ none) × Origin alone p.loader

  Step-Sourced :
      (alone : Bool) {p q : Process} → Step lib codec p q → Sourced alone p → Sourced alone q
  Step-Sourced true {p} (ticks checksum_read load_read now loader on e) (polls, single, from) =
      (polls, single, ticks-Origin p.loader loader checksum_read load_read now e from)
  Step-Sourced false (ticks checksum_read load_read now loader on e) (polls, single, from) =
      absurd (ground (arith, on, polls))
  Step-Sourced true (connects c conn e) (polls, single, from) =
      absurd (ground (arith, e, single refl))
  Step-Sourced false (connects c conn e) (polls, single, from) = (polls, λ x. cc, from)
  Step-Sourced true (hears c bytes now e) (polls, single, from) =
      absurd (ground (arith, e, single refl))
  Step-Sourced false {p} (hears c bytes now e) (polls, single, from) =
      (polls, λ x. cc, hears-Origin (with_loader c p.loader) bytes now from)
  Step-Sourced alone (begins provider r now) s = s
  Step-Sourced alone (finishes f u now h served e) s = s
  Step-Sourced alone (checks address outcome now) s = s

  pub Steps-Sourced :
      (alone : Bool) {p q : Process} → Steps lib codec p q → Sourced alone p → Sourced alone q
  Steps-Sourced alone here s = s
  Steps-Sourced alone (next m step) s = Step-Sourced alone step (Steps-Sourced alone m s)

pub load_initial-source :
    (lib : Library) (l l' : Loader) (load_read checksum_read : Option (List ℕ)) (now : ℕ)
    → Loader.load_initial lib l load_read checksum_read now ≡ ok l'
    → l'.config_source ≡ some file
unfolding Loader.load_initial
load_initial-source lib l l' load_read checksum_read now e = ground arith

module _ (lib : Library) (codec : Codec) where
  pub startup-Sourced :
      (getenv : String → String) (load_read checksum_read : Option (List ℕ)) (now : ℕ) (p : Process)
      → startup lib getenv load_read checksum_read now ≡ ok p
      → Sourced lib codec p.loader (getenv "CONTROL_PLANE_URL" == "") p
  unfolding Origin client_of
  startup-Sourced getenv load_read checksum_read now p e =
      let s = startup-Started lib getenv load_read checksum_read now p e in
      let (cfg, active, valid) =
        load_initial-HasValid lib _ p.loader load_read checksum_read now s.loaded in
      let from = load_initial-source lib _ p.loader load_read checksum_read now s.loaded in
      (
        s.reloads,
        λ none_there. ground (arith, s.client, none_there),
        elim (Bool-cases (getenv "CONTROL_PLANE_URL" == "")) [
          | inl none_there ↦ rw none_there (cfg, active, valid, from)
          | inr with_client ↦ rw with_client (inl refl)
        ],
      )
