-- ===== src/DataPlane/Snapshots.antt =====
-- What the messages of the control plane do to the data plane's configuration.
use cell_routing_from_scratc.Prelude.{
  ℕ, ◌≡◌, refl, ◌==◌, Option, none, some, List, [], ◌∷◌, arith, ap, Bool-cases, Option-cases,
  Result-cases, inl, inr, ok, err, panic, ◌∙◌, if◌then◌else◌,
}
use cell_routing_from_scratc.Config.{Config}
use cell_routing_from_scratc.Loader.{apply_config}
use cell_routing_from_scratc.Protocol.{config_snapshot, ConfigSnapshotMessage}
use cell_routing_from_scratc.DataPlane.{
  Codec, Client, config_of, handle_config_snapshot, handle_message, handle_messages,
}

module _ (codec : Codec) where
  -- The snapshot that a message carries, if it is of that type and parses as one.
  abbrev pub snapshot_in : List ℕ → Option ConfigSnapshotMessage
  snapshot_in bytes = elim (codec.unmarshal_message bytes) [
    | none ↦ none
    | some m ↦
        if m.message_type == config_snapshot
        then elim (codec.unmarshal_snapshot bytes) [
          | ok snapshot ↦ some snapshot
          | err reason ↦ none
          | panic ↦ none
        ]
        else none
  ]

  abbrev pub applied : List ℕ → Option Config → Option Config
  applied bytes active = elim (snapshot_in bytes) [
    | none ↦ active
    | some snapshot ↦ some (config_of snapshot)
  ]

  -- The configuration of the last snapshot among the messages, or else this one.
  unfoldable pub last_snapshot : Option Config → List (List ℕ × ℕ) → Option Config
  last_snapshot active [] = active
  last_snapshot active ((bytes, now) ∷ rest) = last_snapshot (applied bytes active) rest

  pub handle_message-active :
      (c : Client) (bytes : List ℕ) (now : ℕ)
      → (handle_message codec c bytes now).0.loader.active_config
        ≡ applied bytes c.loader.active_config
  unfolding handle_message handle_config_snapshot apply_config
  handle_message-active c bytes now = elim (Option-cases (codec.unmarshal_message bytes)) [
    | inl garbled ↦ ground (arith, garbled)
    | inr (m, read) ↦ elim (Bool-cases (m.message_type == config_snapshot)) [
      | inr other ↦ ground (arith, read, other)
      | inl same ↦ elim (Result-cases (codec.unmarshal_snapshot bytes)) [
        | inl (snapshot, parsed) ↦ ground (arith, read, same, parsed)
        | inr (inl (reason, bad)) ↦ ground (arith, read, same, bad)
        | inr (inr bad) ↦ ground (arith, read, same, bad)
      ]
    ]
  ]

  pub handle_message-conn :
      (c : Client) (bytes : List ℕ) (now : ℕ) → (handle_message codec c bytes now).0.conn ≡ c.conn
  unfolding handle_message handle_config_snapshot
  handle_message-conn c bytes now = elim (Option-cases (codec.unmarshal_message bytes)) [
    | inl garbled ↦ ground (arith, garbled)
    | inr (m, read) ↦ elim (Bool-cases (m.message_type == config_snapshot)) [
      | inr other ↦ ground (arith, read, other)
      | inl same ↦ elim (Result-cases (codec.unmarshal_snapshot bytes)) [
        | inl (snapshot, parsed) ↦ ground (arith, read, same, parsed)
        | inr (inl (reason, bad)) ↦ ground (arith, read, same, bad)
        | inr (inr bad) ↦ ground (arith, read, same, bad)
      ]
    ]
  ]

  handle_messages-connected :
      (c : Client) (conn : ℕ) (bytes : List ℕ) (now : ℕ) (rest : List (List ℕ × ℕ))
      → c.conn ≡ some conn
      → (handle_messages codec c ((bytes, now) ∷ rest)).0
        ≡ (handle_messages codec (handle_message codec c bytes now).0 rest).0
  unfolding handle_messages
  handle_messages-connected c conn bytes now rest e = ground (arith, e)

  -- A client that has a connection ends up with the configuration of the last snapshot that it could
  -- read, whatever other messages came, or with the one it had if there was none.
  pub handle_messages-last_snapshot :
      (c : Client) (conn : ℕ) (messages : List (List ℕ × ℕ))
      → c.conn ≡ some conn
      → (handle_messages codec c messages).0.loader.active_config
        ≡ last_snapshot c.loader.active_config messages
  unfolding handle_messages last_snapshot
  handle_messages-last_snapshot c conn [] e = refl
  handle_messages-last_snapshot c conn ((bytes, now) ∷ rest) e =
      let c' = (handle_message codec c bytes now).0 in
      ap (λ x. x.loader.active_config) (handle_messages-connected c conn bytes now rest e)
      ∙ handle_messages-last_snapshot c' conn rest (handle_message-conn c bytes now ∙ e)
      ∙ ap (λ a. last_snapshot a rest) (handle_message-active c bytes now)
