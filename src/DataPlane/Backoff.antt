-- ===== src/DataPlane/Backoff.antt =====
-- How long the connection loop waits between its dials.
use cell_routing_from_scratc.Prelude.{
  ℕ, suc, ◌*◌, ◌^◌, ◌≡◌, refl, true, false, leb, if◌then◌else◌, none, some, List, [], ◌∷◌, arith,
  Bool-cases, Option-cases, inl, inr,
}
use cell_routing_from_scratc.DataPlane.{
  Codec, Client, Turn, second, next_backoff, leaves, connection_loop, handle_messages,
}

-- 2 ^ failures seconds, at most a minute.
abbrev pub wait : ℕ → ℕ
wait failures = if leb (2 ^ failures) 60 then 2 ^ failures * second else 60 * second

-- The waits of a loop that has failed so many times since it last had a connection.
unfoldable pub waits : ℕ → List Turn → List ℕ
waits failures [] = []
waits failures (t ∷ ts) = elim (leaves t) [
  | true ↦ []
  | false ↦ elim t.dialled [
    | none ↦ wait failures ∷ waits (suc failures) ts
    | some session ↦ waits 0 ts
  ]
]

power_suc : (n : ℕ) → 2 ^ suc n ≡ 2 ^ n * 2
power_suc n = omega arith

next_backoff-wait : (failures : ℕ) → next_backoff (wait failures) ≡ wait (suc failures)
unfolding next_backoff
next_backoff-wait failures = ground (arith, power_suc failures)

connection_loop-sleeps :
    (codec : Codec) (c : Client) (failures : ℕ) (ts : List Turn)
    → (connection_loop codec c (wait failures) ts).1 ≡ waits failures ts
unfolding connection_loop waits
connection_loop-sleeps codec c failures [] = refl
connection_loop-sleeps codec c failures (t ∷ ts) = elim (Bool-cases (leaves t)) [
  | inl over ↦ ground (arith, over)
  | inr goes ↦ elim (Option-cases t.dialled) [
    | inl down ↦ ground (
      arith,
      goes,
      down,
      next_backoff-wait failures,
      connection_loop-sleeps codec c (suc failures) ts,
    )
    | inr ((conn, messages), up) ↦ ground (
      arith,
      goes,
      up,
      connection_loop-sleeps codec
          (handle_messages codec (record c { conn = some conn }) messages).0 0 ts,
    )
  ]
]

-- The connection loop starts with a wait of one second, and after a failed dial it sleeps for 2 ^ n seconds,
-- at most a minute, where n dials have failed in a row before that one: a connection starts the count again.
pub connection_loop-waits :
    (codec : Codec) (c : Client) (ts : List Turn)
    → (connection_loop codec c second ts).1 ≡ waits 0 ts
connection_loop-waits codec c ts = connection_loop-sleeps codec c 0 ts
