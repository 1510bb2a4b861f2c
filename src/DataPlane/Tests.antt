-- ===== src/DataPlane/Tests.antt =====
-- Stop at two moments of a running client.
use cell_routing_from_scratc.Prelude.{refl, ◌≤◌, true, false, some, arith}
use cell_routing_from_scratc.DataPlane.Stopping.{
  Running, started, reading, ready, checking, unlocked, selects, read_fails, Run, GoesOn,
  closes_conn, here, loops, Hangs, stop_ends, stop_may_hang,
}

-- Stop comes while the loop reads from an open connection; the read fails, and the loop sees it.
abbrev connected : Running
connected = record started { loop = reading; conn = some true }

abbrev stopping : Running
stopping = record connected { stop = unlocked; reconnect = false; conn = some false }

stop_ends_example : (2 ≤ 3) × GoesOn (record stopping { loop = checking })
stop_ends_example =
    stop_ends {s = connected} {t = stopping} refl (λ e. ground (arith, e))
      (closes_conn refl (λ e. ground (arith, e)))
      (loops (loops here (read_fails refl)) (selects refl))

-- The loop has just read that it may reconnect.
stop_may_hang_example : (t : Running) × Run (record started { loop = ready }) 2 t × Hangs t
stop_may_hang_example = stop_may_hang (record started { loop = ready }) refl refl
