-- ===== src/Server/Loop.antt =====
-- server/bmlb/bmlb.go, `syncing`, with the informers that run beside it: one step for each change of a
-- cache, each call of a handler, and each move of the loop. The caches carry a version, which counts
-- the changes.
use kube_bazellb.Prelude.{ℕ, suc, ◌<◌, none, some, Str, if◌then◌else◌, ◌≡◌}
use kube_bazellb.Server.{Server, Event, dispatch, capacity}
use kube_bazellb.Server.Events.{wakes}

-- Before the channel is made; before the first signal is sent into it; at the `select`; between that
-- and the listing of the services; between that and the listing of the endpoints; and from there to
-- the next `select`.
pub data Phase : Type 0 where
  stopped made waiting woken halfway building : Phase

-- `told` is the version of the caches at the last call that wakes the loop, `listed` the one at
-- which the loop has listed the services last; its endpoints are of that version or a later one.
pub record World : Type 0 where
  pub server : Server
  pub phase : Phase
  pub cached : ℕ
  pub told : ℕ
  pub listed : ℕ

abbrev pub new_world : Str → World
new_world bind = record {
  server = record { bind = bind; sync_chan = none };
  phase = stopped;
  cached = 0;
  told = 0;
  listed = 0;
}

unfoldable pub called : Event → World → World
unfolding dispatch
called e w = record w { server = dispatch e w.server; told = if wakes e then w.cached else w.told }

abbrev pub set_chan : ℕ → Phase → World → World
set_chan n phase w = record w { server = record (w.server) { sync_chan = some n }; phase = phase }

-- A move of the loop that no clock makes. A send into a full channel waits, as a receive from an empty
-- one does.
pub data Move : World → World → Type 0 where
  makes : (w : World) → w.phase ≡ stopped → Move w (set_chan 0 made w)
  sends :
      (w : World) (n : ℕ)
      → w.phase ≡ made
      → w.server.sync_chan ≡ some n
      → n < capacity
      → Move w (set_chan (suc n) waiting w)
  takes :
      (w : World) (n : ℕ)
      → w.phase ≡ waiting
      → w.server.sync_chan ≡ some (suc n)
      → Move w (set_chan n woken w)
  lists : (w : World) → w.phase ≡ woken → Move w (record w { phase = halfway; listed = w.cached })
  lists_endpoints : (w : World) → w.phase ≡ halfway → Move w (record w { phase = building })
  finishes : (w : World) → w.phase ≡ building → Move w (record w { phase = waiting })

pub data Step : World → World → Type 0 where
  changes : (w : World) → Step w (record w { cached = suc w.cached })
  calls : (e : Event) (w : World) → Step w (called e w)
  ticks : (w : World) → w.phase ≡ waiting → Step w (record w { phase = woken })
  moves : {w x : World} → Move w x → Step w x

pub data Star (R : World → World → Type 0) (v : World) : World → Type 0 where
  here : Star R v v
  next : {w x : World} → Star R v w → R w x → Star R v x

abbrev pub Reach : World → World → Type 0
Reach = Star Step
