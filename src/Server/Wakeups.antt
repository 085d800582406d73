-- ===== src/Server/Wakeups.antt =====
-- server/bmlb/bmlb.go, `syncing`: no change that the loop is told of is lost.
use kube_bazellb.Prelude.{
  ◌∙◌, ap, true, ℕ, zero, suc, ◌≤◌, ◌<◌, Option, none, some, Str, if◌then◌else◌, ◌≡◌, ◌≢◌, ◌⊎◌, inl,
  inr, Bool-cases, ltb, refl, sym, subst, arith,
}
use kube_bazellb.Server.{Server, maybe_sync, capacity, Event}
use kube_bazellb.Server.Events.{wakes, dispatch_lem}
use kube_bazellb.Server.Loop.{
  stopped, made, waiting, woken, halfway, building, makes, sends, takes, lists, lists_endpoints,
  finishes, changes, calls, ticks, moves, here, next, Phase, World, new_world, called, set_chan,
  Move, Step, Star, Reach,
}

-- The signals in the channel.
abbrev pub signals : Option ℕ → ℕ
signals none = 0
signals (some n) = n

-- The loop has sent its first signal.
abbrev pub HasStarted : World → Type 0
HasStarted w = (w.phase ≢ stopped) × (w.phase ≢ made)

-- The loop runs on a channel, which holds two signals at most; and where it has started and not listed
-- what it was told of, it is about to list or there is a signal for it.
pub record IsAwake (w : World) : Type 0 where
  pub told_bound : w.told ≤ w.cached
  pub signal_bound : signals w.server.sync_chan ≤ capacity
  pub channel : (w.phase ≡ stopped) ⊎ ((n : ℕ) × (w.server.sync_chan ≡ some n))
  pub unmade : w.phase ≡ stopped → w.server.sync_chan ≡ none
  pub pending :
      HasStarted w → w.listed < w.told → (0 < signals w.server.sync_chan) ⊎ (w.phase ≡ woken)

maybe_sync-none : (s : Server) → s.sync_chan ≡ none → (maybe_sync s).sync_chan ≡ none
unfolding maybe_sync
maybe_sync-none s e = ground (arith, e)

maybe_sync-some :
    (s : Server) (n : ℕ) → s.sync_chan ≡ some n → (m : ℕ) × ((maybe_sync s).sync_chan ≡ some m)
unfolding maybe_sync
maybe_sync-some s n e = elim (Bool-cases (ltb n capacity)) [
  | inl h ↦ (suc n, ground (arith, e, h))
  | inr h ↦ (n, ground (arith, e, h))
]

maybe_sync-signals :
    (s : Server)
    → signals s.sync_chan ≤ capacity
    → (signals (maybe_sync s).sync_chan ≤ capacity)
      × (s.sync_chan ≢ none → 0 < signals (maybe_sync s).sync_chan)
unfolding maybe_sync
maybe_sync-signals s h = ground (arith, h)

-- A call that wakes the loop.
abbrev waking : World → World
waking w = record w { server = maybe_sync w.server; told = w.cached }

called-wakes : (e : Event) (w : World) → called e w ≡ (if wakes e then waking w else w)
unfolding called
called-wakes e w = ground (arith, dispatch_lem e w.server)

waking-IsAwake : (w : World) → IsAwake w → IsAwake (waking w)
waking-IsAwake w a = record {
  told_bound = omega arith;
  signal_bound = (maybe_sync-signals w.server a.signal_bound).0;
  channel = elim a.channel [ inl e ↦ inl e | inr (n, e) ↦ inr (maybe_sync-some w.server n e) ];
  unmade = λ e. maybe_sync-none w.server (a.unmade e);
  pending = λ h l. inl (
      (maybe_sync-signals w.server a.signal_bound).1
        (elim a.channel [ inl e ↦ absurd (h.0 e) | inr (n, e) ↦ ground (arith, e) ]));
}

Step-IsAwake : {w x : World} → Step w x → IsAwake w → IsAwake x
Step-IsAwake (changes w) a = record {
  told_bound = omega (arith, a.told_bound);
  signal_bound = a.signal_bound;
  channel = a.channel;
  unmade = a.unmade;
  pending = a.pending;
}
Step-IsAwake (calls e w) a =
    subst IsAwake (sym (called-wakes e w))
      (elim (Bool-cases (wakes e)) [ inl y ↦ rw y (waking-IsAwake w a) | inr n ↦ rw n a ])
Step-IsAwake (moves (makes w p)) a = record {
  told_bound = a.told_bound;
  signal_bound = omega arith;
  channel = inr (0, refl);
  unmade = λ e. ground (arith, e);
  pending = λ h l. absurd (h.1 refl);
}
Step-IsAwake (moves (sends w n p e q)) a = record {
  told_bound = a.told_bound;
  signal_bound = omega (arith, q);
  channel = inr (suc n, refl);
  unmade = λ e. ground (arith, e);
  pending = λ h l. inl (omega arith);
}
Step-IsAwake (moves (takes w n p e)) a = record {
  told_bound = a.told_bound;
  signal_bound = ground (arith, e, a.signal_bound);
  channel = inr (n, refl);
  unmade = λ e. ground (arith, e);
  pending = λ h l. inr refl;
}
Step-IsAwake (ticks w p) a = record {
  told_bound = a.told_bound;
  signal_bound = a.signal_bound;
  channel = ground (arith, a.channel, p);
  unmade = λ e. ground (arith, e);
  pending = λ h l. inr refl;
}
Step-IsAwake (moves (lists w p)) a = record {
  told_bound = a.told_bound;
  signal_bound = a.signal_bound;
  channel = ground (arith, a.channel, p);
  unmade = λ e. ground (arith, e);
  pending = λ h l. absurd (omega (arith, l, a.told_bound));
}
Step-IsAwake (moves (lists_endpoints w p)) a = record {
  told_bound = a.told_bound;
  signal_bound = a.signal_bound;
  channel = ground (arith, a.channel, p);
  unmade = λ e. ground (arith, e);
  pending = λ h l. ground (arith, a.pending, p, l);
}
Step-IsAwake (moves (finishes w p)) a = record {
  told_bound = a.told_bound;
  signal_bound = a.signal_bound;
  channel = ground (arith, a.channel, p);
  unmade = λ e. ground (arith, e);
  pending = λ h l. ground (arith, a.pending, p, l);
}

-- In every interleaving of changes of the caches, calls of the handlers, ticks and moves of the
-- sync loop, with the making of the channel and the first send into it as separate moves, the
-- channel holds at most two signals, and once the first signal is sent, where a call that wakes
-- the loop saw changes that the loop has not listed since, a signal waits in the channel or the
-- loop is about to list.
pub reachable-IsAwake : {bind : Str} {w : World} → Reach (new_world bind) w → IsAwake w
reachable-IsAwake here = record {
  told_bound = omega arith;
  signal_bound = omega arith;
  channel = inl refl;
  unmade = λ e. refl;
  pending = λ h l. absurd (h.0 refl);
}
reachable-IsAwake (next r s) = Step-IsAwake s (reachable-IsAwake r)

has_signal : (o : Option ℕ) → 0 < signals o → (n : ℕ) × (o ≡ some (suc n))
has_signal none h = absurd (omega arith)
has_signal (some zero) h = absurd (omega arith)
has_signal (some (suc n)) h = (n, refl)

-- From the `select` with a signal in the channel, two moves list everything.
list_from_waiting :
    (v w : World)
    → Star Move v w
    → w.phase ≡ waiting
    → 0 < signals w.server.sync_chan
    → (x : World) × Star Move v x × (x.phase ≡ building) × (x.listed ≡ w.cached)
list_from_waiting v w r p h =
    let (n, e) = has_signal w.server.sync_chan h in
    (
      record (set_chan n woken w) { phase = building; listed = w.cached },
      next (next (next r (takes w n p e)) (lists (set_chan n woken w) refl)) (
          lists_endpoints (record (set_chan n woken w) { phase = halfway; listed = w.cached })
            refl),
      refl,
      refl,
    )

list_from :
    (w : World)
    → IsAwake w
    → HasStarted w
    → w.listed < w.told
    → (p : Phase) → w.phase ≡ p
    → (x : World) × Star Move w x × (x.phase ≡ building) × (x.listed ≡ w.cached)
list_from w a h l stopped p = absurd (h.0 p)
list_from w a h l made p = absurd (h.1 p)
list_from w a h l waiting p = list_from_waiting w w here p (ground (arith, a.pending h l, p))
list_from w a h l woken p = (
  record w { phase = building; listed = w.cached },
  next (next here (lists w p))
      (lists_endpoints (record w { phase = halfway; listed = w.cached }) refl),
  refl,
  refl,
)
list_from w a h l halfway p =
    list_from_waiting w (record w { phase = waiting })
      (next (next here (lists_endpoints w p)) (finishes (record w { phase = building }) refl)) refl
      (ground (arith, a.pending h l, p))
list_from w a h l building p =
    list_from_waiting w (record w { phase = waiting }) (next here (finishes w p)) refl
      (ground (arith, a.pending h l, p))

-- From every reachable state of a loop that has sent its first signal, where a call that wakes it
-- saw changes not listed since, the moves of the loop alone, without the clock, lead to a state
-- in which it has listed services and endpoints, all that was cached.
pub told-listed :
    {bind : Str} {w : World}
    → Reach (new_world bind) w
    → HasStarted w
    → w.listed < w.told
    → (x : World) × Star Move w x × (x.phase ≡ building) × (x.listed ≡ w.cached)
told-listed {bind} {w} r h l = list_from w (reachable-IsAwake r) h l w.phase refl

-- The loop waits to send its first signal into a full channel.
abbrev pub IsBlocked : World → Type 0
IsBlocked w = (w.phase ≡ made) × (w.server.sync_chan ≡ some capacity)

Step-IsBlocked : {w x : World} → Step w x → IsBlocked w → IsBlocked x
unfolding maybe_sync
Step-IsBlocked (changes w) b = b
Step-IsBlocked (calls e w) b =
    subst IsBlocked (sym (called-wakes e w))
      (elim (Bool-cases (wakes e)) [ inl y ↦ rw y (b.0, ground (arith, b.1)) | inr n ↦ rw n b ])
Step-IsBlocked (ticks w p) b = ground (arith, b.0, p)
Step-IsBlocked (moves (makes w p)) b = ground (arith, b.0, p)
Step-IsBlocked (moves (sends w n p e q)) b = ground (arith, b.1, e, q)
Step-IsBlocked (moves (takes w n p e)) b = ground (arith, b.0, p)
Step-IsBlocked (moves (lists w p)) b = ground (arith, b.0, p)
Step-IsBlocked (moves (lists_endpoints w p)) b = ground (arith, b.0, p)
Step-IsBlocked (moves (finishes w p)) b = ground (arith, b.0, p)

Reach-IsBlocked : {w x : World} → Reach w x → IsBlocked w → IsBlocked x
Reach-IsBlocked here b = b
Reach-IsBlocked (next r s) b = Step-IsBlocked s (Reach-IsBlocked r b)

IsBlocked-Move : {w x : World} → IsBlocked w → Move w x → ⊥
IsBlocked-Move b (makes w p) = ground (arith, b.0, p)
IsBlocked-Move b (sends w n p e q) = ground (arith, b.1, e, q)
IsBlocked-Move b (takes w n p e) = ground (arith, b.0, p)
IsBlocked-Move b (lists w p) = ground (arith, b.0, p)
IsBlocked-Move b (lists_endpoints w p) = ground (arith, b.0, p)
IsBlocked-Move b (finishes w p) = ground (arith, b.0, p)

-- Two calls that wake the loop, between the making of the channel and the first send of the loop
-- into it, fill the channel, and in every state reached from there the loop is still before that
-- send, the channel is full, and the loop has no move.
pub called-IsBlocked :
    (d e : Event) (v : World)
    → wakes d ≡ true
    → wakes e ≡ true
    → {w : World} → Reach (called e (called d (set_chan 0 made v))) w
    → (w.phase ≡ made) × (w.server.sync_chan ≡ some capacity) × ((x : World) → Move w x → ⊥)
unfolding maybe_sync
called-IsBlocked d e v p q r =
    let start : World = set_chan 0 made v in
    let first : called d start ≡ waking start = called-wakes d start ∙ rw p refl in
    let second : called e (waking start) ≡ waking (waking start) =
      called-wakes e (waking start) ∙ rw q refl in
    let b =
      Reach-IsBlocked r
        (subst IsBlocked (sym (ap (called e) first ∙ second)) (refl, ground arith)) in
    (b.0, b.1, λ x m. IsBlocked-Move b m)
