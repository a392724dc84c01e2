-- ===== src/Consumer/Park.antt =====
-- The waiting of consumer.rs: `next_with_position` as turns of its loop. The world of the partitions
-- is `E` with the wakeup signal; `read` stands for `Partition::read_record_at`, with what other tasks do
-- until it returns, and `meanwhile` for what they do between its last return and `notified.await`.
use kafko.Base.{
  ℕ, zero, suc, ◌+◌, ◌^◌, ◌<◌, ◌≡◌, refl, Option, none, some, length, arith, true, false,
  if◌then◌else◌, ◌⊎◌, inl, inr, Bool,
}
use kafko.Error.{Result, ok, err, panicked, out_of_fuel}
use kafko.Exec.{Exec}
use kafko.Record.{Record}
use kafko.Consumer.{Consumer, Item, scan, took, at_cursor, try_take_next}
use kafko.Topic.Wakeup.{
  Notify, IsNotify, Wakeup, mark_parked, unmark_parked, enable_notified, signalled, IsCounted,
  acts_wake, IsShared, IsShared-refl, IsShared-trans,
}

-- How a turn of the loop ends: it returns, it goes on to the next turn, or it waits at
-- `notified.await`.
pub data Turn : Type 0 where
  returns : Result Item → Turn
  again waits : Turn

module _ {N E : Type 0} (y : Notify N) (read : ℕ → ℕ → Exec (E × Wakeup N) (Option Record))
    (meanwhile : E × Wakeup N → E × Wakeup N) where
  abbrev pub State : Type 0
  State = Consumer × (E × Wakeup N)

  abbrev on_wakeup : (Wakeup N → Wakeup N) → State → State
  on_wakeup f (c, (e, w)) = (c, (e, f w))

  -- `notified.await`
  abbrev awaited : ℕ → State → Turn × State
  awaited id (c, (e, w)) =
      if y.is_woken id w.notify then (again, (c, (e, unmark_parked y w))) else (waits, (c, (e, w)))

  -- What comes of the scan after the consumer is counted as parked.
  abbrev after_rescan : ℕ → Result (Option Item) × State → Turn × State
  after_rescan id (ok (some item), s) = (returns (ok item), on_wakeup (unmark_parked y) s)
  after_rescan id (ok none, (c, world)) = awaited id (c, meanwhile world)
  after_rescan id (err e, s) = (returns (err e), on_wakeup (unmark_parked y) s)
  after_rescan id (panicked, s) = (returns panicked, s)
  after_rescan id (out_of_fuel, s) = (returns out_of_fuel, s)

  -- What comes of the first scan.
  abbrev after_scan : ℕ → Result (Option Item) × State → Turn × State
  after_scan id (ok (some item), s) = (returns (ok item), s)
  after_scan id (ok none, s) =
      after_rescan id
        (try_take_next read (on_wakeup (λ w. enable_notified y id (mark_parked y w)) s))
  after_scan id (err e, s) = (returns (err e), s)
  after_scan id (panicked, s) = (returns panicked, s)
  after_scan id (out_of_fuel, s) = (returns out_of_fuel, s)

  -- One turn of the loop of `next_with_position`; `id` is the number of its `Notified`.
  unfoldable pub turn : ℕ → State → Turn × State
  turn id s = after_scan id (try_take_next read s)

  zero_or_more : (n : ℕ) → (n ≡ 0) ⊎ (0 < n)
  zero_or_more zero = inl refl
  zero_or_more (suc n) = inr (omega arith)

  module _ (law : IsNotify y) (sent : E → ℕ) (id : ℕ)
      (reads : (p offset : ℕ) (world : E × Wakeup N)
        → IsShared y sent id world (read p offset world).1)
      (pause : (world : E × Wakeup N) → IsShared y sent id world (meanwhile world)) where
    took-IsShared :
        (c : Consumer) (n p cursor : ℕ) (world : E × Wakeup N)
        (x : Result (Option Record) × (E × Wakeup N))
        (next : E × Wakeup N → Result (Option Item) × State)
        → IsShared y sent id world x.1
        → ((w : E × Wakeup N) → IsShared y sent id w (next w).1.1)
        → IsShared y sent id world (took read c n p cursor x next).1.1
    took-IsShared c n p cursor world (ok (some r), w) next h k = h
    took-IsShared c n p cursor world (ok none, w) next h k =
        IsShared-trans y sent id world w (next w).1.1 h (k w)
    took-IsShared c n p cursor world (err e, w) next h k = h
    took-IsShared c n p cursor world (panicked, w) next h k = h
    took-IsShared c n p cursor world (out_of_fuel, w) next h k = h

    at_cursor-IsShared :
        (c : Consumer) (n p : ℕ) (o : Option ℕ) (world : E × Wakeup N)
        (next : E × Wakeup N → Result (Option Item) × State)
        → ((w : E × Wakeup N) → IsShared y sent id w (next w).1.1)
        → IsShared y sent id world (at_cursor read c n p o world next).1.1
    at_cursor-IsShared c n p none world next k = IsShared-refl y sent id world
    at_cursor-IsShared c n p (some cursor) world next k =
        took-IsShared c n p cursor world (read p cursor world) next (reads p cursor world) k

    scan-IsShared :
        (c : Consumer) (n i left : ℕ) (world : E × Wakeup N)
        → IsShared y sent id world (scan read c n i left world).1.1
    unfolding scan
    scan-IsShared c n i zero world = IsShared-refl y sent id world
    scan-IsShared c n i (suc left) world =
        at_cursor-IsShared c n _ _ world _ (λ w. scan-IsShared c n (i + 1) left w)

    -- The turn waits only if the second scan found nothing and no signal was sent since the consumer
    -- was counted, `from` signals having been sent before.
    abbrev WaitsRightly : ℕ → Result (Option Item) × State → Turn × State → Type 0
    WaitsRightly from rescan out = out.0 ≡ waits → (rescan.0 ≡ ok none) × (sent out.1.1.0 ≡ from)

    awaited_rightly :
        (c c' : Consumer) (e e' : E) (w w' : Wakeup N) (b : Bool)
        → IsCounted y w
        → y.is_enabled id w.notify ≡ true
        → IsShared y sent id (e, w) (e', w')
        → y.is_woken id w'.notify ≡ b
        → WaitsRightly (sent e) (ok none, (c, (e, w))) (awaited id (c', (e', w')))
    awaited_rightly c c' e e' w w' true h en s q = rw q (λ z. cc)
    awaited_rightly c c' e e' w w' false h en s q =
        let (done, m, same, n) = s h in
        rw q (λ z. (
          refl,
          elim (zero_or_more (signalled done)) [
            | inl zero_sent ↦ omega (arith, n, zero_sent)
            | inr some_sent ↦ absurd (cc (acts_wake y law id done w m h en some_sent, same, q))
          ],
        ))

    rescan_rightly :
        (c : Consumer) (e : E) (w : Wakeup N) (out : Result (Option Item) × State)
        → IsCounted y w
        → y.is_enabled id w.notify ≡ true
        → IsShared y sent id (e, w) out.1.1
        → WaitsRightly (sent e) out (after_rescan id out)
    rescan_rightly c e w (ok (some item), s) h en k = λ z. cc
    rescan_rightly c e w (ok none, (c', (e', w'))) h en k =
        let m = meanwhile (e', w') in
        awaited_rightly c c' e m.0 w m.1 (y.is_woken id m.1.notify) h en
          (IsShared-trans y sent id (e, w) (e', w') m k (pause (e', w'))) refl
    rescan_rightly c e w (err x, s) h en k = λ z. cc
    rescan_rightly c e w (panicked, s) h en k = λ z. cc
    rescan_rightly c e w (out_of_fuel, s) h en k = λ z. cc

    -- No wakeup is lost: when a first scan has found nothing, the turn of `next_with_position` waits
    -- only if the second scan, after the consumer was counted and its `Notified` enabled, found
    -- nothing either, and no writer has signalled from then on until the consumer awaits, be it
    -- during a read, after it or behind the last one. Other tasks act on the shared signal as they
    -- like during each read and before the await, except that they take nobody off the count but
    -- themselves; `Notify` does what its documentation says, and fewer than 2^64 - 1 others are
    -- parked.
    pub turn-WaitsRightly :
        (c c' : Consumer) (e : E) (w : Wakeup N) (world : E × Wakeup N)
        → try_take_next read (c, world) ≡ (ok none, (c', (e, w)))
        → w.parked + 1 < 2 ^ 64
        → (turn id (c, world)).0 ≡ waits
        → ((try_take_next read (c', (e, enable_notified y id (mark_parked y w)))).0 ≡ ok none)
          × (sent (turn id (c, world)).1.1.0 ≡ sent e)
    unfolding turn mark_parked enable_notified try_take_next
    turn-WaitsRightly c c' e w world first room =
        let w1 : Wakeup N = enable_notified y id (mark_parked y w) in
        rw (turn, first)
          (rescan_rightly c' e w1 (try_take_next read (c', (e, w1))) (omega arith, omega arith)
            (law.enabled id w.notify)
            (scan-IsShared c' (length c'.cursors) 0 (length c'.cursors) (e, w1)))
