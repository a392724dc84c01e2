-- ===== src/Topic/Wakeup.antt =====
-- crates/kafko/src/topic.rs: the wakeup signal that the partitions of a topic share with its
-- consumers. tokio's `Notify` is the parameter `Notify`.
use mathlib.Core.Path.{subst}
use kafko.Base.{
  ℕ, suc, ◌+◌, ◌-◌, ◌%◌, ◌^◌, ◌<◌, ◌≡◌, ◌≢◌, refl, sym, ap, ◌∙◌, List, [], ◌∷◌, ◌++◌, arith, Bool,
  true, Bool-cases, inl, inr, ltb, lt→ltb, if◌then◌else◌,
}

-- A waiter is a `Notified` future, by its number; its await returns once it is woken.
pub record Notify (N : Type 0) : Type 0 where
  pub new : N
  pub notify_waiters : N → N
  pub enable : ℕ → N → N
  pub is_enabled : ℕ → N → Bool
  pub is_woken : ℕ → N → Bool

-- What the documentation of `Notify` says of `notify_waiters` and `Notified::enable`.
pub record IsNotify {N : Type 0} (y : Notify N) : Type 0 where
  pub enabled : (id : ℕ) (n : N) → y.is_enabled id (y.enable id n) ≡ true
  pub stays_enabled :
      (id : ℕ) (n : N) → y.is_enabled id n ≡ true → y.is_enabled id (y.notify_waiters n) ≡ true
  pub stays_woken :
      (id : ℕ) (n : N) → y.is_woken id n ≡ true → y.is_woken id (y.notify_waiters n) ≡ true
  pub enabled_by_others :
      (id other : ℕ) (n : N) → y.is_enabled id n ≡ true → y.is_enabled id (y.enable other n) ≡ true
  pub woken_by_others :
      (id other : ℕ) (n : N)
      → other ≢ id
      → y.is_woken id n ≡ true
      → y.is_woken id (y.enable other n) ≡ true
  pub wakes :
      (id : ℕ) (n : N) → y.is_enabled id n ≡ true → y.is_woken id (y.notify_waiters n) ≡ true

pub record Wakeup (N : Type 0) : Type 0 where
  pub notify : N
  pub parked : ℕ

-- What another task does to the signal: a writer signals, a consumer is counted or taken off the
-- count, and enables its own `Notified`.
pub data Act : Type 0 where
  signals marks unmarks : Act
  enables : ℕ → Act

abbrev pub signalled : List Act → ℕ
signalled [] = 0
signalled (signals ∷ more) = suc (signalled more)
signalled (a ∷ more) = signalled more

pub signalled-append :
    (done more : List Act) → signalled (done ++ more) ≡ signalled done + signalled more
signalled-append [] more = omega arith
signalled-append (signals ∷ done) more = omega (arith, signalled-append done more)
signalled-append (marks ∷ done) more = signalled-append done more
signalled-append (unmarks ∷ done) more = signalled-append done more
signalled-append (enables other ∷ done) more = signalled-append done more

module _ {N : Type 0} (y : Notify N) where
  unfoldable pub new_wakeup : Wakeup N
  new_wakeup = record { notify = y.new; parked = 0 }

  unfoldable pub signal : Wakeup N → Wakeup N
  signal w = if ltb 0 w.parked then record w { notify = y.notify_waiters w.notify } else w

  -- `fetch_add` and `fetch_sub` on a 64-bit counter wrap.
  unfoldable pub mark_parked : Wakeup N → Wakeup N
  mark_parked w = record w { parked = (w.parked + 1) % 2 ^ 64 }

  unfoldable pub unmark_parked : Wakeup N → Wakeup N
  unmark_parked w = record w { parked = (w.parked + (2 ^ 64 - 1)) % 2 ^ 64 }

  -- `notified()`, pinned and enabled.
  unfoldable pub enable_notified : ℕ → Wakeup N → Wakeup N
  enable_notified id w = record w { notify = y.enable id w.notify }

  -- An act of another task on the shared signal.
  abbrev pub act : Act → Wakeup N → Wakeup N
  act signals w = signal w
  act marks w = mark_parked w
  act unmarks w = unmark_parked w
  act (enables other) w = enable_notified other w

  abbrev pub acts : List Act → Wakeup N → Wakeup N
  acts [] w = w
  acts (a ∷ more) w = acts more (act a w)

  -- What another task may do while a consumer, whose `Notified` is `id`, is counted: it counts itself
  -- before it takes itself off the count, and has a `Notified` of its own.
  abbrev pub May : ℕ → Act → Wakeup N → Type 0
  May id signals w = Unit
  May id marks w = w.parked + 1 < 2 ^ 64
  May id unmarks w = 1 < w.parked
  May id (enables other) w = other ≢ id

  abbrev pub IsAllowed : ℕ → List Act → Wakeup N → Type 0
  IsAllowed id [] w = Unit
  IsAllowed id (a ∷ more) w = May id a w × IsAllowed id more (act a w)

  pub acts-append :
      (done more : List Act) (w : Wakeup N) → acts (done ++ more) w ≡ acts more (acts done w)
  acts-append [] more w = refl
  acts-append (a ∷ done) more w = acts-append done more (act a w)

  pub IsAllowed-append :
      (id : ℕ) (done more : List Act) (w : Wakeup N)
      → IsAllowed id done w
      → IsAllowed id more (acts done w)
      → IsAllowed id (done ++ more) w
  IsAllowed-append id [] more w h k = k
  IsAllowed-append id (a ∷ done) more w h k = (h.0, IsAllowed-append id done more (act a w) h.1 k)

  -- A consumer is counted.
  abbrev pub IsCounted : Wakeup N → Type 0
  IsCounted w = (0 < w.parked) × (w.parked < 2 ^ 64)

  act-IsCounted : (id : ℕ) (a : Act) (w : Wakeup N) → May id a w → IsCounted w → IsCounted (act a w)
  unfolding signal mark_parked unmark_parked enable_notified
  act-IsCounted id signals w m h = elim (Bool-cases (ltb 0 w.parked)) [
    | inl e ↦ rw e h
    | inr e ↦ rw e h
  ]
  act-IsCounted id marks w m h = (omega arith, omega arith)
  act-IsCounted id unmarks w m h = (omega (arith, h.1), omega (arith, h.1))
  act-IsCounted id (enables other) w m h = h

  pub acts-IsCounted :
      (id : ℕ) (done : List Act) (w : Wakeup N)
      → IsAllowed id done w
      → IsCounted w
      → IsCounted (acts done w)
  acts-IsCounted id [] w m h = h
  acts-IsCounted id (a ∷ done) w m h =
      acts-IsCounted id done (act a w) m.1 (act-IsCounted id a w m.0 h)

  -- What other tasks do in a step of the world, while a consumer is counted: some acts on the shared
  -- signal, of which `sent` counts the signals.
  abbrev pub IsShared : {E : Type 0} → (E → ℕ) → ℕ → E × Wakeup N → E × Wakeup N → Type 0
  IsShared sent id (e, w) (e', w') =
      IsCounted w
      → (done : List Act) × IsAllowed id done w
        × (w' ≡ acts done w)
        × (sent e' ≡ sent e + signalled done)

  pub IsShared-refl :
      {E : Type 0} (sent : E → ℕ) (id : ℕ) (world : E × Wakeup N) → IsShared sent id world world
  IsShared-refl sent id (e, w) h = ([], tt, refl, omega arith)

  pub IsShared-trans :
      {E : Type 0} (sent : E → ℕ) (id : ℕ) (a b c : E × Wakeup N)
      → IsShared sent id a b
      → IsShared sent id b c
      → IsShared sent id a c
  IsShared-trans sent id (e, w) (e1, w1) (e2, w2) f g h =
      let (done, may, q, n) = f h in
      let h1 : IsCounted w1 = subst IsCounted (sym q) (acts-IsCounted id done w may h) in
      let (more, may1, q1, n1) = g h1 in
      (
        done ++ more,
        IsAllowed-append id done more w may (subst (IsAllowed id more) q may1),
        q1 ∙ ap (acts more) q ∙ sym (acts-append done more w),
        omega (arith, n, n1, signalled-append done more),
      )

  module _ (law : IsNotify y) (id : ℕ) where
    -- What no act of another takes back.
    abbrev IsEnabled : Wakeup N → Type 0
    IsEnabled w = y.is_enabled id w.notify ≡ true

    abbrev IsWoken : Wakeup N → Type 0
    IsWoken w = y.is_woken id w.notify ≡ true

    act-IsEnabled : (a : Act) (w : Wakeup N) → May id a w → IsEnabled w → IsEnabled (act a w)
    unfolding signal mark_parked unmark_parked enable_notified
    act-IsEnabled signals w m e = elim (Bool-cases (ltb 0 w.parked)) [
      | inl q ↦ rw q (law.stays_enabled id w.notify e)
      | inr q ↦ rw q e
    ]
    act-IsEnabled marks w m e = e
    act-IsEnabled unmarks w m e = e
    act-IsEnabled (enables other) w m e = law.enabled_by_others id other w.notify e

    act-IsWoken : (a : Act) (w : Wakeup N) → May id a w → IsWoken w → IsWoken (act a w)
    unfolding signal mark_parked unmark_parked enable_notified
    act-IsWoken signals w m e = elim (Bool-cases (ltb 0 w.parked)) [
      | inl q ↦ rw q (law.stays_woken id w.notify e)
      | inr q ↦ rw q e
    ]
    act-IsWoken marks w m e = e
    act-IsWoken unmarks w m e = e
    act-IsWoken (enables other) w m e = law.woken_by_others id other w.notify m e

    acts-IsWoken :
        (done : List Act) (w : Wakeup N) → IsAllowed id done w → IsWoken w → IsWoken (acts done w)
    acts-IsWoken [] w m e = e
    acts-IsWoken (a ∷ done) w m e = acts-IsWoken done (act a w) m.1 (act-IsWoken a w m.0 e)

    signal_wakes : (w : Wakeup N) → IsCounted w → IsEnabled w → IsWoken (signal w)
    unfolding signal
    signal_wakes w h e = rw (lt→ltb 0 w.parked h.0) (law.wakes id w.notify e)

    -- A waiter that is enabled while its consumer is counted is woken by the first signal, whatever
    -- other tasks do before and after it.
    pub acts_wake :
        (done : List Act) (w : Wakeup N)
        → IsAllowed id done w
        → IsCounted w
        → IsEnabled w
        → 0 < signalled done
        → IsWoken (acts done w)
    acts_wake [] w m h e n = absurd (omega arith)
    acts_wake (signals ∷ done) w m h e n = acts-IsWoken done (signal w) m.1 (signal_wakes w h e)
    acts_wake (marks ∷ done) w m h e n =
        acts_wake done (act marks w) m.1 (act-IsCounted id marks w m.0 h)
          (act-IsEnabled marks w m.0 e) n
    acts_wake (unmarks ∷ done) w m h e n =
        acts_wake done (act unmarks w) m.1 (act-IsCounted id unmarks w m.0 h)
          (act-IsEnabled unmarks w m.0 e) n
    acts_wake (enables other ∷ done) w m h e n =
        acts_wake done (act (enables other) w) m.1 (act-IsCounted id (enables other) w m.0 h)
          (act-IsEnabled (enables other) w m.0 e) n
