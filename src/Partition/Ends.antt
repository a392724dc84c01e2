-- ===== src/Partition/Ends.antt =====
-- The loop of the writer task of partition.rs over any events, on a disk that may fail at any call.
use kafko.Base.{
  ℕ, ◌≤◌, ◌≡◌, refl, sym, ap, ◌∙◌, List, [], ◌∷◌, ◌++◌, Option, append_assoc, append-nil, arith,
  Bool-cases, ◌==◌, inl, inr, Bool, true, false,
}
use mathlib.Core.Path.{subst}
use kafko.Error.{Result, ok, err, panicked, out_of_fuel}
use kafko.Exec.{Exec, continue, pure}
use kafko.Disk.{Disk}
use kafko.Compression.{Platform}
use kafko.Record.{Record, wire_size}
use kafko.Log
use kafko.Log.{Log}
use kafko.Log.Enough.{IsEnough}
use kafko.Log.Rounds.{sync-Enough}
use kafko.Log.RetentionRounds.{apply_retention-Enough}
use kafko.Log.Steps.{Same, Leads}
use kafko.Log.Counts.{sync-Keeps}
use kafko.Log.Retention.{apply_retention}
use kafko.Log.RetentionCounts.{apply_retention-Keeps}
use kafko.Topic.Wakeup.{Notify, Wakeup}
use kafko.Partition.{
  Command, append, append_batch, read_at, sync, poison, fail_next_append, WriterState, State,
  caught, flush_append_batch, handle_other, handle_single_command, process_with_batching, Drained,
  drain, tick, close,
}
use kafko.Partition.Loop.{
  Task, Event, arrives, receives, ticks, closes, pulse, served, passed, received, continued, step,
  run_events, partition_writer_loop,
}
use kafko.Partition.Batching.{as_commands, as_list, drain_whole}
use kafko.Partition.Rounds.{channels, pending, pending-append}
use kafko.Partition.Runs.{event_channels, arrived}
use kafko.Partition.Serving.{answered}
use kafko.Partition.Commands.{single-Does}
use kafko.Partition.AnyDisk.{channels_in, flush-Does, other-Does}
use kafko.Partition.Does.{IsMarked, Cut, Does, continue-Does}

-- A round: the commands `ids` are answered in order, but for those still in the mailbox, or the task
-- has ended by a panic after answering the first of them.
abbrev Round : List ℕ → State → Result (List Command) × State → Type 0
Round ids s (ok rest, s') =
    IsMarked s' × (answered s' ++ pending rest ≡ answered s ++ ids) × (s.0.hwm ≤ s'.0.hwm)
Round ids s (err e, s') = ⊥
Round ids s (panicked, s') = Cut ids s s'
Round ids s (out_of_fuel, s') = ⊥

pending_of-batch : (batch : List (Record × ℕ)) → pending (as_commands batch) ≡ channels_in batch
pending_of-batch [] = refl
pending_of-batch ((r, id) ∷ batch) = ap (λ ks. id ∷ ks) (pending_of-batch batch)

continue_assoc :
    {S A B C : Type 0} (x : Result A × S) (f : A → Exec S B) (g : B → Exec S C)
    → continue (continue x f) g ≡ continue x (λ a s. continue (f a s) g)
continue_assoc (ok a, s) f g = refl
continue_assoc (err e, s) f g = refl
continue_assoc (panicked, s) f g = refl
continue_assoc (out_of_fuel, s) f g = refl

with_rest :
    (ids done : List ℕ) (rest : List Command) (s : State) (x : Result (Unit {0}) × State)
    → ids ≡ done ++ pending rest
    → Does done s x
    → Round ids s (continue x (λ u. pure rest))
with_rest ids done rest s (ok u, s') e (m, (a, le)) = (
  m,
  ap (λ ks. ks ++ pending rest) a
      ∙ append_assoc (answered s) done (pending rest)
      ∙ ap (λ ks. answered s ++ ks) (sym e),
  le,
)
with_rest ids done rest s (err k, s') e h = h
with_rest ids done rest s (panicked, s') e (left, a, le) = (
  left ++ pending rest,
  sym (append_assoc (answered s') left (pending rest))
      ∙ ap (λ ks. ks ++ pending rest) a
      ∙ append_assoc (answered s) done (pending rest)
      ∙ ap (λ ks. answered s ++ ks) (sym e),
  le,
)
with_rest ids done rest s (out_of_fuel, s') e h = h

module _ (p : Platform) (max_records max_bytes : ℕ) where
  round_append :
      (w : WriterState) (d : Disk) (r : Record) (id : ℕ) (inbox : List Command)
      → w.hwm ≡ w.log.next_offset
      → Round
          (id ∷ pending inbox)
          (w, d)
          (process_with_batching p max_records max_bytes (append r id) inbox (w, d))
  unfolding process_with_batching
  round_append w d r id inbox m =
      let q : Drained = drain max_records max_bytes ((r, id) ∷ []) (wire_size r) inbox in
      let both =
        continue-Does (w, d) (channels_in q.batch) (pending (as_list q.other))
          (λ u. handle_other p q.other) (flush_append_batch p q.batch (w, d))
          (flush-Does p w d m q.batch) (λ u s' m'. other-Does p s'.0 s'.1 m' q.other) in
      let split : id ∷ pending inbox
          ≡ (channels_in q.batch ++ pending (as_list q.other)) ++ pending q.rest =
        ap pending (sym (drain_whole max_records max_bytes ((r, id) ∷ []) (wire_size r) inbox))
        ∙ pending-append (as_commands q.batch) (as_list q.other ++ q.rest)
        ∙ ap (λ ks. ks ++ pending (as_list q.other ++ q.rest)) (pending_of-batch q.batch)
        ∙ ap (λ ks. channels_in q.batch ++ ks) (pending-append (as_list q.other) q.rest)
        ∙ sym (append_assoc (channels_in q.batch) (pending (as_list q.other)) (pending q.rest)) in
      subst (Round (id ∷ pending inbox) (w, d))
        (continue_assoc (flush_append_batch p q.batch (w, d)) (λ u. handle_other p q.other)
          (λ u. pure q.rest))
        (with_rest (id ∷ pending inbox) _ q.rest (w, d) _ split both)

  round_single :
      (w : WriterState) (d : Disk) (c : Command) (inbox : List Command)
      → w.hwm ≡ w.log.next_offset
      → Round
          (channels c ++ pending inbox)
          (w, d)
          (continue (handle_single_command p c (w, d)) (λ u. pure inbox))
  round_single w d c inbox m =
      with_rest _ (channels c) inbox (w, d) (handle_single_command p c (w, d)) refl
        (single-Does p w d m c)

  round :
      (w : WriterState) (d : Disk) (c : Command) (inbox : List Command)
      → w.hwm ≡ w.log.next_offset
      → Round
          (channels c ++ pending inbox)
          (w, d)
          (process_with_batching p max_records max_bytes c inbox (w, d))
  unfolding process_with_batching
  round w d (append r id) inbox m = round_append w d r id inbox m
  round w d (append_batch rs id) inbox m = round_single w d (append_batch rs id) inbox m
  round w d (read_at offset id) inbox m = round_single w d (read_at offset id) inbox m
  round w d (sync id) inbox m = round_single w d (sync id) inbox m
  round w d poison inbox m = round_single w d poison inbox m
  round w d (fail_next_append kind) inbox m = round_single w d (fail_next_append kind) inbox m

module _ {N : Type 0} (y : Notify N) (p : Platform) where
  -- The commands that the loop has seen: those answered and those in the mailbox.
  abbrev pub seen_by : Task N → List ℕ
  seen_by t = answered t.state ++ pending t.inbox

  -- The loop goes on, with every command that was there or arrived answered or in the mailbox, in
  -- order; or it has ended by a panic, with a first part of them answered.
  abbrev pub Ends : List ℕ → Task N → Result (Unit {0}) × Task N → Type 0
  Ends ids t (ok u, t') =
      IsMarked t'.state × (seen_by t' ≡ seen_by t ++ ids) × (t.state.0.hwm ≤ t'.state.0.hwm)
  Ends ids t (err e, t') = ⊥
  Ends ids t (panicked, t') =
      (rest : List ℕ) × (answered t'.state ++ rest ≡ seen_by t ++ ids)
      × (t.state.0.hwm ≤ t'.state.0.hwm)
  Ends ids t (out_of_fuel, t') = ⊥

  served_round :
      (t : Task N) (c : Command) (rest : List Command) (x : Result (List Command) × State)
      → t.inbox ≡ c ∷ rest
      → Round (channels c ++ pending rest) t.state x
      → Ends [] t (served y p t x)
  served_round t c rest (ok left, s) e (m, a, le) =
      (m, a ∙ ap (λ cs. answered t.state ++ pending cs) (sym e) ∙ sym (append-nil (seen_by t)), le)
  served_round t c rest (err k, s) e h = h
  served_round t c rest (panicked, s) e (left, a, le) = (
    left,
    a ∙ ap (λ cs. answered t.state ++ pending cs) (sym e) ∙ sym (append-nil (seen_by t)),
    le,
  )
  served_round t c rest (out_of_fuel, s) e h = h

  -- A round that works on the log and answers nobody.
  passed_round :
      {A : Type 0} (g : Option (Wakeup N) → Option (Wakeup N)) (t : Task N)
      (x : Result A × (Log × Disk))
      → IsMarked t.state
      → Leads t.state.0.log (λ a l. Same t.state.0.log l) x
      → IsEnough x.0
      → Ends [] t (passed y p (λ u. record u { wake = g u.wake }) t (caught t.state.0 x))
  passed_round g t (ok a, (l, d)) m (n, c) en =
      (m ∙ sym n, sym (append-nil (seen_by t)), omega arith)
  passed_round g t (err k, (l, d)) m (n, c) en =
      (m ∙ sym n, sym (append-nil (seen_by t)), omega arith)
  passed_round g t (panicked, (l, d)) m h en =
      (pending t.inbox, sym (append-nil (seen_by t)), omega arith)
  passed_round g t (out_of_fuel, (l, d)) m h en = en

  received-Ends :
      (t : Task N) (inbox : List Command)
      → t.inbox ≡ inbox
      → IsMarked t.state
      → Ends [] t (received y p inbox t)
  received-Ends t [] e m = (m, sym (append-nil (seen_by t)), omega arith)
  received-Ends t (c ∷ rest) e m =
      let config = t.state.0.log.config in
      served_round t c rest _ e
        (round p config.batch_max_records config.batch_max_bytes t.state.0 t.state.1 c rest m)

  step-Ends : (e : Event) (t : Task N) → IsMarked t.state → Ends (event_channels e) t (step y p e t)
  unfolding step tick close
  step-Ends (arrives c) t m = (
    m,
    ap (λ ks. answered t.state ++ ks)
          (pending-append t.inbox (c ∷ [])
            ∙ ap (λ ks. pending t.inbox ++ ks) (append-nil (channels c)))
        ∙ sym (append_assoc (answered t.state) (pending t.inbox) (channels c)),
    omega arith,
  )
  step-Ends receives t m = received-Ends t t.inbox refl m
  step-Ends (ticks now mtime) t m =
      passed_round (λ wake. wake) t (apply_retention mtime now (t.state.0.log, t.state.1)) m
        ((apply_retention-Keeps t.state.0.log mtime now).leads t.state.0.log t.state.1 (refl, refl))
        ((apply_retention-Enough mtime now).enough (t.state.0.log, t.state.1))
  step-Ends closes t m =
      passed_round (pulse y p) t (Log.sync (t.state.0.log, t.state.1)) m
        ((sync-Keeps t.state.0.log).leads t.state.0.log t.state.1 (refl, refl))
        (sync-Enough.enough (t.state.0.log, t.state.1))

  onwards :
      (is js : List ℕ) (t : Task N) (x : Result (Unit {0}) × Task N)
      (f : Task N → Result (Unit {0}) × Task N)
      → Ends is t x
      → ((u : Task N) → IsMarked u.state → Ends js u (f u))
      → Ends (is ++ js) t (continued y p x f)
  onwards is js t (ok v, u) f (m, e, le) h = next_round (f u) (h u m)
    where
      more : {ks : List ℕ} → ks ≡ seen_by u ++ js → ks ≡ seen_by t ++ (is ++ js)
      more q = q ∙ ap (λ zs. zs ++ js) e ∙ append_assoc (seen_by t) is js

      next_round : (x : Result (Unit {0}) × Task N) → Ends js u x → Ends (is ++ js) t x
      next_round (ok v', u') (m', e', le') = (m', more e', omega (arith, le, le'))
      next_round (err k, u') h' = h'
      next_round (panicked, u') (rest, e', le') = (rest, more e', omega (arith, le, le'))
      next_round (out_of_fuel, u') h' = h'
  onwards is js t (err k, u) f h g = h
  onwards is js t (panicked, u) f (rest, e, le) g = (
    rest ++ js,
    sym (append_assoc (answered u.state) rest js)
        ∙ ap (λ zs. zs ++ js) e
        ∙ append_assoc (seen_by t) is js,
    le,
  )
  onwards is js t (out_of_fuel, u) f h g = h

  run_events-Ends :
      (events : List Event) (t : Task N)
      → IsMarked t.state
      → Ends (arrived events) t (run_events y p events t)
  unfolding run_events
  run_events-Ends [] t m = (m, sym (append-nil (seen_by t)), omega arith)
  run_events-Ends (e ∷ events) t m =
      onwards (event_channels e) (arrived events) t (step y p e t) (run_events y p events)
        (step-Ends e t m) (λ u m'. run_events-Ends events u m')

  -- The writer task over any events, whatever each call on the disk answers, with any commands and any
  -- configuration: while it goes on, every command that was in the mailbox or has arrived is answered
  -- once, in the order of arrival, or is still in the mailbox, and the high-water mark is the next
  -- offset of the log and has not gone back; it ends only by a panic, before which a first part of the
  -- commands has been answered, each once and in order. The mark is the next offset at the start.
  pub partition_writer_loop-Ends :
      (events : List Event) (t : Task N)
      → IsMarked t.state
      → Ends (arrived events) t (partition_writer_loop y p events t)
  unfolding partition_writer_loop
  partition_writer_loop-Ends events t m =
      let stopped : Bool = t.state.0.log.config.retention_check_interval == 0 in
      let loop_panics : stopped ≡ true → partition_writer_loop y p events t ≡ (panicked, t) =
        λ e. rw (partition_writer_loop, e) in
      let loop_runs : stopped ≡ false
          → partition_writer_loop y p events t ≡ run_events y p events t =
        λ e. rw (partition_writer_loop, e) in
      elim (Bool-cases (t.state.0.log.config.retention_check_interval == 0)) [
        | inl e ↦ subst (Ends (arrived events) t) (sym (loop_panics e)) (
          pending t.inbox ++ arrived events,
          sym (append_assoc (answered t.state) _ _),
          omega arith,
        )
        | inr e ↦ subst (Ends (arrived events) t) (sym (loop_runs e)) (run_events-Ends events t m)
      ]
