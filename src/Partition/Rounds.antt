-- ===== src/Partition/Rounds.antt =====
-- The loop of the writer task of partition.rs on a disk that does not fail.
use kafko.Base.{
  length-append, ℕ, suc, ◌≤◌, ◌≡◌, refl, sym, ap, ◌∙◌, Bytes, List, [], ◌∷◌, ◌++◌, Option, none,
  some, length, arith, append_assoc, append-nil, All,
}
use mathlib.Core.Path.{subst}
use kafko.Error.{Result}
use kafko.Exec.{◌>>=◌, pure}
use kafko.Compression.{Platform}
use kafko.Record.{Record, wire_size}
use kafko.Log.{LogConfig}
use kafko.Log.Batch.{batch_records}
use kafko.Partition.{
  Command, append, append_batch, read_at, sync, poison, fail_next_append, State, Drained, drain,
  flush_append_batch, flush_explicit_batch, handle_single_command, process_with_batching,
  handle_other,
}
use kafko.Partition.Batching.{as_commands, as_list, seen, IsOther, drain_lem, drain_grows}
use kafko.Partition.Writer.{Request, requests, coded, ids}
use kafko.Partition.Serving.{IsRoomy, IsServing, Serves, IsSound, answered}
use kafko.Partition.Flush.{flush_append_batch-Serves, flush_explicit_batch-Serves}
use kafko.Partition.Reads.{read_at-Serves, sync-Serves}

-- The reply channel of a command.
abbrev pub channels : Command → List ℕ
channels (append r id) = id ∷ []
channels (append_batch rs id) = id ∷ []
channels (read_at offset id) = id ∷ []
channels (sync id) = id ∷ []
channels poison = []
channels (fail_next_append kind) = []

abbrev pub pending : List Command → List ℕ
pending [] = []
pending (c ∷ cs) = channels c ++ pending cs

pub pending-append : (cs ds : List Command) → pending (cs ++ ds) ≡ pending cs ++ pending ds
pending-append [] ds = refl
pending-append (c ∷ cs) ds =
    rw (pending-append cs ds, append_assoc (channels c) (pending cs) (pending ds))

module _ (p : Platform) (config : LogConfig) (most : ℕ) (roomy : IsRoomy p config most) where
  -- A command whose records can be stored; `poison` is for tests.
  abbrev pub IsSoundCommand : Command → Type 0
  IsSoundCommand (append r id) = (v : Bytes) × IsSound p config most roomy (r, v)
  IsSoundCommand (append_batch rs id) =
      (es : List (Record × Bytes)) × (batch_records es ≡ rs)
      × (length es ≤ config.batch_max_records)
      × All (IsSound p config most roomy) es
  IsSoundCommand poison = ⊥
  IsSoundCommand c = Unit

  -- The requests of a batch.
  record IsBatch (batch : List (Record × ℕ)) : Type 0 where
    es : List Request
    same : requests es ≡ batch
    sound : All (IsSound p config most roomy) (coded es)

  as_commands-IsBatch :
      (batch : List (Record × ℕ)) → All IsSoundCommand (as_commands batch) → IsBatch batch
  as_commands-IsBatch [] h = record { es = []; same = refl; sound = tt }
  as_commands-IsBatch ((r, id) ∷ batch) h =
      let b = as_commands-IsBatch batch h.1 in
      record {
        es = ((r, h.0.0), id) ∷ b.es;
        same = ap (λ q. (r, id) ∷ q) b.same;
        sound = (h.0.1, b.sound);
      }

  pending-requests : (es : List Request) → pending (as_commands (requests es)) ≡ ids es
  pending-requests [] = refl
  pending-requests (e ∷ es) = ap (λ js. e.1 ∷ js) (pending-requests es)

  length-as_commands : (batch : List (Record × ℕ)) → length (as_commands batch) ≡ length batch
  length-as_commands [] = refl
  length-as_commands ((r, id) ∷ batch) = ap suc (length-as_commands batch)

  length-requests : (es : List Request) → length (requests es) ≡ length es
  length-requests [] = refl
  length-requests (e ∷ es) = ap suc (length-requests es)

  single-Serves :
      (base : ℕ) (rs : List Record) (s : State) (c : Command)
      → IsSoundCommand c
      → IsOther (some c)
      → IsServing p config base rs s
      → Serves p config s (channels c) (handle_single_command p c s)
  unfolding handle_single_command flush_explicit_batch
  single-Serves base rs s (append r id) h o i = elim o [ ]
  single-Serves base rs s (append_batch records id) h o i =
      subst (λ us. Serves p config s (id ∷ []) (handle_single_command p (append_batch us id) s))
        (h.1) (flush_explicit_batch-Serves p config most roomy base rs s h.0 id h.2 h.3 i)
  single-Serves base rs s (read_at offset id) h o i = read_at-Serves p config base rs s offset id i
  single-Serves base rs s (sync id) h o i = sync-Serves p config base rs s id i
  single-Serves base rs s poison h o i = elim h [ ]
  single-Serves base rs s (fail_next_append kind) h o i = record {
    value = tt;
    state = (record (s.0) { fail_next_kind = some kind }, s.1);
    base = base;
    rs = rs;
    runs = refl;
    serving = record { holds = i.holds; mark = i.mark; same_config = i.same_config };
    answers = sym (append-nil (answered s));
    forward = omega arith;
  }

  other-Serves :
      (base : ℕ) (rs : List Record) (s : State) (o : Option Command)
      → All IsSoundCommand (as_list o)
      → IsOther o
      → IsServing p config base rs s
      → Serves p config s (pending (as_list o)) (handle_other p o s)
  other-Serves base rs s none h o i = record {
    value = tt;
    state = s;
    base = base;
    rs = rs;
    runs = refl;
    serving = i;
    answers = sym (append-nil (answered s));
    forward = omega arith;
  }
  other-Serves base rs s (some c) h o i =
      subst (λ js. Serves p config s js (handle_single_command p c s))
        (sym (append-nil (channels c))) (single-Serves base rs s c h.0 o i)

  -- A round for the command `c`: it answers some commands and leaves the rest in the mailbox.
  pub record IsRound (c : Command) (inbox : List Command) (s : State)
      (out : Result (List Command) × State) : Type 0 where
    pub answers_to : List ℕ
    pub serves : Serves p config s answers_to out
    pub split : channels c ++ pending inbox ≡ answers_to ++ pending serves.value
    pub sound : All IsSoundCommand serves.value
    pub shrinks : length serves.value ≤ length inbox

  All-split :
      (cs ds : List Command)
      → All IsSoundCommand (cs ++ ds)
      → All IsSoundCommand cs × All IsSoundCommand ds
  All-split [] ds h = (tt, h)
  All-split (c ∷ cs) ds h = let (a, b) = All-split cs ds h.1 in ((h.0, a), b)

  round_append :
      (base : ℕ) (rs : List Record) (s : State) (r : Record) (id : ℕ) (inbox : List Command)
      → All IsSoundCommand (append r id ∷ inbox)
      → IsServing p config base rs s
      → IsRound (append r id) inbox s (
          process_with_batching p config.batch_max_records config.batch_max_bytes
            (append r id)
            inbox
            s)
  unfolding process_with_batching
  round_append base rs s r id inbox h i =
      let d : Drained =
        drain config.batch_max_records config.batch_max_bytes ((r, id) ∷ []) (wire_size r) inbox in
      let (whole, size, other) =
        drain_lem config.batch_max_records config.batch_max_bytes ((r, id) ∷ []) (wire_size r) inbox
          (omega (arith, roomy.some_records)) in
      let h' : All IsSoundCommand (seen d) = rw whole h in
      let (hb, ho) = All-split (as_commands d.batch) (as_list d.other ++ d.rest) h' in
      let (ho', hr) = All-split (as_list d.other) d.rest ho in
      let b = as_commands-IsBatch d.batch hb in
      let sized : length b.es ≤ config.batch_max_records =
        omega (arith, size, ap length b.same, length-requests b.es) in
      let o1 =
        subst (λ bs. Serves p config s (ids b.es) (flush_append_batch p bs s)) b.same
          (flush_append_batch-Serves p config most roomy base rs s b.es sized b.sound i) in
      let o2 = other-Serves o1.base o1.rs o1.state d.other ho' other o1.serving in
      let batched : pending (as_commands d.batch) ≡ ids b.es =
        ap (λ bs. pending (as_commands bs)) (sym b.same) ∙ pending-requests b.es in
      record {
        answers_to = ids b.es ++ pending (as_list d.other);
        serves = record {
          value = d.rest;
          state = o2.state;
          base = o2.base;
          rs = o2.rs;
          runs = rw (o1.runs, o2.runs);
          serving = o2.serving;
          answers =
              o2.answers
              ∙ ap (λ js. js ++ pending (as_list d.other)) o1.answers
              ∙ append_assoc (answered s) (ids b.es) (pending (as_list d.other));
          forward = omega (arith, o1.forward, o2.forward);
        };
        split =
            ap pending (sym whole)
            ∙ pending-append (as_commands d.batch) (as_list d.other ++ d.rest)
            ∙ ap (λ js. js ++ pending (as_list d.other ++ d.rest)) batched
            ∙ ap (λ js. ids b.es ++ js) (pending-append (as_list d.other) d.rest)
            ∙ sym (append_assoc (ids b.es) (pending (as_list d.other)) (pending d.rest));
        sound = hr;
        shrinks = omega (
          arith,
          ap length whole,
          length-append (as_commands d.batch) (as_list d.other ++ d.rest),
          length-append (as_list d.other) d.rest,
          length-as_commands d.batch,
          drain_grows config.batch_max_records config.batch_max_bytes ((r, id) ∷ []) (wire_size r)
              inbox,
        );
      }

  round_single :
      (base : ℕ) (rs : List Record) (s : State) (c : Command) (inbox : List Command)
      → All IsSoundCommand (c ∷ inbox)
      → IsOther (some c)
      → IsServing p config base rs s
      → process_with_batching p config.batch_max_records config.batch_max_bytes c inbox s
        ≡ (handle_single_command p c >>= λ u. pure inbox) s
      → IsRound c inbox s
          (process_with_batching p config.batch_max_records config.batch_max_bytes c inbox s)
  round_single base rs s c inbox h other i e =
      let o = single-Serves base rs s c h.0 other i in
      record {
        answers_to = channels c;
        serves = record {
          value = inbox;
          state = o.state;
          base = o.base;
          rs = o.rs;
          runs = e ∙ rw o.runs;
          serving = o.serving;
          answers = o.answers;
          forward = o.forward;
        };
        split = refl;
        sound = h.1;
        shrinks = omega arith;
      }

  pub round :
      (base : ℕ) (rs : List Record) (s : State) (c : Command) (inbox : List Command)
      → All IsSoundCommand (c ∷ inbox)
      → IsServing p config base rs s
      → IsRound c inbox s
          (process_with_batching p config.batch_max_records config.batch_max_bytes c inbox s)
  unfolding process_with_batching
  round base rs s (append r id) inbox h i = round_append base rs s r id inbox h i
  round base rs s (append_batch records id) inbox h i =
      round_single base rs s (append_batch records id) inbox h tt i refl
  round base rs s (read_at offset id) inbox h i =
      round_single base rs s (read_at offset id) inbox h tt i refl
  round base rs s (sync id) inbox h i = round_single base rs s (sync id) inbox h tt i refl
  round base rs s poison inbox h i = elim (h.0) [ ]
  round base rs s (fail_next_append kind) inbox h i =
      round_single base rs s (fail_next_append kind) inbox h tt i refl
