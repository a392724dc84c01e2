-- ===== src/Examples/Sends.antt =====
-- Runs of the theorems on batches of producer.rs and on the turns of consumer.rs, over partitions that
-- are logs.
use kafko.Base.{
  be32, be64, ◌≤◌, ℕ, zero, suc, ◌+◌, ◌<◌, ◌≡◌, ◌⊎◌, inl, inr, refl, ap, Bytes, List, [], ◌∷◌, none,
  some, length, get_elem?, ◌==◌, if◌then◌else◌, Bool-cases, All, true, arith,
}
use kafko.Error.{ok}
use kafko.Disk.{Disk}
use kafko.Compression.{compress, is_available}
use kafko.Record.{Record, new}
use kafko.Record.Encode.{frame, payload}
use kafko.Log.{Log}
use kafko.Log.Content.{content, Represents}
use kafko.Log.Create.{fresh_log, fresh_disk, create-Represents}
use kafko.Log.Append.{append-Represents}
use kafko.Log.Batch.{IsEncoded, batch_records, stored_batch}
use kafko.Partition.Serving.{length-stored_batch}
use kafko.Topic.{Topic, RecordPosition}
use kafko.Producer.{append_batch_routed}
use kafko.Producer.Buckets.{routes}
use kafko.Producer.Positions.{sent_to}
use kafko.Producer.Delivered.{Delivered, append_batch_routed-Delivered}
use kafko.Producer.OneByOne.{send_each, append_batch_routed-send_each}
use kafko.Producer.Logs.{
  Logs, append_to_log, append_batch_to_log, read_log, held, AllHolding, IsStorable, Holds,
  append_batch_to_log-Appends, append_to_log-AppendsOne, read_log-Reads,
}
use kafko.Consumer.{Consumer, try_take_next}
use kafko.Consumer.Scan.{Taken, CaughtUp, try_take_next_lem}
use kafko.Consumer.Delivery.{Delivers, take_turns, take_turns-Delivers}
use kafko.Bench.{Report}
use kafko.Bench.Tasks.{run_turns, jobs_for, joined}
use kafko.Bench.Stored.{stored, turns_of}
use kafko.Bench.Total.{joined-run_turns}
use kafko.Examples.{plain, plain-IsLawful, hello, world, small_config}

-- Three partitions, each known by its number, and a counter about to wrap.
abbrev three : Topic ℕ
three = record {
  name = 116 ∷ [];
  partitions = 0 ∷ (1 ∷ (2 ∷ []));
  config = small_config;
  round_robin = 18446744073709551615;
}

own_number : (i q : ℕ) → get_elem? three.partitions i ≡ some q → i ≡ q
own_number zero q h = cc
own_number (suc zero) q h = cc
own_number (suc (suc zero)) q h = cc
own_number (suc (suc (suc i))) q h = absurd cc

-- Logs that have just been created.
abbrev fresh_logs : Logs
fresh_logs q = (fresh_log small_config, fresh_disk)

fresh_logs-AllHolding : AllHolding plain small_config fresh_logs
fresh_logs-AllHolding q = ([], (create-Represents plain small_config).1, refl)

available : is_available plain small_config.compression ≡ true
unfolding is_available
available = refl

-- Records whose frames take at most 64 bytes.
abbrev IsSmall : Record → Type 0
IsSmall r =
    IsEncoded plain small_config.compression (r, r.value)
    × (length (content (stored_batch plain small_config.compression ((r, r.value) ∷ []))) ≤ 64)

abbrev with_values : List Record → List (Record × Bytes)
with_values [] = []
with_values (r ∷ rs) = (r, r.value) ∷ with_values rs

batch_records-with_values : (rs : List Record) → batch_records (with_values rs) ≡ rs
batch_records-with_values [] = refl
batch_records-with_values (r ∷ rs) = ap (λ us. r ∷ us) (batch_records-with_values rs)

length-with_values : (rs : List Record) → length (with_values rs) ≡ length rs
length-with_values [] = refl
length-with_values (r ∷ rs) = ap suc (length-with_values rs)

all-IsEncoded :
    (rs : List Record)
    → All IsSmall rs
    → All (IsEncoded plain small_config.compression) (with_values rs)
all-IsEncoded [] h = tt
all-IsEncoded (r ∷ rs) h = ((h.0).0, all-IsEncoded rs h.1)

all_sized :
    (rs : List Record)
    → All IsSmall rs
    → All
        (λ b. length (content (stored_batch plain small_config.compression (b ∷ []))) ≤ 64)
        (with_values rs)
all_sized [] h = tt
all_sized (r ∷ rs) h = ((h.0).1, all_sized rs h.1)

storable : (rs : List Record) → All IsSmall rs → length rs ≤ 100 → IsStorable plain small_config rs
storable rs h n = (
  with_values rs,
  batch_records-with_values rs,
  all-IsEncoded rs h,
  omega (
    arith,
    n,
    length-with_values rs,
    length-stored_batch plain small_config.compression 64 (with_values rs) (all_sized rs h),
  ),
)

sent_to-All :
    (p : ℕ) (qs : List ℕ) (rs : List Record) → All IsSmall rs → All IsSmall (sent_to p qs rs)
sent_to-All p [] rs h = tt
sent_to-All p (q ∷ qs) [] h = tt
sent_to-All p (q ∷ qs) (r ∷ rs) h = elim (Bool-cases (q == p)) [
  | inl y ↦ rw y (h.0, sent_to-All p qs rs h.1)
  | inr y ↦ rw y (sent_to-All p qs rs h.1)
]

length-sent_to : (p : ℕ) (qs : List ℕ) (rs : List Record) → length (sent_to p qs rs) ≤ length rs
length-sent_to p [] rs = omega arith
length-sent_to p (q ∷ qs) [] = omega arith
length-sent_to p (q ∷ qs) (r ∷ rs) = elim (Bool-cases (q == p)) [
  | inl y ↦ rw y (omega (arith, length-sent_to p qs rs))
  | inr y ↦ rw y (omega (arith, length-sent_to p qs rs))
]

all-IsStorable :
    (rs : List Record) → All IsSmall rs → All (λ r. IsStorable plain small_config (r ∷ [])) rs
all-IsStorable [] h = tt
all-IsStorable (r ∷ rs) h = (storable (r ∷ []) (h.0, tt) (omega arith), all-IsStorable rs h.1)

-- Two records without a key and one with.
abbrev keyed : Record
keyed = record { timestamp_ms = 7; key = some (9 ∷ []); value = 1 ∷ [] }

abbrev batch : List Record
batch = hello ∷ (keyed ∷ (world ∷ []))

batch-IsSmall : All IsSmall batch
unfolding is_available compress frame payload be32 be64
batch-IsSmall = (
  (
    record {
      within = omega arith;
      coded = refl;
      fits = record { stamp = omega arith; room = omega arith };
    },
    omega arith,
  ),
  (
    (
      record {
        within = omega arith;
        coded = refl;
        fits = record { stamp = omega arith; room = omega arith };
      },
      omega arith,
    ),
    (
      (
        record {
          within = omega arith;
          coded = refl;
          fits = record { stamp = omega arith; room = omega arith };
        },
        omega arith,
      ),
      tt,
    ),
  ),
)

sent-IsStorable :
    (p : ℕ)
    → p < 3
    → IsStorable plain small_config (sent_to p (routes 3 three.round_robin batch) batch)
sent-IsStorable p h =
    let qs : List ℕ = routes 3 three.round_robin batch in
    storable (sent_to p qs batch) (sent_to-All p qs batch batch-IsSmall)
      (omega (arith, length-sent_to p qs batch))

append_batch_routed-Delivered_example :
    Delivered (AllHolding plain small_config) (held plain) three batch fresh_logs (
      append_batch_routed
        (append_to_log plain)
        (append_batch_to_log plain)
        batch
        (three, fresh_logs))
append_batch_routed-Delivered_example =
    append_batch_routed-Delivered (append_to_log plain) (append_batch_to_log plain)
      (AllHolding plain small_config) (IsStorable plain small_config) (held plain) three batch
      fresh_logs (omega arith, omega arith) (omega arith)
      (append_batch_to_log-Appends plain small_config plain-IsLawful available three.partitions
        own_number)
      fresh_logs-AllHolding sent-IsStorable

append_batch_routed-send_each_example :
    (positions : List RecordPosition) × (t' : Topic ℕ) × (d1 : Logs) × (d2 : Logs)
    × (append_batch_routed
          (append_to_log plain)
          (append_batch_to_log plain)
          batch
          (three, fresh_logs)
        ≡ (ok positions, (t', d1)))
    × (send_each
          (append_to_log plain)
          (append_batch_to_log plain)
          (AllHolding plain small_config)
          (IsStorable plain small_config)
          (held plain)
          batch
          (three, fresh_logs)
        ≡ (ok positions, (t', d2)))
    × ((p : ℕ) → p < 3 → held plain d1 p ≡ held plain d2 p)
append_batch_routed-send_each_example =
    append_batch_routed-send_each (append_to_log plain) (append_batch_to_log plain)
      (AllHolding plain small_config) (IsStorable plain small_config) (held plain) three batch
      fresh_logs (omega arith, omega arith) (omega arith)
      (append_batch_to_log-Appends plain small_config plain-IsLawful available three.partitions
        own_number)
      (append_to_log-AppendsOne plain small_config plain-IsLawful available three.partitions
        (omega arith) own_number)
      fresh_logs-AllHolding sent-IsStorable (all-IsStorable batch batch-IsSmall)

-- What the first partition holds: two records, appended to its log.
abbrev shelf : ℕ → List Record
shelf p = if p == 0 then hello ∷ (world ∷ []) else []

two_stored : (s : Log × Disk) × Represents plain s.0 s.1 0 (hello ∷ (world ∷ []))
unfolding is_available compress
two_stored =
    let (s, e, rep, c) =
      append-Represents plain (fresh_log small_config) fresh_disk 0 [] hello (104 ∷ 105 ∷ [])
        plain-IsLawful (create-Represents plain small_config).1 (omega arith) refl (omega arith)
        refl (record { stamp = omega arith; room = omega arith }) in
    let (s', e', rep', c') =
      append-Represents plain s.0 s.1 0 (hello ∷ []) world (119 ∷ []) plain-IsLawful rep
        (rw c (omega arith)) (rw c refl) (omega arith) (rw c refl)
        (record { stamp = omega arith; room = omega arith }) in
    (s', rep')

abbrev shelf_logs : Logs
shelf_logs p = if p == 0 then two_stored.0 else (fresh_log small_config, fresh_disk)

shelf_logs-Holds : Holds plain shelf shelf_logs
shelf_logs-Holds p = elim (Bool-cases (p == 0)) [
  | inl y ↦ rw y two_stored.1
  | inr y ↦ rw y ((create-Represents plain small_config).1)
]

abbrev reader : Consumer
reader = record { cursors = 1 ∷ (0 ∷ (0 ∷ [])); scan_start = 1; store = none }

take_turns-Delivers_example :
    Delivers shelf
      (Holds plain shelf)
      reader
      (take_turns (read_log plain) shelf 3 (reader, shelf_logs))
take_turns-Delivers_example =
    take_turns-Delivers (read_log plain) shelf (Holds plain shelf) (read_log-Reads plain shelf) 3
      reader shelf_logs shelf_logs-Holds (omega arith) (omega arith)

try_take_next_lem_example :
    Taken shelf (Holds plain shelf) reader 3 0 (try_take_next (read_log plain) (reader, shelf_logs))
    ⊎ CaughtUp shelf
        (Holds plain shelf)
        reader
        3
        0
        3
        (try_take_next (read_log plain) (reader, shelf_logs))
try_take_next_lem_example =
    try_take_next_lem (read_log plain) shelf (Holds plain shelf) reader (read_log-Reads plain shelf)
      (omega arith) shelf_logs shelf_logs-Holds

-- Sixteen tasks with a send each, which take their turns in rounds.
abbrev one_round : List (ℕ × ℕ) → List (ℕ × ℕ)
one_round rest =
    (0, 7)
    ∷ ((1, 7)
        ∷ ((2, 7)
            ∷ ((3, 7)
                ∷ ((4, 7)
                    ∷ ((5, 7)
                        ∷ ((6, 7)
                            ∷ ((7, 7)
                                ∷ ((8, 7)
                                    ∷ ((9, 7)
                                        ∷ ((10, 7)
                                            ∷ ((11, 7)
                                                ∷ ((12, 7)
                                                    ∷ ((13, 7)
                                                        ∷ ((14, 7) ∷ ((15, 7) ∷ rest)))))))))))))))

abbrev three_rounds : List (ℕ × ℕ)
three_rounds = one_round (one_round (one_round []))

enough_turns : (i : ℕ) → i < 16 → 3 ≤ turns_of i three_rounds
enough_turns zero h = omega arith
enough_turns (suc zero) h = omega arith
enough_turns (suc (suc zero)) h = omega arith
enough_turns (suc (suc (suc zero))) h = omega arith
enough_turns (suc (suc (suc (suc zero)))) h = omega arith
enough_turns (suc (suc (suc (suc (suc zero))))) h = omega arith
enough_turns (suc (suc (suc (suc (suc (suc zero)))))) h = omega arith
enough_turns (suc (suc (suc (suc (suc (suc (suc zero))))))) h = omega arith
enough_turns (suc (suc (suc (suc (suc (suc (suc (suc zero)))))))) h = omega arith
enough_turns (suc (suc (suc (suc (suc (suc (suc (suc (suc zero))))))))) h = omega arith
enough_turns (suc (suc (suc (suc (suc (suc (suc (suc (suc (suc zero)))))))))) h = omega arith
enough_turns (suc (suc (suc (suc (suc (suc (suc (suc (suc (suc (suc zero))))))))))) h = omega arith
enough_turns (suc (suc (suc (suc (suc (suc (suc (suc (suc (suc (suc (suc zero)))))))))))) h =
    omega arith
enough_turns (suc (suc (suc (suc (suc (suc (suc (suc (suc (suc (suc (suc (suc zero))))))))))))) h =
    omega arith
enough_turns
      (suc (suc (suc (suc (suc (suc (suc (suc (suc (suc (suc (suc (suc (suc zero)))))))))))))) h =
    omega arith
enough_turns
      (suc (suc (suc (suc (suc (suc (suc (suc (suc (suc (suc (suc (suc (suc (suc zero)))))))))))))))
      h =
    omega arith
enough_turns
      (suc
        (suc (suc (suc (suc (suc (suc (suc (suc (suc (suc (suc (suc (suc (suc (suc i))))))))))))))))
      h =
    absurd (omega arith)

zero-IsSmall : IsSmall (new 7 none (0 ∷ []))
unfolding is_available compress frame payload be32 be64 new
zero-IsSmall = (
  record {
    within = omega arith;
    coded = refl;
    fits = record { stamp = omega arith; room = omega arith };
  },
  omega arith,
)

at_seven :
    (turns : List (ℕ × ℕ))
    → All (λ (turn : ℕ × ℕ). turn.1 ≡ 7) turns
    → All (λ (turn : ℕ × ℕ). IsStorable plain small_config (new turn.1 none (0 ∷ []) ∷ [])) turns
at_seven [] h = tt
at_seven (turn ∷ turns) h = (
  rw (h.0) (storable (new 7 none (0 ∷ []) ∷ []) (zero-IsSmall, tt) (omega arith)),
  at_seven turns h.1,
)

one_round-at_seven :
    (rest : List (ℕ × ℕ))
    → All (λ (turn : ℕ × ℕ). turn.1 ≡ 7) rest
    → All (λ (turn : ℕ × ℕ). turn.1 ≡ 7) (one_round rest)
one_round-at_seven rest h = (
  refl,
  (
    refl,
    (
      refl,
      (
        refl,
        (
          refl,
          (refl, (refl, (refl, (refl, (refl, (refl, (refl, (refl, (refl, (refl, (refl, h))))))))))),
        ),
      ),
    ),
  ),
)

joined-run_turns_example :
    (report : Report) × (t' : Topic ℕ) × (d' : Logs) × (joined 16 (
        run_turns
          (append_to_log plain)
          (append_batch_to_log plain)
          (0 ∷ [])
          three_rounds
          (jobs_for 16, (three, fresh_logs)))
      ≡ (ok report, (t', d')))
    × (stored (held plain d') 3 ≡ stored (held plain fresh_logs) 3 + report.total_records)
joined-run_turns_example =
    joined-run_turns (append_to_log plain) (append_batch_to_log plain)
      (AllHolding plain small_config) (IsStorable plain small_config) (held plain) (0 ∷ []) 16
      three_rounds three fresh_logs (omega arith, omega arith) (omega arith)
      (append_to_log-AppendsOne plain small_config plain-IsLawful available three.partitions
        (omega arith) own_number)
      fresh_logs-AllHolding
      (at_seven three_rounds (
        one_round-at_seven (one_round (one_round []))
          (one_round-at_seven (one_round []) (one_round-at_seven [] tt))))
      enough_turns
