-- ===== src/Examples/Topics.antt =====
-- Runs of the theorems on topic.rs, partition.rs and the keyed sends of producer.rs.
use kafko.Base.{ℕ, ◌+◌, ◌%◌, ◌^◌, ◌≤◌, ◌<◌, ◌≡◌, ◌⊎◌, List, [], ◌∷◌, length, arith}
use kafko.Error.{ok, err, invalid_topic_layout, no_partition_dirs, not_contiguous}
use kafko.Exec.{Exec}
use kafko.Record.{wire_size}
use kafko.Log.Open.{sort}
use kafko.Topic.{Topic, next_round_robin, partition_for_key}
use kafko.Topic.Numbers.{layout, numbers_from, fnv1a_64}
use kafko.Topic.Routing.{Chosen, after_sends, partition_for_key_lem, next_round_robin_lem}
use kafko.Topic.Layout.{layout_cases, IsGap}
use kafko.Partition.{Command, append, read_at, Drained, drain}
use kafko.Partition.Batching.{drain_lem, seen, IsOther}
use kafko.Record.{Record}
use kafko.Producer.{send_record}
use kafko.Producer.Keyed.{Sent, send_record-Sent}
use kafko.Examples.{hello, world, small_config}

-- Three partitions, each known by its number, and a counter about to wrap.
abbrev three : Topic ℕ
three = record {
  name = 116 ∷ [];
  partitions = 0 ∷ (1 ∷ (2 ∷ []));
  config = small_config;
  round_robin = 18446744073709551615;
}

partition_for_key_lem_example :
    Chosen three (partition_for_key three (7 ∷ 8 ∷ [])) (fnv1a_64 (7 ∷ 8 ∷ []))
partition_for_key_lem_example = partition_for_key_lem three (7 ∷ 8 ∷ []) (omega arith, omega arith)

next_round_robin_lem_example :
    Chosen three (next_round_robin (after_sends 2 three)).0 ((18446744073709551615 + 2) % 2 ^ 64)
next_round_robin_lem_example = next_round_robin_lem three 2 (omega arith, omega arith) (omega arith)

abbrev gap : List ℕ
gap = 2 ∷ (0 ∷ [])

layout_cases_example :
    ((sort gap ≡ [])
      × (layout (116 ∷ []) gap ≡ err (invalid_topic_layout (116 ∷ []) no_partition_dirs)))
    ⊎ (((0 < length (sort gap))
          × (sort gap ≡ numbers_from 0 (length (sort gap)))
          × (layout (116 ∷ []) gap ≡ ok (sort gap)))
        ⊎ ((expected : ℕ) × (actual : ℕ) × IsGap 0 (sort gap) expected actual
            × (layout (116 ∷ []) gap
                ≡ err (invalid_topic_layout (116 ∷ []) (not_contiguous expected actual)))))
unfolding sort
layout_cases_example = layout_cases (116 ∷ []) gap (omega arith)

abbrev mailbox : List Command
mailbox = append world 2 ∷ (read_at 0 3 ∷ (append hello 4 ∷ []))

abbrev drained : Drained
drained = drain 10 1000 ((hello, 1) ∷ []) (wire_size hello) mailbox

drain_lem_example :
    (seen drained ≡ append hello 1 ∷ mailbox) × (length drained.batch ≤ 10) × IsOther drained.other
drain_lem_example = drain_lem 10 1000 ((hello, 1) ∷ []) (wire_size hello) mailbox (omega arith)

abbrev append_anywhere : ℕ → Record → Exec ℕ ℕ
append_anywhere q r d = (ok d, d + 1)

send_record-Sent_example :
    Sent append_anywhere three hello
      (7 ∷ 8 ∷ [])
      5
      (send_record append_anywhere (λ q rs d. (ok [], d)) hello (three, 5))
send_record-Sent_example =
    send_record-Sent append_anywhere (λ q rs d. (ok [], d)) three 1000 (7 ∷ 8 ∷ []) (104 ∷ 105 ∷ [])
      5 (omega arith, omega arith)
