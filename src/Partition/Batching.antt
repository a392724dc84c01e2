-- ===== src/Partition/Batching.antt =====
-- The draining of the mailbox of partition.rs into one batch.
use kafko.Base.{
  ℕ, ◌+◌, ◌≤◌, ◌≡◌, inl, inr, refl, ap, ◌∙◌, List, [], ◌∷◌, ◌++◌, Option, none, some, length, arith,
  append_assoc, length-append, Bool, true, false, ltb, ◌&&◌, if◌then◌else◌, ltb→lt, Bool-cases,
}
use kafko.Record.{Record, wire_size}
use kafko.Partition.{
  Command, append, append_batch, read_at, sync, poison, fail_next_append, Drained, drain,
}

abbrev pub as_commands : List (Record × ℕ) → List Command
as_commands [] = []
as_commands ((r, id) ∷ batch) = append r id ∷ as_commands batch

abbrev pub as_list : Option Command → List Command
as_list none = []
as_list (some c) = c ∷ []

-- Everything that the loop saw, in order.
abbrev pub seen : Drained → List Command
seen d = as_commands d.batch ++ (as_list d.other ++ d.rest)

-- The command that ended a batch is not an append.
abbrev pub IsOther : Option Command → Type 0
IsOther (some (append r id)) = ⊥
IsOther o = Unit {0}

as_commands-append :
    (b c : List (Record × ℕ)) → as_commands (b ++ c) ≡ as_commands b ++ as_commands c
as_commands-append [] c = refl
as_commands-append ((r, id) ∷ b) c = rw (as_commands-append b c)

ended_by :
    (b : Bool) (batch : List (Record × ℕ)) (c : Command) (inbox : List Command) (n : ℕ)
    → length batch ≤ n
    → IsOther (some c)
    → let d : Drained =
        if b
        then record { batch = batch; other = some c; rest = inbox }
        else record { batch = batch; other = none; rest = c ∷ inbox } in
      (seen d ≡ as_commands batch ++ (c ∷ inbox)) × (length d.batch ≤ n) × IsOther d.other
ended_by true batch c inbox n h o = (refl, h, o)
ended_by false batch c inbox n h o = (refl, h, tt)

-- The loop neither loses nor reorders a command: the batch, the command that ended it and the rest
-- of the mailbox are what there was. The batch stays within `max_records`, if it starts so, and the
-- command that ended it is no append.
pub drain_lem :
    (max_records max_bytes : ℕ) (batch : List (Record × ℕ)) (batch_bytes : ℕ) (inbox : List Command)
    → length batch ≤ max_records
    → let d : Drained = drain max_records max_bytes batch batch_bytes inbox in
      (seen d ≡ as_commands batch ++ inbox) × (length d.batch ≤ max_records) × IsOther d.other
unfolding drain
drain_lem max_records max_bytes batch batch_bytes [] h = (refl, h, tt)
drain_lem max_records max_bytes batch batch_bytes (append r id ∷ inbox) h =
    elim (Bool-cases (ltb (length batch) max_records && ltb batch_bytes max_bytes)) [
      | inl e ↦
          let (s, b, o) =
            drain_lem max_records max_bytes (batch ++ ((r, id) ∷ [])) (batch_bytes + wire_size r)
              inbox
              (omega (
                arith,
                length-append batch ((r, id) ∷ []),
                ltb→lt (length batch) max_records
                    (left (ltb (length batch) max_records) (ltb batch_bytes max_bytes) e),
              )) in
          rw e (
            s
                ∙ ap (λ cs. cs ++ inbox) (as_commands-append batch ((r, id) ∷ []))
                ∙ append_assoc (as_commands batch) (append r id ∷ []) inbox,
            b,
            o,
          )
      | inr e ↦ rw e (refl, h, tt)
    ]
  where
    left : (a b : Bool) → (a && b) ≡ true → a ≡ true
    left a b e = ground arith
drain_lem max_records max_bytes batch batch_bytes (append_batch rs id ∷ inbox) h =
    ended_by _ batch (append_batch rs id) inbox max_records h tt
drain_lem max_records max_bytes batch batch_bytes (read_at offset id ∷ inbox) h =
    ended_by _ batch (read_at offset id) inbox max_records h tt
drain_lem max_records max_bytes batch batch_bytes (sync id ∷ inbox) h =
    ended_by _ batch (sync id) inbox max_records h tt
drain_lem max_records max_bytes batch batch_bytes (poison ∷ inbox) h =
    ended_by _ batch (poison) inbox max_records h tt
drain_lem max_records max_bytes batch batch_bytes (fail_next_append kind ∷ inbox) h =
    ended_by _ batch (fail_next_append kind) inbox max_records h tt

kept :
    (b : Bool) (batch : List (Record × ℕ)) (c : Command) (inbox : List Command)
    → let d : Drained =
        if b
        then record { batch = batch; other = some c; rest = inbox }
        else record { batch = batch; other = none; rest = c ∷ inbox } in
      length batch ≤ length d.batch
kept true batch c inbox = omega arith
kept false batch c inbox = omega arith

-- The loop takes nothing out of the batch.
pub drain_grows :
    (max_records max_bytes : ℕ) (batch : List (Record × ℕ)) (batch_bytes : ℕ) (inbox : List Command)
    → length batch ≤ length (drain max_records max_bytes batch batch_bytes inbox).batch
unfolding drain
drain_grows max_records max_bytes batch batch_bytes [] = omega arith
drain_grows max_records max_bytes batch batch_bytes (append r id ∷ inbox) =
    elim (Bool-cases (ltb (length batch) max_records && ltb batch_bytes max_bytes)) [
      | inl e ↦ rw e (
          omega (
            arith,
            drain_grows max_records max_bytes (batch ++ ((r, id) ∷ [])) (batch_bytes + wire_size r)
                inbox,
            length-append batch ((r, id) ∷ []),
          ))
      | inr e ↦ rw e (omega arith)
    ]
drain_grows max_records max_bytes batch batch_bytes (append_batch rs id ∷ inbox) =
    kept (ltb (length batch) max_records && ltb batch_bytes max_bytes) batch _ _
drain_grows max_records max_bytes batch batch_bytes (read_at offset id ∷ inbox) =
    kept (ltb (length batch) max_records && ltb batch_bytes max_bytes) batch _ _
drain_grows max_records max_bytes batch batch_bytes (sync id ∷ inbox) =
    kept (ltb (length batch) max_records && ltb batch_bytes max_bytes) batch _ _
drain_grows max_records max_bytes batch batch_bytes (poison ∷ inbox) =
    kept (ltb (length batch) max_records && ltb batch_bytes max_bytes) batch _ _
drain_grows max_records max_bytes batch batch_bytes (fail_next_append kind ∷ inbox) =
    kept (ltb (length batch) max_records && ltb batch_bytes max_bytes) batch _ _

-- Whatever the limits: no command is lost or moved.
pub drain_whole :
    (max_records max_bytes : ℕ) (batch : List (Record × ℕ)) (batch_bytes : ℕ) (inbox : List Command)
    → seen (drain max_records max_bytes batch batch_bytes inbox) ≡ as_commands batch ++ inbox
unfolding drain
drain_whole max_records max_bytes batch batch_bytes [] = refl
drain_whole max_records max_bytes batch batch_bytes (append r id ∷ inbox) =
    elim (Bool-cases (ltb (length batch) max_records && ltb batch_bytes max_bytes)) [
      | inl e ↦ rw e (
          drain_whole max_records max_bytes (batch ++ ((r, id) ∷ [])) (batch_bytes + wire_size r)
            inbox
          ∙ ap (λ cs. cs ++ inbox) (as_commands-append batch ((r, id) ∷ []))
          ∙ append_assoc (as_commands batch) (append r id ∷ []) inbox)
      | inr e ↦ rw e
    ]
drain_whole max_records max_bytes batch batch_bytes (append_batch rs id ∷ inbox) =
    (ended_by _ batch (append_batch rs id) inbox (length batch) (omega arith) tt).0
drain_whole max_records max_bytes batch batch_bytes (read_at offset id ∷ inbox) =
    (ended_by _ batch (read_at offset id) inbox (length batch) (omega arith) tt).0
drain_whole max_records max_bytes batch batch_bytes (sync id ∷ inbox) =
    (ended_by _ batch (sync id) inbox (length batch) (omega arith) tt).0
drain_whole max_records max_bytes batch batch_bytes (poison ∷ inbox) =
    (ended_by _ batch poison inbox (length batch) (omega arith) tt).0
drain_whole max_records max_bytes batch batch_bytes (fail_next_append kind ∷ inbox) =
    (ended_by _ batch (fail_next_append kind) inbox (length batch) (omega arith) tt).0
