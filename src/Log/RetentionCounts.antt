-- ===== src/Log/RetentionCounts.antt =====
-- Retention in log.rs, whatever the disk answers: the next offset and the configuration stay.
use kafko.Base.{
  ◌≡◌, sym, ℕ, zero, suc, ◌+◌, List, [], ◌∷◌, Option, none, some, true, false, ltb, ◌&&◌,
  if◌then◌else◌, Bool-cases, inl, inr,
}
use mathlib.Core.Path.{subst}
use kafko.Error.{ok}
use kafko.Exec.{◌>>=◌, ◌>>◌, pure, modify}
use kafko.Disk.{Disk, call, remove_log}
use kafko.Log.{Log, IndexedSegment, on_disk, segment_count, total_size}
use kafko.Log.Retention.{
  is_expired, delete_head, delete_oldest_segment, remove_index_if_there, age_loop, bytes_loop,
  by_age, by_bytes, apply_retention, oldest_base,
}
use kafko.Log.Steps.{
  Same, Leads, Keeps, bind-Steps, disk-Steps, on_disk-Keeps, either-Keeps, pure-Keeps,
}

module _ (l0 : Log) where
  put_rest-Keeps :
      (rest : List IndexedSegment)
      → Keeps l0 (modify (λ s. (record (s.0) { segments = rest }, s.1)))
  put_rest-Keeps rest = record { leads = λ l d same. same }

  delete_head-Keeps : (ss : List IndexedSegment) → Keeps l0 (delete_head ss)
  unfolding delete_head
  delete_head-Keeps [] = record { leads = λ l d same. same }
  delete_head-Keeps (oldest ∷ rest) =
      bind-Steps l0 (modify (λ s. (record (s.0) { segments = rest }, s.1))) _ _
        (put_rest-Keeps rest)
        (λ u.
          disk-Steps l0 (remove_log oldest.segment.base_offset) _ _
            (λ v. on_disk-Keeps l0 (remove_index_if_there oldest.segment.base_offset)))

  delete_oldest_segment-Keeps : Keeps l0 delete_oldest_segment
  unfolding delete_oldest_segment
  delete_oldest_segment-Keeps = record {
    leads = λ l d same. (delete_head-Keeps l.segments).leads l d same;
  }

  pub age_round :
      (mtime : ℕ → ℕ) (now max_age fuel deleted : ℕ) (l : Log) (d : Disk)
      → ltb 1 (segment_count l) ≡ true
      → age_loop mtime now max_age (suc fuel) deleted (l, d)
        ≡ (do
          modified ← on_disk (call (λ d'. (ok (mtime (oldest_base l.segments)), d')))
          if is_expired modified now max_age
              then (do delete_oldest_segment; age_loop mtime now max_age fuel (deleted + 1))
              else pure deleted)
            (l, d)
  unfolding age_loop
  age_round mtime now max_age fuel deleted l d h = rw (age_loop, h)

  pub age_end :
      (mtime : ℕ → ℕ) (now max_age fuel deleted : ℕ) (l : Log) (d : Disk)
      → ltb 1 (segment_count l) ≡ false
      → age_loop mtime now max_age (suc fuel) deleted (l, d) ≡ (ok deleted, (l, d))
  unfolding age_loop
  age_end mtime now max_age fuel deleted l d h = rw (age_loop, h)

  pub bytes_round :
      (max_bytes fuel deleted : ℕ) (l : Log) (d : Disk)
      → (ltb 1 (segment_count l) && ltb max_bytes (total_size l)) ≡ true
      → bytes_loop max_bytes (suc fuel) deleted (l, d)
        ≡ (do delete_oldest_segment; bytes_loop max_bytes fuel (deleted + 1)) (l, d)
  unfolding bytes_loop
  bytes_round max_bytes fuel deleted l d h = rw (bytes_loop, h)

  pub bytes_end :
      (max_bytes fuel deleted : ℕ) (l : Log) (d : Disk)
      → (ltb 1 (segment_count l) && ltb max_bytes (total_size l)) ≡ false
      → bytes_loop max_bytes (suc fuel) deleted (l, d) ≡ (ok deleted, (l, d))
  unfolding bytes_loop
  bytes_end max_bytes fuel deleted l d h = rw (bytes_loop, h)

  age_loop-Keeps :
      (mtime : ℕ → ℕ) (now max_age fuel deleted : ℕ)
      → Keeps l0 (age_loop mtime now max_age fuel deleted)
  unfolding age_loop
  age_loop-Keeps mtime now max_age zero deleted = record { leads = λ l d same. same }
  age_loop-Keeps mtime now max_age (suc fuel) deleted = record {
    leads = λ l d same. elim (Bool-cases (ltb 1 (segment_count l))) [
      | inl y ↦
          let body =
            disk-Steps l0 (call (λ d'. (ok (mtime (oldest_base l.segments)), d'))) _ _ (λ modified.
              either-Keeps l0 (is_expired modified now max_age)
                (do delete_oldest_segment; age_loop mtime now max_age fuel (deleted + 1))
                (pure deleted)
                (bind-Steps l0 delete_oldest_segment _ _ delete_oldest_segment-Keeps
                  (λ u. age_loop-Keeps mtime now max_age fuel (deleted + 1)))
                (pure-Keeps l0 deleted)) in
          subst (Leads l0 (λ a l'. Same l0 l'))
            (sym (age_round mtime now max_age fuel deleted l d y)) (body.leads l d same)
      | inr y ↦
          subst (Leads l0 (λ a l'. Same l0 l')) (sym (age_end mtime now max_age fuel deleted l d y))
            same
    ];
  }

  bytes_loop-Keeps : (max_bytes fuel deleted : ℕ) → Keeps l0 (bytes_loop max_bytes fuel deleted)
  unfolding bytes_loop
  bytes_loop-Keeps max_bytes zero deleted = record { leads = λ l d same. same }
  bytes_loop-Keeps max_bytes (suc fuel) deleted = record {
    leads = λ l d same.
        elim (Bool-cases (ltb 1 (segment_count l) && ltb max_bytes (total_size l))) [
          | inl y ↦
              let body =
                bind-Steps l0 delete_oldest_segment _ _ delete_oldest_segment-Keeps
                  (λ u. bytes_loop-Keeps max_bytes fuel (deleted + 1)) in
              subst (Leads l0 (λ a l'. Same l0 l')) (sym (bytes_round max_bytes fuel deleted l d y))
                (body.leads l d same)
          | inr y ↦
              subst (Leads l0 (λ a l'. Same l0 l')) (sym (bytes_end max_bytes fuel deleted l d y))
                same
        ];
  }

  by_age-Keeps :
      (mtime : ℕ → ℕ) (now : ℕ) (max_age : Option ℕ) → Keeps l0 (by_age mtime now max_age)
  by_age-Keeps mtime now none = record { leads = λ l d same. same }
  by_age-Keeps mtime now (some max_age) = record {
    leads = λ l d same. (age_loop-Keeps mtime now max_age (suc (segment_count l)) 0).leads l d same;
  }

  by_bytes-Keeps : (max_bytes : Option ℕ) (deleted : ℕ) → Keeps l0 (by_bytes max_bytes deleted)
  by_bytes-Keeps none deleted = record { leads = λ l d same. same }
  by_bytes-Keeps (some max_bytes) deleted = record {
    leads = λ l d same. (bytes_loop-Keeps max_bytes (suc (segment_count l)) deleted).leads l d same;
  }

  pub apply_retention-Keeps : (mtime : ℕ → ℕ) (now : ℕ) → Keeps l0 (apply_retention mtime now)
  unfolding apply_retention
  apply_retention-Keeps mtime now = record {
    leads = λ l d same.
        (bind-Steps l0 (by_age mtime now l.config.max_segment_age) _ _
            (by_age-Keeps mtime now l.config.max_segment_age)
            (λ deleted. by_bytes-Keeps l.config.max_partition_bytes deleted)).leads
          l d same;
  }
