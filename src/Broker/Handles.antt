-- ===== src/Broker/Handles.antt =====
-- The handles that callers of broker.rs hold, over any sequence of its methods.
use kafko.Base.{
  ℕ, ◌+◌, ◌-◌, ◌<◌, ◌≡◌, refl, sym, ap, ◌∙◌, Bytes, List, [], ◌∷◌, Option, none, some,
  if◌then◌else◌, arith, Bool-cases, inl, inr,
}
use mathlib.Core.Option.{some-injective, none-ne-some}
use kafko.Base.NameDict
use kafko.Base.NameDict.{same_name, same_name_refl, same_name→eq}
use kafko.Error.{Result, ok, err, panicked, out_of_fuel}
use kafko.Log.{LogConfig}
use kafko.Broker.Held.{Held, Held-same, Held-le, Held-insert}
use kafko.Broker.Calls.{
  Created, refused, taken, failed, made, create-Created, Deleted, missing, in_use, gone,
  delete-Deleted,
}
use kafko.Topic.{Topic, partition_count}
use kafko.OffsetStore.{OffsetStore}
use kafko.Broker.{
  System, Shared, Kafko, State, create_topic_inner, or_not_found, delete_topic, get_topic,
  drop_handle, consumer_for, producer_for, consumer_for_group,
}

-- A method call, or a handle that is dropped.
pub data Call : Type 0 where
  create : Bytes → LogConfig → ℕ → Call
  delete topic producer consumer release : Bytes → Call
  group_consumer : Bytes → Bytes → Call

-- How many handles of `name` are dropped.
abbrev pub released_by : Bytes → Call → ℕ
released_by name (release j) = if same_name j name then 1 else 0
released_by name c = 0

abbrev pub releases : Bytes → List Call → ℕ
releases name [] = 0
releases name (c ∷ cs) = released_by name c + releases name cs

module _ {P D : Type 0} (sys : System P D) where
  unfoldable pub after : Call → State {P = P} {D = D} sys → State {P = P} {D = D} sys
  after (create name config n) s = (create_topic_inner sys name config n s).1
  after (delete name) s = (delete_topic sys name s).1
  after (topic name) s = (get_topic sys name s).1
  after (producer name) s = (producer_for sys name s).1
  after (consumer name) s = (consumer_for sys name s).1
  after (group_consumer name group) s = (consumer_for_group sys name group s).1
  after (release name) s = (drop_handle sys name s.0, s.1)

  unfoldable pub run : List Call → State {P = P} {D = D} sys → State {P = P} {D = D} sys
  run [] s = s
  run (c ∷ cs) s = run cs (after c s)

  create-Held :
      (name j : Bytes) (t : Topic P) (n : ℕ) (config : LogConfig) (count : ℕ) (k : Kafko P) (d : D)
      → Held name t n k.topics
      → Held name t n (create_topic_inner sys j config count (k, d)).1.0.topics
  create-Held name j t n config count k d h = by_case (create-Created sys j config count k d)
    where
      topics_of : (s s' : State sys) → s ≡ s' → s.0.topics ≡ s'.0.topics
      topics_of s s' e = ap (λ (u : Kafko P × D). u.0.topics) e

      other :
          NameDict.lookup j k.topics ≡ none
          → (x : Shared P)
          → NameDict.lookup name (NameDict.insert j x k.topics) ≡ NameDict.lookup name k.topics
      other e x = elim (Bool-cases (same_name j name)) [
        | inl s ↦ absurd (
            none-ne-some _
              (sym e ∙ ap (λ i. NameDict.lookup i k.topics) (same_name→eq j name s) ∙ h.found))
        | inr s ↦ NameDict.lookup-insert j name x k.topics ∙ rw s
      ]

      by_case :
          Created sys j config count k d (create_topic_inner sys j config count (k, d))
          → Held name t n (create_topic_inner sys j config count (k, d)).1.0.topics
      by_case (refused z e) = rw e h
      by_case (taken x z l e) = rw e h
      by_case (failed r d' z l m f g e) = rw e h
      by_case (made u d' z l m e) =
          rw e (Held-same name t n k.topics _ (other l (record { topic = u; handles = 0 })) h)

  delete-Held :
      (name j : Bytes) (t : Topic P) (n : ℕ) (k : Kafko P) (d : D)
      → 0 < n
      → Held name t n k.topics
      → Held name t n (delete_topic sys j (k, d)).1.0.topics
  delete-Held name j t n k d pos h = by_case (delete-Deleted sys j k d)
    where
      other :
          (x : Shared P)
          → NameDict.lookup j k.topics ≡ some x
          → x.handles ≡ 0
          → NameDict.lookup name (NameDict.remove j k.topics) ≡ NameDict.lookup name k.topics
      other x e z = elim (Bool-cases (same_name j name)) [
        | inl s ↦
            let q : h.shared ≡ x = some-injective _ _ (
              sym h.found
              ∙ ap (λ i. NameDict.lookup i k.topics) (sym (same_name→eq j name s))
              ∙ e) in
            absurd (omega (arith, h.enough, ap (λ (y : Shared P). y.handles) q))
        | inr s ↦ NameDict.lookup-remove j name k.topics ∙ rw s
      ]

      by_case :
          Deleted sys j k d (delete_topic sys j (k, d))
          → Held name t n (delete_topic sys j (k, d)).1.0.topics
      by_case (missing e q) = rw q h
      by_case (in_use x e u a b same) = Held-same name t n k.topics _ (same name) h
      by_case (gone x e z q) = rw q (Held-same name t n k.topics _ (other x e z) h)

  get-Held :
      (name j : Bytes) (t : Topic P) (n : ℕ) (s : State sys)
      → Held name t n s.0.topics
      → Held name t (n + (if same_name j name then 1 else 0)) (get_topic sys j s).1.0.topics
  unfolding get_topic
  get-Held name j t n (k, d) h = found (NameDict.lookup j k.topics) refl
    where
      found :
          (o : Option (Shared P))
          → NameDict.lookup j k.topics ≡ o
          → Held name t
              (n + (if same_name j name then 1 else 0))
              (get_topic sys j (k, d)).1.0.topics
      found none e = elim (Bool-cases (same_name j name)) [
        | inl q ↦ absurd (
            none-ne-some _
              (sym e ∙ ap (λ i. NameDict.lookup i k.topics) (same_name→eq j name q) ∙ h.found))
        | inr q ↦ rw (e, q) (Held-le name t n _ k.topics (omega arith) h)
      ]
      found (some x) e = rw e (
          Held-insert name j t n _ k.topics x _ e refl (λ q le. rw q (omega arith))
            (λ q. rw q (omega arith)) h)

  drop-Held :
      (name j : Bytes) (t : Topic P) (n : ℕ) (k : Kafko P)
      → Held name t n k.topics
      → Held name t (n - (if same_name j name then 1 else 0)) (drop_handle sys j k).topics
  unfolding drop_handle
  drop-Held name j t n k h = found (NameDict.lookup j k.topics) refl
    where
      found :
          (o : Option (Shared P))
          → NameDict.lookup j k.topics ≡ o
          → Held name t (n - (if same_name j name then 1 else 0)) (drop_handle sys j k).topics
      found none e = rw e (Held-le name t n _ k.topics (omega arith) h)
      found (some x) e = rw e (
          Held-insert name j t n _ k.topics x _ e refl (λ q le. rw q (omega arith))
            (λ q. rw q (omega arith)) h)

  or_not_found-state :
      (j : Bytes) (r : Option (Topic P) × State sys) → (or_not_found sys j r).1 ≡ r.1
  or_not_found-state j (none, s) = refl
  or_not_found-state j (some t, s) = refl

  producer-Held :
      (name j : Bytes) (t : Topic P) (n : ℕ) (s : State sys)
      → Held name t n s.0.topics
      → Held name t n (producer_for sys j s).1.0.topics
  unfolding producer_for
  producer-Held name j t n s h =
      rw (or_not_found-state j (get_topic sys j s))
        (Held-le name t _ n _ (omega arith) (get-Held name j t n s h))

  consumer-state : (j : Bytes) (s : State sys) → (consumer_for sys j s).1 ≡ (get_topic sys j s).1
  unfolding consumer_for
  consumer-state j s = answered (get_topic sys j s) refl
    where
      answered :
          (r : Option (Topic P) × State sys)
          → get_topic sys j s ≡ r
          → (consumer_for sys j s).1 ≡ (get_topic sys j s).1
      answered (none, s') e = rw (consumer_for, e)
      answered (some u, s') e = rw (consumer_for, e)

  group-Held :
      (name j group : Bytes) (t : Topic P) (n : ℕ) (s : State sys)
      → Held name t n s.0.topics
      → Held name t n (consumer_for_group sys j group s).1.0.topics
  unfolding consumer_for_group
  group-Held name j group t n s h = answered (get_topic sys j s) refl
    where
      one : ℕ
      one = if same_name j name then 1 else 0

      cloned_Held :
          (r : Option (Topic P) × State sys)
          → get_topic sys j s ≡ r
          → Held name t (n + one) r.1.0.topics
      cloned_Held r e =
          rw (ap (λ (q : Option (Topic P) × State sys). q.1.0.topics) e) at
            (get-Held name j t n s h)

      opened :
          (u : Topic P) (k : Kafko P) (d : D)
          → get_topic sys j s ≡ (some u, (k, d))
          → (r : Result OffsetStore) (d' : D)
          → sys.open_offsets j group (partition_count u) d ≡ (r, d')
          → Held name t n (consumer_for_group sys j group s).1.0.topics
      opened u k d e (ok store) d' f =
          rw (consumer_for_group, e, f)
            (Held-le name t _ n _ (omega arith) (cloned_Held (some u, (k, d)) e))
      opened u k d e (err x) d' f =
          rw (consumer_for_group, e, f)
            (Held-le name t _ n _ (omega arith)
              (drop-Held name j t (n + one) k (cloned_Held (some u, (k, d)) e)))
      opened u k d e panicked d' f =
          rw (consumer_for_group, e, f)
            (Held-le name t _ n _ (omega arith) (cloned_Held (some u, (k, d)) e))
      opened u k d e out_of_fuel d' f =
          rw (consumer_for_group, e, f)
            (Held-le name t _ n _ (omega arith) (cloned_Held (some u, (k, d)) e))

      answered :
          (r : Option (Topic P) × State sys)
          → get_topic sys j s ≡ r
          → Held name t n (consumer_for_group sys j group s).1.0.topics
      answered (none, (k, d)) e =
          rw (consumer_for_group, e)
            (Held-le name t _ n _ (omega arith) (cloned_Held (none, (k, d)) e))
      answered (some u, (k, d)) e = opened u k d e _ _ refl

  after-Held :
      (c : Call) (name : Bytes) (t : Topic P) (n : ℕ) (s : State sys)
      → released_by name c < n
      → Held name t n s.0.topics
      → Held name t (n - released_by name c) (after c s).0.topics
  unfolding after
  after-Held (create j config count) name t n (k, d) pos h =
      Held-le name t n _ _ (omega arith) (create-Held name j t n config count k d h)
  after-Held (delete j) name t n (k, d) pos h =
      Held-le name t n _ _ (omega arith) (delete-Held name j t n k d (omega arith) h)
  after-Held (topic j) name t n s pos h =
      Held-le name t _ _ _ (omega arith) (get-Held name j t n s h)
  after-Held (producer j) name t n s pos h =
      Held-le name t n _ _ (omega arith) (producer-Held name j t n s h)
  after-Held (consumer j) name t n s pos h =
      rw (consumer-state j s) (Held-le name t _ _ _ (omega arith) (get-Held name j t n s h))
  after-Held (group_consumer j group) name t n s pos h =
      Held-le name t n _ _ (omega arith) (group-Held name j group t n s h)
  after-Held (release j) name t n (k, d) pos h = drop-Held name j t n k h

  -- A topic with handles that are not all dropped stays: over any sequence of calls, of which some
  -- may create, delete and reopen topics of the same name, and whatever the directories do, the
  -- registry has the same topic under the name and counts at least the handles that are left.
  pub run-Held :
      (cs : List Call) (name : Bytes) (t : Topic P) (n : ℕ) (s : State sys)
      → releases name cs < n
      → Held name t n s.0.topics
      → Held name t (n - releases name cs) (run cs s).0.topics
  unfolding run
  run-Held [] name t n s pos h = Held-le name t n _ _ (omega arith) h
  run-Held (c ∷ cs) name t n s pos h = Held-le name t _ _ _ (omega arith) (
      run-Held cs name t (n - released_by name c) (after c s) (omega arith)
        (after-Held c name t n s (omega arith) h))
