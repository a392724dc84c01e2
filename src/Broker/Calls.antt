-- ===== src/Broker/Calls.antt =====
-- What `create_topic_inner` and `delete_topic` of broker.rs do, branch by branch.
use kafko.Base.{
  ℕ, zero, suc, ◌<◌, ◌≡◌, refl, Bytes, List, Option, none, some, Bool, true, false, ◌==◌, arith,
  sym, ap, ◌∙◌, Bool-cases, inl, inr, ==→eq,
}
use kafko.Base.NameDict
use kafko.Base.NameDict.{same_name, same_name→eq}
use kafko.Error.{
  Result, ok, err, panicked, out_of_fuel, invalid_partition_count, topic_already_exists,
  topic_not_found, topic_in_use,
}
use kafko.Log.{LogConfig}
use kafko.Topic
use kafko.Topic.{Topic, shutdown_topic}
use kafko.Broker.{
  System, Shared, Kafko, State, has_topic, check_absent, register, create_topic_inner, take_out,
  dispose, delete_topic,
}

abbrev pub IsFailure : {A : Type 0} → Result A → Type 0
IsFailure (ok a) = ⊥
IsFailure r = Unit

module _ {P D : Type 0} (sys : System P D) where
  -- The call on the partitions' directories that makes a topic.
  abbrev pub made_by : Bytes → LogConfig → ℕ → D → Result (Topic P) × D
  made_by name config n d = Topic.create_topic (sys.open_partition name) name n config d

  pub data Created (name : Bytes) (config : LogConfig) (n : ℕ) (k : Kafko P) (d : D)
      (out : Result (Unit {0}) × State sys) : Type 0 where
    refused :
        n ≡ 0 → out ≡ (err (invalid_partition_count 0), (k, d)) → Created name config n k d out
    taken :
        (x : Shared P)
        → 0 < n
        → NameDict.lookup name k.topics ≡ some x
        → out ≡ (err (topic_already_exists name), (k, d))
        → Created name config n k d out
    failed :
        (r : Result (Topic P)) (d' : D)
        → 0 < n
        → NameDict.lookup name k.topics ≡ none
        → made_by name config n d ≡ (r, d')
        → IsFailure r
        → IsFailure (out.0)
        → out.1 ≡ (k, d')
        → Created name config n k d out
    made :
        (t : Topic P) (d' : D)
        → 0 < n
        → NameDict.lookup name k.topics ≡ none
        → made_by name config n d ≡ (ok t, d')
        → out ≡ (
          ok tt,
          (
            record k { topics = NameDict.insert name (record { topic = t; handles = 0 }) k.topics },
            d',
          ),
        )
        → Created name config n k d out

  pub create-Created :
      (name : Bytes) (config : LogConfig) (n : ℕ) (k : Kafko P) (d : D)
      → Created name config n k d (create_topic_inner sys name config n (k, d))
  unfolding create_topic_inner check_absent register has_topic
  create-Created name config zero k d = refused refl refl
  create-Created name config (suc n) k d = absent (NameDict.lookup name k.topics) refl
    where
      some_n : (suc n == 0) ≡ false
      some_n = ground arith

      with_topic :
          NameDict.lookup name k.topics ≡ none
          → (r : Result (Topic P)) (d' : D) → made_by name config (suc n) d ≡ (r, d')
          → Created name config (suc n) k d (create_topic_inner sys name config (suc n) (k, d))
      with_topic e (ok t) d' q = made t d' (omega arith) e q (rw (some_n, e, q, e))
      with_topic e (err x) d' q =
          failed (err x) d' (omega arith) e q tt (rw (some_n, e, q) tt) (rw (some_n, e, q))
      with_topic e panicked d' q =
          failed panicked d' (omega arith) e q tt (rw (some_n, e, q) tt) (rw (some_n, e, q))
      with_topic e out_of_fuel d' q =
          failed out_of_fuel d' (omega arith) e q tt (rw (some_n, e, q) tt) (rw (some_n, e, q))

      absent :
          (o : Option (Shared P))
          → NameDict.lookup name k.topics ≡ o
          → Created name config (suc n) k d (create_topic_inner sys name config (suc n) (k, d))
      absent none e = with_topic e _ _ refl
      absent (some x) e = taken x (omega arith) e (rw (some_n, e))

  -- The topic is shut down and its directory removed; the topic is out of the registry even where
  -- the removal fails.
  abbrev pub removed : Bytes → Topic P → D → Result (Unit {0}) × D
  removed name t d =
      sys.remove_dir_all name (shutdown_topic sys.unshared sys.shutdown_partition t d)

  pub data Deleted (name : Bytes) (k : Kafko P) (d : D) (out : Result (Unit {0}) × State sys)
      : Type 0 where
    missing :
        NameDict.lookup name k.topics ≡ none
        → out ≡ (err (topic_not_found name), (k, d))
        → Deleted name k d out
    in_use :
        (x : Shared P)
        → NameDict.lookup name k.topics ≡ some x
        → 0 < x.handles
        → out.0 ≡ err (topic_in_use name)
        → out.1.1 ≡ d
        → ((j : Bytes) → NameDict.lookup j out.1.0.topics ≡ NameDict.lookup j k.topics)
        → Deleted name k d out
    gone :
        (x : Shared P)
        → NameDict.lookup name k.topics ≡ some x
        → x.handles ≡ 0
        → out ≡ (
          (removed name x.topic d).0,
          (record k { topics = NameDict.remove name k.topics }, (removed name x.topic d).1),
        )
        → Deleted name k d out

  restored :
      (name j : Bytes) (x : Shared P) (m : List (Bytes × Shared P))
      → NameDict.lookup name m ≡ some x
      → NameDict.lookup j (NameDict.insert name x (NameDict.remove name m)) ≡ NameDict.lookup j m
  restored name j x m e = elim (Bool-cases (same_name name j)) [
    | inl s ↦
        NameDict.lookup-insert name j x (NameDict.remove name m)
        ∙ rw s (sym e ∙ ap (λ i. NameDict.lookup i m) (same_name→eq name j s))
    | inr s ↦
        NameDict.lookup-insert name j x (NameDict.remove name m)
        ∙ rw s (NameDict.lookup-remove name j m ∙ rw s)
  ]

  pub delete-Deleted :
      (name : Bytes) (k : Kafko P) (d : D) → Deleted name k d (delete_topic sys name (k, d))
  unfolding delete_topic take_out dispose
  delete-Deleted name k d = found (NameDict.lookup name k.topics) refl
    where
      used :
          (x : Shared P) (b : Bool)
          → NameDict.lookup name k.topics ≡ some x
          → (x.handles == 0) ≡ b
          → Deleted name k d (delete_topic sys name (k, d))
      used x true e h = gone x e (==→eq x.handles 0 h) (rw (delete_topic, take_out, e, dispose, h))
      used x false e h =
          in_use x e (ground arith) (rw (delete_topic, take_out, e, dispose, h))
            (rw (delete_topic, take_out, e, dispose, h))
            (λ j. rw (delete_topic, take_out, e, dispose, h) (restored name j x k.topics e))

      found :
          (o : Option (Shared P))
          → NameDict.lookup name k.topics ≡ o
          → Deleted name k d (delete_topic sys name (k, d))
      found none e = missing e (rw (delete_topic, take_out, e))
      found (some x) e = used x _ e refl
