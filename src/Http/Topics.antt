-- ===== src/Http/Topics.antt =====
-- The topics that the server of kafko-http makes.
use kafko.Base.{◌≡◌, refl, ◌∙◌, Bytes, some, Bool, true, false}
use kafko.Base.NameDict
use kafko.Base.NameDict.{same_name_refl}
use kafko.Error.{Compression, Result, ok, err, panicked, out_of_fuel}
use kafko.Log.{LogConfig, default_config}
use kafko.Broker.{System, Shared, Kafko, has_topic, create_topic_inner, create_topic_with_config}
use kafko.Broker.Calls.{Created, refused, taken, failed, made, create-Created, IsFailure}
use kafko.Http.{ensure_topic}

module _ {P D : Type 0} (sys : System P D) (name : Bytes) where
  there :
      (x : Shared P) (k : Kafko P)
      → NameDict.lookup name k.topics ≡ some x
      → has_topic sys name k ≡ true
  unfolding has_topic
  there x k e = rw e

  not_ok : (r : Result (Unit {0})) → IsFailure r → r ≡ ok tt → ⊥
  not_ok (ok u) f e = f
  not_ok (err x) f e = cc
  not_ok panicked f e = cc
  not_ok out_of_fuel f e = cc

  created_there :
      (config : LogConfig) (k : Kafko P) (d : D)
      → (create_topic_inner sys name config 1 (k, d)).0 ≡ ok tt
      → has_topic sys name (create_topic_inner sys name config 1 (k, d)).1.0 ≡ true
  created_there config k d e = by_case (create-Created sys name config 1 k d)
    where
      by_case :
          Created sys name config 1 k d (create_topic_inner sys name config 1 (k, d))
          → has_topic sys name (create_topic_inner sys name config 1 (k, d)).1.0 ≡ true
      by_case (refused z q) = absurd (not_ok _ (rw q tt) e)
      by_case (taken x z l q) = absurd (not_ok _ (rw q tt) e)
      by_case (failed r d' z l m f g q) = absurd (not_ok _ g e)
      by_case (made t d' z l m q) = rw q (
          there (record { topic = t; handles = 0 }) _
            (NameDict.lookup-insert name name (record { topic = t; handles = 0 }) k.topics
              ∙ rw (same_name_refl name)))

  -- Where `ensure_topic` succeeds, the broker has the topic.
  ensure_topic-has_topic :
      (compression : Compression) (k : Kafko P) (d : D)
      → (ensure_topic sys name compression (k, d)).0 ≡ ok tt
      → has_topic sys name (ensure_topic sys name compression (k, d)).1.0 ≡ true
  unfolding ensure_topic create_topic_with_config
  ensure_topic-has_topic compression k d = by_case (has_topic sys name k) refl
    where
      by_case :
          (b : Bool)
          → has_topic sys name k ≡ b
          → (ensure_topic sys name compression (k, d)).0 ≡ ok tt
          → has_topic sys name (ensure_topic sys name compression (k, d)).1.0 ≡ true
      by_case true h e = rw (ensure_topic, h) h
      by_case false h e =
          rw (ensure_topic, h)
            (created_there (record default_config { compression = compression }) k d
              (rw (ensure_topic, h) at e))
