-- ===== src/Http.antt =====
-- crates/kafko-http/src/main.rs: the topics that the server makes, and its two handlers. axum, the
-- listener and the environment variables are left out; a response is the value that a handler returns.
pub mod Topics
use kafko.Base.{ℕ, Bytes, List, [], ◌∷◌, Option, none, some, Bool, true, false, if◌then◌else◌}
use kafko.Base.NameDict.{same_name}
use kafko.Error.{
  Compression, uncompressed, lz4, zstd, KafkoError, Result, ok, err, panicked, out_of_fuel,
}
use kafko.Exec.{Exec, ◌>>=◌, ◌>>◌, pure, lift}
use kafko.Log.{LogConfig, default_config}
use kafko.Record.{Record}
use kafko.Topic.{Topic, RecordPosition, partition}
use kafko.Producer
use kafko.Broker.{
  System, Kafko, State, has_topic, create_topic_with_config, producer_for, get_topic,
}

-- A producer is a handle on its topic; `topic_none` is that of `producer_none` and is only read.
pub record AppState (P : Type 0) : Type 0 where
  pub producer_none : Topic P
  pub producer_lz4 : Topic P
  pub producer_zstd : Topic P
  pub topic_none : Topic P

abbrev pub name_none : Bytes
name_none = b'n' ∷ b'o' ∷ b'n' ∷ b'e' ∷ []

abbrev pub name_lz4 : Bytes
name_lz4 = b'l' ∷ b'z' ∷ b'4' ∷ []

abbrev pub name_zstd : Bytes
name_zstd = b'z' ∷ b's' ∷ b't' ∷ b'd' ∷ []

-- "bench_" before the name of the codec.
abbrev pub bench : Bytes → Bytes
bench codec = b'b' ∷ b'e' ∷ b'n' ∷ b'c' ∷ b'h' ∷ b'_' ∷ codec

module _ {P D : Type 0} (sys : System P D) where
  unfoldable pub ensure_topic : Bytes → Compression → Exec (State {P = P} {D = D} sys) (Unit {0})
  ensure_topic name compression (k, d) =
      if has_topic sys name k
      then (ok tt, (k, d))
      else create_topic_with_config sys name (record default_config { compression = compression })
          (k, d)

  abbrev expected :
      Option (Topic P) × State {P = P} {D = D} sys → Result (Topic P) × State {P = P} {D = D} sys
  expected (none, s) = (panicked, s)
  expected (some t, s) = (ok t, s)

  -- From the open broker to the state of the handlers.
  unfoldable pub prepare : Exec (State {P = P} {D = D} sys) (AppState P)
  unfolding ensure_topic
  prepare = do
    ensure_topic (bench name_none) uncompressed
    ensure_topic (bench name_lz4) lz4
    ensure_topic (bench name_zstd) zstd
    producer_none ← producer_for sys (bench name_none)
    producer_lz4 ← producer_for sys (bench name_lz4)
    producer_zstd ← producer_for sys (bench name_zstd)
    topic_none ← (λ s. expected (get_topic sys (bench name_none) s))
    pure (record {
      producer_none = producer_none;
      producer_lz4 = producer_lz4;
      producer_zstd = producer_zstd;
      topic_none = topic_none;
    })

-- What `produce_handler` answers: the offset, 400 with the codec's name, or 500 with the error.
pub data Response : Type 0 where
  offset_text : ℕ → Response
  bad_request : Bytes → Response
  internal_server_error : KafkoError → Response

module _ {P D : Type 0} (append : P → Record → Exec D ℕ)
    (append_batch : P → List Record → Exec D (List ℕ)) where
  abbrev answered : Result RecordPosition → Result Response
  answered (ok position) = ok (offset_text (position.offset))
  answered (err e) = ok (internal_server_error e)
  answered panicked = panicked
  answered out_of_fuel = out_of_fuel

  -- A record without a key, through the producer that `put` stores again.
  abbrev produce :
      ℕ → Bytes → Topic P → (Topic P → AppState P) → D → Result Response × (AppState P × D)
  produce now body t put d =
      let r = Producer.send append append_batch now none body (t, d) in
      (answered r.0, (put r.1.0, r.1.1))

  unfoldable pub produce_handler : ℕ → Bytes → Bytes → Exec (AppState P × D) Response
  produce_handler now codec body (a, d) =
      if same_name codec name_none
      then produce now body a.producer_none (λ t. record a { producer_none = t }) d
      else if same_name codec name_lz4
      then produce now body a.producer_lz4 (λ t. record a { producer_lz4 = t }) d
      else if same_name codec name_zstd
      then produce now body a.producer_zstd (λ t. record a { producer_zstd = t }) d
      else (ok (bad_request codec), (a, d))

module _ {P D : Type 0} (high_water_mark : P → D → ℕ) where
  abbrev mark_of : Option P → D → Result ℕ
  mark_of none d = panicked
  mark_of (some q) d = ok (high_water_mark q d)

  unfoldable pub hwm_handler : Exec (AppState P × D) ℕ
  hwm_handler (a, d) = (mark_of (partition a.topic_none 0) d, (a, d))
