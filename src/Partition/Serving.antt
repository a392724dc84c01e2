-- ===== src/Partition/Serving.antt =====
-- What it is for the writer task of partition.rs to serve on a disk that does not fail, and for a part
-- of its work to keep it so.
use kafko.Base.{
  ℕ, ◌+◌, ◌*◌, ◌^◌, ◌≤◌, ◌<◌, ◌≡◌, ◌≢◌, refl, Bytes, List, [], ◌∷◌, ◌++◌, length, arith,
  length-append, All, map, true,
}
use kafko.Error.{Compression, Result, ok}
use kafko.Compression.{Platform, IsLawful, is_available}
use kafko.Record.{Record}
use kafko.Record.Encode.{frame}
use kafko.Log.{LogConfig}
use kafko.Log.Content.{content, Represents}
use kafko.Log.Batch.{IsEncoded, stored_batch}
use kafko.Partition.{Reply, State}

-- The sizes that a configuration has room for: `most` bytes for each record of a batch. The interval
-- of the retention checks is not zero.
pub record IsRoomy (p : Platform) (config : LogConfig) (most : ℕ) : Type 0 where
  pub lawful : IsLawful p
  pub available : is_available p config.compression ≡ true
  pub room : config.segment_size_threshold + config.batch_max_records * most ≤ 2 ^ 32
  pub some_records : 0 < config.batch_max_records
  pub ticking : config.retention_check_interval ≢ 0

-- The writer task serves: the log holds the records `rs` from `base` on, and the published
-- high-water mark is its next offset.
pub record IsServing (p : Platform) (config : LogConfig) (base : ℕ) (rs : List Record) (s : State)
    : Type 0 where
  pub holds : Represents p s.0.log s.1 base rs
  pub mark : s.0.hwm ≡ base + length rs
  pub same_config : s.0.log.config ≡ config

abbrev pub answered : State → List ℕ
answered s = map (λ (r : ℕ × Reply). r.0) s.0.replies

-- A part of the writer's work: it finishes, answers the commands `ids` in order, and serves on. The
-- high-water mark does not go back.
pub record Serves {A : Type 0} (p : Platform) (config : LogConfig) (s : State) (ids : List ℕ)
    (out : Result A × State) : Type 0 where
  pub value : A
  pub state : State
  pub base : ℕ
  pub rs : List Record
  pub runs : out ≡ (ok value, state)
  pub serving : IsServing p config base rs state
  pub answers : answered state ≡ answered s ++ ids
  pub forward : s.0.hwm ≤ state.0.hwm

pub map-append :
    (f : (ℕ × Reply) → ℕ) (xs ys : List (ℕ × Reply)) → map f (xs ++ ys) ≡ map f xs ++ map f ys
map-append f [] ys = refl
map-append f (x ∷ xs) ys = rw (map-append f xs ys)

pub length-stored_batch :
    (p : Platform) (c : Compression) (most : ℕ) (es : List (Record × Bytes))
    → All (λ b. length (content (stored_batch p c (b ∷ []))) ≤ most) es
    → length (content (stored_batch p c es)) ≤ length es * most
length-stored_batch p c most [] h = omega arith
length-stored_batch p c most (b ∷ es) h = omega (
  arith,
  length-append (frame p b.0 c b.1) (content (stored_batch p c es)),
  length-append (frame p b.0 c b.1) [],
  h.0,
  length-stored_batch p c most es h.1,
)

module _ (p : Platform) (config : LogConfig) where
  -- One answer, from a state that serves.
  pub answers_one :
      {A : Type 0} (base base' : ℕ) (rs rs' : List Record) (s s' : State) (id : ℕ) (r : Reply)
      (a : A) (out : Result A × State)
      → out ≡ (ok a, (record (s'.0) { replies = s.0.replies ++ ((id, r) ∷ []) }, s'.1))
      → IsServing p config base rs s
      → IsServing p config base' rs' s'
      → base + length rs ≤ base' + length rs'
      → Serves p config s (id ∷ []) out
  answers_one base base' rs rs' s s' id r a out e i i' le = record {
    value = a;
    state = (record (s'.0) { replies = s.0.replies ++ ((id, r) ∷ []) }, s'.1);
    base = base';
    rs = rs';
    runs = e;
    serving = record { holds = i'.holds; mark = i'.mark; same_config = i'.same_config };
    answers = map-append _ s.0.replies _;
    forward = omega (arith, i.mark, i'.mark);
  }

module _ (p : Platform) (config : LogConfig) (most : ℕ) (roomy : IsRoomy p config most) where
  -- A record that can be stored, in a frame of at most `most` bytes.
  pub record IsSound (b : Record × Bytes) : Type 0 where
    pub encoded : IsEncoded p config.compression b
    pub small : length (content (stored_batch p config.compression (b ∷ []))) ≤ most
