-- ===== src/Bench/Stored.antt =====
-- The concurrent scenario of crates/kafko-bench/src/main.rs appends what it reports, in whatever order
-- its tasks run.
use kafko.Base.{
  ℕ, zero, suc, ◌+◌, ◌^◌, ◌-◌, ◌≤◌, ◌<◌, get_elem?-set_self, get_elem?-set_ne, get_elem?→lt,
  if◌then◌else◌, ◌≡◌, ◌≢◌, inl, inr, refl, sym, ap, ◌∙◌, Bytes, List, [], ◌∷◌, ◌++◌, Option, none,
  some, length, get_elem?, set, length-append, arith, Bool-cases, ◌==◌, ==→eq, ==→ne, Option-cases,
  All,
}
use mathlib.Core.Path.{subst}
use kafko.Error.{ok, err, panicked, out_of_fuel}
use kafko.Exec.{Exec}
use kafko.Record.{Record, new}
use kafko.Topic.{Topic, partition}
use kafko.Topic.Routing.{IsTopic, in_range}
use kafko.Producer.{append_to}
use kafko.Producer.Buckets.{index, index_lt, turned, turned_lt, route_lem}
use kafko.Producer.OneByOne.{AppendsOne}
use kafko.Bench.{Sending}
use kafko.Bench.Tasks.{Job, working, routed, done, job_step, run_turns, join_all}

-- How many records the first `m` partitions hold.
abbrev pub stored : (ℕ → List Record) → ℕ → ℕ
stored h zero = 0
stored h (suc m) = stored h m + length (h m)

-- How many records the jobs have still to append; a job that is none of the program's has no number.
abbrev pub left_in : Job → ℕ
left_in (working left) = left
left_in (routed p left) = left + 1
left_in (done r) = 0

abbrev pub all_left : List Job → ℕ
all_left [] = 0
all_left (j ∷ jobs) = left_in j + all_left jobs

stored-same :
    (h k : ℕ → List Record) (m : ℕ) → ((j : ℕ) → j < m → k j ≡ h j) → stored k m ≡ stored h m
stored-same h k zero e = refl
stored-same h k (suc m) e =
    let a = stored-same h k m (λ j l. e j (omega arith)) in
    let b = ap length (e m (omega arith)) in omega (arith, a, b)

stored-one :
    (h k : ℕ → List Record) (m q : ℕ) (r : Record)
    → q < m
    → k q ≡ h q ++ (r ∷ [])
    → ((j : ℕ) → j ≢ q → k j ≡ h j)
    → stored k m ≡ stored h m + 1
stored-one h k zero q r l e o = absurd (omega arith)
stored-one h k (suc m) q r l e o = elim (Bool-cases (q == m)) [
  | inl y ↦
      let same : q ≡ m = ==→eq q m y in
      let a = stored-same h k m (λ j b. o j (λ w. absurd (omega (arith, same, w)))) in
      let c : length (k m) ≡ length (h m) + 1 =
        rw (← same) (ap length e ∙ length-append (h q) (r ∷ [])) in
      omega (arith, a, c)
  | inr y ↦
      let w = ==→ne q m y in
      let a = stored-one h k m q r (ground arith) e o in
      let c = ap length (o m (λ z. w (sym z))) in omega (arith, a, c)
]

all_left-set :
    (jobs : List Job) (i : ℕ) (j j' : Job)
    → get_elem? jobs i ≡ some j
    → all_left (set jobs i j') + left_in j ≡ all_left jobs + left_in j'
all_left-set [] i j j' e = absurd cc
all_left-set (x ∷ jobs) zero j j' e = let same : x ≡ j = cc in rw same (omega arith)
all_left-set (x ∷ jobs) (suc i) j j' e = omega (arith, all_left-set jobs i j j' e)

-- No job has failed, and each that is between its two steps has a partition of the topic.
abbrev pub IsSound : ℕ → Job → Type 0
IsSound n (working left) = Unit
IsSound n (routed p left) = p < n
IsSound n (done (ok u)) = Unit
IsSound n (done r) = ⊥

abbrev pub AllSound : ℕ → List Job → Type 0
AllSound n [] = Unit
AllSound n (j ∷ jobs) = IsSound n j × AllSound n jobs

AllSound-set :
    (n : ℕ) (jobs : List Job) (i : ℕ) (j : Job)
    → IsSound n j
    → AllSound n jobs
    → AllSound n (set jobs i j)
AllSound-set n [] i j h a = tt
AllSound-set n (x ∷ jobs) zero j h a = (h, a.1)
AllSound-set n (x ∷ jobs) (suc i) j h a = (a.0, AllSound-set n jobs i j h a.1)

AllSound-get :
    (n : ℕ) (jobs : List Job) (i : ℕ) (j : Job)
    → get_elem? jobs i ≡ some j
    → AllSound n jobs
    → IsSound n j
AllSound-get n [] i j e a = absurd cc
AllSound-get n (x ∷ jobs) zero j e a = let same : x ≡ j = cc in subst (IsSound n) same (a.0)
AllSound-get n (x ∷ jobs) (suc i) j e a = AllSound-get n jobs i j e a.1

-- How many turns a job still takes, and how many of some turns it gets.
abbrev pub steps : Job → ℕ
steps (working left) = left + left + 1
steps (routed p left) = left + left + 2
steps (done r) = 0

abbrev pub turns_of : ℕ → List (ℕ × ℕ) → ℕ
turns_of i [] = 0
turns_of i (turn ∷ turns) = let rest = turns_of i turns in if turn.0 == i then rest + 1 else rest

abbrev pub HasTurns : List (ℕ × ℕ) → List Job → Type 0
HasTurns turns jobs = (i : ℕ) (j : Job) → get_elem? jobs i ≡ some j → steps j ≤ turns_of i turns

-- All have ended.
pub join_all-ended :
    (n : ℕ) (jobs : List Job)
    → AllSound n jobs
    → HasTurns [] jobs
    → (join_all jobs ≡ ok tt) × (all_left jobs ≡ 0)
unfolding join_all
join_all-ended n [] a h = (refl, refl)
join_all-ended n (working left ∷ jobs) a h = absurd (omega (arith, h 0 (working left) refl))
join_all-ended n (routed p left ∷ jobs) a h = absurd (omega (arith, h 0 (routed p left) refl))
join_all-ended n (done (ok u) ∷ jobs) a h =
    let (e, z) = join_all-ended n jobs a.1 (λ i j g. h (suc i) j g) in (e, omega (arith, z))
join_all-ended n (done (err e) ∷ jobs) a h = absurd (a.0)
join_all-ended n (done panicked ∷ jobs) a h = absurd (a.0)
join_all-ended n (done out_of_fuel ∷ jobs) a h = absurd (a.0)

-- After a turn of job `i`, which is then `j'`.
HasTurns-set :
    (turn : ℕ × ℕ) (turns : List (ℕ × ℕ)) (jobs : List Job) (j j' : Job)
    → get_elem? jobs turn.0 ≡ some j
    → steps j' ≤ steps j - 1
    → HasTurns (turn ∷ turns) jobs
    → HasTurns turns (set jobs turn.0 j')
HasTurns-set turn turns jobs j j' e l h i k g = elim (Bool-cases (turn.0 == i)) [
  | inl y ↦
      let same : turn.0 ≡ i = ==→eq turn.0 i y in
      let at_turn : get_elem? jobs i ≡ some j = rw (← same) e in
      let there : get_elem? (set jobs i j') i ≡ some j' =
        get_elem?-set_self jobs i j' (get_elem?→lt jobs i j at_turn) in
      let here : get_elem? (set jobs i j') i ≡ some k =
        subst (λ z. get_elem? (set jobs z j') i ≡ some k) same g in
      let both : j' ≡ k = cc in
      let most : steps j ≤ turns_of i turns + 1 = rw y at (h i j at_turn) in
      subst (λ z. steps z ≤ turns_of i turns) both (omega (arith, l, most))
  | inr y ↦
      let other : get_elem? jobs i ≡ some k =
        sym (get_elem?-set_ne jobs turn.0 i j' (==→ne turn.0 i y)) ∙ g in
      rw y at (h i k other)
]

HasTurns-none :
    (turn : ℕ × ℕ) (turns : List (ℕ × ℕ)) (jobs : List Job)
    → get_elem? jobs turn.0 ≡ none
    → HasTurns (turn ∷ turns) jobs
    → HasTurns turns jobs
HasTurns-none turn turns jobs e h i k g = elim (Bool-cases (turn.0 == i)) [
  | inl y ↦
      let same : turn.0 ≡ i = ==→eq turn.0 i y in
      let nothing : get_elem? jobs i ≡ none = rw (← same) e in absurd (none_some nothing g)
  | inr y ↦ rw y at (h i k g)
]
  where
    none_some : {o : Option Job} {z : Job} → o ≡ none → o ≡ some z → ⊥
    none_some a b = cc

-- A step of the tasks from the topic `t`: jobs or one job, measured by `left`, with what was appended.
pub record Kept {P D J : Type 0} (Good : D → Type 0) (held : D → ℕ → List Record) (t : Topic P)
    (d : D) (before : ℕ) (IsGood : J → Type 0) (left : J → ℕ) (out : J × Sending P D) : Type 0 where
  pub state : J
  pub counter : ℕ
  pub after : D
  pub gives : out ≡ (state, (record t { round_robin = counter }, after))
  pub stays : Good after
  pub small : counter < 2 ^ 64
  pub good : IsGood state
  pub balance :
      stored (held after) (length t.partitions) + left state
      ≡ stored (held d) (length t.partitions) + before

module _ {P D : Type 0} (append : P → Record → Exec D ℕ)
    (append_batch : P → List Record → Exec D (List ℕ)) (Good : D → Type 0)
    (Fits : List Record → Type 0) (held : D → ℕ → List Record) where
  step-Kept :
      (now : ℕ) (payload : Bytes) (j : Job) (t : Topic P) (d : D)
      → IsTopic t
      → t.round_robin < 2 ^ 64
      → AppendsOne append t.partitions Good Fits held
      → Good d
      → Fits (new now none payload ∷ [])
      → IsSound (length t.partitions) j
      → Kept Good held t d
          (left_in j)
          (λ j'. IsSound (length t.partitions) j' × (steps j' ≤ steps j - 1))
          left_in
          (job_step append append_batch now payload j (t, d))
  unfolding job_step append_to partition
  step-Kept now payload (working zero) t d h b one v fits i = record {
    state = done (ok tt);
    counter = t.round_robin;
    after = d;
    gives = refl;
    stays = v;
    small = b;
    good = (tt, omega arith);
    balance = refl;
  }
  step-Kept now payload (working (suc left)) t d h b one v fits i = record {
    state = routed (index (length t.partitions) t.round_robin none) left;
    counter = turned t.round_robin none;
    after = d;
    gives = rw (route_lem append append_batch none t d h b);
    stays = v;
    small = turned_lt t.round_robin none b;
    good = (index_lt (length t.partitions) t.round_robin none h.0, omega arith);
    balance = omega arith;
  }
  step-Kept now payload (routed p left) t d h b one v fits i =
      let (q, g) = in_range t.partitions p i in
      let f = one p q (new now none payload) d v fits g in
      record {
        state = working left;
        counter = t.round_robin;
        after = f.after;
        gives = rw (g, f.gives);
        stays = f.good;
        small = b;
        good = (tt, omega arith);
        balance = omega (
          arith,
          stored-one (held d) (held f.after) (length t.partitions) p (new now none payload) i f.here
              f.others,
        );
      }
  step-Kept now payload (done (ok u)) t d h b one v fits i = record {
    state = done (ok u);
    counter = t.round_robin;
    after = d;
    gives = refl;
    stays = v;
    small = b;
    good = (tt, omega arith);
    balance = refl;
  }
  step-Kept now payload (done (err e)) t d h b one v fits i = absurd i
  step-Kept now payload (done panicked) t d h b one v fits i = absurd i
  step-Kept now payload (done out_of_fuel) t d h b one v fits i = absurd i

  pub turns-Kept :
      (payload : Bytes) (turns : List (ℕ × ℕ)) (jobs : List Job) (t : Topic P) (d : D)
      → IsTopic t
      → t.round_robin < 2 ^ 64
      → AppendsOne append t.partitions Good Fits held
      → Good d
      → All (λ (turn : ℕ × ℕ). Fits (new turn.1 none payload ∷ [])) turns
      → AllSound (length t.partitions) jobs
      → HasTurns turns jobs
      → Kept Good held t d
          (all_left jobs)
          (λ js. AllSound (length t.partitions) js × HasTurns [] js)
          all_left
          (run_turns append append_batch payload turns (jobs, (t, d)))
  unfolding run_turns
  turns-Kept payload [] jobs t d h b one v fits a m = record {
    state = jobs;
    counter = t.round_robin;
    after = d;
    gives = refl;
    stays = v;
    small = b;
    good = (a, m);
    balance = refl;
  }
  turns-Kept payload (turn ∷ turns) jobs t d h b one v fits a m =
      elim (Option-cases (get_elem? jobs turn.0)) [
        | inl e ↦
            let k =
              turns-Kept payload turns jobs t d h b one v fits.1 a
                (HasTurns-none turn turns jobs e m) in
            record {
              state = k.state;
              counter = k.counter;
              after = k.after;
              gives = rw (e, k.gives);
              stays = k.stays;
              small = k.small;
              good = k.good;
              balance = k.balance;
            }
        | inr (j, e) ↦
            let f =
              step-Kept turn.1 payload j t d h b one v fits.0
                (AllSound-get (length t.partitions) jobs turn.0 j e a) in
            let jobs' : List Job = set jobs turn.0 f.state in
            let k =
              turns-Kept payload turns jobs' (record t { round_robin = f.counter }) f.after h
                f.small one f.stays fits.1
                (AllSound-set (length t.partitions) jobs turn.0 f.state f.good.0 a)
                (HasTurns-set turn turns jobs j f.state e f.good.1 m) in
            record {
              state = k.state;
              counter = k.counter;
              after = k.after;
              gives = rw (e, f.gives, k.gives);
              stays = k.stays;
              small = k.small;
              good = k.good;
              balance = omega (arith, k.balance, f.balance, all_left-set jobs turn.0 j f.state e);
            }
      ]
