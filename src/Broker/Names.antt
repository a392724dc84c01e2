-- ===== src/Broker/Names.antt =====
-- The names that `list_topics` of broker.rs gives.
use kafko.Base.{
  ◌≡◌, refl, ap, ◌∙◌, Bytes, List, [], ◌∷◌, Bool, true, false, ◌||◌, map, Bool-cases, inl, inr,
  arith,
}
use kafko.Base.NameDict
use kafko.Base.NameDict.{same_name, leb_name, insert_name, sort_names}
use kafko.Broker.{System, Shared, Kafko, has_topic, is_some, list_topics}

abbrev pub has_name : Bytes → List Bytes → Bool
has_name n [] = false
has_name n (k ∷ ks) = same_name k n || has_name n ks

-- Each name is at most the next one.
abbrev pub Ascending : List Bytes → Type 0
Ascending [] = Unit
Ascending (k ∷ []) = Unit
Ascending (k ∷ (j ∷ js)) = (leb_name k j ≡ true) × Ascending (j ∷ js)

total : (k j : Bytes) → leb_name k j ≡ false → leb_name j k ≡ true
total [] j h = cc
total (a ∷ more) [] h = refl
total (a ∷ more) (b ∷ bs) h = ground (arith, total more bs)

or_swap : (a b c : Bool) → (a || (b || c)) ≡ (b || (a || c))
or_swap a b c = ground arith

has_name-insert_name :
    (n k : Bytes) (js : List Bytes)
    → has_name n (insert_name k js) ≡ (same_name k n || has_name n js)
has_name-insert_name n k [] = refl
has_name-insert_name n k (j ∷ js) = elim (Bool-cases (leb_name k j)) [
  | inl y ↦ rw y
  | inr y ↦
      rw (y, has_name-insert_name n k js) (or_swap (same_name j n) (same_name k n) (has_name n js))
]

has_name-sort_names : (n : Bytes) (ks : List Bytes) → has_name n (sort_names ks) ≡ has_name n ks
has_name-sort_names n [] = refl
has_name-sort_names n (k ∷ ks) =
    has_name-insert_name n k (sort_names ks)
    ∙ ap (λ b. same_name k n || b) (has_name-sort_names n ks)

-- A name in front of an ascending list whose names it does not exceed.
insert-Ascending : (k : Bytes) (js : List Bytes) → Ascending js → Ascending (insert_name k js)
insert-Ascending k [] h = tt
insert-Ascending k (j ∷ []) h = elim (Bool-cases (leb_name k j)) [
  | inl y ↦ rw y (y, tt)
  | inr y ↦ rw y (total k j y, tt)
]
insert-Ascending k (j ∷ (i ∷ is)) h = elim (Bool-cases (leb_name k j)) [
  | inl y ↦ rw y (y, h)
  | inr y ↦ rw y (behind (total k j y) (insert-Ascending k (i ∷ is) h.1))
]
  where
    behind :
        leb_name j k ≡ true
        → Ascending (insert_name k (i ∷ is))
        → Ascending (j ∷ insert_name k (i ∷ is))
    behind e a = elim (Bool-cases (leb_name k i)) [
      | inl z ↦ rw z (e, (rw z at a))
      | inr z ↦ rw z (h.0, (rw z at a))
    ]

sort-Ascending : (ks : List Bytes) → Ascending (sort_names ks)
sort-Ascending [] = tt
sort-Ascending (k ∷ ks) = insert-Ascending k (sort_names ks) (sort-Ascending ks)

module _ {P D : Type 0} (sys : System P D) where
  has_name-keys :
      (n : Bytes) (m : List (Bytes × Shared P))
      → has_name n (map (λ (x : Bytes × Shared P). x.0) m) ≡ is_some sys (NameDict.lookup n m)
  has_name-keys n [] = refl
  has_name-keys n ((j, x) ∷ m) = elim (Bool-cases (same_name j n)) [
    | inl y ↦ rw y
    | inr y ↦ rw y (has_name-keys n m)
  ]

  -- `list_topics` gives the names in ascending order, and a name is among them exactly if `has_topic`
  -- says that the broker has the topic.
  pub list_topics-Ascending :
      (k : Kafko P)
      → Ascending (list_topics sys k)
        × ((name : Bytes) → has_name name (list_topics sys k) ≡ has_topic sys name k)
  unfolding list_topics has_topic
  list_topics-Ascending k = (
    sort-Ascending (map (λ (x : Bytes × Shared P). x.0) k.topics),
    λ name.
        has_name-sort_names name (map (λ (x : Bytes × Shared P). x.0) k.topics)
        ∙ has_name-keys name k.topics,
  )
