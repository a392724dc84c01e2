-- ===== src/Broker/Held.antt =====
-- A topic in the registry of broker.rs and the count of its handles.
use kafko.Base.{
  ℕ, ◌≤◌, ◌≡◌, sym, ap, ◌∙◌, Bytes, List, some, true, false, arith, Bool-cases, inl, inr,
}
use mathlib.Core.Option.{some-injective}
use kafko.Base.NameDict
use kafko.Base.NameDict.{same_name, same_name_refl, same_name→eq}
use kafko.Topic.{Topic}
use kafko.Broker.{Shared}

-- The registry has this topic, with at least so many handles.
pub record Held {P : Type 0} (name : Bytes) (t : Topic P) (n : ℕ) (m : List (Bytes × Shared P))
    : Type 0 where
  pub shared : Shared P
  pub found : NameDict.lookup name m ≡ some shared
  pub same : shared.topic ≡ t
  pub enough : n ≤ shared.handles

module _ {P : Type 0} where
  -- Only what stands under the name matters.
  pub Held-same :
      (name : Bytes) (t : Topic P) (n : ℕ) (m m' : List (Bytes × Shared P))
      → NameDict.lookup name m' ≡ NameDict.lookup name m
      → Held name t n m
      → Held name t n m'
  Held-same name t n m m' e h = record {
    shared = h.shared;
    found = e ∙ h.found;
    same = h.same;
    enough = h.enough;
  }

  pub Held-le :
      (name : Bytes) (t : Topic P) (n n' : ℕ) (m : List (Bytes × Shared P))
      → n' ≤ n
      → Held name t n m
      → Held name t n' m
  Held-le name t n n' m le h = record {
    shared = h.shared;
    found = h.found;
    same = h.same;
    enough = omega (arith, h.enough);
  }

  -- A topic is stored again with another count of handles.
  pub Held-insert :
      (name j : Bytes) (t : Topic P) (n n' : ℕ) (m : List (Bytes × Shared P)) (x y : Shared P)
      → NameDict.lookup j m ≡ some x
      → y.topic ≡ x.topic
      → (same_name j name ≡ true → n ≤ x.handles → n' ≤ y.handles)
      → (same_name j name ≡ false → n' ≤ n)
      → Held name t n m
      → Held name t n' (NameDict.insert j y m)
  Held-insert name j t n n' m x y e u f g h = elim (Bool-cases (same_name j name)) [
    | inl s ↦
        let q : h.shared ≡ x =
          some-injective _ _
            (sym h.found ∙ ap (λ i. NameDict.lookup i m) (sym (same_name→eq j name s)) ∙ e) in
        record {
          shared = y;
          found = NameDict.lookup-insert j name y m ∙ rw s;
          same = u ∙ ap (λ (z : Shared P). z.topic) (sym q) ∙ h.same;
          enough = f s (rw (← q) h.enough);
        }
    | inr s ↦
        Held-le name t n n' _ (g s)
          (Held-same name t n m _ (NameDict.lookup-insert j name y m ∙ rw s) h)
  ]
