-- ===== src/Prelude/Assoc.antt =====
-- JavaScript's `Map` from text: its entries in the order of insertion, in which `set` leaves an
-- existing key where it is.
use mathlib.Core.Path.{◌≡◌, refl, sym}
use mathlib.Core.Logic.{◌≢◌, inl, inr}
use mathlib.Core.Bool.{Bool, true, false}
use mathlib.Core.Option.{Option, none, some}
use mathlib.Core.List.{List, [], ◌∷◌}
use persistent_memory_stack.Prelude.Tests.{Bool-cases, if◌then◌else◌}
use persistent_memory_stack.Prelude.Lists.{select}
use persistent_memory_stack.Prelude.Text.{Text, text_eq, text_eq_iff, text_eq_refl}

text_ne : (j k : Text) → j ≢ k → text_eq j k ≡ false
text_ne j k n = elim (Bool-cases (text_eq j k)) [
  | inl e ↦ absurd (n ((text_eq_iff j k).0 e))
  | inr e ↦ e
]

pub text_differ : (j k : Text) → text_eq j k ≡ false → j ≢ k
text_differ j k e q = cc (e, (text_eq_iff j k).1 q)

module _ {V : Type 0} where
  unfoldable pub lookup : Text → List (Text × V) → Option V
  lookup k [] = none
  lookup k ((j, v) ∷ m) = let rest = lookup k m in if text_eq j k then some v else rest

  unfoldable pub insert : Text → V → List (Text × V) → List (Text × V)
  insert k v [] = (k, v) ∷ []
  insert k v ((j, w) ∷ m) =
      let rest = insert k v m in if text_eq j k then (j, v) ∷ m else (j, w) ∷ rest

  unfoldable pub erase : Text → List (Text × V) → List (Text × V)
  erase k [] = []
  erase k ((j, w) ∷ m) = let rest = erase k m in if text_eq j k then rest else (j, w) ∷ rest

  -- No key occurs twice.
  unfoldable pub HasUniqueKeys : List (Text × V) → Type 0
  HasUniqueKeys [] = Unit
  HasUniqueKeys ((k, v) ∷ m) = (lookup k m ≡ none) × HasUniqueKeys m

  pub lookup-insert : (k : Text) (v : V) (m : List (Text × V)) → lookup k (insert k v m) ≡ some v
  unfolding lookup insert
  lookup-insert k v [] = rw (text_eq_refl k) refl
  lookup-insert k v ((j, w) ∷ m) = elim (Bool-cases (text_eq j k)) [
    | inl e ↦ rw (e, insert) (rw (e, lookup) refl)
    | inr e ↦ rw (e, insert) (rw (e, lookup) (lookup-insert k v m))
  ]

  pub lookup-insert_other :
      (k l : Text) (v : V) (m : List (Text × V)) → k ≢ l → lookup l (insert k v m) ≡ lookup l m
  unfolding lookup insert
  lookup-insert_other k l v [] n = rw (text_ne k l n) refl
  lookup-insert_other k l v ((j, w) ∷ m) n = elim (Bool-cases (text_eq j k)) [
    | inl e ↦
        let same = (text_eq_iff j k).0 e in rw (e, insert, lookup) (rw (same, text_ne k l n) refl)
    | inr e ↦ rw (e, insert, lookup) (rw (lookup-insert_other k l v m n) refl)
  ]

  pub lookup-erase : (k : Text) (m : List (Text × V)) → lookup k (erase k m) ≡ none
  unfolding lookup erase
  lookup-erase k [] = refl
  lookup-erase k ((j, w) ∷ m) = elim (Bool-cases (text_eq j k)) [
    | inl e ↦ rw (e, erase) (lookup-erase k m)
    | inr e ↦ rw (e, erase) (rw (e, lookup) (lookup-erase k m))
  ]

  pub lookup-erase_other :
      (k l : Text) (m : List (Text × V)) → k ≢ l → lookup l (erase k m) ≡ lookup l m
  unfolding lookup erase
  lookup-erase_other k l [] n = refl
  lookup-erase_other k l ((j, w) ∷ m) n = elim (Bool-cases (text_eq j k)) [
    | inl e ↦
        let same = (text_eq_iff j k).0 e in
        rw (e, erase) (rw (same, text_ne k l n) (lookup-erase_other k l m n))
    | inr e ↦ rw (e, erase, lookup) (rw (lookup-erase_other k l m n) refl)
  ]

  lookup-insert-none :
      (j k : Text) (v : V) (m : List (Text × V))
      → text_eq j k ≡ false
      → lookup j m ≡ none
      → lookup j (insert k v m) ≡ none
  lookup-insert-none j k v m e h =
      rw (lookup-insert_other k j v m (λ q. text_differ j k e (sym q))) h

  lookup-erase-none :
      (j k : Text) (m : List (Text × V)) → lookup j m ≡ none → lookup j (erase k m) ≡ none
  lookup-erase-none j k m h = elim (Bool-cases (text_eq k j)) [
    | inl e ↦ rw ((text_eq_iff k j).0 e) (lookup-erase j m)
    | inr e ↦ rw (lookup-erase_other k j m (text_differ k j e)) h
  ]

  pub insert-HasUniqueKeys :
      (k : Text) (v : V) (m : List (Text × V)) → HasUniqueKeys m → HasUniqueKeys (insert k v m)
  unfolding HasUniqueKeys insert
  insert-HasUniqueKeys k v [] h = unfold lookup in (refl, tt)
  insert-HasUniqueKeys k v ((j, w) ∷ m) (p, h) = elim (Bool-cases (text_eq j k)) [
    | inl e ↦ rw (e, insert) (p, h)
    | inr e ↦ rw (e, insert) (lookup-insert-none j k v m e p, insert-HasUniqueKeys k v m h)
  ]

  pub erase-HasUniqueKeys :
      (k : Text) (m : List (Text × V)) → HasUniqueKeys m → HasUniqueKeys (erase k m)
  unfolding HasUniqueKeys erase
  erase-HasUniqueKeys k [] h = tt
  erase-HasUniqueKeys k ((j, w) ∷ m) (p, h) = elim (Bool-cases (text_eq j k)) [
    | inl e ↦ rw (e, erase) (erase-HasUniqueKeys k m h)
    | inr e ↦ rw (e, erase) (lookup-erase-none j k m p, erase-HasUniqueKeys k m h)
  ]

  -- Dropping the entries whose value fails a test.
  pub lookup-select-none :
      (test : Text × V → Bool) (k : Text) (m : List (Text × V))
      → lookup k m ≡ none
      → lookup k (select test m) ≡ none
  unfolding lookup
  lookup-select-none test k [] h = refl
  lookup-select-none test k ((j, w) ∷ m) h = elim (Bool-cases (text_eq j k)) [
    | inl e ↦ absurd (cc (rw (e, lookup) at h))
    | inr e ↦ elim (Bool-cases (test (j, w))) [
      | inl t ↦ rw (t, e, lookup) (lookup-select-none test k m (rw (e, lookup) at h))
      | inr t ↦ rw t (lookup-select-none test k m (rw (e, lookup) at h))
    ]
  ]

  pub select-HasUniqueKeys :
      (test : Text × V → Bool) (m : List (Text × V))
      → HasUniqueKeys m
      → HasUniqueKeys (select test m)
  unfolding HasUniqueKeys
  select-HasUniqueKeys test [] h = tt
  select-HasUniqueKeys test ((j, w) ∷ m) (p, h) = elim (Bool-cases (test (j, w))) [
    | inl t ↦ rw t (lookup-select-none test j m p, select-HasUniqueKeys test m h)
    | inr t ↦ rw t (select-HasUniqueKeys test m h)
  ]

  pub lookup-select :
      (test : Text × V → Bool) (k : Text) (v : V) (m : List (Text × V))
      → HasUniqueKeys m
      → lookup k m ≡ some v
      → lookup k (select test m) ≡ (if test (k, v) then some v else none)
  unfolding lookup HasUniqueKeys
  lookup-select test k v [] u h = absurd (cc)
  lookup-select test k v ((j, w) ∷ m) (p, u) h = elim (Bool-cases (text_eq j k)) [
    | inl e ↦
        let same = (text_eq_iff j k).0 e in
        let value : some w ≡ some v = (rw (e, lookup) at h) in here same (cc (value)) e p
    | inr e ↦ elim (Bool-cases (test (j, w))) [
      | inl t ↦ rw (t) (rw (e, lookup) (lookup-select test k v m u (rw (e, lookup) at h)))
      | inr t ↦ rw t (lookup-select test k v m u (rw (e, lookup) at h))
    ]
  ]
    where
      here :
          j ≡ k
          → w ≡ v
          → text_eq j k ≡ true
          → lookup j m ≡ none
          → lookup k (select test ((j, w) ∷ m)) ≡ (if test (k, v) then some v else none)
      here same value e p = elim (Bool-cases (test (j, w))) [
        | inl t ↦ rw (t) (rw (← same, ← value, t) (rw (text_eq_refl j, lookup) refl))
        | inr t ↦ rw (t) (rw (← same, ← value, t) (lookup-select-none test j m p))
      ]
