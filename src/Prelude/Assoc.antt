-- ===== src/Prelude/Assoc.antt =====
-- `std::unordered_map` as an association list: `find`, `operator[] =`, `insert` and `erase`.
use mathlib.Core.Path.{◌≡◌, refl}
use mathlib.Core.Bool.{true}
use mathlib.Core.List.{List, [], ◌∷◌}
use mathlib.Core.Option.{Option, none, some}
use native.Mathlib.Omega.{arith}
use mathlib.Core.Logic.{◌≢◌, inl, inr}
use quick_chat.Prelude.Tests.{if◌then◌else◌, Bool-cases}
use quick_chat.Prelude.Classes.{Eq}

-- An insertion of a new key leaves an entry that is there alone.
abbrev pub or_new {ℓ} : {V : Type ℓ} → V → Option V → V
or_new v none = v
or_new v (some w) = w

module _ {ℓ κ} {K : Type ℓ} {V : Type κ} ⦃e : Eq K⦄ where
  unfoldable pub lookup : K → List (K × V) → Option V
  lookup k [] = none
  lookup k ((j, v) ∷ m) = if e.beq j k then some v else lookup k m

  -- `m[k] = v`
  unfoldable pub insert : K → V → List (K × V) → List (K × V)
  insert k v [] = (k, v) ∷ []
  insert k v ((j, w) ∷ m) = if e.beq j k then (k, v) ∷ m else (j, w) ∷ insert k v m

  -- `m.insert(std::make_pair(k, v))` leaves an entry that is there.
  unfoldable pub insert_new : K → V → List (K × V) → List (K × V)
  insert_new k v [] = (k, v) ∷ []
  insert_new k v ((j, w) ∷ m) = if e.beq j k then (j, w) ∷ m else (j, w) ∷ insert_new k v m

  pub erase : K → List (K × V) → List (K × V)
  erase k [] = []
  erase k ((j, v) ∷ m) = let rest = erase k m in if e.beq j k then rest else (j, v) ∷ rest

  pub lookup-insert :
      (k j : K) (v : V) (m : List (K × V))
      → lookup j (insert k v m) ≡ (if e.beq k j then some v else lookup j m)
  unfolding lookup insert
  lookup-insert k j v [] = refl
  lookup-insert k j v ((i, w) ∷ m) =
      ground (arith, e.beq_iff k j, e.beq_iff i k, e.beq_iff i j, lookup-insert k j v m)

  pub lookup-erase :
      (k j : K) (m : List (K × V)) → lookup j (erase k m) ≡ (if e.beq k j then none else lookup j m)
  unfolding lookup erase
  lookup-erase k j [] = ground arith
  lookup-erase k j ((i, w) ∷ m) =
      ground (arith, e.beq_iff k j, e.beq_iff i k, e.beq_iff i j, lookup-erase k j m)

  pub lookup-insert_new :
      (k j : K) (v w : V) (m : List (K × V))
      → lookup j m ≡ some w
      → lookup j (insert_new k v m) ≡ some w
  unfolding lookup insert_new
  lookup-insert_new k j v w [] h = cc
  lookup-insert_new k j v w ((i, x) ∷ m) h =
      ground (arith, e.beq_iff k j, e.beq_iff i k, e.beq_iff i j, lookup-insert_new k j v w m)

  pub lookup-insert_new_other :
      (k j : K) (v : V) (m : List (K × V)) → k ≢ j → lookup j (insert_new k v m) ≡ lookup j m
  unfolding lookup insert_new
  lookup-insert_new_other k j v [] h = ground (arith, e.beq_iff k j)
  lookup-insert_new_other k j v ((i, x) ∷ m) h =
      ground (arith, e.beq_iff k j, e.beq_iff i k, e.beq_iff i j, lookup-insert_new_other k j v m h)

  pub insert_new_found :
      (k : K) (v : V) (m : List (K × V)) → (w : V) × (lookup k (insert_new k v m) ≡ some w)
  unfolding lookup insert_new
  insert_new_found k v [] = (v, ground (arith, e.beq_iff k k))
  insert_new_found k v ((i, x) ∷ m) =
      let (w, found) = insert_new_found k v m in
      elim (Bool-cases (e.beq i k)) [
        | inl h ↦ (x, rw h (rw h refl))
        | inr h ↦ (w, rw h (rw h found))
      ]

  pub lookup-insert_new_cases :
      (k j : K) (v : V) (m : List (K × V))
      → lookup j (insert_new k v m)
        ≡ (if e.beq k j then some (or_new v (lookup j m)) else lookup j m)
  unfolding lookup insert_new
  lookup-insert_new_cases k j v [] = ground (arith, e.beq_iff k j)
  lookup-insert_new_cases k j v ((i, x) ∷ m) =
      ground (arith, e.beq_iff k j, e.beq_iff i k, e.beq_iff i j, lookup-insert_new_cases k j v m)

beq_self {ℓ} : {K : Type ℓ} ⦃e : Eq K⦄ (k : K) → e.beq k k ≡ true
beq_self ⦃e⦄ k = (e.beq_iff k k).1 refl
