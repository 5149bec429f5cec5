-- ===== src/Base/Dict.antt =====
-- A Go `map` as an association list. A Go map has no order, so a loop over one runs in the order
-- of a list that is arbitrary: what holds for every list holds for every order.
use Prim.Native.Nat.{ℕ, zero, suc, ◌+◌, ◌≤◌, ◌<◌}
use mathlib.Core.Path.{◌≡◌, refl, sym, ◌∙◌}
use mathlib.Core.Logic.{◌≢◌, ite, if_pos, if_neg, inl, inr}
use mathlib.Core.List.{List, [], ◌∷◌}
use mathlib.Core.Option.{Option, none, some}
use native.Mathlib.Omega.{arith}
use dsignal.Base.Lists.{length}
use dsignal.Base.Tests.{Option-cases}

abbrev pub Dict {ℓ} : Type ℓ → Type ℓ → Type ℓ
Dict K V = List (K × V)

module _ {ℓ} {K V : Type ℓ} (dec : Discrete K) where
  unfoldable pub lookup : K → Dict K V → Option V
  lookup k [] = none
  lookup k ((j, v) ∷ m) = ite (dec j k) (some v) (lookup k m)

  -- `m[k] = v`
  unfoldable pub insert : K → V → Dict K V → Dict K V
  insert k v [] = (k, v) ∷ []
  insert k v ((j, w) ∷ m) = ite (dec j k) ((k, v) ∷ m) ((j, w) ∷ insert k v m)

  -- `delete(m, k)`
  unfoldable pub delete : K → Dict K V → Dict K V
  delete k [] = []
  delete k ((j, w) ∷ m) = ite (dec j k) (delete k m) ((j, w) ∷ delete k m)

  pub lookup-nil : (k : K) → lookup k (let m : Dict K V = [] in m) ≡ none
  unfolding lookup
  lookup-nil k = refl

  pub lookup-insert :
      (k j : K) (v : V) (m : Dict K V)
      → lookup j (insert k v m) ≡ ite (dec k j) (some v) (lookup j m)
  unfolding lookup insert
  lookup-insert k j v [] = refl
  lookup-insert k j v ((i, w) ∷ m) = ground (arith, lookup-insert k j v m)

  pub lookup-insert_self : (k : K) (v : V) (m : Dict K V) → lookup k (insert k v m) ≡ some v
  lookup-insert_self k v m = ground (arith, lookup-insert k k v m)

  pub lookup-insert_ne :
      (k j : K) (v : V) (m : Dict K V) → k ≢ j → lookup j (insert k v m) ≡ lookup j m
  lookup-insert_ne k j v m h = ground (arith, lookup-insert k j v m)

  pub lookup-delete :
      (k j : K) (m : Dict K V) → lookup j (delete k m) ≡ ite (dec k j) none (lookup j m)
  unfolding lookup delete
  lookup-delete k j [] = ground arith
  lookup-delete k j ((i, w) ∷ m) = ground (arith, lookup-delete k j m)

  pub lookup-delete_self : (k : K) (m : Dict K V) → lookup k (delete k m) ≡ none
  lookup-delete_self k m = ground (arith, lookup-delete k k m)

  pub lookup-delete_ne : (k j : K) (m : Dict K V) → k ≢ j → lookup j (delete k m) ≡ lookup j m
  lookup-delete_ne k j m h = ground (arith, lookup-delete k j m)

  -- No key stands twice.
  abbrev pub DistinctKeys : Dict K V → Type ℓ
  DistinctKeys [] = Unit
  DistinctKeys ((k, v) ∷ m) = (lookup k m ≡ none) × DistinctKeys m

  pub insert-DistinctKeys :
      (k : K) (v : V) (m : Dict K V) → DistinctKeys m → DistinctKeys (insert k v m)
  unfolding insert lookup
  insert-DistinctKeys k v [] d = (refl, tt)
  insert-DistinctKeys k v ((j, w) ∷ m) (fresh, d) = elim (dec j k) [
    | yes e ↦ rw (if_pos (dec j k) e) (rw (← e) fresh, d)
    | no ne ↦
        rw (if_neg (dec j k) ne)
          (rw (lookup-insert_ne k j v m (λ e. ne (sym e))) fresh, insert-DistinctKeys k v m d)
  ]

  pub length-insert_fresh :
      (k : K) (v : V) (m : Dict K V) → lookup k m ≡ none → length (insert k v m) ≡ suc (length m)
  unfolding lookup insert
  length-insert_fresh k v [] h = refl
  length-insert_fresh k v ((j, w) ∷ m) h = ground (arith, length-insert_fresh k v m)

  pub length-insert-le : (k : K) (v : V) (m : Dict K V) → length m ≤ length (insert k v m)
  unfolding insert
  length-insert-le k v [] = omega arith
  length-insert-le k v ((j, w) ∷ m) = ground (arith, length-insert-le k v m)

  pub length-delete-le : (k : K) (m : Dict K V) → length (delete k m) ≤ length m
  unfolding delete
  length-delete-le k [] = omega arith
  length-delete-le k ((j, w) ∷ m) = ground (arith, length-delete-le k m)

  pub length-delete-lt :
      (k : K) (v : V) (m : Dict K V) → lookup k m ≡ some v → length (delete k m) < length m
  unfolding lookup delete
  length-delete-lt k v [] h = absurd (ground arith)
  length-delete-lt k v ((j, w) ∷ m) h = ground (arith, length-delete-le k m, length-delete-lt k v m)

-- A run of keys that are all present is no longer than the map.
pub run-le-length :
    {V : Type 0} (dec : Discrete ℕ) (k m : ℕ) (d : Dict ℕ V)
    → ((i : ℕ) → i < k → lookup dec (m + i) d ≢ none)
    → k ≤ length d
run-le-length dec zero m d h = omega arith
run-le-length dec (suc k) m d h = elim (Option-cases (lookup dec (m + k) d)) [
  | inl miss ↦ absurd (h k (omega arith) miss)
  | inr (v, hit) ↦
      let rest : k ≤ length (delete dec (m + k) d) =
        run-le-length dec k m (delete dec (m + k) d) (λ i lt e. h i (omega arith) (
          sym (
            lookup-delete dec (m + k) (m + i) d
            ∙ if_neg (dec (m + k) (m + i)) (λ (p : m + k ≡ m + i). absurd (omega arith)) _ _)
          ∙ e)) in
      omega (arith, length-delete-lt dec (m + k) v d hit)
]
