-- ===== src/Signal/X3dh/Texts.antt =====
-- The parts of an opening message that `strings.Split` gives.
use dsignal.Base.{
  ℕ, ◌==◌, ◌≡◌, ◌≢◌, refl, ap, Option, none, some, List, [], ◌∷◌, ◌++◌, GoString, get_elem?,
  if◌then◌else◌, arith,
}
use dsignal.Signal.X3dh.{colon, push, split_colon, opening}

-- A name without a colon.
abbrev pub NoColon : GoString → Type 0
NoColon [] = Unit
NoColon (c ∷ s) = (c ≢ colon) × NoColon s

-- What `strings.Split` leaves of a text as its first part.
unfoldable pub before_colon : GoString → GoString
before_colon [] = []
before_colon (c ∷ s) = let rest = before_colon s in if c == colon then [] else c ∷ rest

split_colon-append :
    (name rest : GoString)
    → NoColon name
    → split_colon (name ++ (colon ∷ rest)) ≡ name ∷ split_colon rest
unfolding split_colon
split_colon-append [] rest h = refl
split_colon-append (c ∷ name) rest (h, hs) = ground (arith, split_colon-append name rest hs)

push-first :
    (c : ℕ) (w : GoString) (ws : List GoString)
    → get_elem? ws 0 ≡ some w
    → get_elem? (push c ws) 0 ≡ some (c ∷ w)
push-first c w [] e = cc
push-first c w (v ∷ ws) e =
    ap (λ (o : Option GoString). elim o [ none ↦ none | some u ↦ some (c ∷ u) ]) e

split_colon-before_colon :
    (text : GoString) → get_elem? (split_colon text) 0 ≡ some (before_colon text)
unfolding split_colon before_colon
split_colon-before_colon [] = refl
split_colon-before_colon (c ∷ text) =
    ground
      (arith, push-first c (before_colon text) (split_colon text) (split_colon-before_colon text))

append_assoc : (a b c : GoString) → a ++ b ++ c ≡ a ++ (b ++ c)
append_assoc [] b c = refl
append_assoc (x ∷ a) b c = ap (◌∷◌ x) (append_assoc a b c)

-- A name without a colon is the only part.
split_colon-NoColon : (name : GoString) → NoColon name → get_elem? (split_colon name) 0 ≡ some name
unfolding split_colon
split_colon-NoColon [] h = refl
split_colon-NoColon (c ∷ name) (h, hs) =
    ground (arith, push-first c name (split_colon name) (split_colon-NoColon name hs))

module _ (sender receiver : GoString) (plain : NoColon sender) (plain' : NoColon receiver) where
  pub opening_names :
      (get_elem? (split_colon (opening sender receiver none)) 0 ≡ some sender)
      × (get_elem? (split_colon (opening sender receiver none)) 1 ≡ some receiver)
  opening_names =
      rw (split_colon-append sender receiver plain) (refl, split_colon-NoColon receiver plain')

  pub opening_message :
      (message : GoString)
      → (get_elem? (split_colon (opening sender receiver (some message))) 0 ≡ some sender)
        × (get_elem? (split_colon (opening sender receiver (some message))) 2
            ≡ some (before_colon message))
  opening_message message =
      rw
        (
          append_assoc sender (colon ∷ receiver) (colon ∷ message),
          split_colon-append sender (receiver ++ (colon ∷ message)) plain,
          split_colon-append receiver message plain',
        )
        (refl, split_colon-before_colon message)
