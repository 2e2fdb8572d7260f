-- ===== src/Config/Rules/Normalize/Distinct.antt =====
-- The effort levels that normalizeReasoningEffortSlice leaves.
use oh_my_api.Base.{
  ℕ, ◌≡◌, ◌≢◌, ◌⊎◌, refl, subst, All-map, inl, inr, true, false, none, some, List, [], ◌∷◌, arith,
  any, All, Some, Text, text_eq, text_eq_iff, trim_space, Bool-cases,
}
use oh_my_api.Config.Rules.Normalize.{
  lower_trimmed, kept_effort, normalize_effort_from, normalize_reasoning_effort_slice,
}

-- No text occurs twice.
abbrev pub AreDistinct : List Text → Type 0
AreDistinct [] = Unit {0}
AreDistinct (x ∷ xs) = All (λ y. y ≢ x) xs × AreDistinct xs

-- Not one of `seen`.
abbrev IsFresh : List Text → Text → Type 0
IsFresh seen x = All (λ y. x ≢ y) seen

any-IsFresh : (t : Text) (seen : List Text) → any (λ y. text_eq y t) seen ≡ false → IsFresh seen t
any-IsFresh t [] h = tt
any-IsFresh t (y ∷ ys) h = (ground (arith, text_eq_iff y t), any-IsFresh t ys (ground arith))

any-Some :
    (t : Text) (seen : List Text) → any (λ y. text_eq y t) seen ≡ true → Some (λ y. y ≡ t) seen
any-Some t [] h = cc
any-Some t (y ∷ ys) h = elim (Bool-cases (text_eq y t)) [
  | inl e ↦ inl ((text_eq_iff y t).0 e)
  | inr e ↦ inr (any-Some t ys (ground arith))
]

All-at : (P : Text → Type 0) (xs : List Text) (x : Text) → All P xs → Some (λ y. y ≡ x) xs → P x
All-at P [] x h k = absurd k
All-at P (y ∷ ys) x h (inl k) = subst P k h.0
All-at P (y ∷ ys) x h (inr k) = All-at P ys x h.1 k

-- `x` is the standard spelling of a text of the list that is not blank.
abbrev pub IsSpelling : (ℕ → ℕ) → List Text → Text → Type 0
IsSpelling table ss x = Some (λ s. (trim_space s ≢ []) × (lower_trimmed table s ≡ x)) ss

module _ (table : ℕ → ℕ) where
  -- What becomes of one element.
  data Fate (seen : List Text) (s : Text) : Type 0 where
    blank : kept_effort table seen s ≡ none → trim_space s ≡ [] → Fate seen s
    repeated :
        kept_effort table seen s ≡ none
        → trim_space s ≢ []
        → Some (λ y. y ≡ lower_trimmed table s) seen
        → Fate seen s
    stays :
        kept_effort table seen s ≡ some (lower_trimmed table s)
        → trim_space s ≢ []
        → IsFresh seen (lower_trimmed table s)
        → Fate seen s

  fate : (seen : List Text) (s : Text) → Fate seen s
  unfolding kept_effort
  fate seen s = elim (Bool-cases (text_eq (trim_space s) [])) [
    | inl e ↦ blank (rw e refl) ((text_eq_iff (trim_space s) []).0 e)
    | inr e ↦
        let filled : trim_space s ≢ [] = λ h. ground (arith, text_eq_iff (trim_space s) []) in
        elim (Bool-cases (any (λ t. text_eq t (lower_trimmed table s)) seen)) [
          | inl f ↦ repeated (rw (e, f) refl) filled (any-Some (lower_trimmed table s) seen f)
          | inr f ↦ stays (rw (e, f) refl) filled (any-IsFresh (lower_trimmed table s) seen f)
        ]
  ]

  from-IsFresh :
      (seen ss : List Text) → All (IsFresh seen) (normalize_effort_from table seen ss).value
  unfolding normalize_effort_from
  from-IsFresh seen [] = tt
  from-IsFresh seen (s ∷ ss) = elim (fate seen s) [
    | blank e _ ↦ rw (e, normalize_effort_from) (from-IsFresh seen ss)
    | repeated e _ _ ↦ rw (e, normalize_effort_from) (from-IsFresh seen ss)
    | stays e _ fresh ↦
        rw (e, normalize_effort_from)
          (fresh, All-map (λ x h. h.1) _ (from-IsFresh (lower_trimmed table s ∷ seen) ss))
  ]

  from-AreDistinct : (seen ss : List Text) → AreDistinct (normalize_effort_from table seen ss).value
  unfolding normalize_effort_from
  from-AreDistinct seen [] = tt
  from-AreDistinct seen (s ∷ ss) = elim (fate seen s) [
    | blank e _ ↦ rw (e, normalize_effort_from) (from-AreDistinct seen ss)
    | repeated e _ _ ↦ rw (e, normalize_effort_from) (from-AreDistinct seen ss)
    | stays e _ fresh ↦
        let more = lower_trimmed table s ∷ seen in
        rw (e, normalize_effort_from)
          (All-map (λ x h. h.0) _ (from-IsFresh more ss), from-AreDistinct more ss)
  ]

  from-IsSpelling :
      (seen ss : List Text) → All (IsSpelling table ss) (normalize_effort_from table seen ss).value
  unfolding normalize_effort_from
  from-IsSpelling seen [] = tt
  from-IsSpelling seen (s ∷ ss) = elim (fate seen s) [
    | blank e _ ↦ rw (e, normalize_effort_from) (All-map (λ x h. inr h) _ (from-IsSpelling seen ss))
    | repeated e _ _ ↦
        rw (e, normalize_effort_from) (All-map (λ x h. inr h) _ (from-IsSpelling seen ss))
    | stays e filled fresh ↦
        rw (e, normalize_effort_from)
          (
            inl (filled, refl),
            All-map (λ x h. inr h) _ (from-IsSpelling (lower_trimmed table s ∷ seen) ss),
          )
  ]

  from-keeps :
      (seen ss : List Text) (x : Text)
      → IsSpelling table ss x
      → Some (λ y. y ≡ x) seen ⊎ Some (λ y. y ≡ x) (normalize_effort_from table seen ss).value
  unfolding normalize_effort_from
  from-keeps seen [] x h = absurd h
  from-keeps seen (s ∷ ss) x h = elim (fate seen s) [
    | blank e empty ↦ elim h [
      | inl here ↦ absurd (here.0 empty)
      | inr later ↦ rw (e, normalize_effort_from) (from-keeps seen ss x later)
    ]
    | repeated e _ old ↦ elim h [
      | inl here ↦ inl (subst (λ t. Some (λ y. y ≡ t) seen) here.1 old)
      | inr later ↦ rw (e, normalize_effort_from) (from-keeps seen ss x later)
    ]
    | stays e _ _ ↦ elim h [
      | inl here ↦ rw (e, normalize_effort_from) (inr (inl here.1))
      | inr later ↦ elim (from-keeps (lower_trimmed table s ∷ seen) ss x later) [
        | inl (inl new) ↦ rw (e, normalize_effort_from) (inr (inl new))
        | inl (inr old) ↦ inl old
        | inr found ↦ rw (e, normalize_effort_from) (inr (inr found))
      ]
    ]
  ]

-- The normalised effort levels are the trimmed lower-case spellings of the levels given that are
-- not blank: each of these once, and nothing else.
pub normalize_reasoning_effort_slice-AreDistinct :
    (table : ℕ → ℕ) (slice : List Text)
    → let levels = (normalize_reasoning_effort_slice table slice).value in
      AreDistinct levels
      × ((x : Text)
          → (IsSpelling table slice x → Some (λ y. y ≡ x) levels)
            × (Some (λ y. y ≡ x) levels → IsSpelling table slice x))
normalize_reasoning_effort_slice-AreDistinct table slice = (
  from-AreDistinct table [] slice,
  (λ x. (
    (λ h. elim (from-keeps table [] slice x h) [ inl none_seen ↦ absurd none_seen | inr k ↦ k ]),
    All-at (IsSpelling table slice) _ x (from-IsSpelling table [] slice),
  )),
)
