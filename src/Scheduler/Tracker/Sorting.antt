-- ===== src/Scheduler/Tracker/Sorting.antt =====
-- That the sort of the adaptive strategy sorts (sort.SliceStable in RankCandidates).
use mathlib.Core.List.{Perm}
use mathlib.Core.List.Perm
use oh_my_api.Base.{
  ◌*◌, ◌<◌, ◌==◌, ◌⊎◌, ◌≡◌, refl, inl, inr, true, false, List, [], ◌∷◌, arith, Bool-cases, Text,
  Some,
}
use oh_my_api.Scheduler.Tracker.{
  CandidateScore, text_before, score_before, insert_sorted, sort_scores,
}

pub insert_sorted-Perm :
    (a : CandidateScore) (bs : List CandidateScore) → Perm (insert_sorted a bs) (a ∷ bs)
unfolding insert_sorted
insert_sorted-Perm a [] = Perm.refl (a ∷ [])
insert_sorted-Perm a (b ∷ bs) = elim (Bool-cases (score_before b a)) [
  | inl e ↦ rw e (Perm.trans (Perm.cons b (insert_sorted-Perm a bs)) (Perm.swap a b bs))
  | inr e ↦ rw e (Perm.refl (a ∷ b ∷ bs))
]

pub sort_scores-Perm : (xs : List CandidateScore) → Perm (sort_scores xs) xs
unfolding sort_scores
sort_scores-Perm [] = Perm.refl []
sort_scores-Perm (a ∷ rest) =
    Perm.trans (insert_sorted-Perm a (sort_scores rest)) (Perm.cons a (sort_scores-Perm rest))

pub text_before-asym : (s t : Text) → text_before s t ≡ true → text_before t s ≡ false
unfolding text_before
text_before-asym s [] h = cc
text_before-asym [] (c ∷ t) h = refl
text_before-asym (b ∷ s) (c ∷ t) h = ground (arith, h, text_before-asym s t)

pub score_before-asym : (a b : CandidateScore) → score_before a b ≡ true → score_before b a ≡ false
unfolding score_before
score_before-asym a b h = ground (arith, h, text_before-asym a.stats.key b.stats.key)

-- A text that is another, or stands before it in a dictionary of bytes.
abbrev pub LexLe : Text → Text → Type 0
LexLe [] t = Unit
LexLe (b ∷ s) [] = ⊥
LexLe (b ∷ s) (c ∷ t) = (b < c) ⊎ ((b ≡ c) × LexLe s t)

-- A lower score, or the same one and a key that is not later. A score is a fraction.
abbrev pub Precedes : CandidateScore → CandidateScore → Type 0
Precedes a b =
    let x = a.score.numerator * b.score.denominator in
    let y = b.score.numerator * a.score.denominator in
    (x < y) ⊎ ((x ≡ y) × LexLe a.stats.key b.stats.key)

-- Every score precedes the one directly behind it.
abbrev pub InOrder : List CandidateScore → Type 0
InOrder [] = Unit
InOrder (a ∷ []) = Unit
InOrder (a ∷ b ∷ bs) = Precedes a b × InOrder (b ∷ bs)

text_before-LexLe : (s t : Text) → text_before s t ≡ false → LexLe t s
unfolding text_before
text_before-LexLe s [] h = tt
text_before-LexLe [] (c ∷ t) h = cc
text_before-LexLe (b ∷ s) (c ∷ t) h = elim (Bool-cases (b == c)) [
  | inl e ↦ inr (ground (arith, e), text_before-LexLe s t (rw e at h))
  | inr e ↦ inl (ground (arith, e, h))
]

score_before-Precedes : (a b : CandidateScore) → score_before a b ≡ false → Precedes b a
unfolding score_before
score_before-Precedes a b h =
    let x = a.score.numerator * b.score.denominator in
    let y = b.score.numerator * a.score.denominator in
    elim (Bool-cases (x == y)) [
      | inl e ↦ inr (ground (arith, e), text_before-LexLe a.stats.key b.stats.key (rw e at h))
      | inr e ↦ inl (ground (arith, e, h))
    ]

-- No score comes before the one that stands in front of it.
abbrev pub IsSorted : List CandidateScore → Type 0
IsSorted [] = Unit
IsSorted (a ∷ []) = Unit
IsSorted (a ∷ b ∷ bs) = (score_before b a ≡ false) × IsSorted (b ∷ bs)

-- A score in front of a sorted list.
abbrev pub Fronts : CandidateScore → List CandidateScore → Type 0
Fronts b [] = Unit
Fronts b (a ∷ rest) = score_before a b ≡ false

pub fronted-IsSorted :
    (b : CandidateScore) (xs : List CandidateScore) → Fronts b xs → IsSorted xs → IsSorted (b ∷ xs)
fronted-IsSorted b [] f s = tt
fronted-IsSorted b (a ∷ xs) f s = (f, s)

pub tail-IsSorted :
    (b : CandidateScore) (xs : List CandidateScore) → IsSorted (b ∷ xs) → IsSorted xs
tail-IsSorted b [] s = tt
tail-IsSorted b (a ∷ xs) s = s.1

pub insert_sorted-Fronts :
    (a b : CandidateScore) (bs : List CandidateScore)
    → score_before b a ≡ true
    → IsSorted (b ∷ bs)
    → Fronts b (insert_sorted a bs)
unfolding insert_sorted
insert_sorted-Fronts a b [] h s = score_before-asym b a h
insert_sorted-Fronts a b (c ∷ bs) h s = elim (Bool-cases (score_before c a)) [
  | inl e ↦ rw e s.0
  | inr e ↦ rw e (score_before-asym b a h)
]

pub insert_sorted-IsSorted :
    (a : CandidateScore) (bs : List CandidateScore) → IsSorted bs → IsSorted (insert_sorted a bs)
unfolding insert_sorted
insert_sorted-IsSorted a [] s = tt
insert_sorted-IsSorted a (b ∷ bs) s = elim (Bool-cases (score_before b a)) [
  | inl e ↦ rw e (
      fronted-IsSorted b (insert_sorted a bs) (insert_sorted-Fronts a b bs e s)
        (insert_sorted-IsSorted a bs (tail-IsSorted b bs s)))
  | inr e ↦ rw e (e, s)
]

pub sort_scores-IsSorted : (xs : List CandidateScore) → IsSorted (sort_scores xs)
unfolding sort_scores
sort_scores-IsSorted [] = tt
sort_scores-IsSorted (a ∷ rest) =
    insert_sorted-IsSorted a (sort_scores rest) (sort_scores-IsSorted rest)

IsSorted-InOrder : (xs : List CandidateScore) → IsSorted xs → InOrder xs
IsSorted-InOrder [] s = tt
IsSorted-InOrder (a ∷ []) s = tt
IsSorted-InOrder (a ∷ b ∷ bs) s = (score_before-Precedes b a s.0, IsSorted-InOrder (b ∷ bs) s.1)

pub sort_scores-InOrder : (xs : List CandidateScore) → InOrder (sort_scores xs)
sort_scores-InOrder xs = IsSorted-InOrder (sort_scores xs) (sort_scores-IsSorted xs)

module _ (P : CandidateScore → Type 0) where
  pub insert_sorted-Some :
      (a : CandidateScore) (bs : List CandidateScore)
      → Some P (a ∷ bs)
      → Some P (insert_sorted a bs)
  unfolding insert_sorted
  insert_sorted-Some a [] s = s
  insert_sorted-Some a (b ∷ bs) s = elim (Bool-cases (score_before b a)) [
    | inl e ↦ rw e (elim s [
      | inl p ↦ inr (insert_sorted-Some a bs (inl p))
      | inr r ↦ elim r [ inl p ↦ inl p | inr q ↦ inr (insert_sorted-Some a bs (inr q)) ]
    ])
    | inr e ↦ rw e s
  ]

  pub sort_scores-Some : (xs : List CandidateScore) → Some P xs → Some P (sort_scores xs)
  unfolding sort_scores
  sort_scores-Some [] s = s
  sort_scores-Some (a ∷ rest) (inl p) = insert_sorted-Some a (sort_scores rest) (inl p)
  sort_scores-Some (a ∷ rest) (inr s) =
      insert_sorted-Some a (sort_scores rest) (inr (sort_scores-Some rest s))
