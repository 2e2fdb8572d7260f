-- ===== src/Scheduler/Sticky/Pruning.antt =====
-- What pruning and the map operations leave of the records of a sticky store.
use oh_my_api.Base.{
  ℕ, ◌≤◌, ◌≡◌, refl, subst, ◌∙◌, ap, inl, inr, true, Option, none, some, [], ◌∷◌, arith, ltb,
  if◌then◌else◌, Text, text_eq, text_eq_iff, Bool-cases, Map, lookup, insert, delete, lookup-insert,
  lookup-delete,
}
use oh_my_api.Scheduler.Sticky.{StickyRecord, StickyStore, drop_expired, prune_expired}

-- What a record says at a moment.
abbrev pub live : Option StickyRecord → ℕ → Option Text
live none now = none
live (some r) now = if ltb now r.expires_at then some r.candidate else none

-- The keys of a Go map, each once.
abbrev pub HasOnce : Map StickyRecord → Type 0
HasOnce [] = Unit
HasOnce ((k, r) ∷ m) = (lookup k m ≡ none) × HasOnce m

-- The candidate that a key sticks to at a moment.
unfoldable pub sticks : StickyStore → Text → ℕ → Option Text
sticks s affinity now = live (lookup affinity s.stickies) now

abbrev unless_expired : ℕ → Option StickyRecord → Option StickyRecord
unless_expired now none = none
unless_expired now (some r) = if ltb now r.expires_at then some r else none

once_only :
    (k a : Text) (m : Map StickyRecord) → lookup k m ≡ none → text_eq k a ≡ true → lookup a m ≡ none
once_only k a m h e = subst (λ x. lookup x m ≡ none) ((text_eq_iff k a).0 e) h

lookup-drop_expired :
    (now : ℕ) (a : Text) (m : Map StickyRecord)
    → HasOnce m
    → lookup a (drop_expired now m) ≡ unless_expired now (lookup a m)
unfolding lookup drop_expired
lookup-drop_expired now a [] h = refl
lookup-drop_expired now a ((k, r) ∷ m) h =
    let other = once_only k a m h.0 in ground (arith, other, lookup-drop_expired now a m h.1)

drop_expired-none :
    (now : ℕ) (k : Text) (m : Map StickyRecord)
    → HasOnce m
    → lookup k m ≡ none
    → lookup k (drop_expired now m) ≡ none
drop_expired-none now k m h e = lookup-drop_expired now k m h ∙ ap (unless_expired now) e

drop_expired-HasOnce : (now : ℕ) (m : Map StickyRecord) → HasOnce m → HasOnce (drop_expired now m)
unfolding drop_expired
drop_expired-HasOnce now [] h = tt
drop_expired-HasOnce now ((k, r) ∷ m) h = elim (Bool-cases (ltb now r.expires_at)) [
  | inl l ↦ rw (l, drop_expired) (drop_expired-none now k m h.1 h.0, drop_expired-HasOnce now m h.1)
  | inr l ↦ rw (l, drop_expired) (drop_expired-HasOnce now m h.1)
]

pub insert-HasOnce :
    (a : Text) (v : StickyRecord) (m : Map StickyRecord) → HasOnce m → HasOnce (insert a v m)
unfolding insert lookup
insert-HasOnce a v [] h = (refl, tt)
insert-HasOnce a v ((k, r) ∷ m) h = elim (Bool-cases (text_eq k a)) [
  | inl e ↦ rw (e, insert) (once_only k a m h.0 e, h.1)
  | inr e ↦
      let n : lookup k (insert a v m) ≡ none =
        ground (arith, lookup-insert a k v m, h.0, text_eq_iff k a, text_eq_iff a k) in
      rw (e, insert) (n, insert-HasOnce a v m h.1)
]

pub delete-HasOnce : (a : Text) (m : Map StickyRecord) → HasOnce m → HasOnce (delete a m)
unfolding delete
delete-HasOnce a [] h = tt
delete-HasOnce a ((k, r) ∷ m) h = elim (Bool-cases (text_eq k a)) [
  | inl e ↦ rw (e, delete) (delete-HasOnce a m h.1)
  | inr e ↦
      let n : lookup k (delete a m) ≡ none = ground (arith, lookup-delete a k m, h.0) in
      rw (e, delete) (n, delete-HasOnce a m h.1)
]

-- Pruning changes nothing that a later moment sees.
live-unless_expired :
    (now later : ℕ) (o : Option StickyRecord)
    → now ≤ later
    → live (unless_expired now o) later ≡ live o later
live-unless_expired now later none le = refl
live-unless_expired now later (some r) le = ground arith

pub prune_expired-sticks :
    (now later : ℕ) (a : Text) (s : StickyStore)
    → HasOnce s.stickies
    → now ≤ later
    → sticks (prune_expired now s) a later ≡ sticks s a later
unfolding sticks prune_expired
prune_expired-sticks now later a s h le = ground (
  arith,
  lookup-drop_expired now a s.stickies h,
  live-unless_expired now later (lookup a s.stickies) le,
)

pub prune_expired-HasOnce :
    (now : ℕ) (s : StickyStore) → HasOnce s.stickies → HasOnce (prune_expired now s).stickies
unfolding prune_expired
prune_expired-HasOnce now s h = ground (arith, drop_expired-HasOnce now s.stickies h)
