-- ===== src/Scheduler/Sticky/Affinity.antt =====
-- How long a key sticks to a candidate.
use oh_my_api.Base.{
  ℕ, ◌+◌, ◌≤◌, ◌<◌, ◌≡◌, ◌≢◌, refl, sym, subst, ◌∙◌, ap, inl, inr, true, false, Option, none, some,
  List, [], ◌∷◌, arith, ltb, if◌then◌else◌, Text, text_eq, text_eq_iff, text_eq_refl, any,
  Option-cases, Bool-cases, Map, lookup, insert, delete, lookup-insert, lookup-delete, ℤ,
}
use oh_my_api.Scheduler.Sticky.{
  StickyRecord, StickyStore, prune_expired, look_up, remember, affinity_key, pick_sticky_or_deficit,
  record_sticky_success, incr_success,
}
use oh_my_api.Scheduler.Sticky.Pruning.{
  live, HasOnce, sticks, prune_expired-sticks, prune_expired-HasOnce, insert-HasOnce,
  delete-HasOnce,
}

insert-sticks :
    (a b : Text) (r : StickyRecord) (later : ℕ) (p : StickyStore)
    → sticks (record p { stickies = insert a r p.stickies }) b later
      ≡ (if text_eq a b then live (some r) later else sticks p b later)
unfolding sticks
insert-sticks a b r later p = ground (arith, lookup-insert a b r p.stickies)

-- A record that is out at a moment is missed at no later one.
delete-sticks :
    (a b : Text) (r : StickyRecord) (now later : ℕ) (p : StickyStore)
    → lookup a p.stickies ≡ some r
    → ltb now r.expires_at ≡ false
    → now ≤ later
    → sticks (record p { stickies = delete a p.stickies }) b later ≡ sticks p b later
unfolding sticks
delete-sticks a b r now later p e l le = elim (Bool-cases (text_eq a b)) [
  | inr k ↦
      let same : lookup b (delete a p.stickies) ≡ lookup b p.stickies =
        ground (arith, lookup-delete a b p.stickies, k) in
      ap (λ o. live o later) same
  | inl k ↦
      let here = subst (λ x. lookup x p.stickies ≡ some r) ((text_eq_iff a b).0 k) e in
      let gone : lookup b (delete a p.stickies) ≡ none =
        ground (arith, lookup-delete a b p.stickies, k) in
      ground (arith, here, gone)
]

sticks-at :
    (a : Text) (now : ℕ) (p : StickyStore) (o : Option StickyRecord)
    → lookup a p.stickies ≡ o
    → sticks p a now ≡ live o now
unfolding sticks
sticks-at a now p o e = ap (λ x. live x now) e

abbrev Looked : Text → Text → ℕ → ℕ → StickyStore → Option Text × StickyStore → Type 0
Looked a b now later p (found, s') =
    (found ≡ sticks p a now) × (sticks s' b later ≡ sticks p b later) × HasOnce s'.stickies

look_up-Looked :
    (a b : Text) (now later : ℕ) (s : StickyStore)
    → HasOnce s.stickies
    → now ≤ later
    → Looked a b now later (prune_expired now s) (look_up a now s)
unfolding look_up
look_up-Looked a b now later s h le =
    let p = prune_expired now s in
    let once = prune_expired-HasOnce now s h in
    elim (Option-cases (lookup a p.stickies)) [
      | inl e ↦ rw (e, look_up) (sym (sticks-at a now p none e), refl, once)
      | inr (r, e) ↦
          let at = sym (sticks-at a now p (some r) e) in
          elim (Bool-cases (ltb now r.expires_at)) [
            | inl l ↦ rw (e, l, look_up) (ground (arith, at, l), refl, once)
            | inr l ↦
                rw (e, l, look_up)
                  (
                    ground (arith, at, l),
                    delete-sticks a b r now later p e l le,
                    delete-HasOnce a p.stickies once,
                  )
          ]
    ]

-- In a store that holds each key once, a lookup answers the candidate that its key sticks to;
-- neither it nor the pruning in it changes what any key sticks to at that or a later moment; and
-- each key is still held once.
pub look_up-sticks :
    (a b : Text) (now later : ℕ) (s : StickyStore)
    → HasOnce s.stickies
    → now ≤ later
    → ((look_up a now s).0 ≡ sticks s a now)
      × (sticks (look_up a now s).1 b later ≡ sticks s b later)
      × HasOnce (look_up a now s).1.stickies
look_up-sticks a b now later s h le =
    let (found, same, once) = look_up-Looked a b now later s h le in
    (
      found ∙ prune_expired-sticks now now a s h (omega arith),
      same ∙ prune_expired-sticks now later b s h le,
      once,
    )

-- In a store that holds each key once: after a key is bound, it sticks to the candidate until the
-- idle time has passed, and to none from then on; no other key is touched at any later moment; and
-- each key is still held once.
pub remember-sticks :
    (a b cand : Text) (now idle later : ℕ) (s : StickyStore)
    → HasOnce s.stickies
    → now ≤ later
    → (sticks (remember a cand now idle s) b later ≡ (
        if text_eq a b
        then (if ltb later (now + idle) then some cand else none)
        else sticks s b later))
      × HasOnce (remember a cand now idle s).stickies
unfolding remember
remember-sticks a b cand now idle later s h le =
    let p = prune_expired now s in
    let r : StickyRecord = record { candidate = cand; expires_at = now + idle } in
    (
      insert-sticks a b r later p
          ∙ ap (λ x. if text_eq a b then live (some r) later else x)
              (prune_expired-sticks now later b s h le),
      insert-HasOnce a r p.stickies (prune_expired-HasOnce now s h),
    )

incr_success-stickies :
    (group cand : Text) (s : StickyStore) → (incr_success group cand s).stickies ≡ s.stickies
unfolding incr_success
incr_success-stickies group cand s = refl

text_eq_no : (t : Text) → t ≢ [] → text_eq t [] ≡ false
text_eq_no t h = ground (arith, text_eq_iff t [])

record_sticky_success_bound :
    (group key cand : Text) (idle now : ℕ) (s : StickyStore)
    → text_eq key [] ≡ false
    → text_eq cand [] ≡ false
    → record_sticky_success group key cand idle now s
      ≡ remember (affinity_key key group) cand now idle (incr_success group cand s)
unfolding record_sticky_success
record_sticky_success_bound group key cand idle now s k c = rw (k, c) refl

pick_hit :
    (group key cand : Text) (later : ℕ) (r : Text) (rs : List Text) (weights : Map ℤ)
    (s : StickyStore)
    → text_eq key [] ≡ false
    → any (λ x. text_eq x cand) (r ∷ rs) ≡ true
    → (look_up (affinity_key key group) later s).0 ≡ some cand
    → (pick_sticky_or_deficit group key true later (r ∷ rs) weights s).0 ≡ cand
unfolding pick_sticky_or_deficit
pick_hit group key cand later r rs weights s k mem found = rw (k, found, mem) refl

-- In a store that holds each key once, a success that is recorded with a key and a candidate,
-- neither of them empty, keeps the key at its candidate: from then on until the idle time has
-- passed, a choice for the key is that candidate, if it is among the remaining ones, whatever the
-- weights and the counts are.
pub record_sticky_success-pick :
    (group key cand : Text) (idle now later : ℕ) (r : Text) (rs : List Text) (weights : Map ℤ)
    (s : StickyStore)
    → HasOnce s.stickies
    → key ≢ []
    → cand ≢ []
    → now ≤ later
    → later < now + idle
    → any (λ x. text_eq x cand) (r ∷ rs) ≡ true
    → let s' = record_sticky_success group key cand idle now s in
      (pick_sticky_or_deficit group key true later (r ∷ rs) weights s').0 ≡ cand
unfolding incr_success
record_sticky_success-pick group key cand idle now later r rs weights s h k c le lt mem =
    let a = affinity_key key group in
    let s1 = incr_success group cand s in
    let s2 = remember a cand now idle s1 in
    let (bound, once) = remember-sticks a a cand now idle later s1 h le in
    let found = (look_up-sticks a a later later s2 once (omega arith)).0 in
    let hit : (look_up a later s2).0 ≡ some cand =
      ground (arith, found, bound, text_eq_refl a, lt) in
    let stored =
      record_sticky_success_bound group key cand idle now s (text_eq_no key k)
        (text_eq_no cand c) in
    pick_hit group key cand later r rs weights _ (text_eq_no key k) mem
      (ap (λ x. (look_up a later x).0) stored ∙ hit)
