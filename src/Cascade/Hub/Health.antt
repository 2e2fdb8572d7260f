-- ===== src/Cascade/Hub/Health.antt =====
-- That the health keys of a cascade provider follow its session.
use oh_my_api.Base.{
  ℕ, ◌+◌, ◌≤◌, ◌≡◌, refl, sym, ap, subst, ◌∙◌, inl, inr, true, false, Option, none, some, List, [],
  ◌∷◌, arith, Bool-cases, Text, is_some, Some, ◌⊎◌, All,
}
use oh_my_api.Health.{Checker, is_healthy, mark_unhealthy_for, mark_with, make_health_key}
use oh_my_api.Health.Backoff.{mark_with-Marked, Marked-is_healthy}
use oh_my_api.Cascade.Hub.{
  Hub, cascade_outbound_protocols, pinned_unhealthy_cooldown, report_healthy_for,
  report_unhealthy_for, set_health_checker, replace_session, clear_session, take_session, pin_key,
  is_session, is_configured, new_hub,
}
use oh_my_api.Cascade.Hub.Marks.{
  IsPinned, mark-IsPinned, report_unhealthy_for-IsPinned, IsFree, report_healthy_for-IsFree,
}

-- A step of a hub, with its time: a session that registers, a session that ends, and a key that
-- Close reports.
pub data Event : Type 0 where
  registers : ℕ → ℕ → Event
  ends : ℕ → ℕ → Event
  pins : ℕ → Text → Event

abbrev pub time_of : Event → ℕ
time_of (registers now s) = now
time_of (ends now s) = now
time_of (pins now proto) = now

-- A step of a hub that is not being closed.
abbrev pub IsOpen : Event → Type 0
IsOpen (registers now s) = Unit
IsOpen (ends now s) = Unit
IsOpen (pins now proto) = ⊥

abbrev pub IsDuring : (start now : ℕ) → Event → Type 0
IsDuring start now e = (start ≤ time_of e) × (time_of e ≤ now)

-- A step that is no registration.
abbrev pub IsLeaving : Event → Type 0
IsLeaving (registers now s) = ⊥
IsLeaving (ends now s) = Unit
IsLeaving (pins now proto) = Unit

abbrev pub Pins : Text → Event → Type 0
Pins proto (registers now s) = ⊥
Pins proto (ends now s) = ⊥
Pins proto (pins now p) = p ≡ proto

unfoldable pub apply_event : Event → Hub → Hub
apply_event (registers now s) h = replace_session s h
apply_event (ends now s) h = clear_session now s h
apply_event (pins now proto) h = pin_key now proto h

unfoldable pub apply_events : List Event → Hub → Hub
apply_events [] h = h
apply_events (e ∷ es) h = apply_events es (apply_event e h)

module _ (start now : ℕ) (provider proto : Text) where
  -- The mark of a key, by whether there is a session.
  abbrev Holds : Option ℕ → Checker → Type 0
  Holds none c = IsPinned start now c (make_health_key provider proto)
  Holds (some s) c = IsFree c (make_health_key provider proto)

  abbrev Follows : Hub → Type 0
  Follows h = (h.provider ≡ provider) × (h.attached ≡ true) × Holds h.session h.health

  pinned :
      (t : ℕ) (h : Hub)
      → Some (λ p. p ≡ proto) cascade_outbound_protocols
      → start ≤ t
      → t ≤ now
      → h.provider ≡ provider
      → IsPinned start now
          (report_unhealthy_for t cascade_outbound_protocols h.provider h.health)
          (make_health_key provider proto)
  pinned t h at_key lo hi f =
      subst
        (λ p.
          IsPinned start now (report_unhealthy_for t cascade_outbound_protocols p h.health)
            (make_health_key provider proto))
        (sym f)
        (report_unhealthy_for-IsPinned start now t cascade_outbound_protocols provider h.health
          proto lo hi (inl at_key))

  event-Follows :
      (e : Event) (h : Hub)
      → Some (λ p. p ≡ proto) cascade_outbound_protocols
      → IsOpen e
      → IsDuring start now e
      → Follows h
      → Follows (apply_event e h)
  unfolding apply_event replace_session clear_session
  event-Follows (registers t s) h at_key is_open timely (same, has, holds) = (
    same,
    has,
    rw has (
        subst
          (λ p.
            IsFree (report_healthy_for cascade_outbound_protocols p h.health)
              (make_health_key provider proto))
          (sym same)
          (report_healthy_for-IsFree cascade_outbound_protocols provider h.health proto
            (inl at_key))),
  )
  event-Follows (ends t s) h at_key is_open timely (same, has, holds) =
      elim (Bool-cases (is_session s h.session)) [
        | inl e ↦ rw e (same, has, rw has (pinned t h at_key timely.0 timely.1 same))
        | inr e ↦ rw e (same, has, holds)
      ]
  event-Follows (pins t p) h at_key is_open timely f = absurd is_open

  events-Follows :
      (es : List Event) (h : Hub)
      → Some (λ p. p ≡ proto) cascade_outbound_protocols
      → All (λ e. IsOpen e × IsDuring start now e) es
      → Follows h
      → Follows (apply_events es h)
  unfolding apply_events
  events-Follows [] h at_key ts f = f
  events-Follows (e ∷ es) h at_key ts f =
      events-Follows es (apply_event e h) at_key ts.1 (event-Follows e h at_key ts.0.0 ts.0.1 f)

  -- A hub whose session Close has taken.
  abbrev Taken : Hub → Type 0
  Taken h = (h.provider ≡ provider) × (h.session ≡ none)

  -- The key is marked, or a step will mark it.
  abbrev Pinned : List Event → Hub → Type 0
  Pinned es h = Some (Pins proto) es ⊎ IsPinned start now h.health (make_health_key provider proto)

  event-Pinned :
      (e : Event) (es : List Event) (h : Hub)
      → IsLeaving e
      → IsDuring start now e
      → Taken h
      → Pinned (e ∷ es) h
      → Taken (apply_event e h) × Pinned es (apply_event e h)
  unfolding apply_event clear_session pin_key mark_unhealthy_for mark_with
  event-Pinned (registers t s) es h leaving timely (same, gone) p = absurd leaving
  event-Pinned (ends t s) es h leaving timely (same, gone) p =
      let other : is_session s h.session ≡ false = rw gone refl in
      rw other (
        (same, gone),
        elim p [
          | inr m ↦ inr m
          | inl later ↦ elim later [ inl never ↦ absurd never | inr l ↦ inl l ]
        ],
      )
  event-Pinned (pins t q) es h leaving timely (same, gone) p = (
    (same, gone),
    elim p [
      | inr m ↦ inr (
          mark-IsPinned start now t (make_health_key h.provider q) h.health
            (make_health_key provider proto) timely.0 timely.1 m)
      | inl later ↦ elim later [
        | inr l ↦ inl l
        | inl its ↦ inr (
            subst (IsPinned start now (apply_event (pins t q) h).health)
              (ap (make_health_key h.provider) its ∙ ap (λ z. make_health_key z proto) same)
              (
                t,
                timely.0,
                timely.1,
                mark_with-Marked t (make_health_key h.provider q) pinned_unhealthy_cooldown
                    h.health,
              ))
      ]
    ],
  )

  events-Pinned :
      (es : List Event) (h : Hub)
      → All (λ e. IsLeaving e × IsDuring start now e) es
      → Taken h
      → Pinned es h
      → let h' = apply_events es h in
        (h'.session ≡ none) × IsPinned start now h'.health (make_health_key provider proto)
  unfolding apply_events
  events-Pinned [] h ts (same, gone) (inr m) = (gone, m)
  events-Pinned [] h ts (same, gone) (inl s) = absurd s
  events-Pinned (e ∷ es) h ts taken p =
      let (taken', p') = event-Pinned e es h ts.0.0 ts.0.1 taken p in
      events-Pinned es (apply_event e h) ts.1 taken' p'

Holds-is_healthy :
    (start now : ℕ) (provider proto : Text) (o : Option ℕ) (c : Checker)
    → now ≤ start + pinned_unhealthy_cooldown
    → Holds start now provider proto o c
    → is_healthy c now (make_health_key provider proto) ≡ is_some o
unfolding is_healthy
Holds-is_healthy start now provider proto none c year (t, lo, hi, m) =
    Marked-is_healthy c (make_health_key provider proto) t pinned_unhealthy_cooldown now m
    ∙ ground (arith, year, lo)
Holds-is_healthy start now provider proto (some s) c year free = rw (free, is_healthy) refl

-- A new hub that is configured is given a checker, before any session can register. Then sessions
-- register (each replaces the one before) and end (of which only the active one counts), in any
-- order, while the hub is not closed: at a time at most a year after it was given the checker, and not
-- before any of these steps, each of the provider's keys is healthy exactly when the hub has a
-- session. Then Close takes the session. If none registers any more, then once Close has
-- reported a key, in whatever order with sessions that end, the hub has no session and the key is
-- unhealthy.
pub apply_events-is_healthy :
    (start now : ℕ) (provider proto token : Text) (c : Checker) (es late : List Event)
    → is_configured (new_hub provider token c) ≡ true
    → start ≤ now
    → now ≤ start + pinned_unhealthy_cooldown
    → All (λ e. IsOpen e × IsDuring start now e) es
    → All (λ e. IsLeaving e × IsDuring start now e) late
    → Some (λ p. p ≡ proto) cascade_outbound_protocols
    → Some (Pins proto) late
    → let h = apply_events es (set_health_checker start true (new_hub provider token c)) in
      let closed = apply_events late (take_session h) in
      (is_healthy h.health now (make_health_key provider proto) ≡ is_some h.session)
      × (closed.session ≡ none)
      × (is_healthy closed.health now (make_health_key provider proto) ≡ false)
unfolding set_health_checker take_session
apply_events-is_healthy start now provider proto token c es late conf order year ts ls at_key last =
    let h0 = set_health_checker start true (new_hub provider token c) in
    let h = apply_events es h0 in
    let first : Follows start now provider proto h0 = rw conf (
      refl,
      refl,
      report_unhealthy_for-IsPinned start now start cascade_outbound_protocols provider c proto
          (omega arith) order (inl at_key),
    ) in
    let (same, has, holds) = events-Follows start now provider proto es h0 at_key ts first in
    let (gone, m) =
      events-Pinned start now provider proto late (take_session h) ls (same, refl) (inl last) in
    (
      Holds-is_healthy start now provider proto h.session h.health year holds,
      gone,
      Holds-is_healthy start now provider proto none (apply_events late (take_session h)).health
          year m,
    )
