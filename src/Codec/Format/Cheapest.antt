-- ===== src/Codec/Format/Cheapest.antt =====
-- The chosen outbound format is supported and costs the least.
use oh_my_api.Base.{
  ℕ, ◌≤◌, ◌≡◌, refl, ◌≢◌, ◌⊎◌, inl, inr, true, some, List, [], ◌∷◌, arith, All, Some, any, ltb,
  Bool-cases,
}
use oh_my_api.Codec.Format.{
  Format, openai_chat, openai_response, anthropic_messages, ollama_chat, format_eq, conversion_cost,
  cheapest_from, Choice, select_best_format, passthrough, lowest_cost,
}

pub format_eq_sound : (f g : Format) → format_eq f g ≡ true → f ≡ g
unfolding format_eq
format_eq_sound f g h = ground arith

pub format_eq_refl : (f : Format) → format_eq f f ≡ true
unfolding format_eq
format_eq_refl f = ground arith

-- Every conversion from an inbound format of the gateway has a cost; Ollama is outbound only.
conversion_cost_total : (a b : Format) → a ≢ ollama_chat → (c : ℕ) × (conversion_cost a b ≡ some c)
unfolding conversion_cost
conversion_cost_total openai_chat openai_chat h = (0, refl)
conversion_cost_total openai_chat openai_response h = (3, refl)
conversion_cost_total openai_chat anthropic_messages h = (2, refl)
conversion_cost_total openai_chat ollama_chat h = (1, refl)
conversion_cost_total openai_response openai_chat h = (3, refl)
conversion_cost_total openai_response openai_response h = (0, refl)
conversion_cost_total openai_response anthropic_messages h = (6, refl)
conversion_cost_total openai_response ollama_chat h = (4, refl)
conversion_cost_total anthropic_messages openai_chat h = (3, refl)
conversion_cost_total anthropic_messages openai_response h = (6, refl)
conversion_cost_total anthropic_messages anthropic_messages h = (0, refl)
conversion_cost_total anthropic_messages ollama_chat h = (4, refl)
conversion_cost_total ollama_chat b h = absurd (h refl)

-- The format is one of the list, converts at that cost, and no format of the list is cheaper.
abbrev pub IsCheapest : Format → List Format → Format → ℕ → Type 0
IsCheapest inbound fs best cost =
    Some (λ g. g ≡ best) fs
    × (conversion_cost inbound best ≡ some cost)
    × All (λ g. (d : ℕ) → conversion_cost inbound g ≡ some d → cost ≤ d) fs

-- What the loop returns from a best so far.
abbrev Ends : Format → Format → ℕ → List Format → Type 0
Ends inbound best b fs =
    (r : Format) × (cost : ℕ) × (cheapest_from inbound best b fs ≡ some (r, cost))
    × ((best ≡ r) ⊎ Some (λ g. g ≡ r) fs)
    × (conversion_cost inbound r ≡ some cost)
    × (cost ≤ b)
    × All (λ g. (d : ℕ) → conversion_cost inbound g ≡ some d → cost ≤ d) fs

cheapest_from-Ends :
    (inbound best : Format) (b : ℕ) (fs : List Format)
    → inbound ≢ ollama_chat
    → conversion_cost inbound best ≡ some b
    → Ends inbound best b fs
unfolding cheapest_from
cheapest_from-Ends inbound best b [] h e = (best, b, refl, inl refl, e, omega arith, tt)
cheapest_from-Ends inbound best b (f ∷ fs) h e =
    let (c, ec) = conversion_cost_total inbound f h in
    elim (Bool-cases (ltb c b)) [
      | inl less ↦
          let (r, cost, eq, where_from, er, le_c, least) = cheapest_from-Ends inbound f c fs h ec in
          (
            r,
            cost,
            rw (ec, cheapest_from) (rw less eq),
            inr where_from,
            er,
            ground arith,
            (λ d ed. ground arith, least),
          )
      | inr more ↦
          let (r, cost, eq, where_from, er, le_b, least) =
            cheapest_from-Ends inbound best b fs h e in
          (
            r,
            cost,
            rw (ec, cheapest_from) (rw more eq),
            elim where_from [ inl x ↦ inl x | inr x ↦ inr (inr x) ],
            er,
            le_b,
            (λ d ed. ground arith, least),
          )
    ]

pub any-format_eq :
    (inbound : Format) (fs : List Format)
    → any (λ g. format_eq g inbound) fs ≡ true
    → Some (λ g. g ≡ inbound) fs
any-format_eq inbound [] h = cc
any-format_eq inbound (f ∷ fs) h = elim (Bool-cases (format_eq f inbound)) [
  | inl e ↦ inl (format_eq_sound f inbound e)
  | inr e ↦ inr (any-format_eq inbound fs (rw e at h))
]

zero_least :
    (inbound : Format) (fs : List Format)
    → All (λ g. (d : ℕ) → conversion_cost inbound g ≡ some d → 0 ≤ d) fs
zero_least inbound [] = tt
zero_least inbound (f ∷ fs) = (λ d e. omega arith, zero_least inbound fs)

conversion_cost_self : (f : Format) → conversion_cost f f ≡ some 0
unfolding conversion_cost
conversion_cost_self f = ground (arith, format_eq_refl f)

-- For an inbound format of the gateway and a non-empty list of supported formats a format is
-- chosen: one of the list, at the cost of its conversion, and none of the list costs less.
pub select_best_format-IsCheapest :
    (f : Format) (fs : List Format) (inbound : Format)
    → inbound ≢ ollama_chat
    → (choice : Choice) × (select_best_format (f ∷ fs) inbound ≡ some choice)
      × IsCheapest inbound (f ∷ fs) choice.format choice.cost
unfolding select_best_format
select_best_format-IsCheapest f fs inbound h =
    elim (Bool-cases (any (λ g. format_eq g inbound) (f ∷ fs))) [
      | inl e ↦ (
        record { format = inbound; reason = passthrough; cost = 0 },
        rw e,
        (
          any-format_eq inbound (f ∷ fs) e,
          conversion_cost_self inbound,
          zero_least inbound (f ∷ fs),
        ),
      )
      | inr e ↦
          let (c, ec) = conversion_cost_total inbound f h in
          let (r, cost, eq, where_from, er, le_c, least) = cheapest_from-Ends inbound f c fs h ec in
          (
            record { format = r; reason = lowest_cost; cost = cost },
            rw (e, ec, eq),
            (where_from, er, (λ d ed. ground arith, least)),
          )
    ]
