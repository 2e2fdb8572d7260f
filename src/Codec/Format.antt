-- ===== src/Codec/Format.antt =====
-- internal/codec/format.go: the provider formats, the cost of a conversion, and the choice of the
-- cheapest outbound format. `none` is the error return. `table` is unicode.ToLower beyond ASCII.
pub mod Cheapest
use oh_my_api.Base.{
  ℕ, Bool, true, false, Option, none, some, List, [], ◌∷◌, ◌++◌, ltb, any, if◌then◌else◌, ◌>>=◌,
  Text, txt, text_eq, trim_space, to_lower,
}

pub data Format : Type 0 where
  openai_chat openai_response anthropic_messages ollama_chat : Format

unfoldable pub format_eq : Format → Format → Bool
format_eq openai_chat openai_chat = true
format_eq openai_response openai_response = true
format_eq anthropic_messages anthropic_messages = true
format_eq ollama_chat ollama_chat = true
format_eq _ _ = false

unfoldable pub format_text : Format → Text
format_text openai_chat = txt "openai.chat"
format_text openai_response = txt "openai.responses"
format_text anthropic_messages = txt "anthropic.messages"
format_text ollama_chat = txt "ollama.chat"

-- The switch of NormalizeProviderFormat.
unfoldable pub format_of : Text → Option Format
unfolding format_text
format_of t =
    if text_eq t (format_text openai_chat)
    then some openai_chat
    else if text_eq t (format_text openai_response)
    then some openai_response
    else if text_eq t (format_text anthropic_messages)
    then some anthropic_messages
    else if text_eq t (format_text ollama_chat)
    then some ollama_chat
    else none

unfoldable pub normalize_provider_format : (ℕ → ℕ) → Text → Option Format
unfolding format_of
normalize_provider_format table protocol = format_of (to_lower table (trim_space protocol))

-- The loop of NormalizeProtocols.
unfoldable pub normalize_from : (ℕ → ℕ) → List Format → List Text → Option (List Format)
normalize_from table formats [] = some formats
normalize_from table formats (part ∷ parts) =
    let trimmed = trim_space part in
    let skip = normalize_from table formats parts in
    elim (text_eq trimmed []) [
      | true ↦ skip
      | false ↦ elim (normalize_provider_format table trimmed) [
        | none ↦ none
        | some f ↦ normalize_from table (formats ++ (f ∷ [])) parts
      ]
    ]

abbrev non_empty : List Format → Option (List Format)
non_empty [] = none
non_empty (f ∷ fs) = some (f ∷ fs)

unfoldable pub normalize_protocols : (ℕ → ℕ) → List Text → Option (List Format)
unfolding normalize_from
normalize_protocols table protocols = do
  formats ← normalize_from table [] protocols
  non_empty formats

-- The matrix of ConversionCost.
unfoldable pub matrix : Format → Format → Option ℕ
matrix openai_chat anthropic_messages = some 2
matrix openai_chat openai_response = some 3
matrix openai_chat ollama_chat = some 1
matrix anthropic_messages openai_chat = some 3
matrix anthropic_messages openai_response = some 6
matrix anthropic_messages ollama_chat = some 4
matrix openai_response openai_chat = some 3
matrix openai_response anthropic_messages = some 6
matrix openai_response ollama_chat = some 4
matrix _ _ = none

unfoldable pub conversion_cost : Format → Format → Option ℕ
unfolding matrix format_eq
conversion_cost inbound outbound =
    if format_eq inbound outbound then some 0 else matrix inbound outbound

pub data Reason : Type 0 where
  passthrough lowest_cost : Reason

pub record Choice : Type 0 where
  pub format : Format
  pub reason : Reason
  pub cost : ℕ

-- The second loop of SelectBestFormat, over `supported[1:]`.
unfoldable pub cheapest_from : Format → Format → ℕ → List Format → Option (Format × ℕ)
cheapest_from inbound best best_cost [] = some (best, best_cost)
cheapest_from inbound best best_cost (f ∷ fs) = elim (conversion_cost inbound f) [
  | none ↦ none
  | some c ↦
      cheapest_from inbound (if ltb c best_cost then f else best)
        (if ltb c best_cost then c else best_cost) fs
]

unfoldable pub select_best_format : List Format → Format → Option Choice
select_best_format [] inbound = none
select_best_format (f ∷ fs) inbound =
    if any (λ g. format_eq g inbound) (f ∷ fs)
    then some (record { format = inbound; reason = passthrough; cost = 0 })
    else (do
      first_cost ← conversion_cost inbound f
      best ← cheapest_from inbound f first_cost fs
      some (record { format = best.0; reason = lowest_cost; cost = best.1 }))
