-- ===== src/Config/Provider/Reachable.antt =====
-- That the format that is chosen for a provider can be reached there, and at which URL.
use oh_my_api.Base.{
  ℕ, ◌≡◌, refl, sym, subst, ap, ◌∙◌, ◌≢◌, ◌⊎◌, inl, inr, true, false, not, Option, none, some, List,
  [], ◌∷◌, ◌++◌, Some, arith, Bool-cases, Text, trim_space, text_eq,
}
use mathlib.Core.Option.{some-injective}
use oh_my_api.Codec.Format.{
  Format, openai_chat, openai_response, anthropic_messages, ollama_chat, format_eq, format_text,
  normalize_provider_format, normalize_protocols, Choice, passthrough, select_best_format,
}
use oh_my_api.Codec.Format.Cheapest.{format_eq_refl, select_best_format-IsCheapest}
use oh_my_api.Config.Provider.{
  EndpointConfig, ProviderConfig, formats_in, endpoint_formats, has_format, url_of, get_endpoint,
  select_outbound_format, reachable_formats, filter_reachable_formats, filter_from,
  protocol_reachable, no_formats, best_of_protocols, or_none_reachable,
}

module _ (table : ℕ → ℕ) where
  normalize-format_text : (f : Format) → normalize_provider_format table (format_text f) ≡ some f
  unfolding normalize_provider_format trim_space text_eq format_text
  normalize-format_text openai_chat = refl
  normalize-format_text openai_response = refl
  normalize-format_text anthropic_messages = refl
  normalize-format_text ollama_chat = refl

  has_format-append :
      (f : Format) (xs ys : List Format)
      → has_format f (xs ++ ys) ≡ true
      → (has_format f xs ≡ true) ⊎ (has_format f ys ≡ true)
  has_format-append f [] ys h = inr h
  has_format-append f (x ∷ xs) ys h = elim (Bool-cases (format_eq x f)) [
    | inl e ↦ inl (rw e refl)
    | inr e ↦ elim (has_format-append f xs ys (rw e at h)) [ inl k ↦ inl (rw e k) | inr k ↦ inr k ]
  ]

  -- A URL that serves a format: that of an endpoint with a protocol of the format.
  abbrev pub Serves : List EndpointConfig → Format → Text → Type 0
  Serves es f url =
      Some (λ e. (e.url ≡ url) × (has_format f (formats_in table e.protocols) ≡ true)) es

  url_of-Serves :
      (f : Format) (es : List EndpointConfig)
      → has_format f (endpoint_formats table es) ≡ true
      → (url : Text) × (url_of table f es ≡ some url) × Serves es f url
  unfolding url_of endpoint_formats
  url_of-Serves f [] h = cc
  url_of-Serves f (e ∷ es) h = elim (Bool-cases (has_format f (formats_in table e.protocols))) [
    | inl k ↦ (e.url, rw k refl, inl (refl, k))
    | inr k ↦
        elim (has_format-append f (formats_in table e.protocols) (endpoint_formats table es) h) [
          | inl m ↦ absurd (ground (arith, k, m))
          | inr m ↦ (let (url, eq, s) = url_of-Serves f es m in (url, rw k eq, inr s))
        ]
  ]

  Some-has_format : (f : Format) (fs : List Format) → Some (λ g. g ≡ f) fs → has_format f fs ≡ true
  Some-has_format f [] m = elim m [ ]
  Some-has_format f (g ∷ fs) (inl e) =
      ground (arith, subst (λ x. format_eq x f ≡ true) (sym e) (format_eq_refl f))
  Some-has_format f (g ∷ fs) (inr m) = ground (arith, Some-has_format f fs m)

  select_best_format-has_format :
      (fs : List Format) (inbound : Format) (choice : Choice)
      → inbound ≢ ollama_chat
      → select_best_format fs inbound ≡ some choice
      → has_format choice.format fs ≡ true
  unfolding select_best_format
  select_best_format-has_format [] inbound choice ne h = cc
  select_best_format-has_format (f ∷ fs) inbound choice ne h =
      let (best, eq, cheap) = select_best_format-IsCheapest f fs inbound ne in
      let same : best ≡ choice = some-injective best choice (sym eq ∙ h) in
      subst (λ (c : Choice). has_format c.format (f ∷ fs) ≡ true) same
        (Some-has_format best.format (f ∷ fs) cheap.0)

  has_format-some_formats :
      (f : Format) (fs : List Format) → has_format f fs ≡ true → no_formats fs ≡ false
  has_format-some_formats f [] h = sym h
  has_format-some_formats f (g ∷ fs) h = refl

  filter_from_one :
      (reachable : List Format) (f : Format) (raw : Text)
      → normalize_provider_format table raw ≡ some f
      → has_format f reachable ≡ true
      → filter_from table reachable [] (raw ∷ []) ≡ f ∷ []
  unfolding filter_from
  filter_from_one reachable f raw e h = rw (e, h, filter_from) refl

  protocol_reachable-format_text :
      (p : ProviderConfig) (f : Format)
      → has_format f (reachable_formats table p) ≡ true
      → protocol_reachable table p (format_text f) ≡ true
  unfolding protocol_reachable filter_reachable_formats
  protocol_reachable-format_text p f h =
      ap (λ fs. not (no_formats fs))
        (filter_from_one (reachable_formats table p) f (format_text f) (normalize-format_text f) h)

  best_of_protocols-has_format :
      (inbound : Format) (o : Option (List Format)) (choice : Choice)
      → inbound ≢ ollama_chat
      → best_of_protocols inbound o ≡ some choice
      → has_format choice.format (or_none_reachable o) ≡ true
  best_of_protocols-has_format inbound none choice ne h = cc
  best_of_protocols-has_format inbound (some fs) choice ne h =
      select_best_format-has_format fs inbound choice ne h

  -- Whatever way the format is chosen, it is one of the endpoints' formats, if there are any, and
  -- else one of the provider's protocols.
  data Chosen (p : ProviderConfig) (choice : Choice) : Type 0 where
    of_endpoints :
        has_format choice.format (endpoint_formats table p.endpoints) ≡ true
        → no_formats (endpoint_formats table p.endpoints) ≡ false
        → Chosen p choice
    of_protocols :
        has_format choice.format (or_none_reachable (normalize_protocols table p.protocols)) ≡ true
        → no_formats (endpoint_formats table p.endpoints) ≡ true
        → Chosen p choice

  select_outbound_format-Chosen :
      (p : ProviderConfig) (inbound : Format) (choice : Choice)
      → inbound ≢ ollama_chat
      → select_outbound_format table p inbound ≡ some choice
      → Chosen p choice
  unfolding select_outbound_format
  select_outbound_format-Chosen p inbound choice ne h =
      let fs = endpoint_formats table p.endpoints in
      elim (Bool-cases (has_format inbound fs)) [
        | inl e ↦
            let pass : Choice = record { format = inbound; reason = passthrough; cost = 0 } in
            let same : pass ≡ choice =
              some-injective pass choice (rw (e, select_outbound_format) at h) in
            of_endpoints (subst (λ (c : Choice). has_format c.format fs ≡ true) same e)
              (has_format-some_formats inbound fs e)
        | inr e ↦ elim (Bool-cases (no_formats fs)) [
          | inr k ↦
              of_endpoints
                (select_best_format-has_format fs inbound choice ne
                  (rw (e, k, select_outbound_format) at h))
                k
          | inl k ↦
              of_protocols
                (best_of_protocols-has_format inbound (normalize_protocols table p.protocols) choice
                  ne (rw (e, k, select_outbound_format) at h))
                k
        ]
      ]

  Chosen-reachable :
      (p : ProviderConfig) (choice : Choice)
      → Chosen p choice
      → has_format choice.format (reachable_formats table p) ≡ true
  unfolding reachable_formats
  Chosen-reachable p choice (of_endpoints m k) = rw (k, reachable_formats) m
  Chosen-reachable p choice (of_protocols m k) = rw (k, reachable_formats) m

  get_endpoint-Serves :
      (p : ProviderConfig) (f : Format)
      → has_format f (endpoint_formats table p.endpoints) ≡ true
      → Serves p.endpoints f (get_endpoint table p (format_text f))
  unfolding get_endpoint
  get_endpoint-Serves p f h =
      let (url, e, s) = url_of-Serves f p.endpoints h in
      let goes : get_endpoint table p (format_text f) ≡ url =
        rw (normalize-format_text f, e, get_endpoint) refl in
      subst (Serves p.endpoints f) (sym goes) s

  -- The format that is chosen for a provider and an inbound format other than Ollama's is reachable
  -- there; and if any endpoint has a valid protocol, the URL for the format is that of an endpoint
  -- with a protocol of this format.
  pub select_outbound_format-reachable :
      (p : ProviderConfig) (inbound : Format) (choice : Choice)
      → inbound ≢ ollama_chat
      → select_outbound_format table p inbound ≡ some choice
      → (protocol_reachable table p (format_text choice.format) ≡ true)
        × (no_formats (endpoint_formats table p.endpoints) ≡ false
            → Serves p.endpoints choice.format (get_endpoint table p (format_text choice.format)))
  select_outbound_format-reachable p inbound choice ne h =
      let chosen = select_outbound_format-Chosen p inbound choice ne h in
      (
        protocol_reachable-format_text p choice.format (Chosen-reachable p choice chosen),
        λ some_formats. elim chosen [
          | of_endpoints m k ↦ get_endpoint-Serves p choice.format m
          | of_protocols m k ↦ absurd (ground (arith, k, some_formats))
        ],
      )
