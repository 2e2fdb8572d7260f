-- ===== src/Config/Provider.antt =====
-- internal/config/config.go: which wire formats a provider is reachable with, the one that is chosen
-- for an inbound format, and the URL that serves a format. A set of formats is a list. `table` is
-- unicode.ToLower beyond ASCII.
pub mod Reachable
use oh_my_api.Base.{
  ℕ, Bool, true, false, not, ◌&&◌, Option, none, some, List, [], ◌∷◌, ◌++◌, any, if◌then◌else◌,
  Text,
}
use oh_my_api.Codec.Format.{
  Format, format_eq, normalize_provider_format, normalize_protocols, Choice, passthrough,
  select_best_format,
}

pub record EndpointConfig : Type 0 where
  pub url : Text
  pub protocols : List Text

-- The fields of ProviderConfig that these functions read.
pub record ProviderConfig : Type 0 where
  pub endpoint : Text
  pub endpoints : List EndpointConfig
  pub protocols : List Text

-- fallbackEndpoint
unfoldable pub fallback_endpoint : ProviderConfig → Text
fallback_endpoint p = elim p.endpoints [ [] ↦ p.endpoint | e ∷ es ↦ e.url ]

abbrev pub has_format : Format → List Format → Bool
has_format f fs = any (λ g. format_eq g f) fs

abbrev pub url_or : Text → Option Text → Text
url_or fallback none = fallback
url_or fallback (some url) = url

abbrev pub no_formats : List Format → Bool
no_formats [] = true
no_formats (f ∷ fs) = false

abbrev pub best_of_protocols : Format → Option (List Format) → Option Choice
best_of_protocols inbound none = none
best_of_protocols inbound (some formats) = select_best_format formats inbound

abbrev pub or_none_reachable : Option (List Format) → List Format
or_none_reachable none = []
or_none_reachable (some formats) = formats

module _ (table : ℕ → ℕ) where
  -- The protocols of an endpoint that are formats, in order; the others are skipped.
  unfoldable pub formats_in : List Text → List Format
  formats_in [] = []
  formats_in (proto ∷ protos) =
      let rest = formats_in protos in
      elim (normalize_provider_format table proto) [ none ↦ rest | some f ↦ f ∷ rest ]

  unfoldable pub endpoint_formats : List EndpointConfig → List Format
  unfolding formats_in
  endpoint_formats [] = []
  endpoint_formats (e ∷ es) = formats_in e.protocols ++ endpoint_formats es

  -- The loops of GetEndpoint: the first endpoint with a protocol of the format.
  unfoldable pub url_of : Format → List EndpointConfig → Option Text
  unfolding formats_in
  url_of f [] = none
  url_of f (e ∷ es) =
      let rest = url_of f es in if has_format f (formats_in e.protocols) then some e.url else rest

  unfoldable pub get_endpoint : ProviderConfig → Text → Text
  unfolding url_of fallback_endpoint
  get_endpoint p inbound = elim (normalize_provider_format table inbound) [
    | none ↦ fallback_endpoint p
    | some f ↦ url_or (fallback_endpoint p) (url_of f p.endpoints)
  ]

  -- SelectOutboundFormat; `none` is its error.
  unfoldable pub select_outbound_format : ProviderConfig → Format → Option Choice
  unfolding endpoint_formats
  select_outbound_format p inbound =
      let all_formats = endpoint_formats p.endpoints in
      if has_format inbound all_formats
      then some (record { format = inbound; reason = passthrough; cost = 0 })
      else if not (no_formats all_formats)
      then select_best_format all_formats inbound
      else best_of_protocols inbound (normalize_protocols table p.protocols)

  -- reachableFormats
  unfoldable pub reachable_formats : ProviderConfig → List Format
  unfolding endpoint_formats
  reachable_formats p =
      let formats = endpoint_formats p.endpoints in
      if not (no_formats formats)
      then formats
      else or_none_reachable (normalize_protocols table p.protocols)

  -- The loop of filterReachableFormats, with the formats taken so far, each once.
  unfoldable pub filter_from : List Format → List Format → List Text → List Format
  filter_from reachable formats [] = formats
  filter_from reachable formats (raw ∷ raws) = elim (normalize_provider_format table raw) [
    | none ↦ filter_from reachable formats raws
    | some f ↦
        filter_from reachable
          (if has_format f reachable && not (has_format f formats)
            then formats ++ (f ∷ [])
            else formats)
          raws
  ]

  unfoldable pub filter_reachable_formats : ProviderConfig → List Text → List Format
  unfolding filter_from reachable_formats
  filter_reachable_formats p raw_protocols = filter_from (reachable_formats p) [] raw_protocols

  -- ProtocolReachable
  unfoldable pub protocol_reachable : ProviderConfig → Text → Bool
  unfolding filter_reachable_formats
  protocol_reachable p raw = not (no_formats (filter_reachable_formats p (raw ∷ [])))
