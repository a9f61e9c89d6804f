-- ===== src/Candidate/Build.antt =====
-- `buildChannelCandidates` of server/internal/relay/handler/handler.go: the rows that are offered become the
-- candidates of a request. `parse` is `helper.ParseProtocolsJSON`, empty where Go's map is nil.
use token_flux.Base.{
  false, not, String, List, [], ◌∷◌, ◌≡◌, str_eq, Bool-cases, inl, inr, if◌then◌else◌, All,
}
use token_flux.Bytes.{Text, Map, text_eq}
use token_flux.Candidate.{ChannelCandidate}
use token_flux.Cost.{health_score_of}
use token_flux.Format.{RelayFormat, best_protocol_match}
use token_flux.Quota.{CandidateRow}

unfoldable pub candidate_of : CandidateRow → Text × Text → ChannelCandidate
candidate_of r (protocol_key, base_url) = record {
  channel_id = r.channel_id;
  channel_name = r.channel_name;
  base_url = base_url;
  priority = r.priority;
  weight = r.weight;
  health_score = health_score_of r.consecutive_fails;
  model_key_id = r.model_key_id;
  key_model_id = r.key_model_id;
  upstream_model_name = r.upstream_model_name;
  is_model_mapped = not (str_eq r.upstream_model_name "");
  api_key = r.key_encrypted;
  provider_user_id = r.provider_user_id;
  model_spec_id = r.model_spec_id;
  protocol_key = protocol_key;
  protocols_json = r.protocols_json;
  provider_share_bps = r.provider_share_bps;
  cache_hit_price_per_1k = r.cache_hit_price_per_1k;
  cache_miss_price_per_1k = r.cache_miss_price_per_1k;
  output_price_per_1k = r.output_price_per_1k;
}

-- The body of the loop, before the candidates of the later rows.
unfoldable pub add_candidate :
    CandidateRow → Map (Map Text) → RelayFormat → List ChannelCandidate → List ChannelCandidate
add_candidate r [] inbound rest = rest
add_candidate r (p ∷ ps) inbound rest =
    let best = best_protocol_match (p ∷ ps) inbound in
    if text_eq best.0 [] then rest else candidate_of r best ∷ rest

unfoldable pub build_channel_candidates :
    (String → Map (Map Text)) → List CandidateRow → RelayFormat → List ChannelCandidate
build_channel_candidates parse [] inbound = []
build_channel_candidates parse (r ∷ rows) inbound =
    add_candidate r (parse r.protocols_json) inbound (build_channel_candidates parse rows inbound)

-- A candidate has a protocol, which is one of those of its channel's text or the one preferred for the format.
unfoldable pub HasProtocol : ChannelCandidate → Type 0
HasProtocol c = text_eq c.protocol_key [] ≡ false

add_candidate-HasProtocol :
    (r : CandidateRow) (ps : Map (Map Text)) (inbound : RelayFormat) (rest : List ChannelCandidate)
    → All HasProtocol rest
    → All HasProtocol (add_candidate r ps inbound rest)
unfolding add_candidate HasProtocol candidate_of
add_candidate-HasProtocol r [] inbound rest h = h
add_candidate-HasProtocol r (p ∷ ps) inbound rest h =
    let best = best_protocol_match (p ∷ ps) inbound in
    elim (Bool-cases (text_eq best.0 [])) [ inl e ↦ rw e h | inr e ↦ rw e (e, h) ]

pub build_channel_candidates-HasProtocol :
    (parse : String → Map (Map Text)) (rows : List CandidateRow) (inbound : RelayFormat)
    → All HasProtocol (build_channel_candidates parse rows inbound)
unfolding build_channel_candidates
build_channel_candidates-HasProtocol parse [] inbound = tt
build_channel_candidates-HasProtocol parse (r ∷ rows) inbound =
    add_candidate-HasProtocol r (parse r.protocols_json) inbound
      (build_channel_candidates parse rows inbound)
      (build_channel_candidates-HasProtocol parse rows inbound)
