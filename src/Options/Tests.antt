-- ===== src/Options/Tests.antt =====
-- `validateOptions` and `endpointUrl` on concrete options.
use rtt_http.Common.{none, codes, ◌≡◌, ◌↔◌, false, refl}
use rtt_http.Options.{default_options, validate_options, endpoint_url}
use rtt_http.Options.Laws.{IsConfigured, validate_options_iff}

endpoint_test : endpoint_url default_options ≡ codes "http://127.0.0.1:8080"
unfolding endpoint_url
endpoint_test = refl

validate_options_iff_example :
    (validate_options false default_options ≡ none) ↔ IsConfigured false default_options
validate_options_iff_example = validate_options_iff false default_options
