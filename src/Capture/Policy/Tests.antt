-- ===== src/Capture/Policy/Tests.antt =====
-- Rule paths taken apart, and the theorems of the policy at concrete segments.
use tydomio.Base.{◌≡◌, refl, [], ◌∷◌, nat_eq, list_eq, map}
use tydomio.Base.Dict
use tydomio.Base.Text.{Text, codes, starts_with}
use tydomio.Capture.Fetch.{all_endpoints, CapturedEndpoint}
use tydomio.Capture.Policy.{parse_path}
use tydomio.Capture.Policy.Table.{policy}

takes_apart :
    parse_path (codes "[].endpoints[].link.id")
    ≡ codes "[]" ∷ codes "endpoints" ∷ codes "[]" ∷ codes "link" ∷ codes "id" ∷ []
unfolding parse_path nat_eq list_eq
takes_apart = refl

escaped_dot : parse_path (codes "*\\.json") ≡ codes "*.json" ∷ []
unfolding parse_path nat_eq starts_with
escaped_dot = refl

-- The policy has the captured endpoints, in their order.
covers_endpoints : Dict.keys policy ≡ map (λ (e : CapturedEndpoint). e.url) all_endpoints
unfolding Dict.keys
covers_endpoints = refl
