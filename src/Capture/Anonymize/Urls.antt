-- ===== src/Capture/Anonymize/Urls.antt =====
-- One round of the loop over the urls of a capture.
use tydomio.Base.{ℕ, ◌≡◌, refl, some, List, ◌∷◌, nat_eq, list_eq, Result, ◌>>=◌}
use tydomio.Base.Dict
use tydomio.Base.Dict.{Dict}
use tydomio.Base.Text.{Text}
use tydomio.Error.{Error}
use tydomio.Capture.Json.{Json}
use tydomio.Capture.Anonymize.{endpoint_body, anonymize_urls, policy_for}
use tydomio.Capture.Anonymize.Metadata.{Runtime, Descriptors}
use tydomio.Capture.Anonymize.Maps.{Tables}

module _ {F : Type 0} (runtime : Runtime F) (bodies : Dict Text (Json F)) (statuses : Dict Text ℕ)
    (descriptors : Dict Text (Descriptors F)) (url : Text) (urls : List Text)
    (done : Dict Text (Json F)) where
  abbrev pub next_urls : Json F × Tables → Result Error (Dict Text (Json F) × Tables)
  next_urls (given, u) =
      anonymize_urls runtime bodies statuses descriptors urls (Dict.insert url given done) u

  pub anonymize_urls-cons :
      (body : Json F) (t : Tables)
      → Dict.lookup url bodies ≡ some body
      → anonymize_urls runtime bodies statuses descriptors (url ∷ urls) done t ≡ (
          endpoint_body runtime descriptors url body (policy_for runtime bodies statuses url) t
          >>= next_urls)
  unfolding anonymize_urls
  anonymize_urls-cons body t found = rw (found, anonymize_urls) refl
