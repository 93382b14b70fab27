-- ===== src/View/Sanitize.antt =====
-- tydomio/scrub.py and `sanitize` of tydomio/mcp_server/view.py: what is done to a text before it is
-- put out.
use tydomio.Base.{
  ℕ, ◌-◌, Bool, true, false, not, ◌||◌, Option, none, some, List, [], ◌∷◌, ◌++◌, map, length, take,
  drop, ltb, if◌then◌else◌,
}
use tydomio.Base.Text.{Text, codes, join, strip, lower}

-- What the code relies on of Python: `str.isspace` of a character (also `\s` of `re`), whether its
-- category is Cc or Cf, `re.escape`, and `re.sub` with `re.IGNORECASE`, of a pattern and a replacement.
pub record Runtime : Type 0 where
  pub is_space : ℕ → Bool
  pub is_hidden : ℕ → Bool
  pub escape : Text → Text
  pub sub : Text → Text → Text → Text

pub record Secrets : Type 0 where
  pub password : Text
  pub ip : Option Text
  pub mac : Text

abbrev pub redacted : Text
redacted = codes "<redacted>"

abbrev pub max_string : ℕ
max_string = 64

-- `keep(text)`, the characters for which a test holds.
abbrev pub kept_chars : (ℕ → Bool) → Text → Text
kept_chars p [] = []
kept_chars p (c ∷ s) = let rest = kept_chars p s in if p c then c ∷ rest else rest

-- `"[:.-]?".join(mac)`
abbrev pub separated : Text → Text
separated mac = join (codes "[:.-]?") (map (λ c. c ∷ []) mac)

-- `text[: MAX_STRING - 1] + "…"` for a text that is too long.
abbrev pub cut : Text → Text
cut text = if ltb max_string (length text) then take 63 text ++ (8230 ∷ []) else text

module _ (runtime : Runtime) where
  abbrev pub ip_form : Option Text → List Text
  ip_form none = []
  ip_form (some ip) = runtime.escape ip ∷ []

  -- `Secrets.pattern`
  unfoldable pub pattern : Secrets → Text
  unfolding lower join
  pattern secrets =
      let mac = lower secrets.mac in
      join (codes "|") (
        runtime.escape secrets.password
        ∷ separated mac
        ∷ separated (drop (length mac - 6) mac)
        ∷ ip_form secrets.ip)

  -- `Secrets.scrub`
  unfoldable pub scrub : Secrets → Text → Text
  unfolding pattern
  scrub secrets text = runtime.sub (pattern secrets) redacted text

  -- `_WHITESPACE.sub(" ", text)`, after white space or not.
  unfoldable pub collapse : Bool → Text → Text
  collapse after [] = []
  collapse after (c ∷ s) =
      let in_space = collapse true s in
      let in_word = collapse false s in
      if runtime.is_space c then (if after then in_space else b' ' ∷ in_space) else c ∷ in_word

  -- `sanitize`
  unfoldable pub sanitize : Secrets → Text → Text
  unfolding scrub collapse strip
  sanitize secrets text =
      let visible = kept_chars (λ c. runtime.is_space c || not (runtime.is_hidden c)) text in
      cut (scrub secrets (strip runtime.is_space (collapse false visible)))
