-- ===== src/View/Clean.antt =====
-- What a sanitized text may hold.
use tydomio.Base.{
  ℕ, zero, suc, ◌≤◌, ◌≡◌, refl, Bool, true, false, not, ◌&&◌, ◌||◌, [], ◌∷◌, ◌++◌, all, length,
  take, length-take, length-append, ltb, nat_eq, ◌==◌, arith, Bool-cases, inl, inr,
}
use mathlib.Core.List.{reverse, reverse-cons}
use tydomio.Base.Text.{Text, strip, lstrip}
use tydomio.View.Sanitize.{
  Runtime, Secrets, pattern, redacted, kept_chars, scrub, collapse, cut, sanitize,
}

-- A character of the output: a blank, an ellipsis, or one that is neither white space nor hidden.
abbrev pub is_clean : Runtime → ℕ → Bool
is_clean runtime c = c == b' ' || c == 8230 || not (runtime.is_space c) && not (runtime.is_hidden c)

-- What the theorem asks of `re.sub`, for the pattern of the secrets and the replacement of `scrub`,
-- which has no backslash to process: the result is made of the text and the replacement.
abbrev pub Substitutes : Runtime → Secrets → Type 0
Substitutes runtime secrets =
    (p : ℕ → Bool) (text : Text)
    → all p redacted ≡ true
    → all p text ≡ true
    → all p (runtime.sub (pattern runtime secrets) redacted text) ≡ true

module _ (p : ℕ → Bool) where
  all-++ : (s t : Text) → all p s ≡ true → all p t ≡ true → all p (s ++ t) ≡ true
  all-++ [] t h g = g
  all-++ (c ∷ s) t h g = ground (arith, all-++ s t)

  all-take : (n : ℕ) (s : Text) → all p s ≡ true → all p (take n s) ≡ true
  all-take zero s h = refl
  all-take (suc n) [] h = refl
  all-take (suc n) (c ∷ s) h = ground (arith, all-take n s)

  all-lstrip : (space : ℕ → Bool) (s : Text) → all p s ≡ true → all p (lstrip space s) ≡ true
  unfolding lstrip
  all-lstrip space [] h = refl
  all-lstrip space (c ∷ s) h = ground (arith, all-lstrip space s)

  all-reverse : (s : Text) → all p s ≡ true → all p (reverse s) ≡ true
  all-reverse [] h = refl
  all-reverse (c ∷ s) h =
      rw (reverse-cons c s)
        (all-++ (reverse s) (c ∷ []) (all-reverse s (ground arith)) (ground arith))

  all-strip : (space : ℕ → Bool) (s : Text) → all p s ≡ true → all p (strip space s) ≡ true
  unfolding strip
  all-strip space s h = all-reverse _ (all-lstrip space _ (all-reverse _ (all-lstrip space s h)))

module _ (runtime : Runtime) where
  all-collapse :
      (after : Bool) (s : Text)
      → all (λ c. runtime.is_space c || not (runtime.is_hidden c)) s ≡ true
      → all (is_clean runtime) (collapse runtime after s) ≡ true
  unfolding collapse
  all-collapse after [] h = refl
  all-collapse after (c ∷ s) h = ground (arith, all-collapse true s, all-collapse false s)

  all-kept_chars : (q : ℕ → Bool) (s : Text) → all q (kept_chars q s) ≡ true
  all-kept_chars q [] = refl
  all-kept_chars q (c ∷ s) = ground (arith, all-kept_chars q s)

  all-cut :
      (s : Text)
      → all (is_clean runtime) s ≡ true
      → (all (is_clean runtime) (cut s) ≡ true) × (length (cut s) ≤ 64)
  all-cut s h = elim (Bool-cases (ltb 64 (length s))) [
    | inl long ↦ rw long (
      all-++ (is_clean runtime) (take 63 s) (8230 ∷ []) (all-take (is_clean runtime) 63 s h)
          (ground arith),
      omega (arith, length-append (take 63 s) (8230 ∷ []), length-take 63 s (ground arith)),
    )
    | inr short ↦ rw short (h, ground arith)
  ]

  -- If the substitution of the secrets makes its result of the text and the replacement, and the
  -- replacement is clean, a sanitized text has at most 64 characters, and each is a blank, an ellipsis, or neither white space
  -- nor a control or format character.
  pub sanitize_lem :
      (secrets : Secrets) (text : Text)
      → Substitutes runtime secrets
      → all (is_clean runtime) redacted ≡ true
      → (all (is_clean runtime) (sanitize runtime secrets text) ≡ true)
        × (length (sanitize runtime secrets text) ≤ 64)
  unfolding sanitize scrub strip
  sanitize_lem secrets text substitutes clean =
      let visible = kept_chars (λ c. runtime.is_space c || not (runtime.is_hidden c)) text in
      let one_line = collapse runtime false visible in
      all-cut _ (
        substitutes (is_clean runtime) (strip runtime.is_space one_line) clean (
          all-strip (is_clean runtime) runtime.is_space one_line (
            all-collapse false visible
              (all-kept_chars (λ c. runtime.is_space c || not (runtime.is_hidden c)) text))))
