-- ===== src/Capture/Policy/Paths.antt =====
-- What the segments of rule paths mean, and what the trimming of a part takes off.
use tydomio.Base.{
  ℕ, zero, suc, ◌≡◌, refl, ◌∙◌, sym, ap, ◌≢◌, inl, inr, true, false, ◌&&◌, [], ◌∷◌, ◌++◌, ◌==◌,
  nat_eq, list_eq, ==→eq, arith, Bool-cases,
}
use tydomio.Base.Text.{Text, codes}
use tydomio.Capture.Policy.{list_item, with_char, trim_items}

-- The brackets of so many list items.
abbrev pub brackets : ℕ → Text
brackets zero = []
brackets (suc n) = list_item ++ brackets n

-- What trimming gives: the part, with all the brackets at its end apart.
abbrev IsTrimmed : Text → Text → Text × ℕ → Type 0
IsTrimmed part before (key, items) = (part ≡ key ++ brackets items) × (key ≢ before ++ list_item)

no_item : (before : Text) → [] ≢ before ++ list_item
no_item [] e = cc
no_item (b ∷ before) e = cc

is_item : (c : ℕ) (key : Text) → c ≡ b'[' → key ≡ codes "]" → (c == b'[' && key == codes "]") ≡ true
unfolding nat_eq list_eq
is_item c key p q = rw (p, q) refl

with_char-IsTrimmed :
    (c : ℕ) (s before : Text) (t : Text × ℕ)
    → ((b : Text) → IsTrimmed s b t)
    → IsTrimmed (c ∷ s) before (with_char c t)
with_char-IsTrimmed c s before (key, items) h = elim (Bool-cases (c == b'[' && key == codes "]")) [
  | inl item ↦
      let bracket : c ≡ b'[' = ==→eq c b'[' (ground arith) in
      let closing : key ≡ codes "]" = ==→eq key (codes "]") (ground arith) in
      let rest : s ≡ codes "]" ++ brackets items =
        (h before).0 ∙ ap (λ t. t ++ brackets items) closing in
      rw item (cc (bracket, rest), no_item before)
  | inr other ↦ rw other (ap (λ t. c ∷ t) (h before).0, longer other before)
]
  where
    longer :
        (c == b'[' && key == codes "]") ≡ false → (before : Text) → (c ∷ key) ≢ before ++ list_item
    longer other [] e =
        let bracket : c ≡ b'[' = cc in
        let closing : key ≡ codes "]" = cc in cc (sym (is_item c key bracket closing) ∙ other)
    longer other (b ∷ before) e = (h before).1 (cc)

-- The trimming of a part takes off brackets of list items only, and all of those at its end: what is
-- left does not end with one, whatever text it has before.
pub trim_items_lem :
    (part before : Text)
    → (part ≡ (trim_items part).0 ++ brackets (trim_items part).1)
      × ((trim_items part).0 ≢ before ++ list_item)
unfolding trim_items
trim_items_lem [] before = (refl, no_item before)
trim_items_lem (c ∷ s) before =
    with_char-IsTrimmed c s before (trim_items s) (λ b. trim_items_lem s b)
