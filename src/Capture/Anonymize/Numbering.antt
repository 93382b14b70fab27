-- ===== src/Capture/Anonymize/Numbering.antt =====
-- The maps that give ids, names and keys their tokens: they only grow, and no token is given twice.
use tydomio.Base.{
  ℕ, suc, ◌≤◌, ◌≡◌, ◌≢◌, ◌∙◌, sym, ap, none, some, [], ◌==◌, nat_eq, list_eq, ==→eq, length, drop,
  arith, Bool-cases, Option-cases, inl, inr,
}
use tydomio.Base.Dict
use tydomio.Base.Dict.{Dict}
use tydomio.Base.Text.{Text}
use tydomio.Base.Text.Digits.{show_nat_injective}
use tydomio.Capture.Anonymize.{key_token}

-- Every entry of a map is in another.
abbrev pub Grows {ℓ} : {A : Type ℓ} → Dict Text A → Dict Text A → Type ℓ
Grows {A} d e = (k : Text) (a : A) → Dict.lookup k d ≡ some a → Dict.lookup k e ≡ some a

-- The tokens of a map are made from the numbers up to its length, and each is given to one key.
pub record IsNumbered {A : Type 0} (token : ℕ → A) (d : Dict Text A) : Type 0 where
  pub number :
      (k : Text) (a : A) → Dict.lookup k d ≡ some a → (n : ℕ) × (a ≡ token n) × (n ≤ length d)
  pub single : (j k : Text) (a : A) → Dict.lookup j d ≡ some a → Dict.lookup k d ≡ some a → j ≡ k

-- The next token for a key that has none.
abbrev pub given {ℓ} : {A : Type ℓ} → (ℕ → A) → Text → Dict Text A → A × Dict Text A
given token k d = Dict.set_default k (token (suc (length d))) d

module _ {A : Type 0} (token : ℕ → A) where
  pub given-Grows : (k : Text) (d : Dict Text A) → Grows d (given token k d).1
  given-Grows k d = elim (Option-cases (Dict.lookup k d)) [
    | inl new ↦
        rw (Dict.set_default_new k (token (suc (length d))) d new)
          (λ j a h. ground (arith, Dict.lookup-insert j k (token (suc (length d))) d))
    | inr (w, known) ↦ rw (Dict.set_default_known k (token (suc (length d))) w d known) (λ j a h. h)
  ]

  pub lookup-given :
      (k : Text) (d : Dict Text A) → Dict.lookup k (given token k d).1 ≡ some (given token k d).0
  lookup-given k d = elim (Option-cases (Dict.lookup k d)) [
    | inl new ↦
        rw (Dict.set_default_new k (token (suc (length d))) d new)
          (ground (arith, Dict.lookup-insert k k (token (suc (length d))) d))
    | inr (w, known) ↦ rw (Dict.set_default_known k (token (suc (length d))) w d known) known
  ]

  -- A token that was given is given again by every later map, which it leaves as it is.
  pub given_again :
      (k : Text) (d e : Dict Text A)
      → Grows (given token k d).1 e
      → given token k e ≡ ((given token k d).0, e)
  given_again k d e h =
      Dict.set_default_known k (token (suc (length e))) (given token k d).0 e
        (h k _ (lookup-given k d))

  -- The next token is not among those given.
  fresh_token :
      (d : Dict Text A) (j : Text)
      → ((m n : ℕ) → token m ≡ token n → m ≡ n)
      → IsNumbered token d
      → Dict.lookup j d ≢ some (token (suc (length d)))
  fresh_token d j injective v h =
      let (n, same, small) = v.number j (token (suc (length d))) h in
      omega (arith, injective (suc (length d)) n same)

  insert-IsNumbered :
      (k : Text) (d : Dict Text A)
      → ((m n : ℕ) → token m ≡ token n → m ≡ n)
      → IsNumbered token d
      → Dict.lookup k d ≡ none
      → IsNumbered token (Dict.insert k (token (suc (length d))) d)
  insert-IsNumbered k d injective v new =
      let t = token (suc (length d)) in
      let longer = Dict.length-insert_new k t d new in
      record {
        number = λ j a h. elim (Bool-cases (j == k)) [
          | inl same ↦ (suc (length d), ground (arith, Dict.lookup-insert j k t d), omega arith)
          | inr other ↦
              let (n, made, small) = v.number j a (ground (arith, Dict.lookup-insert j k t d)) in
              (n, made, omega arith)
        ];
        single = λ i j a h g. elim (Bool-cases (i == k)) [
          | inl same ↦ elim (Bool-cases (j == k)) [
            | inl also ↦ ==→eq i k same ∙ sym (==→eq j k also)
            | inr other ↦ absurd (
                fresh_token d j injective v
                  (ground (arith, Dict.lookup-insert j k t d, Dict.lookup-insert i k t d)))
          ]
          | inr other ↦ elim (Bool-cases (j == k)) [
            | inl also ↦ absurd (
                fresh_token d i injective v
                  (ground (arith, Dict.lookup-insert j k t d, Dict.lookup-insert i k t d)))
            | inr neither ↦
                v.single i j a (ground (arith, Dict.lookup-insert i k t d))
                  (ground (arith, Dict.lookup-insert j k t d))
          ]
        ];
      }

  pub given-IsNumbered :
      (k : Text) (d : Dict Text A)
      → ((m n : ℕ) → token m ≡ token n → m ≡ n)
      → IsNumbered token d
      → IsNumbered token (given token k d).1
  given-IsNumbered k d injective v = elim (Option-cases (Dict.lookup k d)) [
    | inl new ↦
        rw (Dict.set_default_new k (token (suc (length d))) d new)
          (insert-IsNumbered k d injective v new)
    | inr (w, known) ↦ rw (Dict.set_default_known k (token (suc (length d))) w d known) v
  ]

pub numbered_empty : {A : Type 0} (token : ℕ → A) → IsNumbered token []
numbered_empty token = record {
  number = λ k a h. cc (Dict.lookup-nil {V = _} k);
  single = λ j k a h g. cc (Dict.lookup-nil {V = _} j);
}

pub key_token-injective : (m n : ℕ) → key_token m ≡ key_token n → m ≡ n
key_token-injective m n h = show_nat_injective m n b'>' (ap (drop 5) h)
