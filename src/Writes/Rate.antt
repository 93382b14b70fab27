-- ===== src/Writes/Rate.antt =====
-- The rate limit of the write tools.
use tydomio.Base.{
  ◌↔◌, Result-cases, ◌≡◌, refl, false, Option, none, some, List, [], ◌∷◌, arith, Result, ok, err,
  >>=-eq_ok, inl, inr, ◌⊎◌, Bool-cases,
}
use tydomio.Base.Int.{pos}
use mathlib.Core.Path.{subst}
use tydomio.Model.{Config}
use tydomio.Installation.{Installation}
use tydomio.Cache.{Cache}
use tydomio.Requests.{Request}
use tydomio.Writes.{Failure, refused, raised, Seconds, Prepared, count, synced_parts}
use tydomio.Writes.Tool.{Ending, Call, write_call, check, finish}

-- What the theorem asks of floats: a difference is positive exactly if its second operand is less than
-- its first, as IEEE 754 has it for the doubles of a clock.
pub record IsLawful {S : Type 0} (seconds : Seconds S) : Type 0 where
  pub positive_minus :
      (x y : S) → seconds.lt (seconds.of_int (pos 0)) (seconds.minus x y) ≡ seconds.lt y x

module _ {S : Type 0} (seconds : Seconds S) (interval : S) where
  -- Between two sends, the later first, the clock shows no less than the interval.
  abbrev pub Apart : S → S → Type 0
  Apart t last = seconds.lt (seconds.minus t last) interval ≡ false

  -- The time of the last send before a send.
  abbrev pub Spaced : Option S → List S → Type 0
  Spaced last [] = Unit
  Spaced none (t ∷ ts) = Spaced (some t) ts
  Spaced (some l) (t ∷ ts) = Apart t l × Spaced (some t) ts

  -- Whether the clock lets a send through.
  abbrev pub Allowed : S → Option S → Type 0
  Allowed now none = Unit
  Allowed now (some l) = Apart now l

  count-eq_ok :
      (lawful : IsLawful seconds) (now : S) (last counted : Option S)
      → count seconds interval now last ≡ ok counted
      → (counted ≡ some now) × Allowed now last
  unfolding count
  count-eq_ok lawful now none counted h = (ground arith, tt)
  count-eq_ok lawful now (some l) counted h =
      let sign = lawful.positive_minus interval (seconds.minus now l) in
      elim (Bool-cases (seconds.lt (seconds.minus now l) interval)) [
        | inl early ↦ absurd (cc (rw (sign, early) at h))
        | inr apart ↦ (ground arith, apart)
      ]

  count-Allowed :
      (lawful : IsLawful seconds) (now : S) (last : Option S)
      → Allowed now last
      → count seconds interval now last ≡ ok (some now)
  unfolding count
  count-Allowed lawful now none h = refl
  count-Allowed lawful now (some l) h =
      rw (lawful.positive_minus interval (seconds.minus now l), h) refl

  Spaced-cons :
      (t : S) (last : Option S) (ts : List S)
      → Allowed t last
      → Spaced (some t) ts
      → Spaced last (t ∷ ts)
  Spaced-cons t none ts a h = h
  Spaced-cons t (some l) ts a h = (a, h)

-- One call of either tool: its time, how its send ends, the cache, and its arguments once validated.
pub record Attempt (V T W S : Type 0) : Type 0 where
  pub now : S
  pub ending : Ending
  pub cache : Cache V T
  pub input : Option (Installation → Config → Result (Failure S) (Prepared W))

module _ {V T W S : Type 0} (seconds : Seconds S) (interval : S) where
  abbrev pub attempt : Attempt V T W S → Option S → Call S
  attempt a last =
      write_call seconds interval (λ prepare. prepare) a.now a.ending a.cache a.input last

  -- The times of the sends of a session, in order.
  unfoldable pub send_times : List (Attempt V T W S) → Option S → List S
  send_times [] last = []
  send_times (a ∷ more) last =
      let c = attempt a last in
      let rest = send_times more c.last_send in
      elim c.sent [ none ↦ rest | some request ↦ a.now ∷ rest ]

  check-counts :
      (now : S) (last : Option S) (cache : Cache V T)
      (prepare : Installation → Config → Result (Failure S) (Prepared W)) (p : Prepared W)
      (counted : Option S)
      → check seconds interval now last cache prepare ≡ ok (p, counted)
      → count seconds interval now last ≡ ok counted
  unfolding check
  check-counts now last cache prepare p counted h =
      let (parts, fresh_parts, h₁) = >>=-eq_ok (synced_parts cache) _ h in
      let (prepared, accepted, h₂) = >>=-eq_ok (prepare parts.0 parts.1) _ h₁ in
      let (c, allowed, h₃) = >>=-eq_ok (count seconds interval now last) _ h₂ in ground arith

  abbrev Sends : Attempt V T W S → Option S → Call S → Type 0
  Sends a last c =
      ((c.sent ≡ none) × (c.last_send ≡ last))
      ⊎ ((request : Request) × (c.sent ≡ some request)
          × (c.last_send ≡ some a.now)
          × Allowed seconds interval a.now last)

  module _ (lawful : IsLawful seconds) where
    -- If a difference of floats is positive exactly where its second operand is less than its first: a
    -- call that passes the other steps, on a fresh cache, sends its request exactly if no send was counted
    -- yet or the clock shows at least the interval since the last one.
    pub write_call-Allowed :
        {I : Type 0} (prepare : I → Installation → Config → Result (Failure S) (Prepared W))
        (input : I) (now : S) (ending : Ending) (cache : Cache V T) (last : Option S)
        (i : Installation) (config : Config) (p : Prepared W)
        → synced_parts {S = S} cache ≡ ok (i, config)
        → prepare input i config ≡ ok p
        → ((write_call seconds interval prepare now ending cache (some input) last).sent
            ≡ some p.request)
          ↔ Allowed seconds interval now last
    unfolding write_call check
    write_call-Allowed prepare input now ending cache last i config p synced prepared = (
      λ sent. passes sent,
      λ allowed. rw (synced, prepared, count-Allowed seconds interval lawful now last allowed) refl,
    )
      where
        passes :
            (write_call seconds interval prepare now ending cache (some input) last).sent
              ≡ some p.request
            → Allowed seconds interval now last
        passes sent = elim (Result-cases (count seconds interval now last)) [
          | inl (refused reason retry, late) ↦ absurd (cc (rw (synced, prepared, late) at sent))
          | inl (raised e, late) ↦ absurd (cc (rw (synced, prepared, late) at sent))
          | inr (counted, allowed) ↦
              (count-eq_ok seconds interval lawful now last counted allowed).1
        ]

    finish-Sends :
        (a : Attempt V T W S) (last : Option S) (r : Result (Failure S) (Prepared W × Option S))
        → ((p : Prepared W) (counted : Option S)
            → r ≡ ok (p, counted)
            → count seconds interval a.now last ≡ ok counted)
        → Sends a last (finish a.ending last r)
    finish-Sends a last (err (refused reason retry)) h = inl (refl, refl)
    finish-Sends a last (err (raised e)) h = inl (refl, refl)
    finish-Sends a last (ok (p, counted)) h =
        let (same, allowed) =
          count-eq_ok seconds interval lawful a.now last counted (h p counted refl) in
        inr (p.request, refl, same, allowed)

    attempt-Sends : (a : Attempt V T W S) (last : Option S) → Sends a last (attempt a last)
    unfolding write_call
    attempt-Sends a last = by_input a.input refl
      where
        by_input :
            (o : Option (Installation → Config → Result (Failure S) (Prepared W)))
            → a.input ≡ o
            → Sends a last
                (write_call seconds interval (λ prepare. prepare) a.now a.ending a.cache o last)
        by_input none e = inl (refl, refl)
        by_input (some prepare) e =
            finish-Sends a last (check seconds interval a.now last a.cache prepare)
              (check-counts a.now last a.cache prepare)

    -- If a difference of floats is positive exactly where its second operand is less than its first:
    -- however many calls of the write tools arrive, whatever their arguments and however their sends end,
    -- every send comes at least the interval after the send before it, as the clock shows it.
    pub send_times-Spaced :
        (attempts : List (Attempt V T W S)) (last : Option S)
        → Spaced seconds interval last (send_times attempts last)
    unfolding send_times
    send_times-Spaced [] last = tt
    send_times-Spaced (a ∷ more) last =
        spaced (attempt a last) (attempt-Sends a last)
          (send_times-Spaced more (attempt a last).last_send)
      where
        spaced :
            (c : Call S)
            → Sends a last c
            → Spaced seconds interval c.last_send (send_times more c.last_send)
            → Spaced seconds interval last (elim c.sent [
              | none ↦ send_times more c.last_send
              | some request ↦ a.now ∷ send_times more c.last_send
            ])
        spaced c (inl (silent, same)) h = rw silent (
            subst (λ (o : Option S). Spaced seconds interval o (send_times more c.last_send)) same
              h)
        spaced c (inr (request, sent, same, allowed)) h = rw sent (
            Spaced-cons seconds interval a.now last (send_times more c.last_send) allowed (
              subst (λ (o : Option S). Spaced seconds interval o (send_times more c.last_send)) same
                h))
