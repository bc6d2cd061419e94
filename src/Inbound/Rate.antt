-- ===== src/Inbound/Rate.antt =====
-- How many messages of one sender come through in a minute.
use dotagent.Common.{
  ℕ, ◌+◌, ◌-◌, ◌≤◌, ◌<◌, ◌≡◌, refl, subst, ◌∙◌, inl, inr, true, ◌&&◌, List, [], ◌∷◌, ◌++◌, arith,
  ltb, leb, if◌then◌else◌, u32, Bool-cases,
}
use dotagent.Common.Int.{ℤ, pos, negsuc, eq_ℤ}
use dotagent.Inbound.Limiter.{RateLimiter, new_limiter, rate_window, recent, hits_of, check_at}

eq_ℤ-eq : (a b : ℤ) → eq_ℤ a b ≡ true → a ≡ b
eq_ℤ-eq (pos a) (pos b) h = ground (arith)
eq_ℤ-eq (negsuc a) (negsuc b) h = ground (arith)
eq_ℤ-eq (pos a) (negsuc b) h = absurd cc
eq_ℤ-eq (negsuc a) (pos b) h = absurd cc

eq_ℤ-refl : (a : ℤ) → eq_ℤ a a ≡ true
eq_ℤ-refl (pos a) = ground arith
eq_ℤ-refl (negsuc a) = ground arith

-- the hits of a user in the minute before a time
abbrev pub within_minute : ℕ → ℤ → List (ℤ × ℕ) → ℕ
within_minute now user [] = 0
within_minute now user (h ∷ hits) =
    within_minute now user hits + (if ltb (now - h.1) rate_window && eq_ℤ h.0 user then 1 else 0)

within_minute-recent :
    (now later : ℕ) (user : ℤ) (hits : List (ℤ × ℕ))
    → now ≤ later
    → within_minute later user (recent now hits) ≡ within_minute later user hits
within_minute-recent now later user [] le = refl
within_minute-recent now later user (h ∷ hits) le =
    ground (arith, within_minute-recent now later user hits le)

within_minute-append :
    (now : ℕ) (user : ℤ) (hits more : List (ℤ × ℕ))
    → within_minute now user (hits ++ more)
      ≡ within_minute now user hits + within_minute now user more
within_minute-append now user [] more = omega arith
within_minute-append now user (h ∷ hits) more =
    omega (arith, within_minute-append now user hits more)

hits_of-recent :
    (now : ℕ) (user : ℤ) (hits : List (ℤ × ℕ))
    → hits_of user (recent now hits) ≡ within_minute now user hits
hits_of-recent now user [] = refl
hits_of-recent now user (h ∷ hits) = ground (arith, hits_of-recent now user hits)

within_minute-later :
    (now later : ℕ) (user : ℤ) (hits : List (ℤ × ℕ))
    → now ≤ later
    → within_minute later user hits ≤ within_minute now user hits
within_minute-later now later user [] le = omega arith
within_minute-later now later user (h ∷ hits) le =
    ground (arith, within_minute-later now later user hits le)

module _ (user : ℤ) (now : ℕ) (limiter : RateLimiter) where
  check_at-per_minute : (check_at user now limiter).1.per_minute ≡ limiter.per_minute
  unfolding check_at
  check_at-per_minute = ground arith

  -- what one more attempt does to the count of any sender, then and later
  check_at-counts :
      (later : ℕ) (u : ℤ)
      → now ≤ later
      → within_minute later u (check_at user now limiter).1.hits
        ≡ within_minute later u limiter.hits
          + (if (check_at user now limiter).0 then within_minute later u ((user, now) ∷ []) else 0)
  unfolding check_at
  check_at-counts later u le =
      elim (Bool-cases (leb limiter.per_minute (u32 (hits_of user (recent now limiter.hits))))) [
        | inl full ↦ rw full (omega (arith, within_minute-recent now later u limiter.hits le))
        | inr free ↦ rw free (
            omega (
              arith,
              within_minute-append later u (recent now limiter.hits) ((user, now) ∷ []),
              within_minute-recent now later u limiter.hits le,
            ))
      ]

  -- it is counted only if there is room
  check_at-room :
      limiter.per_minute < 4294967296
      → within_minute now user limiter.hits ≤ limiter.per_minute
      → (check_at user now limiter).0 ≡ true
      → within_minute now user limiter.hits < limiter.per_minute
  unfolding check_at
  check_at-room small le passes = ground (arith, hits_of-recent now user limiter.hits)

-- the limiter after attempts, the newest first, and the attempts that it let through
unfoldable pub serve_all : ℕ → List (ℤ × ℕ) → RateLimiter
serve_all per_minute [] = new_limiter per_minute
serve_all per_minute ((user, now) ∷ earlier) = (check_at user now (serve_all per_minute earlier)).1

unfoldable pub admitted : ℕ → List (ℤ × ℕ) → List (ℤ × ℕ)
admitted per_minute [] = []
admitted per_minute ((user, now) ∷ earlier) =
    let rest = admitted per_minute earlier in
    if (check_at user now (serve_all per_minute earlier)).0 then (user, now) ∷ rest else rest

abbrev pub latest : List (ℤ × ℕ) → ℕ
latest [] = 0
latest (a ∷ earlier) = a.1

abbrev pub InOrder : List (ℤ × ℕ) → Type 0
InOrder [] = Unit
InOrder (a ∷ earlier) = (latest earlier ≤ a.1) × InOrder earlier

serve_all-per_minute :
    (per_minute : ℕ) (tries : List (ℤ × ℕ)) → (serve_all per_minute tries).per_minute ≡ per_minute
unfolding serve_all
serve_all-per_minute per_minute [] = refl
serve_all-per_minute per_minute ((user, now) ∷ earlier) =
    check_at-per_minute user now (serve_all per_minute earlier)
    ∙ serve_all-per_minute per_minute earlier

-- the hits are the attempts let through, as far as they still count
serve_all-admitted :
    (per_minute : ℕ) (tries : List (ℤ × ℕ)) (u : ℤ) (later : ℕ)
    → InOrder tries
    → latest tries ≤ later
    → within_minute later u (serve_all per_minute tries).hits
      ≡ within_minute later u (admitted per_minute tries)
unfolding serve_all admitted
serve_all-admitted per_minute [] u later order le = refl
serve_all-admitted per_minute ((user, now) ∷ earlier) u later order le =
    let sh = serve_all per_minute earlier in
    let before =
      serve_all-admitted per_minute earlier u later order.1 (omega (arith, order.0, le)) in
    let counts = check_at-counts user now sh later u le in
    elim (Bool-cases (check_at user now sh).0) [
      | inl p ↦ rw p (omega (arith, before, rw p at counts))
      | inr p ↦ rw p (omega (arith, before, rw p at counts))
    ]

within_minute-suc :
    (later : ℕ) (u : ℤ) (h : ℤ × ℕ) (hits : List (ℤ × ℕ))
    → within_minute later u (h ∷ hits) ≤ 1 + within_minute later u hits
within_minute-suc later u h hits = ground arith

-- Of one sender at most `per_minute` attempts come through in any minute, however many there are, if
-- the clock does not go back and the limit fits its type.
pub admitted-le :
    (per_minute : ℕ) (tries : List (ℤ × ℕ)) (u : ℤ) (later : ℕ)
    → per_minute < 4294967296
    → InOrder tries
    → latest tries ≤ later
    → within_minute later u (admitted per_minute tries) ≤ per_minute
unfolding admitted
admitted-le per_minute [] u later small order le = omega arith
admitted-le per_minute ((user, now) ∷ earlier) u later small order le =
    let sh = serve_all per_minute earlier in
    let before =
      admitted-le per_minute earlier u later small order.1 (omega (arith, order.0, le)) in
    elim (Bool-cases (check_at user now sh).0) [
      | inr p ↦ rw p before
      | inl p ↦ elim (Bool-cases (eq_ℤ user u)) [
        | inr other ↦ rw p (ground (arith, other, before))
        | inl same ↦
            let per = serve_all-per_minute per_minute earlier in
            let full = admitted-le per_minute earlier user now small order.1 order.0 in
            let hits = serve_all-admitted per_minute earlier user now order.1 order.0 in
            let room =
              check_at-room user now sh (omega (arith, per, small)) (omega (arith, hits, full, per))
                p in
            let now_free : within_minute now u (admitted per_minute earlier) < per_minute =
              subst (λ v. within_minute now v (admitted per_minute earlier) < per_minute)
                (eq_ℤ-eq user u same) (omega (arith, hits, room, per)) in
            let until = within_minute-later now later u (admitted per_minute earlier) le in
            let one = within_minute-suc later u (user, now) (admitted per_minute earlier) in
            rw p (omega (arith, one, until, now_free))
      ]
    ]
