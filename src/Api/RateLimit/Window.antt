-- ===== src/Api/RateLimit/Window.antt =====
-- No client is let through more often than the limit in any window that ends at a request.
use kufi_chain.Prelude.{
  ℕ, ◌+◌, ◌≤◌, ◌<◌, String, ◌≡◌, refl, true, false, ◌&&◌, List, [], ◌∷◌, ◌++◌, arith, ◌==◌, eq_iff,
  if◌then◌else◌, length, select, Bool-cases, inl, inr, ap, ◌∙◌,
}
use kufi_chain.Prelude.Int.{ℤ, ◌-ℤ◌, ◌≤ℤ◌, -ℤ_parts}
use kufi_chain.Prelude.Dict.{lookup-insert, lookup-insert_self}
use kufi_chain.Api.RateLimit.{RateLimiter, requests_of, after, rate_limit}

-- How many of the times lie after the cutoff.
abbrev pub count_after : ℤ → List ℤ → ℕ
count_after c ts = length (select (after c) ts)

count_after-append :
    (c : ℤ) (xs ys : List ℤ) → count_after c (xs ++ ys) ≡ count_after c xs + count_after c ys
count_after-append c [] ys = omega arith
count_after-append c (x ∷ xs) ys = ground (arith, count_after-append c xs ys)

count_after-select :
    (c d : ℤ) (xs : List ℤ) → c ≤ℤ d → count_after d (select (after c) xs) ≡ count_after d xs
count_after-select c d [] h = refl
count_after-select c d (x ∷ xs) h = ground (arith, count_after-select c d xs h)

count_after_mono : (c d : ℤ) (xs : List ℤ) → c ≤ℤ d → count_after d xs ≤ count_after c xs
count_after_mono c d [] h = omega arith
count_after_mono c d (x ∷ xs) h = ground (arith, count_after_mono c d xs h)

-- Requests of all clients in their order, each with its client and its time. The first component
-- is the history of client `ip`: `past`, and the times at which it was let through.
unfoldable pub admitted : String → List ℤ → List (String × ℤ) → RateLimiter → List ℤ × RateLimiter
admitted ip past [] rl = (past, rl)
admitted ip past ((who, now) ∷ more) rl =
    let (pass, rl') = rate_limit who now rl in
    admitted ip (if who == ip && pass then past ++ now ∷ [] else past) more rl'

-- The times do not go back.
abbrev pub Ordered : ℤ → List (String × ℤ) → Type 0
Ordered t [] = Unit
Ordered t ((who, u) ∷ us) = (t ≤ℤ u) × Ordered u us

-- From the cutoff at `now` on, the limiter's list counts as the history does, and no cutoff leaves
-- more than the limit.
abbrev Agrees : String → List ℤ → ℤ → RateLimiter → Type 0
Agrees ip past now rl =
    (c : ℤ)
    → now -ℤ rl.window ≤ℤ c
    → (count_after c (requests_of ip rl) ≡ count_after c past) × (count_after c past ≤ rl.limit)

rate_limit-frame :
    (ip : String) (now : ℤ) (rl : RateLimiter)
    → ((rate_limit ip now rl).1.limit ≡ rl.limit) × ((rate_limit ip now rl).1.window ≡ rl.window)
unfolding rate_limit
rate_limit-frame ip now rl = ground arith

rate_limit-other :
    (who ip : String) (now : ℤ) (rl : RateLimiter)
    → (who == ip) ≡ false
    → requests_of ip (rate_limit who now rl).1 ≡ requests_of ip rl
unfolding rate_limit
rate_limit-other who ip now rl differs =
    let valid = select (after (now -ℤ rl.window)) (requests_of who rl) in
    ground (arith, lookup-insert who ip (valid ++ now ∷ []) rl.requests)

-- What the limiter does to the list of the client whose request it handles.
rate_limit_self :
    (ip : String) (now : ℤ) (rl : RateLimiter)
    → let (pass, rl') = rate_limit ip now rl in
      (pass ≡ true
        → (requests_of ip rl' ≡ select (after (now -ℤ rl.window)) (requests_of ip rl) ++ now ∷ [])
          × (count_after (now -ℤ rl.window) (requests_of ip rl) < rl.limit))
      × (pass ≡ false → rl' ≡ rl)
unfolding rate_limit
rate_limit_self ip now rl =
    let valid = select (after (now -ℤ rl.window)) (requests_of ip rl) in
    (
      λ e. (ground (arith, lookup-insert_self ip (valid ++ now ∷ []) rl.requests), ground arith),
      λ e. ground arith,
    )

step-Agrees :
    (ip who : String) (past : List ℤ) (t now : ℤ) (rl : RateLimiter)
    → t ≤ℤ now
    → Agrees ip past t rl
    → Agrees ip
        (if who == ip && (rate_limit who now rl).0 then past ++ now ∷ [] else past)
        now
        (rate_limit who now rl).1
step-Agrees ip who past t now rl later h c from =
    let frame = rate_limit-frame who now rl in
    let w = rl.window in
    let cut : now -ℤ w ≤ℤ c = ground (arith, frame) in
    let old = h c (omega (arith, -ℤ_parts t w, -ℤ_parts now w)) in
    elim (Bool-cases (who == ip)) [
      | inr differs ↦ ground (arith, frame, old, rate_limit-other who ip now rl differs)
      | inl same ↦ elim (Bool-cases (rate_limit who now rl).0) [
        | inr rejected ↦ ground (arith, frame, old, rate_limit_self who now rl)
        | inl passed ↦
            let (lists, room) = (rate_limit_self who now rl).0 passed in
            ground (
              arith,
              frame,
              old,
              (eq_iff who ip).0 same,
              lists,
              room,
              count_after-append c (select (after (now -ℤ w)) (requests_of ip rl)) (now ∷ []),
              count_after-append c past (now ∷ []),
              count_after-select (now -ℤ w) c (requests_of ip rl) cut,
              count_after_mono (now -ℤ w) c (requests_of ip rl) cut,
            )
      ]
    ]

-- The time of the last request.
abbrev pub last_time : ℤ → List (String × ℤ) → ℤ
last_time t [] = t
last_time t ((who, u) ∷ us) = last_time u us

admitted-Agrees :
    (ip : String) (past : List ℤ) (t : ℤ) (us : List (String × ℤ)) (rl : RateLimiter)
    → Ordered t us
    → Agrees ip past t rl
    → let (past', rl') = admitted ip past us rl in
      Agrees ip past' (last_time t us) rl' × (rl'.limit ≡ rl.limit) × (rl'.window ≡ rl.window)
unfolding admitted
admitted-Agrees ip past t [] rl o h = (h, refl, refl)
admitted-Agrees ip past t ((who, now) ∷ us) rl (later, o) h =
    let past' = if who == ip && (rate_limit who now rl).0 then past ++ now ∷ [] else past in
    let (l, w) = rate_limit-frame who now rl in
    let (a, l', w') =
      admitted-Agrees ip past' now us (rate_limit who now rl).1 o
        (step-Agrees ip who past t now rl later h) in
    (a, l' ∙ l, w' ∙ w)

-- Whatever requests the clients make, in the order of their times, a client that the limiter has
-- not seen before is let through at most `limit` times in the window that ends at the last request.
pub admitted_capped :
    (ip : String) (t : ℤ) (us : List (String × ℤ)) (rl : RateLimiter)
    → requests_of ip rl ≡ []
    → Ordered t us
    → count_after (last_time t us -ℤ rl.window) (admitted ip [] us rl).0 ≤ rl.limit
admitted_capped ip t us rl fresh o =
    let start : Agrees ip [] t rl = λ c from. (ap (count_after c) fresh, omega arith) in
    let (a, l, w) = admitted-Agrees ip [] t us rl o start in
    let cut = last_time t us -ℤ rl.window in ground (arith, a cut)
