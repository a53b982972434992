-- ===== src/Services/Exchange/Window.antt =====
-- The requests of one module, against its bucket (services/token_exchange.rs).
use fenrir.Prelude.{
  ℕ, suc, ◌+◌, ◌-◌, ◌*◌, ◌≤◌, ◌<◌, min, Bool, true, false, Option, none, some, List, [], ◌∷◌, All,
  length, ltb, leb, ◌≡◌, refl, arith, Bool-cases, inl, inr, leb→le, subst, sym,
}
use fenrir.Services.Exchange.{
  RateBucket, rate_limit_window, rate_limit_max_requests, fresh_bucket, counted, ask,
}

abbrev pub one_if : Bool → ℕ
one_if true = 1
one_if false = 0

-- How many of the requests at these times are granted.
unfoldable pub grants : List ℕ → Option RateBucket → ℕ
unfolding ask
grants [] found = 0
grants (now ∷ rest) found =
    let (granted, bucket) = ask now found in one_if granted + grants rest (some bucket)

-- A time in the half minute that begins at `from`.
abbrev pub Within : ℕ → ℕ → Type 0
Within from now = (from ≤ now) × (now ≤ from + rate_limit_window)

room : RateBucket → ℕ
room bucket = rate_limit_max_requests - bucket.count

counted-room :
    (bucket : RateBucket)
    → (one_if (counted bucket).0 + room (counted bucket).1 ≡ room bucket)
      × ((counted bucket).1.start ≡ bucket.start)
unfolding room
counted-room bucket = ground arith

-- A bucket that began in the half minute is not reset in it.
ask-same :
    (from now : ℕ) (bucket : RateBucket)
    → Within from now
    → from ≤ bucket.start
    → ask now (some bucket) ≡ counted bucket
unfolding ask
ask-same from now bucket h k =
    let same : ltb rate_limit_window (now - bucket.start) ≡ false = ground arith in rw same refl

grants-same :
    (from : ℕ) (times : List ℕ) (bucket : RateBucket)
    → All (Within from) times
    → from ≤ bucket.start
    → grants times (some bucket) ≤ room bucket
unfolding grants
grants-same from [] bucket h k = omega arith
grants-same from (now ∷ rest) bucket h k =
    let (left, start) = counted-room bucket in
    let later =
      grants-same from rest (counted bucket).1 h.1 (subst (λ n. from ≤ n) (sym start) k) in
    rw (ask-same from now bucket h.0 k) (omega (arith, left, later))

-- A bucket that is reset, or made, in the half minute.
grants-fresh :
    (from now : ℕ) (rest : List ℕ)
    → Within from now
    → All (Within from) rest
    → one_if (counted (fresh_bucket now)).0 + grants rest (some (counted (fresh_bucket now)).1)
      ≤ rate_limit_max_requests
unfolding room
grants-fresh from now rest h k =
    let later = grants-same from rest (record { start = now; count = 1 }) k h.0 in
    omega (arith, later)

ask-reset :
    (now : ℕ) (bucket : RateBucket)
    → ltb rate_limit_window (now - bucket.start) ≡ true
    → ask now (some bucket) ≡ counted (fresh_bucket now)
unfolding ask
ask-reset now bucket h = rw h refl

ask-kept :
    (now : ℕ) (bucket : RateBucket)
    → ltb rate_limit_window (now - bucket.start) ≡ false
    → ask now (some bucket) ≡ counted bucket
unfolding ask
ask-kept now bucket h = rw h refl

grants-old :
    (from : ℕ) (times : List ℕ) (bucket : RateBucket)
    → All (Within from) times
    → grants times (some bucket) ≤ room bucket + rate_limit_max_requests
unfolding grants
grants-old from [] bucket h = omega arith
grants-old from (now ∷ rest) bucket h =
    let (left, start) = counted-room bucket in
    let fresh = grants-fresh from now rest h.0 h.1 in
    let later = grants-old from rest (counted bucket).1 h.1 in
    elim (Bool-cases (ltb rate_limit_window (now - bucket.start))) [
      | inl e ↦ rw (ask-reset now bucket e) (omega (arith, fresh))
      | inr e ↦ rw (ask-kept now bucket e) (omega (arith, left, later))
    ]

-- Of the requests of half a minute, at most 120 are granted, whatever the bucket was before.
pub grants-le :
    (from : ℕ) (times : List ℕ) (found : Option RateBucket)
    → All (Within from) times
    → grants times found ≤ 2 * rate_limit_max_requests
unfolding grants ask room
grants-le from [] found h = omega arith
grants-le from (now ∷ rest) none h =
    let same : ltb rate_limit_window (now - now) ≡ false = ground arith in
    let fresh = grants-fresh from now rest h.0 h.1 in rw same (omega (arith, fresh))
grants-le from (now ∷ rest) (some bucket) h =
    let old = grants-old from (now ∷ rest) bucket h in omega (arith, old)

grants-counted :
    (times : List ℕ) (bucket : RateBucket)
    → All (Within bucket.start) times
    → bucket.count ≤ rate_limit_max_requests
    → grants times (some bucket) ≡ min (length times) (room bucket)
unfolding grants room
grants-counted [] bucket h k = omega arith
grants-counted (now ∷ rest) bucket h k =
    let kept = ask-same bucket.start now bucket h.0 (omega arith) in
    elim (Bool-cases (leb rate_limit_max_requests bucket.count)) [
      | inl e ↦
          let later = grants-counted rest bucket h.1 k in
          let full = leb→le rate_limit_max_requests bucket.count e in
          rw (kept, e) (omega (arith, later, full))
      | inr e ↦
          let room_left : suc bucket.count ≤ rate_limit_max_requests = ground arith in
          let later =
            grants-counted rest (record bucket { count = suc bucket.count }) h.1 room_left in
          rw (kept, e) (omega (arith, later, room_left))
    ]

-- There is no bucket, or it began more than half a minute ago.
abbrev pub IsOver : ℕ → Option RateBucket → Type 0
IsOver now none = Unit
IsOver now (some bucket) = bucket.start + rate_limit_window < now

-- From a request on that begins a window, those of half a minute are granted up to the sixtieth.
pub grants-first :
    (now : ℕ) (rest : List ℕ) (found : Option RateBucket)
    → IsOver now found
    → All (Within now) rest
    → grants (now ∷ rest) found ≡ min (suc (length rest)) rate_limit_max_requests
unfolding grants ask room
grants-first now rest none over h =
    let same : ltb rate_limit_window (now - now) ≡ false = ground arith in
    let later = grants-counted rest (record { start = now; count = 1 }) h (omega arith) in
    rw same (omega (arith, later))
grants-first now rest (some bucket) over h =
    let late : ltb rate_limit_window (now - bucket.start) ≡ true = ground arith in
    let later = grants-counted rest (record { start = now; count = 1 }) h (omega arith) in
    rw late (omega (arith, later))
