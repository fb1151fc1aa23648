-- ===== src/RateLimit/Window/Weigh.antt =====
-- The weight of the records that a test picks: their number, or their bytes.
use tx2_link.Common.{
  ℕ, ◌+◌, ◌≤◌, ◌≡◌, refl, Bool, true, List, [], ◌∷◌, ◌++◌, arith, if◌then◌else◌, length, keep,
  IsU64,
}
use tx2_link.RateLimit.Window.{MessageRecord, Instant, Duration, in_window, pop_old, sum_sizes}

unfoldable pub weigh : (MessageRecord → ℕ) → (MessageRecord → Bool) → List MessageRecord → ℕ
weigh w p [] = 0
weigh w p (r ∷ rs) = (if p r then w r else 0) + weigh w p rs

abbrev pub one : MessageRecord → ℕ
one r = 1

abbrev pub bytes : MessageRecord → ℕ
bytes r = r.size

pub weigh-append :
    (w : MessageRecord → ℕ) (p : MessageRecord → Bool) (rs ss : List MessageRecord)
    → weigh w p (rs ++ ss) ≡ weigh w p rs + weigh w p ss
unfolding weigh
weigh-append w p [] ss = omega arith
weigh-append w p (r ∷ rs) ss = omega (arith, weigh-append w p rs ss)

pub length-keep :
    (p : MessageRecord → Bool) (rs : List MessageRecord) → length (keep p rs) ≡ weigh one p rs
unfolding weigh keep
length-keep p [] = refl
length-keep p (r ∷ rs) = ground (arith, length-keep p rs)

-- The wrapping sum is the sum where that fits 64 bits.
pub sum_sizes-keep :
    (p : MessageRecord → Bool) (rs : List MessageRecord)
    → IsU64 (weigh bytes p rs)
    → sum_sizes (keep p rs) ≡ weigh bytes p rs
unfolding weigh keep sum_sizes
sum_sizes-keep p [] h = refl
sum_sizes-keep p (r ∷ rs) h = ground (arith, sum_sizes-keep p rs)

pub weigh_mono :
    (w : MessageRecord → ℕ) (p q : MessageRecord → Bool) (rs : List MessageRecord)
    → ((r : MessageRecord) → p r ≡ true → q r ≡ true)
    → weigh w p rs ≤ weigh w q rs
unfolding weigh
weigh_mono w p q [] h = omega arith
weigh_mono w p q (r ∷ rs) h = ground (arith, h r, weigh_mono w p q rs h)

-- Pruning removes nothing that a test for recent records picks.
pub weigh-pop_old :
    (w : MessageRecord → ℕ) (p : MessageRecord → Bool) (now : Instant) (span : Duration)
    (rs : List MessageRecord)
    → ((r : MessageRecord) → p r ≡ true → in_window now span r ≡ true)
    → weigh w p (pop_old now span rs) ≡ weigh w p rs
unfolding weigh pop_old
weigh-pop_old w p now span [] h = refl
weigh-pop_old w p now span (r ∷ rs) h = ground (arith, h r, weigh-pop_old w p now span rs h)
