-- ===== src/Protocol/Race.antt =====
-- `SEQUENCE_COUNTER` in `MessageHeader::new`, where more than one thread makes messages: it is a
-- `static mut`, and each call reads it, writes it, and reads it again. An interleaving of these
-- accesses is the best case of the data race, on which Rust gives no promise.
use tx2_link.Common.{ℕ, ◌≡◌, ◌≢◌, refl, List, [], ◌∷◌, ◌==◌, if◌then◌else◌, arith, add64}
use tx2_link.Protocol.{MessageType}
use tx2_link.Protocol.Messages.{message_id, new_header}

-- A thread between its accesses: it has read the counter to add 1, it has written it, or it has the
-- number of its message.
pub data Access : Type 0 where
  idle : Access
  loaded : ℕ → Access
  stored : Access
  has : ℕ → Access

-- The next access of a thread, and the counter after it. A thread that has its number starts over.
unfoldable pub access : Access → ℕ → Access × ℕ
access idle counter = (loaded counter, counter)
access (loaded n) counter = (stored, add64 n 1)
access stored counter = (has counter, counter)
access (has n) counter = (loaded counter, counter)

pub record Process : Type 0 where
  pub counter : ℕ
  pub thread : ℕ → Access

unfoldable pub step : ℕ → Process → Process
unfolding access
step i p =
    let (a, counter) = access (p.thread i) p.counter in
    record { counter = counter; thread = λ j. if i == j then a else p.thread j }

-- The threads take turns as the schedule says.
unfoldable pub run : List ℕ → Process → Process
unfolding step
run [] p = p
run (i ∷ is) p = run is (step i p)

abbrev pub IsAtRest : Access → Type 0
IsAtRest idle = Unit
IsAtRest (has n) = Unit
IsAtRest _ = ⊥

module _ (i j : ℕ) where
  -- Where the two threads stand, and the counter.
  pub record Looks (p : Process) (a b : Access) (n : ℕ) : Type 0 where
    pub first : p.thread i ≡ a
    pub second : p.thread j ≡ b
    pub counter : p.counter ≡ n

module _ (i j : ℕ) (apart : i ≢ j) {p : Process} {a b : Access} {n : ℕ}
    (l : Looks i j p a b n) where
  step_first : Looks i j (step i p) (access a n).0 b (access a n).1
  unfolding step
  step_first = record {
    first = ground (arith, l.first, l.counter);
    second = ground (arith, l.second);
    counter = rw (l.first, l.counter) refl;
  }

  step_second : Looks i j (step j p) a (access b n).0 (access b n).1
  unfolding step
  step_second = record {
    first = ground (arith, l.first);
    second = ground (arith, l.second, l.counter);
    counter = rw (l.second, l.counter) refl;
  }

module _ (i j : ℕ) (apart : i ≢ j) (p : Process) (n : ℕ) where
  first_starts :
      (a b : Access) → IsAtRest a → Looks i j p a b n → Looks i j (step i p) (loaded n) b n
  unfolding access
  first_starts idle b rest l = step_first i j apart l
  first_starts (has k) b rest l = step_first i j apart l
  first_starts (loaded k) b rest l = absurd rest
  first_starts stored b rest l = absurd rest

  second_starts :
      (a b : Access) → IsAtRest b → Looks i j p a b n → Looks i j (step j p) a (loaded n) n
  unfolding access
  second_starts a idle rest l = step_second i j apart l
  second_starts a (has k) rest l = step_second i j apart l
  second_starts a (loaded k) rest l = absurd rest
  second_starts a stored rest l = absurd rest

module _ (i j : ℕ) (apart : i ≢ j) (p : Process) (at_rest : IsAtRest (p.thread i))
    (also : IsAtRest (p.thread j)) where
  abbrev n : ℕ
  n = add64 p.counter 1

  abbrev looks : Looks i j p (p.thread i) (p.thread j) p.counter
  looks = record { first = refl; second = refl; counter = refl }

  one_after_the_other :
      Looks i j (run (i ∷ i ∷ i ∷ j ∷ j ∷ j ∷ []) p) (has n) (has (add64 n 1)) (add64 n 1)
  unfolding run access
  one_after_the_other =
      let done =
        step_first i j apart
          (step_first i j apart (first_starts i j apart p p.counter _ _ at_rest looks)) in
      step_second i j apart (step_second i j apart (second_starts i j apart _ n _ _ also done))

  interleaved : Looks i j (run (i ∷ j ∷ i ∷ j ∷ i ∷ j ∷ []) p) (has n) (has n) n
  unfolding run access
  interleaved =
      let both =
        second_starts i j apart _ p.counter _ _ also
          (first_starts i j apart p p.counter _ _ at_rest looks) in
      step_second i j apart
        (step_first i j apart (step_second i j apart (step_first i j apart both)))

-- Two threads that are at rest each make a message. If the one call ends before the other begins, they
-- get the numbers that `new_header` gives one after the other. If the calls take turns with each
-- access, both get the number that a single call would get, and one increment is lost: made in the same
-- millisecond, the two messages have one identifier.
pub calls_race :
    (i j : ℕ)
    → i ≢ j
    → (p : Process) → IsAtRest (p.thread i)
    → IsAtRest (p.thread j)
    → (k k' : MessageType) (v v' millis : ℕ)
    → (let (h, counter) = new_header k v millis p.counter in
        let (h', counter') = new_header k' v' millis counter in
        Looks i j (run (i ∷ i ∷ i ∷ j ∷ j ∷ j ∷ []) p) (has h.sequence) (has h'.sequence) counter'
        × Looks i j (run (i ∷ j ∷ i ∷ j ∷ i ∷ j ∷ []) p) (has h.sequence) (has h.sequence) counter
        × (message_id h'.timestamp h.sequence ≡ h.id))
unfolding new_header
calls_race i j apart p at_rest also k k' v v' millis =
    (one_after_the_other i j apart p at_rest also, interleaved i j apart p at_rest also, refl)
