-- ===== src/Service/Retry.antt =====
-- kms.rs: `RetryingKms`, which asks again after a failure, up to a number of times. Each of its four
-- methods is the same loop around a method of the inner client; the pauses are listed.
use hyperion_vault.Prelude.{
  ℕ, zero, suc, ◌+◌, ◌*◌, ◌^◌, ◌≤◌, ◌<◌, ◌≡◌, refl, List, [], ◌∷◌, Option, none, some, ltb, leb,
  if◌then◌else◌, arith, inl, inr, Option-cases, ap, sym,
}

-- `u64::saturating_mul(100, 1 << attempt.min(6))`
unfoldable pub backoff : ℕ → ℕ
backoff attempt = 100 * 2 ^ (if leb attempt 6 then attempt else 6)

module _ {W A : Type 0} (inner : W → Option A × W) where
  -- what a run of the loop gives: the answer, the pauses it made, the world after it
  pub record Ran : Type 0 where
    pub answer : Option A
    pub pauses : List ℕ
    pub world : W

  abbrev pub paused : ℕ → Ran → Ran
  paused attempt later = record later { pauses = backoff attempt ∷ later.pauses }

  -- the loop from an attempt on, with as many attempts left as `fuel` says; none when they run out
  unfoldable pub retry_loop : ℕ → ℕ → ℕ → W → Option Ran
  unfolding backoff
  retry_loop max_retries zero attempt w = none
  retry_loop max_retries (suc fuel) attempt w =
      let (answer, next) = inner w in
      let later = retry_loop max_retries fuel (attempt + 1) next in
      elim answer [
        | some a ↦ some (record { answer = some a; pauses = []; world = next })
        | none ↦
            if ltb attempt max_retries
            then elim later [ none ↦ none | some ran ↦ some (paused attempt ran) ]
            else some (record { answer = none; pauses = []; world = next })
      ]

  -- `generate_data_key` and the three others: as many attempts as there are retries, and the first one
  unfoldable pub retrying : ℕ → W → Option Ran
  unfolding retry_loop
  retrying max_retries w = retry_loop max_retries (suc max_retries) 0 w

  -- the inner client, called again and again
  unfoldable pub world_after : ℕ → W → W
  world_after zero w = w
  world_after (suc n) w = world_after n (inner w).1

  abbrev pub answer_at : ℕ → W → Option A
  answer_at n w = (inner (world_after n w)).0

  abbrev pub pauses_from : ℕ → ℕ → List ℕ
  pauses_from attempt zero = []
  pauses_from attempt (suc n) = backoff attempt ∷ pauses_from (attempt + 1) n

  -- a loop that stopped after some failures
  abbrev pub StoppedAfter : ℕ → ℕ → W → Ran → ℕ → Type 0
  StoppedAfter max_retries attempt w ran failures =
      (attempt + failures ≤ max_retries)
      × (ran.answer ≡ answer_at failures w)
      × (ran.world ≡ world_after (suc failures) w)
      × (ran.pauses ≡ pauses_from attempt failures)
      × ((n : ℕ) → n < failures → answer_at n w ≡ none)
      × (ran.answer ≡ none → attempt + failures ≡ max_retries)

  abbrev ended : Option A → W → Ran
  ended answer next = record { answer = answer; pauses = []; world = next }

  ends_answered :
      (max_retries fuel attempt : ℕ) (w : W) (a : A)
      → (inner w).0 ≡ some a
      → retry_loop max_retries (suc fuel) attempt w ≡ some (ended (some a) (inner w).1)
  unfolding retry_loop
  ends_answered max_retries fuel attempt w a h = ground arith

  ends_failed :
      (max_retries fuel attempt : ℕ) (w : W)
      → (inner w).0 ≡ none
      → max_retries ≤ attempt
      → retry_loop max_retries (suc fuel) attempt w ≡ some (ended none (inner w).1)
  unfolding retry_loop
  ends_failed max_retries fuel attempt w h last = ground arith

  goes_on :
      (max_retries fuel attempt : ℕ) (w : W) (ran : Ran)
      → (inner w).0 ≡ none
      → attempt < max_retries
      → retry_loop max_retries fuel (attempt + 1) (inner w).1 ≡ some ran
      → retry_loop max_retries (suc fuel) attempt w ≡ some (paused attempt ran)
  unfolding retry_loop
  goes_on max_retries fuel attempt w ran h more later = ground arith

  record Stopped (max_retries fuel attempt : ℕ) (w : W) : Type 0 where
    ran : Ran
    failures : ℕ
    run : retry_loop max_retries (suc fuel) attempt w ≡ some ran
    so : StoppedAfter max_retries attempt w ran failures

  Stopped-answered :
      (max_retries fuel attempt : ℕ) (w : W) (a : A)
      → attempt + fuel ≡ max_retries
      → (inner w).0 ≡ some a
      → Stopped max_retries fuel attempt w
  unfolding world_after
  Stopped-answered max_retries fuel attempt w a e answered = record {
    ran = ended (some a) (inner w).1;
    failures = 0;
    run = ends_answered max_retries fuel attempt w a answered;
    so = (omega arith, sym answered, refl, refl, (λ n below. absurd (omega arith)), (λ h. cc));
  }

  retry_loop-Stopped :
      (max_retries fuel attempt : ℕ) (w : W)
      → attempt + fuel ≡ max_retries
      → Stopped max_retries fuel attempt w
  unfolding world_after
  retry_loop-Stopped max_retries zero attempt w e = elim (Option-cases (inner w).0) [
    | inr (a, answered) ↦ Stopped-answered max_retries zero attempt w a e answered
    | inl failed ↦ record {
      ran = ended none (inner w).1;
      failures = 0;
      run = ends_failed max_retries zero attempt w failed (omega arith);
      so = (
        omega arith,
        sym failed,
        refl,
        refl,
        (λ n below. absurd (omega arith)),
        (λ h. omega arith),
      );
    }
  ]
  retry_loop-Stopped max_retries (suc fuel) attempt w e = elim (Option-cases (inner w).0) [
    | inr (a, answered) ↦ Stopped-answered max_retries (suc fuel) attempt w a e answered
    | inl failed ↦
        let rest = retry_loop-Stopped max_retries fuel (attempt + 1) (inner w).1 (omega arith) in
        let (within, answer, world, pauses, earlier, last) = rest.so in
        record {
          ran = paused attempt rest.ran;
          failures = suc rest.failures;
          run = goes_on max_retries (suc fuel) attempt w rest.ran failed (omega arith) rest.run;
          so = (
            omega (arith, within),
            answer,
            world,
            ap (◌∷◌ (backoff attempt)) pauses,
            failed_before w rest.failures failed earlier,
            (λ h. omega (arith, last h)),
          );
        }
  ]
    where
      failed_before :
          (w : W) (failures : ℕ)
          → (inner w).0 ≡ none
          → ((n : ℕ) → n < failures → answer_at n (inner w).1 ≡ none)
          → (n : ℕ) → n < suc failures
          → answer_at n w ≡ none
      failed_before w failures failed earlier zero below = failed
      failed_before w failures failed earlier (suc n) below = earlier n (omega arith)

  -- A method that is retried always ends. It asks at most one time more than it has retries and gives the
  -- first answer, after failures only; it fails only when all those attempts do. It pauses between two
  -- attempts, as long as the backoff of the attempt says.
  pub retrying-stops :
      (max_retries : ℕ) (w : W)
      → (ran : Ran) × ((failures : ℕ) × ((retrying max_retries w ≡ some ran)
            × StoppedAfter max_retries 0 w ran failures))
  unfolding retrying
  retrying-stops max_retries w =
      let s = retry_loop-Stopped max_retries max_retries 0 w (omega arith) in
      (s.ran, (s.failures, (s.run, s.so)))
