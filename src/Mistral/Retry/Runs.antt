-- ===== src/Mistral/Retry/Runs.antt =====
-- The runs of the retry loop: how they end, how many attempts they make, and their delays.
use recipe_import_from_anyth.Base.{
  ℕ, zero, suc, ◌+◌, ◌-◌, ◌<◌, ◌≤◌, ◌≡◌, refl, Bool, true, ◌&&◌, ◌||◌, String, List, [], ◌∷◌, ltb,
  Bool-cases, inl, inr, length, max, ◌*◌, ◌^◌, ◌/◌, ap, subst, ◌∙◌, arith,
}
use recipe_import_from_anyth.Mistral.Settings.{
  Raised, error, Settled, fulfilled, rejected, is_abort_error, is_type_error,
  is_retryable_http_status, compute_retry_delay_ms, compute_retry_delay_ms-bounds,
}
use recipe_import_from_anyth.Value.{Value}
use recipe_import_from_anyth.Mistral.Retry.{
  Response, Try, Call, Round, returns, throws, continues, is_ok, after_wait, catch_error,
  on_refusal, on_result, on_payload, on_response, round, after_round, rounds_from, with_retries,
}

-- A round goes on only where attempts are left, after the delay that is due.
abbrev pub Due : {A : Type 0} → ℕ → ℕ → ℕ → Round A → Type 0
Due attempts attempt d (continues e) = (attempt < attempts) × (e ≡ d)
Due attempts attempt d (returns a) = Unit
Due attempts attempt d (throws r) = Unit

ltb-yes : (a b : ℕ) (x : Bool) → ltb a b && x ≡ true → a < b
ltb-yes a b x e = ground arith

-- What holds of every way in which a round can end, by cases on what it meets.
module _ {N A : Type 0} (call : Call N A) (attempts base attempt : ℕ) (t : Try N)
    (P : Round A → Type 0) (on_throw : (r : Raised) → P (throws r))
    (on_continue : attempt < attempts → P (continues (compute_retry_delay_ms t.below attempt base)))
    (on_return : (payload : Value N) (a : A)
      → call.read payload ≡ fulfilled a
      → P (returns a)) where
  after_wait-P :
      (failed : Raised → Round A) (w : Settled (Unit {0}))
      → ((r : Raised) → P (failed r))
      → attempt < attempts
      → P (after_wait call attempts base attempt t failed w)
  after_wait-P failed (fulfilled w) h p = on_continue p
  after_wait-P failed (rejected r) h p = h r

  catch_error-P : (r : Raised) → P (catch_error call attempts base attempt t r)
  unfolding catch_error
  catch_error-P r = elim (Bool-cases t.aborted) [
    | inl gone ↦ rw gone (on_throw _)
    | inr live ↦
        rw live (elim (Bool-cases (ltb attempt attempts && (is_abort_error r || is_type_error r))) [
          | inl more ↦ rw more (after_wait-P throws _ on_throw (ltb-yes _ _ _ more))
          | inr over ↦ rw over (on_throw _)
        ])
  ]

  on_refusal-P :
      (status : ℕ) (text : Settled String) → P (on_refusal call attempts base attempt t status text)
  unfolding on_refusal
  on_refusal-P status (rejected r) = catch_error-P r
  on_refusal-P status (fulfilled text) =
      elim (Bool-cases (ltb attempt attempts && is_retryable_http_status status)) [
        | inl more ↦ rw more (after_wait-P _ _ catch_error-P (ltb-yes _ _ _ more))
        | inr over ↦ rw over (catch_error-P (error (call.status_error status text)))
      ]

  on_result-P :
      (payload : Value N) (a : Settled A)
      → call.read payload ≡ a
      → P (on_result call attempts base attempt t a)
  unfolding on_result
  on_result-P payload (fulfilled a) e = on_return payload a e
  on_result-P payload (rejected r) e = catch_error-P r

  on_payload-P : (payload : Settled (Value N)) → P (on_payload call attempts base attempt t payload)
  unfolding on_payload
  on_payload-P (fulfilled payload) = on_result-P payload (call.read payload) refl
  on_payload-P (rejected r) = catch_error-P r

  on_response-P : (r : Settled (Response N)) → P (on_response call attempts base attempt t r)
  unfolding on_response
  on_response-P (rejected r) = catch_error-P r
  on_response-P (fulfilled response) = elim (Bool-cases (is_ok response.status)) [
    | inl fine ↦ rw fine (on_payload-P response.json)
    | inr refused ↦ rw refused (on_refusal-P response.status response.text)
  ]

  round-P : P (round call attempts base attempt t)
  unfolding round
  round-P = on_response-P t.fetched

module _ {N A : Type 0} (call : Call N A) (attempts base : ℕ) (tries : ℕ → Try N) where
  abbrev round_at : ℕ → Round A
  round_at attempt = round call attempts base attempt (tries attempt)

  abbrev delay_at : ℕ → ℕ
  delay_at attempt = compute_retry_delay_ms (tries attempt).below attempt base

  -- A run from an attempt on, with its result and its delays, that ends by the `return` or the
  -- `throw` of an attempt's round.
  pub data Run : ℕ → Settled A → List ℕ → Type 0 where
    returned : (k : ℕ) (a : A) → k ≤ attempts → round_at k ≡ returns a → Run k (fulfilled a) []
    threw : (k : ℕ) (r : Raised) → k ≤ attempts → round_at k ≡ throws r → Run k (rejected r) []
    again :
        (k : ℕ) (result : Settled A) (delays : List ℕ)
        → round_at k ≡ continues (delay_at k)
        → Run (suc k) result delays
        → Run k result (delay_at k ∷ delays)

  due : (k d : ℕ) → round_at k ≡ continues d → (k < attempts) × (d ≡ delay_at k)
  due k d e = subst (Due attempts k (delay_at k)) e (
      round-P call attempts base k (tries k) (Due attempts k (delay_at k)) (λ r. tt)
        (λ more. (more, refl)) (λ payload a p. tt))

  -- what the result of a run was read from
  abbrev Reads : Settled A → Type 0
  Reads (fulfilled a) = (payload : Value N) × (call.read payload ≡ fulfilled a)
  Reads (rejected r) = Unit

  abbrev ReadsRound : Round A → Type 0
  ReadsRound (returns a) = Reads (fulfilled a)
  ReadsRound _ = Unit

  round-Reads : (k : ℕ) (a : A) → round_at k ≡ returns a → Reads (fulfilled a)
  round-Reads k a e = subst ReadsRound e (
      round-P call attempts base k (tries k) ReadsRound (λ r. tt) (λ more. tt)
        (λ payload b p. (payload, p)))

  after_round-Run :
      (k : ℕ) (r : Round A) (out : Settled A × List ℕ)
      → k ≤ attempts
      → round_at k ≡ r
      → (k < attempts → Run (suc k) out.0 out.1)
      → let end = after_round call attempts base tries r out in Run k end.0 end.1
  after_round-Run k (returns a) out p e rest = returned k a p e
  after_round-Run k (throws r) out p e rest = threw k r p e
  after_round-Run k (continues d) out p e rest =
      let (more, same) = due k d e in rw same (again k _ _ (e ∙ ap continues same) (rest more))

  rounds_from-Run :
      (left k : ℕ)
      → 0 < left
      → k + left ≡ suc attempts
      → let end = rounds_from call attempts base tries k left in Run k end.0 end.1
  unfolding rounds_from
  rounds_from-Run zero k h p = ground arith
  rounds_from-Run (suc left) k h p =
      after_round-Run k (round_at k) (rounds_from call attempts base tries (suc k) left)
        (omega arith) refl (λ more. rounds_from-Run left (suc k) (omega arith) (omega arith))

  -- Where at least one attempt is made, a run of the loop ends by the `return` or the `throw` of
  -- one of its attempts, each attempt before it having ended by `continue` after the delay that its
  -- number sets: the error after the loop, which says that the retries are exhausted, is never
  -- thrown.
  pub with_retries-Run :
      0 < attempts → let end = with_retries call attempts base tries in Run 1 end.0 end.1
  unfolding with_retries
  with_retries-Run h = rounds_from-Run attempts 1 h (omega arith)

  Run-Reads : (k : ℕ) (result : Settled A) (delays : List ℕ) → Run k result delays → Reads result
  Run-Reads k result delays (returned _ a p e) = round-Reads k a e
  Run-Reads k result delays (threw _ r p e) = tt
  Run-Reads k result delays (again _ _ ds e rest) = Run-Reads (suc k) result ds rest

  -- A result that is not an error was read from a payload.
  pub with_retries-Reads :
      (a : A)
      → 0 < attempts
      → (with_retries call attempts base tries).0 ≡ fulfilled a
      → Reads (fulfilled a)
  with_retries-Reads a h e = subst Reads e (Run-Reads 1 _ _ (with_retries-Run h))

  -- The delays of a run, from that of an attempt on.
  abbrev pub Spaced : ℕ → List ℕ → Type 0
  Spaced k [] = Unit
  Spaced k (d ∷ ds) = (base * 2 ^ (k - 1) ≤ d) × (d < base * 2 ^ (k - 1) + base) × Spaced (suc k) ds

  Run-Spaced :
      (k : ℕ) (result : Settled A) (delays : List ℕ)
      → 0 < base
      → ((i : ℕ) → (tries i).below (max 1 (base / 2)) < max 1 (base / 2))
      → Run k result delays
      → Spaced k delays × (k + length delays ≤ attempts)
  Run-Spaced k result delays b h (returned _ a p e) = (tt, omega arith)
  Run-Spaced k result delays b h (threw _ r p e) = (tt, omega arith)
  Run-Spaced k result delays b h (again _ _ ds e rest) =
      let (lo, hi) = compute_retry_delay_ms-bounds (tries k).below k base (h k) b in
      let (spaced, count) = Run-Spaced (suc k) result ds b h rest in ((lo, hi, spaced), omega arith)

  -- Where at least one attempt is made, the base delay is above 0 and the random part stays below
  -- what it is asked for, fewer delays are waited than attempts are allowed, and the i-th of them
  -- is at least the base times 2^(i-1) and less than one base more.
  pub with_retries-Spaced :
      0 < attempts
      → 0 < base
      → ((i : ℕ) → (tries i).below (max 1 (base / 2)) < max 1 (base / 2))
      → let delays = (with_retries call attempts base tries).1 in
        Spaced 1 delays × (length delays < attempts)
  with_retries-Spaced h b r =
      let (spaced, count) = Run-Spaced 1 _ _ b r (with_retries-Run h) in (spaced, omega arith)
