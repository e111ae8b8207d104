-- ===== src/Socket/Bucket/Granted.antt =====
-- gateway/src/ws/rateLimit.ts: how much a bucket grants over a run of takes.
use rmcollab_model.Common.{
  ℕ, ◌+◌, ◌-◌, ◌*◌, ◌≤◌, ◌≡◌, refl, sym, ap, ◌∙◌, subst, List, [], ◌∷◌, if◌then◌else◌, arith,
}
use native.Mathlib.Nat.{mul-le-mul_right, add-mul}
use rmcollab_model.Socket.Bucket.{TokenBucket, token_bucket, refill, take_tokens, parts}

-- A take: its cost, and when.
pub record Take : Type 0 where
  pub cost : ℕ
  pub at : ℕ

-- The tokens that a run of takes is granted.
unfoldable pub granted : TokenBucket → List Take → ℕ
granted b [] = 0
granted b (t ∷ ts) =
    let r = take_tokens b t.cost t.at in
    let rest = granted r.0 ts in if r.1 then t.cost + rest else rest

-- The tokens that a run of takes asks for.
abbrev pub asked : List Take → ℕ
asked [] = 0
asked (t ∷ ts) = t.cost + asked ts

-- The takes are in the order of time, none before the bound, none after the end.
abbrev pub InOrder : ℕ → List Take → ℕ → Type 0
InOrder b [] end = b ≤ end
InOrder b (t ∷ ts) end = (b ≤ t.at) × InOrder t.at ts end

InOrder-le : (b end : ℕ) (ts : List Take) → InOrder b ts end → b ≤ end
InOrder-le b end [] h = h
InOrder-le b end (t ∷ ts) h = omega (arith, h.0, InOrder-le t.at end ts h.1)

-- The tokens are not negative.
abbrev IsSolvent : TokenBucket → Type 0
IsSolvent b = b.minus ≤ b.plus

-- What one take leaves, with what it was granted, is at most what there was and what the time adds;
-- and it is at least that where the cost was granted.
take_tokens_lem :
    (b : TokenBucket) (cost now : ℕ)
    → IsSolvent b
    → b.last ≤ now
    → let r = take_tokens b cost now in
      IsSolvent r.0
      × (r.0.last ≡ now)
      × (r.0.rate ≡ b.rate)
      × (r.0.capacity ≡ b.capacity)
      × ((if r.1 then cost * parts else 0) + r.0.plus + b.minus + b.last * b.rate
          ≤ b.plus + now * b.rate + r.0.minus)
unfolding take_tokens refill
take_tokens_lem b cost now solvent order =
    let later : b.last * b.rate ≤ now * b.rate = mul-le-mul_right b.rate order in
    ground (arith, later)

granted-le :
    (b : TokenBucket) (ts : List Take) (end : ℕ)
    → IsSolvent b
    → InOrder b.last ts end
    → granted b ts * parts + b.minus + b.last * b.rate ≤ b.plus + end * b.rate
unfolding granted
granted-le b [] end solvent order =
    let later : b.last * b.rate ≤ end * b.rate = mul-le-mul_right b.rate order in
    omega (arith, later, solvent)
granted-le b (t ∷ ts) end solvent order =
    let r = take_tokens b t.cost t.at in
    let (solvent', last', rate', capacity', step) = take_tokens_lem b t.cost t.at solvent order.0 in
    let rest = granted-le r.0 ts end solvent' (subst (λ l. InOrder l ts end) (sym last') order.1) in
    let at_last : r.0.last * r.0.rate ≡ t.at * b.rate = rw (last', rate') refl in
    let at_end : end * r.0.rate ≡ end * b.rate = rw rate' refl in
    ground (arith, step, rest, at_last, at_end)

-- Over any takes in the order of time, a new bucket grants at most its capacity and what its rate
-- adds from its making to the end: in parts of a token, the capacity's and the rate for each
-- millisecond.
pub granted_bounded :
    (capacity rate now end : ℕ) (ts : List Take)
    → InOrder now ts end
    → granted (token_bucket capacity rate now) ts * parts ≤ capacity * parts + (end - now) * rate
unfolding token_bucket
granted_bounded capacity rate now end ts order =
    let bound = granted-le (token_bucket capacity rate now) ts end (omega arith) order in
    let sum : end ≡ (end - now) + now = omega (arith, InOrder-le now end ts order) in
    let gap : end * rate ≡ (end - now) * rate + now * rate =
      ap (λ n. n * rate) sum ∙ add-mul (end - now) now rate in
    omega (arith, bound, gap)

-- A bucket that has the tokens for all takes to come grants each of them.
granted_all :
    (b : TokenBucket) (ts : List Take) (end : ℕ)
    → InOrder b.last ts end
    → b.minus + asked ts * parts ≤ b.plus
    → asked ts * parts ≤ b.capacity
    → granted b ts ≡ asked ts
unfolding granted take_tokens refill
granted_all b [] end order have fits = refl
granted_all b (t ∷ ts) end order have fits =
    let r = take_tokens b t.cost t.at in
    let later : b.last * b.rate ≤ t.at * b.rate = mul-le-mul_right b.rate order.0 in
    let rest = granted_all r.0 ts end in ground (arith, later, rest)

-- A new bucket grants every take of a run in the order of time that asks for no more than the
-- capacity in all.
pub burst_granted :
    (capacity rate now end : ℕ) (ts : List Take)
    → InOrder now ts end
    → asked ts ≤ capacity
    → granted (token_bucket capacity rate now) ts ≡ asked ts
unfolding token_bucket
burst_granted capacity rate now end ts order fits =
    granted_all (token_bucket capacity rate now) ts end order (omega (arith, fits))
      (omega (arith, fits))
