-- ===== src/Oauth/AuthCode/Races.antt =====
-- `redeem` under concurrent requests. The database runs one statement at a time, so a request is
-- two steps, the read with its guards and the claim, and other requests run in between.
use ndy_hub.Common.{
  ℕ, Key, Time, ◌≡◌, refl, suc, ◌⊎◌, inl, inr, List, [], ◌∷◌, ◌++◌, arith, ◌==◌, ◌+◌, ◌≤◌,
}
use ndy_hub.Common.Handler.{Result, ok, err}
use ndy_hub.Common.Table.{count}
use ndy_hub.Common.Table.Laws.{
  count-update_self, count-update_same, count-update_le, count_mono, count-insert, find-none-count,
}
use ndy_hub.Oauth.AuthCode.{
  AuthCode, Failure, IssueParams, has_code, is_unused, mark_used, new_code, issue, check, claim,
}

-- The table, the codes of the requests that have passed their guards and not yet claimed, and the
-- code of every request that `redeem` has answered with a record.
pub record World : Type 0 where
  pub codes : List AuthCode
  pub in_flight : List Key
  pub redeemed : List Key

abbrev pub note : {A : Type 0} → Key → Result Failure A → List Key → List Key
note code (ok _) redeemed = code ∷ redeemed
note code (err _) redeemed = redeemed

pub data Step : World → World → Type 0 where
  issues :
      (w : World) (code : Key) (params : IssueParams) (now : Time)
      → Step w (record w { codes = (issue code params now w.codes).1 })
  passes :
      (w : World) (code client uri : Key) (now : Time) {r : AuthCode}
      → (check code client uri now w.codes).0 ≡ ok r
      → Step w (record w { in_flight = code ∷ w.in_flight })
  claims :
      (w : World) (code : Key) (now : Time) (before after : List Key)
      → w.in_flight ≡ before ++ (code ∷ after)
      → Step w (record {
        codes = (claim code now w.codes).1;
        in_flight = before ++ after;
        redeemed = note code (claim code now w.codes).0 w.redeemed;
      })

pub data Reach (w : World) : World → Type 0 where
  here : Reach w w
  next : {u v : World} → Reach w u → Step u v → Reach w v

abbrev pub redemptions : Key → World → ℕ
redemptions code w = count (λ k. k == code) w.redeemed

-- Every redemption of a code has used up an unused row of it, and no code has two rows.
abbrev Sound : World → Type 0
Sound w =
    (code : Key)
    → (redemptions code w + count (is_unused code) w.codes ≤ count (has_code code) w.codes)
      × (count (has_code code) w.codes ≤ 1)

abbrev OneRow : List AuthCode → ℕ → Key → Type 0
OneRow codes n code =
    (n + count (is_unused code) codes ≤ count (has_code code) codes)
    × (count (has_code code) codes ≤ 1)

issue-Sound :
    (codes : List AuthCode) (n : ℕ) (c code : Key) (params : IssueParams) (now : Time)
    → OneRow codes n c
    → OneRow (issue code params now codes).1 n c
unfolding issue
issue-Sound codes n c code params now h = ground (
  arith,
  find-none-count (has_code code) codes,
  count-insert (is_unused c) (new_code code params now) codes,
  count-insert (has_code c) (new_code code params now) codes,
)

-- The claim, kept shut below: it makes no row, uses up every row of its code, and succeeds only
-- where there was an unused one.
module _ (code : Key) (now : Time) (codes : List AuthCode) where
  claim-rows : (c : Key) → count (has_code c) (claim code now codes).1 ≡ count (has_code c) codes
  unfolding claim
  claim-rows c = count-update_same (has_code c) (is_unused code) (mark_used now) codes (λ r e. refl)

  claim-unused : count (is_unused code) (claim code now codes).1 ≡ 0
  unfolding claim
  claim-unused = count-update_self (is_unused code) (mark_used now) codes (λ r e. ground arith)

  claim-unused_le :
      (c : Key) → count (is_unused c) (claim code now codes).1 ≤ count (is_unused c) codes
  unfolding claim
  claim-unused_le c =
      count-update_le (is_unused c) (is_unused code) (mark_used now) codes (λ r e. ground arith)

  claimed : (claim code now codes).0 ≡ ok tt → 1 ≤ count (is_unused code) codes
  unfolding claim
  claimed e = ground arith

count-note :
    (res : Result Failure Unit) (code c : Key) (redeemed : List Key)
    → (count (λ k. k == c) (note code res redeemed) ≡ count (λ k. k == c) redeemed)
      ⊎ ((code ≡ c)
          × (res ≡ ok tt)
          × (count (λ k. k == c) (note code res redeemed) ≡ suc (count (λ k. k == c) redeemed)))
unfolding count
count-note (ok tt) code c redeemed = ground arith
count-note (err e) code c redeemed = inl refl

claim-Sound :
    (w : World) (code : Key) (now : Time) (c : Key)
    → OneRow w.codes (redemptions c w) c
    → OneRow
        (claim code now w.codes).1
        (count (λ k. k == c) (note code (claim code now w.codes).0 w.redeemed))
        c
claim-Sound w code now c h = elim (count-note (claim code now w.codes).0 code c w.redeemed) [
  | inl same ↦
      omega (arith, same, claim-rows code now w.codes c, claim-unused_le code now w.codes c)
  | inr (e, done, more) ↦ rw (← e) (
      omega (
        arith,
        rw (← e) at more,
        rw (← e) at h,
        claim-rows code now w.codes code,
        claim-unused code now w.codes,
        claimed code now w.codes done,
      ))
]

Step-Sound : {w v : World} → Step w v → Sound w → Sound v
Step-Sound (issues w code params now) h =
    λ c. issue-Sound w.codes (redemptions c w) c code params now (h c)
Step-Sound (passes w code client uri now e) h = h
Step-Sound (claims w code now before after e) h = λ c. claim-Sound w code now c (h c)

Reach-Sound : {w v : World} → Sound w → Reach w v → Sound v
Reach-Sound h here = h
Reach-Sound h (next r st) = Step-Sound st (Reach-Sound h r)

abbrev pub start : List AuthCode → World
start codes = record { codes = codes; in_flight = []; redeemed = [] }

start-Sound :
    (codes : List AuthCode) → ((c : Key) → count (has_code c) codes ≤ 1) → Sound (start codes)
unfolding count
start-Sound codes distinct c =
    (omega (arith, count_mono (is_unused c) (has_code c) codes (λ r e. ground arith)), distinct c)

-- From a table in which no code has two rows, no interleaving of issues and redemptions by any
-- number of concurrent requests answers two redemptions of one code with a record.
pub redemptions-le-one :
    (codes : List AuthCode) (w : World) (code : Key)
    → ((c : Key) → count (has_code c) codes ≤ 1)
    → Reach (start codes) w
    → redemptions code w ≤ 1
redemptions-le-one codes w code distinct run =
    omega (arith, Reach-Sound {w = start codes} {v = w} (start-Sound codes distinct) run code)
