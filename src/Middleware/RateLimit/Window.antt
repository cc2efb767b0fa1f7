-- ===== src/Middleware/RateLimit/Window.antt =====
-- The sliding window of src/middleware/rate_limit.rs holds every call that it let through in the last
-- minute, so it lets no more through than the limit.
use Prim.Native.String.{String}
use text.Mathlib.Text.{◌==◌ as str_eq}
use text.Mathlib.TextEquality.{eq_iff}
use jecp_server.Prelude.{
  ℕ, ◌≤◌, ◌<◌, ◌≡◌, refl, ap, true, false, none, List, [], ◌∷◌, ◌++◌, arith, leb, length,
  length-append, retain, retain-append, length-retain-le, ◌∙◌, Result, ok, err, if◌then◌else◌,
  Bool-cases, Option-cases, inl, inr,
}
use jecp_server.Middleware.RateLimit.{
  Windows, RateLimitDecision, recent, or_empty, admit, check, sweep, drop_empty,
}

-- The calls of each agent that were let through, oldest first.
abbrev pub Accepted : Type 0
Accepted = String → List ℕ

abbrev pub accept : Accepted → String → ℕ → Result RateLimitDecision ℕ → Accepted
accept h agent now (err d) = h
accept h agent now (ok remaining) = λ k. if str_eq agent k then h k ++ now ∷ [] else h k

-- Every history of calls with one limit, and of sweeps, as time goes on.
pub data Trace (limit : ℕ) : Windows → Accepted → ℕ → Type 0 where
  start : Trace limit (λ _. none) (λ _. []) 0
  call :
      {w : Windows} {h : Accepted} {t : ℕ} (agent : String) (now : ℕ)
      → t ≤ now
      → Trace limit w h t
      → Trace limit
          (check limit w agent none now).1
          (accept h agent now (check limit w agent none now).0)
          now
  sweeping :
      {w : Windows} {h : Accepted} {t : ℕ} (now : ℕ)
      → t ≤ now
      → Trace limit w h t
      → Trace limit (sweep now w) h now

recent_mono : (t t' s : ℕ) → t ≤ t' → recent t' s ≡ true → recent t s ≡ true
recent_mono t t' s h r = ground arith

-- What a later look keeps, an earlier one keeps.
retain-retain :
    (t t' : ℕ) (xs : List ℕ)
    → t ≤ t'
    → retain (recent t') (retain (recent t) xs) ≡ retain (recent t') xs
retain-retain t t' [] h = refl
retain-retain t t' (x ∷ xs) h = ground (arith, recent_mono t t' x h, retain-retain t t' xs h)

-- The window and the history show the same recent calls, now and later, and no more than the limit.
pub record Agrees (limit t : ℕ) (window accepted : List ℕ) : Type 0 where
  pub same : (t' : ℕ) → t ≤ t' → retain (recent t') window ≡ retain (recent t') accepted
  pub bounded : length (retain (recent t) accepted) ≤ limit

Agrees-later :
    {limit t : ℕ} {window accepted : List ℕ} (t' : ℕ)
    → t ≤ t'
    → Agrees limit t window accepted
    → Agrees limit t' window accepted
Agrees-later {t = t} {accepted = xs} t' h a = record {
  same = λ u e. a.same u (omega arith);
  bounded = omega (
    arith,
    a.bounded,
    ap (length {A = ℕ}) (retain-retain t t' xs h),
    length-retain-le (recent t') (retain (recent t) xs),
  );
}

abbrev extend : List ℕ → ℕ → Result RateLimitDecision ℕ → List ℕ
extend xs now (err d) = xs
extend xs now (ok remaining) = xs ++ now ∷ []

module _ (limit t : ℕ) (window accepted : List ℕ) (a : Agrees limit t window accepted) where
  swept-Agrees : Agrees limit t (retain (recent t) window) accepted
  swept-Agrees = record {
    same = λ u e. retain-retain t u window e ∙ a.same u e;
    bounded = a.bounded;
  }

  added-Agrees :
      length (retain (recent t) window) < limit
      → Agrees limit t (retain (recent t) window ++ t ∷ []) (accepted ++ t ∷ [])
  added-Agrees room = record {
    same = λ u e. rw (
      retain-append (recent u) (retain (recent t) window) (t ∷ []),
      retain-append (recent u) accepted (t ∷ []),
      swept-Agrees.same u e,
    );
    bounded = omega (
      arith,
      room,
      ap (length {A = ℕ}) (a.same t (omega arith)),
      ap (length {A = ℕ}) (retain-append (recent t) accepted (t ∷ [])),
      length-append (retain (recent t) accepted) (retain (recent t) (t ∷ [])),
      length-retain-le (recent t) (t ∷ []),
    );
  }

  admit-Agrees :
      Agrees limit t (admit limit t window).1 (extend accepted t (admit limit t window).0)
  unfolding admit
  admit-Agrees = elim (Bool-cases (leb limit (length (retain (recent t) window)))) [
    | inl full ↦ rw full swept-Agrees
    | inr room ↦ rw room (added-Agrees (ground arith))
  ]

module _ (h : Accepted) (agent k : String) (now : ℕ) where
  accept_self :
      (r : Result RateLimitDecision ℕ)
      → str_eq agent k ≡ true
      → accept h agent now r k ≡ extend (h k) now r
  accept_self (ok n) e = rw e
  accept_self (err d) e = refl

  accept-other :
      (r : Result RateLimitDecision ℕ) → str_eq agent k ≡ false → accept h agent now r k ≡ h k
  accept-other (ok n) e = rw e
  accept-other (err d) e = refl

-- The invariant, for every agent.
abbrev AllAgree : ℕ → Windows → Accepted → ℕ → Type 0
AllAgree limit w h t = (k : String) → Agrees limit t (or_empty (w k)) (h k)

check-AllAgree :
    (limit : ℕ) (w : Windows) (h : Accepted) (t : ℕ) (agent : String) (now : ℕ)
    → t ≤ now
    → AllAgree limit w h t
    → AllAgree limit
        (check limit w agent none now).1
        (accept h agent now (check limit w agent none now).0)
        now
unfolding check
check-AllAgree limit w h t agent now e a k = elim (Bool-cases (str_eq agent k)) [
  | inl same ↦
      rw (same, accept_self h agent k now (admit limit now (or_empty (w agent))).0 same)
        (rw ((eq_iff agent k).0 same)
          (admit-Agrees limit now (or_empty (w k)) (h k) (Agrees-later now e (a k))))
  | inr other ↦
      rw (other, accept-other h agent k now (admit limit now (or_empty (w agent))).0 other)
        (Agrees-later now e (a k))
]

or_empty-drop_empty : (ts : List ℕ) → or_empty (drop_empty ts) ≡ ts
unfolding drop_empty
or_empty-drop_empty [] = refl
or_empty-drop_empty (t ∷ ts) = refl

or_empty-sweep :
    (now : ℕ) (w : Windows) (k : String)
    → or_empty (sweep now w k) ≡ retain (recent now) (or_empty (w k))
unfolding sweep
or_empty-sweep now w k = elim (Option-cases (w k)) [
  | inl e ↦ rw (e, sweep)
  | inr (ts, e) ↦ rw (e, sweep) (or_empty-drop_empty (retain (recent now) ts))
]

Trace-AllAgree :
    {limit : ℕ} {w : Windows} {h : Accepted} {t : ℕ} → Trace limit w h t → AllAgree limit w h t
Trace-AllAgree start = λ k. record { same = λ u e. refl; bounded = omega arith }
Trace-AllAgree {limit} (call {w} {h} {t} agent now e past) =
    check-AllAgree limit w h t agent now e (Trace-AllAgree past)
Trace-AllAgree {limit} (sweeping {w} {h} now e past) = λ k.
    rw or_empty-sweep
      (swept-Agrees limit now (or_empty (w k)) (h k) (Agrees-later now e (Trace-AllAgree past k)))

-- Whatever the calls and sweeps, and at every moment, the calls of one agent that were let through in
-- the last minute are at most the limit.
pub accepted-le-limit :
    {limit : ℕ} {w : Windows} {h : Accepted} {t : ℕ} (agent : String)
    → Trace limit w h t
    → length (retain (recent t) (h agent)) ≤ limit
accepted-le-limit agent past = (Trace-AllAgree past agent).bounded

-- The window of each agent shows the calls that were let through, and no others.
pub window-eq-accepted :
    {limit : ℕ} {w : Windows} {h : Accepted} {t : ℕ} (agent : String)
    → Trace limit w h t
    → retain (recent t) (or_empty (w agent)) ≡ retain (recent t) (h agent)
window-eq-accepted {t = t} agent past = (Trace-AllAgree past agent).same t (omega arith)
