-- ===== src/Auth/Provenance/Sound.antt =====
-- What src/auth/agent.rs accepts as signed provenance.
use jecp_server.Prelude.{
  ℕ, ◌+◌, ◌^◌, ◌≤◌, ◌<◌, ◌≡◌, refl, sym, ap, subst, ◌∙◌, Bool, true, false, ◌&&◌, Option, none,
  some, List, [], ◌∷◌, ◌++◌, Text, codes, text_eq, text_eq→eq, all, All, length, arith, leb, ◌==◌,
  zero, suc, Result, ok, ok_or, guard, >>=-eq-ok, if◌then◌else◌, Bool-cases, inl, inr, leb→le,
}
use jecp_server.Auth.Agent.{constant_time_eq}
use jecp_server.Auth.Agent.Compare.{constant_time_eq_iff}
use jecp_server.Auth.Provenance.{
  wire_malformed, hmac_mismatch, clock_skew, colon, cons_part, splitn, parse_i64, is_ascii_hexdigit,
  drift, abs_i64, is_skewed, message, four, verify_provenance_v2,
}

-- The pieces, with colons between them.
abbrev pub join : List Text → Text
join [] = []
join (p ∷ []) = p
join (p ∷ q ∷ ps) = p ++ colon ∷ join (q ∷ ps)

join-cons_part : (c : ℕ) (ps : List Text) → join (cons_part c ps) ≡ c ∷ join ps
unfolding cons_part
join-cons_part c [] = refl
join-cons_part c (p ∷ []) = refl
join-cons_part c (p ∷ q ∷ ps) = refl

splitn-cons : (n : ℕ) (s : Text) → (p : Text) × (ps : List Text) × (splitn n s ≡ p ∷ ps)
unfolding splitn cons_part
splitn-cons zero s = (s, [], refl)
splitn-cons (suc n) [] = ([], [], refl)
splitn-cons (suc n) (c ∷ cs) =
    let (p, ps, e) = splitn-cons (suc n) cs in
    elim (Bool-cases (c == colon)) [
      | inl k ↦ rw k ([], splitn n cs, refl)
      | inr k ↦ rw (k, e) (c ∷ p, ps, refl)
    ]

-- Splitting loses nothing.
join-splitn : (n : ℕ) (s : Text) → join (splitn n s) ≡ s
unfolding splitn
join-splitn zero s = refl
join-splitn (suc n) [] = refl
join-splitn (suc n) (c ∷ cs) =
    let (p, ps, e) = splitn-cons n cs in
    elim (Bool-cases (c == colon)) [
      | inl k ↦ rw (k, e) (ground (arith, join-splitn n cs, e))
      | inr k ↦ rw k (join-cons_part c (splitn (suc n) cs) ∙ ap (◌∷◌ c) (join-splitn (suc n) cs))
    ]

four-some :
    (ps : List Text) (a b c d : Text) → four ps ≡ some (a, b, c, d) → ps ≡ a ∷ b ∷ c ∷ d ∷ []
unfolding four
four-some [] a b c d h = absurd (cc)
four-some (p ∷ []) a b c d h = absurd (cc)
four-some (p ∷ q ∷ []) a b c d h = absurd (cc)
four-some (p ∷ q ∷ r ∷ []) a b c d h = absurd (cc)
four-some (p ∷ q ∷ r ∷ s ∷ []) a b c d h = ground arith
four-some (p ∷ q ∷ r ∷ s ∷ t ∷ ps) a b c d h = absurd (cc)

-- Where both times are below 2^62, a time that is not skewed is within the tolerance of the present,
-- before or after it.
pub is_skewed-within :
    (now timestamp skew : ℕ)
    → now < 2 ^ 62
    → timestamp < 2 ^ 62
    → is_skewed (drift now timestamp) skew ≡ false
    → (now ≤ timestamp + skew) × (timestamp ≤ now + skew)
unfolding is_skewed drift abs_i64
is_skewed-within now timestamp skew a b h = (ground arith, ground arith)

pub hexdigits-bytes : (s : Text) → all is_ascii_hexdigit s ≡ true → All (λ x. x < 256) s
unfolding is_ascii_hexdigit
hexdigits-bytes [] h = tt
hexdigits-bytes (c ∷ cs) h = (ground arith, hexdigits-bytes cs (ground arith))

guard-ok : {E : Type 0} (b : Bool) (e : E) → guard b e ≡ ok tt → b ≡ true
guard-ok true e h = refl
guard-ok false e h = absurd (cc)

ok_or-ok : {E A : Type 0} (o : Option A) (e : E) {a : A} → ok_or o e ≡ ok a → o ≡ some a
ok_or-ok none e h = absurd (cc)
ok_or-ok (some a) e h = cc

ok-injective : {E A : Type 0} {a b : A} → ◌≡◌ {A = Result E A} (ok a) (ok b) → a ≡ b
ok-injective h = cc

signed_text :
    (v t n tag tag' : Text)
    → v ≡ codes "v2"
    → tag' ≡ tag
    → join (v ∷ t ∷ n ∷ tag ∷ []) ≡ codes "v2:" ++ (t ++ colon ∷ (n ++ colon ∷ tag'))
signed_text v t n tag tag' a b = rw (a, b) refl

module _ (hmac_hex : Text → Text → Text)
    (hmac_bytes : (k m : Text) → All (λ x. x < 256) (hmac_hex k m)) where
  -- The text has the four parts, its time is within the tolerance, its nonce is long enough, and its tag is
  -- the one of the agent, the time and the nonce under the key.
  pub record IsSigned (now : ℕ) (api_key agent_id claimed : Text) (skew timestamp : ℕ)
      (nonce : Text) : Type 0 where
    pub time_text : Text
    pub parts :
        claimed
        ≡ codes "v2:"
          ++ (time_text
              ++ colon ∷ (nonce ++ colon ∷ hmac_hex api_key (message agent_id timestamp nonce)))
    pub time : parse_i64 time_text ≡ some timestamp
    pub nonce_length : 16 ≤ length nonce
    pub fresh : is_skewed (drift now timestamp) skew ≡ false

  -- Provenance that is accepted is signed with the key for the agent, the time and the nonce that come
  -- back, where the code under the key is made of bytes.
  pub verify_provenance_v2-IsSigned :
      (now : ℕ) (api_key agent_id claimed : Text) (skew timestamp : ℕ) (nonce : Text)
      → verify_provenance_v2 hmac_hex now api_key agent_id claimed skew ≡ ok (timestamp, nonce)
      → IsSigned now api_key agent_id claimed skew timestamp nonce
  unfolding verify_provenance_v2
  verify_provenance_v2-IsSigned now api_key agent_id claimed skew timestamp nonce h =
      let f = >>=-eq-ok (ok_or (four (splitn 3 claimed)) wire_malformed) _ h in
      let v = >>=-eq-ok (guard (text_eq f.0.0 (codes "v2")) wire_malformed) _ f.2 in
      let t = >>=-eq-ok (ok_or (parse_i64 f.0.1) wire_malformed) _ v.2 in
      let n =
        >>=-eq-ok (guard (leb 16 (length f.0.2) && all is_ascii_hexdigit f.0.2) wire_malformed) _
          t.2 in
      let g =
        >>=-eq-ok (guard (length f.0.3 == 64 && all is_ascii_hexdigit f.0.3) wire_malformed) _
          n.2 in
      let s =
        >>=-eq-ok
          (guard (if is_skewed (drift now t.0) skew then false else true)
            (clock_skew (drift now t.0)))
          _ g.2 in
      let m =
        >>=-eq-ok
          (guard (constant_time_eq (hmac_hex api_key (message agent_id t.0 f.0.2)) f.0.3)
            hmac_mismatch)
          _ s.2 in
      let tag =
        (constant_time_eq_iff (hmac_hex api_key (message agent_id t.0 f.0.2)) f.0.3 (hmac_bytes _ _)
            (hexdigits-bytes f.0.3 (ground (arith, guard-ok _ _ g.1)))).0
          (guard-ok _ _ m.1) in
      let version = text_eq→eq f.0.0 (codes "v2") (guard-ok _ _ v.1) in
      let whole =
        sym (join-splitn 3 claimed)
        ∙ ap join (four-some (splitn 3 claimed) f.0.0 f.0.1 f.0.2 f.0.3 (ok_or-ok _ _ f.1)) in
      subst (λ x. IsSigned now api_key agent_id claimed skew x.0 x.1) (ok-injective m.2)
        (record {
          time_text = f.0.1;
          parts = whole ∙ signed_text f.0.0 f.0.1 f.0.2 f.0.3 _ version tag;
          time = ok_or-ok _ _ t.1;
          nonce_length = leb→le 16 (length f.0.2) (ground (arith, guard-ok _ _ n.1));
          fresh = ground (arith, guard-ok _ _ s.1);
        })
