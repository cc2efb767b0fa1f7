-- ===== src/Routes/Sse/Chunks.antt =====
-- src/routes/invoke.rs, SseParser::feed: how the provider's bytes are cut into chunks makes no difference.
use mathlib.Core.List.{append_assoc, append-nil}
use jecp_server.Prelude.{
  ℕ, ◌+◌, ◌≤◌, ◌<◌, ◌≡◌, refl, sym, ap, ◌∙◌, inl, inr, Bool, true, false, ◌&&◌, not, none, some,
  List, [], ◌∷◌, ◌++◌, Text, length, all, ltb, ◌==◌, zero, suc, arith, length-append, Option-cases,
}
use jecp_server.Routes.Sse.{
  SseParser, newline, carriage_return, starts_with, replace_crlf, cut, prepend, process_line,
  process_lines, feed, dispatch, set_field, field_of,
}

abbrev pub with_buf : Text → SseParser → SseParser
with_buf b p = record p { buf = b }

pub cut-length : (c : ℕ) (s line rest : Text) → cut c s ≡ some (line, rest) → length rest < length s
unfolding cut prepend
cut-length c [] line rest h = cc
cut-length c (x ∷ xs) line rest h = elim (Option-cases (cut c xs)) [
  | inl e ↦ ground arith
  | inr ((before, after), e) ↦ ground (arith, cut-length c xs before after e)
]

pub set_field-with_buf :
    (n v b : Text) (p : SseParser) → set_field n v (with_buf b p) ≡ with_buf b (set_field n v p)
unfolding set_field
set_field-with_buf n v b p = ground arith

pub dispatch-with_buf :
    (b : Text) (p : SseParser) → dispatch (with_buf b p) ≡ with_buf b (dispatch p)
unfolding dispatch
dispatch-with_buf b p = ground arith

pub process_line-with_buf :
    (l b : Text) (p : SseParser) → process_line l (with_buf b p) ≡ with_buf b (process_line l p)
unfolding process_line
process_line-with_buf [] b p = dispatch-with_buf b p
process_line-with_buf (c ∷ cs) b p =
    ground (arith, set_field-with_buf (field_of (c ∷ cs)).0 (field_of (c ∷ cs)).1 b p)

pub cut-append :
    (c : ℕ) (s t line rest : Text)
    → cut c s ≡ some (line, rest)
    → cut c (s ++ t) ≡ some (line, rest ++ t)
unfolding cut prepend
cut-append c [] t line rest h = cc
cut-append c (x ∷ xs) t line rest h = elim (Option-cases (cut c xs)) [
  | inl e ↦ ground arith
  | inr ((before, after), e) ↦ ground (arith, cut-append c xs t before after e)
]

pub process_lines-idle : (n : ℕ) (p : SseParser) → cut newline p.buf ≡ none → process_lines n p ≡ p
unfolding process_lines
process_lines-idle zero p h = refl
process_lines-idle (suc n) p h = rw (h, process_lines) refl

pub process_lines-cut :
    (n : ℕ) (p : SseParser) (line rest : Text)
    → cut newline p.buf ≡ some (line, rest)
    → process_lines (suc n) p ≡ process_lines n (process_line line (with_buf rest p))
unfolding process_lines
process_lines-cut n p line rest h = rw (h, process_lines) refl

cut_empty : (c : ℕ) (s : Text) → length s ≤ 0 → cut c s ≡ none
unfolding cut
cut_empty c [] h = refl
cut_empty c (x ∷ xs) h = absurd (omega (arith, h))

-- A whole line is taken off by one round, which no round less would do.
process_line_shorter :
    (p : SseParser) (line rest : Text)
    → cut newline p.buf ≡ some (line, rest)
    → length (process_line line (with_buf rest p)).buf < length p.buf
process_line_shorter p line rest h =
    rw (process_line-with_buf line rest p) (cut-length newline p.buf line rest h)

-- More fuel than the buffer is long changes nothing.
pub process_lines-fuel :
    (n m : ℕ) (p : SseParser)
    → length p.buf ≤ n
    → length p.buf ≤ m
    → process_lines n p ≡ process_lines m p
process_lines-fuel zero m p hn hm =
    process_lines-idle 0 p (cut_empty newline p.buf hn)
    ∙ sym (process_lines-idle m p (cut_empty newline p.buf hn))
process_lines-fuel (suc n) zero p hn hm =
    process_lines-idle (suc n) p (cut_empty newline p.buf hm)
    ∙ sym (process_lines-idle 0 p (cut_empty newline p.buf hm))
process_lines-fuel (suc n) (suc m) p hn hm = elim (Option-cases (cut newline p.buf)) [
  | inl e ↦ process_lines-idle (suc n) p e ∙ sym (process_lines-idle (suc m) p e)
  | inr ((line, rest), e) ↦
      rw (process_lines-cut n p line rest e, process_lines-cut m p line rest e)
        (process_lines-fuel n m (process_line line (with_buf rest p))
          (omega (arith, hn, process_line_shorter p line rest e))
          (omega (arith, hm, process_line_shorter p line rest e)))
]

-- With as much fuel as the buffer is long, no whole line is left in it.
pub process_lines_drains :
    (n : ℕ) (p : SseParser) → length p.buf ≤ n → cut newline (process_lines n p).buf ≡ none
process_lines_drains zero p hn =
    rw (process_lines-idle 0 p (cut_empty newline p.buf hn)) (cut_empty newline p.buf hn)
process_lines_drains (suc n) p hn = elim (Option-cases (cut newline p.buf)) [
  | inl e ↦ rw (process_lines-idle (suc n) p e) e
  | inr ((line, rest), e) ↦ rw (process_lines-cut n p line rest e) (
      process_lines_drains n (process_line line (with_buf rest p))
        (omega (arith, hn, process_line_shorter p line rest e)))
]

abbrev pub append_buf : SseParser → Text → SseParser
append_buf p b = with_buf (p.buf ++ b) p

append_buf_stuck :
    (n m k : ℕ) (p : SseParser) (b : Text)
    → process_lines n p ≡ p
    → length p.buf + length b ≤ m
    → length (process_lines n p).buf + length b ≤ k
    → process_lines m (append_buf p b) ≡ process_lines k (append_buf (process_lines n p) b)
append_buf_stuck n m k p b e hm hk =
    let hk' : length p.buf + length b ≤ k = rw e at hk in
    rw e (
      process_lines-fuel m k (append_buf p b) (omega (arith, length-append p.buf b, hm))
        (omega (arith, length-append p.buf b, hk')))

process_line_buf : (l : Text) (p : SseParser) → (process_line l p).buf ≡ p.buf
process_line_buf l p = ap (λ (q : SseParser). q.buf) (process_line-with_buf l p.buf p)

process_line-append_buf :
    (l b : Text) (p : SseParser) → process_line l (append_buf p b) ≡ append_buf (process_line l p) b
process_line-append_buf l b p = rw (process_line_buf l p) (process_line-with_buf l (p.buf ++ b) p)

append_buf_step :
    (n m k : ℕ) (p : SseParser) (b line rest : Text)
    → cut newline p.buf ≡ some (line, rest)
    → length p.buf + length b ≤ m
    → length (process_lines (suc n) p).buf + length b ≤ k
    → ((fuel : ℕ)
        → length (process_line line (with_buf rest p)).buf + length b ≤ fuel
        → length (process_lines n (process_line line (with_buf rest p))).buf + length b ≤ k
        → process_lines fuel (append_buf (process_line line (with_buf rest p)) b)
          ≡ process_lines k (append_buf (process_lines n (process_line line (with_buf rest p))) b))
    → process_lines m (append_buf p b) ≡ process_lines k (append_buf (process_lines (suc n) p) b)
append_buf_step n zero k p b line rest e hm hk ih =
    absurd (omega (arith, process_line_shorter p line rest e, hm))
append_buf_step n (suc m) k p b line rest e hm hk ih =
    let q = process_line line (with_buf rest p) in
    let hk' : length (process_lines n q).buf + length b ≤ k =
      rw (process_lines-cut n p line rest e) at hk in
    let shorter = process_line_shorter p line rest e in
    let later = ih m (omega (arith, hm, shorter)) hk' in
    rw
      (
        process_lines-cut n p line rest e,
        process_lines-cut m (append_buf p b) line (rest ++ b)
            (cut-append newline p.buf b line rest e),
        process_line-append_buf line b (with_buf rest p),
      )
      later

-- What comes later can be put behind the buffer before the lines are taken or after.
pub process_lines-append_buf :
    (n m k : ℕ) (p : SseParser) (b : Text)
    → length p.buf ≤ n
    → length p.buf + length b ≤ m
    → length (process_lines n p).buf + length b ≤ k
    → process_lines m (append_buf p b) ≡ process_lines k (append_buf (process_lines n p) b)
process_lines-append_buf zero m k p b hn hm hk =
    append_buf_stuck 0 m k p b (process_lines-idle 0 p (cut_empty newline p.buf hn)) hm hk
process_lines-append_buf (suc n) m k p b hn hm hk = elim (Option-cases (cut newline p.buf)) [
  | inl e ↦ append_buf_stuck (suc n) m k p b (process_lines-idle (suc n) p e) hm hk
  | inr ((line, rest), e) ↦ append_buf_step n m k p b line rest e hm hk (λ fuel.
      process_lines-append_buf n fuel k (process_line line (with_buf rest p)) b
        (omega (arith, hn, process_line_shorter p line rest e)))
]

-- The loop over the lines of the whole buffer.
abbrev pub drain : SseParser → SseParser
drain p = process_lines (length p.buf) p

pub drain-append_buf :
    (p : SseParser) (b : Text) → drain (append_buf (drain p) b) ≡ drain (append_buf p b)
drain-append_buf p b = sym (
    process_lines-append_buf (length p.buf) (length (p.buf ++ b)) (length ((drain p).buf ++ b)) p b
      (omega arith) (omega (arith, length-append p.buf b))
      (omega (arith, length-append (drain p).buf b)))

abbrev pub ends_with : ℕ → Text → Bool
ends_with c [] = false
ends_with c (x ∷ []) = x == c
ends_with c (x ∷ y ∷ xs) = ends_with c (y ∷ xs)

pub replace_crlf-append :
    (a b : Text)
    → (ends_with carriage_return a && starts_with newline b) ≡ false
    → replace_crlf (a ++ b) ≡ replace_crlf a ++ replace_crlf b
unfolding replace_crlf starts_with
replace_crlf-append [] b h = refl
replace_crlf-append (x ∷ []) b h = ground arith
replace_crlf-append (x ∷ y ∷ a) b h = ground (arith, replace_crlf-append (y ∷ a) b h)

-- Text of which no byte is a carriage return or above 127.
abbrev pub is_plain : ℕ → Bool
is_plain c = ltb c 128 && not (c == carriage_return)

plain_no_cr : (s : Text) → all is_plain s ≡ true → ends_with carriage_return s ≡ false
plain_no_cr [] h = refl
plain_no_cr (x ∷ []) h = ground arith
plain_no_cr (x ∷ y ∷ s) h = ground (arith, plain_no_cr (y ∷ s))

pub all-append :
    (p : ℕ → Bool) (s t : Text) → all p s ≡ true → all p t ≡ true → all p (s ++ t) ≡ true
all-append p [] t hs ht = ht
all-append p (x ∷ s) t hs ht = ground (arith, all-append p s t)

abbrev pub concat : List Text → Text
concat [] = []
concat (s ∷ ss) = s ++ concat ss

plain_ascii : (s : Text) → all is_plain s ≡ true → all (λ (c : ℕ). ltb c 128) s ≡ true
plain_ascii [] h = refl
plain_ascii (x ∷ s) h = ground (arith, plain_ascii s)

module _ (from_utf8_lossy : Text → Text) where
  -- After any chunk the buffer holds no whole line: the loop over the lines has come to its end.
  pub feed_drains :
      (bytes : Text) (p : SseParser) → cut newline (feed from_utf8_lossy bytes p).buf ≡ none
  unfolding feed
  feed_drains bytes p =
      process_lines_drains (length (p.buf ++ replace_crlf (from_utf8_lossy bytes)))
        (append_buf p (replace_crlf (from_utf8_lossy bytes))) (omega arith)

  -- Two chunks that are decoded apart as they are together, and that do not part a carriage return from
  -- its newline, leave the parser as one chunk of their bytes does.
  pub feed-append :
      (a b : Text) (p : SseParser)
      → from_utf8_lossy (a ++ b) ≡ from_utf8_lossy a ++ from_utf8_lossy b
      → (ends_with carriage_return (from_utf8_lossy a) && starts_with newline (from_utf8_lossy b))
        ≡ false
      → feed from_utf8_lossy b (feed from_utf8_lossy a p) ≡ feed from_utf8_lossy (a ++ b) p
  unfolding feed
  feed-append a b p decoded apart =
      let x = replace_crlf (from_utf8_lossy a) in
      let y = replace_crlf (from_utf8_lossy b) in
      rw
        (
          decoded,
          replace_crlf-append (from_utf8_lossy a) (from_utf8_lossy b) apart,
          sym (append_assoc p.buf x y),
        )
        (drain-append_buf (append_buf p x) y)

  abbrev pub feed_all : List Text → SseParser → SseParser
  feed_all [] p = p
  feed_all (c ∷ cs) p = feed_all cs (feed from_utf8_lossy c p)

  -- Where the decoder leaves ASCII text as it is, a stream of ASCII text with no carriage return leaves the
  -- parser in the same state, with the same events, however its bytes are cut into chunks.
  pub feed_all-concat :
      (ascii : (s : Text) → all (λ (c : ℕ). ltb c 128) s ≡ true → from_utf8_lossy s ≡ s) (c : Text)
      (cs : List Text) (p : SseParser)
      → all (all is_plain) (c ∷ cs) ≡ true
      → feed_all (c ∷ cs) p ≡ feed from_utf8_lossy (concat (c ∷ cs)) p
  feed_all-concat ascii c [] p h = rw (append-nil c) refl
  feed_all-concat ascii c (d ∷ ds) p h =
      let hc : all is_plain c ≡ true = ground arith in
      let hd : all is_plain d ≡ true = ground arith in
      let hcd = all-append is_plain c d hc hd in
      let decoded = λ (s : Text) (hs : all is_plain s ≡ true). ascii s (plain_ascii s hs) in
      rw
        (
          feed-append c d p (rw (decoded (c ++ d) hcd, decoded c hc, decoded d hd) refl)
              (rw (decoded c hc, plain_no_cr c hc) refl),
          sym (append_assoc c d (concat ds)),
        )
        (feed_all-concat ascii (c ++ d) ds p (ground arith))
