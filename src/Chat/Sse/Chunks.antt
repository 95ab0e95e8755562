-- ===== src/Chat/Sse/Chunks.antt =====
-- The frames of a stream do not depend on its chunks.
use Prim.Native.Char.{code}
use mathlib.Core.List.{append_assoc as list_assoc}
use aivirteach_server.Common.{
  ℕ, zero, suc, ◌≤◌, ◌≡◌, refl, sym, ap, ◌∙◌, Bool, true, ◌&&◌, not, String, none, some, List, [],
  ◌∷◌, ◌++◌, ◌==◌, arith, all, Option-cases, inl, inr,
}
use aivirteach_server.Chat.Sse.{
  starts_lf, after_first, replace_crlf, cut, add_raw, drain, append, size, drain_all, feed,
  raw_frames, yielded, parse_sse_stream,
}

size-after_first : (s : String) → size (after_first s) ≤ size s
size-after_first String.[] = omega arith
size-after_first (String.◌∷◌ c s) = omega arith

cut-size : (s raw rest : String) → cut s ≡ some (raw, rest) → suc (size rest) ≤ size s
unfolding cut
cut-size String.[] raw rest h = cc
cut-size (String.◌∷◌ c s) raw rest h = elim (Option-cases (cut s)) [
  | inl e ↦ ground (arith, h, e, size-after_first s)
  | inr ((raw', rest'), e) ↦ ground (arith, h, e, size-after_first s, cut-size s raw' rest' e)
]

starts_lf-append : (s t : String) → starts_lf s ≡ true → starts_lf (append s t) ≡ true
starts_lf-append String.[] t h = cc
starts_lf-append (String.◌∷◌ c s) t h = h

cut-append :
    (s t raw rest : String)
    → cut s ≡ some (raw, rest)
    → cut (append s t) ≡ some (raw, append rest t)
unfolding cut
cut-append String.[] t raw rest h = cc
cut-append (String.◌∷◌ c String.[]) t raw rest h = ground (arith, h)
cut-append (String.◌∷◌ c (String.◌∷◌ d s)) t raw rest h =
    elim (Option-cases (cut (String.◌∷◌ d s))) [
      | inl e ↦ ground (arith, h, e)
      | inr ((raw', rest'), e) ↦ ground (arith, h, e, cut-append (String.◌∷◌ d s) t raw' rest' e)
    ]

drain-none : (n : ℕ) (s : String) → cut s ≡ none → drain n s ≡ ([], s)
unfolding drain
drain-none zero s e = refl
drain-none (suc n) s e = rw (e, drain) refl

drain-some :
    (n : ℕ) (s raw rest : String)
    → cut s ≡ some (raw, rest)
    → drain (suc n) s ≡ add_raw raw (drain n rest)
unfolding drain
drain-some n s raw rest e = rw (e, drain) refl

no_room : (k : ℕ) → suc k ≤ 0 → ⊥
no_room k h = omega (arith, h)

less :
    {k : ℕ} (s : String) {raw rest : String}
    → cut s ≡ some (raw, rest)
    → size s ≤ suc k
    → size rest ≤ k
less {k} s {raw} {rest} e h = omega (arith, h, cut-size s raw rest e)

drain-fuel : (n m : ℕ) (s : String) → size s ≤ n → size s ≤ m → drain n s ≡ drain m s
unfolding drain cut
drain-fuel zero zero s a b = refl
drain-fuel zero (suc m) String.[] a b = refl
drain-fuel zero (suc m) (String.◌∷◌ c s) a b = absurd (no_room (size s) a)
drain-fuel (suc n) zero String.[] a b = refl
drain-fuel (suc n) zero (String.◌∷◌ c s) a b = absurd (no_room (size s) b)
drain-fuel (suc n) (suc m) s a b = elim (Option-cases (cut s)) [
  | inl e ↦ drain-none (suc n) s e ∙ sym (drain-none (suc m) s e)
  | inr ((raw, rest), e) ↦
      drain-some n s raw rest e
      ∙ ap (add_raw raw) (drain-fuel n m rest (less s e a) (less s e b))
      ∙ sym (drain-some m s raw rest e)
]

abbrev pub resume : List String × String → String → List String × String
resume (raws, rest) t = let more = drain_all (append rest t) in (raws ++ more.0, more.1)

drain-append :
    (n m : ℕ) (s t : String)
    → size s ≤ n
    → size (append s t) ≤ m
    → drain m (append s t) ≡ resume (drain n s) t
unfolding drain cut
drain-append zero m String.[] t a b = drain-fuel m (size t) t b (omega arith)
drain-append zero m (String.◌∷◌ c s) t a b = absurd (no_room (size s) a)
drain-append (suc n) zero String.[] t a b = drain-fuel zero (size t) t b (omega arith)
drain-append (suc n) zero (String.◌∷◌ c s) t a b = absurd (no_room (size (append s t)) b)
drain-append (suc n) (suc m) s t a b = elim (Option-cases (cut s)) [
  | inl e ↦
      drain-fuel (suc m) (size (append s t)) (append s t) b (omega arith)
      ∙ sym (ap (λ p. resume p t) (drain-none (suc n) s e))
  | inr ((raw, rest), e) ↦
      drain-some m (append s t) raw (append rest t) (cut-append s t raw rest e)
      ∙ ap (add_raw raw)
          (drain-append n m rest t (less s e a) (less (append s t) (cut-append s t raw rest e) b))
      ∙ sym (ap (λ p. resume p t) (drain-some n s raw rest e))
]

-- No carriage return: the text is its own normal form.
abbrev pub no_cr : String → Bool
no_cr String.[] = true
no_cr (String.◌∷◌ c s) = not (code c == 13) && no_cr s

replace_crlf-no_cr : (s : String) → no_cr s ≡ true → replace_crlf s ≡ s
unfolding replace_crlf
replace_crlf-no_cr String.[] h = refl
replace_crlf-no_cr (String.◌∷◌ c s) h = ground (arith, h, replace_crlf-no_cr s)

no_cr-append : (s t : String) → no_cr (append s t) ≡ (no_cr s && no_cr t)
no_cr-append String.[] t = refl
no_cr-append (String.◌∷◌ c s) t = ground (arith, no_cr-append s t)

no_cr-after_first : (s : String) → no_cr s ≡ true → no_cr (after_first s) ≡ true
no_cr-after_first String.[] h = refl
no_cr-after_first (String.◌∷◌ c s) h = ground (arith, h)

no_cr-cut : (s raw rest : String) → cut s ≡ some (raw, rest) → no_cr s ≡ true → no_cr rest ≡ true
unfolding cut
no_cr-cut String.[] raw rest h n = cc
no_cr-cut (String.◌∷◌ c s) raw rest h n = elim (Option-cases (cut s)) [
  | inl e ↦ ground (arith, h, e, n, no_cr-after_first s)
  | inr ((raw', rest'), e) ↦ ground (arith, h, e, n, no_cr-after_first s, no_cr-cut s raw' rest' e)
]

no_cr-drain : (n : ℕ) (s : String) → no_cr s ≡ true → no_cr (drain n s).1 ≡ true
unfolding drain
no_cr-drain zero s h = h
no_cr-drain (suc n) s h = elim (Option-cases (cut s)) [
  | inl e ↦ rw (drain-none (suc n) s e) h
  | inr ((raw, rest), e) ↦
      rw (drain-some n s raw rest e) (no_cr-drain n rest (no_cr-cut s raw rest e h))
]

append_assoc : (s t u : String) → append (append s t) u ≡ append s (append t u)
append_assoc String.[] t u = refl
append_assoc (String.◌∷◌ c s) t u = ap (λ r. String.◌∷◌ c r) (append_assoc s t u)

feed-plain : (b c : String) → no_cr b ≡ true → no_cr c ≡ true → feed b c ≡ drain_all (append b c)
unfolding feed
feed-plain b c hb hc =
    ap drain_all (replace_crlf-no_cr (append b c) (no_cr-append b c ∙ rw (hb, hc) refl))

feed-append :
    (b c d : String)
    → no_cr b ≡ true
    → no_cr c ≡ true
    → no_cr d ≡ true
    → feed b (append c d) ≡ ((feed b c).0 ++ (feed (feed b c).1 d).0, (feed (feed b c).1 d).1)
feed-append b c d hb hc hd =
    feed-plain b (append c d) hb (no_cr-append c d ∙ rw (hc, hd) refl)
    ∙ ap drain_all (sym (append_assoc b c d))
    ∙ drain-append (size (append b c)) (size (append (append b c) d)) (append b c) d (omega arith)
        (omega arith)
    ∙ sym (
        rw (feed-plain b c hb hc) (
          rw
            (feed-plain (drain_all (append b c)).1 d
              (no_cr-drain (size (append b c)) (append b c) (no_cr-append b c ∙ rw (hb, hc) refl))
              hd)
            refl))

raw_frames-append :
    (b c d : String) (ds : List String)
    → no_cr b ≡ true
    → no_cr c ≡ true
    → no_cr d ≡ true
    → raw_frames b (c ∷ d ∷ ds) ≡ raw_frames b (append c d ∷ ds)
unfolding raw_frames
raw_frames-append b c d ds hb hc hd =
    rw (feed-append b c d hb hc hd) (
      sym (list_assoc (feed b c).0 (feed (feed b c).1 d).0 (raw_frames (feed (feed b c).1 d).1 ds)))

abbrev pub whole : String → List String → String
whole c [] = c
whole c (d ∷ ds) = whole (append c d) ds

raw_frames-whole :
    (c : String) (cs : List String)
    → no_cr c ≡ true
    → all no_cr cs ≡ true
    → raw_frames "" (c ∷ cs) ≡ raw_frames "" (whole c cs ∷ [])
raw_frames-whole c [] h hs = refl
raw_frames-whole c (d ∷ ds) h hs =
    raw_frames-append "" c d ds refl h (first hs)
    ∙ raw_frames-whole (append c d) ds (no_cr-append c d ∙ rw (h, first hs) refl) (others hs)
  where
    first : (no_cr d && all no_cr ds) ≡ true → no_cr d ≡ true
    first e = ground arith

    others : (no_cr d && all no_cr ds) ≡ true → all no_cr ds ≡ true
    others e = ground arith

-- Where the text has no carriage return, the frames do not depend on where the network cuts it into
-- chunks: they are those of the whole text in one chunk.
pub parse_sse_stream-whole :
    (c : String) (cs : List String)
    → no_cr c ≡ true
    → all no_cr cs ≡ true
    → parse_sse_stream (c ∷ cs) ≡ parse_sse_stream (whole c cs ∷ [])
unfolding parse_sse_stream
parse_sse_stream-whole c cs h hs = ap yielded (raw_frames-whole c cs h hs)
