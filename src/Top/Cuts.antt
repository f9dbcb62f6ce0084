-- ===== src/Top/Cuts.antt =====
-- scx_cohort/src/top.rs: where `&comm[..18]` cuts.
use Prim.Native.Char.{Char}
use Prim.Native.String.{String}
use scx_cohort.Base.Texts.{then_text}
use scx_cohort.Base.{
  ℕ, ◌+◌, ◌-◌, ◌≤◌, ◌<◌, ◌≡◌, refl, sym, ap, ◌∙◌, true, false, Option, none, some, arith, ltb,
  nat_beq, if_known,
}
use scx_cohort.Top.{len_utf8, byte_len, push_front, slice_to, shorten}

-- The first `n` bytes are whole characters.
abbrev pub Splits : ℕ → String → String → Type 0
Splits n s pre = (post : String) × (s ≡ then_text pre post) × (byte_len pre ≡ n)

-- How a slice comes out.
pub data Sliced (n : ℕ) (s : String) : Option String → Type 0 where
  taken : (pre : String) → Splits n s pre → Sliced n s (some pre)
  cut : ((pre : String) → Splits n s pre → ⊥) → Sliced n s none

byte_len-push : (c : Char) (s : String) → byte_len (String.◌∷◌ c s) ≡ len_utf8 c + byte_len s
unfolding byte_len
byte_len-push c s = refl

len_utf8_positive : (c : Char) → 0 < len_utf8 c
unfolding len_utf8
len_utf8_positive c = ground arith

push_front-Sliced :
    (n : ℕ) (c : Char) (s : String) (o : Option String)
    → len_utf8 c ≤ n
    → Sliced (n - len_utf8 c) s o
    → Sliced n (String.◌∷◌ c s) (push_front c o)
unfolding push_front then_text byte_len
push_front-Sliced n c s o le (taken pre (post, parts, len)) =
    taken (String.◌∷◌ c pre) (post, ap (String.◌∷◌ c) parts, rw (byte_len-push c pre) (omega arith))
push_front-Sliced n c s o le (cut never) = cut whole
  where
    whole : (pre : String) → Splits n (String.◌∷◌ c s) pre → ⊥
    whole String.[] (post, parts, len) =
        let positive = len_utf8_positive c in let none_taken : 0 ≡ n = len in omega arith
    whole (String.◌∷◌ d pre) (post, parts, len) =
        let same : c ≡ d = cc parts in
        let rest : s ≡ then_text pre post = cc parts in
        let total : len_utf8 d + byte_len pre ≡ n = sym (byte_len-push d pre) ∙ len in
        let width : len_utf8 c ≡ len_utf8 d = ap len_utf8 same in
        never pre (post, rest, omega arith)

no_text-nothing : (n : ℕ) → nat_beq n 0 ≡ false → (pre : String) → Splits n String.[] pre → ⊥
unfolding then_text byte_len
no_text-nothing n e String.[] (post, parts, len) = ground arith
no_text-nothing n e (String.◌∷◌ c pre) (post, parts, len) = absurd (cc parts)

-- No part ends within the first character.
first_char-whole :
    (n : ℕ) (c : Char) (s : String)
    → nat_beq n 0 ≡ false
    → ltb n (len_utf8 c) ≡ true
    → (pre : String) → Splits n (String.◌∷◌ c s) pre
    → ⊥
unfolding then_text byte_len
first_char-whole n c s e l String.[] (post, parts, len) = ground arith
first_char-whole n c s e l (String.◌∷◌ d pre) (post, parts, len) =
    let same : c ≡ d = cc parts in
    let width : len_utf8 c ≡ len_utf8 d = ap len_utf8 same in
    let total : len_utf8 d + byte_len pre ≡ n = len in
    let small : n < len_utf8 c = ground arith in omega arith

slice_to-Sliced : (n : ℕ) (s : String) → Sliced n s (slice_to n s)
unfolding slice_to then_text byte_len
slice_to-Sliced n String.[] =
    if_known (Sliced n String.[]) (nat_beq n 0)
      (λ e. taken String.[] (String.[], refl, ground arith)) (λ e. cut (no_text-nothing n e))
slice_to-Sliced n (String.◌∷◌ c s) =
    if_known (Sliced n (String.◌∷◌ c s)) (nat_beq n 0)
      (λ e. taken String.[] (String.◌∷◌ c s, refl, ground arith))
      (λ e.
        if_known (Sliced n (String.◌∷◌ c s)) (ltb n (len_utf8 c))
          (λ l. cut (first_char-whole n c s e l))
          (λ l.
            push_front-Sliced n c s (slice_to (n - len_utf8 c) s) (ground arith)
              (slice_to-Sliced (n - len_utf8 c) s)))

-- The column ends within a character.
abbrev pub IsCut : String → Type 0
IsCut comm = (18 < byte_len comm) × ((pre : String) → Splits 18 comm pre → ⊥)

-- What is shown of a comm: all of it if it fits the column, or else the characters of its first 18 bytes.
pub data Shortened (comm : String) : Option String → Type 0 where
  whole : byte_len comm ≤ 18 → Shortened comm (some comm)
  first_bytes : (pre : String) → 18 < byte_len comm → Splits 18 comm pre → Shortened comm (some pre)
  cutting : IsCut comm → Shortened comm none

pub shorten-Shortened : (comm : String) → Shortened comm (shorten comm)
unfolding shorten
shorten-Shortened comm =
    if_known (Shortened comm) (ltb 18 (byte_len comm))
      (λ e. of_slice (ground arith) (slice_to-Sliced 18 comm)) (λ e. whole (ground arith))
  where
    of_slice : {o : Option String} → 18 < byte_len comm → Sliced 18 comm o → Shortened comm o
    of_slice long (taken pre p) = first_bytes pre long p
    of_slice long (cut never) = cutting (long, never)
